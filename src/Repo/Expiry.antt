-- ===== src/Repo/Expiry.antt =====
-- `delete_expired` cannot be seen by a query (src/repo/sqlite.rs).
use floonet_rs.Base.{
  ℕ, ◌<◌, ◌≤◌, ◌≡◌, refl, sym, ◌∙◌, subst, ◌↔◌, inl, inr, Bool, true, false, not, ◌&&◌, ◌==◌,
  nat_eq, List, [], ◌∷◌, arith, In, any, all, any_iff, filter, Any_witness, Bool-cases,
  Option-cases,
}
use floonet_rs.Subscription.{ReqFilter}
use floonet_rs.Subscription.Matching.{IfPresent}
use floonet_rs.Repo.{Row, TagRow, Db, Codec, delete_events}
use floonet_rs.Repo.Persist.{has_expired, delete_expired}
use floonet_rs.Repo.Query.{Clause, Query, query_from_filter, holds, selects}
use floonet_rs.Repo.Selection.{selects-unexpired}
use floonet_rs.Repo.Tables.{delete_events_iff}
use floonet_rs.Repo.Keys.{IsStore, Determined, SameId}

-- A filter that keeps whatever passes the test does not change whether something passes.
any-filter :
    {A : Type 0} (p keep : A → Bool) (xs : List A)
    → ((x : A) → p x ≡ true → keep x ≡ true)
    → any p (filter keep xs) ≡ any p xs
any-filter p keep [] h = refl
any-filter p keep (x ∷ xs) h =
    let ih = any-filter p keep xs h in
    elim (Bool-cases (keep x)) [
      | inl kept ↦ rw (kept, ih) refl
      | inr dropped ↦ elim (Bool-cases (p x)) [
        | inl hit ↦ let no_way = h x hit in absurd (cc)
        | inr miss ↦ rw (dropped, miss) ih
      ]
    ]

all-cong : {A : Type 0} (p q : A → Bool) (xs : List A) → ((x : A) → p x ≡ q x) → all p xs ≡ all q xs
all-cong p q [] h = refl
all-cong p q (x ∷ xs) h = rw (h x, all-cong p q xs h) refl

module _ (db : Db) (r : Row) (ids : Determined SameId db.events) (p : Row → Bool) where
  -- The tags of a row that is not deleted stay.
  owned :
      In r db.events
      → p r ≡ false
      → (t : TagRow) → t.event_id ≡ r.id
      → not (any (λ (s : Row). s.id == t.event_id && p s) db.events) ≡ true
  owned m spared t id = elim (Bool-cases (any (λ (s : Row). s.id == t.event_id && p s) db.events)) [
    | inr miss ↦ rw miss refl
    | inl hit ↦
        let (s, there, both) = Any_witness _ db.events ((any_iff _ db.events).0 hit) in
        let same : s ≡ r = ids s r there m (ground arith) in
        let selected : p s ≡ true = ground arith in
        let no_way : p r ≡ true = subst (λ x. p x ≡ true) same selected in absurd (cc)
  ]

  holds-delete :
      In r db.events
      → p r ≡ false
      → (c : Clause) → holds (delete_events p db).tags r c ≡ holds db.tags r c
  unfolding holds delete_events
  holds-delete m spared (Clause.tag_in key values kinds since until) =
      any-filter _ _ db.tags (λ t hit. owned m spared t (ground arith))
  holds-delete m spared Clause.never = refl
  holds-delete m spared (Clause.author_is authors) = refl
  holds-delete m spared (Clause.kind_in ks) = refl
  holds-delete m spared (Clause.hash_is hashes) = refl
  holds-delete m spared (Clause.created_since t) = refl
  holds-delete m spared (Clause.created_until t) = refl
  holds-delete m spared Clause.visible = refl
  holds-delete m spared (Clause.unexpired t) = refl

  selects-delete :
      (q : Query)
      → In r db.events
      → p r ≡ false
      → selects (delete_events p db).tags r q ≡ selects db.tags r q
  unfolding selects
  selects-delete q m spared = all-cong _ _ q.clauses (holds-delete m spared)

-- A filter's query, made at the time of the deletion or later, selects the same rows before and after
-- the expired events are deleted from a store (IsStore).
pub delete_expired_unobservable :
    (h : Codec) (now later : ℕ) (f : ReqFilter) (db : Db) (r : Row)
    → IsStore db
    → now ≤ later
    → (In r db.events × (selects db.tags r (query_from_filter h later f) ≡ true)) ↔ (
        In r (delete_expired now db).0.events
        × (selects (delete_expired now db).0.tags r (query_from_filter h later f) ≡ true))
unfolding delete_expired
delete_expired_unobservable h now later f db r store order =
    let p = has_expired now in
    let q = query_from_filter h later f in
    let step = selects-delete db r store.ids p q in
    (
      λ (m, hit).
          let spared = not_expired (selects-unexpired h later db.tags f r hit) in
          ((delete_events_iff p db r).1 (m, rw spared refl), step m spared ∙ hit),
      λ (m, hit).
          let (m1, stays) = (delete_events_iff p db r).0 m in
          (m1, sym (step m1 (kept stays)) ∙ hit),
    )
  where
    not_expired : IfPresent (λ t. later < t) r.expires_at → has_expired now r ≡ false
    not_expired fresh = elim (Option-cases r.expires_at) [
      | inl e ↦ rw e refl
      | inr (t, e) ↦ let bound : later < t = rw e at fresh in rw e (ground arith)
    ]

    kept : {b : Bool} → not b ≡ true → b ≡ false
    kept e = ground arith
