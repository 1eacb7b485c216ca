-- ===== src/Repo/Selection.antt =====
-- Which rows the query of a filter selects (src/repo/sqlite.rs, `query_from_filter`).
use floonet_rs.Base.{
  ℕ, ◌<◌, ◌≤◌, ◌≡◌, refl, sym, ap, ◌∙◌, ◌↔◌, inl, inr, true, false, nat_eq, string_eq, some, List,
  [], ◌∷◌, ◌++◌, arith, In, All, Any, all, all_iff, All-append_iff, Bool-cases,
}
use floonet_rs.Event.{TagOperand}
use floonet_rs.Subscription.{ReqFilter}
use floonet_rs.Subscription.Matching.{IfPresent}
use floonet_rs.Repo.{Row, TagRow, Db, Codec}
use floonet_rs.Repo.Keys.{IsStore}
use floonet_rs.Repo.Query.{
  Clause, query_from_filter, filter_components, holds, selects, author_clauses, kind_clauses,
  id_clauses, tags_clauses, optional,
}
use floonet_rs.Repo.Clauses.{
  OperandHolds, CarriesKey, Holds, authors_iff, ids_iff, kinds_iff, since_iff, until_iff,
  unexpired_iff, tags_iff,
}

-- What the query of a filter asks of a row of `event`.
pub record Selected (h : Codec) (now : ℕ) (rows : List TagRow) (f : ReqFilter) (r : Row)
    : Type 0 where
  pub not_forced : f.force_no_match ≡ false
  pub visible : r.hidden ≡ false
  pub authors : IfPresent (Any (λ a. h.decode a ≡ some r.author)) f.authors
  pub kinds : IfPresent (In r.kind) f.kinds
  pub ids : IfPresent (Any (λ i. h.decode i ≡ some r.event_hash)) f.ids
  pub tags :
      IfPresent (All (λ (query : ℕ × TagOperand). OperandHolds rows r query.0 query.1)) f.tags
  pub since : IfPresent (λ t. t ≤ r.created_at) f.since
  pub until : IfPresent (λ t. r.created_at ≤ t) f.until
  pub unexpired : IfPresent (λ t. now < t) r.expires_at

-- The clauses of a query that is not forced to match nothing, one part after the other.
parts_iff :
    {A : Type 0} (P : A → Type 0) (x : A) (a b c d s u : List A) (z : A)
    → All P (x ∷ (a ++ (b ++ (c ++ (d ++ (s ++ (u ++ (z ∷ []))))))))
      ↔ (P x × All P a × All P b × All P c × All P d × All P s × All P u × P z)
parts_iff P x a b c d s u z =
    let first = All-append_iff P a (b ++ (c ++ (d ++ (s ++ (u ++ (z ∷ [])))))) in
    let second = All-append_iff P b (c ++ (d ++ (s ++ (u ++ (z ∷ []))))) in
    let third = All-append_iff P c (d ++ (s ++ (u ++ (z ∷ [])))) in
    let fourth = All-append_iff P d (s ++ (u ++ (z ∷ []))) in
    let fifth = All-append_iff P s (u ++ (z ∷ [])) in
    let sixth = All-append_iff P u (z ∷ []) in
    (
      λ (hx, h).
          let (ha, h1) = first.0 h in
          let (hb, h2) = second.0 h1 in
          let (hc, h3) = third.0 h2 in
          let (hd, h4) = fourth.0 h3 in
          let (hs, h5) = fifth.0 h4 in
          let (hu, hz) = sixth.0 h5 in (hx, ha, hb, hc, hd, hs, hu, hz.0),
      λ (hx, ha, hb, hc, hd, hs, hu, hz). (
        hx,
        first.1
            (ha, second.1 (hb, third.1 (hc, fourth.1 (hd, fifth.1 (hs, sixth.1 (hu, (hz, tt))))))),
      ),
    )

module _ (h : Codec) (now : ℕ) (rows : List TagRow) (f : ReqFilter) (r : Row) where
  query_clauses :
      f.force_no_match ≡ false
      → (query_from_filter h now f).clauses ≡ Clause.visible ∷ filter_components h now f
  unfolding query_from_filter
  query_clauses free = rw free refl

  components_iff : All (Holds rows r) (Clause.visible ∷ filter_components h now f) ↔ (
      Holds rows r Clause.visible
      × All (Holds rows r) (author_clauses h f.authors)
      × All (Holds rows r) (kind_clauses f.kinds)
      × All (Holds rows r) (id_clauses h f.ids)
      × All (Holds rows r) (tags_clauses f f.tags)
      × All (Holds rows r) (optional Clause.created_since f.since)
      × All (Holds rows r) (optional Clause.created_until f.until)
      × Holds rows r (Clause.unexpired now))
  unfolding filter_components
  components_iff =
      parts_iff (Holds rows r) Clause.visible (author_clauses h f.authors) (kind_clauses f.kinds)
        (id_clauses h f.ids) (tags_clauses f f.tags) (optional Clause.created_since f.since)
        (optional Clause.created_until f.until) (Clause.unexpired now)

  never_selects :
      f.force_no_match ≡ true → ¬ (all (holds rows r) (query_from_filter h now f).clauses ≡ true)
  unfolding query_from_filter holds
  never_selects forced e = let no_way : false ≡ true = rw forced at e in cc

  shown_iff : Holds rows r Clause.visible ↔ (r.hidden ≡ false)
  unfolding holds
  shown_iff = (λ h1. ground arith, λ h1. ground arith)

  -- What is selected has not expired.
  pub selects-unexpired :
      selects rows r (query_from_filter h now f) ≡ true → IfPresent (λ t. now < t) r.expires_at
  unfolding selects
  selects-unexpired e = elim (Bool-cases f.force_no_match) [
    | inl forced ↦ absurd (never_selects forced e)
    | inr free ↦
        let every =
          (all_iff (holds rows r) (Clause.visible ∷ filter_components h now f)).0
            (rw (query_clauses free) at e) in
        let (v, a, k, i, t, s, u, x) = components_iff.0 every in (unexpired_iff rows r now).0 x
  ]

  module _ (carries : CarriesKey rows r) where
    selects_sound : selects rows r (query_from_filter h now f) ≡ true → Selected h now rows f r
    unfolding selects
    selects_sound e = elim (Bool-cases f.force_no_match) [
      | inl forced ↦ absurd (never_selects forced e)
      | inr free ↦
          let every =
            (all_iff (holds rows r) (Clause.visible ∷ filter_components h now f)).0
              (rw (query_clauses free) at e) in
          let (v, a, k, i, t, s, u, x) = components_iff.0 every in
          let kinds = (kinds_iff rows r f.kinds).0 k in
          let since = (since_iff rows r f.since).0 s in
          let until = (until_iff rows r f.until).0 u in
          record {
            not_forced = free;
            visible = shown_iff.0 v;
            authors = (authors_iff rows r h f.authors).0 a;
            kinds = kinds;
            ids = (ids_iff rows r h f.ids).0 i;
            tags = (tags_iff rows r f carries kinds since until f.tags).0 t;
            since = since;
            until = until;
            unexpired = (unexpired_iff rows r now).0 x;
          }
    ]

    selects_complete : Selected h now rows f r → selects rows r (query_from_filter h now f) ≡ true
    unfolding selects
    selects_complete m = rw (query_clauses m.not_forced) (
        (all_iff (holds rows r) (Clause.visible ∷ filter_components h now f)).1 (
          components_iff.1 (
            shown_iff.1 m.visible,
            (authors_iff rows r h f.authors).1 m.authors,
            (kinds_iff rows r f.kinds).1 m.kinds,
            (ids_iff rows r h f.ids).1 m.ids,
            (tags_iff rows r f carries m.kinds m.since m.until f.tags).1 m.tags,
            (since_iff rows r f.since).1 m.since,
            (until_iff rows r f.until).1 m.until,
            (unexpired_iff rows r now).1 m.unexpired,
          )))

-- In a store the owner of a tag is the only row of its id.
IsStore-CarriesKey : (db : Db) (r : Row) → IsStore db → In r db.events → CarriesKey db.tags r
IsStore-CarriesKey db r store m t mt id =
    let (s, ms, id1, kind, time) = store.owners t mt in
    let one = store.ids s r ms m (sym id1 ∙ id) in
    (kind ∙ ap (λ (x : Row). x.kind) one, time ∙ ap (λ (x : Row). x.created_at) one)

-- The query of a filter selects a row exactly if the filter is not forced to match nothing, the row is
-- visible and has not expired, and it has what every field of the filter asks: its author and its hash
-- are among the decoded ones, its kind is listed, its time lies between the bounds, and its tags have
-- the values. The row stands in a store (IsStore).
pub selects_iff :
    (h : Codec) (now : ℕ) (db : Db) (f : ReqFilter) (r : Row)
    → IsStore db
    → In r db.events
    → (selects db.tags r (query_from_filter h now f) ≡ true) ↔ Selected h now db.tags f r
selects_iff h now db f r store m =
    let carries = IsStore-CarriesKey db r store m in
    (selects_sound h now db.tags f r carries, selects_complete h now db.tags f r carries)
