-- ===== src/Repo/Keys.antt =====
-- The keys of the table `event` (src/repo/sqlite.rs): rows that share one are the same row.
use floonet_rs.Base.{
  ◌≡◌, refl, sym, ap, ◌∙◌, subst, inl, inr, Bool, true, false, ◌==◌, nat_eq, string_eq, eq_iff,
  List, ◌∷◌, arith, In, any, any_iff, Any-of_In, Bool-cases, if◌then◌else◌,
}
use floonet_rs.Event.{Event, is_replaceable}
use floonet_rs.Repo.{Row, Db, next_id, hide, hide_events, delete_events}
use floonet_rs.Repo.Owners.{Owned, Owned-delete, Owned-hide}
use floonet_rs.Repo.Tables.{delete_events_iff, hide_events_witness, id-lt-next_id}

-- Rows of the table that `same` relates are equal.
abbrev pub Determined : (Row → Row → Type 0) → List Row → Type 0
Determined same rs = (r s : Row) → In r rs → In s rs → same r s → r ≡ s

abbrev pub SameId : Row → Row → Type 0
SameId r s = r.id ≡ s.id

abbrev pub SameHash : Row → Row → Type 0
SameHash r s = r.event_hash ≡ s.event_hash

-- One author, and one kind, which is replaceable.
abbrev pub SameReplaceable : Row → Row → Type 0
SameReplaceable r s =
    (e : Event) × (is_replaceable e ≡ true)
    × (r.kind ≡ e.kind)
    × (s.kind ≡ e.kind)
    × (r.author ≡ s.author)

-- A store: ids and hashes are unique, an author has one event of a replaceable kind, and every tag
-- stands on an event.
pub record IsStore (db : Db) : Type 0 where
  pub ids : Determined SameId db.events
  pub hashes : Determined SameHash db.events
  pub replaceable : Determined SameReplaceable db.events
  pub owners : Owned db

module _ (same : Row → Row → Type 0) where
  pub Determined-subset :
      (rs ts : List Row) → ((r : Row) → In r ts → In r rs) → Determined same rs → Determined same ts
  Determined-subset rs ts sub d r s mr ms k = d r s (sub r mr) (sub s ms) k

  pub Determined-delete :
      (p : Row → Bool) (db : Db)
      → Determined same db.events
      → Determined same (delete_events p db).events
  Determined-delete p db =
      Determined-subset db.events (delete_events p db).events
        (λ r m. ((delete_events_iff p db r).0 m).0)

  -- Hiding keeps a key that does not read `hidden`.
  pub Determined-hide :
      (p : Row → Bool) (db : Db)
      → ((r s : Row) → same (if p r then hide r else r) (if p s then hide s else s) → same r s)
      → Determined same db.events
      → Determined same (hide_events p db).events
  Determined-hide p db stable d r s mr ms k =
      let (r1, there, from) = hide_events_witness p db r mr in
      let (s1, here, from1) = hide_events_witness p db s ms in
      let key : same (if p r1 then hide r1 else r1) (if p s1 then hide s1 else s1) =
        subst (λ x. same (if p r1 then hide r1 else r1) x) from1 (subst (λ x. same x s) from k) in
      let one = d r1 s1 there here (stable r1 s1 key) in
      from ∙ ap (λ (x : Row). if p x then hide x else x) one ∙ sym from1

module _ (p : Row → Bool) (r : Row) where
  pub id-hide : (if p r then hide r else r).id ≡ r.id
  id-hide = elim (Bool-cases (p r)) [ inl e ↦ rw e refl | inr e ↦ rw e refl ]

  pub hash-hide : (if p r then hide r else r).event_hash ≡ r.event_hash
  hash-hide = elim (Bool-cases (p r)) [ inl e ↦ rw e refl | inr e ↦ rw e refl ]

  pub kind-hide : (if p r then hide r else r).kind ≡ r.kind
  kind-hide = elim (Bool-cases (p r)) [ inl e ↦ rw e refl | inr e ↦ rw e refl ]

  pub author-hide : (if p r then hide r else r).author ≡ r.author
  author-hide = elim (Bool-cases (p r)) [ inl e ↦ rw e refl | inr e ↦ rw e refl ]

pub hide-IsStore : (p : Row → Bool) (db : Db) → IsStore db → IsStore (hide_events p db)
hide-IsStore p db store = record {
  ids = Determined-hide SameId p db (λ r s k. sym (id-hide p r) ∙ k ∙ id-hide p s) store.ids;
  hashes =
      Determined-hide SameHash p db (λ r s k. sym (hash-hide p r) ∙ k ∙ hash-hide p s) store.hashes;
  replaceable =
      Determined-hide SameReplaceable p db
        (λ r s (e, special, kr, ks, a). (
          e,
          special,
          sym (kind-hide p r) ∙ kr,
          sym (kind-hide p s) ∙ ks,
          sym (author-hide p r) ∙ a ∙ author-hide p s,
        ))
        store.replaceable;
  owners = Owned-hide p db store.owners;
}

pub delete-IsStore : (p : Row → Bool) (db : Db) → IsStore db → IsStore (delete_events p db)
delete-IsStore p db store = record {
  ids = Determined-delete SameId p db store.ids;
  hashes = Determined-delete SameHash p db store.hashes;
  replaceable = Determined-delete SameReplaceable p db store.replaceable;
  owners = Owned-delete p db store.owners;
}

-- A new id, or a new hash, keeps them unique.
module _ (same : Row → Row → Type 0) (row : Row) (rs : List Row) where
  pub Determined-insert :
      ((s : Row) → In s rs → ¬ same row s)
      → ((s : Row) → In s rs → ¬ same s row)
      → Determined same rs
      → Determined same (row ∷ rs)
  Determined-insert new new1 d r s (inl e) (inl e1) k = e ∙ sym e1
  Determined-insert new new1 d r s (inl e) (inr m) k = absurd (new s m (subst (λ x. same x s) e k))
  Determined-insert new new1 d r s (inr m) (inl e) k = absurd (new1 r m (subst (λ x. same r x) e k))
  Determined-insert new new1 d r s (inr m) (inr m1) k = d r s m m1 k

pub ids-insert :
    (row : Row) (rs : List Row)
    → row.id ≡ next_id rs
    → Determined SameId rs
    → Determined SameId (row ∷ rs)
ids-insert row rs new =
    Determined-insert SameId row rs
      (λ s m k. let old = id-lt-next_id s rs m in omega (arith, old, k, new))
      (λ s m k. let old = id-lt-next_id s rs m in omega (arith, old, k, new))

pub hashes-insert :
    (row : Row) (rs : List Row)
    → any (λ (r : Row). r.event_hash == row.event_hash) rs ≡ false
    → Determined SameHash rs
    → Determined SameHash (row ∷ rs)
hashes-insert row rs fresh =
    Determined-insert SameHash row rs (λ s m k. clash s m (sym k)) (λ s m k. clash s m k)
  where
    clash : (s : Row) → In s rs → ¬ (s.event_hash ≡ row.event_hash)
    clash s m k =
        let hit =
          (any_iff (λ (r : Row). r.event_hash == row.event_hash) rs).1
            (Any-of_In _ rs m ((eq_iff s.event_hash row.event_hash).1 k)) in
        cc
