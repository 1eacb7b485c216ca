-- ===== src/Repo/Replaceable.antt =====
-- The invariant of the store under `persist_event` and `delete_expired` (src/repo/sqlite.rs).
use floonet_rs.Base.{
  ℕ, ◌≡◌, refl, sym, ap, ◌∙◌, subst, inl, inr, Bool, true, false, not, ◌&&◌, nat_eq, string_eq,
  eq_iff, Option, none, some, List, ◌∷◌, ◌++◌, arith, In, Bool-cases, ok, String, Option-cases,
  filter,
}
use floonet_rs.Event.{Event, is_replaceable, distinct_param}
use floonet_rs.Repo.{Row, Db, Codec, next_id}
use floonet_rs.Repo.Persist.{
  same_key, has_id, newest, add_tags, replace_older, replace_older_param, settle_deletions,
  tag_rows, persist_event, delete_expired, has_expired,
}
use floonet_rs.Repo.Shape.{settle_deletions-cases, persist_event-cases}
use floonet_rs.Repo.Owners.{Owned, Owned-delete, Owned-insert}
use floonet_rs.Repo.Tables.{delete_events_iff}
use floonet_rs.Repo.Keys.{
  IsStore, Determined, SameId, SameHash, SameReplaceable, Determined-delete, Determined-insert,
  hide-IsStore, delete-IsStore, ids-insert, hashes-insert,
}

module _ (h : Codec) (e : Event) where
  pub replace_older-Determined :
      (same : Row → Row → Type 0) (db : Db)
      → Determined same db.events
      → Determined same (replace_older h e db).events
  unfolding replace_older
  replace_older-Determined same db d = elim (Bool-cases (is_replaceable e)) [
    | inr plain ↦ rw plain d
    | inl special ↦ rw special (Determined-delete same _ db d)
  ]

  replace_older-Owned : (db : Db) → Owned db → Owned (replace_older h e db)
  unfolding replace_older
  replace_older-Owned db owned = elim (Bool-cases (is_replaceable e)) [
    | inr plain ↦ rw plain owned
    | inl special ↦ rw special (Owned-delete _ db owned)
  ]

  replace_older_param-IsStore : (db : Db) → IsStore db → IsStore (replace_older_param h e db)
  unfolding replace_older_param
  replace_older_param-IsStore db store = elim (Option-cases (distinct_param e)) [
    | inl plain ↦ rw (replace_older_param, plain) store
    | inr (d, param) ↦ rw (replace_older_param, param) (delete-IsStore _ db store)
  ]

  settle_deletions-IsStore :
      (db after : Db) (id n : ℕ)
      → IsStore db
      → settle_deletions h e id db ≡ ok (after, n)
      → IsStore after
  settle_deletions-IsStore db after id n store done =
      elim (settle_deletions-cases h e id db after n done) [
        | inl (author, deletion, known, same, one) ↦
            subst IsStore (sym same) (hide-IsStore _ db store)
        | inr (inl (same, zeroed)) ↦ subst IsStore (sym same) (hide-IsStore _ db store)
        | inr (inr (other, stays, same, one)) ↦ subst IsStore (sym same) store
      ]

  has_id_unique : (o : Option Row) (a b : ℕ) → has_id o a ≡ true → has_id o b ≡ true → a ≡ b
  has_id_unique none a b p q = absurd (cc)
  has_id_unique (some r) a b p q = ground arith

  same_key-of_author :
      (author : String) (r : Row)
      → h.decode e.pubkey ≡ some author
      → r.author ≡ author
      → r.kind ≡ e.kind
      → same_key h e r ≡ true
  same_key-of_author author r known a k =
      let hit = (eq_iff r.author author).1 a in rw known (ground arith)

  same_key-cong :
      (r s : Row) → r.author ≡ s.author → r.kind ≡ s.kind → same_key h e r ≡ same_key h e s
  same_key-cong r s a k = rw (a, k) refl

  -- What stands beside the new row under another key stood before.
  old_row :
      (row r : Row) (old : List Row)
      → h.decode e.pubkey ≡ some row.author
      → row.kind ≡ e.kind
      → same_key h e r ≡ false
      → In r (row ∷ old)
      → In r old
  old_row row r old author kind other (inl same) =
      let hit =
        same_key-of_author row.author r author (ap (λ (x : Row). x.author) same)
          (ap (λ (x : Row). x.kind) same ∙ kind) in
      absurd (cc)
  old_row row r old author kind other (inr m) = m

  is_replaceable-kind : (e1 : Event) → e.kind ≡ e1.kind → is_replaceable e ≡ is_replaceable e1
  unfolding is_replaceable
  is_replaceable-kind e1 k = rw k refl

  -- After the older rows of the key are deleted, the survivors of the key share their id.
  replace_older-SameReplaceable :
      (db : Db) (row : Row) (old : List Row)
      → db.events ≡ row ∷ old
      → h.decode e.pubkey ≡ some row.author
      → row.kind ≡ e.kind
      → Determined SameId db.events
      → Determined SameReplaceable old
      → Determined SameReplaceable (replace_older h e db).events
  unfolding replace_older
  replace_older-SameReplaceable db row old table author kind ids single =
      elim (Bool-cases (is_replaceable e)) [
        | inr plain ↦
            let other : (e1 : Event) → is_replaceable e1 ≡ true → ¬ (row.kind ≡ e1.kind) =
              λ e1 special k. let same = is_replaceable-kind e1 (sym kind ∙ k) in cc in
            rw (plain, table)
              (Determined-insert SameReplaceable row old
                (λ s m (e1, special, k, k1, a). other e1 special k)
                (λ s m (e1, special, k, k1, a). other e1 special k1) single)
        | inl special ↦ rw special (λ r s mr ms (e1, special1, k, k1, a).
            let (there, stays) = (delete_events_iff _ db r).0 mr in
            let (here, stays1) = (delete_events_iff _ db s).0 ms in
            let key = same_key-cong r s a (k ∙ sym k1) in
            elim (Bool-cases (same_key h e r)) [
              | inl hit ↦
                  let best = newest (filter (same_key h e) db.events) in
                  let one : has_id best r.id ≡ true = left_alone _ _ hit stays in
                  let two : has_id best s.id ≡ true = left_alone _ _ (sym key ∙ hit) stays1 in
                  ids r s there here (has_id_unique best r.id s.id one two)
              | inr miss ↦
                  single r s (old_row row r old author kind miss (subst (In r) table there))
                    (old_row row s old author kind (sym key ∙ miss) (subst (In s) table here))
                    (e1, special1, k, k1, a)
            ])
      ]
    where
      left_alone : (a b : Bool) → a ≡ true → not (a && not b) ≡ true → b ≡ true
      left_alone a b p q = ground arith

-- One author has at most one event of a replaceable kind, ids and hashes are unique, and every tag
-- stands on an event and carries its kind and time: persisting an event keeps this, whatever the event.
pub persist_event-IsStore :
    (h : Codec) (e : Event) (db after : Db) (n : ℕ)
    → IsStore db
    → persist_event h e db ≡ ok (after, n)
    → IsStore after
unfolding add_tags
persist_event-IsStore h e db after n store done = elim (persist_event-cases h e db after n done) [
  | inl (same, zeroed) ↦ subst IsStore (sym same) store
  | inr (newer, newer_param, row, inserted, is_row, settled) ↦
      let id = next_id db.events in
      let tagged_db = add_tags id e inserted in
      let table : tagged_db.events ≡ row ∷ db.events = ap (λ (d : Db). d.events) is_row.table in
      let ids =
        subst (Determined SameId) (sym table) (ids-insert row db.events is_row.id store.ids) in
      let hashes =
        subst (Determined SameHash) (sym table)
          (hashes-insert row db.events is_row.fresh store.hashes) in
      let owned : Owned tagged_db =
        subst (λ (d : Db). Owned (add_tags id e d)) (sym is_row.table)
          (subst
            (λ k.
              Owned (record { events = row ∷ db.events; tags = tag_rows k e e.tags ++ db.tags }))
            is_row.id (Owned-insert row e db is_row.kind is_row.created_at store.owners)) in
      let replaced : IsStore (replace_older h e tagged_db) = record {
        ids = replace_older-Determined h e SameId tagged_db ids;
        hashes = replace_older-Determined h e SameHash tagged_db hashes;
        replaceable =
            replace_older-SameReplaceable h e tagged_db row db.events table is_row.author
              is_row.kind ids store.replaceable;
        owners = replace_older-Owned h e tagged_db owned;
      } in
      let rest = replace_older_param-IsStore h e (replace_older h e tagged_db) replaced in
      settle_deletions-IsStore h e _ after id n rest settled
]

-- Deleting what has expired keeps it too.
pub delete_expired-IsStore : (now : ℕ) (db : Db) → IsStore db → IsStore (delete_expired now db).0
unfolding delete_expired
delete_expired-IsStore now db store = delete-IsStore (has_expired now) db store
