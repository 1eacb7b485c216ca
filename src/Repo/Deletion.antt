-- ===== src/Repo/Deletion.antt =====
-- Events that arrive after a deletion that names them (src/repo/sqlite.rs, `persist_event`).
use floonet_rs.Base.{
  ℕ, ◌≡◌, refl, sym, ap, subst, inl, inr, Bool, true, false, not, ◌&&◌, ◌==◌, nat_eq, string_eq,
  eq_iff, eq_refl, some, List, [], ◌∷◌, ◌++◌, arith, In, any, any_iff, Any-of_In, Any_witness,
  Bool-cases, ok,
}
use floonet_rs.Event.{Event, is_replaceable}
use floonet_rs.Repo.{Row, TagRow, Db, Codec, next_id, delete_events}
use floonet_rs.Repo.Persist.{
  same_key, tag_rows, add_tags, replace_older, replace_older_param, persist_event, deletion_exists,
}
use floonet_rs.Repo.Shape.{settle_deletions-cases, persist_event-cases, replace_older_param-cases}
use floonet_rs.Repo.Tables.{delete_events-keeps, In-filter_iff}
use floonet_rs.Repo.Keys.{IsStore, Determined, SameId, ids-insert}
use floonet_rs.Repo.Saved.{persist_event_count}
use floonet_rs.Repo.Replaceable.{replace_older-Determined}

-- The row and the tag of a deletion by the event's author that names the event.
pub record Names (h : Codec) (e : Event) (r : Row) (t : TagRow) : Type 0 where
  pub author : h.decode e.pubkey ≡ some r.author
  pub row_kind : r.kind ≡ 5
  pub event_id : t.event_id ≡ r.id
  pub name : t.name ≡ "e"
  pub kind : t.kind ≡ 5
  pub value : t.value ≡ e.id

abbrev Stand : Row → TagRow → Db → Type 0
Stand r t db = In r db.events × In t db.tags

In-append : {A : Type 0} (x : A) (xs ys : List A) → In x ys → In x (xs ++ ys)
In-append x [] ys m = m
In-append x (y ∷ xs) ys m = inr (In-append x xs ys m)

module _ (h : Codec) (e : Event) (r : Row) (t : TagRow) (names : Names h e r t) where
  -- A DELETE that does not select the row leaves its tags.
  delete_events-Stand :
      (p : Row → Bool) (db : Db)
      → Determined SameId db.events
      → p r ≡ false
      → Stand r t db
      → Stand r t (delete_events p db)
  unfolding delete_events
  delete_events-Stand p db ids spared (m, mt) =
      let owner = λ (s : Row). s.id == t.event_id && p s in
      let unselected : any owner db.events ≡ false = elim (Bool-cases (any owner db.events)) [
        | inr miss ↦ miss
        | inl hit ↦
            let (s, there, both) =
              Any_witness (λ (s : Row). owner s ≡ true) db.events
                ((any_iff owner db.events).0 hit) in
            let id = names.event_id in
            let same : s ≡ r = ids s r there m (ground arith) in
            let selected : p s ≡ true = ground arith in
            let no_way : p r ≡ true = subst (λ x. p x ≡ true) same selected in absurd (cc)
      ] in
      (
        delete_events-keeps p db r spared m,
        (In-filter_iff
              (λ (u : TagRow). not (any (λ (s : Row). s.id == u.event_id && p s) db.events)) t
              db.tags).1
            (mt, rw unselected refl),
      )

  other_key : e.kind == 5 ≡ false → same_key h e r ≡ false
  other_key other = let kind = names.row_kind in ground arith

  replace_older-Stand :
      (db : Db)
      → Determined SameId db.events
      → e.kind == 5 ≡ false
      → Stand r t db
      → Stand r t (replace_older h e db)
  unfolding replace_older
  replace_older-Stand db ids other stand = elim (Bool-cases (is_replaceable e)) [
    | inr plain ↦ rw plain stand
    | inl special ↦
        let key = other_key other in rw special (delete_events-Stand _ db ids (rw key refl) stand)
  ]

  replace_older_param-Stand :
      (db : Db)
      → Determined SameId db.events
      → e.kind == 5 ≡ false
      → Stand r t db
      → Stand r t (replace_older_param h e db)
  replace_older_param-Stand db ids other stand = elim (replace_older_param-cases h e db) [
    | inl (plain, same) ↦ subst (Stand r t) (sym same) stand
    | inr (p, same, d, param, only) ↦
        subst (Stand r t) (sym same) (delete_events-Stand p db ids (only r (other_key other)) stand)
  ]

  deletion_exists-Stand : (db : Db) → Stand r t db → deletion_exists h e db ≡ true
  unfolding deletion_exists
  deletion_exists-Stand db (m, mt) =
      let author = names.author in
      let mine = eq_refl r.author in
      let name = (eq_iff t.name "e").1 names.name in
      let value = (eq_iff t.value e.id).1 names.value in
      let id = names.event_id in
      let kind = names.kind in
      let hit = (any_iff _ db.tags).1 (
        Any-of_In
          (λ (u : TagRow).
            (u.event_id == r.id && u.name == "e" && u.kind == 5 && u.value == e.id) ≡ true)
          db.tags mt (ground arith)) in
      (any_iff _ db.events).1 (Any-of_In _ db.events m (rw (author, mine) hit))

-- In a store (IsStore), an event that its author has deleted before it arrives, and that is neither a deletion nor a gift
-- wrap, counts as nothing new, and adds no visible row.
pub persist_event_deleted :
    (h : Codec) (e : Event) (db after : Db) (n : ℕ) (r : Row) (t : TagRow)
    → IsStore db
    → Names h e r t
    → In r db.events
    → In t db.tags
    → (e.kind == 5) ≡ false
    → (e.kind == 1059) ≡ false
    → persist_event h e db ≡ ok (after, n)
    → (n ≡ 0) × ((s : Row) → In s after.events → s.hidden ≡ false → In s db.events)
unfolding add_tags
persist_event_deleted h e db after n r t store names m mt other plain done =
    let zeroed : n ≡ 0 = elim (persist_event-cases h e db after n done) [
      | inl (same, nothing) ↦ nothing
      | inr (newer, newer_param, row, inserted, is_row, settled) ↦
          let id = next_id db.events in
          let tagged = add_tags id e inserted in
          let table : inserted.events ≡ row ∷ db.events = ap (λ (d : Db). d.events) is_row.table in
          let tags : inserted.tags ≡ db.tags = ap (λ (d : Db). d.tags) is_row.table in
          let ids : Determined SameId tagged.events =
            subst (Determined SameId) (sym table) (ids-insert row db.events is_row.id store.ids) in
          let stand : Stand r t tagged = (
            subst (In r) (sym table) (inr m),
            In-append t (tag_rows id e e.tags) inserted.tags (subst (In t) (sym tags) mt),
          ) in
          let stand1 = replace_older-Stand h e r t names tagged ids other stand in
          let ids1 = replace_older-Determined h e SameId tagged ids in
          let stand2 = replace_older_param-Stand h e r t names _ ids1 other stand1 in
          let exists = deletion_exists-Stand h e r t names _ stand2 in
          elim (settle_deletions-cases h e id _ after n settled) [
            | inl (author, deletion, known, same, saved) ↦ absurd (cc)
            | inr (inl (same, ignored)) ↦ ignored
            | inr (inr (other1, stays, same, saved)) ↦
                let no_way : true ≡ false = rw (plain, exists) at stays in absurd (cc)
          ]
    ] in
    (zeroed, (persist_event_count h e db after n done).1 zeroed)
