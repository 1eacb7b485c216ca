-- ===== src/Repo/Saved.antt =====
-- What the count of `persist_event` says (src/repo/sqlite.rs).
use floonet_rs.Base.{
  ℕ, ◌≡◌, refl, sym, ap, ◌∙◌, subst, ◌⊎◌, inl, inr, true, false, not, ◌&&◌, ◌==◌, nat_eq, string_eq,
  eq_refl, none, some, List, [], ◌∷◌, arith, In, any_iff, Any-of_In, Bool-cases, ok, if◌then◌else◌,
  Option-cases, filter, ltb, leb,
}
use floonet_rs.Event.{Event, is_replaceable, distinct_param}
use floonet_rs.Repo.{Row, Db, Codec, next_id, hide}
use floonet_rs.Repo.Persist.{
  same_key, newest, add_tags, replace_older, replace_older_param, settle_deletions, persist_event,
  superseded,
}
use floonet_rs.Repo.Shape.{
  IsInserted, settle_deletions-cases, persist_event-cases, replace_older_param-cases,
}
use floonet_rs.Repo.Tables.{
  delete_events_iff, delete_events-keeps, hide_events-keeps, hide_events_witness, In-filter_iff,
}

newest-In : (rs : List Row) (s : Row) → newest rs ≡ some s → In s rs
unfolding newest
newest-In [] s e = cc
newest-In (r ∷ rs) s e = elim (Option-cases (newest rs)) [
  | inl nothing ↦ let same : some r ≡ some s = rw (newest, nothing) at e in inl (cc)
  | inr (t, there) ↦ elim (Bool-cases (ltb r.created_at t.created_at)) [
    | inl older ↦
        let same : some t ≡ some s = rw (newest, there, older) at e in
        inr (newest-In rs s (there ∙ same))
    | inr newer ↦ let same : some r ≡ some s = rw (newest, there, newer) at e in inl (cc)
  ]
]

-- A row that none of the others is as new as is the newest.
newest-front :
    (r : Row) (rs : List Row)
    → ((s : Row) → In s rs → ltb r.created_at s.created_at ≡ false)
    → newest (r ∷ rs) ≡ some r
unfolding newest
newest-front r rs h = elim (Option-cases (newest rs)) [
  | inl nothing ↦ rw nothing refl
  | inr (t, there) ↦ rw (there, h t (newest-In rs t there)) refl
]

module _ (h : Codec) (e : Event) where
  replace_older-back : (db : Db) (r : Row) → In r (replace_older h e db).events → In r db.events
  unfolding replace_older
  replace_older-back db r m = elim (Bool-cases (is_replaceable e)) [
    | inr plain ↦ rw plain at m
    | inl special ↦ ((delete_events_iff _ db r).0 (rw special at m)).0
  ]

  replace_older_param-back :
      (db : Db) (r : Row) → In r (replace_older_param h e db).events → In r db.events
  replace_older_param-back db r m = elim (replace_older_param-cases h e db) [
    | inl (plain, same) ↦ subst (λ (d : Db). In r d.events) same m
    | inr (p, same, d, param, only) ↦
        ((delete_events_iff p db r).0 (subst (λ (d : Db). In r d.events) same m)).0
  ]

  -- The row that was inserted is the newest of its key, since nothing superseded it.
  replace_older-new :
      (db : Db) (row : Row) (inserted : Db)
      → superseded h e db ≡ false
      → IsInserted h e db row inserted
      → In row (replace_older h e (add_tags (next_id db.events) e inserted)).events
  unfolding replace_older superseded add_tags
  replace_older-new db row inserted newer is_row = elim (Bool-cases (is_replaceable e)) [
    | inr plain ↦ rw (plain, is_row.table) (inl refl)
    | inl special ↦
        let hit : same_key h e row ≡ true = new_key is_row.author is_row.kind in
        let top : newest (row ∷ filter (same_key h e) db.events) ≡ some row =
          (newest-front row (filter (same_key h e) db.events)
            (λ s m. older special s ((In-filter_iff (same_key h e) s db.events).0 m))) in
        rw (special, is_row.table)
          (delete_events-keeps _ _ row (rw (hit, top) (self (row.id))) (inl refl))
  ]
    where
      new_key : h.decode e.pubkey ≡ some row.author → row.kind ≡ e.kind → same_key h e row ≡ true
      new_key author kind = let same = eq_refl row.author in rw author (ground arith)

      self : (n : ℕ) → not (n == n) ≡ false
      self n = ground arith

      older :
          is_replaceable e ≡ true
          → (s : Row) → In s db.events × (same_key h e s ≡ true)
          → ltb row.created_at s.created_at ≡ false
      older special1 s (m, key) = elim (Bool-cases (leb e.created_at s.created_at)) [
        | inl as_new ↦
            let hit =
              (any_iff (λ (r : Row). same_key h e r && leb e.created_at r.created_at) db.events).1
                (Any-of_In _ db.events m (rw (key, as_new) refl)) in
            let at = is_row.created_at in
            let fits = is_row.fits in
            let seen : true ≡ false = rw (special1, fits, hit) at newer in cc
        | inr newer1 ↦ let at = is_row.created_at in ground arith
      ]

  settle_deletions-visible :
      (db after : Db) (id n : ℕ) (row : Row)
      → row.kind ≡ e.kind
      → In row db.events
      → settle_deletions h e id db ≡ ok (after, n)
      → n ≡ 1
      → In row after.events
  settle_deletions-visible db after id n row kind m done one =
      elim (settle_deletions-cases h e id db after n done) [
        | inl (author, deletion, known, same, saved) ↦
            subst (λ (d : Db). In row d.events) (sym same)
              (hide_events-keeps _ db row (ground arith) m)
        | inr (inl (same, ignored)) ↦ absurd (cc)
        | inr (inr (other, stays, same, saved)) ↦ subst (λ (d : Db). In row d.events) (sym same) m
      ]

  -- An event that is reported saved stands in the table and is visible, unless it is parameterized
  -- replaceable; of an event that is not, no visible row was added.
  pub persist_event_count :
      (db after : Db) (n : ℕ)
      → persist_event h e db ≡ ok (after, n)
      → (distinct_param e ≡ none
          → n ≡ 1
          → (row : Row) × In row after.events
            × (h.decode e.id ≡ some row.event_hash)
            × (h.decode e.pubkey ≡ some row.author)
            × (row.kind ≡ e.kind)
            × (row.hidden ≡ false))
        × (n ≡ 0 → (r : Row) → In r after.events → r.hidden ≡ false → In r db.events)
        × ((n ≡ 0) ⊎ (n ≡ 1))
  unfolding add_tags
  persist_event_count db after n done = elim (persist_event-cases h e db after n done) [
    | inl (same, zeroed) ↦ (
      λ _ one. absurd (cc),
      λ _ r m visible. subst (λ (d : Db). In r d.events) same m,
      inl zeroed,
    )
    | inr (newer, newer_param, row, inserted, is_row, settled) ↦
        let id = next_id db.events in
        let replaced = replace_older h e (add_tags id e inserted) in
        (
          λ plain one.
              let there = replace_older-new db row inserted newer is_row in
              let kept : In row (replace_older_param h e replaced).events =
                elim (replace_older_param-cases h e replaced) [
                  | inl (none_given, same) ↦ subst (λ (d : Db). In row d.events) (sym same) there
                  | inr (p, same, d, param, only) ↦ absurd (cc)
                ] in
              (
                row,
                settle_deletions-visible _ after id n row is_row.kind kept settled one,
                is_row.hash,
                is_row.author,
                is_row.kind,
                is_row.hidden,
              ),
          λ zeroed r m visible.
              elim (settle_deletions-cases h e id (replace_older_param h e replaced) after n
                settled) [
                  | inl (author, deletion, known, same, saved) ↦ absurd (cc)
                  | inr (inl (same, ignored)) ↦
                      let (s, there, from) =
                        hide_events_witness _ _ r (subst (λ (d : Db). In r d.events) same m) in
                      let back = replace_older-back _ s (replace_older_param-back _ s there) in
                      not_new r s is_row.table is_row.id back from visible
                  | inr (inr (other, stays, same, saved)) ↦ absurd (cc)
                ],
          elim (settle_deletions-cases h e id (replace_older_param h e replaced) after n settled) [
            | inl (author, deletion, known, same, saved) ↦ inr saved
            | inr (inl (same, ignored)) ↦ inl ignored
            | inr (inr (other, stays, same, saved)) ↦ inr saved
          ],
        )
  ]
    where
      not_new :
          (r s : Row) {row : Row} {inserted : Db}
          → inserted ≡ record db { events = row ∷ db.events }
          → row.id ≡ next_id db.events
          → In s inserted.events
          → r ≡ (if s.id == next_id db.events then hide s else s)
          → r.hidden ≡ false
          → In r db.events
      not_new r s table id m from visible = elim (subst (λ (d : Db). In s d.events) table m) [
        | inl e1 ↦
            let hit : s.id == next_id db.events ≡ true =
              let same = ap (λ (x : Row). x.id) e1 in ground arith in
            let gone : r ≡ hide s = rw hit at from in
            let no_way : r.hidden ≡ true = ap (λ (x : Row). x.hidden) gone in absurd (cc)
        | inr old ↦ elim (Bool-cases (s.id == next_id db.events)) [
          | inl hit ↦
              let gone : r ≡ hide s = rw hit at from in
              let no_way : r.hidden ≡ true = ap (λ (x : Row). x.hidden) gone in absurd (cc)
          | inr miss ↦
              let same : r ≡ s = rw miss at from in subst (λ x. In x db.events) (sym same) old
        ]
      ]
