-- ===== src/Repo/Frame.antt =====
-- What persisting an event leaves alone (src/repo/sqlite.rs, `persist_event`).
use floonet_rs.Base.{
  ℕ, ◌<◌, ◌≡◌, refl, sym, subst, ◌⊎◌, inl, inr, false, ◌&&◌, ◌==◌, nat_eq, string_eq, eq_iff, some,
  ◌∷◌, arith, In, contains, Bool-cases, Option-cases, ok, String, filter,
}
use floonet_rs.Event.{Event, is_replaceable, distinct_param, is_param_replaceable}
use floonet_rs.Repo.{Row, Db, Codec, next_id, delete_events, equals}
use floonet_rs.Repo.Persist.{
  same_key, tagged, all_but_newest, add_tags, replace_older, replace_older_param, settle_deletions,
  persist_event,
}
use floonet_rs.Repo.Shape.{named_by, settle_deletions-cases, persist_event-cases}
use floonet_rs.Repo.Tables.{delete_events-keeps, hide_events-keeps, id-lt-next_id}

-- The row is a gift wrap, or not of the event's author.
abbrev pub IsForeign : Codec → Event → Row → Type 0
IsForeign h e r = (r.kind ≡ 1059) ⊎ ¬ (h.decode e.pubkey ≡ some r.author)

module _ (h : Codec) (e : Event) (r : Row) where
  foreign-author :
      ¬ (h.decode e.pubkey ≡ some r.author) → equals r.author (h.decode e.pubkey) ≡ false
  foreign-author other = elim (Option-cases (h.decode e.pubkey)) [
    | inl e1 ↦ rw e1 refl
    | inr (a, e1) ↦ rw e1 (elim (Bool-cases (r.author == a)) [
      | inl same ↦ let eq = (eq_iff r.author a).0 same in absurd (other (rw (e1, eq) refl))
      | inr differs ↦ differs
    ])
  ]

  foreign-same_key : IsForeign h e r → e.kind == 1059 ≡ false → same_key h e r ≡ false
  foreign-same_key (inl wrap) plain = ground arith
  foreign-same_key (inr other) plain = rw (foreign-author other) refl

  replace_older-keeps :
      (db : Db) → IsForeign h e r → In r db.events → In r (replace_older h e db).events
  unfolding replace_older is_replaceable
  replace_older-keeps db foreign m = elim (Bool-cases (is_replaceable e)) [
    | inr plain ↦ rw plain m
    | inl special ↦
        let key = foreign-same_key foreign (ground arith) in
        rw special (delete_events-keeps _ db r (rw key refl) m)
  ]

  param_kind : (d : String) → distinct_param e ≡ some d → e.kind == 1059 ≡ false
  unfolding distinct_param is_param_replaceable
  param_kind d param = ground arith

  replace_older_param-keeps :
      (db : Db) → IsForeign h e r → In r db.events → In r (replace_older_param h e db).events
  unfolding replace_older_param
  replace_older_param-keeps db foreign m = elim (Option-cases (distinct_param e)) [
    | inl plain ↦
        let same : replace_older_param h e db ≡ db = rw (replace_older_param, plain) refl in
        subst (λ d. In r d.events) (sym same) m
    | inr (d, param) ↦
        let older = all_but_newest (tagged d db.tags (filter (same_key h e) db.events)) in
        let same : replace_older_param h e db
            ≡ delete_events (λ s. same_key h e s && contains older s.id) db =
          rw (replace_older_param, param) refl in
        let key = foreign-same_key foreign (param_kind d param) in
        subst (λ d. In r d.events) (sym same) (delete_events-keeps _ db r (rw key refl) m)
  ]

  -- The deletion statements leave the row alone.
  settle_deletions-keeps :
      (db after : Db) (id n : ℕ)
      → IsForeign h e r
      → r.id < id
      → In r db.events
      → settle_deletions h e id db ≡ ok (after, n)
      → In r after.events
  settle_deletions-keeps db after id n foreign old m done =
      elim (settle_deletions-cases h e id db after n done) [
        | inl (author, deletion, known, same, one) ↦
            subst (λ d. In r d.events) (sym same)
              (hide_events-keeps _ db r (hidden foreign known) m)
        | inr (inl (same, zeroed)) ↦
            subst (λ d. In r d.events) (sym same) (hide_events-keeps _ db r (ground arith) m)
        | inr (inr (other, stays, same, one)) ↦ subst (λ d. In r d.events) (sym same) m
      ]
    where
      hidden :
          {author : String}
          → IsForeign h e r
          → h.decode e.pubkey ≡ some author
          → named_by h e author r ≡ false
      hidden (inl wrap) known = ground arith
      hidden {author} (inr other) known =
          let key : equals r.author (some author) ≡ false = rw known at (foreign-author other) in
          ground arith

  -- Persisting an event neither removes nor hides a row of another author, or a gift wrap.
  pub persist_event-keeps :
      (db after : Db) (n : ℕ)
      → IsForeign h e r
      → In r db.events
      → persist_event h e db ≡ ok (after, n)
      → In r after.events
  unfolding add_tags
  persist_event-keeps db after n foreign m done = elim (persist_event-cases h e db after n done) [
    | inl (same, none_added) ↦ subst (λ d. In r d.events) (sym same) m
    | inr (newer, newer_param, row, inserted, is_row, settled) ↦
        settle_deletions-keeps _ after (next_id db.events) n foreign (id-lt-next_id r db.events m)
          (replace_older_param-keeps _ foreign
            (replace_older-keeps _ foreign (in_table is_row.table)))
          settled
  ]
    where
      in_table :
          {row : Row} {inserted : Db}
          → inserted ≡ record db { events = row ∷ db.events }
          → In r (add_tags (next_id db.events) e inserted).events
      in_table same = subst (λ (d : Db). In r d.events) (sym same) (inr m)
