-- ===== src/Repo/Shape.antt =====
-- The ways in which `persist_event` of src/repo/sqlite.rs can end.
use floonet_rs.Base.{
  ℕ, ◌≡◌, refl, ◌⊎◌, inl, inr, Bool, true, false, not, ◌&&◌, ◌||◌, ◌==◌, nat_eq, string_eq, Option,
  none, some, ◌∷◌, arith, any, filter, contains, Bool-cases, Option-cases, Result, Result-cases, ok,
  err, String,
}
use mathlib.Core.Option
use floonet_rs.Event.{Event, distinct_param, expiration, tag_values_by_name}
use floonet_rs.Repo.{Row, Db, Codec, next_id, hide_events, delete_events}
use floonet_rs.Repo.Persist.{
  StoreError, insert_event, add_tags, replace_older, replace_older_param, settle_deletions,
  persist_event, superseded, superseded_param, deleted_hashes, deletion_exists, new_row, same_key,
  tagged, all_but_newest, bindable, bindable_option,
}

-- The rows that a deletion by that author hides.
abbrev pub named_by : Codec → Event → String → Row → Bool
named_by h e author r =
    not (r.kind == 5)
    && not (r.kind == 1059)
    && r.author == author
    && contains (deleted_hashes h (tag_values_by_name e "e")) r.event_hash

pub settle_deletions-cases :
    (h : Codec) (e : Event) (id : ℕ) (db after : Db) (n : ℕ)
    → settle_deletions h e id db ≡ ok (after, n)
    → ((author : String) × (e.kind == 5 ≡ true)
        × (h.decode e.pubkey ≡ some author)
        × (after ≡ hide_events (named_by h e author) db)
        × (n ≡ 1))
      ⊎ ((after ≡ hide_events (λ r. r.id == id) db) × (n ≡ 0))
      ⊎ ((e.kind == 5 ≡ false)
          × (not (e.kind == 1059) && deletion_exists h e db ≡ false)
          × (after ≡ db)
          × (n ≡ 1))
unfolding settle_deletions
settle_deletions-cases h e id db after n done = elim (Bool-cases (e.kind == 5)) [
  | inl deletion ↦ elim (Option-cases (h.decode e.pubkey)) [
    | inl unknown ↦
        let no_way : Path (Result StoreError (Db × ℕ)) (err _) (ok (after, n)) =
          rw (deletion, unknown, settle_deletions) at done in
        absurd (cc)
    | inr (author, known) ↦
        let eq : Path (Result StoreError (Db × ℕ)) (ok (hide_events (named_by h e author) db, 1))
            (ok (after, n)) =
          rw (deletion, known, settle_deletions) at done in
        inl (author, deletion, known, cc, cc)
  ]
  | inr other ↦ elim (Bool-cases (not (e.kind == 1059) && deletion_exists h e db)) [
    | inl gone ↦
        let eq : Path (Result StoreError (Db × ℕ)) (ok (hide_events (λ r. r.id == id) db, 0))
            (ok (after, n)) =
          rw (other, gone, settle_deletions) at done in
        inr (inl (cc, cc))
    | inr stays ↦
        let eq : Path (Result StoreError (Db × ℕ)) (ok (db, 1)) (ok (after, n)) =
          rw (other, stays, settle_deletions) at done in
        inr (inr (other, stays, cc, cc))
  ]
]

-- The deletion of older parameterized replaceable events touches only rows of the event's key.
pub replace_older_param-cases :
    (h : Codec) (e : Event) (db : Db)
    → ((distinct_param e ≡ none) × (replace_older_param h e db ≡ db))
      ⊎ ((p : Row → Bool) × (replace_older_param h e db ≡ delete_events p db)
          × (d : String) × (distinct_param e ≡ some d)
          × ((r : Row) → same_key h e r ≡ false → p r ≡ false))
unfolding replace_older_param
replace_older_param-cases h e db = elim (Option-cases (distinct_param e)) [
  | inl plain ↦ inl (plain, rw (replace_older_param, plain) refl)
  | inr (d, param) ↦
      let older = all_but_newest (tagged d db.tags (filter (same_key h e) db.events)) in
      inr (
        λ r. same_key h e r && contains older r.id,
        rw (replace_older_param, param) refl,
        d,
        param,
        λ r other. rw other refl,
      )
]

-- The row that was inserted, and the table with it.
pub record IsInserted (h : Codec) (e : Event) (db : Db) (row : Row) (inserted : Db) : Type 0 where
  pub table : inserted ≡ record db { events = row ∷ db.events }
  pub id : row.id ≡ next_id db.events
  pub hash : h.decode e.id ≡ some row.event_hash
  pub author : h.decode e.pubkey ≡ some row.author
  pub kind : row.kind ≡ e.kind
  pub created_at : row.created_at ≡ e.created_at
  pub expires_at : row.expires_at ≡ expiration e
  pub hidden : row.hidden ≡ false
  pub fits : bindable e.created_at ≡ true
  pub fresh : any (λ (r : Row). r.event_hash == row.event_hash) db.events ≡ false

pub insert_event-cases :
    (h : Codec) (e : Event) (db : Db) (o : Option Db)
    → insert_event h e db ≡ ok o
    → (o ≡ none)
      ⊎ ((row : Row) × (inserted : Db) × (o ≡ some inserted) × IsInserted h e db row inserted)
unfolding insert_event
insert_event-cases h e db o done =
    elim (Bool-cases (bindable e.created_at && bindable_option (expiration e) && bindable e.kind)) [
      | inr unfit ↦
          let no_way : Path (Result StoreError (Option Db)) (err _) (ok o) =
            rw (insert_event, unfit) at done in
          absurd (cc)
      | inl fits ↦ elim (Option-cases (h.decode e.id)) [
        | inl no_hash ↦
            let eq : Path (Result StoreError (Option Db)) (ok none) (ok o) =
              rw (insert_event, fits, no_hash) at done in
            inl (cc)
        | inr (hash, has_hash) ↦ elim (Option-cases (h.decode e.pubkey)) [
          | inl no_author ↦
              let eq : Path (Result StoreError (Option Db)) (ok none) (ok o) =
                rw (insert_event, fits, has_hash, no_author) at done in
              inl (cc)
          | inr (author, has_author) ↦ elim (Option-cases (h.to_string e)) [
            | inl no_text ↦
                let eq : Path (Result StoreError (Option Db)) (ok none) (ok o) =
                  rw (insert_event, fits, has_hash, has_author, no_text) at done in
                inl (cc)
            | inr (content, has_text) ↦
                elim (Bool-cases (any (λ (r : Row). r.event_hash == hash) db.events)) [
                  | inl known ↦
                      let eq : Path (Result StoreError (Option Db)) (ok none) (ok o) =
                        rw (insert_event, fits, has_hash, has_author, has_text, known) at done in
                      inl (cc)
                  | inr fresh ↦
                      let row =
                        new_row (next_id db.events) e hash author
                          (Option.bind e.delegated_by h.decode) content in
                      let after : Db = record db { events = row ∷ db.events } in
                      let eq : Path (Result StoreError (Option Db)) (ok (some after)) (ok o) =
                        rw (insert_event, fits, has_hash, has_author, has_text, fresh) at done in
                      inr (
                        row,
                        after,
                        cc,
                        record {
                          table = refl;
                          id = refl;
                          hash = has_hash;
                          author = has_author;
                          kind = refl;
                          created_at = refl;
                          expires_at = refl;
                          hidden = refl;
                          fits = ground arith;
                          fresh = fresh;
                        },
                      )
                ]
          ]
        ]
      ]
    ]

-- A call that succeeds changes nothing, or inserts the row and goes on.
pub persist_event-cases :
    (h : Codec) (e : Event) (db after : Db) (n : ℕ)
    → persist_event h e db ≡ ok (after, n)
    → ((after ≡ db) × (n ≡ 0))
      ⊎ ((superseded h e db ≡ false)
          × (superseded_param h e db ≡ false)
          × (row : Row) × (inserted : Db) × IsInserted h e db row inserted
          × (settle_deletions h e (next_id db.events) (
                replace_older_param h e
                  (replace_older h e (add_tags (next_id db.events) e inserted)))
              ≡ ok (after, n)))
unfolding persist_event
persist_event-cases h e db after n done =
    elim (Bool-cases (superseded h e db || superseded_param h e db)) [
      | inl old ↦
          let eq : Path (Result StoreError (Db × ℕ)) (ok (db, 0)) (ok (after, n)) =
            rw (persist_event, old) at done in
          inl (cc, cc)
      | inr newer ↦ elim (Result-cases (insert_event h e db)) [
        | inr (x, failed) ↦
            let no_way : Path (Result StoreError (Db × ℕ)) (err x) (ok (after, n)) =
              rw (persist_event, newer, failed) at done in
            absurd (cc)
        | inl (o, wrote) ↦ elim (insert_event-cases h e db o wrote) [
          | inl nothing ↦
              let eq : Path (Result StoreError (Db × ℕ)) (ok (db, 0)) (ok (after, n)) =
                rw (persist_event, newer, wrote, nothing) at done in
              inl (cc, cc)
          | inr (row, inserted, new, is_row) ↦ inr (
            ground arith,
            ground arith,
            row,
            inserted,
            is_row,
            rw (persist_event, newer, wrote, new) at done,
          )
        ]
      ]
    ]
