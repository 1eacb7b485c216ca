-- ===== src/Repo/Persist.antt =====
-- `persist_event`, `write_event` and `delete_expired` of src/repo/sqlite.rs. A call is one
-- transaction: it returns the tables after it and the count, or an error, which leaves them as they were.
-- A statement fails if a number does not fit a signed 64-bit column. Rows of equal age may be ordered
-- either way; the model takes the first in the list as the newest.
use mathlib.Core.Option
use floonet_rs.Base.{
  ℕ, zero, suc, String, Bool, true, false, not, ◌&&◌, ◌||◌, Option, none, some, List, [], ◌∷◌, ◌++◌,
  ◌==◌, nat_eq, string_eq, ltb, leb, if◌then◌else◌, length, any, filter, contains, len, Result, ok,
  err,
}
use floonet_rs.Utils.{is_hex}
use floonet_rs.Event.{
  Event, is_replaceable, distinct_param, expiration, single_char_tagname, tag_values_by_name,
}
use floonet_rs.Repo.{Row, TagRow, Db, Codec, equals, next_id, delete_events, hide_events, has_tag}

-- A failure that the caller retries, or another one.
pub data StoreError : Type 0 where
  sqlite_failure : StoreError
  conversion : StoreError

-- A number that can be bound to a parameter of a statement.
abbrev pub bindable : ℕ → Bool
bindable n = ltb n 9223372036854775808

abbrev pub bindable_option : Option ℕ → Bool
bindable_option none = true
bindable_option (some n) = bindable n

-- The row is of the event's author and kind.
abbrev pub same_key : Codec → Event → Row → Bool
same_key h e r = equals r.author (h.decode e.pubkey) && r.kind == e.kind

-- The first query: a replaceable event that is as new stands already.
unfoldable pub superseded : Codec → Event → Db → Bool
superseded h e db =
    is_replaceable e
    && bindable e.created_at
    && any (λ (r : Row). same_key h e r && leb e.created_at r.created_at) db.events

-- The second query, for parameterized replaceable events.
unfoldable pub superseded_param : Codec → Event → Db → Bool
superseded_param h e db = elim (distinct_param e) [
  | none ↦ false
  | some d ↦
      bindable e.created_at
      && any
          (λ (r : Row). same_key h e r && has_tag "d" d db.tags r && leb e.created_at r.created_at)
          db.events
]

abbrev pub new_row : ℕ → Event → String → String → Option String → String → Row
new_row id e hash author delegator content = record {
  id = id;
  event_hash = hash;
  created_at = e.created_at;
  expires_at = expiration e;
  kind = e.kind;
  author = author;
  delegated_by = delegator;
  content = content;
  hidden = false;
}

-- `INSERT OR IGNORE INTO event`: no row is inserted if a NOT NULL column would be NULL or the hash
-- stands already.
unfoldable pub insert_event : Codec → Event → Db → Result StoreError (Option Db)
insert_event h e db =
    if bindable e.created_at && bindable_option (expiration e) && bindable e.kind
    then ok (elim (h.decode e.id) [
      | none ↦ none
      | some hash ↦ elim (h.decode e.pubkey) [
        | none ↦ none
        | some author ↦ elim (h.to_string e) [
          | none ↦ none
          | some content ↦
              if any (λ (r : Row). r.event_hash == hash) db.events
              then none
              else some (record db {
                events =
                    new_row (next_id db.events) e hash author (Option.bind e.delegated_by h.decode)
                      content
                    ∷ db.events;
              })
        ]
      ]
    ])
    else err conversion

-- The loop over the tags: those of at least two elements and a name of one character.
unfoldable pub tag_rows : ℕ → Event → List (List String) → List TagRow
tag_rows ev_id e [] = []
tag_rows ev_id e ((name ∷ value ∷ _) ∷ ts) =
    let rest = tag_rows ev_id e ts in
    elim (single_char_tagname name) [
      | none ↦ rest
      | some _ ↦
          record {
            event_id = ev_id;
            name = name;
            value = value;
            kind = e.kind;
            created_at = e.created_at;
          }
          ∷ rest
    ]
tag_rows ev_id e (_ ∷ ts) = tag_rows ev_id e ts

unfoldable pub add_tags : ℕ → Event → Db → Db
add_tags ev_id e db = record db { tags = tag_rows ev_id e e.tags ++ db.tags }

-- `ORDER BY created_at DESC LIMIT 1`
unfoldable pub newest : List Row → Option Row
newest [] = none
newest (r ∷ rs) = elim (newest rs) [
  | none ↦ some r
  | some s ↦ if ltb r.created_at s.created_at then some s else some r
]

abbrev pub has_id : Option Row → ℕ → Bool
has_id none id = false
has_id (some r) id = r.id == id

-- Older replaceable events of the author and kind are deleted.
unfoldable pub replace_older : Codec → Event → Db → Db
replace_older h e db =
    if is_replaceable e
    then delete_events
        (λ r. same_key h e r && not (has_id (newest (filter (same_key h e) db.events)) r.id)) db
    else db

-- The rows of the join on a `d` tag, as the id of the event and the time of the tag.
unfoldable pub tagged : String → List TagRow → List Row → List (ℕ × ℕ)
tagged d tags [] = []
tagged d tags (r ∷ rs) = tagged_by r.id tags (tagged d tags rs)
  where
    tagged_by : ℕ → List TagRow → List (ℕ × ℕ) → List (ℕ × ℕ)
    tagged_by id [] rest = rest
    tagged_by id (t ∷ ts) rest =
        let others = tagged_by id ts rest in
        if t.event_id == id && t.name == "d" && t.value == d
        then (id, t.created_at) ∷ others
        else others

-- `ORDER BY t.created_at DESC LIMIT -1 OFFSET 1`, of which only the ids count.
unfoldable pub all_but_newest : List (ℕ × ℕ) → List ℕ
all_but_newest [] = []
all_but_newest (p ∷ ps) = others p ps
  where
    others : ℕ × ℕ → List (ℕ × ℕ) → List ℕ
    others best [] = []
    others best (q ∷ qs) =
        let newer = ltb best.1 q.1 in
        (if newer then best.0 else q.0) ∷ others (if newer then q else best) qs

-- Older parameterized replaceable events of the author, kind and `d` value are deleted.
unfoldable pub replace_older_param : Codec → Event → Db → Db
replace_older_param h e db = elim (distinct_param e) [
  | none ↦ db
  | some d ↦
      let older = all_but_newest (tagged d db.tags (filter (same_key h e) db.events)) in
      delete_events (λ r. same_key h e r && contains older r.id) db
]

-- The hashes that a deletion names.
unfoldable pub deleted_hashes : Codec → List String → List String
deleted_hashes h [] = []
deleted_hashes h (v ∷ vs) =
    let rest = deleted_hashes h vs in
    if is_hex v && len v == 64
    then elim (h.decode v) [ none ↦ rest | some hash ↦ hash ∷ rest ]
    else rest

-- A deletion by the author that names the event stands already.
unfoldable pub deletion_exists : Codec → Event → Db → Bool
deletion_exists h e db =
    any
      (λ (r : Row).
        equals r.author (h.decode e.pubkey)
        && any
            (λ (t : TagRow). t.event_id == r.id && t.name == "e" && t.kind == 5 && t.value == e.id)
            db.tags)
      db.events

-- The last part: a deletion hides the events that it names; another event is hidden if it was deleted.
unfoldable pub settle_deletions : Codec → Event → ℕ → Db → Result StoreError (Db × ℕ)
settle_deletions h e ev_id db =
    if e.kind == 5
    then elim (h.decode e.pubkey) [
      | none ↦ err conversion
      | some author ↦
          let hashes = deleted_hashes h (tag_values_by_name e "e") in
          ok (
            hide_events
                (λ r.
                  not (r.kind == 5)
                  && not (r.kind == 1059)
                  && r.author == author
                  && contains hashes r.event_hash)
                db,
            1,
          )
    ]
    else if not (e.kind == 1059) && deletion_exists h e db
    then ok (hide_events (λ r. r.id == ev_id) db, 0)
    else ok (db, 1)

unfoldable pub persist_event : Codec → Event → Db → Result StoreError (Db × ℕ)
persist_event h e db =
    if superseded h e db || superseded_param h e db
    then ok (db, 0)
    else elim (insert_event h e db) [
      | err x ↦ err x
      | ok none ↦ ok (db, 0)
      | ok (some inserted) ↦
          let ev_id = next_id db.events in
          settle_deletions h e ev_id
            (replace_older_param h e (replace_older h e (add_tags ev_id e inserted)))
    ]

-- The loop of `write_event`: `attempt n` is what the n-th call of `persist_event` gives, and at most
-- `left` calls follow the first.
unfoldable pub write_loop : {A : Type 0} → (ℕ → Result StoreError A) → ℕ → ℕ → Result StoreError A
write_loop attempt zero attempts = attempt attempts
write_loop attempt (suc left) attempts = elim (attempt attempts) [
  | ok a ↦ ok a
  | err conversion ↦ err conversion
  | err sqlite_failure ↦ write_loop attempt left (suc attempts)
]

unfoldable pub write_event : {A : Type 0} → (ℕ → Result StoreError A) → Result StoreError A
write_event attempt = write_loop attempt 9 1

abbrev pub has_expired : ℕ → Row → Bool
has_expired now r = elim r.expires_at [ none ↦ false | some t ↦ leb t now ]

unfoldable pub delete_expired : ℕ → Db → Db × ℕ
delete_expired now db =
    (delete_events (has_expired now) db, length (filter (has_expired now) db.events))
