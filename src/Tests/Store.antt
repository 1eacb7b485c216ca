-- ===== src/Tests/Store.antt =====
-- Examples of the store: a gift wrap, a profile, a deletion and a query.
use mathlib.Core.Option
use floonet_rs.Base.{
  subst, sym, ℕ, ◌≤◌, String, ◌≡◌, refl, ◌↔◌, ◌⊎◌, inl, inr, true, false, none, some, [], ◌∷◌, In,
  arith, Result, ok, err, if◌then◌else◌, ◌==◌, nat_eq,
}
use floonet_rs.Event.{
  is_param_replaceable, expiration, Event, tag_values_by_name, distinct_param, is_replaceable,
  is_param_replaceable, expiration, single_char_tagname, values_named,
}
use floonet_rs.Utils.{is_hex, parse_u64}
use floonet_rs.Subscription.{ReqFilter}
use floonet_rs.Repo.{Row, TagRow, Db, Codec, next_id, delete_events, hide_events}
use floonet_rs.Repo.Persist.{
  superseded_param, insert_event, settle_deletions, superseded, StoreError, persist_event,
  write_event, delete_expired, deleted_hashes, superseded, superseded_param, insert_event,
  settle_deletions, deletion_exists, replace_older, replace_older_param, add_tags, newest,
  all_but_newest, tag_rows, tagged,
}
use floonet_rs.Repo.Query.{query_from_filter, selects}
use floonet_rs.Repo.Keys.{IsStore}
use floonet_rs.Repo.Owners.{Owned, HasOwner}
use floonet_rs.Repo.Frame.{persist_event-keeps}
use floonet_rs.Repo.Reached.{Reached, Reached-IsStore}
use floonet_rs.Repo.Saved.{persist_event_count}
use floonet_rs.Repo.Deletion.{persist_event_deleted}
use floonet_rs.Repo.Hiding.{persist_event_deletes}
use floonet_rs.Repo.Retry.{IsLast, write_event-stops}
use floonet_rs.Repo.Selection.{Selected, selects_iff}
use floonet_rs.Repo.Expiry.{delete_expired_unobservable}
use floonet_rs.Tests.{key_hex, event_of, note, filter_of}

abbrev codec : Codec
codec = record { decode = λ s. some s; to_string = λ e. some "{}" }

abbrev row_of : ℕ → String → ℕ → String → Row
row_of id hash kind author = record {
  id = id;
  event_hash = hash;
  created_at = 900;
  expires_at = none;
  kind = kind;
  author = author;
  delegated_by = none;
  content = "{}";
  hidden = false;
}

abbrev empty : Db
empty = record { events = []; tags = [] }

abbrev one_row : Row → Db
one_row r = record { events = r ∷ []; tags = [] }

abbrev wrap_row : Row
wrap_row = row_of 1 "wrap" 1059 key_hex

abbrev note_row : Row
note_row = row_of 1 key_hex 1 key_hex

-- The tables after a call that succeeds.
abbrev after_call : Result StoreError (Db × ℕ) → Db
after_call (ok (db, _)) = db
after_call (err _) = empty

abbrev profile : Event
profile = event_of 0 1000 []

abbrev first_profile : Event
first_profile = record (event_of 0 900 (("t" ∷ "grin" ∷ []) ∷ [])) { id = "first" }

-- The tables after both profiles.
abbrev two_profiles : Db
two_profiles =
    after_call (persist_event codec profile (after_call (persist_event codec first_profile empty)))

abbrev deletion : Event
deletion = event_of 5 1000 (("e" ∷ key_hex ∷ []) ∷ [])

one_row-IsStore : (r : Row) → IsStore (one_row r)
one_row-IsStore r = record {
  ids = λ a b m n k. only a b m n;
  hashes = λ a b m n k. only a b m n;
  replaceable = λ a b m n k. only a b m n;
  owners = λ t m. absurd m;
}
  where
    only : (a b : Row) → In a (r ∷ []) → In b (r ∷ []) → a ≡ b
    only a b (inl e) (inl f) = cc
    only a b (inr m) n = absurd m
    only a b (inl e) (inr n) = absurd n

abbrev hidden_wrap : Row
hidden_wrap = row_of 1 key_hex 1059 key_hex

abbrev deletion_row : Row
deletion_row = row_of 1 "deletion" 5 key_hex

abbrev deletion_tag : TagRow
deletion_tag = record { event_id = 1; name = "e"; value = "canonical"; kind = 5; created_at = 900 }

abbrev deleted_db : Db
deleted_db = record { events = deletion_row ∷ []; tags = deletion_tag ∷ [] }

deletion_on_wrap :
    persist_event codec deletion (one_row wrap_row)
    ≡ ok (after_call (persist_event codec deletion (one_row wrap_row)), 1)
unfolding persist_event superseded is_replaceable superseded_param distinct_param
    is_param_replaceable insert_event expiration Option.bind settle_deletions deletion_exists
    replace_older_param replace_older delete_events add_tags newest next_id single_char_tagname
    tag_values_by_name values_named all_but_newest deleted_hashes tag_rows tagged hide_events is_hex
    parse_u64
deletion_on_wrap = refl

first_profile_added :
    persist_event codec first_profile empty
    ≡ ok (after_call (persist_event codec first_profile empty), 1)
unfolding persist_event superseded is_replaceable superseded_param distinct_param
    is_param_replaceable insert_event expiration Option.bind settle_deletions deletion_exists
    replace_older_param replace_older delete_events add_tags newest next_id single_char_tagname
    tag_values_by_name values_named all_but_newest deleted_hashes tag_rows tagged hide_events is_hex
    parse_u64
first_profile_added = refl

profile_replaces :
    persist_event codec profile (after_call (persist_event codec first_profile empty))
    ≡ ok (two_profiles, 1)
unfolding persist_event superseded is_replaceable superseded_param distinct_param
    is_param_replaceable insert_event expiration Option.bind settle_deletions deletion_exists
    replace_older_param replace_older delete_events add_tags newest next_id single_char_tagname
    tag_values_by_name values_named all_but_newest deleted_hashes tag_rows tagged hide_events is_hex
    parse_u64
profile_replaces = refl

note_on_empty : persist_event codec note empty ≡ ok (after_call (persist_event codec note empty), 1)
unfolding persist_event superseded is_replaceable superseded_param distinct_param
    is_param_replaceable insert_event expiration Option.bind settle_deletions deletion_exists
    replace_older_param replace_older delete_events add_tags newest next_id single_char_tagname
    tag_values_by_name values_named all_but_newest deleted_hashes tag_rows tagged hide_events is_hex
    parse_u64
note_on_empty = refl

note_on_deletion :
    persist_event codec note deleted_db ≡ ok (after_call (persist_event codec note deleted_db), 0)
unfolding persist_event superseded is_replaceable superseded_param distinct_param
    is_param_replaceable insert_event expiration Option.bind settle_deletions deletion_exists
    replace_older_param replace_older delete_events add_tags newest next_id single_char_tagname
    tag_values_by_name values_named all_but_newest deleted_hashes tag_rows tagged hide_events is_hex
    parse_u64
note_on_deletion = refl

deletion_on_hidden :
    persist_event codec deletion (one_row hidden_wrap)
    ≡ ok (after_call (persist_event codec deletion (one_row hidden_wrap)), 1)
unfolding persist_event superseded is_replaceable superseded_param distinct_param
    is_param_replaceable insert_event expiration Option.bind settle_deletions deletion_exists
    replace_older_param replace_older delete_events add_tags newest next_id single_char_tagname
    tag_values_by_name values_named all_but_newest deleted_hashes tag_rows tagged hide_events is_hex
    parse_u64
deletion_on_hidden = refl

persist_event-keeps_example :
    In wrap_row (after_call (persist_event codec deletion (one_row wrap_row))).events
unfolding persist_event superseded is_replaceable superseded_param distinct_param
    is_param_replaceable insert_event expiration mathlib.Core.Option.bind settle_deletions
persist_event-keeps_example =
    persist_event-keeps codec deletion wrap_row (one_row wrap_row)
      (after_call (persist_event codec deletion (one_row wrap_row))) 1 (inl refl) (inl refl)
      deletion_on_wrap

Reached-IsStore_example : IsStore (delete_expired 950 two_profiles).0
Reached-IsStore_example = Reached-IsStore codec (delete_expired 950 two_profiles).0 (
    Reached.expired 950 two_profiles (
      Reached.persisted profile (after_call (persist_event codec first_profile empty)) two_profiles
        1
        (Reached.persisted first_profile empty
          (after_call (persist_event codec first_profile empty)) 1 Reached.start
          first_profile_added)
        profile_replaces))

persist_event_count_example :
    (distinct_param note ≡ none
      → Path ℕ 1 1
      → (row : Row) × In row (after_call (persist_event codec note empty)).events
        × (codec.decode note.id ≡ some row.event_hash)
        × (codec.decode note.pubkey ≡ some row.author)
        × (row.kind ≡ note.kind)
        × (row.hidden ≡ false))
    × (Path ℕ 1 0
        → (r : Row) → In r (after_call (persist_event codec note empty)).events
        → r.hidden ≡ false
        → In r empty.events)
    × (Path ℕ 1 0 ⊎ Path ℕ 1 1)
persist_event_count_example =
    persist_event_count codec note empty (after_call (persist_event codec note empty)) 1
      note_on_empty

deleted_db-IsStore : IsStore deleted_db
deleted_db-IsStore = record {
  ids = (one_row-IsStore deletion_row).ids;
  hashes = (one_row-IsStore deletion_row).hashes;
  replaceable = (one_row-IsStore deletion_row).replaceable;
  owners = owned;
}
  where
    on_row : HasOwner (deletion_row ∷ []) deletion_tag
    on_row = (deletion_row, inl refl, refl, refl, refl)

    owned : Owned deleted_db
    owned t (inl e) = subst (HasOwner (deletion_row ∷ [])) (sym e) on_row
    owned t (inr m) = absurd m

persist_event_deleted_example :
    Path ℕ 0 0
    × ((s : Row)
        → In s (after_call (persist_event codec note deleted_db)).events
        → s.hidden ≡ false
        → In s deleted_db.events)
persist_event_deleted_example =
    persist_event_deleted codec note deleted_db (after_call (persist_event codec note deleted_db)) 0
      deletion_row deletion_tag deleted_db-IsStore
      (record {
        author = refl;
        row_kind = refl;
        event_id = refl;
        name = refl;
        kind = refl;
        value = refl;
      })
      (inl refl) (inl refl) refl refl note_on_deletion

hidden_stays :
    In hidden_wrap (after_call (persist_event codec deletion (one_row hidden_wrap))).events
unfolding persist_event superseded is_replaceable superseded_param distinct_param
    is_param_replaceable insert_event expiration Option.bind settle_deletions deletion_exists
    replace_older_param replace_older delete_events add_tags newest next_id single_char_tagname
    tag_values_by_name values_named all_but_newest deleted_hashes tag_rows tagged hide_events is_hex
    parse_u64
hidden_stays = inr (inl refl)

persist_event_deletes_example : (hidden_wrap.kind ≡ 5) ⊎ (hidden_wrap.kind ≡ 1059)
unfolding is_hex
persist_event_deletes_example =
    persist_event_deletes codec deletion (one_row hidden_wrap)
      (after_call (persist_event codec deletion (one_row hidden_wrap))) 1 hidden_wrap key_hex []
      refl refl deletion_on_hidden (inl refl) refl refl refl hidden_stays refl refl

-- The database is busy at the first call.
abbrev busy_once : ℕ → Result StoreError ℕ
busy_once n = if n == 1 then err StoreError.sqlite_failure else ok 1

write_event-stops_example :
    (n : ℕ) × IsLast busy_once 1 n
    × (n ≤ 10)
    × (write_event busy_once ≡ busy_once n)
    × ((n ≡ 10) ⊎ ¬ (busy_once n ≡ err StoreError.sqlite_failure))
write_event-stops_example = write_event-stops busy_once

abbrev notes_filter : ReqFilter
notes_filter = filter_of (some (1 ∷ [])) none

selects_iff_example :
    (selects (one_row note_row).tags note_row (query_from_filter codec 1000 notes_filter) ≡ true)
    ↔ Selected codec 1000 [] notes_filter note_row
selects_iff_example =
    selects_iff codec 1000 (one_row note_row) notes_filter note_row (one_row-IsStore note_row)
      (inl refl)

delete_expired_unobservable_example :
    (In note_row (one_row note_row).events
      × (selects (one_row note_row).tags note_row (query_from_filter codec 1000 notes_filter)
          ≡ true))
    ↔ (In note_row (delete_expired 950 (one_row note_row)).0.events
        × (selects
              (delete_expired 950 (one_row note_row)).0.tags
              note_row
              (query_from_filter codec 1000 notes_filter)
            ≡ true))
delete_expired_unobservable_example =
    delete_expired_unobservable codec 950 1000 notes_filter (one_row note_row) note_row
      (one_row-IsStore note_row) (omega arith)
