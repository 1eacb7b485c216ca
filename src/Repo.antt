-- ===== src/Repo.antt =====
-- src/repo/sqlite.rs: the tables `event` and `tag` with the statements that write to them. A row has
-- the columns that some statement reads. Blobs are texts of their bytes, and hex decoding (hex) and the
-- JSON text of an event (serde_json) are parameters. `first_seen` and the unused `value_hex` are left out.
pub mod Persist
pub mod Accounts
pub mod Expiry
pub mod Clauses
pub mod Selection
pub mod Query
pub mod Deletion
pub mod Hiding
pub mod Retry
pub mod Saved
pub mod Owners
pub mod Keys
pub mod Replaceable
pub mod Reached
pub mod Shape
pub mod Frame
pub mod Tables
use floonet_rs.Base.{
  ℕ, ◌+◌, String, Bool, true, false, not, ◌&&◌, ◌||◌, Option, none, some, List, [], ◌∷◌, ◌==◌,
  nat_eq, string_eq, ltb, leb, if◌then◌else◌, length, any, filter, map,
}
use floonet_rs.Event.{Event}

-- A row of `event`: the columns that are NOT NULL, and `expires_at`, which may be NULL.
pub record Row : Type 0 where
  pub id : ℕ
  pub event_hash : String
  pub created_at : ℕ
  pub expires_at : Option ℕ
  pub kind : ℕ
  pub author : String
  pub delegated_by : Option String
  pub content : String
  pub hidden : Bool

-- A row of `tag`.
pub record TagRow : Type 0 where
  pub event_id : ℕ
  pub name : String
  pub value : String
  pub kind : ℕ
  pub created_at : ℕ

pub record Db : Type 0 where
  pub events : List Row
  pub tags : List TagRow

-- What the store uses of hex and serde_json.
pub record Codec : Type 0 where
  pub decode : String → Option String
  pub to_string : Event → Option String

-- `column=?`, which holds of no row if the parameter is NULL.
abbrev pub equals : String → Option String → Bool
equals column none = false
equals column (some v) = column == v

-- The key of the next row: one more than the largest.
unfoldable pub next_id : List Row → ℕ
next_id [] = 1
next_id (r ∷ rs) = let rest = next_id rs in if ltb r.id rest then rest else r.id + 1

-- `DELETE FROM event WHERE p`, which deletes the tags of the deleted events with them.
unfoldable pub delete_events : (Row → Bool) → Db → Db
delete_events p db = record {
  events = filter (λ r. not (p r)) db.events;
  tags = filter (λ t. not (any (λ (r : Row). r.id == t.event_id && p r) db.events)) db.tags;
}

abbrev pub hide : Row → Row
hide r = record r { hidden = true }

-- `UPDATE event SET hidden=TRUE WHERE p`
unfoldable pub hide_events : (Row → Bool) → Db → Db
hide_events p db = record db { events = map (λ r. if p r then hide r else r) db.events }

-- The rows of a join of `event` and `tag` in which the tag has that name and value.
abbrev pub has_tag : String → String → List TagRow → Row → Bool
has_tag name value tags r =
    any (λ (t : TagRow). t.event_id == r.id && t.name == name && t.value == value) tags
