-- ===== src/Repo/Reached.antt =====
-- The stores that the writes of src/repo/sqlite.rs build from empty tables.
use floonet_rs.Base.{ℕ, ◌≡◌, [], ok}
use floonet_rs.Event.{Event}
use floonet_rs.Repo.{Db, Codec}
use floonet_rs.Repo.Persist.{persist_event, delete_expired}
use floonet_rs.Repo.Keys.{IsStore}
use floonet_rs.Repo.Replaceable.{persist_event-IsStore, delete_expired-IsStore}

abbrev pub no_rows : Db
no_rows = record { events = []; tags = [] }

-- The tables that writes of events and deletions of expired events lead to. A write that fails changes
-- no table.
pub data Reached (h : Codec) : Db → Type 0 where
  start : Reached h no_rows
  persisted :
      (e : Event) (db after : Db) (n : ℕ)
      → Reached h db
      → persist_event h e db ≡ ok (after, n)
      → Reached h after
  expired : (now : ℕ) (db : Db) → Reached h db → Reached h (delete_expired now db).0

no_rows-IsStore : IsStore no_rows
no_rows-IsStore = record {
  ids = λ r s m. absurd m;
  hashes = λ r s m. absurd m;
  replaceable = λ r s m. absurd m;
  owners = λ t m. absurd m;
}

-- In every store that persisting events and deleting expired ones build from empty tables, ids and
-- hashes are unique, an author has at most one event of a replaceable kind, and every tag stands on an
-- event and carries its kind and time.
pub Reached-IsStore : (h : Codec) (db : Db) → Reached h db → IsStore db
Reached-IsStore h db Reached.start = no_rows-IsStore
Reached-IsStore h db (Reached.persisted e old after n before done) =
    persist_event-IsStore h e old after n (Reached-IsStore h old before) done
Reached-IsStore h db (Reached.expired now old before) =
    delete_expired-IsStore now old (Reached-IsStore h old before)
