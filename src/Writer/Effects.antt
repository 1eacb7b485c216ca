-- ===== src/Writer/Effects.antt =====
-- Kinds of effects of a round of the event writer (src/db.rs, `db_writer`).
use floonet_rs.Base.{ℕ, Bool, true, false, List, filter, length}
use floonet_rs.Notice.{Notice, EventResultStatus}
use floonet_rs.Writer.{Effect}

abbrev pub is_notice : Effect → Bool
is_notice (Effect.notify _) = true
is_notice _ = false

abbrev pub is_broadcast : Effect → Bool
is_broadcast (Effect.broadcast _) = true
is_broadcast _ = false

abbrev pub is_charge : Effect → Bool
is_charge (Effect.charge _ _) = true
is_charge _ = false

-- The event goes to the store, to the subscribers or to the verifier, or its author pays.
abbrev pub is_publication : Effect → Bool
is_publication (Effect.notify _) = false
is_publication (Effect.check_account _) = false
is_publication (Effect.new_account _) = false
is_publication (Effect.send_metadata _) = true
is_publication (Effect.store _) = true
is_publication (Effect.broadcast _) = true
is_publication (Effect.charge _ _) = true

abbrev pub is_saved : Effect → Bool
is_saved (Effect.notify (Notice.event_result r)) = elim r.status [
  | EventResultStatus.saved ↦ true
  | _ ↦ false
]
is_saved _ = false

abbrev pub replies : List Effect → ℕ
replies es = length (filter is_notice es)
