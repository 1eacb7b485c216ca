-- ===== src/Notice.antt =====
-- src/notice.rs: the notices to a client, and the results of events with their machine-readable
-- prefixes.
use floonet_rs.Base.{String, Bool, true, false}
use Prim.Native.String.{◌++◌}

pub data EventResultStatus : Type 0 where
  saved duplicate invalid blocked rate_limited error restricted : EventResultStatus

pub record EventResult : Type 0 where
  pub id : String
  pub msg : String
  pub status : EventResultStatus

pub data Notice : Type 0 where
  message : String → Notice
  event_result : EventResult → Notice
  auth_challenge : String → Notice

unfoldable pub to_bool : EventResultStatus → Bool
to_bool duplicate = true
to_bool saved = true
to_bool invalid = false
to_bool blocked = false
to_bool rate_limited = false
to_bool error = false
to_bool restricted = false

unfoldable pub prefix : EventResultStatus → String
prefix saved = "saved"
prefix duplicate = "duplicate"
prefix invalid = "invalid"
prefix blocked = "blocked"
prefix rate_limited = "rate-limited"
prefix error = "error"
prefix restricted = "restricted"

-- `format!("{}: {}", status.prefix(), msg)`
unfoldable pub prefixed : String → String → EventResultStatus → Notice
prefixed id msg status =
    event_result (record { id = id; msg = prefix status ++ (": " ++ msg); status = status })

abbrev pub invalid_notice : String → String → Notice
invalid_notice id msg = prefixed id msg invalid

abbrev pub blocked_notice : String → String → Notice
blocked_notice id msg = prefixed id msg blocked

abbrev pub duplicate_notice : String → Notice
duplicate_notice id = prefixed id "" duplicate

abbrev pub error_notice : String → String → Notice
error_notice id msg = prefixed id msg error

abbrev pub restricted_notice : String → String → Notice
restricted_notice id msg = prefixed id msg restricted

-- `Notice::auth_required`
abbrev pub auth_required_notice : String → String → Notice
auth_required_notice id msg =
    event_result (record { id = id; msg = "auth-required: " ++ msg; status = restricted })

-- `Notice::saved`
abbrev pub saved_notice : String → Notice
saved_notice id = event_result (record { id = id; msg = ""; status = saved })
