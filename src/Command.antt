-- ===== src/Command.antt =====
-- Client commands: `EventCmd` of src/event.rs and `CloseCmd` of src/close.rs, and what they are
-- turned into before the server acts on them.
pub mod Laws
use floonet_rs.Base.{String, ◌==◌, string_eq, if◌then◌else◌, Result, ok, err, Run, returns, panics}
use floonet_rs.Event.{Event, Json, Crypto, EventError, command_unknown, validate, build_index}
use floonet_rs.Delegation.{Captures, update_delegation}

pub record EventCmd : Type 0 where
  pub cmd : String
  pub event : Event

unfoldable pub event_id : EventCmd → String
event_id ec = ec.event.id

pub data EventWrapper : Type 0 where
  wrapped_event : Event → EventWrapper
  wrapped_auth : Event → EventWrapper

abbrev wrap : Run Event → Run (Result EventError EventWrapper)
wrap panics = panics
wrap (returns e) = returns (ok (wrapped_event e))

-- `Result::<EventWrapper>::from(ec)`. An AUTH event is not validated here.
unfoldable pub wrap_event_cmd :
    Json → Crypto → Captures → EventCmd → Run (Result EventError EventWrapper)
wrap_event_cmd j c captures ec =
    if ec.cmd == "EVENT"
    then elim (validate j c ec.event) [
      | err e ↦ returns (err e)
      | ok _ ↦ wrap (update_delegation captures c (build_index ec.event))
    ]
    else if ec.cmd == "AUTH"
    then returns (ok (wrapped_auth ec.event))
    else returns (err command_unknown)

pub record CloseCmd : Type 0 where
  pub cmd : String
  pub id : String

pub record Close : Type 0 where
  pub id : String

-- `Result::<Close>::from(cc)`
unfoldable pub close_of_cmd : CloseCmd → Result EventError Close
close_of_cmd cc = if cc.cmd == "CLOSE" then ok (record { id = cc.id }) else err command_unknown
