-- ===== src/Server.antt =====
-- src/server.rs: how a connection of `nostr_server` handles the messages of its client and the events
-- that are broadcast, as functions from the state of the connection to the state and what is sent. The
-- parsing of JSON, the other parts' texts of errors and reasons, and the clock are parameters. Queries
-- are numbered as they are started. The socket, pings, limits of rate and metrics are not modelled.
pub mod Publication
pub mod Delivery
use mathlib.Core.Option
use floonet_rs.Base.{
  ℕ, ◌+◌, String, len, Bool, true, false, not, ◌&&◌, ◌||◌, Option, none, some, List, [], ◌∷◌, ◌++◌,
  ◌==◌, nat_eq, string_eq, ltb, if◌then◌else◌, lookup, insert, remove, Result, ok, err, Run,
  returns, panics,
}
use floonet_rs.Utils.{Text}
use floonet_rs.Event.{
  Event, Json, Crypto, EventError, is_expired, is_valid_timestamp, tag_values_by_name,
}
use floonet_rs.Delegation.{Captures}
use floonet_rs.Command.{
  EventCmd, EventWrapper, CloseCmd, Close, event_id, wrap_event_cmd, close_of_cmd,
}
use floonet_rs.Subscription.{Subscription, interested_in_event, is_scraper, needs_historical_events}
use floonet_rs.Admission.{Decision, Policy, Reason, check}
use floonet_rs.Conn.{
  ClientConn, ConnError, has_subscription, subscribe, unsubscribe, authenticate, conn_auth_pubkey,
}
use floonet_rs.Notice.{
  Notice, invalid_notice, blocked_notice, restricted_notice, auth_required_notice, saved_notice,
}

pub data NostrMessage : Type 0 where
  event_msg : EventCmd → NostrMessage
  sub_msg : Subscription → NostrMessage
  close_msg : CloseCmd → NostrMessage

pub data MessageError : Type 0 where
  event_max_length : ℕ → MessageError
  proto_parse : MessageError

-- `max_bytes` bounds events only, and 0 is no bound.
unfoldable pub convert_to_msg :
    (String → Option NostrMessage) → String → Option ℕ → Result MessageError NostrMessage
convert_to_msg from_str msg max_bytes = elim (from_str msg) [
  | none ↦ err proto_parse
  | some (sub_msg s) ↦ ok (sub_msg s)
  | some (close_msg cc) ↦ ok (close_msg cc)
  | some (event_msg ec) ↦ elim max_bytes [
    | none ↦ ok (event_msg ec)
    | some max_size ↦
        if ltb max_size (len msg) && ltb 0 max_size
        then err (event_max_length (len msg))
        else ok (event_msg ec)
  ]
]

abbrev pub is_private_kind : ℕ → Bool
is_private_kind kind = kind == 4 || kind == 44 || kind == 1059

-- The parties of a private message: its first `p` tag and its author.
unfoldable pub is_party : Option String → Event → Bool
is_party none e = false
is_party (some key) e = elim (tag_values_by_name e "p") [
  | [] ↦ false
  | recipient ∷ _ ↦ recipient == key || e.pubkey == key
]

-- `parsed` is the event that the text gives.
unfoldable pub allowed_to_send : Option Event → ClientConn → (nip42_dms : Bool) → Bool
allowed_to_send parsed conn nip42_dms =
    if nip42_dms
    then elim parsed [
      | none ↦ false
      | some e ↦ if is_private_kind e.kind then is_party (conn_auth_pubkey conn) e else true
    ]
    else true

-- The subscriptions to which a broadcast event is sent; `event_str` is its text, if it has one, and
-- `from_str` reads it.
unfoldable pub send_broadcast :
    (to_string : Event → Option String) (from_str : String → Option Event)
    → ClientConn
    → Bool
    → Event
    → List (String × Subscription)
    → List String
send_broadcast to_string from_str conn nip42_dms e [] = []
send_broadcast to_string from_str conn nip42_dms e ((id, sub) ∷ rest) =
    let later = send_broadcast to_string from_str conn nip42_dms e rest in
    if interested_in_event sub e
    then elim (to_string e) [
      | none ↦ later
      | some event_str ↦
          if allowed_to_send (from_str event_str) conn nip42_dms then id ∷ later else later
    ]
    else later

-- The settings that a connection reads.
pub record ServerSettings : Type 0 where
  pub reject_future_seconds : Option ℕ
  pub nip42_auth : Bool
  pub relay_url : Option String
  pub limit_scrapers : Bool

-- What a connection sends to its client, to the writer, or to the store.
pub data Output : Type 0 where
  reply : Notice → Output
  submit : Event → Option (List ℕ) → Output
  eose : String → Output
  start_query : ℕ → Subscription → Output
  cancel_query : ℕ → Output

-- The connection, its running queries by subscription, and the number of the next one.
pub record Session : Type 0 where
  pub conn : ClientConn
  pub running_queries : List (String × ℕ)
  pub next_query : ℕ

-- The texts of errors and reasons, which the other parts print.
pub record Texts : Type 0 where
  pub event_error : EventError → String
  pub conn_error : ConnError → String
  pub reason : Reason → String
  pub future_dated : ℕ → String

module _ (t : Text) (j : Json) (c : Crypto) (captures : Captures)
    (host_str : String → Option String) (texts : Texts) (settings : ServerSettings)
    (admission : List Policy) (now : ℕ) where
  -- A published event: expired, admitted or denied, or too far in the future.
  unfoldable pub publish_event : ClientConn → Event → List Output
  publish_event conn e =
      if is_expired now e
      then reply (invalid_notice e.id "The event has already expired") ∷ []
      else if is_valid_timestamp now settings.reject_future_seconds e
      then elim (check t admission e (conn_auth_pubkey conn)) [
        | Decision.allow ↦ submit e (Option.bind (conn_auth_pubkey conn) t.hex_decode) ∷ []
        | Decision.deny reason auth_required ↦
            (if auth_required
              then reply (auth_required_notice e.id (texts.reason reason))
              else reply (blocked_notice e.id (texts.reason reason)))
            ∷ []
      ]
      else elim settings.reject_future_seconds [
        | none ↦ []
        | some fut_sec ↦ reply (invalid_notice e.id (texts.future_dated fut_sec)) ∷ []
      ]

  abbrev pub auth_reply : Event → Result ConnError Unit → List Output
  auth_reply e (ok _) = reply (saved_notice e.id) ∷ []
  auth_reply e (err x) = reply (restricted_notice e.id (texts.conn_error x)) ∷ []

  unfoldable pub answer_auth : ClientConn → String → Event → ClientConn × List Output
  answer_auth conn evid e =
      if settings.nip42_auth
      then elim settings.relay_url [
        | none ↦ (conn, [])
        | some relay ↦
            let (after, result) = authenticate j c host_str now conn e relay in
            (after, auth_reply e result)
      ]
      else (conn, reply (invalid_notice evid (texts.event_error EventError.command_unknown)) ∷ [])

  -- An EVENT or AUTH command.
  unfoldable pub on_event_msg : EventCmd → ClientConn → Run (ClientConn × List Output)
  on_event_msg ec conn = elim (wrap_event_cmd j c captures ec) [
    | panics ↦ panics
    | returns (err x) ↦
        returns (conn, reply (invalid_notice (event_id ec) (texts.event_error x)) ∷ [])
    | returns (ok (EventWrapper.wrapped_event e)) ↦ returns (conn, publish_event conn e)
    | returns (ok (EventWrapper.wrapped_auth e)) ↦ returns (answer_auth conn (event_id ec) e)
  ]

  abbrev cancels : Option ℕ → List Output
  cancels none = []
  cancels (some q) = cancel_query q ∷ []

  -- A REQ command; an earlier query of the same subscription is cancelled.
  unfoldable pub on_sub_msg : Subscription → Session → Session × List Output
  on_sub_msg s session =
      if has_subscription session.conn s
      then (session, [])
      else if settings.limit_scrapers && is_scraper s
      then (session, eose s.id ∷ [])
      else let (after, result) = subscribe session.conn s in
        elim result [
          | err x ↦
              (record session { conn = after }, reply (Notice.message (texts.conn_error x)) ∷ [])
          | ok _ ↦ (
            record {
              conn = after;
              running_queries = insert s.id session.next_query session.running_queries;
              next_query = session.next_query + 1;
            },
            cancels (lookup s.id session.running_queries)
                ++ (if needs_historical_events s
                    then start_query session.next_query s ∷ []
                    else []),
          )
        ]

  -- A CLOSE command.
  unfoldable pub on_close_msg : CloseCmd → Session → Session × List Output
  on_close_msg cc session = elim (close_of_cmd cc) [
    | err _ ↦ (session, reply (Notice.message "could not parse command") ∷ [])
    | ok close ↦ (
      record session {
        conn = unsubscribe session.conn close;
        running_queries = remove close.id session.running_queries;
      },
      cancels (lookup close.id session.running_queries),
    )
  ]
