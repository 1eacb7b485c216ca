-- ===== src/Tests/Connections.antt =====
-- Examples on connections: subscriptions, authentication, reachable states.
use floonet_rs.Base.{String, ◌≡◌, refl, Option, some, [], ◌∷◌, arith, ok, string_eq}
use floonet_rs.Event.{to_canonical, Event, validate}
use floonet_rs.Event.Validation.{validate_iff}
use floonet_rs.Conn.{last_value, ClientConn, new, subscribe, challenge, auth_pubkey, authenticate}
use floonet_rs.Conn.Auth.{Answers, authenticate_iff}
use floonet_rs.Conn.Subscriptions.{Subscribes, subscribe-Subscribes}
use floonet_rs.Tests.{json, crypto, key_hex, event_of, notes_sub}

abbrev fresh_conn : ClientConn
fresh_conn = new "192.0.2.1" "uuid"

abbrev host_str : String → Option String
host_str = λ url. some url

subscribe_example : Subscribes fresh_conn notes_sub (subscribe fresh_conn notes_sub)
subscribe_example = subscribe-Subscribes fresh_conn notes_sub

abbrev challenged_conn : ClientConn
challenged_conn = record {
  client_ip_addr = "192.0.2.1";
  client_id = "uuid";
  subscriptions = [];
  max_subs = 32;
  auth = challenge "secret";
}

abbrev answer : Event
answer = event_of 22242 1000 (("challenge" ∷ "secret" ∷ []) ∷ ("relay" ∷ "relay.example" ∷ []) ∷ [])

answer-Answers : Answers json crypto host_str 1200 answer "secret" "relay.example"
unfolding validate to_canonical last_value mathlib.Core.Option.bind
answer-Answers = record {
  signed = (validate_iff json crypto answer).0 refl;
  kind = refl;
  not_old = omega arith;
  not_ahead = omega arith;
  same_challenge = refl;
  same_relay = ("relay.example", refl, refl);
}

authenticate_example :
    authenticate json crypto host_str 1200 challenged_conn answer "relay.example"
    ≡ (record challenged_conn { auth = auth_pubkey key_hex }, ok tt)
authenticate_example =
    (authenticate_iff json crypto host_str 1200 (omega arith) (omega arith) challenged_conn answer
        "secret" "relay.example" refl).0
      answer-Answers
