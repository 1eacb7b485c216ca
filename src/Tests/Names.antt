-- ===== src/Tests/Names.antt =====
-- Examples on the name authority: the rules on names, authorizations, limits, claims and payments.
use floonet_rs.Base.{
  length, filter, ℕ, ◌+◌, ◌*◌, ◌≤◌, ◌<◌, String, ◌≡◌, refl, ◌⊎◌, true, false, Option, none, some,
  [], ◌∷◌, arith, ok, string_eq, IsMap, lookup, insert,
}
use floonet_rs.Event.{to_canonical, Event, validate}
use floonet_rs.NameAuthority.{
  within, bucket_key, allow_write, record_op, auth_window, Config, Authority, owner_of, name_of,
  insert_claim, release_claim, allow, auth_event_fresh, second,
}
use floonet_rs.NameAuthority.Names.{trim_end}
use floonet_rs.NameAuthority.Nip98.{
  read_tag, check_payload, eq_ignore_ascii_case, check_auth, read_tags, Http, is_stale, decode_auth,
  verify_nip98,
}
use floonet_rs.NameAuthority.Nip98.Laws.{Authorizes, verify_nip98_sound}
use floonet_rs.NameAuthority.Rate.{call, start, times, Called-bound}
use floonet_rs.NameAuthority.Limits.{no_replay, replayed, allow_lem, recent_calls, use_all}
use floonet_rs.NameAuthority.Claims.{IsClaims, insert_claim-IsClaims, owner_of-name_of_iff}
use floonet_rs.NameAuthority.PaidGate.{
  poll_invoice, HasPaid, Answers, paid_gate, paid_gate_iff, paid,
}
use floonet_rs.NameAuthority.Handlers.{authorize, Request, unregister}
use floonet_rs.NameAuthority.Handlers.Release.{Released, unregister_sound}
use floonet_rs.Tests.{json, crypto, text, key_hex, event_of}

abbrev config : Config
config = record {
  domain = "names.example";
  base_url = "https://names.example";
  name_min = 3;
  name_max = 20;
  auth_max_age_secs = 60;
  name_change_cooldown_secs = 3600;
  read_rate_max = 60;
  read_rate_window_secs = 60;
  write_rate_max = 10;
  write_rate_window_secs = 60;
}

abbrev authority : Authority
authority = record {
  db = ("ada", record { pubkey = key_hex; created_at = 1; released_at = none }) ∷ [];
  rate = [];
  seen_auth = [];
}

abbrev release_event : Event
release_event =
    event_of 27235 1000
      (("u" ∷ "https://names.example/api/v1/register/ada" ∷ []) ∷ ("method" ∷ "delete" ∷ []) ∷ [])

abbrev http : Http
http = record {
  base64_decode = λ s. some [];
  event_from_json = λ raw. some release_event;
  sha256_hex = λ body. "00";
}

abbrev release_request : Request
release_request = record {
  instant = 5_000_000_000;
  unix = 1010;
  ip = "192.0.2.1";
  authorization = some "Nostr e30=";
  body_bound = some 0;
  body = some [];
}

verify_nip98_example :
    (e : Event) × (decode_auth json crypto text http (some "Nostr e30=") ≡ ok e)
    × Authorizes json crypto text http "DELETE" "https://names.example/api/v1/register/ada" [] 60
        1010 e
    × (e.pubkey ≡ key_hex)
    × (e.id ≡ "canonical")
unfolding verify_nip98 decode_auth check_auth validate to_canonical is_stale read_tags read_tag
    trim_end eq_ignore_ascii_case check_payload
verify_nip98_example =
    verify_nip98_sound json crypto text http (some "Nostr e30=") "DELETE" "/api/v1/register/ada" []
      "https://names.example" 60 1010 key_hex "canonical" refl

no_replay_example :
    (auth_event_fresh config 30_000_000_000 "id" (
      use_all config
        ((20_000_000_000, "other") ∷ [])
        (auth_event_fresh config 10_000_000_000 "id" authority).0)).1
    ≡ false
unfolding auth_event_fresh lookup auth_window
no_replay_example =
    no_replay config 10_000_000_000 30_000_000_000 "id" authority ((20_000_000_000, "other") ∷ [])
      refl ((omega arith, omega arith), tt) (omega arith) (omega arith)

replayed_example :
    (auth_event_fresh config
      (0 + (60 + 5) * second)
      "id"
      (auth_event_fresh config 0 "id" authority).0).1
    ≡ true
unfolding IsMap auth_event_fresh lookup
replayed_example = (replayed config 1000 0 "id" authority tt refl (omega arith) (omega arith)).2

allow_example :
    let before = recent_calls 1_000_000_000 second "na-reg" "192.0.2.1" authority in
    let after =
      recent_calls 1_000_000_000 second "na-reg" "192.0.2.1"
        (allow 1_000_000_000 "na-reg" "192.0.2.1" 10 second authority).0 in
    ((before < 10)
      × ((allow 1_000_000_000 "na-reg" "192.0.2.1" 10 second authority).1 ≡ true)
      × (after ≡ before + 1))
    ⊎ ((10 ≤ before)
        × ((allow 1_000_000_000 "na-reg" "192.0.2.1" 10 second authority).1 ≡ false)
        × (after ≡ before))
allow_example = allow_lem 1_000_000_000 second 10 "na-reg" "192.0.2.1" authority (omega arith)

-- One granted call, and a second one within its window.
Called-bound_example :
    length (
        filter (within 1_000_000_500 second) (
          times
            (bucket_key "na-reg" "192.0.2.1")
            ((bucket_key "na-reg" "192.0.2.1", 1_000_000_000) ∷ [])))
      + 1
    ≤ 2
unfolding allow lookup insert
Called-bound_example =
    Called-bound second 1_000_000_000 1_000_000_500
      ((bucket_key "na-reg" "192.0.2.1", 1_000_000_000) ∷ [])
      (allow 1_000_000_000 "na-reg" "192.0.2.1" 2 second authority).0 "na-reg" "192.0.2.1" 2
      (call 0 1_000_000_000 [] authority "na-reg" "192.0.2.1" 2 (start authority refl)
        (omega arith))
      (omega arith) refl

empty-IsClaims : IsClaims []
unfolding owner_of lookup IsMap
empty-IsClaims = record { rows = tt; one_name = λ a b p ha hb. absurd (cc) }

authority-IsClaims : IsClaims authority.db
unfolding insert_claim owner_of name_of lookup insert
authority-IsClaims = (insert_claim-IsClaims "ada" key_hex 1 [] empty-IsClaims).0

insert_claim-IsClaims_example :
    IsClaims (insert_claim "bob" "key" 5 authority.db).0
    × ((other owner : String)
        → owner_of other authority.db ≡ some owner
        → owner_of other (insert_claim "bob" "key" 5 authority.db).0 ≡ some owner)
insert_claim-IsClaims_example = insert_claim-IsClaims "bob" "key" 5 authority.db authority-IsClaims

owner_of_example : name_of key_hex authority.db ≡ some "ada"
unfolding owner_of lookup
owner_of_example = (owner_of-name_of_iff "ada" key_hex authority.db authority-IsClaims).0 refl

abbrev other_hex : String
other_hex = "00000000000000000000000000000000000000000000000000000000000000ff"

unregister_example :
    Released text config [] json crypto http
      (λ b. none)
      "ada"
      release_request
      authority
      (unregister text config [] json crypto http
        (λ b. none)
        false
        "ada"
        release_request
        authority).0
unfolding unregister allow_write allow lookup insert authorize verify_nip98 decode_auth check_auth
    validate to_canonical is_stale read_tags read_tag trim_end eq_ignore_ascii_case check_payload
    auth_event_fresh auth_window owner_of record_op release_claim
unregister_example =
    unregister_sound text config [] json crypto http (λ b. none) "ada" release_request authority
      refl

abbrev answers : Answers
answers = record {
  key_parses = true;
  admitted = some false;
  unpaid_invoice = some (record { payment_hash = "hash"; bolt11 = "url" });
  status = some paid;
  update_ok = true;
  admit_ok = true;
  new_invoice = none;
  record_ok = false;
}

abbrev price : Option ℕ
price = some 5

paid_gate_example : (price ≡ none) ⊎ ((answers.key_parses ≡ true) × HasPaid answers)
unfolding paid_gate poll_invoice
paid_gate_example = (paid_gate_iff price answers).0 refl
