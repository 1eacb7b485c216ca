-- ===== src/Tests/Registration.antt =====
-- An example of a registration from the request to the claim.
use floonet_rs.Base.{
  ℕ, false, String, ◌≡◌, refl, Option, none, some, List, [], ◌∷◌, IsMap, lookup, insert,
}
use floonet_rs.Event.{validate, to_canonical}
use floonet_rs.NameAuthority.{
  Config, Authority, owner_of, name_of, allow_write, allow, auth_event_fresh, auth_window,
  cooldown_active, insert_claim,
}
use floonet_rs.NameAuthority.Names.{
  trim_end, valid_name, ends_alphanumeric, is_reserved, fold_lookalike, fold_char, valid_pubkey_hex,
}
use floonet_rs.NameAuthority.Nip98.{
  Http, verify_nip98, decode_auth, check_auth, is_stale, read_tags, read_tag, eq_ignore_ascii_case,
  check_payload,
}
use floonet_rs.NameAuthority.Claims.{IsClaims}
use floonet_rs.NameAuthority.PaidGate.{Refusal}
use floonet_rs.NameAuthority.Handlers.{
  Request, RegisterBody, register, start_register, finish_register, authorize, check_claim,
}
use floonet_rs.NameAuthority.Handlers.Register.{Asks, register_sound}
use floonet_rs.Tests.{json, crypto, text, key_hex, event_of}

abbrev config : Config
config = record {
  domain = "names.example";
  base_url = "https://names.example";
  name_min = 3;
  name_max = 20;
  auth_max_age_secs = 60;
  name_change_cooldown_secs = 3600;
  read_rate_max = 60;
  read_rate_window_secs = 60;
  write_rate_max = 10;
  write_rate_window_secs = 60;
}

abbrev authority : Authority
authority = record { db = []; rate = []; seen_auth = [] }

authority-IsClaims : IsClaims authority.db
unfolding owner_of lookup IsMap
authority-IsClaims = record { rows = tt; one_name = λ a b p ha hb. absurd (cc) }

abbrev http : Http
http = record {
  base64_decode = λ s. some [];
  event_from_json = λ raw. some (
      event_of 27235 1000 (
        ("u" ∷ "https://names.example/api/v1/register" ∷ [])
        ∷ ("method" ∷ "POST" ∷ [])
        ∷ ("payload" ∷ "00" ∷ [])
        ∷ []));
  sha256_hex = λ body. "00";
}

abbrev request : Request
request = record {
  instant = 5_000_000_000;
  unix = 1010;
  ip = "192.0.2.1";
  authorization = some "Nostr e30=";
  body_bound = some 1;
  body = some (1 ∷ []);
}

abbrev body_from_json : List ℕ → Option RegisterBody
body_from_json = λ b. some (record { name = "bob"; pubkey = key_hex })

registers-bob :
    owner_of "bob"
      (register text config [] json crypto http body_from_json
        (λ k. none)
        false
        request
        authority).0.db
    ≡ some key_hex
unfolding register start_register allow_write allow lookup insert authorize verify_nip98 decode_auth
    check_auth validate to_canonical is_stale read_tags read_tag trim_end eq_ignore_ascii_case
    check_payload auth_event_fresh auth_window owner_of cooldown_active check_claim valid_pubkey_hex
    valid_name ends_alphanumeric is_reserved fold_lookalike fold_char name_of finish_register
    insert_claim
registers-bob = refl

abbrev no_refusal : Option Refusal
no_refusal = none

register_example :
    (pubkey : String) × Asks text config [] json crypto http body_from_json "bob" pubkey request
      authority
    × (no_refusal ≡ none)
    × (owner_of "bob"
          (register text config [] json crypto http body_from_json
            (λ k. none)
            false
            request
            authority).0.db
        ≡ some pubkey)
unfolding owner_of lookup
register_example =
    register_sound text config [] json crypto http body_from_json (λ k. none) request authority
      "bob" authority-IsClaims (λ e. let got = registers-bob in absurd (cc))
