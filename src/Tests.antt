-- ===== src/Tests.antt =====
-- The data that the examples share: small instances of the parameters, and concrete events.
mod Events
mod Requests
mod Connections
mod Names
mod Registration
mod Store
mod Service
use floonet_rs.Base.{
  ℕ, String, Bool, Option, none, some, List, [], ◌∷◌, ◌==◌, string_eq, if◌then◌else◌, true, false,
}
use floonet_rs.Utils.{Text}
use floonet_rs.Event.{Event, Json, Crypto}
use floonet_rs.Delegation.{Captures}
use floonet_rs.Subscription.{Subscription, ReqFilter}
use floonet_rs.Subscription.Parse.{Values}
use floonet_rs.Admission.{Settings}

abbrev pub json : Json
json = record {
  Value = String;
  number = λ n. "0";
  string = λ s. s;
  array = λ vs. "canonical";
  to_string = λ v. some v;
}

-- A signature verifies if it is the key.
abbrev pub crypto : Crypto
crypto = record {
  Digest = String;
  Signature = String;
  Message = String;
  PublicKey = String;
  hash = λ s. s;
  hex_digest = λ d. d;
  signature = λ s. if s == "malformed" then none else some s;
  message = λ d. some d;
  public_key = λ k. some k;
  verify_schnorr = λ sig msg key. sig == key;
}

abbrev pub text : Text
text = record {
  to_lowercase = λ s. s;
  trim = λ s. s;
  bech32_decode = λ s. none;
  from_base32 = λ b. none;
  hex_decode = λ s. some [];
  hex_encode = λ b. "";
}

abbrev pub captures : Captures
captures = λ s. if s == "kind=1" then some ("kind", "=", "1") else none

-- Every value is an array of the text "x" and an object with one field, whose name is the value.
abbrev pub values : Values
values = record {
  Value = String;
  as_object = λ v. some ((v, "items") ∷ []);
  as_array = λ v. some ("x" ∷ []);
  as_str = λ v. some v;
  to_strings = λ v. some ("x" ∷ []);
  to_numbers = λ v. some (1 ∷ []);
  to_number = λ v. some 1;
}

abbrev pub key_hex : String
key_hex = "0123456789abcdef0123456789abcdef0123456789abcdef0123456789abcdef"

abbrev pub event_of : ℕ → ℕ → List (List String) → Event
event_of kind created_at tags = record {
  id = "canonical";
  pubkey = key_hex;
  delegated_by = none;
  created_at = created_at;
  kind = kind;
  tags = tags;
  content = "";
  sig = key_hex;
  tagidx = none;
}

abbrev pub note : Event
note = event_of 1 1000 (("e" ∷ "root" ∷ []) ∷ ("t" ∷ "grin" ∷ []) ∷ [])

abbrev pub gift_wrap : Event
gift_wrap = event_of 1059 1000 (("p" ∷ key_hex ∷ []) ∷ [])

abbrev pub filter_of : Option (List ℕ) → Option ℕ → ReqFilter
filter_of kinds limit = record {
  ids = none;
  kinds = kinds;
  since = none;
  until = none;
  authors = none;
  limit = limit;
  tags = none;
  force_no_match = false;
}

abbrev pub notes_sub : Subscription
notes_sub = record { id = "notes"; filters = filter_of (some (1 ∷ [])) (some 0) ∷ [] }

abbrev pub settings : Settings
settings = record {
  event_kind_allowlist = none;
  public_note_authors = none;
  nip42_auth = true;
  require_auth_to_write = true;
  pay_to_relay = false;
  pubkey_whitelist = none;
}
