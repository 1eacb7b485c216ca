-- ===== src/NameAuthority/Nip98.antt =====
-- src/name_authority/nip98.rs: the signed event that authorizes an HTTP call. Base64, the JSON of an
-- event and SHA-256 are parameters. Signed 64-bit numbers stand for their bits, and their
-- difference wraps around, as in a release build.
pub mod Tags
pub mod Laws
use Prim.Native.String
use Prim.Native.String.{[], ◌∷◌, ◌++◌}
use text.Mathlib.Text.{starts_with}
use mathlib.Core.Option
use floonet_rs.Base.{
  ℕ, ◌+◌, ◌-◌, ◌%◌, ◌^◌, code, String, Bool, true, false, not, ◌&&◌, ◌||◌, Option, none, some, List,
  [], ◌∷◌, ◌==◌, nat_eq, string_eq, ltb, if◌then◌else◌, Result, ok, err,
}
use floonet_rs.Utils.{u64_mod, is_ascii_uppercase, Text}
use floonet_rs.Event.{Event, Json, Crypto, validate}
use floonet_rs.NameAuthority.Names.{trim_end}

-- What is not modelled: the decoders and the digest, in lower-case hexadecimal.
pub record Http : Type 0 where
  pub base64_decode : String → Option (List ℕ)
  pub event_from_json : List ℕ → Option Event
  pub sha256_hex : List ℕ → String

pub data AuthError : Type 0 where
  missing_header not_nostr invalid_base64 invalid_json bad_signature : AuthError
  wrong_kind expired url_mismatch method_mismatch payload_mismatch missing_payload : AuthError

-- `a < b` on signed 64-bit numbers
abbrev pub signed_lt : ℕ → ℕ → Bool
signed_lt a b = ltb ((a + 2 ^ 63) % u64_mod) ((b + 2 ^ 63) % u64_mod)

-- Older than the limit, or more than five seconds ahead.
unfoldable pub is_stale : (now created_at auth_max_age_secs : ℕ) → Bool
is_stale now created_at auth_max_age_secs =
    let age = (now + u64_mod - created_at) % u64_mod in
    signed_lt auth_max_age_secs age || signed_lt age (u64_mod - 5)

abbrev to_lower : ℕ → ℕ
to_lower c = if is_ascii_uppercase c then c + 32 else c

unfoldable pub eq_ignore_ascii_case : String → String → Bool
eq_ignore_ascii_case String.[] String.[] = true
eq_ignore_ascii_case (c ∷ s) (d ∷ t) =
    to_lower (code c) == to_lower (code d) && eq_ignore_ascii_case s t
eq_ignore_ascii_case _ _ = false

-- What the loop over the tags has found.
pub record Found : Type 0 where
  pub u_ok : Bool
  pub method_ok : Bool
  pub payload_hash : Option String

abbrev pub url_matches : (expected u : String) → Bool
url_matches expected u = trim_end b'/' u == trim_end b'/' expected

-- One tag of the loop.
unfoldable pub read_tag : (expected method : String) → List String → Found → Found
read_tag expected method [] found = found
read_tag expected method (name ∷ []) found =
    if name == "payload" then record found { payload_hash = none } else found
read_tag expected method (name ∷ v ∷ _) found =
    if name == "u"
    then record found { u_ok = url_matches expected v }
    else if name == "method"
    then record found { method_ok = eq_ignore_ascii_case v method }
    else if name == "payload"
    then record found { payload_hash = some v }
    else found

unfoldable pub read_tags : (expected method : String) → List (List String) → Found → Found
read_tags expected method [] found = found
read_tags expected method (tag ∷ tags) found =
    read_tags expected method tags (read_tag expected method tag found)

-- `auth.strip_prefix("Nostr ")`
abbrev pub strip_nostr : String → Option String
strip_nostr s = if starts_with s "Nostr " then some (String.slice s 6 (String.len s)) else none

abbrev pub is_empty_body : List ℕ → Bool
is_empty_body [] = true
is_empty_body (_ ∷ _) = false

abbrev pub or_err : {A : Type 0} → AuthError → Option A → Result AuthError A
or_err e none = err e
or_err e (some a) = ok a

abbrev pub then_check :
    {A B : Type 0} → Result AuthError A → (A → Result AuthError B) → Result AuthError B
then_check (ok a) f = f a
then_check (err e) f = err e

-- The body's digest against the last `payload` tag.
unfoldable pub check_payload : Http → List ℕ → Option String → Result AuthError Unit
check_payload h body none = if is_empty_body body then ok tt else err missing_payload
check_payload h body (some expect) =
    if eq_ignore_ascii_case expect (h.sha256_hex body) then ok tt else err payload_mismatch

module _ (j : Json) (c : Crypto) (t : Text) (h : Http) where
  -- The event of the header.
  unfoldable pub decode_auth : Option String → Result AuthError Event
  decode_auth auth_header = then_check (or_err missing_header auth_header) (λ auth.
      then_check (or_err not_nostr (strip_nostr auth)) (λ b64.
        then_check (or_err invalid_base64 (h.base64_decode (t.trim b64)))
          (λ raw. or_err invalid_json (h.event_from_json raw))))

  -- The checks on the event.
  unfoldable pub check_auth :
      (method expected : String)
      → List ℕ
      → (auth_max_age_secs now : ℕ) → Event
      → Result AuthError (String × String)
  check_auth method expected body auth_max_age_secs now e =
      let start : Found = record { u_ok = false; method_ok = false; payload_hash = none } in
      let found = read_tags expected method e.tags start in
      elim (validate j c e) [
        | err _ ↦ err bad_signature
        | ok _ ↦
            if not (e.kind == 27235)
            then err wrong_kind
            else if is_stale now e.created_at auth_max_age_secs
            then err expired
            else if not found.u_ok
            then err url_mismatch
            else if not found.method_ok
            then err method_mismatch
            else then_check (check_payload h body found.payload_hash) (λ _. ok (e.pubkey, e.id))
      ]

  -- The key and the identifier of the event that authorizes the call, at the time `now`.
  unfoldable pub verify_nip98 :
      (auth_header : Option String) (method url_path : String) (body : List ℕ) (base_url : String)
      (auth_max_age_secs now : ℕ)
      → Result AuthError (String × String)
  verify_nip98 auth_header method url_path body base_url auth_max_age_secs now =
      then_check (decode_auth auth_header)
        (check_auth method (base_url ++ url_path) body auth_max_age_secs now)
