-- ===== src/Utils.antt =====
-- src/utils.rs: tests on texts. Of the standard library it has `u64::from_str`, the ASCII tests of
-- `char`, and the walks over the characters of a text that the other modules use.
pub mod Hex
use Prim.Native.String
use Prim.Native.String.{[], ◌∷◌}
use mathlib.Core.Option
use text.Mathlib.Text.{starts_with}
use floonet_rs.Base.{
  ℕ, ◌+◌, ◌-◌, ◌*◌, ◌^◌, code, String, Bool, true, false, ◌&&◌, ◌||◌, Option, none, some, List,
  ◌==◌, nat_eq, ltb, leb, if◌then◌else◌,
}

-- `s.chars().all(p)`, over the scalar values of the characters
abbrev pub all_chars : (ℕ → Bool) → String → Bool
all_chars p [] = true
all_chars p (c ∷ s) = p (code c) && all_chars p s

abbrev pub is_ascii_digit : ℕ → Bool
is_ascii_digit c = leb b'0' c && leb c b'9'

abbrev pub is_ascii_lowercase : ℕ → Bool
is_ascii_lowercase c = leb b'a' c && leb c b'z'

abbrev pub is_ascii_uppercase : ℕ → Bool
is_ascii_uppercase c = leb b'A' c && leb c b'Z'

abbrev pub is_ascii_hexdigit : ℕ → Bool
is_ascii_hexdigit c = is_ascii_digit c || (leb b'a' c && leb c b'f') || (leb b'A' c && leb c b'F')

unfoldable pub is_hex : String → Bool
is_hex s = all_chars is_ascii_hexdigit s

unfoldable pub is_lower_hex : String → Bool
is_lower_hex s =
    all_chars (λ x. (is_ascii_lowercase x || is_ascii_digit x) && is_ascii_hexdigit x) s

unfoldable pub is_nip19 : String → Bool
is_nip19 s = starts_with s "npub" || starts_with s "note"

-- What is not modelled of texts: the Unicode tables of the standard library, and the crates bech32
-- and hex. `bech32_decode` gives the data part and `from_base32` its bytes.
pub record Text : Type 0 where
  pub to_lowercase : String → String
  pub trim : String → String
  pub bech32_decode : String → Option (List ℕ)
  pub from_base32 : List ℕ → Option (List ℕ)
  pub hex_decode : String → Option (List ℕ)
  pub hex_encode : List ℕ → String

unfoldable pub nip19_to_hex : Text → String → Option String
nip19_to_hex t s = Option.map t.hex_encode (Option.bind (t.bech32_decode s) t.from_base32)

abbrev pub u64_mod : ℕ
u64_mod = 2 ^ 64

-- The digits of a number read so far, and the rest; `none` on another character and past the range.
parse_digits : ℕ → String → Option ℕ
parse_digits n [] = some n
parse_digits n (c ∷ s) =
    let d = code c in
    let next = n * 10 + (d - b'0') in
    let rest = parse_digits next s in if is_ascii_digit d && ltb next u64_mod then rest else none

-- `str::parse::<u64>`: one leading `+` is taken, and no digit at all is an error.
unfoldable pub parse_u64 : String → Option ℕ
unfolding parse_digits
parse_u64 [] = none
parse_u64 (c ∷ []) = if code c == b'+' then none else parse_digits 0 (c ∷ [])
parse_u64 (c ∷ d ∷ s) =
    if code c == b'+' then parse_digits 0 (d ∷ s) else parse_digits 0 (c ∷ d ∷ s)
