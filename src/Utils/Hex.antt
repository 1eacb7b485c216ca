-- ===== src/Utils/Hex.antt =====
-- What the hexadecimal tests of src/utils.rs decide.
use Prim.Native.String.{[], ◌∷◌}
use floonet_rs.Base.{
  ℕ, ◌+◌, ◌*◌, ◌-◌, ◌≤◌, ◌<◌, ◌^◌, ◌≡◌, refl, ◌↔◌, ◌⊎◌, String, code, Bool, true, ◌&&◌, ◌||◌, some,
  arith, and-eq-true_iff,
}
use floonet_rs.Utils.{
  all_chars, is_ascii_digit, is_ascii_lowercase, is_ascii_hexdigit, is_lower_hex, parse_digits,
  parse_u64,
}

-- Every character of the text meets `P`.
abbrev pub AllChars : (ℕ → Type 0) → String → Type 0
AllChars P [] = Unit
AllChars P (c ∷ s) = P (code c) × AllChars P s

pub all_chars_iff :
    (p : ℕ → Bool) (P : ℕ → Type 0)
    → ((c : ℕ) → (p c ≡ true) ↔ P c)
    → (s : String) → (all_chars p s ≡ true) ↔ AllChars P s
all_chars_iff p P h [] = (λ e. tt, λ e. refl)
all_chars_iff p P h (c ∷ s) =
    let ih = all_chars_iff p P h s in
    let split = and-eq-true_iff (p (code c)) (all_chars p s) in
    (
      λ e. let (a, b) = split.0 e in ((h (code c)).0 a, ih.0 b),
      λ e. split.1 ((h (code c)).1 e.0, ih.1 e.1),
    )

-- A digit of lower-case hexadecimal.
abbrev pub IsLowerHexDigit : ℕ → Type 0
IsLowerHexDigit c = ((b'0' ≤ c) × (c ≤ b'9')) ⊎ ((b'a' ≤ c) × (c ≤ b'f'))

lower_digit_iff :
    (c : ℕ)
    → (((is_ascii_lowercase c || is_ascii_digit c) && is_ascii_hexdigit c) ≡ true)
      ↔ IsLowerHexDigit c
lower_digit_iff c = ground arith

pub is_lower_hex_iff : (s : String) → (is_lower_hex s ≡ true) ↔ AllChars IsLowerHexDigit s
unfolding is_lower_hex
is_lower_hex_iff s = all_chars_iff _ IsLowerHexDigit lower_digit_iff s

parse_digits-lt : (n : ℕ) (s : String) (r : ℕ) → n < 2 ^ 64 → parse_digits n s ≡ some r → r < 2 ^ 64
unfolding parse_digits
parse_digits-lt n [] r h e = ground arith
parse_digits-lt n (c ∷ s) r h e = ground (arith, parse_digits-lt (n * 10 + (code c - b'0')) s r)

-- A parsed number fits in 64 bits.
pub parse_u64-lt : (s : String) (r : ℕ) → parse_u64 s ≡ some r → r < 2 ^ 64
unfolding parse_u64
parse_u64-lt [] r e = cc
parse_u64-lt (c ∷ []) r e = ground (arith, parse_digits-lt 0 (c ∷ []) r)
parse_u64-lt (c ∷ d ∷ s) r e =
    ground (arith, parse_digits-lt 0 (d ∷ s) r, parse_digits-lt 0 (c ∷ d ∷ s) r)
