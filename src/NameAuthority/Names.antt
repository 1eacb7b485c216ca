-- ===== src/NameAuthority/Names.antt =====
-- src/name_authority/names.rs: which names can be claimed, and how look-alikes of reserved names are
-- folded. A text is read by characters: the bytes of a character that is not ASCII are 128 or more,
-- so the byte tests of the source refuse it too.
pub mod Laws
use Prim.Native.String
use Prim.Native.String.{[], ◌∷◌}
use floonet_rs.Base.{
  ℕ, Char, code, String, len, count, Bool, true, false, ◌&&◌, ◌||◌, Option, none, some, List, ◌++◌,
  [], ◌∷◌, ◌==◌, nat_eq, string_eq, ltb, leb, if◌then◌else◌, any, contains, Run, returns, panics,
  map, not, filter,
}
use floonet_rs.Utils.{
  all_chars, is_ascii_digit, is_ascii_lowercase, is_ascii_hexdigit, is_ascii_uppercase, Text,
}

abbrev pub reserved : List String
reserved =
    "admin" ∷ "administrator" ∷ "root" ∷ "support" ∷ "help" ∷ "info" ∷ "mail" ∷ "email" ∷ "www"
    ∷ "relay" ∷ "nostr" ∷ "pay" ∷ "payment" ∷ "payments" ∷ "wallet" ∷ "official" ∷ "security"
    ∷ "abuse" ∷ "postmaster" ∷ "hostmaster" ∷ "webmaster" ∷ "contact" ∷ "team" ∷ "staff" ∷ "mod"
    ∷ "moderator" ∷ "moderators" ∷ "system" ∷ "bot" ∷ "api" ∷ "app" ∷ "dev" ∷ "developer" ∷ "test"
    ∷ "testing" ∷ "anonymous" ∷ "anon" ∷ "null" ∷ "void" ∷ "owner" ∷ "ceo" ∷ "register"
    ∷ "registration" ∷ "account" ∷ "accounts" ∷ "verify" ∷ "verified" ∷ "billing" ∷ "donate"
    ∷ "treasury" ∷ "faucet" ∷ "exchange" ∷ "swap" ∷ "bank" ∷ "money" ∷ "cash" ∷ "fees" ∷ "fee"
    ∷ "node" ∷ "miner" ∷ "mining" ∷ "explorer" ∷ "status" ∷ "blog" ∷ "news" ∷ "docs" ∷ "wiki"
    ∷ "store" ∷ "shop" ∷ []

abbrev pub name_char : ℕ → Bool
name_char c = is_ascii_lowercase c || is_ascii_digit c || c == b'.' || c == b'_' || c == b'-'

abbrev pub alphanumeric : ℕ → Bool
alphanumeric c = is_ascii_lowercase c || is_ascii_digit c

-- `bytes[bytes.len() - 1]` of a text that begins with the character `c`
abbrev pub last_char : Char → String → Char
last_char c String.[] = c
last_char c (d ∷ s) = last_char d s

-- The first and the last byte; there is none in the empty text, where the source indexes it.
unfoldable pub ends_alphanumeric : String → Run Bool
ends_alphanumeric String.[] = panics
ends_alphanumeric (c ∷ s) = returns (alphanumeric (code c) && alphanumeric (code (last_char c s)))

unfoldable pub valid_name : (name : String) (name_min name_max : ℕ) → Run Bool
valid_name name name_min name_max =
    let ends = ends_alphanumeric name in
    if not (leb name_min (count name) && leb (count name) name_max)
    then returns false
    else if not (all_chars name_char name)
    then returns false
    else ends

-- What one character is folded to.
unfoldable pub fold_char : Char → Option Char
fold_char c =
    if code c == b'.' || code c == b'_' || code c == b'-'
    then none
    else if code c == b'0'
    then some "o"
    else if code c == b'1'
    then some "i"
    else if code c == b'3'
    then some "e"
    else if code c == b'4'
    then some "a"
    else if code c == b'5'
    then some "s"
    else if code c == b'7'
    then some "t"
    else if code c == b'8'
    then some "b"
    else if code c == b'9'
    then some "g"
    else some c

abbrev pub push_kept : Option Char → String → String
push_kept none s = s
push_kept (some c) s = c ∷ s

unfoldable pub fold_lookalike : String → String
fold_lookalike String.[] = String.[]
fold_lookalike (c ∷ s) = push_kept (fold_char c) (fold_lookalike s)

unfoldable pub is_reserved : String → List String → Bool
is_reserved name extra =
    if contains reserved name || any (λ (r : String). r == name) extra
    then true
    else let folded = fold_lookalike name in
      any (λ (r : String). fold_lookalike r == folded) reserved
      || any (λ (r : String). fold_lookalike r == folded) extra

-- `split(sep)`: the pieces before, between and after the separators
abbrev pub push_char : Char → List String → List String
push_char c [] = (c ∷ String.[]) ∷ []
push_char c (piece ∷ pieces) = (c ∷ piece) ∷ pieces

unfoldable pub split : ℕ → String → List String
split sep String.[] = String.[] ∷ []
split sep (c ∷ s) =
    let pieces = split sep s in if code c == sep then String.[] ∷ pieces else push_char c pieces

-- `trim_end_matches(sep)`
abbrev drop_end : ℕ → Char → String → String
drop_end sep c String.[] = if code c == sep then String.[] else c ∷ String.[]
drop_end sep c (d ∷ s) = c ∷ d ∷ s

unfoldable pub trim_end : ℕ → String → String
trim_end sep String.[] = String.[]
trim_end sep (c ∷ s) = drop_end sep c (trim_end sep s)

abbrev pub all_but_last : List String → List String
all_but_last [] = []
all_but_last (l ∷ []) = []
all_but_last (l ∷ m ∷ ls) = l ∷ all_but_last (m ∷ ls)

abbrev kept_labels : List String → List String
kept_labels (l ∷ m ∷ ls) = all_but_last (l ∷ m ∷ ls)
kept_labels ls = ls

unfoldable pub domain_reserved : Text → String → List String
domain_reserved t domain =
    map t.to_lowercase
      (kept_labels (filter (λ l. not (len l == 0)) (split b'.' (trim_end b'.' (t.trim domain)))))

unfoldable pub valid_pubkey_hex : String → Bool
valid_pubkey_hex pk =
    len pk == 64 && all_chars (λ c. is_ascii_hexdigit c && not (is_ascii_uppercase c)) pk
