-- ===== src/Nip05.antt =====
-- src/nip05.rs: names of verified users, the domains that may verify, when a verification is valid, and
-- the verifier's two tasks. HTTP, the alphanumeric test of Unicode and the JSON document of a domain are
-- parameters. Times are whole seconds; `cutoff` is what `now - duration` is in seconds, 0 before 1970.
pub mod Names
use Prim.Native.String.{[], ◌∷◌, ◌++◌}
use floonet_rs.Base.{
  ℕ, ◌+◌, ◌-◌, Char, code, String, Bool, true, false, not, ◌&&◌, ◌||◌, Option, none, some, List, [],
  ◌∷◌, ◌==◌, nat_eq, string_eq, ltb, leb, if◌then◌else◌, any, Result, ok, err,
}
use floonet_rs.Utils.{all_chars}

pub record Nip05Name : Type 0 where
  pub local : String
  pub domain : String

pub data NameError : Type 0 where
  invalid_local invalid_domain wrong_components : NameError

-- The first part gets one more character.
abbrev prepend : Char → List String → List String
prepend c [] = String.◌∷◌ c "" ∷ []
prepend c (part ∷ parts) = String.◌∷◌ c part ∷ parts

-- `split`
unfoldable pub split : ℕ → String → List String
split sep String.[] = "" ∷ []
split sep (c ∷ s) = let rest = split sep s in if code c == sep then "" ∷ rest else prepend c rest

module _ (is_alphanumeric : ℕ → Bool) where
  unfoldable pub local_char : ℕ → Bool
  local_char x = is_alphanumeric x || x == b'_' || x == b'-' || x == b'.'

  unfoldable pub domain_char : ℕ → Bool
  domain_char x = is_alphanumeric x || x == b'-' || x == b'.'

  -- `Nip05Name::try_from`
  unfoldable pub try_from : String → Result NameError Nip05Name
  try_from inet = elim (split b'@' inet) [
    | [] ↦ err wrong_components
    | local ∷ parts ↦ elim parts [
      | [] ↦ err wrong_components
      | domain ∷ more ↦ elim more [
        | _ ∷ _ ↦ err wrong_components
        | [] ↦
            if all_chars local_char local
            then if all_chars domain_char domain
              then ok (record { local = local; domain = domain })
              else err invalid_domain
            else err invalid_local
      ]
    ]
  ]

-- `to_string` of a name
unfoldable pub display : Nip05Name → String
display n = n.local ++ ("@" ++ n.domain)

unfoldable pub is_domain_only : Nip05Name → Bool
is_domain_only n = n.local == "_"

pub data UserWebVerificationStatus : Type 0 where
  verified domain_not_allowed unknown unverified : UserWebVerificationStatus

pub record VerificationRecord : Type 0 where
  pub rowid : ℕ
  pub name : Nip05Name
  pub address : String
  pub event : String
  pub event_created : ℕ
  pub last_success : Option ℕ
  pub last_failure : Option ℕ
  pub failure_count : ℕ

pub data VerifiedUsersMode : Type 0 where
  enabled passive disabled : VerifiedUsersMode

-- The settings, with the expiration as a number of seconds.
pub record VerifiedUsers : Type 0 where
  pub mode : VerifiedUsersMode
  pub domain_whitelist : Option (List String)
  pub domain_blacklist : Option (List String)
  pub verify_expiration_duration : Option ℕ
  pub max_consecutive_failures : ℕ

unfoldable pub is_enabled : VerifiedUsers → Bool
is_enabled s = elim s.mode [ enabled ↦ true | passive ↦ false | disabled ↦ false ]

unfoldable pub is_active : VerifiedUsers → Bool
is_active s = elim s.mode [ enabled ↦ true | passive ↦ true | disabled ↦ false ]

unfoldable pub is_domain_allowed : String → Option (List String) → Option (List String) → Bool
is_domain_allowed domain (some wl) blacklist = any (λ x. x == domain) wl
is_domain_allowed domain none (some bl) = not (any (λ x. x == domain) bl)
is_domain_allowed domain none none = true

-- `now` is the clock in seconds; a cutoff before 1970 counts as 0.
unfoldable pub is_current : ℕ → ℕ → VerificationRecord → Bool
is_current now d r = elim r.last_success [
  | none ↦ false
  | some s ↦ ltb (if leb d now then now - d else 0) s
]

abbrev current_if : ℕ → Option ℕ → VerificationRecord → Bool
current_if now none r = true
current_if now (some d) r = is_current now d r

unfoldable pub is_valid : ℕ → VerifiedUsers → VerificationRecord → Bool
is_valid now settings r =
    current_if now settings.verify_expiration_duration r
    && is_domain_allowed r.name.domain settings.domain_whitelist settings.domain_blacklist

-- What the verifier does with the oldest record, given what its domain answers (`do_reverify`).
pub data Reverification : Type 0 where
  update_verification_timestamp fail_verification delete_verification : ℕ → Reverification

unfoldable pub do_reverify :
    VerifiedUsers → VerificationRecord → UserWebVerificationStatus → Reverification
do_reverify settings v verified = update_verification_timestamp v.rowid
do_reverify settings v unverified = delete_verification v.rowid
do_reverify settings v domain_not_allowed =
    if leb settings.max_consecutive_failures v.failure_count
    then delete_verification v.rowid
    else fail_verification v.rowid
do_reverify settings v unknown =
    if leb settings.max_consecutive_failures v.failure_count
    then delete_verification v.rowid
    else fail_verification v.rowid

-- What the statement of a decision does to the row of the record, as the record that is read next.
-- `now` is the clock with the jitter that was added.
unfoldable pub reverified : ℕ → VerificationRecord → Reverification → Option VerificationRecord
reverified now v (update_verification_timestamp _) =
    some (record v { last_success = some now; failure_count = 0 })
reverified now v (fail_verification _) =
    some (record v { last_failure = some now; failure_count = v.failure_count + 1 })
reverified now v (delete_verification _) = none
