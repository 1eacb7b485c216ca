-- ===== src/NameAuthority.antt =====
-- src/name_authority/mod.rs: the claims of names in the relay's database, the rate limits, the
-- cooldown after a release, and the one-time use of an authorization.
-- The table `name_claims` is a map from the name, its primary key, to the rest of the row; its
-- statements are executed as SQLite documents them. A point in time of the monotonic clock is a
-- number of nanoseconds.
pub mod Names
pub mod Nip98
pub mod PaidGate
pub mod Handlers
pub mod Limits
pub mod Rate
pub mod Claims
use Prim.Native.String.{◌++◌}
use mathlib.Core.Option
use floonet_rs.Base.{
  ℕ, ◌+◌, ◌-◌, ◌*◌, ◌^◌, String, Bool, true, false, not, ◌&&◌, ◌||◌, Option, none, some, List, [],
  ◌∷◌, ◌==◌, nat_eq, string_eq, ltb, leb, if◌then◌else◌, length, any, filter, lookup, insert,
}

-- A row of `name_claims` without its key.
pub record Claim : Type 0 where
  pub pubkey : String
  pub created_at : ℕ
  pub released_at : Option ℕ

-- The part of the configuration that is read. A signed 64-bit number stands for its bits.
pub record Config : Type 0 where
  pub domain : String
  pub base_url : String
  pub name_min : ℕ
  pub name_max : ℕ
  pub auth_max_age_secs : ℕ
  pub name_change_cooldown_secs : ℕ
  pub read_rate_max : ℕ
  pub read_rate_window_secs : ℕ
  pub write_rate_max : ℕ
  pub write_rate_window_secs : ℕ

-- What the authority changes: the database, the hits of each bucket, and the authorizations seen.
pub record Authority : Type 0 where
  pub db : List (String × Claim)
  pub rate : List (String × List ℕ)
  pub seen_auth : List (String × ℕ)

abbrev pub second : ℕ
second = 1_000_000_000

-- The statements of `name_claims`.

abbrev pub is_none {ℓ} : {A : Type ℓ} → Option A → Bool
is_none none = true
is_none (some a) = false

-- `released_at IS NULL`
abbrev pub is_active : Claim → Bool
is_active row = is_none row.released_at

abbrev pub active_owner : Option Claim → Option String
active_owner none = none
active_owner (some row) = if is_active row then some row.pubkey else none

-- `lookup`
unfoldable pub owner_of : String → List (String × Claim) → Option String
owner_of name db = active_owner (lookup name db)

-- `name_of`: the first active row of the key.
unfoldable pub name_of : String → List (String × Claim) → Option String
name_of pubkey [] = none
name_of pubkey ((name, row) ∷ db) =
    let rest = name_of pubkey db in
    if row.pubkey == pubkey && is_active row then some name else rest

-- What executing the INSERT answers: the number of rows, or a violated constraint.
pub data Inserted : Type 0 where
  no_row one_row constraint_violation : Inserted

-- The INSERT. The conflict on the name is resolved first: an active name is left, a released one is to be
-- revived. The partial unique index forbids a second active name of the key.
unfoldable pub insert_claim :
    String → String → ℕ → List (String × Claim) → List (String × Claim) × Inserted
insert_claim name pubkey now db =
    let row : Claim = record { pubkey = pubkey; created_at = now; released_at = none } in
    if is_none (owner_of name db)
    then if is_none (name_of pubkey db)
      then (insert name row db, one_row)
      else (db, constraint_violation)
    else (db, no_row)

-- The UPDATE that releases a name.
unfoldable pub release_claim : String → ℕ → List (String × Claim) → List (String × Claim)
release_claim name now [] = []
release_claim name now ((n, row) ∷ db) =
    let rest = release_claim name now db in
    if n == name && is_active row
    then (n, record row { released_at = some now }) ∷ rest
    else (n, row) ∷ rest

-- The limits. `now.duration_since(t)` is zero for a later `t`.

abbrev pub within : (now window t : ℕ) → Bool
within now window t = ltb (now - t) window

-- `auth_max_age_secs.max(0) as u64 + 5` seconds
unfoldable pub auth_window : Config → ℕ
auth_window cfg =
    ((if ltb cfg.auth_max_age_secs (2 ^ 63) then cfg.auth_max_age_secs else 0) + 5) * second

unfoldable pub auth_event_fresh : Config → ℕ → String → Authority → Authority × Bool
auth_event_fresh cfg now event_id a =
    let seen = filter (λ (entry : String × ℕ). within now (auth_window cfg) entry.1) a.seen_auth in
    if is_none (lookup event_id seen)
    then (record a { seen_auth = insert event_id now seen }, true)
    else (record a { seen_auth = seen }, false)

abbrev pub bucket_key : String → String → String
bucket_key bucket key = bucket ++ ":" ++ key

abbrev pub or_default : Option (List ℕ) → List ℕ
or_default none = []
or_default (some hits) = hits

abbrev pub is_empty : List ℕ → Bool
is_empty [] = true
is_empty (_ ∷ _) = false

unfoldable pub cooldown_active : ℕ → String → String → ℕ → Authority → Authority × Bool
cooldown_active now bucket key window a =
    let k = bucket_key bucket key in
    elim (lookup k a.rate) [
      | none ↦ (a, false)
      | some hits ↦
          let kept = filter (within now window) hits in
          (record a { rate = insert k kept a.rate }, not (is_empty kept))
    ]

unfoldable pub record_op : ℕ → String → String → Authority → Authority
record_op now bucket key a =
    let k = bucket_key bucket key in
    record a { rate = insert k (now ∷ or_default (lookup k a.rate)) a.rate }

-- The sliding window of a bucket and an address; the newest hit stands first.
unfoldable pub allow : ℕ → String → String → ℕ → ℕ → Authority → Authority × Bool
allow now bucket ip max window a =
    let k = bucket_key bucket ip in
    let hits = filter (within now window) (or_default (lookup k a.rate)) in
    if leb max (length hits)
    then (record a { rate = insert k hits a.rate }, false)
    else let rate = insert k (now ∷ hits) a.rate in
      let recent = λ (entry : String × List ℕ). any (within now window) entry.1 in
      if ltb 50_000 (length rate)
      then (record a { rate = filter recent rate }, true)
      else (record a { rate = rate }, true)

unfoldable pub allow_read : Config → ℕ → String → Authority → Authority × Bool
allow_read cfg now ip a =
    allow now "na-read" ip cfg.read_rate_max (cfg.read_rate_window_secs * second) a

unfoldable pub allow_write : Config → ℕ → String → String → Authority → Authority × Bool
allow_write cfg now bucket ip a =
    allow now bucket ip cfg.write_rate_max (cfg.write_rate_window_secs * second) a
