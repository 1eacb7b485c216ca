-- ===== src/NameAuthority/Handlers.antt =====
-- The endpoints of src/name_authority/mod.rs, each a function of the request and of the state. A registration
-- has two parts, since it waits for the payment between them, where other requests run.
-- `name_min` is positive, as the configuration asserts, so `valid_name` does not panic.
pub mod Laws
pub mod Release
pub mod Register
use mathlib.Core.Option
use Prim.Native.String.{◌++◌}
use floonet_rs.Base.{
  ℕ, String, Bool, true, false, not, ◌&&◌, ◌||◌, ◌⊎◌, inl, inr, Option, none, some, List, [], ◌∷◌,
  ◌==◌, string_eq, ltb, leb, if◌then◌else◌, length, Result, ok, err, Run, returns, panics, ◌*◌,
}
use floonet_rs.Utils.{Text}
use floonet_rs.Event.{Json, Crypto}
use floonet_rs.NameAuthority.{
  Claim, Config, Authority, is_none, second, owner_of, name_of, insert_claim, release_claim,
  Inserted, no_row, one_row, constraint_violation, allow_read, allow_write, auth_event_fresh,
  cooldown_active, record_op,
}
use floonet_rs.NameAuthority.Names.{valid_name, is_reserved, valid_pubkey_hex}
use floonet_rs.NameAuthority.Nip98.{Http, AuthError, verify_nip98}
use floonet_rs.NameAuthority.PaidGate.{Refusal}

-- What a handler reads of a request: the two clocks, the address, the header, the announced bound on
-- the body, and the body, which is `none` if reading it fails.
pub record Request : Type 0 where
  pub instant : ℕ
  pub unix : ℕ
  pub ip : String
  pub authorization : Option String
  pub body_bound : Option ℕ
  pub body : Option (List ℕ)

pub record RegisterBody : Type 0 where
  pub name : String
  pub pubkey : String

-- The answers, by status and contents.
pub data Reply : Type 0 where
  rate_limited too_large invalid_body replayed name_change_cooldown : Reply
  invalid_pubkey pubkey_mismatch invalid_name name_reserved name_taken : Reply
  db_error not_the_owner name_not_found not_found internal_error : Reply
  unauthorized : AuthError → Reply
  has_a_name : Option String → Reply
  refused : Refusal → Reply
  registered already_registered : (name nip05 : String) → Reply
  released : String → Reply
  available : String → Reply
  unavailable : (name reason : String) → Reply
  profile_of : (name pubkey : String) → Reply

abbrev pub name_is_valid : Config → String → Bool
name_is_valid cfg name = elim (valid_name name cfg.name_min cfg.name_max) [
  | returns b ↦ b
  | panics ↦ false
]

abbrev pub max_body_bytes : ℕ
max_body_bytes = 8192

abbrev pub exceeds : Option ℕ → Bool
exceeds none = true
exceeds (some n) = ltb max_body_bytes n

abbrev pub read_body : Option (List ℕ) → Option (List ℕ)
read_body none = none
read_body (some b) = if leb (length b) max_body_bytes then some b else none

abbrev pub nip05_of : Config → String → String
nip05_of cfg name = name ++ "@" ++ cfg.domain

module _ (t : Text) (cfg : Config) (extra_reserved : List String) where
  -- `availability`
  unfoldable pub availability : String → Request → Authority → Authority × Reply
  availability path_name r a =
      let (b, allowed) = allow_read cfg r.instant r.ip a in
      let name = t.to_lowercase path_name in
      if not allowed
      then (b, rate_limited)
      else if not (name_is_valid cfg name)
      then (b, unavailable name "invalid")
      else if is_reserved name extra_reserved
      then (b, unavailable name "reserved")
      else if not (is_none (owner_of name b.db))
      then (b, unavailable name "taken")
      else (b, available name)

  unfoldable pub profile : String → Request → Authority → Authority × Reply
  profile path_name r a =
      let (b, allowed) = allow_read cfg r.instant r.ip a in
      let name = t.to_lowercase path_name in
      if not allowed
      then (b, rate_limited)
      else if not (name_is_valid cfg name)
      then (b, not_found)
      else elim (owner_of name b.db) [
        | some pubkey ↦ (b, profile_of name pubkey)
        | none ↦ (b, not_found)
      ]

  unfoldable pub by_pubkey : String → Request → Authority → Authority × Reply
  by_pubkey path_pubkey r a =
      let (b, allowed) = allow_read cfg r.instant r.ip a in
      let pubkey = t.to_lowercase path_pubkey in
      if not allowed
      then (b, rate_limited)
      else if not (valid_pubkey_hex pubkey)
      then (b, not_found)
      else elim (name_of pubkey b.db) [
        | some name ↦ (b, profile_of name pubkey)
        | none ↦ (b, not_found)
      ]

  -- The checks of a registration on what the body asks for: an answer, or what is to be claimed.
  unfoldable pub check_claim :
      String → RegisterBody → List (String × Claim) → Reply ⊎ (String × String)
  check_claim auth_pubkey req db =
      let name = t.to_lowercase req.name in
      let pubkey = t.to_lowercase req.pubkey in
      if not (valid_pubkey_hex pubkey)
      then inl invalid_pubkey
      else if not (pubkey == auth_pubkey)
      then inl pubkey_mismatch
      else if not (name_is_valid cfg name)
      then inl invalid_name
      else if is_reserved name extra_reserved
      then inl name_reserved
      else elim (owner_of name db) [
        | some owner ↦
            if owner == pubkey
            then inl (already_registered name (nip05_of cfg name))
            else inl name_taken
        | none ↦ elim (name_of pubkey db) [
          | some existing ↦ inl (has_a_name (some existing))
          | none ↦ inr (name, pubkey)
        ]
      ]

  -- The rest of a registration, once the payment does not stand against it: the INSERT, which the
  -- database may fail to execute.
  unfoldable pub finish_register :
      (write_fails : Bool) (unix : ℕ) (name pubkey : String) → Authority → Authority × Reply
  finish_register true unix name pubkey a = (a, db_error)
  finish_register false unix name pubkey a =
      let (db, inserted) = insert_claim name pubkey unix a.db in
      elim inserted [
        | no_row ↦ (record a { db = db }, name_taken)
        | one_row ↦ (record a { db = db }, registered name (nip05_of cfg name))
        | constraint_violation ↦ (record a { db = db }, has_a_name none)
      ]

  module _ (j : Json) (c : Crypto) (h : Http) (body_from_json : List ℕ → Option RegisterBody) where
    -- The authorization of a call, used once.
    unfoldable pub authorize :
        (method path : String) → List ℕ → Request → Authority → Authority × Result Reply String
    authorize method path body r a =
        elim (verify_nip98 j c t h r.authorization method path body cfg.base_url
          cfg.auth_max_age_secs r.unix) [
            | err e ↦ (a, err (unauthorized e))
            | ok who ↦
                let (b, fresh) = auth_event_fresh cfg r.instant who.1 a in
                if fresh then (b, ok who.0) else (b, err replayed)
          ]

    -- A registration up to the payment: an answer, or the name and the key that are to be claimed.
    unfoldable pub start_register : Request → Authority → Authority × (Reply ⊎ (String × String))
    start_register r a =
        let (a1, allowed) = allow_write cfg r.instant "na-reg" r.ip a in
        if not allowed
        then (a1, inl rate_limited)
        else if exceeds r.body_bound
        then (a1, inl too_large)
        else elim (read_body r.body) [
          | none ↦ (a1, inl invalid_body)
          | some body ↦
              let (a2, who) = authorize "POST" "/api/v1/register" body r a1 in
              elim who [
                | err reply ↦ (a2, inl reply)
                | ok auth_pubkey ↦
                    let (a3, cooling) =
                      cooldown_active r.instant "na-namechange" auth_pubkey
                        (cfg.name_change_cooldown_secs * second) a2 in
                    if cooling then (a3, inl name_change_cooldown) else elim (body_from_json body) [
                      | none ↦ (a3, inl invalid_body)
                      | some req ↦ (a3, check_claim auth_pubkey req a3.db)
                    ]
              ]
        ]

    -- `unregister`
    unfoldable pub unregister :
        (write_fails : Bool) → String → Request → Authority → Authority × Reply
    unregister write_fails path_name r a =
        let (a1, allowed) = allow_write cfg r.instant "na-unreg" r.ip a in
        let name = t.to_lowercase path_name in
        let (a2, who) = authorize "DELETE" ("/api/v1/register/" ++ name) [] r a1 in
        if not allowed then (a1, rate_limited) else elim who [
          | err reply ↦ (a2, reply)
          | ok auth_pubkey ↦ elim (owner_of name a2.db) [
            | none ↦ (a2, name_not_found)
            | some owner ↦
                if not (owner == auth_pubkey)
                then (a2, not_the_owner)
                else if write_fails
                then (a2, internal_error)
                else (
                  record_op r.instant "na-namechange" auth_pubkey
                      (record a2 { db = release_claim name r.unix a2.db }),
                  released name,
                )
          ]
        ]

    -- `register`, without other requests during the wait: `gate` is what the paid gate answers for
    -- the key.
    unfoldable pub register :
        (gate : String → Option Refusal) (write_fails : Bool)
        → Request
        → Authority
        → Authority × Reply
    register gate write_fails r a =
        let (b, asked) = start_register r a in
        elim asked [
          | inl reply ↦ (b, reply)
          | inr claim ↦ elim (gate claim.1) [
            | some refusal ↦ (b, refused refusal)
            | none ↦ finish_register write_fails r.unix claim.0 claim.1 b
          ]
        ]
