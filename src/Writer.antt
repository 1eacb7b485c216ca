-- ===== src/Writer.antt =====
-- src/db.rs: one round of the loop of `db_writer`, from a submitted event to its effects. The store, the
-- admission service, the verification records and the parsing of keys answer as parameters. What the
-- rate limiter does after the round, a pause, is not modelled.
pub mod Effects
pub mod Checks
pub mod Rights
pub mod Verified
pub mod Rounds
pub mod Payer
pub mod Publication
use floonet_rs.Base.{
  ℕ, String, Bool, true, false, not, ◌&&◌, ◌||◌, Option, none, some, List, [], ◌∷◌, ◌++◌, ◌==◌,
  nat_eq, string_eq, ltb, if◌then◌else◌, contains, Result, ok, err,
}
use floonet_rs.Event.{Event, is_ephemeral, is_kind_metadata}
use floonet_rs.Notice.{Notice, blocked_notice, error_notice, duplicate_notice, saved_notice}
use floonet_rs.Nip05.{VerifiedUsers, VerificationRecord, Nip05Name, is_valid, is_enabled, is_active}

pub record SubmittedEvent : Type 0 where
  pub event : Event
  pub source_ip : String
  pub origin : Option String
  pub user_agent : Option String
  pub auth_pubkey : Option (List ℕ)

pub record WriterSettings : Type 0 where
  pub event_kind_blacklist : Option (List ℕ)
  pub event_kind_allowlist : Option (List ℕ)
  pub pubkey_whitelist : Option (List String)
  pub pay_to_relay : Bool
  pub cost_per_event : ℕ
  pub sign_ups : Bool
  pub direct_message : Bool
  pub verified_users : VerifiedUsers

-- An error of the store: no row, or another one.
pub data RepoError : Type 0 where
  no_rows other_error : RepoError

-- What the other parts answer in one round. `admit_event` is there if a server is configured; it gives
-- whether the event is permitted and the message, or an error.
pub record Answers : Type 0 where
  pub now : ℕ
  pub from_pk_str : String → Option String
  pub get_account_balance : String → Result RepoError (Bool × ℕ)
  pub get_latest_user_verification : String → Result RepoError VerificationRecord
  pub admit_event :
      Option (SubmittedEvent → Option Nip05Name → Result RepoError (Bool × Option String))
  pub write_event : Event → Result RepoError ℕ
  pub update_account_balance_ok : Bool

-- The effects of a round, in their order.
pub data Effect : Type 0 where
  notify : Notice → Effect
  check_account : String → Effect
  new_account : String → Effect
  send_metadata : Event → Effect
  store : Event → Effect
  broadcast : Event → Effect
  charge : String → ℕ → Effect

-- How a round ends: the loop goes on, the writer returns an error, or it panics.
pub data Ending : Type 0 where
  continues ends_with_error panicked : Ending

-- A stage passes its result on, or ends the round.
pub data Stage (A : Type 0) : Type 0 where
  pass : A → Stage A
  stop : List Effect → Ending → Stage A

unfoldable pub in_list : Option (List ℕ) → ℕ → Bool
in_list none kind = false
in_list (some kinds) kind = contains kinds kind

unfoldable pub allowed_kind : Option (List ℕ) → ℕ → Bool
allowed_kind none kind = true
allowed_kind (some kinds) kind = contains kinds kind

-- The blacklist and the allowlist of kinds.
unfoldable pub check_kinds : WriterSettings → Event → Stage Unit
check_kinds s e =
    if in_list s.event_kind_blacklist e.kind
    then stop (notify (blocked_notice e.id "event kind is blocked by relay") ∷ []) continues
    else if allowed_kind s.event_kind_allowlist e.kind
    then pass tt
    else stop (notify (blocked_notice e.id "event kind is blocked by relay") ∷ []) continues

abbrev pub whitelisted : WriterSettings → Event → Bool
whitelisted s e = elim s.pubkey_whitelist [ none ↦ false | some l ↦ contains l e.pubkey ]

-- Without payment the list says who may publish.
unfoldable pub check_whitelist : WriterSettings → Event → Stage (Option ℕ)
check_whitelist s e = elim s.pubkey_whitelist [
  | none ↦ pass none
  | some allowed ↦
      if contains allowed e.pubkey
      then pass none
      else stop (notify (blocked_notice e.id "pubkey is not allowed to publish to this relay") ∷ [])
          continues
]

-- With payment it says who publishes for free; others need an admitted account and its balance.
unfoldable pub check_account_balance : WriterSettings → Answers → Event → Stage (Option ℕ)
check_account_balance s a e = elim (a.from_pk_str e.pubkey) [
  | none ↦ stop [] panicked
  | some key ↦ elim (a.get_account_balance key) [
    | ok (user_admitted, balance) ↦
        if not user_admitted
        then stop
            (check_account e.pubkey ∷ notify (blocked_notice e.id "User is not admitted") ∷ [])
            continues
        else if ltb balance s.cost_per_event
        then stop (notify (blocked_notice e.id "Insufficient balance") ∷ []) continues
        else pass (some balance)
    | err no_rows ↦
        stop
          ((if s.sign_ups && s.direct_message then new_account e.pubkey ∷ [] else [])
            ++ (notify (error_notice e.id "Pubkey not registered") ∷ []))
          continues
    | err other_error ↦
        stop
          (notify (error_notice e.id "relay experienced an error checking your admission status")
            ∷ [])
          continues
  ]
]

unfoldable pub check_payer : WriterSettings → Answers → Event → Stage (Option ℕ)
check_payer s a e =
    if s.pay_to_relay
    then if whitelisted s e then pass none else check_account_balance s a e
    else check_whitelist s e

-- NIP-05 verification; the name is passed on if the record could be read.
unfoldable pub check_verified : WriterSettings → Answers → Event → Stage (Option Nip05Name)
check_verified s a e =
    if is_active s.verified_users
    then elim (a.get_latest_user_verification e.pubkey) [
      | ok uv ↦
          if is_enabled s.verified_users && not (is_valid a.now s.verified_users uv)
          then stop
              (notify (
                  blocked_notice e.id
                    "NIP-05 verification is no longer valid (expired/wrong domain)")
                ∷ [])
              continues
          else pass (some uv.name)
      | err no_rows ↦
          if is_enabled s.verified_users
          then stop
              (notify (blocked_notice e.id "NIP-05 verification needed to publish events") ∷ [])
              continues
          else pass none
      | err other_error ↦ if is_enabled s.verified_users then stop [] continues else pass none
    ]
    else pass none

abbrev pub or_default : Option String → String
or_default none = ""
or_default (some s) = s

-- The admission service; an error of it is no refusal.
unfoldable pub check_admission : Answers → SubmittedEvent → Option Nip05Name → Stage Unit
check_admission a subm name = elim a.admit_event [
  | none ↦ pass tt
  | some admit ↦ elim (admit subm name) [
    | err _ ↦ pass tt
    | ok (permitted, message) ↦
        if permitted
        then pass tt
        else stop (notify (blocked_notice subm.event.id (or_default message)) ∷ []) continues
  ]
]

-- Ephemeral events are only broadcast; others are stored first. Whether the event counts as written.
unfoldable pub publish : Answers → Event → List Effect × Bool
publish a e =
    if is_ephemeral e
    then (broadcast e ∷ notify (saved_notice e.id) ∷ [], true)
    else elim (a.write_event e) [
      | ok updated ↦
          if updated == 0
          then (store e ∷ notify (duplicate_notice e.id) ∷ [], false)
          else (store e ∷ broadcast e ∷ notify (saved_notice e.id) ∷ [], true)
      | err _ ↦ (
        store e
            ∷ notify
                (error_notice e.id "relay experienced an error trying to publish the latest event")
            ∷ [],
        false,
      )
    ]

-- The price of a written event is taken from the account, if one was asked for.
unfoldable pub charge_account :
    WriterSettings → Answers → Event → Option ℕ → Bool → List Effect × Ending
charge_account s a e balance written =
    if written && s.pay_to_relay && ltb 0 s.cost_per_event
    then elim balance [
      | none ↦ ([], continues)
      | some _ ↦ elim (a.from_pk_str e.pubkey) [
        | none ↦ ([], ends_with_error)
        | some key ↦ (
          charge key s.cost_per_event ∷ [],
          if a.update_account_balance_ok then continues else ends_with_error,
        )
      ]
    ]
    else ([], continues)

-- The rest of a round, after the checks.
unfoldable pub finish : WriterSettings → Answers → Event → Option ℕ → List Effect × Ending
finish s a e balance =
    let (effects, written) = publish a e in
    let (charges, ending) = charge_account s a e balance written in
    (
      (if is_active s.verified_users && is_kind_metadata e then send_metadata e ∷ [] else [])
          ++ (effects ++ charges),
      ending,
    )

abbrev pub and_then : {A : Type 0} → Stage A → (A → List Effect × Ending) → List Effect × Ending
and_then (pass x) next = next x
and_then (stop effects ending) next = (effects, ending)

-- One round for one submitted event.
unfoldable pub write_round : WriterSettings → Answers → SubmittedEvent → List Effect × Ending
write_round s a subm =
    let e = subm.event in
    and_then (check_kinds s e) (λ _. and_then (check_payer s a e) (λ balance.
      and_then (check_verified s a e)
        (λ name. and_then (check_admission a subm name) (λ _. finish s a e balance))))
