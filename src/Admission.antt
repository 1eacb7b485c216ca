-- ===== src/Admission.antt =====
-- src/admission.rs: the write-side policies and the pipeline that is built from the settings. The
-- Unicode tables of the standard library and the decoder of NIP-19 texts are parameters (`Text`).
pub mod Pipeline
pub mod GiftWrap
pub mod Authors
use mathlib.Core.Option
use floonet_rs.Base.{
  ℕ, String, len, Bool, true, false, not, ◌&&◌, Option, none, some, List, [], ◌∷◌, ◌++◌, ◌==◌,
  nat_eq, string_eq, if◌then◌else◌, length, any, contains,
}
use floonet_rs.Utils.{Text, is_hex, is_lower_hex, is_nip19, nip19_to_hex}
use floonet_rs.Event.{Event, first_is}

abbrev pub default_allowed_kinds : List ℕ
default_allowed_kinds =
    0 ∷ 1 ∷ 3 ∷ 5 ∷ 7 ∷ 13 ∷ 14 ∷ 16 ∷ 17 ∷ 1059 ∷ 1111 ∷ 10000 ∷ 10002 ∷ 10050 ∷ 24133 ∷ 24140
    ∷ 27235 ∷ 30000 ∷ 30003 ∷ 30023 ∷ 30078 ∷ 30402 ∷ 30405 ∷ 30406 ∷ 31990 ∷ []

abbrev pub locked_kinds : List ℕ
locked_kinds = 1 ∷ 30023 ∷ []

abbrev pub gift_wrap_kind : ℕ
gift_wrap_kind = 1059

-- The reasons of the denials, in place of their texts; `kind_not_accepted` has the kind that the
-- text shows.
pub data Reason : Type 0 where
  kind_not_accepted : ℕ → Reason
  authentication_required pubkey_not_allowed notes_from_authors_only expiration_on_gift_wrap
        missing_recipient extraneous_tags :
      Reason

pub data Decision : Type 0 where
  allow : Decision
  deny : (reason : Reason) (auth_required : Bool) → Decision

-- `KindWhitelist::check`
unfoldable pub check_kind : List ℕ → Event → Decision
check_kind allowed e =
    if contains allowed e.kind then allow else deny (kind_not_accepted e.kind) false

-- `RequireAuth::check`
unfoldable pub check_auth : Option String → Decision
check_auth none = deny authentication_required true
check_auth (some _) = allow

-- `PubkeyWhitelist::check`
unfoldable pub check_pubkey : List String → Event → Decision
check_pubkey allowed e = if contains allowed e.pubkey then allow else deny pubkey_not_allowed false

-- `RestrictedKindAuthors::check`
unfoldable pub check_locked : Text → List String → Event → Decision
check_locked t authors e =
    if not (contains locked_kinds e.kind)
    then allow
    else if contains authors (t.to_lowercase e.pubkey)
    then allow
    else deny notes_from_authors_only false

-- One entry of the loop of `from_entries`: the author that is pushed, if one is.
author_entry : Text → String → Option String
author_entry t entry =
    let e = t.trim entry in
    let hex =
      if is_nip19 e
      then nip19_to_hex t e
      else if len e == 64 && is_hex e
      then some (t.to_lowercase e)
      else none in
    if e == ""
    then none
    else elim hex [ none ↦ none | some h ↦ if len h == 64 then some (t.to_lowercase h) else none ]

abbrev pub push_author : Option String → List String → List String
push_author none authors = authors
push_author (some h) authors = h ∷ authors

-- `RestrictedKindAuthors::from_entries`
unfoldable pub from_entries : Text → List String → List String
unfolding author_entry
from_entries t [] = []
from_entries t (entry ∷ entries) = push_author (author_entry t entry) (from_entries t entries)

-- The first values of the `p` tags.
unfoldable pub p_pubkeys : List (List String) → List String
p_pubkeys [] = []
p_pubkeys ((n ∷ v ∷ _) ∷ ts) = let rest = p_pubkeys ts in if n == "p" then v ∷ rest else rest
p_pubkeys (_ ∷ ts) = p_pubkeys ts

recipient_ok : List String → Bool
recipient_ok (pubkey ∷ []) = len pubkey == 64 && is_lower_hex pubkey
recipient_ok _ = false

-- `GiftWrapRetention::check`
unfoldable pub check_gift_wrap : Event → Decision
unfolding recipient_ok
check_gift_wrap e =
    if not (e.kind == gift_wrap_kind)
    then allow
    else if any (first_is "expiration") e.tags
    then deny expiration_on_gift_wrap false
    else if not (recipient_ok (p_pubkeys e.tags))
    then deny missing_recipient false
    else if not (length e.tags == 1)
    then deny extraneous_tags false
    else allow

-- The policies that the pipeline can hold (`Box<dyn AdmissionPolicy>`).
pub data Policy : Type 0 where
  kind_whitelist : List ℕ → Policy
  gift_wrap_retention : Policy
  restricted_kind_authors : List String → Policy
  require_auth : Policy
  pubkey_whitelist : List String → Policy

-- The settings that the pipeline reads (src/config.rs).
pub record Settings : Type 0 where
  pub event_kind_allowlist : Option (List ℕ)
  pub public_note_authors : Option (List String)
  pub nip42_auth : Bool
  pub require_auth_to_write : Bool
  pub pay_to_relay : Bool
  pub pubkey_whitelist : Option (List String)

-- The author list is installed on a relay that is not paid for.
unfoldable pub author_policies : Bool → Option (List String) → List Policy
author_policies true list = []
author_policies false none = []
author_policies false (some allowed) = pubkey_whitelist allowed ∷ []

module _ (t : Text) where
  unfoldable pub check_policy : Policy → Event → Option String → Decision
  unfolding check_kind check_auth check_pubkey check_locked check_gift_wrap
  check_policy (kind_whitelist allowed) e authed = check_kind allowed e
  check_policy gift_wrap_retention e authed = check_gift_wrap e
  check_policy (restricted_kind_authors authors) e authed = check_locked t authors e
  check_policy require_auth e authed = check_auth authed
  check_policy (pubkey_whitelist allowed) e authed = check_pubkey allowed e

  -- `Admission::from_settings`
  unfoldable pub from_settings : Settings → List Policy
  from_settings s =
      (kind_whitelist (Option.get_or s.event_kind_allowlist default_allowed_kinds)
        ∷ gift_wrap_retention
        ∷ restricted_kind_authors (from_entries t (Option.get_or s.public_note_authors []))
        ∷ [])
      ++ (if s.nip42_auth && s.require_auth_to_write then require_auth ∷ [] else [])
      ++ author_policies s.pay_to_relay s.pubkey_whitelist

  -- `Admission::check`: the first denial wins.
  unfoldable pub check : List Policy → Event → Option String → Decision
  unfolding check_policy
  check [] e authed = allow
  check (p ∷ ps) e authed = elim (check_policy p e authed) [
    | allow ↦ check ps e authed
    | deny reason auth_required ↦ deny reason auth_required
  ]
