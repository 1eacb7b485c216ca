-- ===== src/Writer/Checks.antt =====
-- The checks of a round of the event writer (src/db.rs, `db_writer`).
use floonet_rs.Base.{
  if_true, if_false, ℕ, ◌≡◌, refl, sym, ◌∙◌, subst, ◌⊎◌, inl, inr, true, false, not, ◌&&◌, Option,
  none, some, List, [], ◌∷◌, nat_eq, string_eq, ltb, Bool-cases, Option-cases, Result-cases, any,
  contains, err,
}
use floonet_rs.Event.{Event}
use floonet_rs.Notice.{Notice, blocked_notice}
use floonet_rs.Nip05.{Nip05Name, is_enabled, is_active, is_valid}
use floonet_rs.Writer.Effects.{is_notice, is_publication, replies}
use floonet_rs.Writer.{
  SubmittedEvent, WriterSettings, Answers, RepoError, Effect, Ending, Stage, check_kinds,
  check_payer, check_whitelist, whitelisted, check_account_balance, check_verified, check_admission,
  finish, write_round, and_then, in_list, allowed_kind, or_default,
}

-- The effects of a round that ends in a check: nothing is published, and one notice is sent, unless the
-- key could not be parsed or the record of the verification could not be read.
pub record Refused (s : WriterSettings) (a : Answers) (e : Event) (es : List Effect)
    (ending : Ending) : Type 0 where
  pub unpublished : any is_publication es ≡ false
  pub answered :
      (replies es ≡ 1)
      ⊎ ((es ≡ []) × (a.from_pk_str e.pubkey ≡ none) × (ending ≡ Ending.panicked))
      ⊎ ((es ≡ [])
          × (is_enabled s.verified_users ≡ true)
          × (a.get_latest_user_verification e.pubkey ≡ err RepoError.other_error))

module _ (s : WriterSettings) (a : Answers) (e : Event) where
  -- A stage passes, or refuses.
  abbrev pub Decides : {A : Type 0} → Stage A → Type 0
  Decides {A} stage =
      ((x : A) × (stage ≡ Stage.pass x))
      ⊎ ((es : List Effect) × (ending : Ending) × (stage ≡ Stage.stop es ending)
          × Refused s a e es ending)

  one_notice : (n : Notice) (ending : Ending) → Refused s a e (Effect.notify n ∷ []) ending
  one_notice n ending = record { unpublished = refl; answered = inl refl }

  check_kinds-Decides : Decides (check_kinds s e)
  unfolding check_kinds
  check_kinds-Decides = elim (Bool-cases (in_list s.event_kind_blacklist e.kind)) [
    | inl black ↦ rw (check_kinds, black) (inr (_, _, refl, one_notice _ _))
    | inr free ↦ elim (Bool-cases (allowed_kind s.event_kind_allowlist e.kind)) [
      | inl fine ↦ rw (check_kinds, free, fine) (inl (tt, refl))
      | inr bad ↦ rw (check_kinds, free, bad) (inr (_, _, refl, one_notice _ _))
    ]
  ]

  check_whitelist-Decides : Decides (check_whitelist s e)
  unfolding check_whitelist
  check_whitelist-Decides = elim (Option-cases s.pubkey_whitelist) [
    | inl nobody ↦ inl (none, rw (check_whitelist, nobody) refl)
    | inr (allowed, listed) ↦ elim (Bool-cases (contains allowed e.pubkey)) [
      | inl fine ↦ inl (none, rw (check_whitelist, listed, fine) refl)
      | inr bad ↦
          let n = blocked_notice e.id "pubkey is not allowed to publish to this relay" in
          let stops : check_whitelist s e ≡ Stage.stop (Effect.notify n ∷ []) Ending.continues =
            rw (check_whitelist, listed, bad) refl in
          inr (_, _, stops, one_notice n _)
    ]
  ]

  two_effects :
      (x : Effect) (n : Notice) (ending : Ending)
      → is_publication x ≡ false
      → is_notice x ≡ false
      → Refused s a e (x ∷ Effect.notify n ∷ []) ending
  two_effects x n ending quiet other = record {
    unpublished = rw quiet refl;
    answered = inl (rw other refl);
  }

  check_account_balance-Decides : Decides (check_account_balance s a e)
  unfolding check_account_balance
  check_account_balance-Decides = elim (Option-cases (a.from_pk_str e.pubkey)) [
    | inl unparsed ↦
        rw (check_account_balance, unparsed)
          (inr (
            [],
            Ending.panicked,
            refl,
            record { unpublished = refl; answered = inr (inl (refl, unparsed, refl)) },
          ))
    | inr (key, parsed) ↦ elim (Result-cases (a.get_account_balance key)) [
      | inr (RepoError.no_rows, failed) ↦ elim (Bool-cases (s.sign_ups && s.direct_message)) [
        | inl invites ↦
            rw (check_account_balance, parsed, failed, invites)
              (inr (_, _, refl, two_effects _ _ _ refl refl))
        | inr closed ↦
            rw (check_account_balance, parsed, failed, closed) (inr (_, _, refl, one_notice _ _))
      ]
      | inr (RepoError.other_error, failed) ↦
          rw (check_account_balance, parsed, failed) (inr (_, _, refl, one_notice _ _))
      | inl ((user_admitted, balance), read) ↦ elim (Bool-cases user_admitted) [
        | inr outside ↦
            rw (check_account_balance, parsed, read, outside)
              (inr (_, _, refl, two_effects _ _ _ refl refl))
        | inl inside ↦ elim (Bool-cases (ltb balance s.cost_per_event)) [
          | inl poor ↦
              rw (check_account_balance, parsed, read, inside, poor)
                (inr (_, _, refl, one_notice _ _))
          | inr rich ↦
              rw (check_account_balance, parsed, read, inside, rich) (inl (some balance, refl))
        ]
      ]
    ]
  ]

  pub check_payer-Decides : Decides (check_payer s a e)
  unfolding check_payer
  check_payer-Decides = elim (Bool-cases s.pay_to_relay) [
    | inr gratis ↦ subst Decides (sym (if_false _ gratis)) check_whitelist-Decides
    | inl paid ↦ elim (Bool-cases (whitelisted s e)) [
      | inl listed ↦ inl (none, if_true _ paid ∙ if_true _ listed)
      | inr other ↦
          subst Decides (sym (if_true _ paid ∙ if_false _ other)) check_account_balance-Decides
    ]
  ]

  pub check_verified-Decides : Decides (check_verified s a e)
  unfolding check_verified
  check_verified-Decides = elim (Bool-cases (is_active s.verified_users)) [
    | inr idle ↦ inl (none, if_false _ idle)
    | inl active ↦ elim (Result-cases (a.get_latest_user_verification e.pubkey)) [
      | inl (uv, read) ↦
          elim (Bool-cases
            (is_enabled s.verified_users && not (is_valid a.now s.verified_users uv))) [
              | inl bad ↦
                  let n =
                    blocked_notice e.id
                      "NIP-05 verification is no longer valid (expired/wrong domain)" in
                  let stops : check_verified s a e
                      ≡ Stage.stop (Effect.notify n ∷ []) Ending.continues =
                    if_true _ active ∙ rw (read, bad) refl in
                  inr (_, _, stops, one_notice n _)
              | inr fine ↦ inl (some uv.name, if_true _ active ∙ rw (read, fine) refl)
            ]
      | inr (RepoError.no_rows, failed) ↦ elim (Bool-cases (is_enabled s.verified_users)) [
        | inl on ↦
            let n = blocked_notice e.id "NIP-05 verification needed to publish events" in
            let stops : check_verified s a e ≡ Stage.stop (Effect.notify n ∷ []) Ending.continues =
              if_true _ active ∙ rw (failed, on) refl in
            inr (_, _, stops, one_notice n _)
        | inr off ↦ inl (none, if_true _ active ∙ rw (failed, off) refl)
      ]
      | inr (RepoError.other_error, failed) ↦ elim (Bool-cases (is_enabled s.verified_users)) [
        | inl on ↦
            let stops : check_verified s a e ≡ Stage.stop [] Ending.continues =
              if_true _ active ∙ rw (failed, on) refl in
            inr (
              [],
              Ending.continues,
              stops,
              record { unpublished = refl; answered = inr (inr (refl, on, failed)) },
            )
        | inr off ↦ inl (none, if_true _ active ∙ rw (failed, off) refl)
      ]
    ]
  ]

  check_admission-Decides :
      (subm : SubmittedEvent) (name : Option Nip05Name) → Decides (check_admission a subm name)
  unfolding check_admission
  check_admission-Decides subm name = elim (Option-cases a.admit_event) [
    | inl absent ↦ inl (tt, rw (check_admission, absent) refl)
    | inr (admit, there) ↦ elim (Result-cases (admit subm name)) [
      | inr (failure, failed) ↦ inl (tt, rw (check_admission, there, failed) refl)
      | inl ((permitted, message), said) ↦ elim (Bool-cases permitted) [
        | inl fine ↦ inl (tt, rw (check_admission, there, said, fine) refl)
        | inr bad ↦
            let n = blocked_notice subm.event.id (or_default message) in
            let stops : check_admission a subm name
                ≡ Stage.stop (Effect.notify n ∷ []) Ending.continues =
              rw (check_admission, there, said, bad) refl in
            inr (_, _, stops, one_notice n _)
      ]
    ]
  ]

-- The event passes every check, and the round is its storing.
abbrev pub Goes : WriterSettings → Answers → SubmittedEvent → List Effect × Ending → Type 0
Goes s a subm r =
    (balance : Option ℕ) × (name : Option Nip05Name) × (check_kinds s subm.event ≡ Stage.pass tt)
    × (check_payer s a subm.event ≡ Stage.pass balance)
    × (check_verified s a subm.event ≡ Stage.pass name)
    × (check_admission a subm name ≡ Stage.pass tt)
    × (r ≡ finish s a subm.event balance)

-- What holds of the rest where a stage passes, and of a refusal, holds of the two composed.
through :
    (s : WriterSettings) (a : Answers) (e : Event) {A : Type 0} (stage : Stage A)
    (next : A → List Effect × Ending) (Q : List Effect × Ending → Type 0)
    → Decides s a e stage
    → ((x : A) → stage ≡ Stage.pass x → Q (next x))
    → ((es : List Effect) (ending : Ending) → Refused s a e es ending → Q (es, ending))
    → Q (and_then stage next)
through s a e stage next Q (inl (x, passes)) on_pass on_stop =
    subst (λ (st : Stage _). Q (and_then st next)) (sym passes) (on_pass x passes)
through s a e stage next Q (inr (es, ending, stops, refused)) on_pass on_stop =
    subst (λ (st : Stage _). Q (and_then st next)) (sym stops) (on_stop es ending refused)

-- Every stage passes and the round goes on to the store, or the round is refused.
pub write_round_checks :
    (s : WriterSettings) (a : Answers) (subm : SubmittedEvent)
    → Goes s a subm (write_round s a subm)
      ⊎ Refused s a subm.event (write_round s a subm).0 (write_round s a subm).1
unfolding write_round
write_round_checks s a subm =
    let e = subm.event in
    let Q : List Effect × Ending → Type 0 = λ r. Goes s a subm r ⊎ Refused s a subm.event r.0 r.1 in
    through s a e (check_kinds s e) _ Q (check_kinds-Decides s a e)
      (λ x kinds.
        through s a e (check_payer s a e) _ Q (check_payer-Decides s a e)
          (λ balance paid.
            through s a e (check_verified s a e) _ Q (check_verified-Decides s a e)
              (λ name known.
                through s a e (check_admission a subm name) _ Q
                  (check_admission-Decides s a e subm name)
                  (λ y admits. inl (balance, name, kinds, paid, known, admits, refl))
                  (λ es ending refused. inr refused))
              (λ es ending refused. inr refused))
          (λ es ending refused. inr refused))
      (λ es ending refused. inr refused)
