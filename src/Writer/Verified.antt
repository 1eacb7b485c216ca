-- ===== src/Writer/Verified.antt =====
-- What the verification and the admission service let pass in a round (src/db.rs, `db_writer`).
use floonet_rs.Base.{
  if_true, if_false, String, ◌≡◌, refl, ap, ◌∙◌, ◌⊎◌, inl, inr, Bool, true, false, not, ◌&&◌,
  Option, none, some, List, [], ◌∷◌, arith, Bool-cases, Option-cases, Result, Result-cases, ok, err,
}
use floonet_rs.Event.{Event}
use floonet_rs.Notice.{blocked_notice}
use floonet_rs.Nip05.{Nip05Name, VerificationRecord, is_enabled, is_active, is_valid}
use floonet_rs.Subscription.Matching.{IfPresent}
use floonet_rs.Writer.{
  SubmittedEvent, WriterSettings, Answers, RepoError, Effect, Ending, Stage, check_verified,
  check_admission, or_default,
}

module _ (s : WriterSettings) (a : Answers) (e : Event) where
  -- The author is verified as far as the settings ask, and under which name.
  pub data IsVerified : Option Nip05Name → Type 0 where
    inactive : is_active s.verified_users ≡ false → IsVerified none
    current :
        (uv : VerificationRecord)
        → is_active s.verified_users ≡ true
        → a.get_latest_user_verification e.pubkey ≡ ok uv
        → (is_enabled s.verified_users ≡ true → is_valid a.now s.verified_users uv ≡ true)
        → IsVerified (some uv.name)
    unread :
        (x : RepoError)
        → is_active s.verified_users ≡ true
        → is_enabled s.verified_users ≡ false
        → a.get_latest_user_verification e.pubkey ≡ err x
        → IsVerified none

  abbrev pub Verifies : Stage (Option Nip05Name) → Type 0
  Verifies stage =
      ((name : Option Nip05Name) × (stage ≡ Stage.pass name) × IsVerified name)
      ⊎ ((es : List Effect) × (ending : Ending) × (stage ≡ Stage.stop es ending))

  pub check_verified-Verifies : Verifies (check_verified s a e)
  unfolding check_verified
  check_verified-Verifies = elim (Bool-cases (is_active s.verified_users)) [
    | inr idle ↦ inl (none, if_false _ idle, inactive idle)
    | inl active ↦ elim (Result-cases (a.get_latest_user_verification e.pubkey)) [
      | inl (uv, read) ↦
          elim (Bool-cases
            (is_enabled s.verified_users && not (is_valid a.now s.verified_users uv))) [
              | inl bad ↦
                  let n =
                    blocked_notice e.id
                      "NIP-05 verification is no longer valid (expired/wrong domain)" in
                  let stops : check_verified s a e
                      ≡ Stage.stop (Effect.notify n ∷ []) Ending.continues =
                    if_true _ active ∙ rw (read, bad) refl in
                  inr (_, _, stops)
              | inr fine ↦ inl (
                some uv.name,
                if_true _ active ∙ rw (read, fine) refl,
                current uv active read (λ on. ground arith),
              )
            ]
      | inr (RepoError.no_rows, failed) ↦ elim (Bool-cases (is_enabled s.verified_users)) [
        | inl on ↦
            let n = blocked_notice e.id "NIP-05 verification needed to publish events" in
            let stops : check_verified s a e ≡ Stage.stop (Effect.notify n ∷ []) Ending.continues =
              if_true _ active ∙ rw (failed, on) refl in
            inr (_, _, stops)
        | inr off ↦ inl (
          none,
          if_true _ active ∙ rw (failed, off) refl,
          unread RepoError.no_rows active off failed,
        )
      ]
      | inr (RepoError.other_error, failed) ↦ elim (Bool-cases (is_enabled s.verified_users)) [
        | inl on ↦
            let stops : check_verified s a e ≡ Stage.stop [] Ending.continues =
              if_true _ active ∙ rw (failed, on) refl in
            inr ([], Ending.continues, stops)
        | inr off ↦ inl (
          none,
          if_true _ active ∙ rw (failed, off) refl,
          unread RepoError.other_error active off failed,
        )
      ]
    ]
  ]

  pub check_verified-IsVerified :
      (name : Option Nip05Name) → IsVerified name → check_verified s a e ≡ Stage.pass name
  unfolding check_verified
  check_verified-IsVerified name (inactive idle) = if_false _ idle
  check_verified-IsVerified name (current uv active read valid) =
      let fine : is_enabled s.verified_users && not (is_valid a.now s.verified_users uv) ≡ false =
        ground arith in
      if_true _ active ∙ rw (read, fine) refl
  check_verified-IsVerified name (unread RepoError.no_rows active off failed) =
      if_true _ active ∙ rw (failed, off) refl
  check_verified-IsVerified name (unread RepoError.other_error active off failed) =
      if_true _ active ∙ rw (failed, off) refl

-- The admission service, where there is one, does not refuse; an error of it is no refusal.
abbrev pub Permits : Answers → SubmittedEvent → Option Nip05Name → Type 0
Permits a subm name =
    IfPresent (λ admit. (message : Option String) → ¬ (admit subm name ≡ ok (false, message)))
      a.admit_event

pub check_admission_cases :
    (a : Answers) (subm : SubmittedEvent) (name : Option Nip05Name)
    → (Permits a subm name × (check_admission a subm name ≡ Stage.pass tt))
      ⊎ ((admit : SubmittedEvent → Option Nip05Name → Result RepoError (Bool × Option String))
          × (message : Option String) × (a.admit_event ≡ some admit)
          × (admit subm name ≡ ok (false, message))
          × (check_admission a subm name
              ≡ Stage.stop
                  (Effect.notify (blocked_notice subm.event.id (or_default message)) ∷ [])
                  Ending.continues))
unfolding check_admission
check_admission_cases a subm name = elim (Option-cases a.admit_event) [
  | inl absent ↦ inl (rw absent tt, rw absent refl)
  | inr (admit, there) ↦ elim (Result-cases (admit subm name)) [
    | inr (failure, failed) ↦
        let no_refusal : (message : Option String) → ¬ (admit subm name ≡ ok (false, message)) =
          λ message e. cc in
        inl (rw there no_refusal, rw (check_admission, there, failed) refl)
    | inl ((permitted, message), said) ↦ elim (Bool-cases permitted) [
      | inl fine ↦
          let no_refusal : (message1 : Option String) → ¬ (admit subm name ≡ ok (false, message1)) =
            λ message1 e. cc in
          inl (rw there no_refusal, rw (check_admission, there, said, fine) refl)
      | inr bad ↦ inr (
        admit,
        message,
        there,
        said ∙ ap (λ x. ok (x, message)) bad,
        rw (check_admission, there, said, bad) refl,
      )
    ]
  ]
]
