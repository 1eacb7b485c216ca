-- ===== src/Writer/Rounds.antt =====
-- Where a round of the event writer ends, in the order of its checks (src/db.rs, `db_writer`).
use floonet_rs.Base.{
  ℕ, String, ◌≡◌, sym, ◌∙◌, subst, ◌⊎◌, inl, inr, Bool, false, Option, some, List, [], ◌∷◌, Result,
  ok,
}
use floonet_rs.Event.{Event}
use floonet_rs.Notice.{blocked_notice}
use floonet_rs.Nip05.{Nip05Name}
use floonet_rs.Writer.{
  SubmittedEvent, WriterSettings, Answers, RepoError, Effect, Ending, Stage, check_payer,
  check_verified, check_admission, finish, write_round, and_then, or_default,
}
use floonet_rs.Writer.Checks.{Refused, Decides, check_payer-Decides, check_verified-Decides}
use floonet_rs.Writer.Verified.{
  IsVerified, Permits, check_verified-Verifies, check_verified-IsVerified, check_admission_cases,
}
use floonet_rs.Writer.Rights.{
  AllowsKind, MayPublish, check_kinds_cases, check_payer-Grants, check_payer-MayPublish,
}

-- Where a round ends: the first check that refuses, by its kind, its author's right, its verification, or
-- the admission service, or none of them.
pub data Ends (s : WriterSettings) (a : Answers) (subm : SubmittedEvent)
    : List Effect × Ending → Type 0 where
  by_kind :
      ¬ AllowsKind s subm.event
      → Ends s a subm (
        Effect.notify (blocked_notice subm.event.id "event kind is blocked by relay") ∷ [],
        Ending.continues,
      )
  by_payer :
      (es : List Effect) (ending : Ending)
      → AllowsKind s subm.event
      → ((balance : Option ℕ) → ¬ MayPublish s a subm.event balance)
      → check_payer s a subm.event ≡ Stage.stop es ending
      → Refused s a subm.event es ending
      → Ends s a subm (es, ending)
  by_verification :
      (es : List Effect) (ending : Ending) (balance : Option ℕ)
      → AllowsKind s subm.event
      → MayPublish s a subm.event balance
      → ((name : Option Nip05Name) → ¬ IsVerified s a subm.event name)
      → check_verified s a subm.event ≡ Stage.stop es ending
      → Refused s a subm.event es ending
      → Ends s a subm (es, ending)
  by_service :
      (balance : Option ℕ) (name : Option Nip05Name)
      (admit : SubmittedEvent → Option Nip05Name → Result RepoError (Bool × Option String))
      (message : Option String)
      → AllowsKind s subm.event
      → MayPublish s a subm.event balance
      → IsVerified s a subm.event name
      → a.admit_event ≡ some admit
      → admit subm name ≡ ok (false, message)
      → Ends s a subm
          (Effect.notify (blocked_notice subm.event.id (or_default message)) ∷ [], Ending.continues)
  at_the_store :
      (balance : Option ℕ) (name : Option Nip05Name)
      → AllowsKind s subm.event
      → MayPublish s a subm.event balance
      → IsVerified s a subm.event name
      → Permits a subm name
      → Ends s a subm (finish s a subm.event balance)

-- A stage that stops does not pass.
stop-not-pass :
    {A : Type 0} (stage : Stage A) (x : A) (es : List Effect) (ending : Ending)
    → stage ≡ Stage.stop es ending
    → ¬ (stage ≡ Stage.pass x)
stop-not-pass stage x es ending stops passes =
    let no_way : Path (Stage _) (Stage.stop es ending) (Stage.pass x) = sym stops ∙ passes in cc

-- A stage passes what may pass, or refuses where nothing may.
settle :
    (s : WriterSettings) (a : Answers) (e : Event) {A : Type 0} (May : A → Type 0) (stage : Stage A)
    → Decides s a e stage
    → ((x : A) × (stage ≡ Stage.pass x) × May x)
      ⊎ ((es : List Effect) × (ending : Ending) × (stage ≡ Stage.stop es ending))
    → ((x : A) → May x → stage ≡ Stage.pass x)
    → ((x : A) × (stage ≡ Stage.pass x) × May x)
      ⊎ ((es : List Effect) × (ending : Ending) × (stage ≡ Stage.stop es ending)
          × ((x : A) → ¬ May x)
          × Refused s a e es ending)
settle s a e May stage decides (inl grants) complete = inl grants
settle s a e May stage (inl (x, passes)) (inr (es, ending, stops)) complete =
    absurd (stop-not-pass stage x es ending stops passes)
settle s a e May stage (inr (es, ending, stops, refused)) (inr _) complete =
    inr
      (es, ending, stops, λ x may. stop-not-pass stage x es ending stops (complete x may), refused)

-- The rest of a round, from the admission service, from the verification, and from the author's right on.
module _ (s : WriterSettings) (a : Answers) (subm : SubmittedEvent)
    (kind : AllowsKind s subm.event) where
  from_service :
      (balance : Option ℕ) (name : Option Nip05Name)
      → MayPublish s a subm.event balance
      → IsVerified s a subm.event name
      → Ends s a subm (and_then (check_admission a subm name) (λ _. finish s a subm.event balance))
  from_service balance name may verified = elim (check_admission_cases a subm name) [
    | inl (permits, passes) ↦
        subst
          (λ (st : Stage Unit). Ends s a subm (and_then st (λ _. finish s a subm.event balance)))
          (sym passes) (at_the_store balance name kind may verified permits)
    | inr (admit, message, there, refuses, stops) ↦
        subst
          (λ (st : Stage Unit). Ends s a subm (and_then st (λ _. finish s a subm.event balance)))
          (sym stops) (by_service balance name admit message kind may verified there refuses)
  ]

  abbrev after_verified : Option ℕ → Option Nip05Name → List Effect × Ending
  after_verified balance name =
      and_then (check_admission a subm name) (λ _. finish s a subm.event balance)

  from_verification :
      (balance : Option ℕ)
      → MayPublish s a subm.event balance
      → Ends s a subm (and_then (check_verified s a subm.event) (after_verified balance))
  from_verification balance may =
      elim (settle s a subm.event (IsVerified s a subm.event) (check_verified s a subm.event)
        (check_verified-Decides s a subm.event) (check_verified-Verifies s a subm.event)
        (check_verified-IsVerified s a subm.event)) [
          | inl (name, passes, verified) ↦
              subst (λ st. Ends s a subm (and_then st (after_verified balance))) (sym passes)
                (from_service balance name may verified)
          | inr (es, ending, stops, never, refused) ↦
              subst (λ st. Ends s a subm (and_then st (after_verified balance))) (sym stops)
                (by_verification es ending balance kind may never stops refused)
        ]

  abbrev after_payer : Option ℕ → List Effect × Ending
  after_payer balance = and_then (check_verified s a subm.event) (after_verified balance)

  from_payer : Ends s a subm (and_then (check_payer s a subm.event) after_payer)
  from_payer =
      elim (settle s a subm.event (MayPublish s a subm.event) (check_payer s a subm.event)
        (check_payer-Decides s a subm.event) (check_payer-Grants s a subm.event)
        (check_payer-MayPublish s a subm.event)) [
          | inl (balance, passes, may) ↦
              subst (λ st. Ends s a subm (and_then st after_payer)) (sym passes)
                (from_verification balance may)
          | inr (es, ending, stops, never, refused) ↦
              subst (λ st. Ends s a subm (and_then st after_payer)) (sym stops)
                (by_payer es ending kind never stops refused)
        ]

-- A round ends at the first of four checks that refuses, and else at the store. First the kind, which is
-- refused by its notice exactly if it is on the blacklist, or is not on an allowlist. Then the author:
-- without payment one on the list passes, and everyone where there is no list; with payment one on the
-- list, or with an admitted account whose balance covers the price; others are refused. Then the
-- verification: where it is required, an author without a valid record is refused. Then the admission
-- service, which refuses by its own message, and of which an error is no refusal. What a refusal by the
-- second or third check sends is said by Refused.
pub write_round-Ends :
    (s : WriterSettings) (a : Answers) (subm : SubmittedEvent)
    → Ends s a subm (write_round s a subm)
unfolding write_round
write_round-Ends s a subm =
    let rest : Unit → List Effect × Ending = λ _. and_then (check_payer s a subm.event) (λ balance.
      and_then (check_verified s a subm.event)
        (λ name. and_then (check_admission a subm name) (λ _. finish s a subm.event balance))) in
    elim (check_kinds_cases s subm.event) [
      | inr (bad, stops) ↦
          subst (λ (st : Stage Unit). Ends s a subm (and_then st rest)) (sym stops) (by_kind bad)
      | inl (kind, passes) ↦
          subst (λ (st : Stage Unit). Ends s a subm (and_then st rest)) (sym passes)
            (from_payer s a subm kind)
    ]
