-- ===== src/Writer/Publication.antt =====
-- What a round of the event writer publishes and charges (src/db.rs, `db_writer`).
use floonet_rs.Base.{
  if_true, if_false, ℕ, ◌≤◌, String, ◌≡◌, refl, sym, ap, ◌∙◌, subst, ◌↔◌, ◌⊎◌, inl, inr, Bool, true,
  false, ◌&&◌, Option, none, some, List, [], ◌∷◌, ◌++◌, ◌==◌, nat_eq, string_eq, ltb, if◌then◌else◌,
  arith, Bool-cases, Option-cases, Result-cases, any, filter, ok, err,
}
use floonet_rs.Event.{Event, is_ephemeral, is_kind_metadata}
use floonet_rs.Notice.{prefixed, saved_notice, duplicate_notice, error_notice}
use floonet_rs.Nip05.{is_active}
use floonet_rs.Writer.{
  SubmittedEvent, WriterSettings, Answers, RepoError, Effect, Ending, Stage, publish,
  charge_account, finish, write_round,
}
use floonet_rs.Writer.Effects.{is_broadcast, is_charge, is_saved, is_publication, replies}
use floonet_rs.Writer.Checks.{write_round_checks}
use floonet_rs.Writer.Payer.{check_payer-covered}

module _ (s : WriterSettings) (a : Answers) (e : Event) where
  -- The four ways to publish.
  data Published : List Effect × Bool → Type 0 where
    as_ephemeral :
        is_ephemeral e ≡ true
        → (id : String)
        → Published (Effect.broadcast e ∷ Effect.notify (saved_notice id) ∷ [], true)
    as_stored :
        is_ephemeral e ≡ false
        → (n : ℕ) → a.write_event e ≡ ok n
        → ¬ (n ≡ 0)
        → (id : String)
        → Published
            (Effect.store e ∷ Effect.broadcast e ∷ Effect.notify (saved_notice id) ∷ [], true)
    as_duplicate :
        is_ephemeral e ≡ false
        → a.write_event e ≡ ok 0
        → (id : String)
        → Published (Effect.store e ∷ Effect.notify (duplicate_notice id) ∷ [], false)
    as_failed :
        is_ephemeral e ≡ false
        → (x : RepoError) → a.write_event e ≡ err x
        → (id msg : String)
        → Published (Effect.store e ∷ Effect.notify (error_notice id msg) ∷ [], false)

  publish-Published : Published (publish a e)
  unfolding publish
  publish-Published = elim (Bool-cases (is_ephemeral e)) [
    | inl passing ↦ subst Published (sym (if_true _ passing)) (as_ephemeral passing e.id)
    | inr lasting ↦ elim (Result-cases (a.write_event e)) [
      | inr (x, failed) ↦ subst Published (sym (if_false _ lasting ∙ rw failed refl)) (
          as_failed lasting x failed e.id
            "relay experienced an error trying to publish the latest event")
      | inl (n, wrote) ↦ elim (Bool-cases (n == 0)) [
        | inl nothing ↦
            subst Published (sym (if_false _ lasting ∙ rw (wrote, nothing) refl))
              (as_duplicate lasting (wrote ∙ ap ok (ground arith)) e.id)
        | inr something ↦
            subst Published (sym (if_false _ lasting ∙ rw (wrote, something) refl))
              (as_stored lasting n wrote (λ z. ground arith) e.id)
      ]
    ]
  ]

  data Charged : Option ℕ → Bool → List Effect → Type 0 where
    free_of_charge : (balance : Option ℕ) (written : Bool) → Charged balance written []
    priced :
        (b : ℕ)
        → s.pay_to_relay ≡ true
        → (key : String) → a.from_pk_str e.pubkey ≡ some key
        → Charged (some b) true (Effect.charge key s.cost_per_event ∷ [])

  charge_account-Charged :
      (balance : Option ℕ) (written : Bool)
      → Charged balance written (charge_account s a e balance written).0
  unfolding charge_account
  charge_account-Charged none written =
      elim (Bool-cases (written && s.pay_to_relay && ltb 0 s.cost_per_event)) [
        | inl due ↦ rw due (free_of_charge none written)
        | inr free ↦ rw free (free_of_charge none written)
      ]
  charge_account-Charged (some b) false = free_of_charge (some b) false
  charge_account-Charged (some b) true =
      elim (Bool-cases (s.pay_to_relay && ltb 0 s.cost_per_event)) [
        | inr free ↦
            let none_due : charge_account s a e (some b) true ≡ ([], Ending.continues) =
              if_false _ free in
            subst (λ (r : List Effect × Ending). Charged (some b) true r.0) (sym none_due)
              (free_of_charge (some b) true)
        | inl due ↦ elim (Option-cases (a.from_pk_str e.pubkey)) [
          | inl unparsed ↦
              let none_due : charge_account s a e (some b) true ≡ ([], Ending.ends_with_error) =
                if_true _ due ∙ rw unparsed refl in
              subst (λ (r : List Effect × Ending). Charged (some b) true r.0) (sym none_due)
                (free_of_charge (some b) true)
          | inr (key, parsed) ↦
              let one_due : charge_account s a e (some b) true ≡ (
                Effect.charge key s.cost_per_event ∷ [],
                if a.update_account_balance_ok then Ending.continues else Ending.ends_with_error,
              ) =
                if_true _ due ∙ rw parsed refl in
              subst (λ (r : List Effect × Ending). Charged (some b) true r.0) (sym one_due)
                (priced b (ground arith) key parsed)
        ]
      ]

  -- What a list of effects says, for a round that publishes with that balance.
  abbrev IsRound : Option ℕ → List Effect → Type 0
  IsRound balance es =
      (replies es ≡ 1)
      × (any is_broadcast es ≡ any is_saved es)
      × ((any is_broadcast es ≡ true)
          ↔ ((is_ephemeral e ≡ true) ⊎ ((n : ℕ) × (a.write_event e ≡ ok n) × ¬ (n ≡ 0))))
      × (any is_charge es ≡ true
          → (any is_broadcast es ≡ true) × (s.pay_to_relay ≡ true) × ¬ (balance ≡ none))

  append-IsRound :
      (balance : Option ℕ) (p : List Effect × Bool) (cs : List Effect)
      → Published p
      → Charged balance p.1 cs
      → IsRound balance (p.0 ++ cs)
  unfolding prefixed
  append-IsRound balance p cs (as_ephemeral x id) (free_of_charge b w) =
      (refl, refl, (λ _. inl x, λ _. refl), λ paid. absurd (cc))
  append-IsRound balance p cs (as_ephemeral x id) (priced b pays key parsed) =
      (refl, refl, (λ _. inl x, λ _. refl), λ paid. (refl, pays, λ h. cc))
  append-IsRound balance p cs (as_stored x n wrote some_rows id) (free_of_charge b w) =
      (refl, refl, (λ _. inr (n, wrote, some_rows), λ _. refl), λ paid. absurd (cc))
  append-IsRound balance p cs (as_stored x n wrote some_rows id) (priced b pays key parsed) =
      (refl, refl, (λ _. inr (n, wrote, some_rows), λ _. refl), λ paid. (refl, pays, λ h. cc))
  append-IsRound balance p cs (as_duplicate x wrote id) (free_of_charge b w) = (
    refl,
    refl,
    (
      λ h. absurd (cc),
      elim [ inl y ↦ absurd (cc) | inr (n, wrote1, nonzero) ↦ absurd (nonzero (cc)) ],
    ),
    λ paid. absurd (cc),
  )
  append-IsRound balance p cs (as_failed x y wrote id msg) (free_of_charge b w) = (
    refl,
    refl,
    (λ h. absurd (cc), elim [ inl z ↦ absurd (cc) | inr (n, wrote1, nonzero) ↦ absurd (cc) ]),
    λ paid. absurd (cc),
  )

  -- The end of a round sends one notice, and broadcasts the event exactly if that notice says saved: if
  -- the event is ephemeral, or the store has written a row. Nothing is charged otherwise, and then only
  -- with a balance.
  pub finish_sound :
      (balance : Option ℕ)
      → (replies (finish s a e balance).0 ≡ 1)
        × (any is_broadcast (finish s a e balance).0 ≡ any is_saved (finish s a e balance).0)
        × ((any is_broadcast (finish s a e balance).0 ≡ true)
            ↔ ((is_ephemeral e ≡ true) ⊎ ((n : ℕ) × (a.write_event e ≡ ok n) × ¬ (n ≡ 0))))
        × (any is_charge (finish s a e balance).0 ≡ true
            → (any is_broadcast (finish s a e balance).0 ≡ true)
              × (s.pay_to_relay ≡ true)
              × ¬ (balance ≡ none))
  unfolding finish
  finish_sound balance =
      let published = publish-Published in
      let charged = charge_account-Charged balance (publish a e).1 in
      elim (Bool-cases (is_active s.verified_users && is_kind_metadata e)) [
        | inl announces ↦ rw announces (append-IsRound balance (publish a e) _ published charged)
        | inr silent ↦ rw silent (append-IsRound balance (publish a e) _ published charged)
      ]

  -- What is charged, as a list of all charges.
  abbrev Charges : List Effect → Type 0
  Charges es =
      (any is_charge es ≡ false)
      ⊎ ((key : String) × (a.from_pk_str e.pubkey ≡ some key)
          × (filter is_charge es ≡ Effect.charge key s.cost_per_event ∷ []))

  append-Charges :
      (balance : Option ℕ) (p : List Effect × Bool) (cs : List Effect)
      → Published p
      → Charged balance p.1 cs
      → Charges (p.0 ++ cs)
  append-Charges balance p cs (as_ephemeral x id) (free_of_charge b w) = inl refl
  append-Charges balance p cs (as_ephemeral x id) (priced b pays key parsed) =
      inr (key, parsed, refl)
  append-Charges balance p cs (as_stored x n wrote some_rows id) (free_of_charge b w) = inl refl
  append-Charges balance p cs (as_stored x n wrote some_rows id) (priced b pays key parsed) =
      inr (key, parsed, refl)
  append-Charges balance p cs (as_duplicate x wrote id) (free_of_charge b w) = inl refl
  append-Charges balance p cs (as_failed x y wrote id msg) (free_of_charge b w) = inl refl

  finish-Charges : (balance : Option ℕ) → Charges (finish s a e balance).0
  unfolding finish
  finish-Charges balance =
      let published = publish-Published in
      let charged = charge_account-Charged balance (publish a e).1 in
      elim (Bool-cases (is_active s.verified_users && is_kind_metadata e)) [
        | inl announces ↦ rw announces (append-Charges balance (publish a e) _ published charged)
        | inr silent ↦ rw silent (append-Charges balance (publish a e) _ published charged)
      ]

any-weaken :
    (p q : Effect → Bool) (es : List Effect)
    → ((x : Effect) → p x ≡ true → q x ≡ true)
    → any q es ≡ false
    → any p es ≡ false
any-weaken p q [] h k = refl
any-weaken p q (x ∷ es) h k = elim (Bool-cases (p x)) [
  | inl hit ↦ let also = h x hit in absurd (ground arith)
  | inr miss ↦ rw miss (any-weaken p q es h (ground arith))
]

charge-is_publication : (x : Effect) → is_charge x ≡ true → is_publication x ≡ true
charge-is_publication (Effect.charge _ _) e = refl
charge-is_publication (Effect.notify _) e = absurd (cc)
charge-is_publication (Effect.check_account _) e = absurd (cc)
charge-is_publication (Effect.new_account _) e = absurd (cc)
charge-is_publication (Effect.send_metadata _) e = absurd (cc)
charge-is_publication (Effect.store _) e = absurd (cc)
charge-is_publication (Effect.broadcast _) e = absurd (cc)

-- A round that takes money broadcasts the event, and takes just the price, once, from the account of the
-- event's author, which is admitted and whose balance, as it was read in the round, covers the price.
pub write_round_charges :
    (s : WriterSettings) (a : Answers) (subm : SubmittedEvent)
    → any is_charge (write_round s a subm).0 ≡ true
    → (any is_broadcast (write_round s a subm).0 ≡ true)
      × (b : ℕ) × (key : String) × (a.from_pk_str subm.event.pubkey ≡ some key)
      × (a.get_account_balance key ≡ ok (true, b))
      × (s.cost_per_event ≤ b)
      × (filter is_charge (write_round s a subm).0 ≡ Effect.charge key s.cost_per_event ∷ [])
write_round_charges s a subm paid = elim (write_round_checks s a subm) [
  | inr refused ↦
      let no_charge =
        any-weaken is_charge is_publication (write_round s a subm).0 charge-is_publication
          refused.unpublished in
      absurd (cc)
  | inl (balance, name, kinds, payer, known, admits, same) ↦
      let paid1 = subst (λ (r : List Effect × Ending). any is_charge r.0 ≡ true) same paid in
      let (answered, says, when, money) = finish_sound s a subm.event balance in
      let (sent, pays, asked) = money paid1 in
      elim (Option-cases balance) [
        | inl nothing ↦ absurd (asked nothing)
        | inr (b, there) ↦ elim (finish-Charges s a subm.event balance) [
          | inl free ↦ absurd (cc)
          | inr (key1, parsed1, all_charges) ↦
              let (key, parsed, read, covers) =
                check_payer-covered s a subm.event b (payer ∙ ap Stage.pass there) in
              let own : key1 ≡ key = cc in
              (
                subst (λ (r : List Effect × Ending). any is_broadcast r.0 ≡ true) (sym same) sent,
                b,
                key,
                parsed,
                read,
                covers,
                ap (λ (r : List Effect × Ending). filter is_charge r.0) same
                    ∙ all_charges
                    ∙ ap (λ k. Effect.charge k s.cost_per_event ∷ []) own,
              )
        ]
      ]
]
