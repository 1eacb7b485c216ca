-- ===== src/Writer/Rights.antt =====
-- Who may publish what by the checks of a round of the event writer (src/db.rs, `db_writer`).
use floonet_rs.Base.{
  if_true, if_false, ℕ, ◌≤◌, String, ◌≡◌, refl, sym, ap, ◌∙◌, subst, ◌⊎◌, ◌↔◌, inl, inr, true,
  false, Option, none, some, List, [], ◌∷◌, nat_eq, string_eq, ltb, arith, Bool-cases, Option-cases,
  Result-cases, contains, contains_iff, In, ok,
}
use floonet_rs.Event.{Event}
use floonet_rs.Notice.{blocked_notice}
use floonet_rs.Subscription.Matching.{IfPresent}
use floonet_rs.Writer.{
  WriterSettings, Answers, RepoError, Effect, Ending, Stage, check_kinds, check_payer,
  check_whitelist, whitelisted, check_account_balance, in_list, allowed_kind,
}

-- The kind is not on the blacklist, and on the allowlist where there is one.
abbrev pub AllowsKind : WriterSettings → Event → Type 0
AllowsKind s e =
    IfPresent (λ kinds. ¬ In e.kind kinds) s.event_kind_blacklist
    × IfPresent (In e.kind) s.event_kind_allowlist

in_list_iff :
    (o : Option (List ℕ)) (kind : ℕ)
    → (in_list o kind ≡ false) ↔ IfPresent (λ kinds. ¬ In kind kinds) o
unfolding in_list
in_list_iff none kind = (λ h. tt, λ h. refl)
in_list_iff (some kinds) kind = (
  λ h m. let hit = (contains_iff kinds kind).1 m in cc,
  λ h. elim (Bool-cases (contains kinds kind)) [
    | inl hit ↦ absurd (h ((contains_iff kinds kind).0 hit))
    | inr miss ↦ miss
  ],
)

allowed_kind_iff :
    (o : Option (List ℕ)) (kind : ℕ) → (allowed_kind o kind ≡ true) ↔ IfPresent (In kind) o
unfolding allowed_kind
allowed_kind_iff none kind = (λ h. tt, λ h. refl)
allowed_kind_iff (some kinds) kind = contains_iff kinds kind

-- The check of the kind passes exactly the kinds that are allowed, and answers the others.
pub check_kinds_cases :
    (s : WriterSettings) (e : Event)
    → (AllowsKind s e × (check_kinds s e ≡ Stage.pass tt))
      ⊎ ((¬ AllowsKind s e)
          × (check_kinds s e
              ≡ Stage.stop
                  (Effect.notify (blocked_notice e.id "event kind is blocked by relay") ∷ [])
                  Ending.continues))
unfolding check_kinds
check_kinds_cases s e =
    let black_iff = in_list_iff s.event_kind_blacklist e.kind in
    let white_iff = allowed_kind_iff s.event_kind_allowlist e.kind in
    elim (Bool-cases (in_list s.event_kind_blacklist e.kind)) [
      | inl black ↦ inr (λ (h, k). let miss = black_iff.1 h in cc, if_true _ black)
      | inr free ↦ elim (Bool-cases (allowed_kind s.event_kind_allowlist e.kind)) [
        | inl fine ↦ inl ((black_iff.0 free, white_iff.0 fine), if_false _ free ∙ if_true _ fine)
        | inr bad ↦ inr (λ (h, k). let hit = white_iff.1 k in cc, if_false _ free ∙ if_false _ bad)
      ]
    ]

module _ (s : WriterSettings) (a : Answers) (e : Event) where
  -- The author may publish, and with what balance: without payment, if a list has the author where there
  -- is one; with payment, if a list has the author, or an admitted account covers the price.
  pub data MayPublish : Option ℕ → Type 0 where
    unpaid : s.pay_to_relay ≡ false → IfPresent (In e.pubkey) s.pubkey_whitelist → MayPublish none
    listed :
        (keys : List String)
        → s.pay_to_relay ≡ true
        → s.pubkey_whitelist ≡ some keys
        → In e.pubkey keys
        → MayPublish none
    account :
        (key : String) (b : ℕ)
        → s.pay_to_relay ≡ true
        → IfPresent (λ keys. ¬ In e.pubkey keys) s.pubkey_whitelist
        → a.from_pk_str e.pubkey ≡ some key
        → a.get_account_balance key ≡ ok (true, b)
        → s.cost_per_event ≤ b
        → MayPublish (some b)

  -- A stage that passes shows that the author may publish, or it ends the round.
  abbrev Grants : Stage (Option ℕ) → Type 0
  Grants stage =
      ((balance : Option ℕ) × (stage ≡ Stage.pass balance) × MayPublish balance)
      ⊎ ((es : List Effect) × (ending : Ending) × (stage ≡ Stage.stop es ending))

  check_whitelist-Grants : s.pay_to_relay ≡ false → Grants (check_whitelist s e)
  unfolding check_whitelist
  check_whitelist-Grants gratis = elim (Option-cases s.pubkey_whitelist) [
    | inl nobody ↦ inl (none, rw nobody refl, unpaid gratis (rw nobody tt))
    | inr (allowed, there) ↦ elim (Bool-cases (contains allowed e.pubkey)) [
      | inl fine ↦
          let m : In e.pubkey allowed = (contains_iff allowed e.pubkey).0 fine in
          inl (none, rw (there, fine) refl, unpaid gratis (rw there m))
      | inr bad ↦ rw (check_whitelist, there, bad) (inr (_, _, refl))
    ]
  ]

  not_listed : whitelisted s e ≡ false → IfPresent (λ keys. ¬ In e.pubkey keys) s.pubkey_whitelist
  not_listed other = elim (Option-cases s.pubkey_whitelist) [
    | inl nobody ↦ rw nobody tt
    | inr (allowed, there) ↦
        let miss : contains allowed e.pubkey ≡ false = rw there at other in
        let out : ¬ In e.pubkey allowed =
          λ m. let hit = (contains_iff allowed e.pubkey).1 m in cc in
        rw there out
  ]

  check_account_balance-Grants :
      s.pay_to_relay ≡ true → whitelisted s e ≡ false → Grants (check_account_balance s a e)
  unfolding check_account_balance
  check_account_balance-Grants paid other = elim (Option-cases (a.from_pk_str e.pubkey)) [
    | inl unparsed ↦ rw (check_account_balance, unparsed) (inr (_, _, refl))
    | inr (key, parsed) ↦ elim (Result-cases (a.get_account_balance key)) [
      | inr (RepoError.no_rows, failed) ↦
          rw (check_account_balance, parsed, failed) (inr (_, _, refl))
      | inr (RepoError.other_error, failed) ↦
          rw (check_account_balance, parsed, failed) (inr (_, _, refl))
      | inl ((user_admitted, balance), read) ↦ elim (Bool-cases user_admitted) [
        | inr outside ↦ rw (check_account_balance, parsed, read, outside) (inr (_, _, refl))
        | inl inside ↦ elim (Bool-cases (ltb balance s.cost_per_event)) [
          | inl poor ↦ rw (check_account_balance, parsed, read, inside, poor) (inr (_, _, refl))
          | inr rich ↦ inl (
            some balance,
            rw (check_account_balance, parsed, read, inside, rich) refl,
            account key balance paid (not_listed other) parsed
                (read ∙ ap (λ x. ok (x, balance)) inside) (ground arith),
          )
        ]
      ]
    ]
  ]

  pub check_payer-Grants : Grants (check_payer s a e)
  unfolding check_payer
  check_payer-Grants = elim (Bool-cases s.pay_to_relay) [
    | inr gratis ↦ subst Grants (sym (if_false _ gratis)) (check_whitelist-Grants gratis)
    | inl paid ↦ elim (Bool-cases (whitelisted s e)) [
      | inr other ↦
          subst Grants (sym (if_true _ paid ∙ if_false _ other))
            (check_account_balance-Grants paid other)
      | inl member ↦ elim (Option-cases s.pubkey_whitelist) [
        | inl nobody ↦ let no_way : false ≡ true = rw nobody at member in absurd (cc)
        | inr (allowed, there) ↦
            let hit : contains allowed e.pubkey ≡ true = rw there at member in
            inl (
              none,
              if_true _ paid ∙ if_true _ member,
              listed allowed paid there ((contains_iff allowed e.pubkey).0 hit),
            )
      ]
    ]
  ]

  -- Whoever may publish passes.
  pub check_payer-MayPublish :
      (balance : Option ℕ) → MayPublish balance → check_payer s a e ≡ Stage.pass balance
  unfolding check_payer check_whitelist check_account_balance
  check_payer-MayPublish balance (unpaid gratis m) = elim (Option-cases s.pubkey_whitelist) [
    | inl nobody ↦ if_false _ gratis ∙ rw nobody refl
    | inr (allowed, there) ↦
        let m1 : In e.pubkey allowed = rw there at m in
        let hit = (contains_iff allowed e.pubkey).1 m1 in if_false _ gratis ∙ rw (there, hit) refl
  ]
  check_payer-MayPublish balance (listed keys paid there m) =
      let hit = (contains_iff keys e.pubkey).1 m in
      let member : whitelisted s e ≡ true = rw (there, hit) refl in
      if_true _ paid ∙ if_true _ member
  check_payer-MayPublish balance (account key b paid out parsed read covers) =
      let rich : ltb b s.cost_per_event ≡ false = ground arith in
      if_true _ paid ∙ if_false _ unlisted ∙ rw (check_account_balance, parsed, read, rich) refl
    where
      unlisted : whitelisted s e ≡ false
      unlisted = elim (Option-cases s.pubkey_whitelist) [
        | inl nobody ↦ rw nobody refl
        | inr (allowed, there) ↦
            let out1 : ¬ In e.pubkey allowed = rw there at out in
            rw there (elim (Bool-cases (contains allowed e.pubkey)) [
              | inl hit ↦ absurd (out1 ((contains_iff allowed e.pubkey).0 hit))
              | inr miss ↦ miss
            ])
      ]
