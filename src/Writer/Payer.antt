-- ===== src/Writer/Payer.antt =====
-- Whose balance a round of the event writer asks for (src/db.rs, `db_writer`).
use floonet_rs.Base.{
  if_true, if_false, ℕ, ◌≤◌, String, ◌≡◌, sym, ◌∙◌, inl, inr, true, Option, none, some, nat_eq,
  string_eq, ltb, arith, Bool-cases, Option-cases, Result-cases, contains, ok,
}
use floonet_rs.Event.{Event}
use floonet_rs.Writer.{
  WriterSettings, Answers, RepoError, Stage, check_payer, check_whitelist, whitelisted,
  check_account_balance,
}

module _ (s : WriterSettings) (a : Answers) (e : Event) where
  -- Only an account that was asked for, is admitted and covers the price passes with a balance.
  pub check_payer-covered :
      (b : ℕ)
      → check_payer s a e ≡ Stage.pass (some b)
      → (key : String) × (a.from_pk_str e.pubkey ≡ some key)
        × (a.get_account_balance key ≡ ok (true, b))
        × (s.cost_per_event ≤ b)
  unfolding check_payer check_whitelist check_account_balance
  check_payer-covered b h = elim (Bool-cases s.pay_to_relay) [
    | inr gratis ↦
        let free : check_whitelist s e ≡ Stage.pass (some b) = sym (if_false _ gratis) ∙ h in
        absurd (unlisted free)
    | inl paid ↦ elim (Bool-cases (whitelisted s e)) [
      | inl listed ↦
          let free : Path (Stage (Option ℕ)) (Stage.pass none) (Stage.pass (some b)) =
            sym (if_true _ paid ∙ if_true _ listed) ∙ h in
          absurd (cc)
      | inr other ↦ covered (sym (if_true _ paid ∙ if_false _ other) ∙ h)
    ]
  ]
    where
      unlisted : ¬ (check_whitelist s e ≡ Stage.pass (some b))
      unlisted free = elim (Option-cases s.pubkey_whitelist) [
        | inl nobody ↦
            let no_way : Path (Stage (Option ℕ)) (Stage.pass none) (Stage.pass (some b)) =
              rw (check_whitelist, nobody) at free in
            cc
        | inr (allowed, there) ↦ elim (Bool-cases (contains allowed e.pubkey)) [
          | inl fine ↦
              let no_way : Path (Stage (Option ℕ)) (Stage.pass none) (Stage.pass (some b)) =
                rw (check_whitelist, there, fine) at free in
              cc
          | inr bad ↦
              let no_way : Path (Stage (Option ℕ)) (Stage.stop _ _) (Stage.pass (some b)) =
                rw (check_whitelist, there, bad) at free in
              cc
        ]
      ]

      covered :
          check_account_balance s a e ≡ Stage.pass (some b)
          → (key : String) × (a.from_pk_str e.pubkey ≡ some key)
            × (a.get_account_balance key ≡ ok (true, b))
            × (s.cost_per_event ≤ b)
      covered passed = elim (Option-cases (a.from_pk_str e.pubkey)) [
        | inl unparsed ↦
            let no_way : Path (Stage (Option ℕ)) (Stage.stop _ _) (Stage.pass (some b)) =
              rw (check_account_balance, unparsed) at passed in
            absurd (cc)
        | inr (key, parsed) ↦ elim (Result-cases (a.get_account_balance key)) [
          | inr (RepoError.no_rows, failed) ↦
              let no_way : Path (Stage (Option ℕ)) (Stage.stop _ _) (Stage.pass (some b)) =
                rw (check_account_balance, parsed, failed) at passed in
              absurd (cc)
          | inr (RepoError.other_error, failed) ↦
              let no_way : Path (Stage (Option ℕ)) (Stage.stop _ _) (Stage.pass (some b)) =
                rw (check_account_balance, parsed, failed) at passed in
              absurd (cc)
          | inl ((user_admitted, balance), read) ↦ elim (Bool-cases user_admitted) [
            | inr outside ↦
                let no_way : Path (Stage (Option ℕ)) (Stage.stop _ _) (Stage.pass (some b)) =
                  rw (check_account_balance, parsed, read, outside) at passed in
                absurd (cc)
            | inl inside ↦ elim (Bool-cases (ltb balance s.cost_per_event)) [
              | inl poor ↦
                  let no_way : Path (Stage (Option ℕ)) (Stage.stop _ _) (Stage.pass (some b)) =
                    rw (check_account_balance, parsed, read, inside, poor) at passed in
                  absurd (cc)
              | inr rich ↦
                  let eq : Path (Stage (Option ℕ)) (Stage.pass (some balance))
                      (Stage.pass (some b)) =
                    rw (check_account_balance, parsed, read, inside, rich) at passed in
                  let same : balance ≡ b = cc in (key, parsed, cc, ground arith)
            ]
          ]
        ]
      ]
