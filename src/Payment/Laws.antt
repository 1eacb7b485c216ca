-- ===== src/Payment/Laws.antt =====
-- Credits, charges and admissions of the payment handler (src/payment/mod.rs, src/repo/sqlite.rs).
use mathlib.Core.Option
use floonet_rs.Base.{
  ℕ, String, ◌≡◌, refl, sym, ap, ◌∙◌, subst, ◌⊎◌, inl, inr, true, ◌&&◌, ◌==◌, Option, none, some,
  List, [], if◌then◌else◌, string_eq, eq_iff, eq_refl, lookup, insert, lookup-insert,
  lookup-insert-same, ok, err, Bool-cases, Option-cases, pos, ◌+ℤ◌,
}
use floonet_rs.NameAuthority.PaidGate.{InvoiceStatus}
use floonet_rs.Repo.Accounts.{
  Ledger, Account, InvoiceRow, LedgerError, is_paid, is_unpaid, admit_account, update_invoice,
  update_account, settled, admitted,
}
use floonet_rs.Payment.{
  Services, PaySettings, PaymentMessage, handle, handle_invoice_paid, check_invoice_status, on_paid,
}

module _ (pubkey : String) (change : Account → Account) (l : Ledger) where
  update-missing : lookup pubkey l.accounts ≡ none → update_account pubkey change l ≡ l
  update-missing e = rw (update_account, e) refl

  update-found :
      (a : Account)
      → lookup pubkey l.accounts ≡ some a
      → update_account pubkey change l ≡ record l { accounts = insert pubkey (change a) l.accounts }
  update-found a e = rw (update_account, e) refl

-- The accounts after one of them is changed.
account-update :
    (pubkey other : String) (change : Account → Account) (l : Ledger)
    → lookup other (update_account pubkey change l).accounts ≡ (
        if pubkey == other
        then Option.map change (lookup other l.accounts)
        else lookup other l.accounts)
account-update pubkey other change l = elim (Option-cases (lookup pubkey l.accounts)) [
  | inl missing ↦ elim (Bool-cases (pubkey == other)) [
    | inl same ↦
        let there : lookup other l.accounts ≡ none =
          subst (λ k. lookup k l.accounts ≡ none) ((eq_iff pubkey other).0 same) missing in
        rw (update-missing pubkey change l missing, same, there) refl
    | inr differs ↦ rw (update-missing pubkey change l missing, differs) refl
  ]
  | inr (a, found) ↦
      let step = lookup-insert pubkey other (change a) l.accounts in
      elim (Bool-cases (pubkey == other)) [
        | inl same ↦
            let there : lookup other l.accounts ≡ some a =
              subst (λ k. lookup k l.accounts ≡ some a) ((eq_iff pubkey other).0 same) found in
            rw (update-found pubkey change l a found, same, there) (rw same at step)
        | inr differs ↦ rw (update-found pubkey change l a found, differs) (rw differs at step)
      ]
]

abbrev pub credited : ℕ → Account → Account
credited amount a = record a { balance = a.balance +ℤ pos amount }

-- Setting an invoice to a status credits its amount to the account of its key exactly if it goes from
-- unpaid to paid; every other account stays, and so does that one otherwise. Without the invoice the
-- call fails.
pub update_invoice_iff :
    (now : ℕ) (hash : String) (status : InvoiceStatus) (l : Ledger)
    → ((lookup hash l.invoices ≡ none)
        × (update_invoice now hash status l ≡ err LedgerError.returned_no_rows))
      ⊎ ((row : InvoiceRow) × (after : Ledger) × (lookup hash l.invoices ≡ some row)
          × (update_invoice now hash status l ≡ ok (after, row.pubkey))
          × (lookup hash after.invoices ≡ some (settled now status row))
          × ((other : String)
              → lookup other after.accounts ≡ (
                  if is_unpaid row.status && is_paid status && row.pubkey == other
                  then Option.map (credited row.amount) (lookup other l.accounts)
                  else lookup other l.accounts)))
unfolding update_invoice
update_invoice_iff now hash status l = elim (Option-cases (lookup hash l.invoices)) [
  | inl missing ↦ inl (missing, rw (update_invoice, missing) refl)
  | inr (row, found) ↦
      let updated : Ledger = record l {
        invoices = insert hash (settled now status row) l.invoices;
      } in
      let change = credited row.amount in
      elim (Bool-cases (is_unpaid row.status && is_paid status)) [
        | inl pays ↦ inr (
          row,
          update_account row.pubkey change updated,
          found,
          rw (update_invoice, found, pays) refl,
          invoices_after row.pubkey change updated
              ∙ lookup-insert-same hash (settled now status row) l.invoices,
          λ other. rw pays (account-update row.pubkey other change updated),
        )
        | inr idle ↦ inr (
          row,
          updated,
          found,
          rw (update_invoice, found, idle) refl,
          lookup-insert-same hash (settled now status row) l.invoices,
          λ other. rw idle refl,
        )
      ]
]
  where
    invoices_after :
        (pubkey : String) (change : Account → Account) (m : Ledger)
        → lookup hash (update_account pubkey change m).invoices ≡ lookup hash m.invoices
    invoices_after pubkey change m = elim (Option-cases (lookup pubkey m.accounts)) [
      | inl e ↦ rw (update-missing pubkey change m e) refl
      | inr (a, e) ↦ rw (update-found pubkey change m a e) refl
    ]

module _ (s : Services) (settings : PaySettings) where
  -- What `handle_invoice_paid` does when the processor says that the invoice is paid.
  paid-steps :
      (hash : String) (l first second : Ledger) (pubkey key : String)
      → s.check_invoice hash ≡ some InvoiceStatus.paid
      → update_invoice s.now hash InvoiceStatus.paid l ≡ ok (first, pubkey)
      → update_invoice s.now hash InvoiceStatus.paid first ≡ ok (second, pubkey)
      → s.from_pk_str pubkey ≡ some key
      → handle s settings (PaymentMessage.invoice_paid hash) l
        ≡ (admit_account s.now key settings.admission_cost second, [])
  unfolding handle handle_invoice_paid check_invoice_status
  paid-steps hash l first second pubkey key paid one two parsed =
      let status : check_invoice_status s settings hash l ≡ (first, some InvoiceStatus.paid) =
        rw (check_invoice_status, paid, one) refl in
      let admits : on_paid s settings hash (first, some InvoiceStatus.paid)
          ≡ (admit_account s.now key settings.admission_cost second, []) =
        rw (on_paid, two, parsed) refl in
      ap (on_paid s settings hash) status ∙ admits

  -- A message that an invoice is paid, for a stored invoice that the processor calls paid, charges the
  -- price of the admission to the account, whether or not the invoice was credited by this message: the
  -- amount is credited only if the invoice was unpaid.
  pub invoice_paid-charges :
      (hash : String) (l : Ledger) (row : InvoiceRow) (a : Account)
      → s.check_invoice hash ≡ some InvoiceStatus.paid
      → lookup hash l.invoices ≡ some row
      → s.from_pk_str row.pubkey ≡ some row.pubkey
      → lookup row.pubkey l.accounts ≡ some a
      → lookup row.pubkey (handle s settings (PaymentMessage.invoice_paid hash) l).0.accounts
        ≡ some (
            admitted s.now settings.admission_cost
              (if is_unpaid row.status then credited row.amount a else a))
  unfolding admit_account
  invoice_paid-charges hash l row a paid stored parsed known =
      let cost = settings.admission_cost in
      elim (update_invoice_iff s.now hash InvoiceStatus.paid l) [
        | inl (missing, failed) ↦ absurd (cc)
        | inr (row1, first, found, one, kept, accounts) ↦
            let same : row1 ≡ row = cc in
            elim (update_invoice_iff s.now hash InvoiceStatus.paid first) [
              | inl (missing, failed) ↦ absurd (cc)
              | inr (row2, second, found2, two, kept2, accounts2) ↦
                  let settled_row : row2 ≡ settled s.now InvoiceStatus.paid row = cc in
                  let key : row2.pubkey ≡ row.pubkey =
                    ap (λ (r : InvoiceRow). r.pubkey) settled_row in
                  let two1 =
                    subst (λ k. update_invoice s.now hash InvoiceStatus.paid first ≡ ok (second, k))
                      key two in
                  let one1 =
                    subst
                      (λ (r : InvoiceRow).
                        update_invoice s.now hash InvoiceStatus.paid l ≡ ok (first, r.pubkey))
                      same one in
                  let ends =
                    paid-steps hash l first second row.pubkey row.pubkey paid one1 two1 parsed in
                  let before : lookup row.pubkey first.accounts
                      ≡ some (if is_unpaid row.status then credited row.amount a else a) =
                    first_credit row
                      (subst
                        (λ (r : InvoiceRow). lookup row.pubkey first.accounts ≡ (
                          if is_unpaid r.status && true && r.pubkey == row.pubkey
                          then Option.map (credited r.amount) (lookup row.pubkey l.accounts)
                          else lookup row.pubkey l.accounts))
                        same (accounts row.pubkey))
                      known in
                  let between : lookup row.pubkey second.accounts
                      ≡ lookup row.pubkey first.accounts =
                    subst
                      (λ (r : InvoiceRow). lookup row.pubkey second.accounts ≡ (
                        if is_unpaid r.status && true && r.pubkey == row.pubkey
                        then Option.map (credited r.amount) (lookup row.pubkey first.accounts)
                        else lookup row.pubkey first.accounts))
                      settled_row (accounts2 row.pubkey) in
                  let own = eq_refl row.pubkey in
                  subst
                    (λ (x : Ledger × List PaymentMessage).
                      lookup row.pubkey x.0.accounts
                      ≡ some (
                          admitted s.now cost
                            (if is_unpaid row.status then credited row.amount a else a)))
                    (sym ends)
                    (account-update row.pubkey row.pubkey (admitted s.now cost) second
                      ∙ rw (own, between, before) refl)
            ]
      ]
    where
      first_credit :
          (r : InvoiceRow) {x y : Option Account}
          → x ≡ (
              if is_unpaid r.status && true && r.pubkey == r.pubkey
              then Option.map (credited r.amount) y
              else y)
          → y ≡ some a
          → x ≡ some (if is_unpaid r.status then credited r.amount a else a)
      first_credit r e found1 =
          let own = eq_refl r.pubkey in
          elim (Bool-cases (is_unpaid r.status)) [
            | inl open1 ↦ rw open1 (rw (open1, own, found1) at e)
            | inr closed ↦ rw closed (rw (closed, found1) at e)
          ]
