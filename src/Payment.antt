-- ===== src/Payment.antt =====
-- src/payment/mod.rs: the payment handler. `handle` is one message of `run_internal`: it returns the
-- ledger after it and the messages that are sent, none if an error ends it. The payment processor and
-- the parsing of keys are parameters, and so is whether the two encrypted messages of
-- `send_admission_message` could be made and stored.
pub mod Laws
use floonet_rs.Base.{
  ℕ, String, Bool, true, false, Option, none, some, List, [], ◌∷◌, if◌then◌else◌, Result, ok, err,
}
use floonet_rs.NameAuthority.PaidGate.{InvoiceStatus}
use floonet_rs.Repo.Accounts.{
  Ledger, InvoiceInfo, is_paid, create_account, admit_account, create_invoice_record,
  update_invoice, get_unpaid_invoice,
}

-- What the other parts answer while a message is handled; `none` is an error.
pub record Services : Type 0 where
  pub now : ℕ
  pub from_pk_str : String → Option String
  pub get_invoice : String → ℕ → Option InvoiceInfo
  pub check_invoice : String → Option InvoiceStatus
  pub send_admission_message : String → InvoiceInfo → Bool

pub record PaySettings : Type 0 where
  pub admission_cost : ℕ
  pub direct_message : Bool

pub data PaymentMessage : Type 0 where
  new_account : String → PaymentMessage
  check_account : String → PaymentMessage
  account_admitted : String → PaymentMessage
  invoice : String → InvoiceInfo → PaymentMessage
  invoice_paid : String → PaymentMessage

-- What a call does to the ledger, and its result, `none` if it fails.
abbrev pub Outcome : Type 0 → Type 0
Outcome A = Ledger × Option A

module _ (s : Services) (settings : PaySettings) where
  -- The end of `get_invoice_info`: a new invoice is stored, and sent if the settings say so.
  unfoldable pub new_invoice_info : String → String → ℕ → Ledger → Outcome InvoiceInfo
  new_invoice_info pubkey key amount l = elim (s.get_invoice key amount) [
    | none ↦ (l, none)
    | some info ↦ elim (create_invoice_record s.now key info l) [
      | err _ ↦ (l, none)
      | ok stored ↦
          if settings.direct_message
          then if s.send_admission_message pubkey info then (stored, some info) else (stored, none)
          else (stored, some info)
    ]
  ]

  -- An account that exists and has an unpaid invoice gets that one again.
  unfoldable pub get_invoice_info : String → ℕ → Ledger → Outcome InvoiceInfo
  get_invoice_info pubkey amount l = elim (s.from_pk_str pubkey) [
    | none ↦ (l, none)
    | some key ↦
        let (created_ledger, created) = create_account key l in
        if created
        then new_invoice_info pubkey key amount created_ledger
        else elim (get_unpaid_invoice key created_ledger) [
          | ok info ↦ (created_ledger, some info)
          | err _ ↦ new_invoice_info pubkey key amount created_ledger
        ]
  ]

  unfoldable pub check_invoice_status : String → Ledger → Outcome InvoiceStatus
  check_invoice_status payment_hash l = elim (s.check_invoice payment_hash) [
    | none ↦ (l, none)
    | some status ↦ elim (update_invoice s.now payment_hash status l) [
      | err _ ↦ (l, none)
      | ok (updated, _) ↦ (updated, some status)
    ]
  ]

  -- An invoice is asked for, and announced if there is one.
  abbrev pub announce : String → Outcome InvoiceInfo → Ledger × List PaymentMessage
  announce pubkey (l, none) = (l, [])
  announce pubkey (l, some info) = (l, invoice pubkey info ∷ [])

  -- The answer of the processor on an unpaid invoice of the account.
  abbrev pub on_checked :
      String → String → InvoiceInfo → Outcome InvoiceStatus → Ledger × List PaymentMessage
  on_checked pubkey key info (checked, none) = (checked, [])
  on_checked pubkey key info (checked, some status) =
      if is_paid status
      then (admit_account s.now key settings.admission_cost checked, account_admitted pubkey ∷ [])
      else (checked, invoice pubkey info ∷ [])

  unfoldable pub handle_check_account : String → Ledger → Ledger × List PaymentMessage
  handle_check_account pubkey l = elim (s.from_pk_str pubkey) [
    | none ↦ (l, [])
    | some key ↦ elim (get_unpaid_invoice key l) [
      | err _ ↦ announce pubkey (get_invoice_info pubkey settings.admission_cost l)
      | ok info ↦ on_checked pubkey key info (check_invoice_status info.payment_hash l)
    ]
  ]

  -- The answer of the processor on an invoice that is said to be paid.
  abbrev pub on_paid : String → Outcome InvoiceStatus → Ledger × List PaymentMessage
  on_paid payment_hash (checked, none) = (checked, [])
  on_paid payment_hash (checked, some status) =
      if is_paid status
      then elim (update_invoice s.now payment_hash InvoiceStatus.paid checked) [
        | err _ ↦ (checked, [])
        | ok (updated, pubkey) ↦ elim (s.from_pk_str pubkey) [
          | none ↦ (updated, [])
          | some key ↦ (admit_account s.now key settings.admission_cost updated, [])
        ]
      ]
      else (checked, [])

  unfoldable pub handle_invoice_paid : String → Ledger → Ledger × List PaymentMessage
  handle_invoice_paid payment_hash l = on_paid payment_hash (check_invoice_status payment_hash l)

  unfoldable pub handle : PaymentMessage → Ledger → Ledger × List PaymentMessage
  handle (new_account pubkey) l =
      announce pubkey (get_invoice_info pubkey settings.admission_cost l)
  handle (check_account pubkey) l = handle_check_account pubkey l
  handle (invoice_paid payment_hash) l = handle_invoice_paid payment_hash l
  handle (account_admitted _) l = (l, [])
  handle (invoice _ _) l = (l, [])
