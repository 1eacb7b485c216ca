-- ===== src/Repo/Accounts.antt =====
-- The tables `account` and `invoice` of src/repo/sqlite.rs and the calls of the store on them, as maps
-- from their keys. Balances are signed; amounts are numbers that can be bound. A pubkey is the text of
-- a parsed key.
use floonet_rs.Base.{
  ℕ, String, Bool, true, false, ◌&&◌, Option, none, some, List, [], ◌∷◌, ◌==◌, nat_eq, string_eq,
  ltb, if◌then◌else◌, lookup, insert, Result, ok, err, ℤ, pos, negsuc, ◌+ℤ◌, ◌-ℤ◌,
}
use floonet_rs.NameAuthority.PaidGate.{InvoiceStatus}

pub record Account : Type 0 where
  pub is_admitted : Bool
  pub balance : ℤ
  pub tos_accepted_at : Option ℕ

-- A row of `invoice`, without its key.
pub record InvoiceRow : Type 0 where
  pub pubkey : String
  pub invoice : String
  pub amount : ℕ
  pub status : InvoiceStatus
  pub description : String
  pub created_at : ℕ
  pub confirmed_at : Option ℕ

pub record InvoiceInfo : Type 0 where
  pub pubkey : String
  pub payment_hash : String
  pub bolt11 : String
  pub amount : ℕ
  pub status : InvoiceStatus
  pub memo : String
  pub confirmed_at : Option ℕ

pub record Ledger : Type 0 where
  pub accounts : List (String × Account)
  pub invoices : List (String × InvoiceRow)

pub data LedgerError : Type 0 where
  returned_no_rows out_of_range constraint_violation : LedgerError

abbrev pub is_unpaid : InvoiceStatus → Bool
is_unpaid InvoiceStatus.unpaid = true
is_unpaid _ = false

abbrev pub is_paid : InvoiceStatus → Bool
is_paid InvoiceStatus.paid = true
is_paid _ = false

-- `UPDATE account SET ... WHERE pubkey=?`
abbrev pub update_account : String → (Account → Account) → Ledger → Ledger
update_account pubkey change l = elim (lookup pubkey l.accounts) [
  | none ↦ l
  | some a ↦ record l { accounts = insert pubkey (change a) l.accounts }
]

-- Whether the account is new.
unfoldable pub create_account : String → Ledger → Ledger × Bool
create_account pubkey l = elim (lookup pubkey l.accounts) [
  | some _ ↦ (l, false)
  | none ↦ (
    record l {
      accounts =
          insert pubkey (record { is_admitted = false; balance = pos 0; tos_accepted_at = none })
            l.accounts;
    },
    true,
  )
]

abbrev pub admitted : ℕ → ℕ → Account → Account
admitted now cost a = record {
  is_admitted = true;
  balance = a.balance -ℤ pos cost;
  tos_accepted_at = some now;
}

unfoldable pub admit_account : ℕ → String → ℕ → Ledger → Ledger
admit_account now pubkey cost l = update_account pubkey (admitted now cost) l

-- A balance below zero is no unsigned number.
unfoldable pub get_account_balance : String → Ledger → Result LedgerError (Bool × ℕ)
get_account_balance pubkey l = elim (lookup pubkey l.accounts) [
  | none ↦ err returned_no_rows
  | some a ↦ elim a.balance [ pos n ↦ ok (a.is_admitted, n) | negsuc _ ↦ err out_of_range ]
]

unfoldable pub update_account_balance : String → Bool → ℕ → Ledger → Ledger
update_account_balance pubkey positive new_balance l =
    update_account pubkey
      (λ a. record a {
        balance = if positive then a.balance +ℤ pos new_balance else a.balance -ℤ pos new_balance;
      })
      l

-- The primary key and the foreign key are constraints.
unfoldable pub create_invoice_record : ℕ → String → InvoiceInfo → Ledger → Result LedgerError Ledger
create_invoice_record now pubkey info l = elim (lookup info.payment_hash l.invoices) [
  | some _ ↦ err constraint_violation
  | none ↦ elim (lookup pubkey l.accounts) [
    | none ↦ err constraint_violation
    | some _ ↦ ok (record l {
      invoices =
          insert info.payment_hash
            (record {
              pubkey = pubkey;
              invoice = info.bolt11;
              amount = info.amount;
              status = info.status;
              description = info.memo;
              created_at = now;
              confirmed_at = none;
            })
            l.invoices;
    })
  ]
]

abbrev pub settled : ℕ → InvoiceStatus → InvoiceRow → InvoiceRow
settled now status row = record row {
  status = status;
  confirmed_at = if is_paid status then some now else row.confirmed_at;
}

-- The amount is credited when an unpaid invoice is set to paid.
unfoldable pub update_invoice :
    ℕ → String → InvoiceStatus → Ledger → Result LedgerError (Ledger × String)
update_invoice now payment_hash status l = elim (lookup payment_hash l.invoices) [
  | none ↦ err returned_no_rows
  | some row ↦
      let updated : Ledger = record l {
        invoices = insert payment_hash (settled now status row) l.invoices;
      } in
      ok (
        if is_unpaid row.status && is_paid status
            then update_account row.pubkey (λ a. record a { balance = a.balance +ℤ pos row.amount })
                updated
            else updated,
        row.pubkey,
      )
]

-- `ORDER BY created_at DESC LIMIT 1` over the unpaid invoices of the key.
unfoldable pub newest_unpaid : String → List (String × InvoiceRow) → Option (String × InvoiceRow)
newest_unpaid pubkey [] = none
newest_unpaid pubkey ((hash, row) ∷ rest) =
    let best = newest_unpaid pubkey rest in
    if row.pubkey == pubkey && is_unpaid row.status
    then elim best [
      | none ↦ some (hash, row)
      | some (hash1, row1) ↦
          if ltb row.created_at row1.created_at then some (hash1, row1) else some (hash, row)
    ]
    else best

unfoldable pub get_unpaid_invoice : String → Ledger → Result LedgerError InvoiceInfo
get_unpaid_invoice pubkey l = elim (newest_unpaid pubkey l.invoices) [
  | none ↦ err returned_no_rows
  | some (hash, row) ↦ ok (record {
    pubkey = pubkey;
    payment_hash = hash;
    bolt11 = row.invoice;
    amount = row.amount;
    status = InvoiceStatus.unpaid;
    memo = row.description;
    confirmed_at = none;
  })
]
