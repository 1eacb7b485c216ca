-- ===== src/NameAuthority/PaidGate.antt =====
-- The paid gate of src/name_authority/mod.rs (`paid_gate`, `new_invoice`): whether a claim may proceed, and which
-- calls of the payment server and of the database are made. Those are parameters: their answers are
-- given, an error being `none` or `false`. The price as a floating-point number is left out.
use floonet_rs.Base.{
  ℕ, String, ◌≡◌, refl, ◌≢◌, ◌↔◌, ◌⊎◌, inl, inr, Bool, true, false, Option, none, some, List, [],
  ◌∷◌, ◌++◌, if◌then◌else◌, arith,
}

pub data InvoiceStatus : Type 0 where
  paid unpaid expired : InvoiceStatus

pub record Invoice : Type 0 where
  pub payment_hash : String
  pub bolt11 : String

-- What the calls answer.
pub record Answers : Type 0 where
  pub key_parses : Bool
  pub admitted : Option Bool
  pub unpaid_invoice : Option Invoice
  pub status : Option InvoiceStatus
  pub update_ok : Bool
  pub admit_ok : Bool
  pub new_invoice : Option Invoice
  pub record_ok : Bool

-- The calls that change the payment state, in order.
pub data Call : Type 0 where
  create_account : Call
  update_invoice : String → InvoiceStatus → Call
  admit_account : ℕ → Call
  get_invoice : ℕ → Call
  create_invoice_record : Invoice → Call

pub data Refusal : Type 0 where
  invalid_key server_error : Refusal
  payment_required : (invoice_id pay_url : String) (price_nanogrin : ℕ) → Refusal

abbrev pub is_admitted : Option Bool → Bool
is_admitted (some b) = b
is_admitted none = false

abbrev invoice_calls : Bool → Option Invoice → ℕ → List Call × Refusal
invoice_calls record_ok none price = (get_invoice price ∷ [], server_error)
invoice_calls record_ok (some invoice) price =
    let calls = get_invoice price ∷ create_invoice_record invoice ∷ [] in
    if record_ok
    then (calls, payment_required invoice.payment_hash invoice.bolt11 price)
    else (calls, server_error)

-- `new_invoice`, after the calls `before`
unfoldable pub new_invoice : List Call → Answers → ℕ → List Call × Option Refusal
new_invoice before o price =
    let (calls, refusal) = invoice_calls o.record_ok o.new_invoice price in
    (before ++ calls, some refusal)

-- The status of an outstanding invoice decides.
unfoldable pub poll_invoice :
    Answers → ℕ → Invoice → Option InvoiceStatus → List Call × Option Refusal
poll_invoice o price invoice (some paid) =
    let updated = update_invoice invoice.payment_hash paid in
    if o.update_ok
    then (updated ∷ admit_account price ∷ [], if o.admit_ok then none else some server_error)
    else (updated ∷ [], some server_error)
poll_invoice o price invoice (some unpaid) =
    ([], some (payment_required invoice.payment_hash invoice.bolt11 price))
poll_invoice o price invoice (some expired) =
    new_invoice (update_invoice invoice.payment_hash expired ∷ []) o price
poll_invoice o price invoice none = ([], some server_error)

abbrev outstanding : Answers → ℕ → Option Invoice → List Call × Option Refusal
outstanding o price (some invoice) = poll_invoice o price invoice o.status
outstanding o price none = new_invoice (create_account ∷ []) o price

-- The price is `none` where names are free.
unfoldable pub paid_gate : Option ℕ → Answers → List Call × Option Refusal
paid_gate none o = ([], none)
paid_gate (some price) o =
    if o.key_parses
    then if is_admitted o.admitted then ([], none) else outstanding o price o.unpaid_invoice
    else ([], some invalid_key)

new_invoice-refuses :
    (before : List Call) (o : Answers) (price : ℕ) → (new_invoice before o price).1 ≢ none
unfolding new_invoice
new_invoice-refuses before o price h = absurd (cc)

-- A key has paid: its account is read as admitted, or it is not, perhaps because of an error, and its
-- outstanding invoice is reported paid and both that and the admission of the account are stored.
pub HasPaid : Answers → Type 0
HasPaid o =
    (o.admitted ≡ some true)
    ⊎ ((o.admitted ≢ some true)
        × ((invoice : Invoice) × (o.unpaid_invoice ≡ some invoice))
        × (o.status ≡ some paid)
        × (o.update_ok ≡ true)
        × (o.admit_ok ≡ true))

poll_iff :
    (o : Answers) (price : ℕ) (invoice : Invoice) (status : Option InvoiceStatus)
    → ((poll_invoice o price invoice status).1 ≡ none)
      ↔ ((status ≡ some paid) × (o.update_ok ≡ true) × (o.admit_ok ≡ true))
unfolding poll_invoice
poll_iff o price invoice (some paid) = ground arith
poll_iff o price invoice (some unpaid) = (λ h. absurd (cc), λ (a, b, d). absurd (cc))
poll_iff o price invoice (some expired) =
    (λ h. absurd (new_invoice-refuses _ o price h), λ (a, b, d). absurd (cc))
poll_iff o price invoice none = (λ h. absurd (cc), λ (a, b, d). absurd (cc))

outstanding_iff :
    (o : Answers) (price : ℕ) (found : Option Invoice)
    → ((outstanding o price found).1 ≡ none) ↔ (
        ((invoice : Invoice) × (found ≡ some invoice))
        × (o.status ≡ some paid)
        × (o.update_ok ≡ true)
        × (o.admit_ok ≡ true))
outstanding_iff o price none = (
  λ h. absurd (new_invoice-refuses _ o price h),
  λ (found, x, y, z). let (invoice, e) = found in absurd (cc),
)
outstanding_iff o price (some invoice) = (
  λ h. let (x, y, z) = (poll_iff o price invoice o.status).0 h in ((invoice, refl), x, y, z),
  λ (found, x, y, z). (poll_iff o price invoice o.status).1 (x, y, z),
)

gate_iff :
    (key admitted : Bool) (found : List Call × Option Refusal)
    → ((if key then if admitted then ([], none) else found else ([], some invalid_key)).1 ≡ none)
      ↔ ((key ≡ true) × ((admitted ≡ true) ⊎ ((admitted ≡ false) × (found.1 ≡ none))))
gate_iff key admitted found = ground arith

admitted_iff :
    (answer : Option Bool)
    → ((is_admitted answer ≡ true) ↔ (answer ≡ some true))
      × ((is_admitted answer ≡ false) ↔ (answer ≢ some true))
admitted_iff answer = ground arith

-- A claim proceeds exactly if names are free, or the key parses and has paid (HasPaid): its account is read
-- as admitted; or the account is not admitted or cannot be read, an outstanding invoice is found and
-- reported paid, and storing its payment and the admission succeed.
pub paid_gate_iff :
    (price : Option ℕ) (o : Answers)
    → ((paid_gate price o).1 ≡ none) ↔ ((price ≡ none) ⊎ ((o.key_parses ≡ true) × HasPaid o))
unfolding paid_gate HasPaid
paid_gate_iff none o = (λ h. inl refl, λ h. refl)
paid_gate_iff (some price) o =
    let gate =
      gate_iff o.key_parses (is_admitted o.admitted) (outstanding o price o.unpaid_invoice) in
    let open_ = outstanding_iff o price o.unpaid_invoice in
    let (yes_iff, no_iff) = admitted_iff o.admitted in
    (
      λ h.
          let (key, cases) = gate.0 h in
          inr (
            key,
            elim cases [
              | inl a ↦ inl (yes_iff.0 a)
              | inr (a, rest) ↦ let (i, x, y, z) = open_.0 rest in inr (no_iff.0 a, i, x, y, z)
            ],
          ),
      λ h. elim h [
        | inl free ↦ absurd (cc)
        | inr (key, cases) ↦ gate.1 (
          key,
          elim cases [
            | inl a ↦ inl (yes_iff.1 a)
            | inr (a, i, x, y, z) ↦ inr (no_iff.1 a, open_.1 (i, x, y, z))
          ],
        )
      ],
    )
