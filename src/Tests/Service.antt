-- ===== src/Tests/Service.antt =====
-- Examples of the server, the writer, the payments and the verification of users.
use mathlib.Core.Option
use floonet_rs.Delegation.{delegated_author, update_delegation}
use floonet_rs.Base.{
  ℕ, ◌≤◌, String, ◌≡◌, refl, ◌↔◌, ◌⊎◌, inl, Bool, true, false, ◌&&◌, ◌==◌, Option, none, some, List,
  [], ◌∷◌, In, any, filter, length, ok, err, Run, returns, panics, lookup, string_eq, nat_eq,
  if◌then◌else◌, leb, pos,
}
use floonet_rs.Utils.{all_chars}
use floonet_rs.Event.{
  validate, to_canonical, build_index, Event, serialized, is_ephemeral, tag_values_by_name,
}
use floonet_rs.Subscription.{filter_interested, Subscription, interested_in_event}
use floonet_rs.Command.{wrap_event_cmd, EventCmd}
use floonet_rs.Admission.{from_settings}
use floonet_rs.Conn.{ClientConn, conn_auth_pubkey, auth_pubkey}
use floonet_rs.NameAuthority.PaidGate.{InvoiceStatus}
use floonet_rs.Nip05.{
  is_active, Nip05Name, VerifiedUsers, VerifiedUsersMode, VerificationRecord,
  UserWebVerificationStatus, try_from, display, local_char, domain_char,
}
use floonet_rs.Nip05.Names.{display-try_from_iff, rounds, rounds-gives_up}
use floonet_rs.Writer.{
  allowed_kind, publish, charge_account, in_list, check_verified, check_account_balance,
  check_kinds, check_payer, check_admission, no_rows, SubmittedEvent, WriterSettings, Answers,
  finish, write_round, Effect,
}
use floonet_rs.Writer.Effects.{is_broadcast, is_charge, is_saved, replies}
use floonet_rs.Writer.Rounds.{Ends, write_round-Ends}
use floonet_rs.Writer.Publication.{finish_sound, write_round_charges}
use floonet_rs.Repo.Accounts.{
  Account, InvoiceRow, Ledger, LedgerError, is_unpaid, is_paid, settled, admitted, update_invoice,
}
use floonet_rs.Payment.{Services, PaySettings, PaymentMessage, handle}
use floonet_rs.Payment.Laws.{credited, update_invoice_iff, invoice_paid-charges}
use floonet_rs.Server.{
  is_party, allowed_to_send, Output, ServerSettings, Texts, on_event_msg, send_broadcast,
}
use floonet_rs.Server.Delivery.{Delivered, send_broadcast_sound}
use floonet_rs.Server.Publication.{Submits, on_event_msg_sound}
use floonet_rs.Tests.{
  json, crypto, text, captures, key_hex, note, gift_wrap, notes_sub, settings, filter_of,
}

abbrev texts : Texts
texts = record {
  event_error = λ _. "invalid";
  conn_error = λ _. "refused";
  reason = λ _. "denied";
  future_dated = λ _. "future";
}

abbrev server_settings : ServerSettings
server_settings = record {
  reject_future_seconds = some 60;
  nip42_auth = true;
  relay_url = none;
  limit_scrapers = false;
}

abbrev client : ClientConn
client = record {
  client_ip_addr = "127.0.0.1";
  client_id = "client";
  subscriptions = ("notes", notes_sub) ∷ [];
  max_subs = 32;
  auth = auth_pubkey key_hex;
}

abbrev command : EventCmd
command = record { cmd = "EVENT"; event = gift_wrap }

abbrev handled : Run (ClientConn × List Output) → ClientConn × List Output
handled (returns x) = x
handled panics = (client, [])

abbrev run_command : Run (ClientConn × List Output)
run_command =
    on_event_msg text json crypto captures (λ s. some s) texts server_settings
      (from_settings text settings) 1000 command client

command_runs : run_command ≡ returns (handled run_command)
unfolding on_event_msg wrap_event_cmd validate to_canonical update_delegation delegated_author
    build_index
command_runs = refl

on_event_msg_example :
    (command.cmd ≡ "EVENT"
      → ((handled run_command).0 ≡ client) × (length (handled run_command).1 ≡ 1))
    × ((x : Event) (key : Option (List ℕ))
        → In (Output.submit x key) (handled run_command).1
        → Submits text json crypto captures
            (λ s. some s)
            texts
            server_settings
            settings
            1000
            command
            client
            x
            key)
on_event_msg_example =
    on_event_msg_sound text json crypto captures (λ s. some s) texts server_settings settings 1000
      command client (handled run_command).0 (handled run_command).1 command_runs

-- The gift wrap as a client's command leaves it, with its index.
abbrev indexed_wrap : Event
indexed_wrap = build_index gift_wrap

abbrev reads_back : String → Option Event
reads_back s = some (serialized indexed_wrap)

abbrev wraps : List (String × Subscription)
wraps = ("wraps", record { id = "wraps"; filters = filter_of (some (1059 ∷ [])) none ∷ [] }) ∷ []

wrap_goes : In "wraps" (send_broadcast (λ e. some "wrap") reads_back client true indexed_wrap wraps)
unfolding build_index send_broadcast interested_in_event filter_interested allowed_to_send is_party
    conn_auth_pubkey tag_values_by_name
wrap_goes = inl refl

send_broadcast_example : Delivered client true indexed_wrap wraps "wraps"
send_broadcast_example =
    send_broadcast_sound (λ e. some "wrap") reads_back client true indexed_wrap wraps "wraps"
      (λ s e. refl) wrap_goes

abbrev users : VerifiedUsers
users = record {
  mode = VerifiedUsersMode.disabled;
  domain_whitelist = none;
  domain_blacklist = none;
  verify_expiration_duration = none;
  max_consecutive_failures = 2;
}

abbrev paid_settings : WriterSettings
paid_settings = record {
  event_kind_blacklist = none;
  event_kind_allowlist = none;
  pubkey_whitelist = none;
  pay_to_relay = true;
  cost_per_event = 5;
  sign_ups = true;
  direct_message = true;
  verified_users = users;
}

abbrev answers : Answers
answers = record {
  now = 1000;
  from_pk_str = λ s. some s;
  get_account_balance = λ s. ok (true, 7);
  get_latest_user_verification = λ s. err no_rows;
  admit_event = none;
  write_event = λ e. ok 1;
  update_account_balance_ok = true;
}

abbrev submitted : SubmittedEvent
submitted = record {
  event = note;
  source_ip = "127.0.0.1";
  origin = none;
  user_agent = none;
  auth_pubkey = none;
}

write_round-Ends_example :
    Ends paid_settings answers submitted (write_round paid_settings answers submitted)
write_round-Ends_example = write_round-Ends paid_settings answers submitted

write_round_charges_example :
    (any is_broadcast (write_round paid_settings answers submitted).0 ≡ true)
    × (b : ℕ) × (key : String) × (answers.from_pk_str note.pubkey ≡ some key)
    × (answers.get_account_balance key ≡ ok (true, b))
    × (paid_settings.cost_per_event ≤ b)
    × (filter is_charge (write_round paid_settings answers submitted).0
        ≡ Effect.charge key paid_settings.cost_per_event ∷ [])
unfolding write_round check_kinds in_list allowed_kind check_payer check_account_balance
    check_verified is_active check_admission finish publish is_ephemeral charge_account
write_round_charges_example = write_round_charges paid_settings answers submitted refl

finish_sound_example :
    (replies (finish paid_settings answers note (some 7)).0 ≡ 1)
    × (any is_broadcast (finish paid_settings answers note (some 7)).0
        ≡ any is_saved (finish paid_settings answers note (some 7)).0)
    × ((any is_broadcast (finish paid_settings answers note (some 7)).0 ≡ true)
        ↔ ((is_ephemeral note ≡ true) ⊎ ((n : ℕ) × (answers.write_event note ≡ ok n) × ¬ (n ≡ 0))))
    × (any is_charge (finish paid_settings answers note (some 7)).0 ≡ true
        → (any is_broadcast (finish paid_settings answers note (some 7)).0 ≡ true)
          × (paid_settings.pay_to_relay ≡ true)
          × ¬ (◌≡◌ {A = Option ℕ} (some 7) none))
finish_sound_example = finish_sound paid_settings answers note (some 7)

abbrev invoice_row : InvoiceRow
invoice_row = record {
  pubkey = "alice";
  invoice = "lnbc1";
  amount = 10;
  status = InvoiceStatus.unpaid;
  description = "admission";
  created_at = 900;
  confirmed_at = none;
}

abbrev account : Account
account = record { is_admitted = false; balance = pos 0; tos_accepted_at = none }

abbrev ledger : Ledger
ledger = record { accounts = ("alice", account) ∷ []; invoices = ("hash", invoice_row) ∷ [] }

update_invoice_example :
    ((lookup "hash" ledger.invoices ≡ none)
      × (update_invoice 1000 "hash" InvoiceStatus.paid ledger ≡ err LedgerError.returned_no_rows))
    ⊎ ((row : InvoiceRow) × (after : Ledger) × (lookup "hash" ledger.invoices ≡ some row)
        × (update_invoice 1000 "hash" InvoiceStatus.paid ledger ≡ ok (after, row.pubkey))
        × (lookup "hash" after.invoices ≡ some (settled 1000 InvoiceStatus.paid row))
        × ((other : String)
            → lookup other after.accounts ≡ (
                if is_unpaid row.status && is_paid InvoiceStatus.paid && row.pubkey == other
                then Option.map (credited row.amount) (lookup other ledger.accounts)
                else lookup other ledger.accounts)))
update_invoice_example = update_invoice_iff 1000 "hash" InvoiceStatus.paid ledger

abbrev services : Services
services = record {
  now = 1000;
  from_pk_str = λ s. some s;
  get_invoice = λ k n. none;
  check_invoice = λ h. some InvoiceStatus.paid;
  send_admission_message = λ k i. true;
}

abbrev pay_settings : PaySettings
pay_settings = record { admission_cost = 10; direct_message = false }

invoice_paid_example :
    lookup "alice"
      (handle services pay_settings (PaymentMessage.invoice_paid "hash") ledger).0.accounts
    ≡ some (admitted 1000 10 (credited 10 account))
unfolding lookup
invoice_paid_example =
    invoice_paid-charges services pay_settings "hash" ledger invoice_row account refl refl refl refl

abbrev ascii_letter : ℕ → Bool
ascii_letter x = leb b'a' x && leb x b'z'

abbrev bob : Nip05Name
bob = record { local = "bob"; domain = "example.com" }

display_example :
    ((try_from ascii_letter (display bob) ≡ ok bob) ↔ (
      (all_chars (local_char ascii_letter) bob.local ≡ true)
      × (all_chars (domain_char ascii_letter) bob.domain ≡ true)))
    × ((s : String)
        → try_from ascii_letter s ≡ ok bob
        → try_from ascii_letter (display bob) ≡ ok bob)
display_example = display-try_from_iff ascii_letter refl bob

abbrev verification : VerificationRecord
verification = record {
  rowid = 1;
  name = bob;
  address = key_hex;
  event = "canonical";
  event_created = 900;
  last_success = some 900;
  last_failure = none;
  failure_count = 0;
}

rounds_example :
    rounds users (λ i. i) (λ i. UserWebVerificationStatus.unknown) 3 (some verification) ≡ none
rounds_example =
    rounds-gives_up users (λ i. i) (λ i. UserWebVerificationStatus.unknown) 2 verification
      (λ i. inl refl) refl
