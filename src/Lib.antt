-- ===== src/Lib.antt =====
-- floonet-rs, a nostr relay: its event model, its subscriptions, its admission policies, the state
-- of a client connection, the server's handling of commands, the event writer, the SQLite store,
-- the payments, the verified users, and its name authority.
--
-- A client sends EVENT, REQ, CLOSE and AUTH commands over a websocket. An event is validated and
-- indexed, its delegated author is found, and the admission policies decide on it; a REQ opens a
-- subscription of the connection, which is matched against every new event; AUTH answers the
-- challenge of the connection. What a connection submits goes through a queue to the writer, which
-- checks the kind, the payment and the verification, stores the event and broadcasts it to every
-- connection. The store replaces and hides rows, and answers the query that a filter becomes. The
-- name authority serves HTTP on the same listener: names are claimed and released by calls that a
-- signed event authorizes, under rate limits and, if names cost, after a payment.
--
-- - Utils: src/utils.rs. `is_hex`, `is_lower_hex`, `is_nip19`, `nip19_to_hex`, and the parts of the
--   standard library's texts that the other modules use.
-- - Event: src/event.rs. The record `Event`, the tests on its kind, `build_index`, `validate`.
--   Event/Kinds, Event/Index, Event/Validation: what they decide;
--   Event/Integrity: what the id of an event determines.
-- - Delegation: src/delegation.rs and `delegated_author` of src/event.rs.
-- - Command: the conversions of EVENT, AUTH and CLOSE commands (src/event.rs, src/close.rs).
-- - Subscription: src/subscription.rs. Matching in the module itself, the deserializer in
--   Subscription/Parse, the derived equality in Subscription/Equality.
-- - Admission: src/admission.rs. `check_policy` stands for the five implementations of
--   `AdmissionPolicy::check`, `from_settings` and `check` for those of `Admission`.
-- - Conn: src/conn.rs. `ClientConn` with `subscribe`, `unsubscribe`, `generate_auth_challenge` and
--   `authenticate`, as functions from the state to the state and the result; Conn/Reach has them as
--   steps, with the challenges that were sent.
-- - NameAuthority: src/name_authority. The claims table and the limits in the module itself,
--   names.rs in NameAuthority/Names, nip98.rs in NameAuthority/Nip98, the paid gate in
--   NameAuthority/PaidGate, the endpoints in NameAuthority/Handlers. NameAuthority/Claims and
--   NameAuthority/Limits are on the table and on the limits, NameAuthority/Rate on runs of calls.
-- - Notice: src/notice.rs, the results of events with their prefixes.
-- - Server: src/server.rs. `on_event_msg`, `on_sub_msg` and `on_close_msg` are the arms of the loop
--   of `nostr_server` for the three messages, `send_broadcast` the arm for broadcast events.
--   Server/Publication is on published events, Server/Delivery on private messages.
-- - Writer: src/db.rs. `write_round` is one round of the loop of `db_writer`, a chain of checks and
--   the storing. Writer/Effects tells its effects apart; Writer/Checks, Writer/Payer,
--   Writer/Rights, Writer/Verified, Writer/Rounds and Writer/Publication are on its parts.
-- - Repo: src/repo/sqlite.rs. The tables of events and tags in the module itself, `persist_event`,
--   `write_event` and `delete_expired` in Repo/Persist, `query_from_filter` in Repo/Query, the
--   accounts and invoices in Repo/Accounts. Repo/Tables, Repo/Owners and Repo/Keys have what the
--   statements keep, Repo/Shape the ways a call can end; Repo/Frame, Repo/Replaceable,
--   Repo/Reached, Repo/Saved, Repo/Deletion, Repo/Hiding, Repo/Retry, Repo/Clauses, Repo/Selection and
--   Repo/Expiry are on what the calls do.
-- - Payment: src/payment/mod.rs. `handle` is one message of `run_internal`.
-- - Nip05: src/nip05.rs. Names, domains, validity, and the decision of a reverification.
-- - Base: lists, maps, sets, results and tests that the modules share. Tests: the examples.
--
-- Numbers are natural numbers; where the source computes on 64-bit integers, the wrap-around is
-- written out, as in a release build. Texts are sequences of characters, and lengths are in bytes
-- where the source counts bytes. Hash maps and sets are association lists and lists. A call that
-- may panic returns a `Run`. Loops are recursions on a list or a text, and the retries of
-- `write_event` on the attempts left, so no fuel is needed.
--
-- Parameters stand for code of other crates: JSON (serde_json), SHA-256 and Schnorr signatures
-- (bitcoin_hashes, secp256k1), regular expressions, bech32 and hex, base64, the URL parser, and the
-- Unicode tables. The clock, the random identifiers and the answers of the payment server are
-- arguments. The statements on `name_claims` are executed as SQLite documents them; a query that
-- fails, which the source reads as no row, is left out, while a failing INSERT or UPDATE is not.
--
-- The ten attempts of `write_event` are a recursion on the attempts that are left. The store, seen
-- from the writer and the payment handler, and the payment processor answer as parameters of a
-- round; balances are signed. Rows are lists, in which the newest insertion comes first; SQLite
-- leaves the order of rows of equal age open, and the model takes the first.
--
-- Not modelled: the sockets and HTTP of src/server.rs, the streaming of query results, the pools,
-- check-points and migrations of src/repo/sqlite.rs, the PostgreSQL store, the clients of the
-- payment processors, the HTTP requests of src/nip05.rs, configuration and start-up. They are input
-- and output, or await a model of their statements.
pub mod Base
pub mod Utils
pub mod Event
pub mod Delegation
pub mod Command
pub mod Subscription
pub mod Admission
pub mod Conn
pub mod NameAuthority
pub mod Notice
pub mod Repo
pub mod Nip05
pub mod Writer
pub mod Payment
pub mod Server
pub mod Tests
