-- ===== src/Conn/Auth.antt =====
-- NIP-42 authentication of a connection (src/conn.rs).
use mathlib.Core.Option
use floonet_rs.Base.{
  ℕ, ◌+◌, ◌-◌, ◌&&◌, ◌%◌, Result-cases, ◌≤◌, ◌<◌, String, ◌≡◌, refl, ap, nat_beq_iff, ◌↔◌, inl, inr,
  Bool, true, Option, none, some, string_eq, arith, eq_iff, ok, err, Bool-cases,
}
use floonet_rs.Event.{Event, Json, Crypto, validate}
use floonet_rs.Event.Validation.{IsSigned, validate_iff}
use floonet_rs.Conn.{
  ClientConn, auth_failure, challenge, auth_pubkey, last_value, is_recent, same_present, accepts,
  authenticate_by, authenticate,
}

same_present_iff :
    (a b : Option String) → (same_present a b ≡ true) ↔ ((s : String) × (a ≡ some s) × (b ≡ some s))
same_present_iff none b = (λ h. absurd (cc), λ (s, p, q). absurd (cc))
same_present_iff (some a) none = (λ h. absurd (cc), λ (s, p, q). absurd (cc))
same_present_iff (some a) (some b) =
    (λ h. (b, ap some ((eq_iff a b).0 h), refl), λ (s, p, q). (eq_iff a b).1 (cc))

all_four_iff :
    (p q r s : Bool)
    → (p && q && r && s ≡ true) ↔ ((p ≡ true) × (q ≡ true) × (r ≡ true) × (s ≡ true))
all_four_iff p q r s = ground arith

is_recent_iff :
    (now t : ℕ)
    → 600 ≤ now
    → now + 600 < 18446744073709551616
    → (is_recent now t ≡ true) ↔ ((now ≤ t + 600) × (t ≤ now + 600))
unfolding is_recent
is_recent_iff now t past future =
    let p : (now + 18446744073709551616 - 600) % 18446744073709551616 ≡ now - 600 = omega arith in
    let f : (now + 600) % 18446744073709551616 ≡ now + 600 = omega arith in
    rw (p, f) (λ h. (ground arith, ground arith), λ (a, b). ground arith)

module _ (j : Json) (c : Crypto) (host_str : String → Option String) where
  -- The event answers the challenge `sent` of the relay at `relay_url`, at the time `now`.
  pub record Answers (now : ℕ) (e : Event) (sent relay_url : String) : Type 0 where
    pub signed : IsSigned j c e
    pub kind : e.kind ≡ 22242
    pub not_old : now ≤ e.created_at + 600
    pub not_ahead : e.created_at ≤ now + 600
    pub same_challenge : last_value "challenge" none e.tags ≡ some sent
    pub same_relay :
        (host : String) × (Option.bind (last_value "relay" none e.tags) host_str ≡ some host)
        × (host_str relay_url ≡ some host)

  module _ (now : ℕ) (past : 600 ≤ now) (future : now + 600 < 18446744073709551616) where
    pub answers_sound :
        (e : Event) (sent relay_url : String)
        → validate j c e ≡ ok tt
        → accepts host_str now e sent relay_url ≡ true
        → Answers now e sent relay_url
    unfolding accepts
    answers_sound e sent relay_url valid h =
        let received = last_value "challenge" none e.tags in
        let host = Option.bind (last_value "relay" none e.tags) host_str in
        let (k, w, a, r) = (all_four_iff _ _ _ _).0 h in
        let (s, there, same) = (same_present_iff received (some sent)).0 a in
        let (old, ahead) = (is_recent_iff now e.created_at past future).0 w in
        record {
          signed = (validate_iff j c e).0 valid;
          kind = (nat_beq_iff e.kind 22242).0 k;
          not_old = old;
          not_ahead = ahead;
          same_challenge = cc (there, same);
          same_relay = (same_present_iff host (host_str relay_url)).0 r;
        }

    answers_complete :
        (e : Event) (sent relay_url : String)
        → Answers now e sent relay_url
        → accepts host_str now e sent relay_url ≡ true
    unfolding accepts
    answers_complete e sent relay_url a =
        let received = last_value "challenge" none e.tags in
        let host = Option.bind (last_value "relay" none e.tags) host_str in
        (all_four_iff _ _ _ _).1 (
          (nat_beq_iff e.kind 22242).1 a.kind,
          (is_recent_iff now e.created_at past future).1 (a.not_old, a.not_ahead),
          (same_present_iff received (some sent)).1 (sent, a.same_challenge, refl),
          (same_present_iff host (host_str relay_url)).1 a.same_relay,
        )

    -- A challenged connection is authenticated exactly by an event that answers the challenge, and
    -- becomes its author's; otherwise it is left as it was.
    pub authenticate_iff :
        (conn : ClientConn) (e : Event) (sent relay_url : String)
        → conn.auth ≡ challenge sent
        → (Answers now e sent relay_url
            → authenticate j c host_str now conn e relay_url
              ≡ (record conn { auth = auth_pubkey e.pubkey }, ok tt))
          × (¬ Answers now e sent relay_url
              → authenticate j c host_str now conn e relay_url ≡ (conn, err auth_failure))
    unfolding authenticate
    authenticate_iff conn e sent relay_url pending = rw pending (
      λ a.
          let valid = (validate_iff j c e).1 a.signed in
          rw (valid, authenticate_by) (rw (answers_complete e sent relay_url a) refl),
      λ n. elim (Result-cases (validate j c e)) [
        | inr (x, failed) ↦ rw (failed, authenticate_by) refl
        | inl (u, valid) ↦ elim (Bool-cases (accepts host_str now e sent relay_url)) [
          | inl accepted ↦ absurd (n (answers_sound e sent relay_url valid accepted))
          | inr refused ↦ rw (valid, authenticate_by) (rw refused refl)
        ]
      ],
    )
