-- ===== src/Server/Publication.antt =====
-- What becomes of a published event on a connection (src/server.rs).
use mathlib.Core.Option
use floonet_rs.Base.{
  if_true, if_false, ℕ, String, ◌≡◌, refl, sym, ap, ◌∙◌, subst, inl, inr, true, false, Option, none,
  List, [], ◌∷◌, nat_eq, string_eq, eq_iff, arith, In, length, Bool-cases, Option-cases, Result, ok,
  err, Run, returns, panics,
}
use floonet_rs.Utils.{Text}
use floonet_rs.Event.{Event, Json, Crypto, EventError, is_expired, is_valid_timestamp}
use floonet_rs.Event.Validation.{IsSigned}
use floonet_rs.Delegation.{Captures}
use floonet_rs.Command.{EventCmd, EventWrapper, event_id, wrap_event_cmd}
use floonet_rs.Command.Laws.{wrapped_event_sound}
use floonet_rs.Admission.{Decision, Settings, check, from_settings}
use floonet_rs.Admission.Pipeline.{Admits, check-allow_iff}
use floonet_rs.Conn.{ClientConn, ConnError, authenticate, conn_auth_pubkey}
use floonet_rs.Notice.{Notice, invalid_notice, auth_required_notice, blocked_notice}
use floonet_rs.Server.{
  ServerSettings, Output, Texts, publish_event, answer_auth, auth_reply, on_event_msg,
}

module _ (t : Text) (j : Json) (c : Crypto) (captures : Captures)
    (host_str : String → Option String) (texts : Texts) (settings : ServerSettings) (s : Settings)
    (now : ℕ) where
  abbrev pub publish : ClientConn → Event → List Output
  publish = publish_event t j c captures host_str texts settings (from_settings t s) now

  abbrev pub handle_event : EventCmd → ClientConn → Run (ClientConn × List Output)
  handle_event = on_event_msg t j c captures host_str texts settings (from_settings t s) now

  -- The key of the client, as it is submitted.
  abbrev pub submitted_key : ClientConn → Option (List ℕ)
  submitted_key conn = Option.bind (conn_auth_pubkey conn) t.hex_decode

  -- The two ways to treat a published event: one reply, or its submission.
  data Ways (conn : ClientConn) (e : Event) : List Output → Type 0 where
    as_reply : (n : Notice) → Ways conn e (Output.reply n ∷ [])
    as_submission :
        is_expired now e ≡ false
        → is_valid_timestamp now settings.reject_future_seconds e ≡ true
        → Admits t s e (conn_auth_pubkey conn)
        → Ways conn e (Output.submit e (submitted_key conn) ∷ [])

  no_limit :
      (e : Event)
      → settings.reject_future_seconds ≡ none
      → is_valid_timestamp now settings.reject_future_seconds e ≡ true
  unfolding is_valid_timestamp
  no_limit e absent = rw absent refl

  publish-Ways : (conn : ClientConn) (e : Event) → Ways conn e (publish conn e)
  unfolding publish_event
  publish-Ways conn e = elim (Bool-cases (is_expired now e)) [
    | inl old ↦ subst (Ways conn e) (sym (if_true _ old)) (as_reply _)
    | inr fresh ↦ elim (Bool-cases (is_valid_timestamp now settings.reject_future_seconds e)) [
      | inl timely ↦
          decided (check t (from_settings t s) e (conn_auth_pubkey conn)) refl fresh timely
      | inr future ↦ elim (Option-cases settings.reject_future_seconds) [
        | inl absent ↦ let fine = no_limit e absent in absurd (cc)
        | inr (seconds, limit) ↦
            let one : publish conn e
                ≡ Output.reply (invalid_notice e.id (texts.future_dated seconds)) ∷ [] =
              if_false _ fresh ∙ if_false _ future ∙ rw limit refl in
            subst (Ways conn e) (sym one) (as_reply _)
      ]
    ]
  ]
    where
      decided :
          (d : Decision)
          → check t (from_settings t s) e (conn_auth_pubkey conn) ≡ d
          → is_expired now e ≡ false
          → is_valid_timestamp now settings.reject_future_seconds e ≡ true
          → Ways conn e (publish conn e)
      decided Decision.allow says fresh timely =
          let one : publish conn e ≡ Output.submit e (submitted_key conn) ∷ [] =
            if_false _ fresh ∙ if_true _ timely ∙ rw says refl in
          subst (Ways conn e) (sym one)
            (as_submission fresh timely ((check-allow_iff t s e (conn_auth_pubkey conn)).0 says))
      decided (Decision.deny reason true) says fresh timely =
          let one : publish conn e
              ≡ Output.reply (auth_required_notice e.id (texts.reason reason)) ∷ [] =
            if_false _ fresh ∙ if_true _ timely ∙ rw says refl in
          subst (Ways conn e) (sym one) (as_reply _)
      decided (Decision.deny reason false) says fresh timely =
          let one : publish conn e ≡ Output.reply (blocked_notice e.id (texts.reason reason)) ∷ [] =
            if_false _ fresh ∙ if_true _ timely ∙ rw says refl in
          subst (Ways conn e) (sym one) (as_reply _)

  -- Why an event is submitted.
  pub record Submits (ec : EventCmd) (conn : ClientConn) (x : Event) (key : Option (List ℕ))
      : Type 0 where
    pub command : ec.cmd ≡ "EVENT"
    pub signed : IsSigned j c ec.event
    pub wrapped : wrap_event_cmd j c captures ec ≡ returns (ok (EventWrapper.wrapped_event x))
    pub unexpired : is_expired now x ≡ false
    pub timely : is_valid_timestamp now settings.reject_future_seconds x ≡ true
    pub admits : Admits t s x (conn_auth_pubkey conn)
    pub authed : key ≡ submitted_key conn

  -- What a list of outputs says, where the command is wrapped as that event.
  outputs_sound :
      (ec : EventCmd) (conn : ClientConn) (e x : Event) (key : Option (List ℕ)) (outs : List Output)
      → wrap_event_cmd j c captures ec ≡ returns (ok (EventWrapper.wrapped_event e))
      → Ways conn e outs
      → (length outs ≡ 1) × (In (Output.submit x key) outs → Submits ec conn x key)
  outputs_sound ec conn e x key outs wrapped (as_reply n) =
      (refl, elim [ inl no_way ↦ absurd (cc) | inr m ↦ absurd m ])
  outputs_sound ec conn e x key outs wrapped (as_submission fresh timely admits) = (
    refl,
    elim [
      | inl same ↦
          let one : x ≡ e = cc in
          let own : key ≡ submitted_key conn = cc in
          subst (λ y. Submits ec conn y key) (sym one)
            (record {
              command = (wrapped_event_sound j c captures ec e wrapped).0;
              signed = (wrapped_event_sound j c captures ec e wrapped).1;
              wrapped = wrapped;
              unexpired = fresh;
              timely = timely;
              admits = admits;
              authed = own;
            })
      | inr m ↦ absurd m
    ],
  )

  -- AUTH commands submit nothing.
  auth-silent :
      (conn : ClientConn) (evid : String) (e x : Event) (key : Option (List ℕ))
      → ¬ In
          (Output.submit x key)
          (answer_auth t j c captures host_str texts settings (from_settings t s) now conn evid e).1
  unfolding answer_auth
  auth-silent conn evid e x key m = elim (Bool-cases settings.nip42_auth) [
    | inr off ↦
        elim (subst (λ (r : ClientConn × List Output). In (Output.submit x key) r.1)
          (if_false _ off) m) [ inl no_way ↦ cc | inr m1 ↦ m1 ]
    | inl on ↦ elim (Option-cases settings.relay_url) [
      | inl absent ↦
          let quiet : answer_auth t j c captures host_str texts settings (from_settings t s) now
                conn evid e
              ≡ (conn, []) =
            if_true _ on ∙ rw absent refl in
          subst (λ (r : ClientConn × List Output). In (Output.submit x key) r.1) quiet m
      | inr (relay, present) ↦
          let attempt = authenticate j c host_str now conn e relay in
          let says : answer_auth t j c captures host_str texts settings (from_settings t s) now conn
                evid e
              ≡ (
                attempt.0,
                auth_reply t j c captures host_str texts settings (from_settings t s) now e
                    attempt.1,
              ) =
            if_true _ on ∙ rw present refl in
          replied attempt.1
            (subst (λ (r : ClientConn × List Output). In (Output.submit x key) r.1) says m)
    ]
  ]
    where
      replied :
          (r : Result ConnError Unit)
          → ¬ In
              (Output.submit x key)
              (auth_reply t j c captures host_str texts settings (from_settings t s) now e r)
      replied (ok _) (inl no_way) = cc
      replied (ok _) (inr m1) = m1
      replied (err _) (inl no_way) = cc
      replied (err _) (inr m1) = m1

  -- A command with the word EVENT is not taken for an AUTH command.
  event_not_auth :
      (ec : EventCmd) (e : Event)
      → ec.cmd ≡ "EVENT"
      → ¬ (wrap_event_cmd j c captures ec ≡ returns (ok (EventWrapper.wrapped_auth e)))
  unfolding wrap_event_cmd
  event_not_auth ec e word h = let hit = (eq_iff ec.cmd "EVENT").1 word in ground arith

  -- An EVENT command that does not panic leaves the connection as it was and has exactly one output: a
  -- reply, or the submission of the event. Whatever the command, an event is submitted only if it is
  -- the signed event of an EVENT command, has not expired, is not too far in the future, and has what the
  -- settings ask of an admitted event and its client.
  pub on_event_msg_sound :
      (ec : EventCmd) (conn after : ClientConn) (outs : List Output)
      → handle_event ec conn ≡ returns (after, outs)
      → (ec.cmd ≡ "EVENT" → (after ≡ conn) × (length outs ≡ 1))
        × ((x : Event) (key : Option (List ℕ))
            → In (Output.submit x key) outs
            → Submits ec conn x key)
  unfolding on_event_msg
  on_event_msg_sound ec conn after outs h = go (wrap_event_cmd j c captures ec) refl
    where
      go :
          (w : Run (Result EventError EventWrapper))
          → wrap_event_cmd j c captures ec ≡ w
          → (ec.cmd ≡ "EVENT" → (after ≡ conn) × (length outs ≡ 1))
            × ((x : Event) (key : Option (List ℕ))
                → In (Output.submit x key) outs
                → Submits ec conn x key)
      go panics e =
          let no_way : Path (Run (ClientConn × List Output)) panics (returns (after, outs)) =
            rw (on_event_msg, e) at h in
          absurd (cc)
      go (returns (err x)) e =
          let eq : Path (Run (ClientConn × List Output))
              (returns
                (conn, Output.reply (invalid_notice (event_id ec) (texts.event_error x)) ∷ []))
              (returns (after, outs)) =
            rw (on_event_msg, e) at h in
          let same : outs ≡ Output.reply (invalid_notice (event_id ec) (texts.event_error x)) ∷ [] =
            cc in
          (
            λ word. (cc, ap length same),
            λ y key m. elim (subst (In (Output.submit y key)) same m) [
              | inl no_way ↦ absurd (cc)
              | inr m1 ↦ absurd m1
            ],
          )
      go (returns (ok (EventWrapper.wrapped_event e1))) e =
          let eq : Path (Run (ClientConn × List Output)) (returns (conn, publish conn e1))
              (returns (after, outs)) =
            rw (on_event_msg, e) at h in
          let same : outs ≡ publish conn e1 = cc in
          (
            λ word. (
              cc,
              ap length same
                  ∙ (outputs_sound ec conn e1 e1 none (publish conn e1) e (publish-Ways conn e1)).0,
            ),
            λ y key m.
                (outputs_sound ec conn e1 y key (publish conn e1) e (publish-Ways conn e1)).1
                  (subst (In (Output.submit y key)) same m),
          )
      go (returns (ok (EventWrapper.wrapped_auth e1))) e =
          let eq : Path (Run (ClientConn × List Output))
              (returns (
                answer_auth t j c captures host_str texts settings (from_settings t s) now conn
                  (event_id ec) e1))
              (returns (after, outs)) =
            rw (on_event_msg, e) at h in
          let same : outs
              ≡ (answer_auth t j c captures host_str texts settings (from_settings t s) now conn
                  (event_id ec) e1).1 =
            cc in
          (
            λ word. absurd (event_not_auth ec e1 word e),
            λ y key m.
                absurd (
                  auth-silent conn (event_id ec) e1 y key
                    (subst (In (Output.submit y key)) same m)),
          )
