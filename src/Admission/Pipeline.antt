-- ===== src/Admission/Pipeline.antt =====
-- What the whole pipeline decides (src/admission.rs).
use mathlib.Core.Option
use floonet_rs.Base.{
  ℕ, String, ◌≡◌, refl, ◌≢◌, ◌↔◌, inl, inr, Bool, true, false, ◌&&◌, Option, none, some, List, [],
  ◌∷◌, ◌++◌, ◌==◌, nat_eq, string_eq, arith, contains, contains_iff, nat_beq_iff, subst,
  All-append_iff, and-eq-true_iff, if◌then◌else◌, In, All, Bool-cases,
}
use floonet_rs.Utils.{Text}
use floonet_rs.Event.{Event}
use floonet_rs.Admission.GiftWrap.{IsWrapTags, gift_wrap_iff}
use floonet_rs.Admission.{
  allow, deny, Reason, authentication_required, Policy, kind_whitelist, gift_wrap_retention,
  restricted_kind_authors, require_auth, pubkey_whitelist, Settings, check_kind, check_auth,
  check_pubkey, check_locked, check_gift_wrap, check_policy, from_settings, check,
  default_allowed_kinds, locked_kinds, author_policies, gift_wrap_kind, from_entries,
}

other_kind_allowed : (e : Event) → (e.kind == gift_wrap_kind) ≡ false → check_gift_wrap e ≡ allow
unfolding check_gift_wrap
other_kind_allowed e other = ground arith

module _ (t : Text) where
  -- The pipeline allows exactly what every policy allows.
  check_iff :
      (ps : List Policy) (e : Event) (authed : Option String)
      → (check t ps e authed ≡ allow) ↔ All (λ p. check_policy t p e authed ≡ allow) ps
  unfolding check
  check_iff [] e authed = (λ h. tt, λ h. refl)
  check_iff (p ∷ ps) e authed =
      let ih = check_iff ps e authed in
      (λ h. (ground arith, ih.0 (ground arith)), λ (here, later). ground (arith, ih.1 later))

  -- What the settings admit.
  pub record Admits (s : Settings) (e : Event) (authed : Option String) : Type 0 where
    -- The kind is on the list, which is the built-in one if none is configured.
    pub kind : In e.kind (Option.get_or s.event_kind_allowlist default_allowed_kinds)
    -- A gift wrap has the shape of one.
    pub wrap : e.kind ≡ gift_wrap_kind → IsWrapTags e.tags
    -- A public note is by an authorized author.
    pub note :
        In e.kind locked_kinds
        → In (t.to_lowercase e.pubkey) (from_entries t (Option.get_or s.public_note_authors []))
    -- The client has authenticated, where that is required.
    pub client : (s.nip42_auth ≡ true) × (s.require_auth_to_write ≡ true) → authed ≢ none
    -- The author is on the list of authors of a relay that is not paid for.
    pub author :
        s.pay_to_relay ≡ false
        → (allowed : List String) → s.pubkey_whitelist ≡ some allowed
        → In e.pubkey allowed

  kind_iff : (allowed : List ℕ) (e : Event) → (check_kind allowed e ≡ allow) ↔ In e.kind allowed
  unfolding check_kind
  kind_iff allowed e =
      let listed = contains_iff allowed e.kind in
      (λ h. listed.0 (ground arith), λ m. let there = listed.1 m in ground arith)

  pubkey_iff :
      (allowed : List String) (e : Event) → (check_pubkey allowed e ≡ allow) ↔ In e.pubkey allowed
  unfolding check_pubkey
  pubkey_iff allowed e =
      let listed = contains_iff allowed e.pubkey in
      (λ h. listed.0 (ground arith), λ m. let there = listed.1 m in ground arith)

  wrap_iff :
      (e : Event) → (check_gift_wrap e ≡ allow) ↔ (e.kind ≡ gift_wrap_kind → IsWrapTags e.tags)
  wrap_iff e = elim (Bool-cases (e.kind == gift_wrap_kind)) [
    | inl same ↦
        let wrap = (nat_beq_iff e.kind gift_wrap_kind).0 same in
        let shape = gift_wrap_iff e wrap in (λ h _. shape.0 h, λ f. shape.1 (f wrap))
    | inr other ↦ (λ h same. absurd (ground arith), λ f. other_kind_allowed e other)
  ]

  locked_iff :
      (authors : List String) (e : Event)
      → (check_locked t authors e ≡ allow)
        ↔ (In e.kind locked_kinds → In (t.to_lowercase e.pubkey) authors)
  unfolding check_locked
  locked_iff authors e =
      let locked = contains_iff locked_kinds e.kind in
      let listed = contains_iff authors (t.to_lowercase e.pubkey) in
      (
        λ h m. listed.0 (let there = locked.1 m in ground arith),
        λ f. elim (Bool-cases (contains locked_kinds e.kind)) [
          | inl yes_locked ↦ let there = listed.1 (f (locked.0 yes_locked)) in ground arith
          | inr free ↦ ground arith
        ],
      )

  auth_iff : (authed : Option String) → (check_auth authed ≡ allow) ↔ (authed ≢ none)
  unfolding check_auth
  auth_iff authed = (ground arith, ground arith)

  auth_tail_iff :
      (on : Bool) (e : Event) (authed : Option String)
      → All (λ p. check_policy t p e authed ≡ allow) (if on then require_auth ∷ [] else [])
        ↔ (on ≡ true → authed ≢ none)
  unfolding check_policy
  auth_tail_iff true e authed =
      let authenticated = auth_iff authed in
      (λ h _. authenticated.0 h.0, λ f. (authenticated.1 (f refl), tt))
  auth_tail_iff false e authed = (λ h on. absurd (cc), λ f. tt)

  author_tail_iff :
      (paid : Bool) (list : Option (List String)) (e : Event) (authed : Option String)
      → All (λ p. check_policy t p e authed ≡ allow) (author_policies paid list)
        ↔ (paid ≡ false → (allowed : List String) → list ≡ some allowed → In e.pubkey allowed)
  unfolding check_policy author_policies
  author_tail_iff true list e authed = (λ h free. absurd (cc), λ f. tt)
  author_tail_iff false none e authed = (λ h free allowed given. absurd (cc), λ f. tt)
  author_tail_iff false (some allowed) e authed =
      let listed = pubkey_iff allowed e in
      (
        λ h free list given.
            let same : allowed ≡ list = cc in subst (In e.pubkey) same (listed.0 h.0),
        λ f. (listed.1 (f refl allowed refl), tt),
      )

  -- The pipeline that is built from the settings allows an event exactly when: its kind is on the
  -- list (the built-in one if none is configured); a gift wrap carries its recipient and nothing
  -- else; a public note is by an authorized author; the client has authenticated, where that is
  -- required; and the author is on the list of a relay that is not paid for.
  pub check-allow_iff :
      (s : Settings) (e : Event) (authed : Option String)
      → (check t (from_settings t s) e authed ≡ allow) ↔ Admits s e authed
  unfolding from_settings check_policy
  check-allow_iff s e authed =
      let whole = check_iff (from_settings t s) e authed in
      let tails =
        All-append_iff (λ p. check_policy t p e authed ≡ allow)
          (if s.nip42_auth && s.require_auth_to_write then require_auth ∷ [] else [])
          (author_policies s.pay_to_relay s.pubkey_whitelist) in
      let kind = kind_iff (Option.get_or s.event_kind_allowlist default_allowed_kinds) e in
      let note = locked_iff (from_entries t (Option.get_or s.public_note_authors [])) e in
      let client = auth_tail_iff (s.nip42_auth && s.require_auth_to_write) e authed in
      let author = author_tail_iff s.pay_to_relay s.pubkey_whitelist e authed in
      let both = and-eq-true_iff s.nip42_auth s.require_auth_to_write in
      (
        λ h.
            let passed = whole.0 h in
            let (c, a) = tails.0 passed.1.1.1 in
            record {
              kind = kind.0 passed.0;
              wrap = (wrap_iff e).0 passed.1.0;
              note = note.0 passed.1.1.0;
              client = λ on. client.0 c (both.1 on);
              author = author.0 a;
            },
        λ m. whole.1 (
          kind.1 m.kind,
          (
            (wrap_iff e).1 m.wrap,
            (note.1 m.note, tails.1 (client.1 (λ on. m.client (both.0 on)), author.1 m.author)),
          ),
        ),
      )

  -- Only a missing authentication asks the client to authenticate.
  auth_flag :
      (p : Policy) (e : Event) (authed : Option String) (r : Reason)
      → check_policy t p e authed ≡ deny r true
      → (p ≡ require_auth) × (r ≡ authentication_required) × (authed ≡ none)
  unfolding check_policy
  auth_flag (kind_whitelist allowed) e authed r h = absurd (ground arith)
  auth_flag gift_wrap_retention e authed r h = absurd (ground arith)
  auth_flag (restricted_kind_authors authors) e authed r h = absurd (ground arith)
  auth_flag require_auth e authed r h = (refl, ground arith, ground arith)
  auth_flag (pubkey_whitelist allowed) e authed r h = absurd (ground arith)

  -- Where the pipeline asks for authentication, the policies before it allowed the event.
  check_asks :
      (p : Policy) (ps : List Policy) (e : Event) (authed : Option String) (r : Reason)
      → p ≢ require_auth
      → check t (p ∷ ps) e authed ≡ deny r true
      → (check_policy t p e authed ≡ allow) × (check t ps e authed ≡ deny r true)
  unfolding check
  check_asks p ps e authed r other h =
      (ground (arith, auth_flag p e authed r), ground (arith, auth_flag p e authed r))

  tail_asks_list :
      (paid : Bool) (list : Option (List String)) (e : Event) (authed : Option String) (r : Reason)
      → check t (author_policies paid list) e authed ≢ deny r true
  unfolding check check_policy author_policies
  tail_asks_list true list e authed r h = cc
  tail_asks_list false none e authed r h = cc
  tail_asks_list false (some allowed) e authed r h = ground arith

  tail_asks :
      (on paid : Bool) (list : Option (List String)) (e : Event) (authed : Option String)
      (r : Reason)
      → check t ((if on then require_auth ∷ [] else []) ++ author_policies paid list) e authed
        ≡ deny r true
      → (r ≡ authentication_required) × (authed ≡ none) × (on ≡ true)
  unfolding check check_policy author_policies
  tail_asks true paid list e none r h = (ground arith, refl, refl)
  tail_asks true paid list e (some key) r h = absurd (tail_asks_list paid list e (some key) r h)
  tail_asks false paid list e authed r h = absurd (tail_asks_list paid list e authed r h)

  -- A denial that asks the client to authenticate is given only where authentication is required
  -- and missing, for an event that the kind list, the gift-wrap guard and the lockdown of public
  -- notes let through.
  pub auth_required_last :
      (s : Settings) (e : Event) (authed : Option String) (r : Reason)
      → check t (from_settings t s) e authed ≡ deny r true
      → (r ≡ authentication_required)
        × (authed ≡ none)
        × (s.nip42_auth ≡ true)
        × (s.require_auth_to_write ≡ true)
        × In e.kind (Option.get_or s.event_kind_allowlist default_allowed_kinds)
        × (e.kind ≡ gift_wrap_kind → IsWrapTags e.tags)
        × (In e.kind locked_kinds
            → In
                (t.to_lowercase e.pubkey)
                (from_entries t (Option.get_or s.public_note_authors [])))
  unfolding from_settings check_policy
  auth_required_last s e authed r h =
      let (kind, h₁) = check_asks (kind_whitelist _) _ e authed r (λ e. cc) h in
      let (wrap, h₂) = check_asks gift_wrap_retention _ e authed r (λ e. cc) h₁ in
      let (note, h₃) = check_asks (restricted_kind_authors _) _ e authed r (λ e. cc) h₂ in
      let (reason, missing, on) =
        tail_asks (s.nip42_auth && s.require_auth_to_write) s.pay_to_relay s.pubkey_whitelist e
          authed r h₃ in
      let (nip42, required) = (and-eq-true_iff s.nip42_auth s.require_auth_to_write).0 on in
      (
        reason,
        missing,
        nip42,
        required,
        (kind_iff _ e).0 kind,
        (wrap_iff e).0 wrap,
        (locked_iff _ e).0 note,
      )
