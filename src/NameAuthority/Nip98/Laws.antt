-- ===== src/NameAuthority/Nip98/Laws.antt =====
-- What the NIP-98 authorization of src/name_authority/nip98.rs accepts.
use Prim.Native.String.{◌++◌}
use floonet_rs.Base.{
  ℕ, ◌≡◌, refl, sym, ap, ◌∙◌, In, ◌⊎◌, inl, inr, String, Bool, true, false, not, Option, none, some,
  List, [], ◌∷◌, ◌==◌, nat_eq, string_eq, arith, Result, ok, err, Result-cases, if◌then◌else◌,
  nat_beq_iff,
}
use floonet_rs.Utils.{Text}
use floonet_rs.Event.{EventError, Event, Json, Crypto, validate}
use floonet_rs.Event.Validation.{IsSigned, validate_iff}
use floonet_rs.NameAuthority.Nip98.{
  Http, AuthError, bad_signature, wrong_kind, expired, url_mismatch, method_mismatch, is_stale,
  Found, url_matches, read_tags, check_payload, check_auth, decode_auth, verify_nip98,
  eq_ignore_ascii_case, then_check,
}
use floonet_rs.NameAuthority.Nip98.Tags.{
  last_named, holds_on, read_tags-u_ok, read_tags-method_ok, read_tags-payload,
}

module _ (j : Json) (c : Crypto) (t : Text) (h : Http) where
  -- The event allows the call with this method, at this address, with this body.
  pub record Authorizes (method expected : String) (body : List ℕ) (max_age now : ℕ) (e : Event)
      : Type 0 where
    pub signed : IsSigned j c e
    pub kind : e.kind ≡ 27235
    pub recent : is_stale now e.created_at max_age ≡ false
    pub url : (u : String) × (last_named "u" e.tags ≡ some u) × (url_matches expected u ≡ true)
    pub call :
        (m : String) × (last_named "method" e.tags ≡ some m)
        × (eq_ignore_ascii_case m method ≡ true)
    pub digest :
        (body ≡ [])
        ⊎ ((d : String) × (ds : List String) × In ("payload" ∷ d ∷ ds) e.tags
            × (eq_ignore_ascii_case d (h.sha256_hex body) ≡ true))

  digest_sound :
      (body : List ℕ) (e : Event) (found : Option String)
      → ((v : String) → found ≡ some v → (vs : List String) × In ("payload" ∷ v ∷ vs) e.tags)
      → check_payload h body found ≡ ok tt
      → (body ≡ [])
        ⊎ ((d : String) × (ds : List String) × In ("payload" ∷ d ∷ ds) e.tags
            × (eq_ignore_ascii_case d (h.sha256_hex body) ≡ true))
  unfolding check_payload
  digest_sound [] e found named okay = inl refl
  digest_sound (b ∷ body) e none named okay = absurd (cc)
  digest_sound (b ∷ body) e (some v) named okay =
      let (vs, there) = named v refl in inr (v, vs, there, ground arith)

  named :
      (method expected : String) (e : Event) (start : Found) (v : String)
      → (read_tags expected method e.tags (record start { payload_hash = none })).payload_hash
        ≡ some v
      → (vs : List String) × In ("payload" ∷ v ∷ vs) e.tags
  named method expected e start v h =
      elim (read_tags-payload expected method e.tags (record start { payload_hash = none }) v h) [
        | inl there ↦ there
        | inr kept ↦ absurd (cc)
      ]

  holds_on-witness :
      (p : String → Bool) (found : Option String)
      → holds_on p false found ≡ true
      → (v : String) × (found ≡ some v) × (p v ≡ true)
  unfolding holds_on
  holds_on-witness p none okay = absurd (cc)
  holds_on-witness p (some v) okay = (v, refl, okay)

  check_auth_facts :
      (v : Result EventError Unit) (kind stale url call : Bool) (payload : Result AuthError Unit)
      (who out : String × String)
      → (elim v [
        | err _ ↦ err bad_signature
        | ok _ ↦
            if not kind
            then err wrong_kind
            else if stale
            then err expired
            else if not url
            then err url_mismatch
            else if not call
            then err method_mismatch
            else then_check payload (λ _. ok who)
      ])
        ≡ ok out
      → (v ≡ ok tt)
        × (kind ≡ true)
        × (stale ≡ false)
        × (url ≡ true)
        × (call ≡ true)
        × (payload ≡ ok tt)
        × (who ≡ out)
  check_auth_facts (err x) kind stale url call payload who out okay = absurd (cc)
  check_auth_facts (ok u) kind stale url call (err x) who out okay = absurd (ground arith)
  check_auth_facts (ok u) kind stale url call (ok p) who out okay =
      (refl, ground arith, ground arith, ground arith, ground arith, refl, ground arith)

  check_auth_sound :
      (method expected : String) (body : List ℕ) (max_age now : ℕ) (e : Event) (pubkey id : String)
      → check_auth j c t h method expected body max_age now e ≡ ok (pubkey, id)
      → Authorizes method expected body max_age now e × (e.pubkey ≡ pubkey) × (e.id ≡ id)
  unfolding check_auth
  check_auth_sound method expected body max_age now e pubkey id okay =
      let start : Found = record { u_ok = false; method_ok = false; payload_hash = none } in
      let found = read_tags expected method e.tags start in
      let (valid, kind, recent, url, call, payload, who) =
        check_auth_facts (validate j c e) (e.kind == 27235) (is_stale now e.created_at max_age)
          found.u_ok found.method_ok (check_payload h body found.payload_hash) (e.pubkey, e.id)
          (pubkey, id) okay in
      (
        record {
          signed = (validate_iff j c e).0 valid;
          kind = (nat_beq_iff e.kind 27235).0 kind;
          recent = recent;
          url =
              holds_on-witness (url_matches expected) (last_named "u" e.tags)
                (sym (read_tags-u_ok expected method e.tags start) ∙ url);
          call =
              holds_on-witness (λ m. eq_ignore_ascii_case m method) (last_named "method" e.tags)
                (sym (read_tags-method_ok expected method e.tags start) ∙ call);
          digest = digest_sound body e found.payload_hash (named method expected e start) payload;
        },
        ap (λ (p : String × String). p.0) who,
        ap (λ (p : String × String). p.1) who,
      )

  -- A call is authorized only by an event in its header that is signed, of the kind of HTTP
  -- authorizations and recent, whose last `u` and `method` tags are the call's, and that names the
  -- digest of the body unless the body is empty; the caller is the event's author.
  pub verify_nip98_sound :
      (auth_header : Option String) (method url_path : String) (body : List ℕ) (base_url : String)
      (max_age now : ℕ) (pubkey id : String)
      → verify_nip98 j c t h auth_header method url_path body base_url max_age now ≡ ok (pubkey, id)
      → (e : Event) × (decode_auth j c t h auth_header ≡ ok e)
        × Authorizes method (base_url ++ url_path) body max_age now e
        × (e.pubkey ≡ pubkey)
        × (e.id ≡ id)
  unfolding verify_nip98
  verify_nip98_sound auth_header method url_path body base_url max_age now pubkey id res =
      let expected = base_url ++ url_path in
      elim (Result-cases (decode_auth j c t h auth_header)) [
        | inr (x, failed) ↦
            let no : Path (Result AuthError (String × String)) (err x) (ok (pubkey, id)) =
              rw (failed, then_check) at res in
            absurd (cc)
        | inl (e, decoded) ↦
            let checked : check_auth j c t h method expected body max_age now e ≡ ok (pubkey, id) =
              rw decoded at res in
            let (a, key, name) =
              check_auth_sound method expected body max_age now e pubkey id checked in
            (e, decoded, a, key, name)
      ]
