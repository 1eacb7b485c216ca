-- ===== src/Event/Validation.antt =====
-- What `validate` of src/event.rs accepts.
use floonet_rs.Base.{String, ◌≡◌, ◌↔◌, true, some, arith, Option-cases, inl, inr, eq_iff, ok}
use floonet_rs.Event.{Event, Json, Crypto, to_canonical, check_signature, validate}

-- The event's signature and key are well formed, and the signature verifies over the digest.
abbrev pub Verifies : (c : Crypto) → c.Digest → Event → Type 0
Verifies c digest e =
    (sig : c.Signature) × (msg : c.Message) × (key : c.PublicKey) × (c.signature e.sig ≡ some sig)
    × (c.message digest ≡ some msg)
    × (c.public_key e.pubkey ≡ some key)
    × (c.verify_schnorr sig msg key ≡ true)

check_signature_sound :
    (c : Crypto) (digest : c.Digest) (e : Event)
    → check_signature c digest e ≡ ok tt
    → Verifies c digest e
unfolding check_signature
check_signature_sound c digest e h = ground arith

check_signature_complete :
    (c : Crypto) (digest : c.Digest) (e : Event)
    → Verifies c digest e
    → check_signature c digest e ≡ ok tt
unfolding check_signature
check_signature_complete c digest e (sig, msg, key, s, m, k, v) =
    rw (s, check_signature) (rw m (rw k (rw v)))

module _ (j : Json) (c : Crypto) where
  -- The event's id is the digest of its canonical text, and the signature verifies over that digest
  -- by the event's key.
  abbrev pub IsSigned : Event → Type 0
  IsSigned e =
      (text : String) × (to_canonical j e ≡ some text)
      × (e.id ≡ c.hex_digest (c.hash text))
      × Verifies c (c.hash text) e

  validate_sound : (e : Event) → validate j c e ≡ ok tt → IsSigned e
  unfolding validate
  validate_sound e h = elim (Option-cases (to_canonical j e)) [
    | inl nothing ↦ absurd (cc (rw (nothing, validate) at h))
    | inr (text, canonical) ↦
        let digest = c.hash text in
        (
          text,
          canonical,
          ground (arith, eq_iff e.id (c.hex_digest digest)),
          check_signature_sound c digest e (ground (arith, eq_iff e.id (c.hex_digest digest))),
        )
  ]

  validate_complete : (e : Event) → IsSigned e → validate j c e ≡ ok tt
  unfolding validate
  validate_complete e (text, canonical, same, signed) = ground (
    arith,
    eq_iff e.id (c.hex_digest (c.hash text)),
    check_signature_complete c (c.hash text) e signed,
  )

  -- `validate` accepts an event exactly when its id is the digest of its canonical text and its
  -- signature verifies over that digest by its key.
  pub validate_iff : (e : Event) → (validate j c e ≡ ok tt) ↔ IsSigned e
  validate_iff e = (validate_sound e, validate_complete e)
