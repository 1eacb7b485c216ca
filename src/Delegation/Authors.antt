-- ===== src/Delegation/Authors.antt =====
-- Who is taken for the author of a delegated event (src/event.rs, src/delegation.rs).
use floonet_rs.Base.{
  String, ◌≡◌, refl, ◌↔◌, inl, inr, true, Option, none, some, List, [], ◌∷◌, string_eq, arith,
  eq_iff, find, In, find-eq-some, Run, returns, panics, Option-cases,
}
use floonet_rs.Event.{Event, Crypto}
use floonet_rs.Delegation.{
  ConditionQuery, allows_event, Captures, parse_query, delegation_token, validate_delegation,
  accept, is_delegation, author_of, delegated_author, update_delegation,
}

module _ (captures : Captures) (c : Crypto) where
  -- The delegator signed the token that names the delegatee and the conditions.
  abbrev pub Approved : String → String → String → String → Type 0
  Approved delegator delegatee query sigstr =
      (sig : c.Signature) × (msg : c.Message) × (key : c.PublicKey) × (c.signature sigstr
        ≡ some sig)
      × (c.message (c.hash (delegation_token delegatee query)) ≡ some msg)
      × (c.public_key delegator ≡ some key)
      × (c.verify_schnorr sig msg key ≡ true)

  validate_delegation_sound :
      (delegator delegatee query sigstr : String) (q : ConditionQuery)
      → validate_delegation captures c delegator delegatee query sigstr ≡ returns (some q)
      → Approved delegator delegatee query sigstr × (parse_query captures query ≡ some q)
  unfolding validate_delegation
  validate_delegation_sound delegator delegatee query sigstr q h = (ground arith, ground arith)

  -- A tag by which the key `d` delegates to the author of the event.
  abbrev pub Delegates : Event → String → List String → Type 0
  Delegates e d (n ∷ d' ∷ query ∷ sigstr ∷ []) =
      (n ≡ "delegation")
      × (d' ≡ d)
      × Approved d e.pubkey query sigstr
      × ((q : ConditionQuery) × (parse_query captures query ≡ some q) × (allows_event q e ≡ true))
  Delegates e d _ = ⊥

  accept_sound :
      (delegator d : String) (e : Event) (r : Run (Option ConditionQuery))
      → accept delegator e r ≡ returns (some d)
      → (delegator ≡ d)
        × ((q : ConditionQuery) × (r ≡ returns (some q)) × (allows_event q e ≡ true))
  unfolding accept
  accept_sound delegator d e panics h = absurd (cc)
  accept_sound delegator d e (returns none) h = absurd (cc)
  accept_sound delegator d e (returns (some q)) h = (ground arith, (q, refl, ground arith))

  author_of_sound :
      (e : Event) (d : String) (t : List String)
      → is_delegation t ≡ true
      → author_of captures c e (some t) ≡ returns (some d)
      → Delegates e d t
  unfolding author_of
  author_of_sound e d (n ∷ d' ∷ query ∷ sigstr ∷ []) named h =
      let (same, checked) = accept_sound d' d e _ h in
      let (q, valid, allowed) = checked in
      let (approved, parsed) = validate_delegation_sound d' e.pubkey query sigstr q valid in
      ((eq_iff n "delegation").0 named, same, rw same at approved, (q, parsed, allowed))
  author_of_sound e d [] named h = cc
  author_of_sound e d (a ∷ []) named h = cc
  author_of_sound e d (a ∷ b ∷ []) named h = cc
  author_of_sound e d (a ∷ b ∷ f ∷ []) named h = cc
  author_of_sound e d (a ∷ b ∷ f ∷ g ∷ k ∷ r) named h = cc

  -- An event is attributed to a delegator only if one of its tags delegates to its author: signed by
  -- the delegator, with conditions that parse and that the event meets.
  pub delegated_author_sound :
      (e : Event) (d : String)
      → delegated_author captures c e ≡ returns (some d)
      → (t : List String) × In t e.tags × Delegates e d t
  unfolding delegated_author author_of
  delegated_author_sound e d h = elim (Option-cases (find is_delegation e.tags)) [
    | inl nothing ↦ absurd (cc (rw (nothing, author_of) at h))
    | inr (t, found) ↦
        let (here, named) = find-eq-some is_delegation e.tags t found in
        (t, here, author_of_sound e d t named (rw (found, delegated_author) at h))
  ]

  -- A signature that does not parse, in the delegation tag that is found, is a panic: nothing else
  -- of the event matters.
  pub delegated_author_panics :
      (e : Event) (n d query sigstr : String)
      → find is_delegation e.tags ≡ some (n ∷ d ∷ query ∷ sigstr ∷ [])
      → (update_delegation captures c e ≡ panics) ↔ (c.signature sigstr ≡ none)
  unfolding update_delegation delegated_author validate_delegation author_of accept
  delegated_author_panics e n d query sigstr found = (ground arith, ground arith)
