-- ===== src/Event/Integrity.antt =====
-- What the id of a valid event determines (src/event.rs, `validate` and `to_canonical`).
use floonet_rs.Base.{String, ◌≡◌, refl, sym, ◌∙◌, subst, some, List, [], ◌∷◌, map, ok}
use floonet_rs.Event.{Event, Json, Crypto, to_canonical, validate}
use floonet_rs.Event.Validation.{validate_iff}

abbrev pub IsInjective : {A : Type 0} {B : Type 0} → (A → B) → Type 0
IsInjective {A} {B} f = (a b : A) → f a ≡ f b → a ≡ b

cons-head : {A : Type 0} {x y : A} {xs ys : List A} → (x ∷ xs) ≡ (y ∷ ys) → x ≡ y
cons-head e = cc

cons-tail : {A : Type 0} {x y : A} {xs ys : List A} → (x ∷ xs) ≡ (y ∷ ys) → xs ≡ ys
cons-tail e = cc

map-IsInjective : {A : Type 0} {B : Type 0} (f : A → B) → IsInjective f → IsInjective (map f)
map-IsInjective f inj [] [] e = refl
map-IsInjective f inj [] (y ∷ ys) e = absurd (cc)
map-IsInjective f inj (x ∷ xs) [] e = absurd (cc)
map-IsInjective f inj (x ∷ xs) (y ∷ ys) e =
    let head = inj x y (cons-head e) in let tail = map-IsInjective f inj xs ys (cons-tail e) in cc

-- JSON values of one form are equal only if what they are built from is.
pub record IsFaithful (j : Json) : Type 0 where
  pub number : IsInjective j.number
  pub string : IsInjective j.string
  pub array : IsInjective j.array

module _ (j : Json) (c : Crypto) where
  -- The array of NIP-01 whose text is hashed.
  abbrev pub serialization : Event → j.Value
  serialization e = j.array (
      j.number 0
      ∷ j.string e.pubkey
      ∷ j.number e.created_at
      ∷ j.number e.kind
      ∷ j.array (map (λ t. j.array (map j.string t)) e.tags)
      ∷ j.string e.content
      ∷ [])

  -- The digests of the texts of two events tell the texts apart.
  abbrev pub NoCollision : Event → Event → Type 0
  NoCollision e f =
      (s t : String)
      → j.to_string (serialization e) ≡ some s
      → j.to_string (serialization f) ≡ some t
      → c.hex_digest (c.hash s) ≡ c.hex_digest (c.hash t)
      → s ≡ t

  -- The arrays of two events are equal if their texts are.
  abbrev pub PrintsApart : Event → Event → Type 0
  PrintsApart e f =
      (s : String)
      → j.to_string (serialization e) ≡ some s
      → j.to_string (serialization f) ≡ some s
      → serialization e ≡ serialization f

  serialization_determines :
      (e f : Event)
      → IsFaithful j
      → serialization e ≡ serialization f
      → (e.pubkey ≡ f.pubkey)
        × (e.created_at ≡ f.created_at)
        × (e.kind ≡ f.kind)
        × (e.tags ≡ f.tags)
        × (e.content ≡ f.content)
  serialization_determines e f faithful same =
      let after_zero = cons-tail (faithful.array _ _ same) in
      let after_pubkey = cons-tail after_zero in
      let after_time = cons-tail after_pubkey in
      let after_kind = cons-tail after_time in
      let each = λ (a b : List String) (p : j.array (map j.string a) ≡ j.array (map j.string b)).
        map-IsInjective j.string faithful.string a b (faithful.array _ _ p) in
      (
        faithful.string _ _ (cons-head after_zero),
        faithful.number _ _ (cons-head after_pubkey),
        faithful.number _ _ (cons-head after_time),
        map-IsInjective (λ t. j.array (map j.string t)) each e.tags f.tags
            (faithful.array _ _ (cons-head after_kind)),
        faithful.string _ _ (cons-head (cons-tail after_kind)),
      )

  -- Two events that `validate` accepts and that have the same id have the same author, time, kind, tags
  -- and content, if the digests of their canonical texts do not collide, their texts tell their JSON
  -- arrays apart, and equal JSON values are built from equal parts (IsFaithful).
  pub validate-same_id :
      (e f : Event)
      → IsFaithful j
      → NoCollision e f
      → PrintsApart e f
      → validate j c e ≡ ok tt
      → validate j c f ≡ ok tt
      → e.id ≡ f.id
      → (e.pubkey ≡ f.pubkey)
        × (e.created_at ≡ f.created_at)
        × (e.kind ≡ f.kind)
        × (e.tags ≡ f.tags)
        × (e.content ≡ f.content)
  unfolding to_canonical
  validate-same_id e f faithful collides prints valid valid1 same =
      let (s, of_e, id, signed) = (validate_iff j c e).0 valid in
      let (t, of_f, id1, signed1) = (validate_iff j c f).0 valid1 in
      let one = collides s t of_e of_f (sym id ∙ same ∙ id1) in
      serialization_determines e f faithful
        (prints s of_e (subst (λ x. j.to_string (serialization f) ≡ some x) (sym one) of_f))
