-- ===== src/NameAuthority/Nip98/Tags.antt =====
-- The age test and the loop over the tags of src/name_authority/nip98.rs.
use floonet_rs.Base.{
  ℕ, ◌+◌, ◌≤◌, ◌<◌, ◌≡◌, refl, sym, ap, ◌∙◌, subst, In, ◌↔◌, ◌⊎◌, inl, inr, String, Bool, false,
  Option, none, some, List, [], ◌∷◌, ◌==◌, nat_eq, string_eq, eq_iff, arith, Bool-cases,
  Option-cases, if◌then◌else◌,
}
use floonet_rs.NameAuthority.Nip98.{
  is_stale, Found, url_matches, read_tag, read_tags, eq_ignore_ascii_case,
}

-- With a clock that is in range and a limit that reaches no further back than the epoch, the age
-- test is that of whole numbers: at most the limit back, and at most five seconds ahead.
pub is_stale_iff :
    (now created_at max_age : ℕ)
    → now < 4611686018427387904
    → created_at < 18446744073709551616
    → max_age ≤ now
    → (is_stale now created_at max_age ≡ false)
      ↔ ((now ≤ created_at + max_age) × (created_at ≤ now + 5))
unfolding is_stale
is_stale_iff now created_at max_age small wide reach =
    (λ h. (ground arith, ground arith), λ (a, b). ground arith)

-- The value that the last tag of this name with a value has.
unfoldable pub last_named : String → List (List String) → Option String
last_named name [] = none
last_named name ((n ∷ v ∷ _) ∷ ts) = elim (last_named name ts) [
  | some w ↦ some w
  | none ↦ if n == name then some v else none
]
last_named name (_ ∷ ts) = last_named name ts

unfoldable pub holds_on : (String → Bool) → Bool → Option String → Bool
holds_on p before none = before
holds_on p before (some v) = p v

holds_on-last :
    (p : String → Bool) (before : Bool) (name n v : String) (vs : List String)
    (ts : List (List String))
    → holds_on p (if n == name then p v else before) (last_named name ts)
      ≡ holds_on p before (last_named name ((n ∷ v ∷ vs) ∷ ts))
unfolding last_named holds_on
holds_on-last p before name n v vs ts = elim (Option-cases (last_named name ts)) [
  | inl e ↦ elim (Bool-cases (n == name)) [ inl t ↦ rw (e, t) refl | inr f ↦ rw (e, f) refl ]
  | inr (w, e) ↦ rw e refl
]

module _ (expected method : String) where
  read_tag-u_ok :
      (n v : String) (vs : List String) (found : Found)
      → (read_tag expected method (n ∷ v ∷ vs) found).u_ok
        ≡ (if n == "u" then url_matches expected v else found.u_ok)
  unfolding read_tag
  read_tag-u_ok n v vs found = ground arith

  read_tag-method_ok :
      (n v : String) (vs : List String) (found : Found)
      → (read_tag expected method (n ∷ v ∷ vs) found).method_ok
        ≡ (if n == "method" then eq_ignore_ascii_case v method else found.method_ok)
  unfolding read_tag
  read_tag-method_ok n v vs found = elim (Bool-cases (n == "u")) [
    | inl e ↦
        subst
          (λ n'.
            (read_tag expected method (n' ∷ v ∷ vs) found).method_ok
            ≡ (if n' == "method" then eq_ignore_ascii_case v method else found.method_ok))
          (sym ((eq_iff n "u").0 e)) refl
    | inr e ↦ ground arith
  ]

  read_tag-alone :
      (n : String) (found : Found)
      → ((read_tag expected method (n ∷ []) found).u_ok ≡ found.u_ok)
        × ((read_tag expected method (n ∷ []) found).method_ok ≡ found.method_ok)
  unfolding read_tag
  read_tag-alone n found = (ground arith, ground arith)

  pub read_tags-u_ok :
      (tags : List (List String)) (found : Found)
      → (read_tags expected method tags found).u_ok
        ≡ holds_on (url_matches expected) found.u_ok (last_named "u" tags)
  unfolding read_tags last_named holds_on read_tag
  read_tags-u_ok [] found = refl
  read_tags-u_ok ([] ∷ ts) found = read_tags-u_ok ts (read_tag expected method [] found)
  read_tags-u_ok ((n ∷ []) ∷ ts) found =
      read_tags-u_ok ts (read_tag expected method (n ∷ []) found)
      ∙ ap (λ b. holds_on (url_matches expected) b (last_named "u" ts)) (read_tag-alone n found).0
  read_tags-u_ok ((n ∷ v ∷ vs) ∷ ts) found =
      read_tags-u_ok ts (read_tag expected method (n ∷ v ∷ vs) found)
      ∙ ap (λ b. holds_on (url_matches expected) b (last_named "u" ts)) (read_tag-u_ok n v vs found)
      ∙ holds_on-last (url_matches expected) found.u_ok "u" n v vs ts

  abbrev names_method : String → Bool
  names_method v = eq_ignore_ascii_case v method

  pub read_tags-method_ok :
      (tags : List (List String)) (found : Found)
      → (read_tags expected method tags found).method_ok
        ≡ holds_on names_method found.method_ok (last_named "method" tags)
  unfolding read_tags last_named holds_on read_tag
  read_tags-method_ok [] found = refl
  read_tags-method_ok ([] ∷ ts) found = read_tags-method_ok ts (read_tag expected method [] found)
  read_tags-method_ok ((n ∷ []) ∷ ts) found =
      read_tags-method_ok ts (read_tag expected method (n ∷ []) found)
      ∙ ap (λ b. holds_on names_method b (last_named "method" ts)) (read_tag-alone n found).1
  read_tags-method_ok ((n ∷ v ∷ vs) ∷ ts) found =
      read_tags-method_ok ts (read_tag expected method (n ∷ v ∷ vs) found)
      ∙ ap (λ b. holds_on names_method b (last_named "method" ts)) (read_tag-method_ok n v vs found)
      ∙ holds_on-last names_method found.method_ok "method" n v vs ts

  payload-step :
      (n w : String) (ws : List String) (found : Found) (v : String)
      → (read_tag expected method (n ∷ w ∷ ws) found).payload_hash ≡ some v
      → ((n ≡ "payload") × (w ≡ v)) ⊎ (found.payload_hash ≡ some v)
  unfolding read_tag
  payload-step n w ws found v h = ground (arith, eq_iff n "payload")

  -- The payload hash that is left stands in a tag.
  pub read_tags-payload :
      (tags : List (List String)) (found : Found) (v : String)
      → (read_tags expected method tags found).payload_hash ≡ some v
      → ((vs : List String) × In ("payload" ∷ v ∷ vs) tags) ⊎ (found.payload_hash ≡ some v)
  unfolding read_tags read_tag
  read_tags-payload [] found v h = inr h
  read_tags-payload ([] ∷ ts) found v h = elim (read_tags-payload ts found v h) [
    | inl (vs, there) ↦ inl (vs, inr there)
    | inr kept ↦ inr kept
  ]
  read_tags-payload ((n ∷ []) ∷ ts) found v h =
      elim (read_tags-payload ts (read_tag expected method (n ∷ []) found) v h) [
        | inl (vs, there) ↦ inl (vs, inr there)
        | inr kept ↦ inr (ground arith)
      ]
  read_tags-payload ((n ∷ w ∷ ws) ∷ ts) found v h =
      elim (read_tags-payload ts (read_tag expected method (n ∷ w ∷ ws) found) v h) [
        | inl (vs, there) ↦ inl (vs, inr there)
        | inr kept ↦ elim (payload-step n w ws found v kept) [
          | inl (name, value) ↦ inl (ws, inl (cc))
          | inr before ↦ inr before
        ]
      ]
