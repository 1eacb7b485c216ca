-- ===== src/Admission/GiftWrap.antt =====
-- The guard on gift wraps (src/admission.rs).
use floonet_rs.Base.{
  String, len, ◌≡◌, refl, ◌↔◌, inl, inr, true, false, List, [], ◌∷◌, ◌==◌, nat_eq, string_eq, arith,
  eq_iff, any, length, Bool-cases,
}
use floonet_rs.Event.{Event, first_is}
use floonet_rs.Utils.Hex.{AllChars, IsLowerHexDigit, is_lower_hex_iff}
use floonet_rs.Admission.{allow, gift_wrap_kind, check_gift_wrap, p_pubkeys, recipient_ok}

-- The tags of a gift wrap: one, a `p` tag whose value is 64 digits of lower-case hexadecimal.
abbrev pub IsWrapTags : List (List String) → Type 0
IsWrapTags ((n ∷ v ∷ _) ∷ []) = (n ≡ "p") × (len v ≡ 64) × AllChars IsLowerHexDigit v
IsWrapTags _ = ⊥

recipient_iff :
    (v : String) → (recipient_ok (v ∷ []) ≡ true) ↔ ((len v ≡ 64) × AllChars IsLowerHexDigit v)
unfolding recipient_ok
recipient_iff v =
    let digits = is_lower_hex_iff v in
    (
      λ h. (ground arith, digits.0 (ground arith)),
      λ (sixty_four, lower). let d = digits.1 lower in ground arith,
    )

wrap_tags_sound :
    (ts : List (List String))
    → any (first_is "expiration") ts ≡ false
    → recipient_ok (p_pubkeys ts) ≡ true
    → length ts ≡ 1
    → IsWrapTags ts
unfolding p_pubkeys recipient_ok
wrap_tags_sound ((n ∷ v ∷ r) ∷ []) h k l = elim (Bool-cases (n == "p")) [
  | inl named ↦
      let (size, digits) = (recipient_iff v).0 (ground arith) in
      ((eq_iff n "p").0 named, size, digits)
  | inr other ↦ absurd (ground arith)
]
wrap_tags_sound ((n ∷ []) ∷ []) h k l = cc
wrap_tags_sound ([] ∷ []) h k l = cc
wrap_tags_sound [] h k l = cc
wrap_tags_sound (t ∷ u ∷ ts) h k l = absurd (omega arith)

wrap_tags_complete :
    (ts : List (List String))
    → IsWrapTags ts
    → (any (first_is "expiration") ts ≡ false)
      × (recipient_ok (p_pubkeys ts) ≡ true)
      × (length ts ≡ 1)
unfolding p_pubkeys
wrap_tags_complete [] h = absurd h
wrap_tags_complete ([] ∷ ts) h = absurd h
wrap_tags_complete ((n ∷ []) ∷ ts) h = absurd h
wrap_tags_complete ((n ∷ v ∷ r) ∷ t ∷ ts) h = absurd h
wrap_tags_complete ((n ∷ v ∷ r) ∷ []) (named, size, digits) =
    let ok_recipient = (recipient_iff v).1 (size, digits) in rw named (refl, ok_recipient, refl)

module _ (e : Event) (wrap : e.kind ≡ gift_wrap_kind) where
  -- A gift wrap passes exactly when it carries one tag, and that names a recipient by 64 digits of
  -- lower-case hexadecimal.
  pub gift_wrap_iff : (check_gift_wrap e ≡ allow) ↔ IsWrapTags e.tags
  unfolding check_gift_wrap
  gift_wrap_iff = (
    λ h. wrap_tags_sound e.tags (ground arith) (ground arith) (ground arith),
    λ h. let (no_expiration, recipient, one_tag) = wrap_tags_complete e.tags h in ground arith,
  )
