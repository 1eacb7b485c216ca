-- ===== src/Base/Sets.antt =====
-- Sets as lists in which nothing stands twice: how many elements two of them share.
use Prim.Native.Nat.{◌+◌, ◌≤◌}
use mathlib.Core.Path.{◌≡◌, refl}
use mathlib.Core.Logic.{◌↔◌, inl, inr}
use mathlib.Core.Bool.{Bool, true, false}
use mathlib.Core.List.{List, [], ◌∷◌}
use native.Mathlib.Omega.{arith}
use floonet_rs.Base.Tests.{Eq, ◌==◌, if◌then◌else◌, Bool-cases, nat_beq, ltb}
use floonet_rs.Base.Lists.{length, filter, contains, contains_iff, any, all, In}

module _ {A : Type 0} where
  abbrev pub Distinct : List A → Type 0
  Distinct [] = Unit
  Distinct (x ∷ xs) = ¬ In x xs × Distinct xs

  pub length-filter-le : (p : A → Bool) (xs : List A) → length (filter p xs) ≤ length xs
  length-filter-le p [] = omega arith
  length-filter-le p (x ∷ xs) = ground (arith, length-filter-le p xs)

  -- A filter that drops nothing is one whose test always holds.
  pub length-filter-eq_iff :
      (p : A → Bool) (xs : List A)
      → (nat_beq (length (filter p xs)) (length xs) ≡ true) ↔ (all p xs ≡ true)
  length-filter-eq_iff p [] = (λ h. refl, λ h. refl)
  length-filter-eq_iff p (x ∷ xs) =
      let ih = length-filter-eq_iff p xs in
      let bound = length-filter-le p xs in (ground (arith, ih.0, bound), ground (arith, ih.1))

  pub length-filter-pos_iff :
      (p : A → Bool) (xs : List A) → (ltb 0 (length (filter p xs)) ≡ true) ↔ (any p xs ≡ true)
  length-filter-pos_iff p [] = (λ h. cc, λ h. cc)
  length-filter-pos_iff p (x ∷ xs) =
      let ih = length-filter-pos_iff p xs in (ground (arith, ih.0), ground (arith, ih.1))

module _ {A : Type 0} ⦃eq : Eq A⦄ where
  -- One more element in the set counts once more, if the other set has it.
  length-filter-cons :
      (x : A) (s v : List A)
      → ¬ In x s
      → Distinct v
      → length (filter (contains (x ∷ s)) v)
        ≡ length (filter (contains s) v) + (if contains v x then 1 else 0)
  length-filter-cons x s [] fresh d = omega arith
  length-filter-cons x s (y ∷ v) fresh (new, d) = elim (Bool-cases (y == x)) [
    | inl same ↦
        let e = (eq.same_iff y x).0 same in
        let absent : contains s y ≡ false = elim (Bool-cases (contains s y)) [
          | inl h ↦ absurd (fresh (rw (← e) ((contains_iff s y).0 h)))
          | inr h ↦ h
        ] in
        let later : contains v x ≡ false = elim (Bool-cases (contains v x)) [
          | inl h ↦ absurd (new (rw e ((contains_iff v x).0 h)))
          | inr h ↦ h
        ] in
        ground (arith, length-filter-cons x s v fresh d, eq.same_iff x y, eq.same_iff y x)
    | inr other ↦ ground (arith, length-filter-cons x s v fresh d, eq.same_iff x y, eq.same_iff y x)
  ]

  filter-contains-nil : (v : List A) → length (filter (contains []) v) ≡ 0
  filter-contains-nil [] = refl
  filter-contains-nil (y ∷ v) = filter-contains-nil v

  -- Counting the shared elements on either side gives the same number.
  pub length-filter_comm :
      (s v : List A)
      → Distinct s
      → Distinct v
      → length (filter (contains v) s) ≡ length (filter (contains s) v)
  length-filter_comm [] v ds dv = omega (arith, filter-contains-nil v)
  length-filter_comm (x ∷ s) v (fresh, ds) dv =
      ground (arith, length-filter-cons x s v fresh dv, length-filter_comm s v ds dv)
