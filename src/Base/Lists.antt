-- ===== src/Base/Lists.antt =====
-- Lists: lengths and positions by native numbers, Boolean searches and what they decide.
use Prim.Native.Nat.{ℕ, zero, suc}
use mathlib.Core.Path.{◌≡◌, refl, sym, subst}
use mathlib.Core.Logic.{◌↔◌, ◌⊎◌, inl, inr}
use mathlib.Core.Bool.{Bool, true, false, ◌&&◌, ◌||◌, and-eq-true_iff}
use mathlib.Core.Option.{Option, none, some}
use mathlib.Core.List.{List, [], ◌∷◌, ◌++◌}
use native.Mathlib.Omega.{arith}
use floonet_rs.Base.Tests.{Eq, ◌==◌, if◌then◌else◌, Bool-cases}

module _ {ℓ} {A : Type ℓ} where
  abbrev pub length : List A → ℕ
  length [] = 0
  length (x ∷ xs) = suc (length xs)

  abbrev pub get_elem? : List A → ℕ → Option A
  get_elem? [] i = none
  get_elem? (x ∷ xs) zero = some x
  get_elem? (x ∷ xs) (suc i) = get_elem? xs i

  abbrev pub any : (A → Bool) → List A → Bool
  any p [] = false
  any p (x ∷ xs) = p x || any p xs

  abbrev pub all : (A → Bool) → List A → Bool
  all p [] = true
  all p (x ∷ xs) = p x && all p xs

  -- `iter().filter(p).collect()`
  abbrev pub filter : (A → Bool) → List A → List A
  filter p [] = []
  filter p (x ∷ xs) = let rest = filter p xs in if p x then x ∷ rest else rest

  -- `iter().filter(p).next()`
  abbrev pub find : (A → Bool) → List A → Option A
  find p [] = none
  find p (x ∷ xs) = let rest = find p xs in if p x then some x else rest

-- Predicates on the elements, which compute to products and sums.
module _ {A : Type 0} where
  abbrev pub All : (A → Type 0) → List A → Type 0
  All P [] = Unit
  All P (x ∷ xs) = P x × All P xs

  abbrev pub Any : (A → Type 0) → List A → Type 0
  Any P [] = ⊥
  Any P (x ∷ xs) = P x ⊎ Any P xs

  -- `x` stands in the list.
  abbrev pub In : A → List A → Type 0
  In x = Any (λ y. x ≡ y)

module _ {A : Type 0} {P Q : A → Type 0} where
  pub All-imp : (xs : List A) → ((x : A) → P x → Q x) → All P xs → All Q xs
  All-imp [] f h = h
  All-imp (x ∷ xs) f h = (f x h.0, All-imp xs f h.1)

  pub Any-imp : (xs : List A) → ((x : A) → P x → Q x) → Any P xs → Any Q xs
  Any-imp [] f h = h
  Any-imp (x ∷ xs) f (inl h) = inl (f x h)
  Any-imp (x ∷ xs) f (inr h) = inr (Any-imp xs f h)

module _ {A : Type 0} (P : A → Type 0) where
  pub All-at : (xs : List A) {x : A} → All P xs → In x xs → P x
  All-at [] h m = absurd m
  All-at (y ∷ ys) h (inl e) = subst P (sym e) h.0
  All-at (y ∷ ys) h (inr m) = All-at ys h.1 m

  pub All-of_In : (xs : List A) → ((x : A) → In x xs → P x) → All P xs
  All-of_In [] f = tt
  All-of_In (y ∷ ys) f = (f y (inl refl), All-of_In ys (λ x m. f x (inr m)))

  pub All-append_iff : (xs ys : List A) → All P (xs ++ ys) ↔ (All P xs × All P ys)
  All-append_iff [] ys = (λ h. (tt, h), λ h. h.1)
  All-append_iff (x ∷ xs) ys =
      let ih = All-append_iff xs ys in
      (λ h. let (l, r) = ih.0 h.1 in ((h.0, l), r), λ h. (h.0.0, ih.1 (h.0.1, h.1)))

  pub Any-of_In : (xs : List A) {x : A} → In x xs → P x → Any P xs
  Any-of_In [] m p = absurd m
  Any-of_In (y ∷ ys) (inl e) p = inl (subst P e p)
  Any-of_In (y ∷ ys) (inr m) p = inr (Any-of_In ys m p)

  -- The element at which an `Any` holds.
  pub Any_witness : (xs : List A) → Any P xs → (x : A) × In x xs × P x
  Any_witness [] h = absurd h
  Any_witness (y ∷ ys) (inl p) = (y, inl refl, p)
  Any_witness (y ∷ ys) (inr h) = let (x, m, p) = Any_witness ys h in (x, inr m, p)

pub or-eq-true_iff : (a b : Bool) → ((a || b) ≡ true) ↔ ((a ≡ true) ⊎ (b ≡ true))
or-eq-true_iff true b = (λ h. inl refl, λ h. refl)
or-eq-true_iff false b = (λ h. inr h, elim [ inl h ↦ cc | inr h ↦ h ])

module _ {A : Type 0} (p : A → Bool) where
  pub any_iff : (xs : List A) → (any p xs ≡ true) ↔ Any (λ x. p x ≡ true) xs
  any_iff [] = (λ h. cc, λ h. absurd h)
  any_iff (x ∷ xs) =
      let ih = any_iff xs in
      let split = or-eq-true_iff (p x) (any p xs) in
      (
        λ h. elim (split.0 h) [ inl e ↦ inl e | inr e ↦ inr (ih.0 e) ],
        elim [ inl e ↦ split.1 (inl e) | inr e ↦ split.1 (inr (ih.1 e)) ],
      )

  pub all_iff : (xs : List A) → (all p xs ≡ true) ↔ All (λ x. p x ≡ true) xs
  all_iff [] = (λ h. tt, λ h. refl)
  all_iff (x ∷ xs) =
      let ih = all_iff xs in
      let split = and-eq-true_iff (p x) (all p xs) in
      (λ h. let (e, r) = split.0 h in (e, ih.0 r), λ h. split.1 (h.0, ih.1 h.1))

module _ {A : Type 0} ⦃eq : Eq A⦄ where
  -- `Vec::contains`
  abbrev pub contains : List A → A → Bool
  contains xs a = any (λ x. a == x) xs

  pub contains_iff : (xs : List A) (a : A) → (contains xs a ≡ true) ↔ In a xs
  contains_iff xs a =
      let any_test = any_iff (λ x. a == x) xs in
      (
        λ h. Any-imp xs (λ x. (eq.same_iff a x).0) (any_test.0 h),
        λ h. any_test.1 (Any-imp xs (λ x. (eq.same_iff a x).1) h),
      )

-- What `find` returns stands in the list and passes the test.
pub find-eq-some :
    {A : Type 0} (p : A → Bool) (xs : List A) (x : A) → find p xs ≡ some x → In x xs × (p x ≡ true)
find-eq-some p [] x h = cc
find-eq-some p (y ∷ ys) x h = elim (Bool-cases (p y)) [
  | inl hit ↦ let e : y ≡ x = ground arith in (inl (sym e), rw (← e) hit)
  | inr miss ↦ let (m, q) = find-eq-some p ys x (ground arith) in (inr m, q)
]

-- `find` returns nothing exactly when nothing passes the test.
pub find-eq-none_iff :
    {A : Type 0} (p : A → Bool) (xs : List A) → (find p xs ≡ none) ↔ (any p xs ≡ false)
find-eq-none_iff p [] = (λ h. refl, λ h. refl)
find-eq-none_iff p (y ∷ ys) =
    let ih = find-eq-none_iff p ys in (ground (arith, ih.0), ground (arith, ih.1))
