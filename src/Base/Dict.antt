-- ===== src/Base/Dict.antt =====
-- Hash maps of the source as association lists: a key stands at most once after `insert`s.
use mathlib.Core.Path.{◌≡◌, refl, subst}
use mathlib.Core.Logic.{inl, inr}
use mathlib.Core.Option.{Option, none, some}
use mathlib.Core.Bool.{Bool, true, false}
use mathlib.Core.List.{List, [], ◌∷◌}
use native.Mathlib.Omega.{arith}
use Prim.Native.Nat.{◌+◌, ◌≤◌}
use floonet_rs.Base.Tests.{Eq, ◌==◌, if◌then◌else◌, Bool-cases}
use floonet_rs.Base.Lists.{length, All, filter}

module _ {ℓ} {K V : Type ℓ} ⦃eq : Eq K⦄ where
  -- `get`
  unfoldable pub lookup : K → List (K × V) → Option V
  lookup key [] = none
  lookup key ((k, found) ∷ rest) =
      let later = lookup key rest in if k == key then some found else later

  -- Every entry of the key is left out.
  unfoldable pub remove : K → List (K × V) → List (K × V)
  remove key [] = []
  remove key ((k, value) ∷ rest) =
      let kept = remove key rest in if k == key then kept else (k, value) ∷ kept

  -- The first entry of the key is replaced; without one, the new entry goes to the end.
  unfoldable pub insert : K → V → List (K × V) → List (K × V)
  insert key value [] = (key, value) ∷ []
  insert key value ((k, old) ∷ rest) =
      let later = insert key value rest in
      if k == key then (key, value) ∷ rest else (k, old) ∷ later

  -- What a key gives after an `insert`.
  pub lookup-insert :
      (key other : K) (value : V) (entries : List (K × V))
      → lookup other (insert key value entries)
        ≡ (if key == other then some value else lookup other entries)
  unfolding insert lookup
  lookup-insert key other value [] = refl
  lookup-insert key other value ((k, old) ∷ rest) =
      let ih = lookup-insert key other value rest in
      ground (arith, eq.same_iff k other, eq.same_iff key other, eq.same_iff k key)

  pub lookup-insert-same : (k : K) (v : V) (m : List (K × V)) → lookup k (insert k v m) ≡ some v
  lookup-insert-same k v m = let step = lookup-insert k k v m in ground (arith, eq.same_iff k k)

  pub lookup-remove :
      (k j : K) (m : List (K × V)) → lookup j (remove k m) ≡ (if k == j then none else lookup j m)
  unfolding lookup remove
  lookup-remove k j [] = ground arith
  lookup-remove k j ((i, w) ∷ m) =
      ground (arith, eq.same_iff k j, eq.same_iff i k, eq.same_iff i j, lookup-remove k j m)

  -- No key stands twice.
  unfoldable pub IsMap : List (K × V) → Type ℓ
  IsMap [] = Unit
  IsMap ((k, v) ∷ m) = (lookup k m ≡ none) × IsMap m

  pub insert-IsMap : (k : K) (v : V) (m : List (K × V)) → IsMap m → IsMap (insert k v m)
  unfolding insert lookup IsMap
  insert-IsMap k v [] h = (refl, tt)
  insert-IsMap k v ((i, w) ∷ m) (fresh, rest) = elim (Bool-cases (i == k)) [
    | inl e ↦
        let same : i ≡ k = (eq.same_iff i k).0 e in
        rw e (subst (λ a. lookup a m ≡ none) same fresh, rest)
    | inr e ↦ rw e (
      (let step = lookup-insert k i v m in ground (arith, eq.same_iff k i, eq.same_iff i k)),
      insert-IsMap k v m rest,
    )
  ]

  pub remove-IsMap : (k : K) (m : List (K × V)) → IsMap m → IsMap (remove k m)
  unfolding remove lookup IsMap
  remove-IsMap k [] h = tt
  remove-IsMap k ((i, w) ∷ m) (fresh, rest) = elim (Bool-cases (i == k)) [
    | inl e ↦ rw e (remove-IsMap k m rest)
    | inr e ↦ rw e ((let step = lookup-remove k i m in ground arith), remove-IsMap k m rest)
  ]

  pub length-insert-le : (k : K) (v : V) (m : List (K × V)) → length (insert k v m) ≤ length m + 1
  unfolding insert
  length-insert-le k v [] = omega arith
  length-insert-le k v ((i, w) ∷ m) = ground (arith, length-insert-le k v m)

  pub length-remove-le : (k : K) (m : List (K × V)) → length (remove k m) ≤ length m
  unfolding remove
  length-remove-le k [] = omega arith
  length-remove-le k ((i, w) ∷ m) = ground (arith, length-remove-le k m)

  pub length-remove-present :
      (k : K) (m : List (K × V)) (v : V) → lookup k m ≡ some v → length (remove k m) + 1 ≤ length m
  unfolding remove lookup
  length-remove-present k [] v h = absurd (cc)
  length-remove-present k ((i, w) ∷ m) v h =
      let weak = length-remove-le k m in
      elim (Bool-cases (i == k)) [
        | inl e ↦ rw e (omega arith)
        | inr e ↦
            let there : lookup k m ≡ some v = rw e at h in
            let rest = length-remove-present k m v there in rw e (omega arith)
      ]

module _ {K V : Type 0} ⦃eq : Eq K⦄ (P : K × V → Type 0) where
  pub All-insert : (k : K) (v : V) (m : List (K × V)) → P (k, v) → All P m → All P (insert k v m)
  unfolding insert
  All-insert k v [] p h = (p, tt)
  All-insert k v ((i, w) ∷ m) p (q, rest) = elim (Bool-cases (i == k)) [
    | inl e ↦ rw e (p, rest)
    | inr e ↦ rw e (q, All-insert k v m p rest)
  ]

  pub All-remove : (k : K) (m : List (K × V)) → All P m → All P (remove k m)
  unfolding remove
  All-remove k [] h = tt
  All-remove k ((i, w) ∷ m) (q, rest) = elim (Bool-cases (i == k)) [
    | inl e ↦ rw e (All-remove k m rest)
    | inr e ↦ rw e (q, All-remove k m rest)
  ]

module _ {K V : Type 0} ⦃eq : Eq K⦄ (p : V → Bool) where
  pub lookup-filter-kept :
      (k : K) (v : V) (m : List (K × V))
      → lookup k m ≡ some v
      → p v ≡ true
      → lookup k (filter (λ entry. p entry.1) m) ≡ some v
  unfolding lookup
  lookup-filter-kept k v [] h t = absurd (cc)
  lookup-filter-kept k v ((i, w) ∷ m) h t = ground (arith, lookup-filter-kept k v m)

  pub lookup-filter-none :
      (k : K) (m : List (K × V))
      → lookup k m ≡ none
      → lookup k (filter (λ entry. p entry.1) m) ≡ none
  unfolding lookup
  lookup-filter-none k [] h = refl
  lookup-filter-none k ((i, w) ∷ m) h = ground (arith, lookup-filter-none k m)

  pub lookup-filter-dropped :
      (k : K) (v : V) (m : List (K × V))
      → IsMap m
      → lookup k m ≡ some v
      → p v ≡ false
      → lookup k (filter (λ entry. p entry.1) m) ≡ none
  unfolding lookup IsMap
  lookup-filter-dropped k v [] u h t = absurd (cc)
  lookup-filter-dropped k v ((i, w) ∷ m) (fresh, u) h t = elim (Bool-cases (i == k)) [
    | inl e ↦
        let gone : lookup k m ≡ none =
          subst (λ a. lookup a m ≡ none) ((eq.same_iff i k).0 e) fresh in
        ground (arith, lookup-filter-none k m gone)
    | inr e ↦ ground (arith, lookup-filter-dropped k v m u)
  ]

  pub filter-IsMap : (m : List (K × V)) → IsMap m → IsMap (filter (λ entry. p entry.1) m)
  unfolding IsMap
  filter-IsMap [] u = tt
  filter-IsMap ((i, w) ∷ m) (fresh, u) = elim (Bool-cases (p w)) [
    | inl e ↦ rw e (lookup-filter-none i m fresh, filter-IsMap m u)
    | inr e ↦ rw e (filter-IsMap m u)
  ]
