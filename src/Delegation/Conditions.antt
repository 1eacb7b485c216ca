-- ===== src/Delegation/Conditions.antt =====
-- What the conditions of a delegation require of an event (src/delegation.rs).
use floonet_rs.Base.{
  ℕ, ◌<◌, ◌≡◌, refl, ◌↔◌, inl, inr, true, not, List, [], ◌∷◌, ◌==◌, nat_eq, arith, all, all_iff,
  All, In, All-imp, contains, contains_iff, Bool-cases,
}
use floonet_rs.Event.{Event}
use floonet_rs.Delegation.{
  Operator, less_than, greater_than, equals, not_equals, Condition, ConditionQuery, resolve,
  compare_values, condition_allows, allows_event,
}

-- The meaning of an operator: `<` and `>` want exactly one bound, `=` a value that is listed, `!`
-- a value that is not.
abbrev pub Meets : Operator → ℕ → List ℕ → Type 0
Meets less_than x vs = (v : ℕ) × (vs ≡ v ∷ []) × (x < v)
Meets greater_than x vs = (v : ℕ) × (vs ≡ v ∷ []) × (v < x)
Meets equals x vs = In x vs
Meets not_equals x vs = ¬ In x vs

abbrev pub Satisfies : Event → Condition → Type 0
Satisfies e c = Meets c.operator (resolve c.field e) c.values

all-not-contains : (x : ℕ) (vs : List ℕ) → all (λ v. not (x == v)) vs ≡ not (contains vs x)
all-not-contains x [] = refl
all-not-contains x (v ∷ vs) = ground (arith, all-not-contains x vs)

compare_values_iff :
    (op : Operator) (x : ℕ) (vs : List ℕ) → (compare_values op x vs ≡ true) ↔ Meets op x vs
unfolding compare_values
compare_values_iff less_than x [] = (λ h. cc, λ (v, e, l). cc)
compare_values_iff less_than x (v ∷ []) = (λ h. (v, refl, ground arith), λ (w, e, l). ground arith)
compare_values_iff less_than x (v ∷ w ∷ vs) = (λ h. cc, λ (u, e, l). cc)
compare_values_iff greater_than x [] = (λ h. cc, λ (v, e, l). cc)
compare_values_iff greater_than x (v ∷ []) =
    (λ h. (v, refl, ground arith), λ (w, e, l). ground arith)
compare_values_iff greater_than x (v ∷ w ∷ vs) = (λ h. cc, λ (u, e, l). cc)
compare_values_iff equals x vs = contains_iff vs x
compare_values_iff not_equals x vs =
    let listed = contains_iff vs x in
    rw (all-not-contains x vs) (
      λ h m. let there = listed.1 m in ground arith,
      λ h. elim (Bool-cases (contains vs x)) [
        | inl yes' ↦ absurd (h (listed.0 yes'))
        | inr no' ↦ rw no'
      ],
    )

-- A query allows an event exactly when the event satisfies every condition of it.
pub allows_event_iff :
    (q : ConditionQuery) (e : Event) → (allows_event q e ≡ true) ↔ All (Satisfies e) q.conditions
unfolding allows_event
allows_event_iff q e =
    let each = all_iff (λ c. condition_allows c e) q.conditions in
    let one = λ (c : Condition). compare_values_iff c.operator (resolve c.field e) c.values in
    (
      λ h. All-imp q.conditions (λ c. (one c).0) (each.0 h),
      λ h. each.1 (All-imp q.conditions (λ c. (one c).1) h),
    )
