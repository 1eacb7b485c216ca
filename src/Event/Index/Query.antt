-- ===== src/Event/Index/Query.antt =====
-- What a tag query finds in the index of src/event.rs.
use mathlib.Core.List.{foldl}
use floonet_rs.Base.{
  ℕ, String, ◌≡◌, refl, ◌↔◌, inl, inr, true, false, none, List, [], ◌∷◌, nat_eq, string_eq, arith,
  contains, contains_iff, any_iff, all_iff, All, Any, In, All-imp, Any_witness, Any-of_In, lookup,
  Distinct, length-filter-eq_iff, length-filter-pos_iff, length-filter_comm,
}
use floonet_rs.Event.{
  Event, TagOperand, and, or, index_tag, build_index, operand_intersects, generic_tag_val_intersect,
}
use floonet_rs.Event.Index.{HasTag, values, In-index, Distinct-index}

-- The values that the built index has for a name.
built : Event → ℕ → List String
built e c = values (foldl index_tag [] e.tags) c

In-built : (e : Event) (c : ℕ) (v : String) → In v (built e c) ↔ HasTag e c v
unfolding built values lookup
In-built e c v =
    let loop = In-index [] c v e.tags in
    (λ m. elim (loop.0 m) [ inl old ↦ absurd old | inr t ↦ t ], λ t. loop.1 (inr t))

Distinct-built : (e : Event) (c : ℕ) → Distinct (built e c)
unfolding built values lookup
Distinct-built e c = Distinct-index [] e.tags (λ k. tt) c

-- A name that the index lacks has no values, which fails every query that asks for something.
intersect-build_index :
    (e : Event) (c : ℕ) (check : TagOperand)
    → e.tagidx ≡ none
    → operand_intersects [] check ≡ false
    → generic_tag_val_intersect (build_index e) c check ≡ operand_intersects (built e c) check
unfolding generic_tag_val_intersect build_index built values lookup
intersect-build_index e c check fresh asks = ground arith

contains-In : (e : Event) (c : ℕ) (v : String) → (contains (built e c) v ≡ true) ↔ HasTag e c v
contains-In e c v =
    let here = contains_iff (built e c) v in
    let there = In-built e c v in (λ h. there.0 (here.0 h), λ t. here.1 (there.1 t))

-- An OR query matches a freshly indexed event exactly when one of its values is the first value of
-- a tag of that name.
pub or_iff :
    (e : Event) (c : ℕ) (vs : List String)
    → e.tagidx ≡ none
    → (generic_tag_val_intersect (build_index e) c (or vs) ≡ true) ↔ Any (HasTag e c) vs
unfolding operand_intersects
or_iff e c vs fresh = rw (intersect-build_index e c (or vs) fresh refl) (
  λ h.
      let (v, stored, asked) =
        Any_witness _ (built e c)
          ((any_iff _ (built e c)).0 ((length-filter-pos_iff _ (built e c)).0 h)) in
      Any-of_In (HasTag e c) vs ((contains_iff vs v).0 asked) ((In-built e c v).0 stored),
  λ h.
      let (v, asked, tagged) = Any_witness _ vs h in
      (length-filter-pos_iff _ (built e c)).1 (
        (any_iff _ (built e c)).1 (
          Any-of_In (λ x. contains vs x ≡ true) (built e c) ((In-built e c v).1 tagged)
            ((contains_iff vs v).1 asked))),
)

-- An AND query for a set of values, at least one, matches exactly when every one of them is the
-- first value of a tag of that name.
pub and_iff :
    (e : Event) (c : ℕ) (v : String) (vs : List String)
    → e.tagidx ≡ none
    → Distinct (v ∷ vs)
    → (generic_tag_val_intersect (build_index e) c (and (v ∷ vs)) ≡ true)
      ↔ All (HasTag e c) (v ∷ vs)
unfolding operand_intersects
and_iff e c v vs fresh d =
    let set = v ∷ vs in
    let counted = length-filter_comm (built e c) set (Distinct-built e c) d in
    let full = length-filter-eq_iff (contains (built e c)) set in
    rw (intersect-build_index e c (and set) fresh (ground arith), counted)
      (
        λ h. All-imp set (λ x. (contains-In e c x).0) ((all_iff _ set).0 (full.0 h)),
        λ h. full.1 ((all_iff _ set).1 (All-imp set (λ x. (contains-In e c x).1) h)),
      )
