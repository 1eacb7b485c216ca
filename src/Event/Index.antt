-- ===== src/Event/Index.antt =====
-- The tag index of src/event.rs against the tags that it is built from.
pub mod Query
use Prim.Native.String.{[], ◌∷◌}
use mathlib.Core.List.{foldl}
use mathlib.Core.Option
use floonet_rs.Base.{
  ℕ, code, String, ◌≡◌, refl, sym, ap, ◌∙◌, ◌≢◌, ◌↔◌, ◌⊎◌, inl, inr, Bool, true, false, Option,
  none, some, List, [], ◌∷◌, ◌==◌, nat_eq, string_eq, arith, eq_iff, length, filter, any, all,
  contains, contains_iff, any_iff, all_iff, All, Any, In, All-imp, Any-imp, All-of_In, All-at,
  Any_witness, Any-of_In, lookup, insert, lookup-insert, Distinct, length-filter-eq_iff,
  length-filter-pos_iff, length-filter_comm, Bool-cases, Option-cases, if◌then◌else◌, nat_beq_iff,
  ltb,
}
use floonet_rs.Event.{
  Event, TagOperand, and, or, single_char_tagname, set_insert, index_tag, build_index, common,
  operand_intersects, generic_tag_val_intersect,
}

-- Building the index leaves the tags as they are.
pub tags-build_index : (e : Event) → (build_index e).tags ≡ e.tags
unfolding build_index
tags-build_index e = ground arith

-- The tag has the one-letter name `c`, and `v` is its first value.
abbrev pub Carries : ℕ → String → List String → Type 0
Carries c v (n ∷ w ∷ _) = (single_char_tagname n ≡ some c) × (v ≡ w)
Carries c v _ = ⊥

-- Some tag of the event has the one-letter name `c` and the value `v`.
abbrev pub HasTag : Event → ℕ → String → Type 0
HasTag e c v = Any (Carries c v) e.tags

abbrev Index : Type 0
Index = List (ℕ × List String)

-- The values that an index has for a name.
values : Index → ℕ → List String
values idx c = Option.get_or (lookup c idx) []

In-set_insert : (v w : String) (vs : List String) → In v (set_insert w vs) ↔ ((v ≡ w) ⊎ In v vs)
unfolding set_insert
In-set_insert v w vs = elim (Bool-cases (contains vs w)) [
  | inl old ↦ rw old ((λ m. inr m), elim [ inl e ↦ rw e ((contains_iff vs w).0 old) | inr m ↦ m ])
  | inr new ↦ rw new ((λ m. m), (λ m. m))
]

pub Distinct-set_insert : (w : String) (vs : List String) → Distinct vs → Distinct (set_insert w vs)
unfolding set_insert
Distinct-set_insert w vs d = elim (Bool-cases (contains vs w)) [
  | inl old ↦ rw old d
  | inr new ↦ rw new ((λ m. cc (new, (contains_iff vs w).1 m)), d)
]

-- Inserting under one name, as the values of every name see it.
values-insert :
    (idx : Index) (k c : ℕ) (vs : List String)
    → values (insert k vs idx) c ≡ (if k == c then vs else values idx c)
unfolding values
values-insert idx k c vs = rw lookup-insert (ground arith)

-- Where `k` is the name of the new value `w`.
In-named :
    (idx : Index) (k c : ℕ) (v w : String)
    → In v (if k == c then set_insert w (values idx k) else values idx c)
      ↔ (In v (values idx c) ⊎ (◌≡◌ {A = Option ℕ} (some k) (some c)) × (v ≡ w))
In-named idx k c v w = elim (Bool-cases (k == c)) [
  | inl same ↦
      let e = (nat_beq_iff k c).0 same in
      rw same (
        (λ m. elim ((In-set_insert v w (values idx k)).0 m) [
          | inl new ↦ inr (ap some e, new)
          | inr old ↦ inl (rw e at old)
        ]),
        elim [
          | inl old ↦ (In-set_insert v w (values idx k)).1 (inr (rw (← e) at old))
          | inr (_, new) ↦ (In-set_insert v w (values idx k)).1 (inl new)
        ],
      )
  | inr other ↦ rw other ((λ m. inl m), elim [ inl m ↦ m | inr (s, _) ↦ absurd (ground arith) ])
]

-- One tag adds its value under its name, and nothing else.
In-index_tag :
    (idx : Index) (c : ℕ) (v : String) (t : List String)
    → In v (values (index_tag idx t) c) ↔ (In v (values idx c) ⊎ Carries c v t)
unfolding index_tag values
In-index_tag idx c v [] = ((λ m. inl m), elim [ inl m ↦ m | inr m ↦ absurd m ])
In-index_tag idx c v (n ∷ []) = ((λ m. inl m), elim [ inl m ↦ m | inr m ↦ absurd m ])
In-index_tag idx c v (n ∷ w ∷ r) = elim (Option-cases (single_char_tagname n)) [
  | inl e ↦ rw (e, index_tag) ((λ m. inl m), elim [ inl m ↦ m | inr (a, b) ↦ cc a ])
  | inr (k, e) ↦ rw (e, index_tag, values-insert) (In-named idx k c v w)
]

-- The whole loop: a value stands under a name exactly when it did before or a tag carries it.
In-index :
    (idx : Index) (c : ℕ) (v : String) (ts : List (List String))
    → In v (values (foldl index_tag idx ts) c) ↔ (In v (values idx c) ⊎ Any (Carries c v) ts)
In-index idx c v [] = ((λ m. inl m), elim [ inl m ↦ m | inr m ↦ absurd m ])
In-index idx c v (t ∷ ts) =
    let ih = In-index (index_tag idx t) c v ts in
    let one = In-index_tag idx c v t in
    (
      λ m. elim (ih.0 m) [
        | inl before ↦ elim (one.0 before) [ inl old ↦ inl old | inr now ↦ inr (inl now) ]
        | inr later ↦ inr (inr later)
      ],
      elim [
        | inl old ↦ ih.1 (inl (one.1 (inl old)))
        | inr (inl now) ↦ ih.1 (inl (one.1 (inr now)))
        | inr (inr later) ↦ ih.1 (inr later)
      ],
    )

Distinct-index_tag :
    (idx : Index) (t : List String)
    → ((c : ℕ) → Distinct (values idx c))
    → (c : ℕ) → Distinct (values (index_tag idx t) c)
unfolding index_tag values
Distinct-index_tag idx [] d c = d c
Distinct-index_tag idx (n ∷ []) d c = d c
Distinct-index_tag idx (n ∷ w ∷ r) d c = elim (Option-cases (single_char_tagname n)) [
  | inl e ↦ rw (e, index_tag) (d c)
  | inr (k, e) ↦
      rw (e, index_tag, values-insert)
        (elim (Bool-cases (k == c)) [
          | inl same ↦ rw same (Distinct-set_insert w (values idx k) (d k))
          | inr other ↦ rw other (d c)
        ])
]

Distinct-index :
    (idx : Index) (ts : List (List String))
    → ((c : ℕ) → Distinct (values idx c))
    → (c : ℕ) → Distinct (values (foldl index_tag idx ts) c)
Distinct-index idx [] d c = d c
Distinct-index idx (t ∷ ts) d c = Distinct-index (index_tag idx t) ts (Distinct-index_tag idx t d) c
