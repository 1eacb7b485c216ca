-- ===== src/Subscription/Parse/Filters.antt =====
-- What holds of a filter that was read (src/subscription.rs).
use mathlib.Core.List.{foldr}
use floonet_rs.Base.{
  ℕ, String, ◌≡◌, refl, subst, ◌∙◌, inl, inr, Bool, true, false, Option, none, some, List, [], ◌∷◌,
  ◌==◌, nat_eq, string_eq, contains, contains_iff, In, All, insert, Distinct, ok, err, returns,
  panics, Run, len, Option-cases, Bool-cases, if◌then◌else◌,
}
use floonet_rs.Event.{TagOperand, and, or, set_insert}
use floonet_rs.Event.Index.{Distinct-set_insert}
use floonet_rs.Subscription.{ReqFilter}
use floonet_rs.Subscription.Parse.{
  Values, Parse, ◌>>=◌, nth_char, to_set, empty_filter, set_ids, set_authors, or_empty, tag_operand,
  insert_operand, set_tag, is_tag_key, set_field, set_fields, parse_filter,
}

-- The set of a tag query holds nothing twice.
abbrev pub IsSetOperand : TagOperand → Type 0
IsSetOperand (and vs) = Distinct vs
IsSetOperand (or vs) = Distinct vs

abbrev pub NoEmpty : Option (List String) → Type 0
NoEmpty none = Unit
NoEmpty (some vs) = ¬ In "" vs

abbrev pub Operands : Option (List (ℕ × TagOperand)) → Type 0
Operands none = Unit
Operands (some ts) = All (λ (t : ℕ × TagOperand). IsSetOperand t.1) ts

-- A filter as the parser leaves it: no empty prefix of an id or an author, sets without repetition,
-- and nothing that forces it to match no event.
pub record IsParsed (f : ReqFilter) : Type 0 where
  pub ids : NoEmpty f.ids
  pub authors : NoEmpty f.authors
  pub tags : Operands f.tags
  pub not_forced : f.force_no_match ≡ false

Distinct-to_set : (vs : List String) → Distinct (to_set vs)
unfolding to_set
Distinct-to_set [] = tt
Distinct-to_set (v ∷ vs) = Distinct-set_insert v (foldr set_insert [] vs) (Distinct-to_set vs)

Operands-insert :
    (c : ℕ) (op : TagOperand) (ts : List (ℕ × TagOperand))
    → IsSetOperand op
    → All (λ (t : ℕ × TagOperand). IsSetOperand t.1) ts
    → All (λ (t : ℕ × TagOperand). IsSetOperand t.1) (insert c op ts)
unfolding insert
Operands-insert c op [] h k = (h, tt)
Operands-insert c op ((j, w) ∷ ts) h (k, ks) = elim (Bool-cases (j == c)) [
  | inl same ↦ rw same (h, ks)
  | inr other ↦ rw other (k, Operands-insert c op ts h ks)
]

-- `P` holds of what is read, if something is.
abbrev pub Yields : {A : Type 0} → (A → Type 0) → Parse A → Type 0
Yields P panics = Unit
Yields P (returns (err e)) = Unit
Yields P (returns (ok a)) = P a

set_ids-IsParsed :
    (o : Option (List String)) (f : ReqFilter) → IsParsed f → Yields IsParsed (set_ids o f)
unfolding set_ids
set_ids-IsParsed none f p = record {
  ids = tt;
  authors = p.authors;
  tags = p.tags;
  not_forced = p.not_forced;
}
set_ids-IsParsed (some a) f p = elim (Bool-cases (contains a "")) [
  | inl bad ↦ rw bad tt
  | inr fine ↦ rw fine (record {
    ids = λ m. cc (fine, (contains_iff a "").1 m);
    authors = p.authors;
    tags = p.tags;
    not_forced = p.not_forced;
  })
]

set_authors-IsParsed :
    (o : Option (List String)) (f : ReqFilter) → IsParsed f → Yields IsParsed (set_authors o f)
unfolding set_authors
set_authors-IsParsed none f p = record {
  ids = p.ids;
  authors = tt;
  tags = p.tags;
  not_forced = p.not_forced;
}
set_authors-IsParsed (some a) f p = elim (Bool-cases (contains a "")) [
  | inl bad ↦ rw bad tt
  | inr fine ↦ rw fine (record {
    ids = p.ids;
    authors = λ m. cc (fine, (contains_iff a "").1 m);
    tags = p.tags;
    not_forced = p.not_forced;
  })
]

-- Every operand that a key asks for is over the set that was collected.
abbrev OnSet : Run (Option TagOperand) → Type 0
OnSet (returns (some op)) = IsSetOperand op
OnSet _ = Unit

tag_operand-OnSet : (key : String) (hs : List String) → Distinct hs → OnSet (tag_operand key hs)
unfolding tag_operand
tag_operand-OnSet key hs d = elim (Bool-cases (len key == 2)) [
  | inl two ↦ rw two d
  | inr not_two ↦ rw not_two (elim (Bool-cases (len key == 3)) [
    | inl three ↦ rw three (elim (Option-cases (nth_char key 2)) [
      | inl short ↦ rw short tt
      | inr (c, there) ↦
          rw there (elim (Bool-cases (c == b'&')) [ inl amp ↦ rw amp d | inr other ↦ rw other tt ])
    ])
    | inr neither ↦ rw neither tt
  ])
]

or_empty-Operands :
    (o : Option (List (ℕ × TagOperand)))
    → Operands o
    → All (λ (t : ℕ × TagOperand). IsSetOperand t.1) (or_empty o)
or_empty-Operands none h = tt
or_empty-Operands (some ts) h = h

insert_operand-IsParsed :
    (key : String) (r : Run (Option TagOperand)) (f : ReqFilter)
    → OnSet r
    → IsParsed f
    → Yields IsParsed (insert_operand key r f)
unfolding insert_operand
insert_operand-IsParsed key panics f d p = tt
insert_operand-IsParsed key (returns none) f d p = p
insert_operand-IsParsed key (returns (some op)) f d p = elim (Option-cases (nth_char key 1)) [
  | inl short ↦ rw (short, Yields) tt
  | inr (c, there) ↦
      rw (there, Yields)
        (record {
          ids = p.ids;
          authors = p.authors;
          tags = Operands-insert c op (or_empty f.tags) d (or_empty-Operands f.tags p.tags);
          not_forced = p.not_forced;
        })
]

set_tag-IsParsed :
    (key : String) (o : Option (List String)) (f : ReqFilter)
    → IsParsed f
    → Yields IsParsed (set_tag key o f)
unfolding set_tag
set_tag-IsParsed key o f p =
    let g = record f { tags = some (or_empty f.tags) } in
    let q : IsParsed g = record {
      ids = p.ids;
      authors = p.authors;
      tags = or_empty-Operands f.tags p.tags;
      not_forced = p.not_forced;
    } in
    elim o as (λ vals. Yields IsParsed (set_tag key vals f)) [
      | none ↦ q
      | some v ↦
          insert_operand-IsParsed key (tag_operand key (to_set v)) g
            (tag_operand-OnSet key (to_set v) (Distinct-to_set v)) q
    ]

Yields-if :
    {A : Type 0} (P : A → Type 0) (b : Bool) (r s : Parse A)
    → Yields P r
    → Yields P s
    → Yields P (if b then r else s)
Yields-if P true r s h k = h
Yields-if P false r s h k = k

-- A change of the other fields keeps what holds of these.
IsParsed-keep :
    (f g : ReqFilter)
    → IsParsed f
    → (g.ids ≡ f.ids)
      × (g.authors ≡ f.authors)
      × (g.tags ≡ f.tags)
      × (g.force_no_match ≡ f.force_no_match)
    → IsParsed g
IsParsed-keep f g p (i, a, t, n) = record {
  ids = rw i p.ids;
  authors = rw a p.authors;
  tags = rw t p.tags;
  not_forced = n ∙ p.not_forced;
}

Yields-bind :
    {A B : Type 0} (P : A → Type 0) (Q : B → Type 0) (r : Parse A) (k : A → Parse B)
    → Yields P r
    → ((a : A) → P a → Yields Q (k a))
    → Yields Q (r >>= k)
Yields-bind P Q panics k h f = tt
Yields-bind P Q (returns (err e)) k h f = tt
Yields-bind P Q (returns (ok a)) k h f = f a h

module _ (v : Values) where
  set_field-IsParsed :
      (key : String) (val : v.Value) (f : ReqFilter)
      → IsParsed f
      → Yields IsParsed (set_field v key val f)
  unfolding set_field
  set_field-IsParsed key val f p =
      let branch = Yields-if IsParsed in
      branch (key == "ids") _ _ (set_ids-IsParsed (v.to_strings val) f p) (
        branch (key == "kinds") _ _ (IsParsed-keep f _ p (refl, refl, refl, refl)) (
          branch (key == "since") _ _ (IsParsed-keep f _ p (refl, refl, refl, refl)) (
            branch (key == "until") _ _ (IsParsed-keep f _ p (refl, refl, refl, refl)) (
              branch (key == "limit") _ _ (IsParsed-keep f _ p (refl, refl, refl, refl)) (
                branch (key == "authors") _ _ (set_authors-IsParsed (v.to_strings val) f p) (
                  branch (is_tag_key v key val) _ _ (set_tag-IsParsed key (v.to_strings val) f p)
                    p))))))

  set_fields-IsParsed :
      (fields : List (String × v.Value)) (f : ReqFilter)
      → IsParsed f
      → Yields IsParsed (set_fields v fields f)
  unfolding set_fields
  set_fields-IsParsed [] f p = p
  set_fields-IsParsed ((key, val) ∷ rest) f p =
      Yields-bind IsParsed IsParsed (set_field v key val f) (λ g. set_fields v rest g)
        (set_field-IsParsed key val f p) (λ g q. set_fields-IsParsed rest g q)

  -- Whatever its fields, a filter that is read has no empty prefix, sets without repetition, and
  -- `force_no_match` unset.
  pub parse_filter-IsParsed :
      (received : v.Value) (f : ReqFilter) → parse_filter v received ≡ returns (ok f) → IsParsed f
  unfolding parse_filter
  parse_filter-IsParsed received f h = elim (Option-cases (v.as_object received)) [
    | inl nothing ↦ absurd (cc (rw (nothing, parse_filter) at h))
    | inr (fields, object) ↦
        let read = rw (object, parse_filter) at h in
        subst (Yields IsParsed) read (
          set_fields-IsParsed fields empty_filter
            (record { ids = tt; authors = tt; tags = tt; not_forced = refl }))
  ]
