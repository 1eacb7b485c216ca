-- ===== src/NameAuthority/Names/Laws.antt =====
-- What the rules on names of src/name_authority/names.rs decide.
use Prim.Native.String.count
use Prim.Native.String.{[], ◌∷◌}
use floonet_rs.Base.{
  ℕ, ◌≤◌, ◌<◌, ◌≡◌, refl, ap, ◌≢◌, ◌↔◌, ◌⊎◌, inl, inr, Char, code, String, count, Bool, true, ◌||◌,
  some, List, [], ◌∷◌, ◌==◌, nat_eq, string_eq, if◌then◌else◌, All, All-at, subst, any, contains,
  contains_iff, returns, panics, arith, eq_iff, Bool-cases, Option-cases, and-eq-true_iff, In,
  any_iff, Any_witness, Any-of_In, or-eq-true_iff,
}
use floonet_rs.Utils.{all_chars}
use floonet_rs.Utils.Hex.{AllChars, all_chars_iff}
use floonet_rs.NameAuthority.Names.{
  reserved, name_char, alphanumeric, last_char, ends_alphanumeric, valid_name, fold_char, push_kept,
  fold_lookalike, is_reserved,
}

abbrev pub IsAlphanumeric : ℕ → Type 0
IsAlphanumeric c = ((b'a' ≤ c) × (c ≤ b'z')) ⊎ ((b'0' ≤ c) × (c ≤ b'9'))

abbrev pub IsNameChar : ℕ → Type 0
IsNameChar c = IsAlphanumeric c ⊎ ((c ≡ b'.') ⊎ ((c ≡ b'_') ⊎ (c ≡ b'-')))

-- The text is not empty, and neither end of it is a separator.
abbrev pub HasEnds : String → Type 0
HasEnds [] = ⊥
HasEnds (c ∷ s) = IsAlphanumeric (code c) × IsAlphanumeric (code (last_char c s))

-- The rules on names: bounds on the number of characters, the characters, and the two ends.
pub record IsName (name_min name_max : ℕ) (name : String) : Type 0 where
  pub at_least : name_min ≤ count name
  pub at_most : count name ≤ name_max
  pub chars : AllChars IsNameChar name
  pub ends : HasEnds name

name_char_iff : (c : ℕ) → (name_char c ≡ true) ↔ IsNameChar c
name_char_iff c = ground arith

alphanumeric_iff : (c : ℕ) → (alphanumeric c ≡ true) ↔ IsAlphanumeric c
alphanumeric_iff c = ground arith

run_inj : {a b : Bool} → returns a ≡ returns b → a ≡ b
run_inj h = cc

ends_iff : (s : String) → (ends_alphanumeric s ≡ returns true) ↔ HasEnds s
unfolding ends_alphanumeric
ends_iff [] = (λ h. absurd (cc), λ h. absurd h)
ends_iff (c ∷ s) =
    let split = and-eq-true_iff (alphanumeric (code c)) (alphanumeric (code (last_char c s))) in
    (
      λ h.
          let (a, b) = split.0 (run_inj h) in
          ((alphanumeric_iff (code c)).0 a, (alphanumeric_iff (code (last_char c s))).0 b),
      λ (a, b). ap returns (
          split.1 ((alphanumeric_iff (code c)).1 a, (alphanumeric_iff (code (last_char c s))).1 b)),
    )

-- `valid_name` accepts exactly the texts that keep the rules.
pub valid_name_iff :
    (name : String) (name_min name_max : ℕ)
    → (valid_name name name_min name_max ≡ returns true) ↔ IsName name_min name_max name
unfolding valid_name
valid_name_iff name name_min name_max =
    let chars_iff = all_chars_iff name_char IsNameChar name_char_iff name in
    let last = ends_iff name in
    (
      λ h. elim (Bool-cases (all_chars name_char name)) [
        | inl e ↦ record {
          at_least = ground arith;
          at_most = ground arith;
          chars = chars_iff.0 e;
          ends = last.0 (ground arith);
        }
        | inr e ↦ absurd (ground arith)
      ],
      λ n.
          let e = chars_iff.1 n.chars in
          let f = last.1 n.ends in ground (arith, n.at_least, n.at_most),
    )

-- With a positive lower bound `valid_name` indexes no empty text, so it does not panic.
pub valid_name_total :
    (name : String) (name_min name_max : ℕ)
    → 0 < name_min
    → valid_name name name_min name_max ≢ panics
unfolding valid_name ends_alphanumeric
valid_name_total [] name_min name_max pos h = ground (arith, count.nil)
valid_name_total (c ∷ s) name_min name_max pos h = ground arith

abbrev letters : List Char
letters = "o" ∷ "i" ∷ "e" ∷ "a" ∷ "s" ∷ "t" ∷ "b" ∷ "g" ∷ []

fold_char-In : (c d : Char) → fold_char c ≡ some d → (c ≡ d) ⊎ In d letters
unfolding fold_char
fold_char-In c d h = ground arith

letters-kept : All (λ d. fold_char d ≡ some d) letters
unfolding fold_char
letters-kept = (refl, (refl, (refl, (refl, (refl, (refl, (refl, (refl, tt))))))))

-- A character that another one is folded to is folded no further.
fold_char-again : (c d : Char) → fold_char c ≡ some d → fold_char d ≡ some d
fold_char-again c d h = elim (fold_char-In c d h) [
  | inl same ↦ subst (λ x. fold_char x ≡ some d) same h
  | inr letter ↦ All-at (λ x. fold_char x ≡ some x) letters letters-kept letter
]

-- Folding a folded name changes nothing.
pub fold_idempotent : (s : String) → fold_lookalike (fold_lookalike s) ≡ fold_lookalike s
unfolding fold_lookalike
fold_idempotent [] = refl
fold_idempotent (c ∷ s) = elim (Option-cases (fold_char c)) [
  | inl dropped ↦ rw dropped (fold_idempotent s)
  | inr (d, kept) ↦
      rw (kept, fold_char-again c d kept) (ap (push_kept (some d)) (fold_idempotent s))
]

-- The test of one list by the folded name.
any_folds_iff :
    (name : String) (names : List String)
    → (any (λ (r : String). fold_lookalike r == fold_lookalike name) names ≡ true)
      ↔ ((r : String) × In r names × (fold_lookalike r ≡ fold_lookalike name))
any_folds_iff name names =
    let test : String → Bool = λ r. fold_lookalike r == fold_lookalike name in
    (
      λ h.
          let (r, there, same) =
            Any_witness (λ r. test r ≡ true) names ((any_iff test names).0 h) in
          (r, there, (eq_iff (fold_lookalike r) (fold_lookalike name)).0 same),
      λ h.
          let (r, there, same) = h in
          (any_iff test names).1 (
            Any-of_In (λ r. test r ≡ true) names there
              ((eq_iff (fold_lookalike r) (fold_lookalike name)).1 same)),
    )

-- The direct tests for the name find nothing that the folded ones do not.
direct-folds :
    (name : String) (builtin extra : List String)
    → (contains builtin name || any (λ (r : String). r == name) extra) ≡ true
    → (r : String) × (In r builtin ⊎ In r extra) × (fold_lookalike r ≡ fold_lookalike name)
direct-folds name builtin extra h = elim ((or-eq-true_iff _ _).0 h) [
  | inl e ↦ (name, inl ((contains_iff builtin name).0 e), refl)
  | inr e ↦
      let (r, there, same) =
        Any_witness (λ (r : String). (r == name) ≡ true) extra
          ((any_iff (λ (r : String). r == name) extra).0 e) in
      (r, inr there, ap fold_lookalike ((eq_iff r name).0 same))
]

reserved_by_iff :
    (name : String) (builtin extra : List String)
    → ((if contains builtin name || any (λ (r : String). r == name) extra
          then true
          else any (λ (r : String). fold_lookalike r == fold_lookalike name) builtin
            || any (λ (r : String). fold_lookalike r == fold_lookalike name) extra)
        ≡ true)
      ↔ ((r : String) × (In r builtin ⊎ In r extra) × (fold_lookalike r ≡ fold_lookalike name))
reserved_by_iff name builtin extra =
    let direct = contains builtin name || any (λ (r : String). r == name) extra in
    (
      λ h. elim (Bool-cases direct) [
        | inl e ↦ direct-folds name builtin extra e
        | inr e ↦
            let folds : (any (λ (r : String). fold_lookalike r == fold_lookalike name) builtin
                  || any (λ (r : String). fold_lookalike r == fold_lookalike name) extra)
                ≡ true =
              rw e at h in
            elim ((or-eq-true_iff _ _).0 folds) [
              | inl a ↦
                  let (r, there, same) = (any_folds_iff name builtin).0 a in (r, inl there, same)
              | inr a ↦
                  let (r, there, same) = (any_folds_iff name extra).0 a in (r, inr there, same)
            ]
      ],
      λ h.
          let (r, there, same) = h in
          elim (Bool-cases direct) [
            | inl e ↦ rw e refl
            | inr e ↦ rw e (
                (or-eq-true_iff _ _).1 (elim there [
                  | inl t ↦ inl ((any_folds_iff name builtin).1 (r, t, same))
                  | inr t ↦ inr ((any_folds_iff name extra).1 (r, t, same))
                ]))
          ],
    )

-- A name is reserved exactly when it folds to what a reserved name folds to, be it a built-in one
-- or one of the operator's.
pub is_reserved_iff :
    (name : String) (extra : List String)
    → (is_reserved name extra ≡ true)
      ↔ ((r : String) × (In r reserved ⊎ In r extra) × (fold_lookalike r ≡ fold_lookalike name))
unfolding is_reserved
is_reserved_iff name extra = reserved_by_iff name reserved extra
