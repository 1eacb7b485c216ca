-- ===== src/Subscription/Parse/Panics.antt =====
-- Where reading a filter panics (src/subscription.rs).
use text.Mathlib.Text.{starts_with}
use floonet_rs.Base.{
  String, len, ◌≡◌, refl, subst, ◌∙◌, inl, inr, true, false, none, some, List, [], ◌∷◌, ◌++◌, ◌==◌,
  string_eq, ok, returns, err, arith, eq_iff, panics, Bool-cases,
}
use floonet_rs.Subscription.{ReqFilter}
use floonet_rs.Subscription.Parse.{
  Values, Parse, ◌>>=◌, done, nth_char, empty_filter, tag_operand, set_tag, set_field, set_fields,
  parse_filter,
}

-- The key of a field by which a filter cannot be read: three bytes that begin with `#` and are fewer
-- than three characters.
abbrev pub IsFatalKey : String → Type 0
IsFatalKey key = (starts_with key "#" ≡ true) × (len key ≡ 3) × (nth_char key 2 ≡ none)

-- A key that begins with `#` is none of the names of the other fields.
hash_key-ne :
    (key name : String)
    → starts_with key "#" ≡ true
    → starts_with name "#" ≡ false
    → (key == name) ≡ false
hash_key-ne key name h k = elim (Bool-cases (key == name)) [
  | inl same ↦
      let e = (eq_iff key name).0 same in absurd (cc (subst (λ s. starts_with s "#" ≡ true) e h, k))
  | inr other ↦ other
]

set_tag_panics :
    (key : String) (texts : List String) (f : ReqFilter)
    → IsFatalKey key
    → set_tag key (some texts) f ≡ panics
unfolding set_tag
set_tag_panics key texts f (_, three, short) =
    rw (three, tag_operand) (rw (short, tag_operand) refl)

bind-eq-done :
    {A B : Type 0} (r : Parse A) (k : A → Parse B) {b : B}
    → (r >>= k) ≡ done b
    → (a : A) × (r ≡ done a) × (k a ≡ done b)
bind-eq-done panics k h = absurd (cc)
bind-eq-done (returns (err e)) k h = absurd (cc)
bind-eq-done (returns (ok a)) k h = (a, refl, h)

module _ (v : Values) where
  set_field_panics :
      (key : String) (val : v.Value) (items : List v.Value) (texts : List String) (f : ReqFilter)
      → v.as_array val ≡ some items
      → v.to_strings val ≡ some texts
      → IsFatalKey key
      → set_field v key val f ≡ panics
  unfolding set_field
  set_field_panics key val items texts f array strings fatal =
      let hash = fatal.0 in
      ground (
        arith,
        hash_key-ne key "ids" hash refl,
        hash_key-ne key "kinds" hash refl,
        hash_key-ne key "since" hash refl,
        hash_key-ne key "until" hash refl,
        hash_key-ne key "limit" hash refl,
        hash_key-ne key "authors" hash refl,
        set_tag_panics key texts f fatal,
      )

  fatal_first :
      (val : v.Value) (after : List (String × v.Value)) (g : ReqFilter) (key : String)
      (items : List v.Value) (texts : List String)
      → v.as_array val ≡ some items
      → v.to_strings val ≡ some texts
      → IsFatalKey key
      → set_fields v ((key, val) ∷ after) g ≡ panics
  unfolding set_fields
  fatal_first val after g key items texts array strings fatal =
      rw (set_field_panics key val items texts g array strings fatal)

  set_fields-append :
      (before after : List (String × v.Value)) (f g : ReqFilter)
      → set_fields v before f ≡ done g
      → set_fields v (before ++ after) f ≡ set_fields v after g
  unfolding set_fields
  set_fields-append [] after f g h = ground arith
  set_fields-append ((key, val) ∷ before) after f g h =
      let (next, here, later) = bind-eq-done (set_field v key val f) _ h in
      rw here (set_fields-append before after next g later)

  -- A filter panics if the fields before the fatal one are read, whatever stands after it.
  pub parse_filter_panics :
      (received val : v.Value) (before after : List (String × v.Value)) (g : ReqFilter)
      (key : String) (items : List v.Value) (texts : List String)
      → v.as_object received ≡ some (before ++ (key, val) ∷ after)
      → set_fields v before empty_filter ≡ done g
      → v.as_array val ≡ some items
      → v.to_strings val ≡ some texts
      → IsFatalKey key
      → parse_filter v received ≡ panics
  unfolding parse_filter
  parse_filter_panics received val before after g key items texts object read array strings fatal =
      rw (object, parse_filter)
        (set_fields-append before ((key, val) ∷ after) empty_filter g read
          ∙ fatal_first val after g key items texts array strings fatal)
