-- ===== src/Subscription/Parse.antt =====
-- Reading a REQ message: `Deserialize for ReqFilter` and `Deserialize for Subscription` of
-- src/subscription.rs. The values of serde_json and their conversions are a parameter. A call can
-- panic: `chars().nth(n).unwrap()` on a text that is too short.
pub mod Filters
pub mod Panics
use Prim.Native.Nat.{zero, suc}
use Prim.Native.String.{[], ◌∷◌}
use mathlib.Core.List.{foldr}
use text.Mathlib.Text.{starts_with}
use floonet_rs.Base.{
  ℕ, code, String, len, Bool, true, false, ◌&&◌, Option, none, some, List, [], ◌∷◌, ◌==◌, nat_eq,
  string_eq, ltb, if◌then◌else◌, contains, insert, Result, ok, err, Run, returns, panics, length,
}
use floonet_rs.Event.{TagOperand, and, or, set_insert}
use floonet_rs.Subscription.{ReqFilter, Subscription}
use floonet_rs.Subscription.Equality.{dedup}

-- serde_json: the views of a value that the source takes, and its conversions to plain data.
pub record Values : Type 1 where
  pub Value : Type 0
  pub as_object : Value → Option (List (String × Value))
  pub as_array : Value → Option (List Value)
  pub as_str : Value → Option String
  pub to_strings : Value → Option (List String)
  pub to_numbers : Value → Option (List ℕ)
  pub to_number : Value → Option ℕ

pub data ParseError : Type 0 where
  not_object empty_prefix not_array not_enough_fields command_not_string missing_req missing_id
        bad_filter :
      ParseError

abbrev pub Parse : Type 0 → Type 0
Parse A = Run (Result ParseError A)

infixl 5 ◌>>=◌
abbrev pub ◌>>=◌ : {A B : Type 0} → Parse A → (A → Parse B) → Parse B
panics >>= k = panics
returns (err e) >>= k = returns (err e)
returns (ok a) >>= k = k a

abbrev pub done : {A : Type 0} → A → Parse A
done a = returns (ok a)

abbrev pub fail : {A : Type 0} → ParseError → Parse A
fail e = returns (err e)

-- `s.chars().nth(n)`
abbrev pub nth_char : String → ℕ → Option ℕ
nth_char [] n = none
nth_char (c ∷ s) zero = some (code c)
nth_char (c ∷ s) (suc n) = nth_char s n

-- `v.into_iter().collect::<HashSet<_>>()`
unfoldable pub to_set : List String → List String
unfolding set_insert
to_set vs = foldr set_insert [] vs

abbrev pub empty_filter : ReqFilter
empty_filter = record {
  ids = none;
  kinds = none;
  since = none;
  until = none;
  authors = none;
  limit = none;
  tags = none;
  force_no_match = false;
}

set_ids : Option (List String) → ReqFilter → Parse ReqFilter
set_ids none f = done (record f { ids = none })
set_ids (some a) f = if contains a "" then fail empty_prefix else done (record f { ids = some a })

set_authors : Option (List String) → ReqFilter → Parse ReqFilter
set_authors none f = done (record f { authors = none })
set_authors (some a) f =
    if contains a "" then fail empty_prefix else done (record f { authors = some a })

abbrev or_empty : Option (List (ℕ × TagOperand)) → List (ℕ × TagOperand)
or_empty none = []
or_empty (some ts) = ts

-- The operand that a tag key asks for: `#x` or, in three bytes, `#x&`.
tag_operand : String → List String → Run (Option TagOperand)
tag_operand key hs =
    if len key == 2
    then returns (some (or hs))
    else if len key == 3
    then elim (nth_char key 2) [
      | none ↦ panics
      | some c ↦ returns (if c == b'&' then some (and hs) else none)
    ]
    else returns none

insert_operand : String → Run (Option TagOperand) → ReqFilter → Parse ReqFilter
insert_operand key panics f = panics
insert_operand key (returns none) f = done f
insert_operand key (returns (some op)) f = elim (nth_char key 1) [
  | none ↦ panics
  | some c ↦ done (record f { tags = some (insert c op (or_empty f.tags)) })
]

-- A tag key with an array initialises the map, also where nothing is put in it.
set_tag : String → Option (List String) → ReqFilter → Parse ReqFilter
unfolding tag_operand insert_operand to_set
set_tag key vals f =
    let g = record f { tags = some (or_empty f.tags) } in
    elim vals [ none ↦ done g | some v ↦ insert_operand key (tag_operand key (to_set v)) g ]

abbrev is_some {ℓ} : {A : Type ℓ} → Option A → Bool
is_some none = false
is_some (some a) = true

module _ (v : Values) where
  abbrev pub is_tag_key : String → v.Value → Bool
  is_tag_key key val =
      starts_with key "#" && ltb 1 (len key) && ltb (len key) 4 && is_some (v.as_array val)

  -- One round of the loop over the fields. The map `ts` of the source is the field `tags` here, which
  -- the source sets to `ts` at the end and does not read before.
  set_field : String → v.Value → ReqFilter → Parse ReqFilter
  unfolding set_ids set_authors set_tag
  set_field key val f =
      if key == "ids"
      then set_ids (v.to_strings val) f
      else if key == "kinds"
      then done (record f { kinds = v.to_numbers val })
      else if key == "since"
      then done (record f { since = v.to_number val })
      else if key == "until"
      then done (record f { until = v.to_number val })
      else if key == "limit"
      then done (record f { limit = v.to_number val })
      else if key == "authors"
      then set_authors (v.to_strings val) f
      else if is_tag_key key val
      then set_tag key (v.to_strings val) f
      else done f

  unfoldable pub set_fields : List (String × v.Value) → ReqFilter → Parse ReqFilter
  unfolding set_field
  set_fields [] f = done f
  set_fields ((key, val) ∷ rest) f = set_field key val f >>= λ g. set_fields rest g

  unfoldable pub parse_filter : v.Value → Parse ReqFilter
  unfolding set_fields
  parse_filter received = elim (v.as_object received) [
    | none ↦ fail not_object
    | some fields ↦ set_fields fields empty_filter
  ]

  -- Every error of a filter is the same error of the request.
  relabel : Parse ReqFilter → Parse ReqFilter
  relabel panics = panics
  relabel (returns (err e)) = fail bad_filter
  relabel (returns (ok f)) = done f

  unfoldable pub parse_filters : List v.Value → Parse (List ReqFilter)
  unfolding relabel
  parse_filters [] = done []
  parse_filters (x ∷ xs) = do f ← relabel (parse_filter x); fs ← parse_filters xs; done (f ∷ fs)

  -- `Deserialize for Subscription`: `["REQ", id, filter, …]`.
  unfoldable pub parse_subscription : v.Value → Parse Subscription
  parse_subscription received = elim (v.as_array received) [
    | none ↦ fail not_array
    | some (cmd ∷ sub_id ∷ f ∷ rest) ↦ elim (v.as_str cmd) [
      | none ↦ fail command_not_string
      | some req ↦
          if req == "REQ"
          then elim (v.as_str sub_id) [
            | none ↦ fail missing_id
            | some id ↦ do
              filters ← parse_filters (f ∷ rest)
              done (record { id = id; filters = dedup filters })
          ]
          else fail missing_req
    ]
    | some _ ↦ fail not_enough_fields
  ]
