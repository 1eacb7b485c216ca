-- ===== src/Delegation.antt =====
-- src/delegation.rs: delegated authorship and its conditions. The regular expression engine is a
-- parameter: `captures` gives the three groups of the pattern that `str_to_condition` compiles.
pub mod Conditions
pub mod Authors
use Prim.Native.String
use Prim.Native.String.{[], ◌∷◌}
use floonet_rs.Base.{
  ℕ, code, String, Bool, true, false, not, Option, none, some, List, [], ◌∷◌, ◌==◌, nat_eq,
  string_eq, ltb, if◌then◌else◌, length, any, all, find, Run, returns, panics,
}
use floonet_rs.Utils.{parse_u64}
use floonet_rs.Event.{Event, Crypto, first_is}

pub data Field : Type 0 where
  kind created_at : Field

pub data Operator : Type 0 where
  less_than greater_than equals not_equals : Operator

pub record Condition : Type 0 where
  pub field : Field
  pub operator : Operator
  pub values : List ℕ

pub record ConditionQuery : Type 0 where
  pub conditions : List Condition

-- `Field::from_str`
unfoldable pub parse_field : String → Option Field
parse_field value =
    if value == "kind" then some kind else if value == "created_at" then some created_at else none

-- `Operator::from_str`
unfoldable pub parse_operator : String → Option Operator
parse_operator value =
    if value == "<"
    then some less_than
    else if value == ">"
    then some greater_than
    else if value == "="
    then some equals
    else if value == "!"
    then some not_equals
    else none

abbrev pub resolve : Field → Event → ℕ
resolve kind e = e.kind
resolve created_at e = e.created_at

compare_values : Operator → ℕ → List ℕ → Bool
compare_values less_than x (v ∷ []) = ltb x v
compare_values less_than x _ = false
compare_values greater_than x (v ∷ []) = ltb v x
compare_values greater_than x _ = false
compare_values equals x vs = any (λ v. x == v) vs
compare_values not_equals x vs = all (λ v. not (x == v)) vs

-- `Condition::allows_event`
unfoldable pub condition_allows : Condition → Event → Bool
unfolding compare_values
condition_allows c e = compare_values c.operator (resolve c.field e) c.values

-- `ConditionQuery::allows_event`: the loop returns at the first condition that fails.
unfoldable pub allows_event : ConditionQuery → Event → Bool
unfolding condition_allows
allows_event q e = all (λ c. condition_allows c e) q.conditions

-- `str::split_terminator`: no part after a separator at the end.
split_terminator_from : ℕ → String → String → List String
split_terminator_from sep cur [] = if cur == "" then [] else cur ∷ []
split_terminator_from sep cur (c ∷ s) =
    let closed = split_terminator_from sep "" s in
    let longer = split_terminator_from sep (String.◌++◌ cur (c ∷ [])) s in
    if code c == sep then cur ∷ closed else longer

unfoldable pub split_terminator : ℕ → String → List String
unfolding split_terminator_from
split_terminator sep s = split_terminator_from sep "" s

infixl 5 ◌>>=◌
abbrev ◌>>=◌ {ℓ κ} : {A : Type ℓ} {B : Type κ} → Option A → (A → Option B) → Option B
none >>= k = none
some a >>= k = k a

-- `collect::<Option<Vec<_>>>` over parsed parts
unfoldable pub collect {ℓ κ} : {A : Type ℓ} {B : Type κ} → (A → Option B) → List A → Option (List B)
collect parse [] = some []
collect parse (x ∷ xs) = do some ((← parse x) ∷ (← collect parse xs))

abbrev pub delegation_token : String → String → String
delegation_token delegatee cond_query =
    String.◌++◌ "nostr:delegation:" (String.◌++◌ delegatee (String.◌++◌ ":" cond_query))

accept : String → Event → Run (Option ConditionQuery) → Run (Option String)
accept delegator e panics = panics
accept delegator e (returns none) = returns none
accept delegator e (returns (some q)) = returns (if allows_event q e then some delegator else none)

-- The delegation tag: four elements, the name first.
abbrev pub is_delegation : List String → Bool
is_delegation (n ∷ _ ∷ _ ∷ _ ∷ []) = n == "delegation"
is_delegation _ = false

-- The groups of a match of `([[:word:]]+)([<>=!]+)([,[[:digit:]]]*)`, if the text has one.
abbrev pub Captures : Type 0
Captures = String → Option (String × String × String)

module _ (captures : Captures) where
  unfoldable pub str_to_condition : String → Option Condition
  str_to_condition cs = do
    (name, op, rawvals) ← captures cs
    field ← parse_field name
    operator ← parse_operator op
    values ← collect parse_u64 (split_terminator b',' rawvals)
    some (record { field = field; operator = operator; values = values })

  -- `ConditionQuery::from_str`
  unfoldable pub parse_query : String → Option ConditionQuery
  unfolding str_to_condition
  parse_query value = do
    conditions ← collect str_to_condition (split_terminator b'&' value)
    some (record { conditions = conditions })

  module _ (c : Crypto) where
    -- `schnorr::Signature::from_str(sigstr).unwrap()` panics on a malformed signature.
    unfoldable pub validate_delegation :
        (delegator delegatee cond_query sigstr : String) → Run (Option ConditionQuery)
    validate_delegation delegator delegatee cond_query sigstr =
        let digest = c.hash (delegation_token delegatee cond_query) in
        elim (c.signature sigstr) [
          | none ↦ panics
          | some sig ↦ elim (c.message digest) [
            | none ↦ returns none
            | some msg ↦ elim (c.public_key delegator) [
              | none ↦ returns none
              | some pubkey ↦
                  returns (if c.verify_schnorr sig msg pubkey then parse_query cond_query else none)
            ]
          ]
        ]

    author_of : Event → Option (List String) → Run (Option String)
    unfolding accept
    author_of e (some (_ ∷ delegator ∷ querystr ∷ sig ∷ [])) =
        accept delegator e (validate_delegation delegator e.pubkey querystr sig)
    author_of e _ = returns none

    unfoldable pub delegated_author : Event → Run (Option String)
    unfolding author_of
    delegated_author e = author_of e (find is_delegation e.tags)

    -- `update_delegation`
    unfoldable pub update_delegation : Event → Run Event
    update_delegation e = elim (delegated_author e) [
      | panics ↦ panics
      | returns author ↦ returns (record e { delegated_by = author })
    ]
