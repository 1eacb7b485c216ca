-- ===== src/Subscription.antt =====
-- src/subscription.rs: subscriptions, the filters of a request and what they match. JSON values and
-- their conversions (serde_json) are a parameter.
pub mod Equality
pub mod Parse
pub mod Matching
pub mod Scraper
use text.Mathlib.Text.{starts_with}
use floonet_rs.Base.{
  ℕ, ◌+◌, String, Bool, true, false, not, ◌&&◌, ◌||◌, Option, none, some, List, [], ◌∷◌, ◌==◌,
  nat_eq, string_eq, ltb, leb, if◌then◌else◌, any, all, contains,
}
use floonet_rs.Event.{Event, TagOperand, generic_tag_val_intersect}

pub record ReqFilter : Type 0 where
  pub ids : Option (List String)
  pub kinds : Option (List ℕ)
  pub since : Option ℕ
  pub until : Option ℕ
  pub authors : Option (List String)
  pub limit : Option ℕ
  pub tags : Option (List (ℕ × TagOperand))
  pub force_no_match : Bool

pub record Subscription : Type 0 where
  pub id : String
  pub filters : List ReqFilter

-- `map_or(true, p)`
abbrev pub map_or_true {ℓ} : {A : Type ℓ} → (A → Bool) → Option A → Bool
map_or_true p none = true
map_or_true p (some a) = p a

-- The loop of `prefix_match`.
unfoldable pub prefix_match : List String → String → Bool
prefix_match prefixes target = any (λ prefix. starts_with target prefix) prefixes

ids_match : ReqFilter → Event → Bool
ids_match f e = map_or_true (λ vs. prefix_match vs e.id) f.ids

authors_match : ReqFilter → Event → Bool
authors_match f e = map_or_true (λ vs. prefix_match vs e.pubkey) f.authors

delegated_authors_match : ReqFilter → Event → Bool
delegated_authors_match f e = elim e.delegated_by [
  | none ↦ false
  | some delegated_pubkey ↦ map_or_true (λ vs. prefix_match vs delegated_pubkey) f.authors
]

-- The loop of `tag_match`: every queried name has to match.
tag_match : ReqFilter → Event → Bool
tag_match f e = elim f.tags [
  | none ↦ true
  | some tags ↦ all (λ (query : ℕ × TagOperand). generic_tag_val_intersect e query.0 query.1) tags
]

kind_match : ReqFilter → ℕ → Bool
kind_match f kind = map_or_true (λ ks. contains ks kind) f.kinds

-- `ReqFilter::interested_in_event`
unfoldable pub filter_interested : ReqFilter → Event → Bool
unfolding ids_match authors_match delegated_authors_match tag_match kind_match
filter_interested f e =
    ids_match f e
    && map_or_true (λ t. leb t e.created_at) f.since
    && map_or_true (λ t. leb e.created_at t) f.until
    && kind_match f e.kind
    && (authors_match f e || delegated_authors_match f e)
    && tag_match f e
    && not f.force_no_match

-- `Subscription::interested_in_event`: the loop returns at the first filter that matches.
unfoldable pub interested_in_event : Subscription → Event → Bool
interested_in_event s e = any (λ f. filter_interested f e) s.filters

abbrev limit_is_zero : Option ℕ → Bool
limit_is_zero none = false
limit_is_zero (some n) = n == 0

unfoldable pub needs_historical_events : Subscription → Bool
needs_historical_events s = any (λ f. not (limit_is_zero f.limit)) s.filters

abbrev points {ℓ} : {A : Type ℓ} → ℕ → Option A → ℕ
points n none = 0
points n (some _) = n

unfoldable pub precision : ReqFilter → ℕ
precision f = points 2 f.ids + points 1 f.authors + points 1 f.kinds + points 1 f.tags

unfoldable pub is_scraper : Subscription → Bool
unfolding precision
is_scraper s = any (λ f. ltb (precision f) 2) s.filters
