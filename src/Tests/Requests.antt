-- ===== src/Tests/Requests.antt =====
-- Examples on subscriptions: matching, the scraper test, and reading filters.
use floonet_rs.Base.{◌≡◌, refl, none, some, [], ◌∷◌, Any, panics}
use floonet_rs.Subscription.{filter_interested, Subscription, interested_in_event}
use floonet_rs.Subscription.Matching.{Matches, interested_in_event_iff}
use floonet_rs.Subscription.Parse.{set_fields, parse_filter, empty_filter}
use floonet_rs.Subscription.Parse.Filters.{IsParsed, parse_filter-IsParsed}
use floonet_rs.Subscription.Parse.Panics.{parse_filter_panics}
use floonet_rs.Tests.{note, notes_sub, filter_of, values}

interested_in_event_example : Any (λ f. Matches f note) notes_sub.filters
unfolding interested_in_event filter_interested
interested_in_event_example = (interested_in_event_iff notes_sub note).0 refl

abbrev narrow_sub : Subscription
narrow_sub = record {
  id = "narrow";
  filters = record (filter_of (some (1 ∷ [])) none) { authors = some ("a" ∷ []) } ∷ [];
}

parse_filter_example : IsParsed (record empty_filter { kinds = some (1 ∷ []) })
unfolding parse_filter
parse_filter_example =
    parse_filter-IsParsed values "kinds" (record empty_filter { kinds = some (1 ∷ []) }) refl

parse_filter_panics_example : parse_filter values "#é" ≡ panics
unfolding set_fields
parse_filter_panics_example =
    parse_filter_panics values "#é" "items" [] [] empty_filter "#é" ("x" ∷ []) ("x" ∷ []) refl refl
      refl refl (refl, refl, refl)
