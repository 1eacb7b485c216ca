-- ===== src/Subscription/Scraper.antt =====
-- Which subscriptions count as scrapers, and which ask the database (src/subscription.rs).
use floonet_rs.Base.{
  ◌≡◌, refl, ◌≢◌, ◌↔◌, ◌⊎◌, Bool, false, not, none, some, List, [], ◌∷◌, arith, any, All, ltb,
}
use floonet_rs.Subscription.{
  ReqFilter, Subscription, limit_is_zero, precision, is_scraper, needs_historical_events,
}

-- A filter is narrow enough: it names ids, or two of authors, kinds and tags.
abbrev pub IsNarrow : ReqFilter → Type 0
IsNarrow f =
    (f.ids ≢ none)
    ⊎ ((f.authors ≢ none) × (f.kinds ≢ none))
    ⊎ ((f.authors ≢ none) × (f.tags ≢ none))
    ⊎ ((f.kinds ≢ none) × (f.tags ≢ none))

any-eq-false_iff :
    {A : Type 0} (p : A → Bool) (P : A → Type 0)
    → ((a : A) → (p a ≡ false) ↔ P a)
    → (xs : List A) → (any p xs ≡ false) ↔ All P xs
any-eq-false_iff p P h [] = (λ _. tt, λ _. refl)
any-eq-false_iff p P h (x ∷ xs) =
    let ih = any-eq-false_iff p P h xs in
    let here = h x in
    (λ e. (here.0 (ground arith), ih.0 (ground arith)), λ e. ground (arith, here.1 e.0, ih.1 e.1))

IsNarrow-iff : (f : ReqFilter) → (ltb (precision f) 2 ≡ false) ↔ IsNarrow f
unfolding precision
IsNarrow-iff f = (ground arith, ground arith)

-- A subscription is let through as no scraper exactly when each of its filters is narrow.
pub is_scraper_iff : (s : Subscription) → (is_scraper s ≡ false) ↔ All IsNarrow s.filters
unfolding is_scraper
is_scraper_iff s = any-eq-false_iff (λ f. ltb (precision f) 2) IsNarrow IsNarrow-iff s.filters

zero_limit_iff : (f : ReqFilter) → (not (limit_is_zero f.limit) ≡ false) ↔ (f.limit ≡ some 0)
zero_limit_iff f = (ground arith, ground arith)

-- The database is left out exactly when every filter has the limit 0.
pub needs_historical_events_iff :
    (s : Subscription) → (needs_historical_events s ≡ false) ↔ All (λ f. f.limit ≡ some 0) s.filters
unfolding needs_historical_events
needs_historical_events_iff s =
    any-eq-false_iff (λ f. not (limit_is_zero f.limit)) (λ f. f.limit ≡ some 0) zero_limit_iff
      s.filters
