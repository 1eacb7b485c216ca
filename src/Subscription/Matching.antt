-- ===== src/Subscription/Matching.antt =====
-- What a filter matches (src/subscription.rs).
use text.Mathlib.Text.{starts_with}
use text.Mathlib.TextEquality.{starts_with_iff}
use text.Mathlib.TextBridge.{IsPrefix}
use floonet_rs.Base.{
  ℕ, ◌≤◌, String, ◌≡◌, refl, ◌↔◌, ◌⊎◌, inl, inr, Bool, true, false, Option, none, some, List,
  nat_eq, arith, any_iff, all_iff, All, Any, In, Any-imp, contains_iff, leb_iff, ◌||◌, leb,
  Option-cases, or-eq-true_iff,
}
use floonet_rs.Event.{Event, TagOperand, generic_tag_val_intersect}
use floonet_rs.Subscription.{
  ReqFilter, Subscription, map_or_true, prefix_match, ids_match, authors_match, tag_match,
  kind_match, delegated_authors_match, filter_interested, interested_in_event,
}

-- A field of a filter that is absent asks nothing.
abbrev pub IfPresent : {A : Type 0} → (A → Type 0) → Option A → Type 0
IfPresent P none = Unit
IfPresent P (some a) = P a

-- One of the prefixes begins the text.
abbrev pub HasPrefix : String → List String → Type 0
HasPrefix target prefixes = Any (λ prefix. IsPrefix prefix target) prefixes

-- The author of an event, or the one that delegated to it.
abbrev pub IsAuthor : Event → String → Type 0
IsAuthor e pubkey = (pubkey ≡ e.pubkey) ⊎ (e.delegated_by ≡ some pubkey)

-- What the fields of a filter ask of an event.
pub record Matches (f : ReqFilter) (e : Event) : Type 0 where
  pub ids : IfPresent (HasPrefix e.id) f.ids
  pub since : IfPresent (λ t. t ≤ e.created_at) f.since
  pub until : IfPresent (λ t. e.created_at ≤ t) f.until
  pub kinds : IfPresent (In e.kind) f.kinds
  pub authors :
      IfPresent (λ vs. (pubkey : String) × IsAuthor e pubkey × HasPrefix pubkey vs) f.authors
  pub tags :
      IfPresent
        (All (λ (query : ℕ × TagOperand). generic_tag_val_intersect e query.0 query.1 ≡ true))
        f.tags
  pub not_forced : f.force_no_match ≡ false

pub map_or_true_iff :
    {A : Type 0} (p : A → Bool) (P : A → Type 0)
    → ((a : A) → (p a ≡ true) ↔ P a)
    → (o : Option A) → (map_or_true p o ≡ true) ↔ IfPresent P o
map_or_true_iff p P h none = (λ _. tt, λ _. refl)
map_or_true_iff p P h (some a) = h a

pub prefix_match_iff :
    (vs : List String) (target : String) → (prefix_match vs target ≡ true) ↔ HasPrefix target vs
unfolding prefix_match
prefix_match_iff vs target =
    let each = any_iff (λ prefix. starts_with target prefix) vs in
    (
      λ h. Any-imp vs (λ prefix. (starts_with_iff target prefix).0) (each.0 h),
      λ h. each.1 (Any-imp vs (λ prefix. (starts_with_iff target prefix).1) h),
    )

-- The two author tests over the parts of the filter and of the event that they read.
authors_of_iff :
    (authors : Option (List String)) (own : String) (delegator : Option String)
    → ((map_or_true (λ vs. prefix_match vs own) authors || (elim delegator [
      | none ↦ false
      | some d ↦ map_or_true (λ vs. prefix_match vs d) authors
    ]))
        ≡ true)
      ↔ IfPresent
          (λ vs.
            (pubkey : String) × ((pubkey ≡ own) ⊎ (delegator ≡ some pubkey)) × HasPrefix pubkey vs)
          authors
authors_of_iff none own delegator = (λ _. tt, λ _. refl)
authors_of_iff (some vs) own none =
    let mine = prefix_match_iff vs own in
    (
      λ h. (own, inl refl, mine.0 (ground arith)),
      λ (pubkey, who, hit). elim who [
        | inl same ↦ let here = mine.1 (rw same at hit) in ground arith
        | inr other ↦ absurd (cc)
      ],
    )
authors_of_iff (some vs) own (some d) =
    let mine = prefix_match_iff vs own in
    let theirs = prefix_match_iff vs d in
    (
      λ h. elim ((or-eq-true_iff _ _).0 h) [
        | inl own_key ↦ (own, inl refl, mine.0 own_key)
        | inr other_key ↦ (d, inr refl, theirs.0 other_key)
      ],
      λ (pubkey, who, hit). elim who [
        | inl same ↦ let here = mine.1 (rw same at hit) in ground arith
        | inr other ↦
            let same : pubkey ≡ d = cc in let here = theirs.1 (rw same at hit) in ground arith
      ],
    )

authors_iff :
    (f : ReqFilter) (e : Event)
    → ((authors_match f e || delegated_authors_match f e) ≡ true)
      ↔ IfPresent (λ vs. (pubkey : String) × IsAuthor e pubkey × HasPrefix pubkey vs) f.authors
unfolding authors_match delegated_authors_match
authors_iff f e = authors_of_iff f.authors e.pubkey e.delegated_by

module _ (f : ReqFilter) (e : Event) where
  ids_iff : (ids_match f e ≡ true) ↔ IfPresent (HasPrefix e.id) f.ids
  unfolding ids_match
  ids_iff = map_or_true_iff _ _ (λ vs. prefix_match_iff vs e.id) f.ids

  kinds_iff : (kind_match f e.kind ≡ true) ↔ IfPresent (In e.kind) f.kinds
  unfolding kind_match
  kinds_iff = map_or_true_iff _ _ (λ ks. contains_iff ks e.kind) f.kinds

  since_iff :
      (map_or_true (λ t. leb t e.created_at) f.since ≡ true)
      ↔ IfPresent (λ t. t ≤ e.created_at) f.since
  since_iff = map_or_true_iff _ _ (λ t. leb_iff t e.created_at) f.since

  until_iff :
      (map_or_true (λ t. leb e.created_at t) f.until ≡ true)
      ↔ IfPresent (λ t. e.created_at ≤ t) f.until
  until_iff = map_or_true_iff _ _ (λ t. leb_iff e.created_at t) f.until

  tags_iff :
      (tag_match f e ≡ true)
      ↔ IfPresent
          (All (λ (query : ℕ × TagOperand). generic_tag_val_intersect e query.0 query.1 ≡ true))
          f.tags
  unfolding tag_match
  tags_iff = elim (Option-cases f.tags) [
    | inl absent ↦ rw (absent, tag_match) ((λ _. tt), (λ _. refl))
    | inr (tags, present) ↦ rw (present, tag_match) (all_iff _ tags)
  ]

  filter_sound : filter_interested f e ≡ true → Matches f e
  unfolding filter_interested
  filter_sound h = record {
    ids = ids_iff.0 (ground arith);
    since = since_iff.0 (ground arith);
    until = until_iff.0 (ground arith);
    kinds = kinds_iff.0 (ground arith);
    authors = (authors_iff f e).0 (ground arith);
    tags = tags_iff.0 (ground arith);
    not_forced = ground arith;
  }

  filter_complete : Matches f e → filter_interested f e ≡ true
  unfolding filter_interested
  filter_complete m = rw (
    ids_iff.1 m.ids,
    since_iff.1 m.since,
    until_iff.1 m.until,
    kinds_iff.1 m.kinds,
    (authors_iff f e).1 m.authors,
    tags_iff.1 m.tags,
    m.not_forced,
  )

-- A subscription is interested in an event exactly when one of its filters asks nothing of the event
-- that it does not have.
pub interested_in_event_iff :
    (s : Subscription) (e : Event)
    → (interested_in_event s e ≡ true) ↔ Any (λ f. Matches f e) s.filters
unfolding interested_in_event
interested_in_event_iff s e =
    let each = any_iff (λ f. filter_interested f e) s.filters in
    (
      λ h. Any-imp s.filters (λ f. filter_sound f e) (each.0 h),
      λ h. each.1 (Any-imp s.filters (λ f. filter_complete f e) h),
    )
