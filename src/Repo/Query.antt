-- ===== src/Repo/Query.antt =====
-- `override_index` and `query_from_filter` of src/repo/sqlite.rs: the SELECT that a filter becomes, as
-- the conditions of its WHERE clause and its order and limit, and which rows satisfy the conditions.
-- A character is its scalar value. The source sorts the tags and their values so that equal filters
-- give equal texts; the conditions keep the filter's order. How rows of equal age are ordered is not
-- modelled.
use floonet_rs.Base.{
  ℕ, String, Bool, true, false, not, ◌&&◌, Option, none, some, List, [], ◌∷◌, ◌++◌, ◌==◌, nat_eq,
  string_eq, ltb, leb, if◌then◌else◌, length, any, all, map, contains,
}
use floonet_rs.Event.{TagOperand, single_char_tagname}
use floonet_rs.Subscription.{ReqFilter, map_or_true}
use floonet_rs.Repo.{Row, TagRow, Codec, equals}

pub data Index : Type 0 where
  event_hash_index kind_created_at_index author_index author_kind_index : Index
  author_created_at_index : Index

abbrev pub is_some {ℓ} : {A : Type ℓ} → Option A → Bool
is_some none = false
is_some (some _) = true

abbrev many : Option (List ℕ) → Bool
many none = false
many (some ks) = ltb 1 (length ks)

unfoldable pub override_index : ReqFilter → Option Index
override_index f =
    if is_some f.ids
    then some Index.event_hash_index
    else if many f.kinds
        && not (is_some f.since)
        && not (is_some f.until)
        && not (is_some f.tags)
        && not (is_some f.authors)
    then some Index.kind_created_at_index
    else if is_some f.authors
    then if not (is_some f.since) && not (is_some f.until) && not (is_some f.limit)
      then if is_some f.kinds then some Index.author_kind_index else some Index.author_index
      else some Index.author_created_at_index
    else none

-- A condition of the WHERE clause, with its parameters.
pub data Clause : Type 0 where
  never : Clause
  author_is : List (Option String) → Clause
  kind_in : List ℕ → Clause
  hash_is : List (Option String) → Clause
  tag_in : ℕ → List String → Option (List ℕ) → Option ℕ → Option ℕ → Clause
  created_since : ℕ → Clause
  created_until : ℕ → Clause
  visible : Clause
  unexpired : ℕ → Clause

pub data Order : Type 0 where
  unordered ascending descending : Order

pub record Query : Type 0 where
  pub clauses : List Clause
  pub index : Option Index
  pub order : Order
  pub limit : Option ℕ

abbrev pub author_clauses : Codec → Option (List String) → List Clause
author_clauses h none = []
author_clauses h (some []) = never ∷ []
author_clauses h (some (a ∷ more)) = author_is (map h.decode (a ∷ more)) ∷ []

abbrev pub kind_clauses : Option (List ℕ) → List Clause
kind_clauses none = []
kind_clauses (some ks) = kind_in ks ∷ []

abbrev pub id_clauses : Codec → Option (List String) → List Clause
id_clauses h none = []
id_clauses h (some []) = never ∷ []
id_clauses h (some (a ∷ more)) = hash_is (map h.decode (a ∷ more)) ∷ []

-- One query for a name: none if it has no values; an AND has one subquery for each value.
abbrev pub operand_clauses : ReqFilter → ℕ → TagOperand → List Clause
operand_clauses f key (TagOperand.or []) = []
operand_clauses f key (TagOperand.or (v ∷ vs)) = tag_in key (v ∷ vs) f.kinds f.since f.until ∷ []
operand_clauses f key (TagOperand.and vs) =
    map (λ v. tag_in key (v ∷ []) f.kinds f.since f.until) vs

unfoldable pub tag_clauses : ReqFilter → List (ℕ × TagOperand) → List Clause
tag_clauses f [] = []
tag_clauses f ((key, val) ∷ rest) = operand_clauses f key val ++ tag_clauses f rest

abbrev pub tags_clauses : ReqFilter → Option (List (ℕ × TagOperand)) → List Clause
tags_clauses f none = []
tags_clauses f (some tags) = tag_clauses f tags

abbrev pub optional {ℓ} : {A : Type ℓ} → (A → Clause) → Option A → List Clause
optional c none = []
optional c (some a) = c a ∷ []

-- The conditions of the fields, and that the event has not expired. `now` is what `unix_time()` returns.
unfoldable pub filter_components : Codec → ℕ → ReqFilter → List Clause
filter_components h now f =
    author_clauses h f.authors
    ++ (kind_clauses f.kinds
        ++ (id_clauses h f.ids
            ++ (tags_clauses f f.tags
                ++ (optional created_since f.since
                    ++ (optional created_until f.until ++ (unexpired now ∷ []))))))

unfoldable pub query_from_filter : Codec → ℕ → ReqFilter → Query
query_from_filter h now f =
    if f.force_no_match
    then record { clauses = never ∷ []; index = none; order = Order.unordered; limit = none }
    else record {
      clauses = visible ∷ filter_components h now f;
      index = override_index f;
      order = elim f.limit [ none ↦ Order.ascending | some _ ↦ Order.descending ];
      limit = f.limit;
    }

-- The subquery on `tag`, at one row of it.
abbrev pub tag_row_matches : ℕ → List String → Option (List ℕ) → Option ℕ → Option ℕ → TagRow → Bool
tag_row_matches key values kinds since until t =
    (elim (single_char_tagname t.name) [ none ↦ false | some c ↦ c == key ])
    && contains values t.value
    && map_or_true (λ ks. contains ks t.kind) kinds
    && map_or_true (λ s. leb s t.created_at) since
    && map_or_true (λ u. leb t.created_at u) until

-- Whether a row of `event` satisfies a condition.
unfoldable pub holds : List TagRow → Row → Clause → Bool
holds tags r never = false
holds tags r (author_is authors) = any (equals r.author) authors
holds tags r (kind_in ks) = contains ks r.kind
holds tags r (hash_is hashes) = any (equals r.event_hash) hashes
holds tags r (tag_in key values kinds since until) =
    any (λ (t : TagRow). t.event_id == r.id && tag_row_matches key values kinds since until t) tags
holds tags r (created_since t) = leb t r.created_at
holds tags r (created_until t) = leb r.created_at t
holds tags r visible = not r.hidden
holds tags r (unexpired now) = elim r.expires_at [ none ↦ true | some t ↦ ltb now t ]

unfoldable pub selects : List TagRow → Row → Query → Bool
selects tags r q = all (holds tags r) q.clauses
