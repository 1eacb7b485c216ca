-- ===== src/Repo/Clauses.antt =====
-- What each condition of a query asks of a row (src/repo/sqlite.rs, `query_from_filter`).
use floonet_rs.Base.{
  ℕ, ◌<◌, ◌≤◌, ◌≡◌, refl, sym, ap, subst, ◌↔◌, inl, inr, true, false, ◌&&◌, ◌==◌, nat_eq, string_eq,
  eq_iff, Option, none, some, List, [], ◌∷◌, map, arith, In, All, Any, any, any_iff, All-append_iff,
  Any-of_In, Any_witness, String, contains_iff, or-eq-true_iff, ltb_iff, leb_iff, Option-cases,
}
use floonet_rs.Event.{TagOperand, single_char_tagname}
use floonet_rs.Subscription.{ReqFilter}
use floonet_rs.Subscription.Matching.{IfPresent, map_or_true_iff}
use floonet_rs.Repo.{Row, TagRow, Codec, equals}
use floonet_rs.Repo.Query.{
  Clause, holds, tag_row_matches, operand_clauses, tag_clauses, author_clauses, kind_clauses,
  id_clauses, tags_clauses, optional,
}

-- The tag stands on the event of the row, under that name.
abbrev pub HasTag : List TagRow → Row → ℕ → (String → Type 0) → Type 0
HasTag tags r key P =
    (t : TagRow) × In t tags
    × (t.event_id ≡ r.id)
    × (single_char_tagname t.name ≡ some key)
    × P t.value

-- What a tag query asks of a row; an OR without values asks nothing.
abbrev pub OperandHolds : List TagRow → Row → ℕ → TagOperand → Type 0
OperandHolds tags r key (TagOperand.or []) = Unit
OperandHolds tags r key (TagOperand.or (v ∷ vs)) = HasTag tags r key (λ value. In value (v ∷ vs))
OperandHolds tags r key (TagOperand.and vs) = All (λ v. HasTag tags r key (λ value. value ≡ v)) vs

-- The tags of the row's event carry its kind and time.
abbrev pub CarriesKey : List TagRow → Row → Type 0
CarriesKey tags r =
    (t : TagRow) → In t tags → t.event_id ≡ r.id → (t.kind ≡ r.kind) × (t.created_at ≡ r.created_at)

abbrev pub Holds : List TagRow → Row → Clause → Type 0
Holds tags r c = holds tags r c ≡ true

equals_iff : (column : String) (o : Option String) → (equals column o ≡ true) ↔ (o ≡ some column)
equals_iff column none = (λ h. absurd (cc), λ h. absurd (cc))
equals_iff column (some v) =
    (λ h. ap some (sym ((eq_iff column v).0 h)), λ h. (eq_iff column v).1 (sym (ground arith)))

any-decoded_iff :
    (h : Codec) (column : String) (vs : List String)
    → (any (equals column) (map h.decode vs) ≡ true) ↔ Any (λ v. h.decode v ≡ some column) vs
any-decoded_iff h column [] = (λ e. absurd (cc), λ e. absurd e)
any-decoded_iff h column (v ∷ vs) =
    let ih = any-decoded_iff h column vs in
    let here = equals_iff column (h.decode v) in
    let split =
      or-eq-true_iff (equals column (h.decode v)) (any (equals column) (map h.decode vs)) in
    (
      λ e. elim (split.0 e) [ inl hit ↦ inl (here.0 hit) | inr later ↦ inr (ih.0 later) ],
      elim [ inl hit ↦ split.1 (inl (here.1 hit)) | inr later ↦ split.1 (inr (ih.1 later)) ],
    )

named_iff :
    (name : String) (key : ℕ)
    → ((elim (single_char_tagname name) [ none ↦ false | some c ↦ c == key ]) ≡ true)
      ↔ (single_char_tagname name ≡ some key)
named_iff name key = elim (Option-cases (single_char_tagname name)) [
  | inl e ↦ rw e (λ h. absurd (cc), λ h. absurd (cc))
  | inr (c, e) ↦ rw e (λ h. ap some (ground arith), λ h. let same : c ≡ key = cc in ground arith)
]

-- A row of `tag` passes the subquery exactly if it has all that the subquery names.
row_match_iff :
    (id key : ℕ) (values : List String) (kinds : Option (List ℕ)) (since until : Option ℕ)
    (t : TagRow)
    → ((t.event_id == id && tag_row_matches key values kinds since until t) ≡ true) ↔ (
        (t.event_id ≡ id)
        × (single_char_tagname t.name ≡ some key)
        × In t.value values
        × IfPresent (In t.kind) kinds
        × IfPresent (λ s. s ≤ t.created_at) since
        × IfPresent (λ u. t.created_at ≤ u) until)
row_match_iff id key values kinds since until t =
    let name = named_iff t.name key in
    let value = contains_iff values t.value in
    let kind = map_or_true_iff _ _ (λ ks. contains_iff ks t.kind) kinds in
    let low = map_or_true_iff _ _ (λ s. leb_iff s t.created_at) since in
    let high = map_or_true_iff _ _ (λ u. leb_iff t.created_at u) until in
    (
      λ h. (
        ground arith,
        name.0 (ground arith),
        value.0 (ground arith),
        kind.0 (ground arith),
        low.0 (ground arith),
        high.0 (ground arith),
      ),
      λ (e, n, v, k, l, u).
          let a = name.1 n in
          let b = value.1 v in
          let c = kind.1 k in
          let d = low.1 l in let g = high.1 u in rw (a, b, c, d, g) (ground arith),
    )

module _ (tags : List TagRow) (r : Row) where
  pub authors_iff :
      (h : Codec) (vs : Option (List String))
      → All (Holds tags r) (author_clauses h vs)
        ↔ IfPresent (Any (λ a. h.decode a ≡ some r.author)) vs
  unfolding holds
  authors_iff h none = (λ _. tt, λ _. tt)
  authors_iff h (some []) = (λ e. absurd (cc), λ e. absurd e)
  authors_iff h (some (a ∷ more)) =
      let each = any-decoded_iff h r.author (a ∷ more) in (λ e. each.0 e.0, λ e. (each.1 e, tt))

  pub ids_iff :
      (h : Codec) (vs : Option (List String))
      → All (Holds tags r) (id_clauses h vs)
        ↔ IfPresent (Any (λ i. h.decode i ≡ some r.event_hash)) vs
  unfolding holds
  ids_iff h none = (λ _. tt, λ _. tt)
  ids_iff h (some []) = (λ e. absurd (cc), λ e. absurd e)
  ids_iff h (some (a ∷ more)) =
      let each = any-decoded_iff h r.event_hash (a ∷ more) in (λ e. each.0 e.0, λ e. (each.1 e, tt))

  pub kinds_iff :
      (kinds : Option (List ℕ))
      → All (Holds tags r) (kind_clauses kinds) ↔ IfPresent (In r.kind) kinds
  unfolding holds
  kinds_iff none = (λ _. tt, λ _. tt)
  kinds_iff (some ks) = let each = contains_iff ks r.kind in (λ e. each.0 e.0, λ e. (each.1 e, tt))

  pub since_iff :
      (since : Option ℕ)
      → All (Holds tags r) (optional Clause.created_since since)
        ↔ IfPresent (λ t. t ≤ r.created_at) since
  unfolding holds
  since_iff none = (λ _. tt, λ _. tt)
  since_iff (some t) = let each = leb_iff t r.created_at in (λ e. each.0 e.0, λ e. (each.1 e, tt))

  pub until_iff :
      (until : Option ℕ)
      → All (Holds tags r) (optional Clause.created_until until)
        ↔ IfPresent (λ t. r.created_at ≤ t) until
  unfolding holds
  until_iff none = (λ _. tt, λ _. tt)
  until_iff (some t) = let each = leb_iff r.created_at t in (λ e. each.0 e.0, λ e. (each.1 e, tt))

  pub unexpired_iff :
      (now : ℕ) → Holds tags r (Clause.unexpired now) ↔ IfPresent (λ t. now < t) r.expires_at
  unfolding holds
  unexpired_iff now = elim (Option-cases r.expires_at) [
    | inl e ↦ rw (e, holds) (λ _. tt, λ _. refl)
    | inr (t, e) ↦ rw (e, holds) (ltb_iff now t)
  ]

  tag_in_iff :
      (key : ℕ) (values : List String) (f : ReqFilter)
      → CarriesKey tags r
      → IfPresent (In r.kind) f.kinds
      → IfPresent (λ t. t ≤ r.created_at) f.since
      → IfPresent (λ t. r.created_at ≤ t) f.until
      → Holds tags r (Clause.tag_in key values f.kinds f.since f.until)
        ↔ HasTag tags r key (λ value. In value values)
  unfolding holds
  tag_in_iff key values f carries kinds since until =
      let each =
        any_iff
          (λ (t : TagRow).
            t.event_id == r.id && tag_row_matches key values f.kinds f.since f.until t)
          tags in
      (
        λ e.
            let (t, m, hit) = Any_witness _ tags (each.0 e) in
            let (id, name, value, k, l, u) =
              (row_match_iff r.id key values f.kinds f.since f.until t).0 hit in
            (t, m, id, name, value),
        λ (t, m, id, name, value).
            let (kind, time) = carries t m id in
            each.1 (
              Any-of_In _ tags m (
                (row_match_iff r.id key values f.kinds f.since f.until t).1 (
                  id,
                  name,
                  value,
                  subst (λ k. IfPresent (In k) f.kinds) (sym kind) kinds,
                  subst (λ c. IfPresent (λ s. s ≤ c) f.since) (sym time) since,
                  subst (λ c. IfPresent (λ u. c ≤ u) f.until) (sym time) until,
                ))),
      )

  module _ (f : ReqFilter) (carries : CarriesKey tags r) (kinds : IfPresent (In r.kind) f.kinds)
      (since : IfPresent (λ t. t ≤ r.created_at) f.since)
      (until : IfPresent (λ t. r.created_at ≤ t) f.until) where
    and_iff :
        (key : ℕ) (vs : List String)
        → All (Holds tags r) (operand_clauses f key (TagOperand.and vs))
          ↔ OperandHolds tags r key (TagOperand.and vs)
    and_iff key [] = (λ _. tt, λ _. tt)
    and_iff key (v ∷ vs) =
        let ih = and_iff key vs in
        let each = tag_in_iff key (v ∷ []) f carries kinds since until in
        (
          λ (e, rest).
              let (t, m, id, name, value) = each.0 e in ((t, m, id, name, only value), ih.0 rest),
          λ ((t, m, id, name, value), rest). (each.1 (t, m, id, name, inl value), ih.1 rest),
        )
      where
        only : {x : String} → In x (v ∷ []) → x ≡ v
        only (inl e) = e
        only (inr m) = absurd m

    operand_iff :
        (key : ℕ) (operand : TagOperand)
        → All (Holds tags r) (operand_clauses f key operand) ↔ OperandHolds tags r key operand
    operand_iff key (TagOperand.or []) = (λ _. tt, λ _. tt)
    operand_iff key (TagOperand.or (v ∷ vs)) =
        let each = tag_in_iff key (v ∷ vs) f carries kinds since until in
        (λ e. each.0 e.0, λ e. (each.1 e, tt))
    operand_iff key (TagOperand.and vs) = and_iff key vs

    tag_clauses_iff :
        (queries : List (ℕ × TagOperand))
        → All (Holds tags r) (tag_clauses f queries)
          ↔ All (λ (query : ℕ × TagOperand). OperandHolds tags r query.0 query.1) queries
    unfolding tag_clauses
    tag_clauses_iff [] = (λ _. tt, λ _. tt)
    tag_clauses_iff ((key, operand) ∷ rest) =
        let ih = tag_clauses_iff rest in
        let here = operand_iff key operand in
        let split =
          All-append_iff (Holds tags r) (operand_clauses f key operand) (tag_clauses f rest) in
        (λ e. let (l, m) = split.0 e in (here.0 l, ih.0 m), λ (l, m). split.1 (here.1 l, ih.1 m))

    pub tags_iff :
        (o : Option (List (ℕ × TagOperand)))
        → All (Holds tags r) (tags_clauses f o)
          ↔ IfPresent (All (λ (query : ℕ × TagOperand). OperandHolds tags r query.0 query.1)) o
    tags_iff none = (λ _. tt, λ _. tt)
    tags_iff (some queries) = tag_clauses_iff queries
