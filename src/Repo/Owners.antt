-- ===== src/Repo/Owners.antt =====
-- The foreign key of the table `tag` (src/repo/sqlite.rs): every tag stands on an event of the table, and
-- carries its kind and time.
use floonet_rs.Base.{
  ℕ, ◌≡◌, refl, sym, ap, ◌∙◌, subst, ◌⊎◌, inl, inr, Bool, true, not, ◌&&◌, ◌==◌, nat_eq, List, [],
  ◌∷◌, ◌++◌, arith, In, any, any_iff, Any-of_In, Bool-cases, String, if◌then◌else◌, Option-cases,
}
use floonet_rs.Event.{Event, single_char_tagname}
use floonet_rs.Repo.{Row, TagRow, Db, delete_events, hide_events, hide}
use floonet_rs.Repo.Persist.{tag_rows}
use floonet_rs.Repo.Tables.{In-filter_iff, In-map}

-- The event of the tag.
abbrev pub HasOwner : List Row → TagRow → Type 0
HasOwner rs t =
    (r : Row) × In r rs × (t.event_id ≡ r.id) × (t.kind ≡ r.kind) × (t.created_at ≡ r.created_at)

abbrev pub Owned : Db → Type 0
Owned db = (t : TagRow) → In t db.tags → HasOwner db.events t

-- The tags of deleted events are deleted.
pub Owned-delete : (p : Row → Bool) (db : Db) → Owned db → Owned (delete_events p db)
unfolding delete_events
Owned-delete p db owned t m =
    let keep = λ (u : TagRow). not (any (λ (s : Row). s.id == u.event_id && p s) db.events) in
    let (there, stays) = (In-filter_iff keep t db.tags).0 m in
    let (r, mr, id, kind, time) = owned t there in
    elim (Bool-cases (p r)) [
      | inr spared ↦
          (r, (In-filter_iff (λ s. not (p s)) r db.events).1 (mr, rw spared refl), id, kind, time)
      | inl selected ↦
          let hit : (r.id == t.event_id && p r) ≡ true = ground arith in
          let owner =
            (any_iff (λ (s : Row). s.id == t.event_id && p s) db.events).1
              (Any-of_In (λ (s : Row). (s.id == t.event_id && p s) ≡ true) db.events mr hit) in
          absurd (ground arith)
    ]

-- Hiding an event leaves its id, kind and time.
pub Owned-hide : (p : Row → Bool) (db : Db) → Owned db → Owned (hide_events p db)
unfolding hide_events
Owned-hide p db owned t m =
    let (r, mr, id, kind, time) = owned t m in
    let there = In-map (λ (s : Row). if p s then hide s else s) r db.events mr in
    elim (Bool-cases (p r)) [
      | inl hit ↦
          (hide r, subst (λ x. In x (hide_events p db).events) (rw hit refl) there, id, kind, time)
      | inr miss ↦
          (r, subst (λ x. In x (hide_events p db).events) (rw miss refl) there, id, kind, time)
    ]

In-append_cases : {A : Type 0} (x : A) (xs ys : List A) → In x (xs ++ ys) → In x xs ⊎ In x ys
In-append_cases x [] ys m = inr m
In-append_cases x (y ∷ xs) ys (inl e) = inl (inl e)
In-append_cases x (y ∷ xs) ys (inr m) = elim (In-append_cases x xs ys m) [
  | inl here ↦ inl (inr here)
  | inr later ↦ inr later
]

-- The tags of a new event carry its id, kind and time.
tag_rows-carry :
    (id : ℕ) (e : Event) (ts : List (List String)) (t : TagRow)
    → In t (tag_rows id e ts)
    → (t.event_id ≡ id) × (t.kind ≡ e.kind) × (t.created_at ≡ e.created_at)
unfolding tag_rows
tag_rows-carry id e [] t m = absurd m
tag_rows-carry id e ([] ∷ ts) t m = tag_rows-carry id e ts t m
tag_rows-carry id e ((name ∷ []) ∷ ts) t m = tag_rows-carry id e ts t m
tag_rows-carry id e ((name ∷ value ∷ more) ∷ ts) t m =
    elim (Option-cases (single_char_tagname name)) [
      | inl long ↦ tag_rows-carry id e ts t (rw (tag_rows, long) at m)
      | inr (c, short) ↦
          let row : TagRow = record {
            event_id = id;
            name = name;
            value = value;
            kind = e.kind;
            created_at = e.created_at;
          } in
          let both : In t (row ∷ tag_rows id e ts) = rw (tag_rows, short) at m in
          elim both [
            | inl same ↦ (
              ap (λ (u : TagRow). u.event_id) same,
              ap (λ (u : TagRow). u.kind) same,
              ap (λ (u : TagRow). u.created_at) same,
            )
            | inr later ↦ tag_rows-carry id e ts t later
          ]
    ]

-- A new row with its tags.
pub Owned-insert :
    (row : Row) (e : Event) (db : Db)
    → row.kind ≡ e.kind
    → row.created_at ≡ e.created_at
    → Owned db
    → Owned (record { events = row ∷ db.events; tags = tag_rows row.id e e.tags ++ db.tags })
Owned-insert row e db kind time owned t m =
    elim (In-append_cases t (tag_rows row.id e e.tags) db.tags m) [
      | inl new ↦
          let (id, k, c) = tag_rows-carry row.id e e.tags t new in
          (row, inl refl, id, k ∙ sym kind, c ∙ sym time)
      | inr old ↦ let (r, mr, id, k, c) = owned t old in (r, inr mr, id, k, c)
    ]
