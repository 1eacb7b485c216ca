-- ===== src/Repo/Tables.antt =====
-- The statements of the store row by row (src/repo/sqlite.rs): which rows stand after them.
use floonet_rs.Base.{
  ◌<◌, ◌≡◌, refl, sym, subst, ap, ◌↔◌, inl, inr, Bool, true, false, not, nat_eq, List, [], ◌∷◌, map,
  arith, In, filter, Bool-cases, if◌then◌else◌,
}
use floonet_rs.Repo.{Row, Db, next_id, delete_events, hide_events, hide}

module _ {A : Type 0} (p : A → Bool) where
  pub In-filter_iff : (x : A) (xs : List A) → In x (filter p xs) ↔ (In x xs × (p x ≡ true))
  In-filter_iff x [] = (λ m. absurd m, λ m. absurd m.0)
  In-filter_iff x (y ∷ ys) =
      let ih = In-filter_iff x ys in
      elim (Bool-cases (p y)) [
        | inl hit ↦ rw hit (
          elim [
            | inl e ↦ (inl e, subst (λ a. p a ≡ true) (sym e) hit)
            | inr m ↦ (inr (ih.0 m).0, (ih.0 m).1)
          ],
          λ (m, q). elim m [ inl e ↦ inl e | inr later ↦ inr (ih.1 (later, q)) ],
        )
        | inr miss ↦ rw miss (
          λ m. (inr (ih.0 m).0, (ih.0 m).1),
          λ (m, q). elim m [
            | inl e ↦ let no : p y ≡ true = subst (λ a. p a ≡ true) e q in absurd (cc)
            | inr later ↦ ih.1 (later, q)
          ],
        )
      ]

module _ {A B : Type 0} (f : A → B) where
  pub In-map : (x : A) (xs : List A) → In x xs → In (f x) (map f xs)
  In-map x [] m = absurd m
  In-map x (y ∷ ys) (inl e) = inl (ap f e)
  In-map x (y ∷ ys) (inr m) = inr (In-map x ys m)

  -- What stands in the image comes from an element.
  pub In-map_witness : (b : B) (xs : List A) → In b (map f xs) → (x : A) × In x xs × (b ≡ f x)
  In-map_witness b [] m = absurd m
  In-map_witness b (y ∷ ys) (inl e) = (y, inl refl, e)
  In-map_witness b (y ∷ ys) (inr m) = let (x, there, e) = In-map_witness b ys m in (x, inr there, e)

-- The key of a new row is larger than those in the table.
pub id-lt-next_id : (r : Row) (rs : List Row) → In r rs → r.id < next_id rs
unfolding next_id
id-lt-next_id r [] m = absurd m
id-lt-next_id r (s ∷ rs) (inl e) = let same : r.id ≡ s.id = ap (λ (x : Row). x.id) e in ground arith
id-lt-next_id r (s ∷ rs) (inr m) = let ih = id-lt-next_id r rs m in ground arith

module _ (p : Row → Bool) (db : Db) (r : Row) where
  pub delete_events_iff : In r (delete_events p db).events ↔ (In r db.events × (not (p r) ≡ true))
  unfolding delete_events
  delete_events_iff = In-filter_iff (λ s. not (p s)) r db.events

  pub delete_events-keeps : p r ≡ false → In r db.events → In r (delete_events p db).events
  delete_events-keeps unselected m = delete_events_iff.1 (m, rw unselected refl)

  pub hide_events-keeps : p r ≡ false → In r db.events → In r (hide_events p db).events
  unfolding hide_events
  hide_events-keeps unselected m =
      let there = In-map (λ (s : Row). if p s then hide s else s) r db.events m in
      let same : (if p r then hide r else r) ≡ r = rw unselected refl in
      subst (λ x. In x (map (λ (s : Row). if p s then hide s else s) db.events)) same there

  -- A row after the UPDATE is one that stood, hidden if it was selected.
  pub hide_events_witness :
      In r (hide_events p db).events
      → (s : Row) × In s db.events × (r ≡ (if p s then hide s else s))
  unfolding hide_events
  hide_events_witness m = In-map_witness (λ (s : Row). if p s then hide s else s) r db.events m
