-- ===== src/NameAuthority/Claims.antt =====
-- The claims of names (src/name_authority/mod.rs): an active name has one owner, an owner one name.
pub mod Insertion
use floonet_rs.Base.{
  ℕ, String, ◌≡◌, refl, ap, ◌∙◌, subst, ◌≢◌, ◌↔◌, inl, inr, ◌&&◌, none, some, List, [], ◌∷◌, ◌==◌,
  string_eq, eq_iff, arith, Bool-cases, Option-cases, if◌then◌else◌, lookup, insert, lookup-insert,
  IsMap, insert-IsMap,
}
use floonet_rs.NameAuthority.{
  Claim, is_none, is_active, active_owner, owner_of, name_of, insert_claim, release_claim, Inserted,
  no_row, one_row, constraint_violation,
}

-- No name has two rows, and no key two active names.
pub record IsClaims (db : List (String × Claim)) : Type 0 where
  pub rows : IsMap db
  pub one_name :
      (name other pubkey : String)
      → owner_of name db ≡ some pubkey
      → owner_of other db ≡ some pubkey
      → name ≡ other

owner_of-cons :
    (name n : String) (row : Claim) (db : List (String × Claim))
    → owner_of name ((n, row) ∷ db)
      ≡ (if n == name then active_owner (some row) else owner_of name db)
unfolding owner_of lookup
owner_of-cons name n row db = ground arith

name_of_sound :
    (pubkey name : String) (db : List (String × Claim))
    → IsMap db
    → name_of pubkey db ≡ some name
    → owner_of name db ≡ some pubkey
unfolding name_of IsMap owner_of lookup
name_of_sound pubkey name [] m h = absurd (cc)
name_of_sound pubkey name ((n, row) ∷ db) (fresh, m) h =
    elim (Bool-cases (row.pubkey == pubkey && is_active row)) [
      | inl e ↦ ground (arith, eq_iff n name, eq_iff row.pubkey pubkey)
      | inr e ↦
          let later : name_of pubkey db ≡ some name = rw e at h in
          let ih = name_of_sound pubkey name db m later in
          elim (Bool-cases (n == name)) [
            | inl same ↦
                let gone : lookup name db ≡ none =
                  subst (λ k. lookup k db ≡ none) ((eq_iff n name).0 same) fresh in
                absurd (ground arith)
            | inr differ ↦ rw differ ih
          ]
    ]

name_of-none :
    (pubkey name : String) (db : List (String × Claim))
    → name_of pubkey db ≡ none
    → owner_of name db ≢ some pubkey
unfolding name_of owner_of lookup
name_of-none pubkey name [] h e = absurd (cc)
name_of-none pubkey name ((n, row) ∷ db) h e =
    ground (arith, eq_iff n name, eq_iff row.pubkey pubkey, name_of-none pubkey name db)

owner_of-insert :
    (name other : String) (row : Claim) (db : List (String × Claim))
    → owner_of other (insert name row db)
      ≡ (if name == other then active_owner (some row) else owner_of other db)
unfolding owner_of
owner_of-insert name other row db = let step = lookup-insert name other row db in ground arith

pub owner_of-release :
    (name other : String) (now : ℕ) (db : List (String × Claim))
    → owner_of other (release_claim name now db)
      ≡ (if name == other then none else owner_of other db)
unfolding owner_of release_claim lookup
owner_of-release name other now [] = ground arith
owner_of-release name other now ((n, row) ∷ db) =
    ground
      (arith, eq_iff n name, eq_iff n other, eq_iff name other, owner_of-release name other now db)

lookup-release-none :
    (name other : String) (now : ℕ) (db : List (String × Claim))
    → lookup other db ≡ none
    → lookup other (release_claim name now db) ≡ none
unfolding release_claim lookup
lookup-release-none name other now [] h = refl
lookup-release-none name other now ((n, row) ∷ db) h =
    ground (arith, lookup-release-none name other now db)

release_claim-IsMap :
    (name : String) (now : ℕ) (db : List (String × Claim))
    → IsMap db
    → IsMap (release_claim name now db)
unfolding release_claim IsMap
release_claim-IsMap name now [] m = tt
release_claim-IsMap name now ((n, row) ∷ db) (fresh, m) =
    let kept = lookup-release-none name n now db fresh in
    let rest = release_claim-IsMap name now db m in
    elim (Bool-cases (n == name && is_active row)) [
      | inl e ↦ rw e (kept, rest)
      | inr e ↦ rw e (kept, rest)
    ]

-- What the INSERT does and answers.
pub data Inserts (name pubkey : String) (db : List (String × Claim))
    : List (String × Claim) × Inserted → Type 0 where
  claims :
      (after : List (String × Claim))
      → owner_of name db ≡ none
      → name_of pubkey db ≡ none
      → ((other : String)
          → owner_of other after ≡ (if name == other then some pubkey else owner_of other db))
      → Inserts name pubkey db (after, one_row)
  taken : (owner : String) → owner_of name db ≡ some owner → Inserts name pubkey db (db, no_row)
  second_name :
      (held : String)
      → owner_of name db ≡ none
      → name_of pubkey db ≡ some held
      → Inserts name pubkey db (db, constraint_violation)

-- The INSERT inserts no row if the name is active, and violates a constraint if otherwise the key has an
-- active name; else the name becomes the key's, and every other name keeps its owner.
pub insert_claim-Inserts :
    (name pubkey : String) (now : ℕ) (db : List (String × Claim))
    → Inserts name pubkey db (insert_claim name pubkey now db)
unfolding insert_claim
insert_claim-Inserts name pubkey now db =
    let row : Claim = record { pubkey = pubkey; created_at = now; released_at = none } in
    elim (Option-cases (owner_of name db)) [
      | inr (owner, active) ↦ rw active (taken owner active)
      | inl unclaimed ↦ elim (Option-cases (name_of pubkey db)) [
        | inl free ↦
            rw (free, unclaimed)
              (claims _ unclaimed free (λ other. owner_of-insert name other row db))
        | inr (held, h) ↦ rw (unclaimed, h) (second_name held unclaimed h)
      ]
    ]

-- A name given to a key without a name leaves each key at most one.
claims-one_name :
    (name pubkey : String) (db after : List (String × Claim))
    → IsClaims db
    → name_of pubkey db ≡ none
    → ((other : String)
        → owner_of other after ≡ (if name == other then some pubkey else owner_of other db))
    → (a b p : String) → owner_of a after ≡ some p
    → owner_of b after ≡ some p
    → a ≡ b
claims-one_name name pubkey db after ok_db free step a b p ha hb =
    let at_a = step a in
    let at_b = step b in
    let keep = ok_db.one_name a b p in
    let none_a = name_of-none pubkey a db free in
    let none_b = name_of-none pubkey b db free in ground (arith, eq_iff name a, eq_iff name b)

Inserts-one_name :
    (name pubkey : String) (db : List (String × Claim)) (res : List (String × Claim) × Inserted)
    → IsClaims db
    → Inserts name pubkey db res
    → (a b p : String) → owner_of a res.0 ≡ some p
    → owner_of b res.0 ≡ some p
    → a ≡ b
Inserts-one_name name pubkey db (after, _) ok_db (claims _ unclaimed free step) =
    claims-one_name name pubkey db after ok_db free step
Inserts-one_name name pubkey db (_, _) ok_db (taken owner active) = ok_db.one_name
Inserts-one_name name pubkey db (_, _) ok_db (second_name held unclaimed h) = ok_db.one_name

insert_claim-IsMap :
    (name pubkey : String) (now : ℕ) (db : List (String × Claim))
    → IsMap db
    → IsMap (insert_claim name pubkey now db).0
unfolding insert_claim
insert_claim-IsMap name pubkey now db m =
    let row : Claim = record { pubkey = pubkey; created_at = now; released_at = none } in
    elim (Bool-cases (is_none (owner_of name db))) [
      | inr e ↦ rw e m
      | inl e ↦ elim (Bool-cases (is_none (name_of pubkey db))) [
        | inl f ↦ rw (e, f) (insert-IsMap name row db m)
        | inr f ↦ rw (e, f) m
      ]
    ]

-- An owner keeps a name that is active.
Inserts-keeps :
    (name pubkey : String) (db : List (String × Claim)) (res : List (String × Claim) × Inserted)
    → Inserts name pubkey db res
    → (other owner : String) → owner_of other db ≡ some owner
    → owner_of other res.0 ≡ some owner
Inserts-keeps name pubkey db (after, _) (claims _ unclaimed free step) other owner active =
    let at_other = step other in
    elim (Bool-cases (name == other)) [
      | inl same ↦
          let gone : owner_of other db ≡ none =
            subst (λ k. owner_of k db ≡ none) ((eq_iff name other).0 same) unclaimed in
          absurd (cc)
      | inr differ ↦ ground arith
    ]
Inserts-keeps name pubkey db (_, _) (taken owner1 held) other owner active = active
Inserts-keeps name pubkey db (_, _) (second_name held unclaimed h) other owner active = active

-- The INSERT leaves every active name with its owner, and keeps that no name has two rows and no key two
-- active names.
pub insert_claim-IsClaims :
    (name pubkey : String) (now : ℕ) (db : List (String × Claim))
    → IsClaims db
    → IsClaims (insert_claim name pubkey now db).0
      × ((other owner : String)
          → owner_of other db ≡ some owner
          → owner_of other (insert_claim name pubkey now db).0 ≡ some owner)
insert_claim-IsClaims name pubkey now db ok_db =
    let inserts = insert_claim-Inserts name pubkey now db in
    (
      record {
        rows = insert_claim-IsMap name pubkey now db ok_db.rows;
        one_name = Inserts-one_name name pubkey db (insert_claim name pubkey now db) ok_db inserts;
      },
      Inserts-keeps name pubkey db (insert_claim name pubkey now db) inserts,
    )

pub release_claim-IsClaims :
    (name : String) (now : ℕ) (db : List (String × Claim))
    → IsClaims db
    → IsClaims (release_claim name now db)
release_claim-IsClaims name now db ok_db = record {
  rows = release_claim-IsMap name now db ok_db.rows;
  one_name = λ a b p ha hb.
      let ra = owner_of-release name a now db in
      let rb = owner_of-release name b now db in ok_db.one_name a b p (ground arith) (ground arith);
}

-- Under the two indexes the owner of a name and the name of an owner are found from one another.
pub owner_of-name_of_iff :
    (name pubkey : String) (db : List (String × Claim))
    → IsClaims db
    → (owner_of name db ≡ some pubkey) ↔ (name_of pubkey db ≡ some name)
owner_of-name_of_iff name pubkey db ok_db = (
  λ h. elim (Option-cases (name_of pubkey db)) [
    | inl e ↦ absurd (name_of-none pubkey name db e h)
    | inr (held, e) ↦
        let owned = name_of_sound pubkey held db ok_db.rows e in
        e ∙ ap some (ok_db.one_name held name pubkey owned h)
  ],
  λ h. name_of_sound pubkey name db ok_db.rows h,
)
