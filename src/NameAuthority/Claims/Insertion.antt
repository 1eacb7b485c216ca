-- ===== src/NameAuthority/Claims/Insertion.antt =====
-- Which owners the INSERT of a claim changes (src/name_authority/mod.rs).
use floonet_rs.Base.{
  ℕ, String, ◌≡◌, refl, ◌≢◌, some, List, ◌==◌, string_eq, eq_iff, arith, Bool-cases, inl, inr,
}
use floonet_rs.NameAuthority.{Claim, owner_of, insert_claim, Inserted}
use floonet_rs.NameAuthority.Claims.{Inserts, insert_claim-Inserts}

Inserts-changes :
    (name pubkey : String) (db : List (String × Claim)) (res : List (String × Claim) × Inserted)
    → Inserts name pubkey db res
    → (other : String) → owner_of other res.0 ≢ owner_of other db
    → (name ≡ other) × (owner_of other res.0 ≡ some pubkey)
Inserts-changes name pubkey db (after, _) (Inserts.claims _ unclaimed free step) other changed =
    let at_other = step other in
    elim (Bool-cases (name == other)) [
      | inl same ↦ ((eq_iff name other).0 same, ground arith)
      | inr differ ↦ absurd (changed (ground arith))
    ]
Inserts-changes name pubkey db (_, _) (Inserts.taken owner active) other changed =
    absurd (changed refl)
Inserts-changes name pubkey db (_, _) (Inserts.second_name held unclaimed h) other changed =
    absurd (changed refl)

-- The INSERT changes the owner of no name but its own, and that to its key.
pub insert_claim-changes :
    (name pubkey : String) (now : ℕ) (db : List (String × Claim))
    → (other : String) → owner_of other (insert_claim name pubkey now db).0 ≢ owner_of other db
    → (name ≡ other) × (owner_of other (insert_claim name pubkey now db).0 ≡ some pubkey)
insert_claim-changes name pubkey now db =
    Inserts-changes name pubkey db _ (insert_claim-Inserts name pubkey now db)
