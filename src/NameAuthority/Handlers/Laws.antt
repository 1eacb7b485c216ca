-- ===== src/NameAuthority/Handlers/Laws.antt =====
-- What the endpoints of src/name_authority/mod.rs promise: claims, releases and the availability of names.
use floonet_rs.Base.{
  ℕ, String, ◌≡◌, refl, sym, ap, ◌∙◌, subst, ◌↔◌, inl, inr, Bool, true, false, not, Option, none,
  some, List, ◌==◌, string_eq, eq_iff, arith, if◌then◌else◌,
}
use floonet_rs.Utils.{Text}
use floonet_rs.NameAuthority.{
  Claim, Config, Authority, owner_of, name_of, insert_claim, Inserted, no_row, one_row,
  constraint_violation,
}
use floonet_rs.NameAuthority.Names.{is_reserved, valid_pubkey_hex}
use floonet_rs.NameAuthority.Handlers.{
  RegisterBody, Reply, name_is_valid, check_claim, finish_register, registered, already_registered,
  invalid_pubkey, pubkey_mismatch, invalid_name, name_reserved, name_taken, has_a_name, nip05_of,
}

module _ (t : Text) (cfg : Config) (extra_reserved : List String) where
  -- What a key may claim: a valid name that is not reserved and not active, if it has none.
  pub record CanClaim (name pubkey : String) (db : List (String × Claim)) : Type 0 where
    pub valid : name_is_valid cfg name ≡ true
    pub not_reserved : is_reserved name extra_reserved ≡ false
    pub is_key : valid_pubkey_hex pubkey ≡ true
    pub unowned : owner_of name db ≡ none
    pub nameless : name_of pubkey db ≡ none

  claim_facts :
      (key same valid res : Bool) (owner held : Option String) (who out : String × String)
      → ((if not key
            then inl invalid_pubkey
            else if not same
            then inl pubkey_mismatch
            else if not valid
            then inl invalid_name
            else if res
            then inl name_reserved
            else elim owner [
              | some o ↦
                  if o == who.1
                  then inl (already_registered who.0 (nip05_of cfg who.0))
                  else inl name_taken
              | none ↦ elim held [
                | some existing ↦ inl (has_a_name (some existing))
                | none ↦ inr who
              ]
            ])
          ≡ inr out)
        ↔ ((key ≡ true)
            × (same ≡ true)
            × (valid ≡ true)
            × (res ≡ false)
            × (owner ≡ none)
            × (held ≡ none)
            × (who ≡ out))
  claim_facts key same valid res owner held who out = (
    λ h. (
      ground arith,
      ground arith,
      ground arith,
      ground arith,
      ground arith,
      ground arith,
      ground arith,
    ),
    λ (a, b, c, d, e, f, g). ground arith,
  )

  -- A registration goes on to the claim exactly if the body names the key that signed the call and a
  -- name that this key can claim, both in lower case.
  pub check_claim_iff :
      (auth_pubkey : String) (req : RegisterBody) (db : List (String × Claim))
      (name pubkey : String)
      → (check_claim t cfg extra_reserved auth_pubkey req db ≡ inr (name, pubkey)) ↔ (
          (t.to_lowercase req.name ≡ name)
          × (t.to_lowercase req.pubkey ≡ pubkey)
          × (pubkey ≡ auth_pubkey)
          × CanClaim name pubkey db)
  unfolding check_claim
  check_claim_iff auth_pubkey req db name pubkey =
      let n = t.to_lowercase req.name in
      let k = t.to_lowercase req.pubkey in
      let facts =
        claim_facts (valid_pubkey_hex k) (k == auth_pubkey) (name_is_valid cfg n)
          (is_reserved n extra_reserved) (owner_of n db) (name_of k db) (n, k) (name, pubkey) in
      (
        λ h.
            let (key, same, valid, res, owner, held, who) = facts.0 h in
            let en : n ≡ name = ap (λ (p : String × String). p.0) who in
            let ek : k ≡ pubkey = ap (λ (p : String × String). p.1) who in
            (
              en,
              ek,
              sym ek ∙ (eq_iff k auth_pubkey).0 same,
              record {
                valid = subst (λ x. name_is_valid cfg x ≡ true) en valid;
                not_reserved = subst (λ x. is_reserved x extra_reserved ≡ false) en res;
                is_key = subst (λ x. valid_pubkey_hex x ≡ true) ek key;
                unowned = subst (λ x. owner_of x db ≡ none) en owner;
                nameless = subst (λ x. name_of x db ≡ none) ek held;
              },
            ),
        λ (en, ek, same, can). facts.1 (
          subst (λ x. valid_pubkey_hex x ≡ true) (sym ek) can.is_key,
          (eq_iff k auth_pubkey).1 (ek ∙ same),
          subst (λ x. name_is_valid cfg x ≡ true) (sym en) can.valid,
          subst (λ x. is_reserved x extra_reserved ≡ false) (sym en) can.not_reserved,
          subst (λ x. owner_of x db ≡ none) (sym en) can.unowned,
          subst (λ x. name_of x db ≡ none) (sym ek) can.nameless,
          cc,
        ),
      )

  finish-db :
      (inserted : Inserted) (db : List (String × Claim)) (a : Authority) (name : String)
      → (elim inserted as (λ _. Authority × Reply) [
        | no_row ↦ (record a { db = db }, name_taken)
        | one_row ↦ (record a { db = db }, registered name (nip05_of cfg name))
        | constraint_violation ↦ (record a { db = db }, has_a_name none)
      ]).0.db
        ≡ db
  finish-db no_row db a name = refl
  finish-db one_row db a name = refl
  finish-db constraint_violation db a name = refl

  pub finish_register-db :
      (unix : ℕ) (name pubkey : String) (a : Authority)
      → (finish_register t cfg extra_reserved false unix name pubkey a).0.db
        ≡ (insert_claim name pubkey unix a.db).0
  unfolding finish_register
  finish_register-db unix name pubkey a =
      finish-db (insert_claim name pubkey unix a.db).1 (insert_claim name pubkey unix a.db).0 a name
