-- ===== src/NameAuthority/Handlers/Register.antt =====
-- What the registration of a name (`register` of src/name_authority/mod.rs) promises.
use floonet_rs.Base.{
  ℕ, ◌*◌, String, ◌≡◌, ◌≢◌, refl, sym, ap, ◌∙◌, subst, ◌⊎◌, inl, inr, false, Option, none, some,
  List, string_eq, arith, Bool-cases, Option-cases, Result-cases, ok,
}
use floonet_rs.Utils.{Text}
use floonet_rs.Event.{Json, Crypto}
use floonet_rs.NameAuthority.{Config, Authority, second, owner_of, allow_write, cooldown_active}
use floonet_rs.NameAuthority.Nip98.{Http, verify_nip98}
use floonet_rs.NameAuthority.Claims.{IsClaims}
use floonet_rs.NameAuthority.Claims.Insertion.{insert_claim-changes}
use floonet_rs.NameAuthority.PaidGate.{Refusal}
use floonet_rs.NameAuthority.Handlers.{
  Request, RegisterBody, Reply, check_claim, start_register, register, authorize, rate_limited,
  too_large, invalid_body, name_change_cooldown, exceeds, read_body,
}
use floonet_rs.NameAuthority.Handlers.Laws.{CanClaim, check_claim_iff, finish_register-db}
use floonet_rs.NameAuthority.Handlers.Release.{allow_write-db, authorize-db, authorize-signer}

module _ (t : Text) (cfg : Config) (extra_reserved : List String) (j : Json) (c : Crypto) (h : Http)
    (from_json : List ℕ → Option RegisterBody) where
  -- A call that goes on to the claim: its body is signed for by the key, which can claim the name.
  pub record Asks (name pubkey : String) (r : Request) (a : Authority) : Type 0 where
    pub body : List ℕ
    pub sent : read_body r.body ≡ some body
    pub id : String
    pub signed :
        verify_nip98 j c t h r.authorization "POST" "/api/v1/register" body cfg.base_url
          cfg.auth_max_age_secs r.unix
        ≡ ok (pubkey, id)
    pub can : CanClaim t cfg extra_reserved name pubkey a.db

  cooldown_active-db :
      (now : ℕ) (bucket key : String) (window : ℕ) (a : Authority)
      → (cooldown_active now bucket key window a).0.db ≡ a.db
  unfolding cooldown_active
  cooldown_active-db now bucket key window a = ground arith

  Sum-cases : {A B : Type 0} (s : A ⊎ B) → ((a : A) × (s ≡ inl a)) ⊎ ((b : B) × (s ≡ inr b))
  Sum-cases (inl a) = inl (a, refl)
  Sum-cases (inr b) = inr (b, refl)

  start_register_sound :
      (r : Request) (a : Authority) (name pubkey : String)
      → (start_register t cfg extra_reserved j c h from_json r a).1 ≡ inr (name, pubkey)
      → Asks name pubkey r a
        × ((start_register t cfg extra_reserved j c h from_json r a).0.db ≡ a.db)
  unfolding start_register
  start_register_sound r a name pubkey asked =
      let a1 = (allow_write cfg r.instant "na-reg" r.ip a).0 in
      elim (Bool-cases (allow_write cfg r.instant "na-reg" r.ip a).1) [
        | inr limited ↦
            let no : Path (Reply ⊎ (String × String)) (inl rate_limited) (inr (name, pubkey)) =
              rw (limited, start_register) at asked in
            absurd (cc)
        | inl allowed ↦ elim (Bool-cases (exceeds r.body_bound)) [
          | inl big ↦
              let no : Path (Reply ⊎ (String × String)) (inl too_large) (inr (name, pubkey)) =
                rw (allowed, start_register, big) at asked in
              absurd (cc)
          | inr fits ↦ elim (Option-cases (read_body r.body)) [
            | inl unread ↦
                let no : Path (Reply ⊎ (String × String)) (inl invalid_body) (inr (name, pubkey)) =
                  rw (allowed, start_register, fits, unread) at asked in
                absurd (cc)
            | inr (body, sent) ↦
                let auth =
                  authorize t cfg extra_reserved j c h from_json "POST" "/api/v1/register" body r
                    a1 in
                let window = cfg.name_change_cooldown_secs * second in
                elim (Result-cases auth.1) [
                  | inr (reply, refusal) ↦
                      let no : Path (Reply ⊎ (String × String)) (inl reply) (inr (name, pubkey)) =
                        rw (allowed, start_register, fits, sent, refusal) at asked in
                      absurd (cc)
                  | inl (key, okay) ↦
                      let cool = cooldown_active r.instant "na-namechange" key window auth.0 in
                      let same_db : cool.0.db ≡ a.db =
                        cooldown_active-db r.instant "na-namechange" key window auth.0
                        ∙ authorize-db t cfg extra_reserved j c h from_json "POST"
                            "/api/v1/register" body r a1
                        ∙ allow_write-db t cfg extra_reserved j c h from_json r.instant "na-reg"
                            r.ip a in
                      elim (Bool-cases cool.1) [
                        | inl cooling ↦
                            let no : Path (Reply ⊎ (String × String)) (inl name_change_cooldown)
                                (inr (name, pubkey)) =
                              rw (allowed, start_register, fits, sent, okay, cooling) at asked in
                            absurd (cc)
                        | inr warm ↦ elim (Option-cases (from_json body)) [
                          | inl malformed ↦
                              let no : Path (Reply ⊎ (String × String)) (inl invalid_body)
                                  (inr (name, pubkey)) =
                                rw (allowed, start_register, fits, sent, okay, warm, malformed) at
                                  asked in
                              absurd (cc)
                          | inr (req, parsed) ↦
                              let checked : check_claim t cfg extra_reserved key req cool.0.db
                                  ≡ inr (name, pubkey) =
                                rw (allowed, start_register, fits, sent, okay, warm, parsed) at
                                  asked in
                              let (en, ek, same, can) =
                                (check_claim_iff t cfg extra_reserved key req cool.0.db name
                                    pubkey).0
                                  checked in
                              let (id, signed) =
                                authorize-signer t cfg extra_reserved j c h from_json "POST"
                                  "/api/v1/register" body r a1 key okay in
                              rw (allowed, start_register, fits, sent, okay, warm, parsed)
                                (
                                  record {
                                    body = body;
                                    sent = sent;
                                    id = id;
                                    signed = signed ∙ ap (λ k. ok (k, id)) (sym same);
                                    can =
                                        subst (CanClaim t cfg extra_reserved name pubkey) same_db
                                          can;
                                  },
                                  same_db,
                                )
                        ]
                      ]
                ]
          ]
        ]
      ]

  start_register-db :
      (r : Request) (a : Authority)
      → (start_register t cfg extra_reserved j c h from_json r a).0.db ≡ a.db
  unfolding start_register
  start_register-db r a =
      let a1 = (allow_write cfg r.instant "na-reg" r.ip a).0 in
      let first = allow_write-db t cfg extra_reserved j c h from_json r.instant "na-reg" r.ip a in
      elim (Bool-cases (allow_write cfg r.instant "na-reg" r.ip a).1) [
        | inr limited ↦ rw (start_register, limited) first
        | inl allowed ↦ elim (Bool-cases (exceeds r.body_bound)) [
          | inl big ↦ rw (start_register, allowed, big) first
          | inr fits ↦ elim (Option-cases (read_body r.body)) [
            | inl unread ↦ rw (start_register, allowed, fits, unread) first
            | inr (body, sent) ↦
                let auth =
                  authorize t cfg extra_reserved j c h from_json "POST" "/api/v1/register" body r
                    a1 in
                let window = cfg.name_change_cooldown_secs * second in
                let then_ =
                  authorize-db t cfg extra_reserved j c h from_json "POST" "/api/v1/register" body r
                    a1
                  ∙ first in
                elim (Result-cases auth.1) [
                  | inr (reply, refusal) ↦ rw (start_register, allowed, fits, sent, refusal) then_
                  | inl (key, okay) ↦
                      let cool = cooldown_active r.instant "na-namechange" key window auth.0 in
                      let last =
                        cooldown_active-db r.instant "na-namechange" key window auth.0 ∙ then_ in
                      elim (Bool-cases cool.1) [
                        | inl cooling ↦ rw (start_register, allowed, fits, sent, okay, cooling) last
                        | inr warm ↦ elim (Option-cases (from_json body)) [
                          | inl malformed ↦
                              rw (start_register, allowed, fits, sent, okay, warm, malformed) last
                          | inr (req, parsed) ↦
                              rw (start_register, allowed, fits, sent, okay, warm, parsed) last
                        ]
                      ]
                ]
          ]
        ]
      ]

  -- A registration without other requests during the wait, whose INSERT the database executes,
  -- changes the owner of a name only to a key that signed the call with this body, may claim the
  -- name, and is let through by the paid gate.
  pub register_sound :
      (gate : String → Option Refusal) (r : Request) (a : Authority) (name : String)
      → IsClaims a.db
      → owner_of name (register t cfg extra_reserved j c h from_json gate false r a).0.db
        ≢ owner_of name a.db
      → (pubkey : String) × Asks name pubkey r a
        × (gate pubkey ≡ none)
        × (owner_of name (register t cfg extra_reserved j c h from_json gate false r a).0.db
            ≡ some pubkey)
  unfolding register
  register_sound gate r a name ok_db changed =
      let same = start_register-db r a in
      let b = (start_register t cfg extra_reserved j c h from_json r a).0 in
      elim (Sum-cases (start_register t cfg extra_reserved j c h from_json r a).1) [
        | inl (reply, e) ↦ absurd (changed (rw (register, e) (ap (owner_of name) same)))
        | inr (claim, e) ↦ elim (Option-cases (gate claim.1)) [
          | inr (refusal, g) ↦ absurd (changed (rw (register, e, g) (ap (owner_of name) same)))
          | inl free ↦
              let (asks, _) = start_register_sound r a claim.0 claim.1 e in
              let ok_b = subst IsClaims (sym same) ok_db in
              let db_eq = finish_register-db t cfg extra_reserved r.unix claim.0 claim.1 b in
              let (own, owned) = insert_claim-changes claim.0 claim.1 r.unix b.db name (λ e2.
                changed (
                  rw (register, e, free)
                    (ap (owner_of name) db_eq ∙ e2 ∙ ap (owner_of name) same))) in
              (
                claim.1,
                subst (λ n. Asks n claim.1 r a) own asks,
                free,
                rw (register, e, free) (ap (owner_of name) db_eq ∙ owned),
              )
        ]
      ]
