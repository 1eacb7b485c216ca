-- ===== src/NameAuthority/Handlers/Release.antt =====
-- What the release of a name (`unregister` of src/name_authority/mod.rs) promises.
use Prim.Native.String.{◌++◌}
use floonet_rs.Base.{
  ℕ, ◌+◌, ◌≤◌, ◌<◌, String, ◌≡◌, refl, sym, ap, ◌∙◌, ◌≢◌, inl, inr, true, false, Option, none, some,
  List, [], ◌==◌, string_eq, eq_iff, arith, Bool-cases, Option-cases, if◌then◌else◌, Result,
  Result-cases, ok, err,
}
use floonet_rs.Utils.{Text}
use floonet_rs.Event.{Json, Crypto}
use floonet_rs.NameAuthority.{
  Config, Authority, owner_of, release_claim, allow_write, allow, auth_event_fresh, cooldown_active,
  record_op,
}
use floonet_rs.NameAuthority.Nip98.{Http, verify_nip98}
use floonet_rs.NameAuthority.Claims.{owner_of-release}
use floonet_rs.NameAuthority.Limits.{cooldown_active-record_op}
use floonet_rs.NameAuthority.Handlers.{
  Request, RegisterBody, Reply, unregister, authorize, released, rate_limited, unauthorized,
  replayed, name_not_found, not_the_owner,
}

module _ (t : Text) (cfg : Config) (extra_reserved : List String) where
  module _ (j : Json) (c : Crypto) (h : Http) (from_json : List ℕ → Option RegisterBody) where
    pub allow_write-db :
        (now : ℕ) (bucket ip : String) (a : Authority)
        → (allow_write cfg now bucket ip a).0.db ≡ a.db
    unfolding allow_write allow
    allow_write-db now bucket ip a = ground arith

    pub authorize-db :
        (method path : String) (body : List ℕ) (r : Request) (a : Authority)
        → (authorize t cfg extra_reserved j c h from_json method path body r a).0.db ≡ a.db
    unfolding authorize auth_event_fresh
    authorize-db method path body r a =
        elim (Result-cases (
          verify_nip98 j c t h r.authorization method path body cfg.base_url cfg.auth_max_age_secs
            r.unix)) [
              | inr (e, failed) ↦ rw (authorize, failed) refl
              | inl (who, okay) ↦ rw (authorize, okay) (ground arith)
            ]

    pub authorize-signer :
        (method path : String) (body : List ℕ) (r : Request) (a : Authority) (key : String)
        → (authorize t cfg extra_reserved j c h from_json method path body r a).1 ≡ ok key
        → (id : String) × (verify_nip98 j c t h r.authorization method path body cfg.base_url
              cfg.auth_max_age_secs r.unix
            ≡ ok (key, id))
    unfolding authorize
    authorize-signer method path body r a key okay =
        elim (Result-cases (
          verify_nip98 j c t h r.authorization method path body cfg.base_url cfg.auth_max_age_secs
            r.unix)) [
              | inr (x, failed) ↦
                  let no : Path (Result Reply String) (err (unauthorized x)) (ok key) =
                    rw (failed, authorize) at okay in
                  absurd (cc)
              | inl (who, good) ↦ elim (Bool-cases (auth_event_fresh cfg r.instant who.1 a).1) [
                | inl fresh ↦
                    let same : Path (Result Reply String) (ok who.0) (ok key) =
                      rw (good, authorize, fresh) at okay in
                    let first : who.0 ≡ key = cc in (who.1, good ∙ ap (λ k. ok (k, who.1)) first)
                | inr stale ↦
                    let no : Path (Result Reply String) (err replayed) (ok key) =
                      rw (good, authorize, stale) at okay in
                    absurd (cc)
              ]
            ]

    authorize-refusal :
        (method path : String) (body : List ℕ) (r : Request) (a : Authority) (reply : Reply)
        → (authorize t cfg extra_reserved j c h from_json method path body r a).1 ≡ err reply
        → (name : String) → reply ≢ released name
    unfolding authorize
    authorize-refusal method path body r a reply refused name e =
        elim (Result-cases (
          verify_nip98 j c t h r.authorization method path body cfg.base_url cfg.auth_max_age_secs
            r.unix)) [
              | inr (x, failed) ↦
                  let no : Path (Result Reply String) (err (unauthorized x)) (err reply) =
                    rw (failed, authorize) at refused in
                  absurd (cc)
              | inl (who, okay) ↦ elim (Bool-cases (auth_event_fresh cfg r.instant who.1 a).1) [
                | inl fresh ↦
                    let no : Path (Result Reply String) (ok who.0) (err reply) =
                      rw (okay, authorize, fresh) at refused in
                    absurd (cc)
                | inr stale ↦
                    let no : Path (Result Reply String) (err replayed) (err reply) =
                      rw (okay, authorize, stale) at refused in
                    absurd (cc)
              ]
            ]

    -- What a release has done: the caller, who signed the call, owned the name; nobody owns it now,
    -- other names are as before, and the caller's cooldown has begun.
    pub record Released (name : String) (r : Request) (a after : Authority) : Type 0 where
      pub key : String
      pub id : String
      pub signed :
          verify_nip98 j c t h r.authorization "DELETE"
            ("/api/v1/register/" ++ name)
            []
            cfg.base_url
            cfg.auth_max_age_secs
            r.unix
          ≡ ok (key, id)
      pub owned : owner_of name a.db ≡ some key
      pub freed :
          (other : String)
          → owner_of other after.db ≡ (if name == other then none else owner_of other a.db)
      pub cooling :
          (now window : ℕ)
          → r.instant ≤ now
          → now < r.instant + window
          → (cooldown_active now "na-namechange" key window after).1 ≡ true

    -- If the database executes the UPDATE, the answer that a name is released is given only to its
    -- owner, who signed the call; nobody owns the name then, other names are as before, and the
    -- owner's cooldown has begun.
    pub unregister_sound :
        (path_name : String) (r : Request) (a : Authority)
        → let name = t.to_lowercase path_name in
          let res = unregister t cfg extra_reserved j c h from_json false path_name r a in
          res.1 ≡ released name → Released name r a res.0
    unfolding unregister record_op
    unregister_sound path_name r a done =
        let name = t.to_lowercase path_name in
        let a1 = (allow_write cfg r.instant "na-unreg" r.ip a).0 in
        let path = "/api/v1/register/" ++ name in
        let auth = authorize t cfg extra_reserved j c h from_json "DELETE" path [] r a1 in
        let same_db : auth.0.db ≡ a.db =
          authorize-db "DELETE" path [] r a1 ∙ allow_write-db r.instant "na-unreg" r.ip a in
        elim (Bool-cases (allow_write cfg r.instant "na-unreg" r.ip a).1) [
          | inr limited ↦
              let no : rate_limited ≡ released name = rw (limited, unregister) at done in
              absurd (cc)
          | inl allowed ↦ elim (Result-cases auth.1) [
            | inr (reply, refused) ↦
                let no : reply ≡ released name = rw (allowed, unregister, refused) at done in
                absurd (authorize-refusal "DELETE" path [] r a1 reply refused name no)
            | inl (key, okay) ↦ elim (Option-cases (owner_of name auth.0.db)) [
              | inl unowned ↦
                  let no : name_not_found ≡ released name =
                    rw (allowed, unregister, okay, unowned) at done in
                  absurd (cc)
              | inr (owner, owned) ↦ elim (Bool-cases (owner == key)) [
                | inr other ↦
                    let no : not_the_owner ≡ released name =
                      rw (allowed, unregister, okay, owned, other) at done in
                    absurd (cc)
                | inl same ↦
                    let (id, signed) = authorize-signer "DELETE" path [] r a1 key okay in
                    let b = record auth.0 { db = release_claim name r.unix auth.0.db } in
                    rw (allowed, unregister, okay, owned, same)
                      (record {
                        key = key;
                        id = id;
                        signed = signed;
                        owned =
                            ap (owner_of name) (sym same_db)
                            ∙ owned
                            ∙ ap some ((eq_iff owner key).0 same);
                        freed = λ other.
                            owner_of-release name other r.unix auth.0.db
                            ∙ ap (λ db. if name == other then none else owner_of other db) same_db;
                        cooling = λ now window past recent.
                            cooldown_active-record_op r.instant now window "na-namechange" key b
                              recent past;
                      })
              ]
            ]
          ]
        ]
