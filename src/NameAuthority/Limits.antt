-- ===== src/NameAuthority/Limits.antt =====
-- The limits of src/name_authority/mod.rs: an authorization is used once, a bucket takes so many calls
-- in a window, and a recorded operation starts a cooldown.
use floonet_rs.Base.{
  ℕ, ◌+◌, ◌-◌, ◌*◌, ◌≤◌, ◌<◌, String, ◌≡◌, refl, ap, ◌∙◌, ◌↔◌, ◌⊎◌, inl, inr, Bool, true, false,
  Option, some, List, [], ◌∷◌, string_eq, eq_iff, arith, Bool-cases, Option-cases, lookup, insert,
  lookup-insert, lookup-insert-same, IsMap, insert-IsMap, All, filter, length, leb, ltb, any,
  lookup-filter-kept, lookup-filter-none, lookup-filter-dropped, filter-IsMap,
}
use floonet_rs.NameAuthority.Nip98.{is_stale}
use floonet_rs.NameAuthority.Nip98.Tags.{is_stale_iff}
use floonet_rs.NameAuthority.{
  second, Config, Authority, is_none, within, auth_window, auth_event_fresh, bucket_key, or_default,
  cooldown_active, record_op, allow,
}

-- The authorization was used at the time `t` and is still remembered.
abbrev pub used_at : String → Authority → Option ℕ
used_at id a = lookup id a.seen_auth

module _ (cfg : Config) where
  -- Whether an authorization may be used once more: it may, if it is not remembered or its last use
  -- lies a whole window back. A use that is allowed is remembered.
  pub auth_event_fresh_lem :
      (now : ℕ) (id : String) (a : Authority)
      → IsMap a.seen_auth
      → ((auth_event_fresh cfg now id a).1 ≡ true)
        ↔ ((t : ℕ) → used_at id a ≡ some t → auth_window cfg ≤ now - t)
  unfolding auth_event_fresh
  auth_event_fresh_lem now id a m =
      let p = within now (auth_window cfg) in
      elim (Option-cases (used_at id a)) [
        | inl new ↦
            let step = lookup-filter-none p id a.seen_auth new in
            (λ h t e. absurd (cc), λ h. rw step refl)
        | inr (t, used) ↦ elim (Bool-cases (p t)) [
          | inl recent ↦
              let step = lookup-filter-kept p id t a.seen_auth used recent in
              rw step (λ h. absurd (cc), λ h. let far = h t used in absurd (ground arith))
          | inr old ↦
              let step = lookup-filter-dropped p id t a.seen_auth m used old in
              rw step (λ h u e. let same : u ≡ t = cc in ground arith, λ h. refl)
        ]
      ]

  pub auth_event_fresh-IsMap :
      (now : ℕ) (id : String) (a : Authority)
      → IsMap a.seen_auth
      → IsMap (auth_event_fresh cfg now id a).0.seen_auth
  unfolding auth_event_fresh
  auth_event_fresh-IsMap now id a m =
      let p = within now (auth_window cfg) in
      let kept = filter-IsMap p a.seen_auth m in
      let added =
        insert-IsMap id now (filter (λ (entry : String × ℕ). p entry.1) a.seen_auth) kept in
      elim (Bool-cases
        (is_none (lookup id (filter (λ (entry : String × ℕ). p entry.1) a.seen_auth)))) [
          | inl e ↦ rw e added
          | inr e ↦ rw e kept
        ]

  -- A remembered use outlives the other calls in the window, and calls with the same identifier.
  fresh-remembers :
      (now : ℕ) (id other : String) (t : ℕ) (a : Authority)
      → used_at id a ≡ some t
      → now < t + auth_window cfg
      → t ≤ now
      → used_at id (auth_event_fresh cfg now other a).0 ≡ some t
  unfolding auth_event_fresh
  fresh-remembers now id other t a used recent past =
      let p = within now (auth_window cfg) in
      let kept = lookup-filter-kept p id t a.seen_auth used (ground arith) in
      let seen = filter (λ (entry : String × ℕ). p entry.1) a.seen_auth in
      let step = lookup-insert other id now seen in ground (arith, eq_iff other id)

  -- The calls in order, each at its time.
  unfoldable pub use_all : List (ℕ × String) → Authority → Authority
  use_all [] a = a
  use_all ((now, id) ∷ calls) a = use_all calls (auth_event_fresh cfg now id a).0

  use_all-remembers :
      (id : String) (t : ℕ) (calls : List (ℕ × String)) (a : Authority)
      → All (λ (call : ℕ × String). (t ≤ call.0) × (call.0 < t + auth_window cfg)) calls
      → used_at id a ≡ some t
      → used_at id (use_all calls a) ≡ some t
  unfolding use_all
  use_all-remembers id t [] a in_window used = used
  use_all-remembers id t ((now, other) ∷ calls) a ((past, recent), rest) used =
      use_all-remembers id t calls (auth_event_fresh cfg now other a).0 rest
        (fresh-remembers now id other t a used recent past)

  fresh-used_at :
      (now : ℕ) (id : String) (a : Authority)
      → (auth_event_fresh cfg now id a).1 ≡ true
      → used_at id (auth_event_fresh cfg now id a).0 ≡ some now
  unfolding auth_event_fresh
  fresh-used_at now id a h =
      let seen =
        filter (λ (entry : String × ℕ). within now (auth_window cfg) entry.1) a.seen_auth in
      let step = lookup-insert id id now seen in ground (arith, eq_iff id id)

  -- An authorization that was used is refused for the whole window, whichever authorizations are
  -- used in between.
  pub no_replay :
      (first now : ℕ) (id : String) (a : Authority) (calls : List (ℕ × String))
      → (auth_event_fresh cfg first id a).1 ≡ true
      → All (λ (call : ℕ × String). (first ≤ call.0) × (call.0 < first + auth_window cfg)) calls
      → first ≤ now
      → now < first + auth_window cfg
      → (auth_event_fresh cfg now id (use_all calls (auth_event_fresh cfg first id a).0)).1 ≡ false
  unfolding auth_event_fresh
  no_replay first now id a calls once in_window past recent =
      let used =
        use_all-remembers id first calls (auth_event_fresh cfg first id a).0 in_window
          (fresh-used_at first id a once) in
      let b = use_all calls (auth_event_fresh cfg first id a).0 in
      let step =
        lookup-filter-kept (within now (auth_window cfg)) id first b.seen_auth used
          (ground arith) in
      rw step refl

-- How many calls of a bucket and an address lie in the window.
pub recent_calls : (now window : ℕ) (bucket ip : String) → Authority → ℕ
recent_calls now window bucket ip a =
    length (filter (within now window) (or_default (lookup (bucket_key bucket ip) a.rate)))

length-filter-again :
    (p : ℕ → Bool) (xs : List ℕ) → length (filter p (filter p xs)) ≡ length (filter p xs)
length-filter-again p [] = refl
length-filter-again p (x ∷ xs) = ground (arith, length-filter-again p xs)

-- The call itself lies in the window.
within-now :
    (now window : ℕ) (hits : List ℕ)
    → 0 < window
    → (any (within now window) (now ∷ hits) ≡ true)
      × (length (filter (within now window) (now ∷ hits))
          ≡ length (filter (within now window) hits) + 1)
within-now now window hits pos = (ground arith, ground arith)

-- With a window longer than zero, a call is allowed exactly if fewer calls than the limit are recorded in
-- the window, and is recorded then; a call that is refused is not. This is about one call, from any state
-- of the limits.
pub allow_lem :
    (now window max : ℕ) (bucket ip : String) (a : Authority)
    → 0 < window
    → let before = recent_calls now window bucket ip a in
      let after = recent_calls now window bucket ip (allow now bucket ip max window a).0 in
      ((before < max) × ((allow now bucket ip max window a).1 ≡ true) × (after ≡ before + 1))
      ⊎ ((max ≤ before) × ((allow now bucket ip max window a).1 ≡ false) × (after ≡ before))
unfolding allow recent_calls
allow_lem now window max bucket ip a pos =
    let k = bucket_key bucket ip in
    let p = within now window in
    let hits = filter p (or_default (lookup k a.rate)) in
    let again = length-filter-again p (or_default (lookup k a.rate)) in
    elim (Bool-cases (leb max (length hits))) [
      | inl full ↦
          let step = lookup-insert-same k hits a.rate in
          rw (full, step) (inr (ground arith, refl, again))
      | inr room ↦
          let step = lookup-insert-same k (now ∷ hits) a.rate in
          let rate = insert k (now ∷ hits) a.rate in
          let counted = within-now now window hits pos in
          let purged = lookup-filter-kept (any p) k (now ∷ hits) rate step counted.0 in
          elim (Bool-cases (ltb 50_000 (length rate))) [
            | inl big ↦
                rw (room, big, purged) (inl (ground arith, refl, counted.1 ∙ ap (λ n. n + 1) again))
            | inr small ↦
                rw (room, small, step) (inl (ground arith, refl, counted.1 ∙ ap (λ n. n + 1) again))
          ]
    ]

-- A recorded operation holds a cooldown active for the whole window.
pub cooldown_active-record_op :
    (then_ now window : ℕ) (bucket key : String) (a : Authority)
    → now < then_ + window
    → then_ ≤ now
    → (cooldown_active now bucket key window (record_op then_ bucket key a)).1 ≡ true
unfolding cooldown_active record_op
cooldown_active-record_op then_ now window bucket key a recent past =
    let k = bucket_key bucket key in
    let before = or_default (lookup k a.rate) in
    let step = lookup-insert-same k (then_ ∷ before) a.rate in
    let seen : within now window then_ ≡ true = ground arith in
    rw (cooldown_active, record_op, step, seen) refl

-- An authorization dated five seconds ahead of its first use is remembered for as many seconds as
-- the age limit and five, and is used a second time at the end of just that time, when it is not
-- too old yet.
pub replayed :
    (cfg : Config) (unix first : ℕ) (id : String) (a : Authority)
    → IsMap a.seen_auth
    → (auth_event_fresh cfg first id a).1 ≡ true
    → cfg.auth_max_age_secs ≤ unix
    → unix + cfg.auth_max_age_secs + 5 < 4611686018427387904
    → (is_stale unix (unix + 5) cfg.auth_max_age_secs ≡ false)
      × (is_stale (unix + cfg.auth_max_age_secs + 5) (unix + 5) cfg.auth_max_age_secs ≡ false)
      × ((auth_event_fresh cfg
            (first + (cfg.auth_max_age_secs + 5) * second)
            id
            (auth_event_fresh cfg first id a).0).1
          ≡ true)
unfolding auth_window
replayed cfg unix first id a m once reach small =
    let max_age = cfg.auth_max_age_secs in
    (
      (is_stale_iff unix (unix + 5) max_age (omega arith) (omega arith) reach).1
          (omega arith, omega arith),
      (is_stale_iff (unix + max_age + 5) (unix + 5) max_age small (omega arith) (omega arith)).1
          (omega arith, omega arith),
      (auth_event_fresh_lem cfg (first + (max_age + 5) * second) id
            (auth_event_fresh cfg first id a).0 (auth_event_fresh-IsMap cfg first id a m)).1
          (λ t used.
            let known = fresh-used_at cfg first id a once in
            let same : t ≡ first = cc in ground arith),
    )
