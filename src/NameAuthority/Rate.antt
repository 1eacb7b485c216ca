-- ===== src/NameAuthority/Rate.antt =====
-- The rate limit over a run of calls (src/name_authority/mod.rs, `allow`).
use floonet_rs.Base.{
  ℕ, ◌+◌, ◌≤◌, ◌<◌, String, ◌≡◌, refl, sym, ap, ◌∙◌, inl, inr, true, false, List, [], ◌∷◌, ◌==◌,
  string_eq, eq_iff, arith, Bool-cases, Option-cases, lookup, insert, lookup-insert, IsMap,
  insert-IsMap, filter, length, leb, ltb, any, if◌then◌else◌, lookup-filter-kept,
  lookup-filter-none, lookup-filter-dropped, filter-IsMap,
}
use floonet_rs.NameAuthority.{Authority, within, bucket_key, or_default, allow}

-- The times of the key, in a list of granted calls.
abbrev pub times : String → List (String × ℕ) → List ℕ
times key [] = []
times key ((k, t) ∷ log) = if k == key then t ∷ times key log else times key log

module _ (window : ℕ) where
  -- A run of calls in the order of time, all with windows of one length, from an empty table; the granted
  -- calls, the newest first.
  pub data Called : ℕ → List (String × ℕ) → Authority → Type 0 where
    start : (a : Authority) → a.rate ≡ [] → Called 0 [] a
    call :
        (before now : ℕ) (log : List (String × ℕ)) (a : Authority) (bucket ip : String) (max : ℕ)
        → Called before log a
        → before ≤ now
        → Called now
            (if (allow now bucket ip max window a).1
              then (bucket_key bucket ip, now) ∷ log
              else log)
            (allow now bucket ip max window a).0

  filter-later :
      (now later : ℕ) (ts : List ℕ)
      → now ≤ later
      → filter (within later window) (filter (within now window) ts)
        ≡ filter (within later window) ts
  filter-later now later [] order = refl
  filter-later now later (t ∷ ts) order = ground (arith, filter-later now later ts order)

  none-later :
      (now later : ℕ) (ts : List ℕ)
      → now ≤ later
      → any (within now window) ts ≡ false
      → filter (within later window) ts ≡ []
  none-later now later [] order h = refl
  none-later now later (t ∷ ts) order h = ground (arith, none-later now later ts order)

  -- The clean-up loses no hit that lies in a window to come.
  clean-later :
      (now later : ℕ) (key : String) (rate : List (String × List ℕ))
      → now ≤ later
      → IsMap rate
      → filter (within later window) (
          or_default (
            lookup key
              (filter (λ (entry : String × List ℕ). any (within now window) entry.1) rate)))
        ≡ filter (within later window) (or_default (lookup key rate))
  clean-later now later key rate order m =
      let p = any (within now window) in
      elim (Option-cases (lookup key rate)) [
        | inl absent ↦ let step = lookup-filter-none p key rate absent in rw (step, absent) refl
        | inr (hits, there) ↦ elim (Bool-cases (p hits)) [
          | inl recent ↦
              let step = lookup-filter-kept p key hits rate there recent in rw (step, there) refl
          | inr old ↦
              let step = lookup-filter-dropped p key hits rate m there old in
              let gone = none-later now later hits order old in rw (step, there) (sym gone)
        ]
      ]

  -- The table knows the granted calls of every window that ends at `now` or later.
  abbrev Knows : ℕ → List (String × ℕ) → List (String × List ℕ) → Type 0
  Knows now log rate =
      (later : ℕ) (key : String)
      → now ≤ later
      → filter (within later window) (times key log)
        ≡ filter (within later window) (or_default (lookup key rate))

  module _ (before now : ℕ) (log : List (String × ℕ)) (k : String) (rate : List (String × List ℕ))
      (order : before ≤ now) (knows : Knows before log rate) where
    abbrev hits : List ℕ
    hits = filter (within now window) (or_default (lookup k rate))

    knows-hits :
        (later : ℕ) (key : String)
        → now ≤ later
        → k ≡ key
        → filter (within later window) (times key log) ≡ filter (within later window) hits
    knows-hits later key after same =
        knows later key (omega (arith, order, after))
        ∙ ap (λ x. filter (within later window) (or_default (lookup x rate))) (sym same)
        ∙ sym (filter-later now later (or_default (lookup k rate)) after)

    refused-Knows : Knows now log (insert k hits rate)
    refused-Knows later key after =
        let step = lookup-insert k key hits rate in
        elim (Bool-cases (k == key)) [
          | inl hit ↦ rw (step, hit) (knows-hits later key after ((eq_iff k key).0 hit))
          | inr other ↦ rw (step, other) (knows later key (omega (arith, order, after)))
        ]

    granted-Knows : Knows now ((k, now) ∷ log) (insert k (now ∷ hits) rate)
    granted-Knows later key after =
        let step = lookup-insert k key (now ∷ hits) rate in
        elim (Bool-cases (k == key)) [
          | inl hit ↦
              let same = knows-hits later key after ((eq_iff k key).0 hit) in
              elim (Bool-cases (within later window now)) [
                | inl recent ↦ rw (step, hit, recent, same) refl
                | inr old ↦ rw (step, hit, old) same
              ]
          | inr other ↦ rw (step, other) (knows later key (omega (arith, order, after)))
        ]

  -- A call keeps what the table knows.
  allow-Knows :
      (before now : ℕ) (log : List (String × ℕ)) (a : Authority) (bucket ip : String) (max : ℕ)
      → before ≤ now
      → IsMap a.rate
      → Knows before log a.rate
      → IsMap (allow now bucket ip max window a).0.rate
        × Knows now
            (if (allow now bucket ip max window a).1
              then (bucket_key bucket ip, now) ∷ log
              else log)
            (allow now bucket ip max window a).0.rate
  unfolding allow
  allow-Knows before now log a bucket ip max order m knows =
      let k = bucket_key bucket ip in
      let kept = hits before now log k a.rate order knows in
      let granted = granted-Knows before now log k a.rate order knows in
      let m1 = insert-IsMap k (now ∷ kept) a.rate m in
      elim (Bool-cases (leb max (length kept))) [
        | inl full ↦
            rw full
              (insert-IsMap k kept a.rate m, refused-Knows before now log k a.rate order knows)
        | inr room ↦ elim (Bool-cases (ltb 50_000 (length (insert k (now ∷ kept) a.rate)))) [
          | inr small ↦ rw (room, small) (m1, granted)
          | inl big ↦
              let cleaned : Knows now ((k, now) ∷ log) (
                  filter (λ (entry : String × List ℕ). any (within now window) entry.1)
                    (insert k (now ∷ kept) a.rate)) =
                λ later key after.
                  granted later key after
                  ∙ sym (clean-later now later key (insert k (now ∷ kept) a.rate) after m1) in
              rw (room, big)
                (filter-IsMap (any (within now window)) (insert k (now ∷ kept) a.rate) m1, cleaned)
        ]
      ]

  Called-Knows :
      {t : ℕ} {log : List (String × ℕ)} {a : Authority}
      → Called t log a
      → IsMap a.rate × Knows t log a.rate
  unfolding IsMap lookup
  Called-Knows (start a empty_) = (rw empty_ tt, λ later key after. rw empty_ refl)
  Called-Knows (call before now log a bucket ip max run order) =
      let (m, knows) = Called-Knows run in allow-Knows before now log a bucket ip max order m knows

  -- In a run of calls from an empty table, in the order of time and with windows of one length, a call
  -- that is granted finds fewer granted calls of its bucket and address in the window than its limit, so
  -- that with it there are at most so many; whatever the limits and the buckets of the other calls, and
  -- whichever of them clean the table up.
  pub Called-bound :
      (t now : ℕ) (log : List (String × ℕ)) (a : Authority) (bucket ip : String) (max : ℕ)
      → Called t log a
      → t ≤ now
      → (allow now bucket ip max window a).1 ≡ true
      → length (filter (within now window) (times (bucket_key bucket ip) log)) + 1 ≤ max
  unfolding allow
  Called-bound t now log a bucket ip max run order granted =
      let k = bucket_key bucket ip in
      let same = (Called-Knows run).1 now k order in
      let kept = filter (within now window) (or_default (lookup k a.rate)) in
      elim (Bool-cases (leb max (length kept))) [
        | inl full ↦ absurd (ground arith)
        | inr room ↦ let fewer : length kept < max = ground arith in rw same (omega (arith, fewer))
      ]
