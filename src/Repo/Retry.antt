-- ===== src/Repo/Retry.antt =====
-- The retries of `write_event` (src/repo/sqlite.rs).
use floonet_rs.Base.{
  ℕ, zero, suc, ◌+◌, ◌<◌, ◌≤◌, ◌≡◌, refl, ◌⊎◌, inl, inr, arith, Result, err, Result-cases,
}
use floonet_rs.Repo.Persist.{StoreError, write_loop, write_event}

module _ {A : Type 0} (attempt : ℕ → Result StoreError A) where
  -- The call number `n` is the last one of the loop that starts with the call `first`.
  abbrev pub IsLast : ℕ → ℕ → Type 0
  IsLast first n =
      (first ≤ n) × ((k : ℕ) → first ≤ k → k < n → attempt k ≡ err StoreError.sqlite_failure)

  loop-stops :
      (left first : ℕ)
      → (n : ℕ) × IsLast first n
        × (n ≤ first + left)
        × (write_loop attempt left first ≡ attempt n)
        × ((n ≡ first + left) ⊎ ¬ (attempt n ≡ err StoreError.sqlite_failure))
  unfolding write_loop
  loop-stops zero first =
      (first, (omega arith, λ k a b. absurd (omega arith)), omega arith, refl, inl (omega arith))
  loop-stops (suc left) first = elim (Result-cases (attempt first)) [
    | inl (a, fine) ↦ (
      first,
      (omega arith, λ k low high. absurd (omega arith)),
      omega arith,
      rw (fine, write_loop) refl,
      inr (λ failed. cc),
    )
    | inr (StoreError.conversion, failed) ↦ (
      first,
      (omega arith, λ k low high. absurd (omega arith)),
      omega arith,
      rw (failed, write_loop) refl,
      inr (λ busy. cc),
    )
    | inr (StoreError.sqlite_failure, failed) ↦
        let (n, (later, before), bound, same, ends) = loop-stops left (suc first) in
        (
          n,
          (
            omega arith,
            λ k low high. elim (from_first k first low) [
              | inl e ↦ rw e failed
              | inr above ↦ before k above high
            ],
          ),
          omega arith,
          rw (failed, write_loop) same,
          elim ends [ inl e ↦ inl (omega arith) | inr stop ↦ inr stop ],
        )
  ]
    where
      from_first : (k first : ℕ) → first ≤ k → (k ≡ first) ⊎ (suc first ≤ k)
      from_first k first low = ground arith

-- The write is over after at most ten calls: it gives what the first call gives that does not fail
-- with a busy database, or what the tenth gives.
pub write_event-stops :
    {A : Type 0} (attempt : ℕ → Result StoreError A)
    → (n : ℕ) × IsLast attempt 1 n
      × (n ≤ 10)
      × (write_event attempt ≡ attempt n)
      × ((n ≡ 10) ⊎ ¬ (attempt n ≡ err StoreError.sqlite_failure))
unfolding write_event
write_event-stops attempt = loop-stops attempt 9 1
