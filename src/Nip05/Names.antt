-- ===== src/Nip05/Names.antt =====
-- Parsing and printing the names of verified users, and records that fail (src/nip05.rs).
use Prim.Native.String.{[], ◌∷◌, ◌++◌}
use text.Mathlib.TextLemmas.{nil-append, cons-append}
use floonet_rs.Base.{
  ℕ, zero, suc, ◌+◌, Char, code, String, ◌≡◌, refl, sym, ap, ◌∙◌, subst, ◌↔◌, ◌⊎◌, inl, inr, Bool,
  true, false, not, Option, none, some, List, [], ◌∷◌, ◌==◌, nat_eq, string_eq, nat_beq_iff, arith,
  if◌then◌else◌, Bool-cases, ok, err, Result, leb,
}
use floonet_rs.Utils.{all_chars}
use floonet_rs.Nip05.{
  Nip05Name, NameError, split, local_char, domain_char, try_from, display, VerificationRecord,
  VerifiedUsers, UserWebVerificationStatus, do_reverify, reverified, Reverification,
}

-- A text without the separator is one part.
split-free :
    (sep : ℕ) (s : String) → all_chars (λ x. not (x == sep)) s ≡ true → split sep s ≡ s ∷ []
unfolding split
split-free sep String.[] h = refl
split-free sep (c ∷ s) h =
    let miss : code c == sep ≡ false = ground arith in
    let ih = split-free sep s (ground arith) in rw (miss, ih) refl

split-joined :
    (sep : Char) (s t : String)
    → all_chars (λ x. not (x == code sep)) s ≡ true
    → all_chars (λ x. not (x == code sep)) t ≡ true
    → split (code sep) (s ++ ((sep ∷ "") ++ t)) ≡ s ∷ t ∷ []
unfolding split
split-joined sep String.[] t h k =
    let hit : code sep == code sep ≡ true = ground arith in
    let shape : "" ++ ((sep ∷ "") ++ t) ≡ sep ∷ t =
      nil-append ((sep ∷ "") ++ t) ∙ cons-append sep "" t ∙ ap (λ u. sep ∷ u) (nil-append t) in
    subst (λ u. split (code sep) u ≡ "" ∷ t ∷ []) (sym shape)
      (rw (hit, split-free (code sep) t k) refl)
split-joined sep (c ∷ s) t h k =
    let miss : code c == code sep ≡ false = ground arith in
    let ih = split-joined sep s t (ground arith) k in
    subst (λ u. split (code sep) u ≡ (c ∷ s) ∷ t ∷ []) (sym (cons-append c s ((sep ∷ "") ++ t)))
      (rw (miss, ih) refl)

all_chars-imp :
    (p q : ℕ → Bool) (s : String)
    → ((x : ℕ) → p x ≡ true → q x ≡ true)
    → all_chars p s ≡ true
    → all_chars q s ≡ true
all_chars-imp p q String.[] h k = refl
all_chars-imp p q (c ∷ s) h k =
    let here = h (code c) (ground arith) in
    let later = all_chars-imp p q s h (ground arith) in rw (here, later) refl

module _ (is_alphanumeric : ℕ → Bool) where
  -- The parts of a name that was parsed consist of the characters that are allowed in them.
  try_from-parts :
      (s : String) (n : Nip05Name)
      → try_from is_alphanumeric s ≡ ok n
      → (all_chars (local_char is_alphanumeric) n.local ≡ true)
        × (all_chars (domain_char is_alphanumeric) n.domain ≡ true)
  unfolding try_from
  try_from-parts s n h = go (split b'@' s) refl
    where
      go :
          (parts : List String)
          → split b'@' s ≡ parts
          → (all_chars (local_char is_alphanumeric) n.local ≡ true)
            × (all_chars (domain_char is_alphanumeric) n.domain ≡ true)
      go [] e =
          let no_way : Path (Result NameError Nip05Name) (err _) (ok n) = rw (try_from, e) at h in
          absurd (cc)
      go (a ∷ []) e =
          let no_way : Path (Result NameError Nip05Name) (err _) (ok n) = rw (try_from, e) at h in
          absurd (cc)
      go (a ∷ b ∷ c ∷ more) e =
          let no_way : Path (Result NameError Nip05Name) (err _) (ok n) = rw (try_from, e) at h in
          absurd (cc)
      go (a ∷ b ∷ []) e = elim (Bool-cases (all_chars (local_char is_alphanumeric) a)) [
        | inr bad ↦
            let no_way : Path (Result NameError Nip05Name) (err _) (ok n) =
              rw (try_from, e, bad) at h in
            absurd (cc)
        | inl fine ↦ elim (Bool-cases (all_chars (domain_char is_alphanumeric) b)) [
          | inr bad ↦
              let no_way : Path (Result NameError Nip05Name) (err _) (ok n) =
                rw (try_from, e, fine, bad) at h in
              absurd (cc)
          | inl fine1 ↦
              let same : Path (Result NameError Nip05Name) (ok (record { local = a; domain = b }))
                  (ok n) =
                rw (try_from, e, fine, fine1) at h in
              (cc, cc)
        ]
      ]

  -- Where `@` is not alphanumeric, printing a name and parsing the text gives the name back exactly if
  -- its parts consist of the characters that are allowed in them, as those of every parsed name do.
  pub display-try_from_iff :
      is_alphanumeric 64 ≡ false
      → (n : Nip05Name)
      → ((try_from is_alphanumeric (display n) ≡ ok n) ↔ (
          (all_chars (local_char is_alphanumeric) n.local ≡ true)
          × (all_chars (domain_char is_alphanumeric) n.domain ≡ true)))
        × ((s : String)
            → try_from is_alphanumeric s ≡ ok n
            → try_from is_alphanumeric (display n) ≡ ok n)
  unfolding try_from display local_char domain_char
  display-try_from_iff plain n =
      ((try_from-parts (display n) n, back), λ s parsed. back (try_from-parts s n parsed))
    where
      back :
          (all_chars (local_char is_alphanumeric) n.local ≡ true)
            × (all_chars (domain_char is_alphanumeric) n.domain ≡ true)
          → try_from is_alphanumeric (display n) ≡ ok n
      back (fine, fine1) =
          let free =
            all_chars-imp (local_char is_alphanumeric) (λ x. not (x == b'@')) n.local
              (λ x h. elim (Bool-cases (x == b'@')) [
                | inl at ↦
                    let same = (nat_beq_iff x b'@').0 at in
                    let no_way : is_alphanumeric x ≡ false =
                      subst (λ k. is_alphanumeric k ≡ false) (sym same) plain in
                    absurd (ground arith)
                | inr differs ↦ rw differs refl
              ])
              fine in
          let free1 =
            all_chars-imp (domain_char is_alphanumeric) (λ x. not (x == b'@')) n.domain
              (λ x h. elim (Bool-cases (x == b'@')) [
                | inl at ↦
                    let same = (nat_beq_iff x b'@').0 at in
                    let no_way : is_alphanumeric x ≡ false =
                      subst (λ k. is_alphanumeric k ≡ false) (sym same) plain in
                    absurd (ground arith)
                | inr differs ↦ rw differs refl
              ])
              fine1 in
          let parts : split b'@' (display n) ≡ n.local ∷ n.domain ∷ [] =
            split-joined "@" n.local n.domain free free1 in
          rw (try_from, parts, fine, fine1) refl

-- Rounds of reverification of one record, each with the answer of its domain.
abbrev pub rounds :
    VerifiedUsers
    → (ℕ → ℕ)
    → (ℕ → UserWebVerificationStatus)
    → ℕ
    → Option VerificationRecord
    → Option VerificationRecord
rounds s now answer zero o = o
rounds s now answer (suc k) none = none
rounds s now answer (suc k) (some v) =
    rounds s (λ i. now (suc i)) (λ i. answer (suc i)) k
      (reverified (now 0) v (do_reverify s v (answer 0)))

-- The answer verifies nothing, but does not rescind the name either.
abbrev pub IsFailure : UserWebVerificationStatus → Type 0
IsFailure w =
    (w ≡ UserWebVerificationStatus.unknown) ⊎ (w ≡ UserWebVerificationStatus.domain_not_allowed)

do_reverify-failure :
    (s : VerifiedUsers) (v : VerificationRecord) (w : UserWebVerificationStatus)
    → IsFailure w
    → do_reverify s v w ≡ (
        if leb s.max_consecutive_failures v.failure_count
        then Reverification.delete_verification v.rowid
        else Reverification.fail_verification v.rowid)
unfolding do_reverify
do_reverify-failure s v w (inl e) = rw e refl
do_reverify-failure s v w (inr e) = rw e refl

-- A name whose domain keeps failing is given up: after as many failing rounds as the limit exceeds
-- the failures counted before, and one more, the record is gone.
pub rounds-gives_up :
    (s : VerifiedUsers) (now : ℕ → ℕ) (answer : ℕ → UserWebVerificationStatus) (k : ℕ)
    (v : VerificationRecord)
    → ((i : ℕ) → IsFailure (answer i))
    → v.failure_count + k ≡ s.max_consecutive_failures
    → rounds s now answer (suc k) (some v) ≡ none
unfolding do_reverify reverified
rounds-gives_up s now answer zero v fails full =
    let enough : leb s.max_consecutive_failures v.failure_count ≡ true = ground arith in
    rw (do_reverify-failure s v (answer 0) (fails 0), enough) refl
rounds-gives_up s now answer (suc k) v fails room =
    let more : leb s.max_consecutive_failures v.failure_count ≡ false = ground arith in
    let next : VerificationRecord = record v {
      last_failure = some (now 0);
      failure_count = v.failure_count + 1;
    } in
    let one : reverified (now 0) v (do_reverify s v (answer 0)) ≡ some next =
      rw (do_reverify-failure s v (answer 0) (fails 0), more) refl in
    subst (λ o. rounds s (λ i. now (suc i)) (λ i. answer (suc i)) (suc k) o ≡ none) (sym one)
      (rounds-gives_up s (λ i. now (suc i)) (λ i. answer (suc i)) k next (λ i. fails (suc i))
        (omega (arith, room)))
