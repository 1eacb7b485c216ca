-- ===== src/Admission/Authors.antt =====
-- The authors of public notes, as the settings list them (src/admission.rs).
use floonet_rs.Base.{
  String, len, ◌≡◌, refl, sym, ap, ◌≢◌, ◌↔◌, ◌⊎◌, inl, inr, true, false, Option, none, some, List,
  [], ◌∷◌, nat_eq, string_eq, arith, eq_iff, Any, In, Option-cases, Bool-cases,
}
use floonet_rs.Utils.{Text, is_nip19, is_hex, nip19_to_hex}
use floonet_rs.Admission.{author_entry, push_author, from_entries}

In-push_author :
    (a : String) (o : Option String) (authors : List String)
    → In a (push_author o authors) ↔ ((o ≡ some a) ⊎ In a authors)
In-push_author a none authors = ((λ m. inr m), elim [ inl e ↦ cc e | inr m ↦ m ])
In-push_author a (some h) authors = (
  elim [ inl e ↦ inl (ap some (sym e)) | inr m ↦ inr m ],
  elim [ inl e ↦ inl (let same : a ≡ h = cc in same) | inr m ↦ inr m ],
)

module _ (t : Text) where
  -- The entry, without the blanks around it, stands for the key `hex`.
  abbrev pub Decodes : String → String → Type 0
  Decodes e hex =
      ((is_nip19 e ≡ true) × (nip19_to_hex t e ≡ some hex))
      ⊎ ((is_nip19 e ≡ false) × (len e ≡ 64) × (is_hex e ≡ true) × (hex ≡ t.to_lowercase e))

  -- The entry is not blank and stands for a key of 64 bytes, of which `a` is the lower-case form.
  abbrev pub Authorizes : String → String → Type 0
  Authorizes a entry =
      (t.trim entry ≢ "")
      × ((hex : String) × Decodes (t.trim entry) hex × (len hex ≡ 64) × (a ≡ t.to_lowercase hex))

  author_entry_sound : (entry a : String) → author_entry t entry ≡ some a → Authorizes a entry
  unfolding author_entry
  author_entry_sound entry a h =
      let e = t.trim entry in
      let present : e ≢ "" = ground (arith, eq_iff e "") in
      elim (Bool-cases (is_nip19 e)) [
        | inl nip19 ↦ elim (Option-cases (nip19_to_hex t e)) [
          | inl bad ↦ absurd (ground arith)
          | inr (hex, decoded) ↦ (present, (hex, inl (nip19, decoded), ground arith, ground arith))
        ]
        | inr plain ↦ (
          present,
          (
            t.to_lowercase e,
            inr (plain, ground arith, ground arith, refl),
            ground arith,
            ground arith,
          ),
        )
      ]

  author_entry_complete : (entry a : String) → Authorizes a entry → author_entry t entry ≡ some a
  unfolding author_entry
  author_entry_complete entry a h = ground (arith, eq_iff (t.trim entry) "")

  -- The authors are the keys that the entries stand for, whatever else the list holds: an entry that
  -- is blank or stands for no key adds nothing, and fails nothing.
  pub from_entries_iff :
      (entries : List String) (a : String)
      → In a (from_entries t entries) ↔ Any (Authorizes a) entries
  unfolding from_entries
  from_entries_iff [] a = ((λ m. m), (λ m. m))
  from_entries_iff (entry ∷ entries) a =
      let ih = from_entries_iff entries a in
      let push = In-push_author a (author_entry t entry) (from_entries t entries) in
      (
        λ m. elim (push.0 m) [
          | inl here ↦ inl (author_entry_sound entry a here)
          | inr later ↦ inr (ih.0 later)
        ],
        elim [
          | inl here ↦ push.1 (inl (author_entry_complete entry a here))
          | inr later ↦ push.1 (inr (ih.1 later))
        ],
      )
