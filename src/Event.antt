-- ===== src/Event.antt =====
-- src/event.rs: the event, its kinds and tags, the index over its tags, and its validation.
-- Hashing, keys and signatures (bitcoin_hashes, secp256k1) and JSON text (serde_json) are
-- parameters. Times and kinds are 64-bit numbers. `tagidx` maps the scalar value of a character to
-- a set, which is a list in which no text is put twice.
pub mod Kinds
pub mod Integrity
pub mod Index
pub mod Validation
use Prim.Native.String.{[], ◌∷◌}
use mathlib.Core.List.{foldl}
use mathlib.Core.Option
use floonet_rs.Base.{
  ℕ, ◌+◌, ◌%◌, code, String, Bool, true, false, not, ◌&&◌, ◌||◌, Option, none, some, List, [], ◌∷◌,
  map, ◌==◌, nat_eq, string_eq, ltb, leb, if◌then◌else◌, length, any, all, filter, find, contains,
  lookup, insert, Result, ok, err,
}
use floonet_rs.Utils.{parse_u64, u64_mod}

pub record Event : Type 0 where
  pub id : String
  pub pubkey : String
  pub delegated_by : Option String
  pub created_at : ℕ
  pub kind : ℕ
  pub tags : List (List String)
  pub content : String
  pub sig : String
  pub tagidx : Option (List (ℕ × List String))

-- What reading the text of an event gives back: two fields are skipped by the serialization.
abbrev pub serialized : Event → Event
serialized e = record e { delegated_by = none; tagidx = none }

-- The set of texts of a tag query, and how it is matched.
pub data TagOperand : Type 0 where
  and : List String → TagOperand
  or : List String → TagOperand

unfoldable pub single_char_tagname : String → Option ℕ
single_char_tagname String.[] = none
single_char_tagname (c ∷ String.[]) = some (code c)
single_char_tagname (c ∷ d ∷ s) = none

unfoldable pub is_kind_metadata : Event → Bool
is_kind_metadata e = e.kind == 0

unfoldable pub is_ephemeral : Event → Bool
is_ephemeral e = leb 20000 e.kind && ltb e.kind 30000

unfoldable pub is_replaceable : Event → Bool
is_replaceable e =
    e.kind == 0 || e.kind == 3 || e.kind == 41 || (leb 10000 e.kind && ltb e.kind 20000)

unfoldable pub is_param_replaceable : Event → Bool
is_param_replaceable e = leb 30000 e.kind && ltb e.kind 40000

-- `tag.first() == Some(name)`
abbrev pub first_is : String → List String → Bool
first_is name [] = false
first_is name (t ∷ _) = t == name

-- `x.get(1).unwrap_or("")`
abbrev pub second_or_empty : List String → String
second_or_empty (_ ∷ v ∷ _) = v
second_or_empty _ = ""

unfoldable pub expiration : Event → Option ℕ
expiration e =
    Option.bind (Option.map second_or_empty (find (first_is "expiration") e.tags)) parse_u64

-- `now` is what `unix_time()` returns.
unfoldable pub is_expired : ℕ → Event → Bool
is_expired now e = elim (expiration e) [ none ↦ false | some exp ↦ leb exp now ]

unfoldable pub distinct_param : Event → Option String
distinct_param e =
    if is_param_replaceable e
    then some (elim (find (first_is "d") e.tags) [ none ↦ "" | some t ↦ second_or_empty t ])
    else none

-- The values of the tags of that name, over the tags with at least two elements.
unfoldable pub values_named : String → List (List String) → List String
values_named tag_name [] = []
values_named tag_name ((n ∷ v ∷ _) ∷ ts) =
    let rest = values_named tag_name ts in if n == tag_name then v ∷ rest else rest
values_named tag_name (_ ∷ ts) = values_named tag_name ts

unfoldable pub tag_values_by_name : Event → String → List String
unfolding values_named
tag_values_by_name e tag_name = values_named tag_name e.tags

-- `curr_time + allowable_future` wraps around at 64 bits.
unfoldable pub is_valid_timestamp : ℕ → Option ℕ → Event → Bool
is_valid_timestamp curr_time none e = true
is_valid_timestamp curr_time (some allowable_future) e =
    if ltb ((curr_time + allowable_future) % u64_mod) e.created_at then false else true

-- `HashSet::insert`
unfoldable pub set_insert : String → List String → List String
set_insert v vs = if contains vs v then vs else v ∷ vs

-- One round of the loop of `build_index`: tags of at least two elements, of a one-letter name.
index_tag : List (ℕ × List String) → List String → List (ℕ × List String)
unfolding set_insert
index_tag idx (name ∷ v ∷ _) = elim (single_char_tagname name) [
  | none ↦ idx
  | some c ↦ insert c (set_insert v (Option.get_or (lookup c idx) [])) idx
]
index_tag idx _ = idx

unfoldable pub build_index : Event → Event
unfolding index_tag
build_index e = elim e.tags [
  | [] ↦ e
  | t ∷ ts ↦ record e { tagidx = some (foldl index_tag [] (t ∷ ts)) }
]

-- `valset.intersection(v).count()`
abbrev pub common : List String → List String → ℕ
common valset v = length (filter (contains v) valset)

unfoldable pub operand_intersects : List String → TagOperand → Bool
operand_intersects valset (and v) = common valset v == length v
operand_intersects valset (or v) = ltb 0 (common valset v)

unfoldable pub generic_tag_val_intersect : Event → ℕ → TagOperand → Bool
generic_tag_val_intersect e tagname check = elim e.tagidx [
  | none ↦ false
  | some idx ↦ elim (lookup tagname idx) [
    | none ↦ false
    | some valset ↦ operand_intersects valset check
  ]
]

-- What `validate` refuses an event with.
pub data EventError : Type 0 where
  command_unknown could_not_canonicalize invalid_id invalid_signature malformed_pubkey : EventError

-- serde_json, as far as the source uses it here: the values that it builds, and their text.
pub record Json : Type 1 where
  pub Value : Type 0
  pub number : ℕ → Value
  pub string : String → Value
  pub array : List Value → Value
  pub to_string : Value → Option String

-- bitcoin_hashes and secp256k1: SHA-256, and the parts of a Schnorr signature.
pub record Crypto : Type 1 where
  pub Digest : Type 0
  pub Signature : Type 0
  pub Message : Type 0
  pub PublicKey : Type 0
  pub hash : String → Digest
  pub hex_digest : Digest → String
  pub signature : String → Option Signature
  pub message : Digest → Option Message
  pub public_key : String → Option PublicKey
  pub verify_schnorr : Signature → Message → PublicKey → Bool

module _ (j : Json) where
  tags_to_canonical : Event → j.Value
  tags_to_canonical e = j.array (map (λ t. j.array (map j.string t)) e.tags)

  unfoldable pub to_canonical : Event → Option String
  unfolding tags_to_canonical
  to_canonical e = j.to_string (
      j.array (
        j.number 0
        ∷ j.string e.pubkey
        ∷ j.number e.created_at
        ∷ j.number e.kind
        ∷ tags_to_canonical e
        ∷ j.string e.content
        ∷ []))

-- The end of `validate`: the signature against the digest, by the event's key.
check_signature : (c : Crypto) → c.Digest → Event → Result EventError Unit
check_signature c digest e = elim (c.signature e.sig) [
  | none ↦ err invalid_signature
  | some sig ↦ elim (c.message digest) [
    | none ↦ err invalid_signature
    | some msg ↦ elim (c.public_key e.pubkey) [
      | none ↦ err malformed_pubkey
      | some pubkey ↦ if c.verify_schnorr sig msg pubkey then ok tt else err invalid_signature
    ]
  ]
]

unfoldable pub validate : Json → Crypto → Event → Result EventError Unit
unfolding check_signature
validate j c e = elim (to_canonical j e) [
  | none ↦ err could_not_canonicalize
  | some text ↦
      if e.id == c.hex_digest (c.hash text)
      then check_signature c (c.hash text) e
      else err invalid_id
]
