-- ===== src/Tests/Events.antt =====
-- Examples on events: kinds, signatures, tag queries, delegation and admission.
use floonet_rs.Utils.{parse_u64, is_lower_hex}
use floonet_rs.Base.{ℕ, String, ◌≡◌, refl, inl, inr, true, some, List, [], ◌∷◌, In, panics}
use floonet_rs.Event.{
  single_char_tagname, Event, Json, Crypto, validate, build_index, generic_tag_val_intersect, or,
  and, to_canonical,
}
use floonet_rs.Event.Validation.{validate_iff}
use floonet_rs.Event.Integrity.{IsInjective, validate-same_id}
use floonet_rs.Event.Index.Query.{or_iff, and_iff}
use floonet_rs.Delegation.{
  parse_query, validate_delegation, parse_field, parse_operator, split_terminator, collect,
  delegated_author, allows_event,
}
use floonet_rs.Delegation.Authors.{Delegates, delegated_author_sound}
use floonet_rs.Command.{wrap_event_cmd}
use floonet_rs.Command.Laws.{wrap_event_cmd_panics}
use floonet_rs.Admission.{author_policies, p_pubkeys, check, from_settings}
use floonet_rs.Admission.Pipeline.{Admits, check-allow_iff}
use floonet_rs.Tests.{json, crypto, text, captures, key_hex, event_of, note, gift_wrap, settings}

-- JSON values as trees, all of which have one text.
data Tree : Type 0 where
  number : ℕ → Tree
  string : String → Tree
  empty : Tree
  before : Tree → Tree → Tree

abbrev array_of : List Tree → Tree
array_of [] = empty
array_of (v ∷ vs) = before v (array_of vs)

array_of-IsInjective : IsInjective array_of
array_of-IsInjective [] [] e = refl
array_of-IsInjective [] (w ∷ ws) e = absurd (cc)
array_of-IsInjective (v ∷ vs) [] e = absurd (cc)
array_of-IsInjective (v ∷ vs) (w ∷ ws) e = let ih = array_of-IsInjective vs ws (cc) in cc

abbrev trees : Json
trees = record {
  Value = Tree;
  number = number;
  string = string;
  array = array_of;
  to_string = λ v. some "canonical";
}

-- Every signature verifies.
abbrev lenient : Crypto
lenient = record crypto { verify_schnorr = λ sig msg key. true }

-- The note with another signature.
abbrev signed_again : Event
signed_again = record note { sig = "again" }

validate-same_id_example :
    (note.pubkey ≡ signed_again.pubkey)
    × (note.created_at ≡ signed_again.created_at)
    × (note.kind ≡ signed_again.kind)
    × (note.tags ≡ signed_again.tags)
    × (note.content ≡ signed_again.content)
unfolding validate to_canonical
validate-same_id_example =
    validate-same_id trees lenient note signed_again
      (record { number = λ a b e. cc; string = λ a b e. cc; array = array_of-IsInjective })
      (λ s t of_e of_f e. e) (λ s of_e of_f. refl) refl refl refl

or_example : generic_tag_val_intersect (build_index note) 116 (or ("grin" ∷ [])) ≡ true
unfolding single_char_tagname
or_example = (or_iff note 116 ("grin" ∷ []) refl).1 (inl (inr (inl (refl, refl))))

and_example : generic_tag_val_intersect (build_index note) 116 (and ("grin" ∷ [])) ≡ true
unfolding single_char_tagname
and_example = (and_iff note 116 "grin" [] refl (absurd, tt)).1 (inr (inl (refl, refl)), tt)

abbrev delegated : Event
delegated = event_of 1 1000 (("delegation" ∷ "delegator" ∷ "kind=1" ∷ "malformed" ∷ []) ∷ [])

wrap_event_cmd_example :
    wrap_event_cmd json crypto captures (record { cmd = "EVENT"; event = delegated }) ≡ panics
unfolding validate to_canonical
wrap_event_cmd_example =
    wrap_event_cmd_panics json crypto captures delegated "delegation" "delegator" "kind=1"
      "malformed" ((validate_iff json crypto delegated).0 refl) refl refl

check-allow_example : Admits text settings gift_wrap (some key_hex)
unfolding check from_settings p_pubkeys is_lower_hex author_policies
check-allow_example = (check-allow_iff text settings gift_wrap (some key_hex)).0 refl

abbrev delegated_note : Event
delegated_note = event_of 1 1000 (("delegation" ∷ "delegator" ∷ "kind=1" ∷ "delegator" ∷ []) ∷ [])

delegated_author_example :
    (t : List String) × In t delegated_note.tags
    × Delegates captures crypto delegated_note "delegator" t
unfolding delegated_author validate_delegation parse_query collect split_terminator parse_field
    parse_operator parse_u64 allows_event
delegated_author_example = delegated_author_sound captures crypto delegated_note "delegator" refl
