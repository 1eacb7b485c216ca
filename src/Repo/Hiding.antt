-- ===== src/Repo/Hiding.antt =====
-- What a deletion hides (src/repo/sqlite.rs, `persist_event`).
use floonet_rs.Base.{
  ℕ, ◌≡◌, refl, sym, ap, subst, ◌⊎◌, inl, inr, true, false, ◌&&◌, ◌==◌, nat_eq, string_eq, eq_iff,
  some, List, [], ◌∷◌, arith, In, Bool-cases, ok, if◌then◌else◌, String, contains, len,
  Option-cases,
}
use floonet_rs.Utils.{is_hex}
use floonet_rs.Event.{Event, tag_values_by_name, values_named}
use floonet_rs.Repo.{Row, Db, Codec, next_id, hide}
use floonet_rs.Repo.Persist.{persist_event, deleted_hashes}
use floonet_rs.Repo.Shape.{settle_deletions-cases, persist_event-cases, named_by}
use floonet_rs.Repo.Tables.{hide_events_witness}

-- The e tags of a list, with their second elements.
In-values_named :
    (name value : String) (more : List String) (ts : List (List String))
    → In (name ∷ value ∷ more) ts
    → In value (values_named name ts)
unfolding values_named
In-values_named name value more [] m = absurd m
In-values_named name value more ([] ∷ ts) (inl e) = absurd (cc)
In-values_named name value more ((n ∷ []) ∷ ts) (inl e) = absurd (cc)
In-values_named name value more ((n ∷ v ∷ vs) ∷ ts) (inl e) =
    let own : n ≡ name = cc in
    let same : value ≡ v = cc in let hit = (eq_iff n name).1 own in rw hit (inl same)
In-values_named name value more ([] ∷ ts) (inr m) = In-values_named name value more ts m
In-values_named name value more ((n ∷ []) ∷ ts) (inr m) = In-values_named name value more ts m
In-values_named name value more ((n ∷ v ∷ vs) ∷ ts) (inr m) =
    let ih = In-values_named name value more ts m in
    elim (Bool-cases (n == name)) [ inl hit ↦ rw hit (inr ih) | inr miss ↦ rw miss ih ]

-- A hash that is named is among those that are hidden.
contains-deleted_hashes :
    (h : Codec) (value hash : String) (vs : List String)
    → is_hex value ≡ true
    → len value ≡ 64
    → h.decode value ≡ some hash
    → In value vs
    → contains (deleted_hashes h vs) hash ≡ true
unfolding deleted_hashes
contains-deleted_hashes h value hash [] hex long decoded m = absurd m
contains-deleted_hashes h value hash (v ∷ vs) hex long decoded (inl e) =
    let own = (eq_iff hash hash).1 refl in
    subst (λ x. contains (deleted_hashes h (x ∷ vs)) hash ≡ true) e
      (rw (deleted_hashes, hex, long, decoded) (ground arith))
contains-deleted_hashes h value hash (v ∷ vs) hex long decoded (inr m) =
    let ih = contains-deleted_hashes h value hash vs hex long decoded m in
    elim (Bool-cases (is_hex v && len v == 64)) [
      | inr other ↦ rw (deleted_hashes, other) ih
      | inl fits ↦ elim (Option-cases (h.decode v)) [
        | inl unread ↦ rw (deleted_hashes, fits, unread) ih
        | inr (hash1, read) ↦ rw (deleted_hashes, fits, read) (ground arith)
      ]
    ]

-- A deletion that is saved hides what it names: if an e tag has the 64 hexadecimal digits of a hash, then
-- no row of the deletion's author with this hash is visible, other than deletions and gift wraps.
pub persist_event_deletes :
    (h : Codec) (e : Event) (db after : Db) (n : ℕ) (r : Row) (value : String) (more : List String)
    → e.kind ≡ 5
    → n ≡ 1
    → persist_event h e db ≡ ok (after, n)
    → In ("e" ∷ value ∷ more) e.tags
    → is_hex value ≡ true
    → len value ≡ 64
    → h.decode value ≡ some r.event_hash
    → In r after.events
    → r.hidden ≡ false
    → h.decode e.pubkey ≡ some r.author
    → (r.kind ≡ 5) ⊎ (r.kind ≡ 1059)
unfolding tag_values_by_name
persist_event_deletes h e db after n r value more kind one done tag hex long decoded m visible
      mine =
    let named : contains (deleted_hashes h (tag_values_by_name e "e")) r.event_hash ≡ true =
      contains-deleted_hashes h value r.event_hash (tag_values_by_name e "e") hex long decoded
        (In-values_named "e" value more e.tags tag) in
    elim (persist_event-cases h e db after n done) [
      | inl (same, nothing) ↦ absurd (cc)
      | inr (newer, newer_param, row, inserted, is_row, settled) ↦
          elim (settle_deletions-cases h e (next_id db.events) _ after n settled) [
            | inl (author, deletion, known, same, saved) ↦
                let (s, there, from) =
                  hide_events_witness _ _ r (subst (λ (d : Db). In r d.events) same m) in
                spared s author named (cc) from
            | inr (inl (same, ignored)) ↦ absurd (cc)
            | inr (inr (other, stays, same, saved)) ↦ absurd (ground arith)
          ]
    ]
  where
    spared :
        (s : Row) (author : String)
        → contains (deleted_hashes h (tag_values_by_name e "e")) r.event_hash ≡ true
        → r.author ≡ author
        → r ≡ (if named_by h e author s then hide s else s)
        → (r.kind ≡ 5) ⊎ (r.kind ≡ 1059)
    spared s author named mine1 from = elim (Bool-cases (named_by h e author s)) [
      | inl hit ↦
          let gone : r ≡ hide s = rw hit at from in
          let no_way : r.hidden ≡ true = ap (λ (x : Row). x.hidden) gone in absurd (cc)
      | inr miss ↦
          let same : r ≡ s = rw miss at from in
          let miss1 : named_by h e author r ≡ false =
            subst (λ x. named_by h e author x ≡ false) (sym same) miss in
          let own = (eq_iff r.author author).1 mine1 in ground arith
    ]
