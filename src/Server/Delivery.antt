-- ===== src/Server/Delivery.antt =====
-- Who is sent a broadcast event (src/server.rs, `allowed_to_send`).
use floonet_rs.Base.{
  String, ◌≡◌, refl, ap, subst, ◌⊎◌, inl, inr, Bool, true, false, ◌||◌, Option, none, some, List,
  [], ◌∷◌, ◌==◌, nat_eq, string_eq, eq_iff, arith, In, Bool-cases, Option-cases,
}
use floonet_rs.Event.{Event, serialized, tag_values_by_name}
use floonet_rs.Subscription.{Subscription, interested_in_event}
use floonet_rs.Conn.{ClientConn, conn_auth_pubkey}
use floonet_rs.Server.{is_private_kind, is_party, allowed_to_send, send_broadcast}

-- The key is the first recipient or the author, where there is a recipient.
abbrev pub IsParty : String → Event → Type 0
IsParty key e =
    (recipient : String) × (others : List String) × (tag_values_by_name e "p" ≡ recipient ∷ others)
    × ((recipient ≡ key) ⊎ (e.pubkey ≡ key))

is_party_iff :
    (authed : Option String) (e : Event)
    → is_party authed e ≡ true
    → (key : String) × (authed ≡ some key) × IsParty key e
unfolding is_party
is_party_iff none e h = absurd (cc)
is_party_iff (some key) e h = go (tag_values_by_name e "p") refl
  where
    go :
        (vs : List String)
        → tag_values_by_name e "p" ≡ vs
        → (k : String) × (some key ≡ some k) × IsParty k e
    go [] nothing = let no_way : false ≡ true = rw (is_party, nothing) at h in absurd (cc)
    go (recipient ∷ others) listed =
        let hit : (recipient == key || e.pubkey == key) ≡ true = rw (is_party, listed) at h in
        let who : (recipient ≡ key) ⊎ (e.pubkey ≡ key) = elim (Bool-cases (recipient == key)) [
          | inl same ↦ inl ((eq_iff recipient key).0 same)
          | inr other ↦ inr ((eq_iff e.pubkey key).0 (ground arith))
        ] in
        (key, refl, (recipient, others, listed, who))

-- Why the event is sent for that subscription.
abbrev pub Delivered : ClientConn → Bool → Event → List (String × Subscription) → String → Type 0
Delivered conn nip42_dms e subs id =
    (sub : Subscription) × In (id, sub) subs
    × (interested_in_event sub e ≡ true)
    × (nip42_dms ≡ true
        → is_private_kind e.kind ≡ true
        → (key : String) × (conn_auth_pubkey conn ≡ some key) × IsParty key e)

-- What may be sent of a private kind, where that is restricted, goes to a party.
allowed_to_send-IsParty :
    (conn : ClientConn) (nip42_dms : Bool) (e : Event)
    → allowed_to_send (some e) conn nip42_dms ≡ true
    → nip42_dms ≡ true
    → is_private_kind e.kind ≡ true
    → (key : String) × (conn_auth_pubkey conn ≡ some key) × IsParty key e
unfolding allowed_to_send
allowed_to_send-IsParty conn nip42_dms e granted on private =
    is_party_iff (conn_auth_pubkey conn) e (rw (on, private) at granted)

-- A broadcast event is sent only for a subscription of the connection that is interested in it; and where
-- private messages are restricted and its text reads back as the event without the fields that are not
-- serialized, an encrypted message or a gift wrap goes only to a client that is authenticated as its first
-- recipient or as its author.
pub send_broadcast_sound :
    (to_string : Event → Option String) (from_str : String → Option Event) (conn : ClientConn)
    (nip42_dms : Bool) (e : Event) (subs : List (String × Subscription)) (id : String)
    → ((text : String) → to_string e ≡ some text → from_str text ≡ some (serialized e))
    → In id (send_broadcast to_string from_str conn nip42_dms e subs)
    → Delivered conn nip42_dms e subs id
unfolding send_broadcast tag_values_by_name
send_broadcast_sound to_string from_str conn nip42_dms e [] id reads m = absurd m
send_broadcast_sound to_string from_str conn nip42_dms e ((id1, sub) ∷ rest) id reads m =
    let ih = send_broadcast_sound to_string from_str conn nip42_dms e rest id reads in
    let later : In id (send_broadcast to_string from_str conn nip42_dms e rest)
        → Delivered conn nip42_dms e ((id1, sub) ∷ rest) id =
      λ m1. let (s, there, wants, party) = ih m1 in (s, inr there, wants, party) in
    elim (Bool-cases (interested_in_event sub e)) [
      | inr bored ↦ later (rw bored at m)
      | inl keen ↦ elim (Option-cases (to_string e)) [
        | inl unprintable ↦ later (rw (keen, unprintable) at m)
        | inr (text, printed) ↦ elim (Bool-cases (allowed_to_send (from_str text) conn nip42_dms)) [
          | inr refused ↦ later (rw (keen, printed, refused) at m)
          | inl granted ↦
              let m1 : In id (id1 ∷ send_broadcast to_string from_str conn nip42_dms e rest) =
                rw (keen, printed, granted) at m in
              elim m1 [
                | inr m2 ↦ later m2
                | inl same ↦ (
                  sub,
                  inl (ap (λ x. (x, sub)) same),
                  keen,
                  allowed_to_send-IsParty conn nip42_dms (serialized e) (
                      subst (λ (o : Option Event). allowed_to_send o conn nip42_dms ≡ true)
                        (reads text printed) granted),
                )
              ]
        ]
      ]
    ]
