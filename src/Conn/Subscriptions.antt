-- ===== src/Conn/Subscriptions.antt =====
-- The subscriptions of a connection: `subscribe`, `unsubscribe` and `has_subscription` (src/conn.rs).
use floonet_rs.Base.{
  ◌≤◌, ◌<◌, String, len, ◌≡◌, refl, ◌⊎◌, inl, inr, Option, none, some, ◌==◌, string_eq, arith,
  eq_iff, ok, err, Result, Bool-cases, Option-cases, List, length, lookup, insert, remove, All,
  All-insert, All-remove, IsMap, insert-IsMap, remove-IsMap, length-insert-le, length-remove-le,
  length-remove-present, lookup-insert, lookup-remove, if◌then◌else◌, ltb, leb,
}
use floonet_rs.Subscription.{Subscription}
use floonet_rs.Command.{Close}
use floonet_rs.Conn.{
  ClientConn, ConnError, sub_id_max_length, sub_max_exceeded, subscribe, unsubscribe,
}

-- A subscription is kept under its own identifier, which is not too long.
pub IsKept : String × Subscription → Type 0
IsKept entry = (entry.1.id ≡ entry.0) × (len entry.0 ≤ 256)

-- What every operation maintains.
pub record IsWellFormed (conn : ClientConn) : Type 0 where
  pub bounded : length conn.subscriptions ≤ conn.max_subs
  pub distinct : IsMap conn.subscriptions
  pub kept : All IsKept conn.subscriptions

abbrev pub subscription : ClientConn → String → Option Subscription
subscription conn id = lookup id conn.subscriptions

-- What `subscribe` does, in each of its four cases: the identifier is too long, is known and its
-- subscription is replaced, is one too many, or is added. Other subscriptions stay as they are.
pub data Subscribes (conn : ClientConn) (s : Subscription)
    : ClientConn × Result ConnError Unit → Type 0 where
  too_long : 256 < len s.id → Subscribes conn s (conn, err sub_id_max_length)
  too_many :
      len s.id ≤ 256
      → subscription conn s.id ≡ none
      → conn.max_subs ≤ length conn.subscriptions
      → Subscribes conn s (conn, err sub_max_exceeded)
  kept_as :
      (after : ClientConn)
      → len s.id ≤ 256
      → (((old : Subscription) × (subscription conn s.id ≡ some old))
          ⊎ (length conn.subscriptions < conn.max_subs))
      → ((id : String)
          → subscription after id ≡ (if s.id == id then some s else subscription conn id))
      → Subscribes conn s (after, ok tt)

-- The lookups of the map in which the entry of a key is removed first.
lookup-insert-remove :
    (k j : String) (v : Subscription) (m : List (String × Subscription))
    → lookup j (insert k v (remove k m)) ≡ (if k == j then some v else lookup j m)
lookup-insert-remove k j v m =
    let outer = lookup-insert k j v (remove k m) in
    let inner = lookup-remove k j m in ground (arith, eq_iff k j)

-- `subscribe` refuses an overlong identifier, and one new identifier more than the limit, and
-- changes nothing then; otherwise the identifier's subscription becomes the given one and every
-- other stays.
pub subscribe-Subscribes :
    (conn : ClientConn) (s : Subscription) → Subscribes conn s (subscribe conn s)
unfolding subscribe
subscribe-Subscribes conn s = elim (Bool-cases (ltb 256 (len s.id))) [
  | inl long ↦ rw long (too_long (ground arith))
  | inr short ↦ elim (Option-cases (lookup s.id conn.subscriptions)) [
    | inr (old, present) ↦
        rw (short, present)
          (kept_as _ (ground arith) (inl (old, present))
            (λ id. lookup-insert-remove s.id id s conn.subscriptions))
    | inl absent ↦ elim (Bool-cases (leb conn.max_subs (length conn.subscriptions))) [
      | inl full ↦ rw (short, absent, full) (too_many (ground arith) absent (ground arith))
      | inr room ↦
          rw (short, absent, room)
            (kept_as _ (ground arith) (inr (ground arith))
              (λ id. lookup-insert s.id id s conn.subscriptions))
    ]
  ]
]

-- `subscribe` keeps the connection well formed, whatever it answers.
pub subscribe-IsWellFormed :
    (conn : ClientConn) (s : Subscription) → IsWellFormed conn → IsWellFormed (subscribe conn s).0
unfolding subscribe IsKept
subscribe-IsWellFormed conn s w =
    let m = conn.subscriptions in
    elim (Bool-cases (ltb 256 (len s.id))) [
      | inl long ↦ rw long w
      | inr short ↦
          let entry : IsKept (s.id, s) = (refl, ground arith) in
          elim (Option-cases (lookup s.id m)) [
            | inr (old, present) ↦
                let step = length-insert-le s.id s (remove s.id m) in
                let gone = length-remove-present s.id m old present in
                let bound = w.bounded in
                rw (short, present)
                  (record {
                    bounded = omega arith;
                    distinct = insert-IsMap s.id s (remove s.id m) (remove-IsMap s.id m w.distinct);
                    kept =
                        All-insert IsKept s.id s (remove s.id m) entry
                          (All-remove IsKept s.id m w.kept);
                  })
            | inl absent ↦ elim (Bool-cases (leb conn.max_subs (length m))) [
              | inl full ↦ rw (short, absent, full) w
              | inr room ↦
                  let step = length-insert-le s.id s m in
                  rw (short, absent, room)
                    (record {
                      bounded = ground arith;
                      distinct = insert-IsMap s.id s m w.distinct;
                      kept = All-insert IsKept s.id s m entry w.kept;
                    })
            ]
          ]
    ]

-- `unsubscribe` ends the subscription that the command names and no other.
pub unsubscribe_lem :
    (conn : ClientConn) (c : Close) (id : String)
    → subscription (unsubscribe conn c) id ≡ (if c.id == id then none else subscription conn id)
unfolding unsubscribe
unsubscribe_lem conn c id = lookup-remove c.id id conn.subscriptions

pub unsubscribe-IsWellFormed :
    (conn : ClientConn) (c : Close) → IsWellFormed conn → IsWellFormed (unsubscribe conn c)
unfolding unsubscribe
unsubscribe-IsWellFormed conn c w =
    let step = length-remove-le c.id conn.subscriptions in
    let bound = w.bounded in
    record {
      bounded = omega arith;
      distinct = remove-IsMap c.id conn.subscriptions w.distinct;
      kept = All-remove IsKept c.id conn.subscriptions w.kept;
    }
