-- ===== src/Conn/Reach.antt =====
-- The states a client connection can reach by the operations of src/conn.rs, in any order, with the
-- challenges that the relay has sent on it, the latest first.
use floonet_rs.Base.{ℕ, ◌+◌, ◌≤◌, ◌<◌, String, ◌≡◌, Option, List, [], ◌∷◌}
use floonet_rs.Event.{Event, Json, Crypto}
use floonet_rs.Subscription.{Subscription}
use floonet_rs.Command.{Close}
use floonet_rs.Conn.{
  ClientConn, Nip42AuthState, new, subscribe, unsubscribe, generate_auth_challenge, no_auth,
  challenge, auth_pubkey, authenticate,
}
use floonet_rs.Conn.Auth.{Answers}
use floonet_rs.Conn.Subscriptions.{IsWellFormed}

module _ (j : Json) (c : Crypto) (host_str : String → Option String) (relay_url : String) where
  -- One operation on the connection. The clock shows a time ten minutes past the epoch at least.
  pub data Step : List String → ClientConn → List String → ClientConn → Type 0 where
    subscribes :
        (sent : List String) (conn : ClientConn) (s : Subscription)
        → Step sent conn sent (subscribe conn s).0
    unsubscribes :
        (sent : List String) (conn : ClientConn) (cmd : Close)
        → Step sent conn sent (unsubscribe conn cmd)
    challenges :
        (sent : List String) (conn : ClientConn) (uuid : String)
        → Step sent conn (uuid ∷ sent) (generate_auth_challenge uuid conn)
    authenticates :
        (sent : List String) (conn : ClientConn) (now : ℕ) (e : Event)
        → 600 ≤ now
        → now + 600 < 18446744073709551616
        → Step sent conn sent (authenticate j c host_str now conn e relay_url).0

  pub data Reachable : List String → ClientConn → Type 0 where
    opened : (ip uuid : String) → Reachable [] (new ip uuid)
    then_step :
        {sent sent1 : List String} {conn after : ClientConn}
        → Reachable sent conn
        → Step sent conn sent1 after
        → Reachable sent1 after

  -- Somebody proved to hold the key: an event of this author answered the latest challenge that was sent,
  -- for this relay.
  abbrev pub Proved : List String → String → Type 0
  Proved sent pubkey =
      (latest : String) × (earlier : List String) × (sent ≡ latest ∷ earlier)
      × (e : Event) × (now : ℕ) × Answers j c host_str now e latest relay_url
      × (e.pubkey ≡ pubkey)

  -- A challenge that stands open is the latest that was sent.
  abbrev pub IsProved : List String → Nip42AuthState → Type 0
  IsProved sent (auth_pubkey pubkey) = Proved sent pubkey
  IsProved sent (challenge open_) = (earlier : List String) × (sent ≡ open_ ∷ earlier)
  IsProved sent no_auth = Unit

  pub record IsSafe (sent : List String) (conn : ClientConn) : Type 0 where
    pub well_formed : IsWellFormed conn
    pub limit : conn.max_subs ≡ 32
    pub proved : IsProved sent conn.auth
