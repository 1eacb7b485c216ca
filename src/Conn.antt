-- ===== src/Conn.antt =====
-- src/conn.rs: the state of a client connection, its subscriptions and its NIP-42 authentication.
-- The URL parser (url) and the random identifiers (uuid) are parameters.
pub mod Subscriptions
pub mod Auth
pub mod Reach
use mathlib.Core.Option
use floonet_rs.Base.{
  ℕ, ◌+◌, ◌-◌, ◌%◌, String, len, Bool, true, false, not, ◌&&◌, ◌||◌, Option, none, some, List, [],
  ◌∷◌, ◌==◌, nat_eq, string_eq, ltb, leb, if◌then◌else◌, length, any, lookup, insert, remove,
  Result, ok, err,
}
use floonet_rs.Utils.{u64_mod}
use floonet_rs.Event.{Event, Json, Crypto, validate}
use floonet_rs.Subscription.{Subscription}
use floonet_rs.Subscription.Equality.{subscription_eq}
use floonet_rs.Command.{Close}

abbrev pub max_subscription_id_len : ℕ
max_subscription_id_len = 256

pub data Nip42AuthState : Type 0 where
  no_auth : Nip42AuthState
  challenge : String → Nip42AuthState
  auth_pubkey : String → Nip42AuthState

pub record ClientConn : Type 0 where
  pub client_ip_addr : String
  pub client_id : String
  pub subscriptions : List (String × Subscription)
  pub max_subs : ℕ
  pub auth : Nip42AuthState

pub data ConnError : Type 0 where
  sub_id_max_length sub_max_exceeded auth_failure : ConnError

-- `ClientConn::new`; `uuid` is the fresh identifier.
unfoldable pub new : (client_ip_addr uuid : String) → ClientConn
new client_ip_addr uuid = record {
  client_ip_addr = client_ip_addr;
  client_id = uuid;
  subscriptions = [];
  max_subs = 32;
  auth = no_auth;
}

-- Some subscription of the connection equals this one.
unfoldable pub has_subscription : ClientConn → Subscription → Bool
has_subscription conn sub =
    any (λ (entry : String × Subscription). subscription_eq entry.1 sub) conn.subscriptions

abbrev pub authed : Nip42AuthState → Option String
authed (auth_pubkey pubkey) = some pubkey
authed _ = none

abbrev pub challenged : Nip42AuthState → Option String
challenged (challenge sent) = some sent
challenged _ = none

-- `auth_pubkey` and `auth_challenge`
unfoldable pub conn_auth_pubkey : ClientConn → Option String
conn_auth_pubkey conn = authed conn.auth

unfoldable pub conn_auth_challenge : ClientConn → Option String
conn_auth_challenge conn = challenged conn.auth

abbrev is_present {ℓ} : {A : Type ℓ} → Option A → Bool
is_present none = false
is_present (some a) = true

unfoldable pub subscribe : ClientConn → Subscription → ClientConn × Result ConnError Unit
subscribe conn s =
    if ltb max_subscription_id_len (len s.id)
    then (conn, err sub_id_max_length)
    else if is_present (lookup s.id conn.subscriptions)
    then (record conn { subscriptions = insert s.id s (remove s.id conn.subscriptions) }, ok tt)
    else if leb conn.max_subs (length conn.subscriptions)
    then (conn, err sub_max_exceeded)
    else (record conn { subscriptions = insert s.id s conn.subscriptions }, ok tt)

unfoldable pub unsubscribe : ClientConn → Close → ClientConn
unsubscribe conn c = record conn { subscriptions = remove c.id conn.subscriptions }

-- `uuid` is the fresh identifier that is sent.
unfoldable pub generate_auth_challenge : String → ClientConn → ClientConn
generate_auth_challenge uuid conn = record conn { auth = challenge uuid }

-- The value that the loop over the tags leaves: that of the last tag of two elements and this name.
unfoldable pub last_value : String → Option String → List (List String) → Option String
last_value name found [] = found
last_value name found ((n ∷ v ∷ []) ∷ ts) = last_value name (if n == name then some v else found) ts
last_value name found (_ ∷ ts) = last_value name found ts

-- Both present and equal.
abbrev pub same_present : Option String → Option String → Bool
same_present (some a) (some b) = a == b
same_present _ _ = false

-- Neither older than ten minutes nor as far in the future; the cutoffs wrap around at 64 bits.
unfoldable pub is_recent : (now created_at : ℕ) → Bool
is_recent now created_at =
    let past_cutoff = (now + u64_mod - 600) % u64_mod in
    let future_cutoff = (now + 600) % u64_mod in
    not (ltb created_at past_cutoff || ltb future_cutoff created_at)

-- What the client has to prove.
unfoldable pub accepts :
    (host_str : String → Option String) (now : ℕ) → Event → String → String → Bool
accepts host_str now e sent relay_url =
    e.kind == 22242
    && is_recent now e.created_at
    && same_present (last_value "challenge" none e.tags) (some sent)
    && same_present (Option.bind (last_value "relay" none e.tags) host_str) (host_str relay_url)

module _ (j : Json) (c : Crypto) (host_str : String → Option String) where
  unfoldable pub authenticate_by :
      ℕ → Event → String → ClientConn → Nip42AuthState → ClientConn × Result ConnError Unit
  unfolding accepts
  authenticate_by now e relay_url conn no_auth = (conn, err auth_failure)
  authenticate_by now e relay_url conn (auth_pubkey _) = (conn, ok tt)
  authenticate_by now e relay_url conn (challenge sent) = elim (validate j c e) [
    | err _ ↦ (conn, err auth_failure)
    | ok _ ↦
        if accepts host_str now e sent relay_url
        then (record conn { auth = auth_pubkey e.pubkey }, ok tt)
        else (conn, err auth_failure)
  ]

  -- `ClientConn::authenticate`, at the time `now`
  unfoldable pub authenticate : ℕ → ClientConn → Event → String → ClientConn × Result ConnError Unit
  unfolding authenticate_by
  authenticate now conn e relay_url = authenticate_by now e relay_url conn conn.auth
