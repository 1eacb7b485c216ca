-- ===== src/Event/Kinds.antt =====
-- The classes of event kinds of src/event.rs.
use floonet_rs.Base.{ℕ, ◌+◌, ◌≤◌, ◌<◌, ◌≡◌, refl, ◌≢◌, ◌↔◌, true, false, ◌&&◌, arith, none, some}
use floonet_rs.Event.{
  Event, is_ephemeral, is_replaceable, is_param_replaceable, distinct_param, is_valid_timestamp,
}

-- The three special classes exclude one another, and an event has a distinguishing parameter
-- exactly when its kind is parameterized replaceable.
pub kinds_disjoint :
    (e : Event)
    → ((is_ephemeral e && is_replaceable e) ≡ false)
      × ((is_ephemeral e && is_param_replaceable e) ≡ false)
      × ((is_replaceable e && is_param_replaceable e) ≡ false)
      × ((distinct_param e ≢ none) ↔ (is_param_replaceable e ≡ true))
unfolding is_ephemeral is_replaceable is_param_replaceable distinct_param
kinds_disjoint e = (ground arith, ground arith, ground arith, (ground arith, ground arith))

-- With a clock and an allowance whose sum fits in 64 bits, a timestamp is accepted exactly when it
-- is at most that sum; with no allowance every timestamp is.
pub is_valid_timestamp_iff :
    (now allowed : ℕ) (e : Event)
    → now + allowed < 18446744073709551616
    → ((is_valid_timestamp now (some allowed) e ≡ true) ↔ (e.created_at ≤ now + allowed))
      × (is_valid_timestamp now none e ≡ true)
unfolding is_valid_timestamp
is_valid_timestamp_iff now allowed e h = ((ground arith, ground arith), refl)
