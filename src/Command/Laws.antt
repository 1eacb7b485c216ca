-- ===== src/Command/Laws.antt =====
-- What reaches the server as a published event.
use floonet_rs.Base.{
  String, ◌≡◌, none, some, [], ◌∷◌, arith, eq_iff, eq_refl, find, ok, returns, panics,
}
use floonet_rs.Event.{Event, Json, Crypto, build_index}
use floonet_rs.Event.Index.{tags-build_index}
use floonet_rs.Event.Validation.{IsSigned, validate_iff}
use floonet_rs.Delegation.{Captures, is_delegation, delegated_author, update_delegation}
use floonet_rs.Delegation.Authors.{delegated_author_panics}
use floonet_rs.Command.{EventCmd, wrapped_event, wrap_event_cmd}

module _ (j : Json) (c : Crypto) (captures : Captures) where
  -- An event reaches the server as published only by an EVENT command and signed; it is the event of
  -- the command, indexed, and attributed to the author that its delegation tags give.
  pub wrapped_event_sound :
      (ec : EventCmd) (e : Event)
      → wrap_event_cmd j c captures ec ≡ returns (ok (wrapped_event e))
      → (ec.cmd ≡ "EVENT")
        × IsSigned j c ec.event
        × (delegated_author captures c (build_index ec.event) ≡ returns e.delegated_by)
        × (e ≡ record (build_index ec.event) { delegated_by = e.delegated_by })
  unfolding wrap_event_cmd update_delegation
  wrapped_event_sound ec e h = (
    ground (arith, eq_iff ec.cmd "EVENT", eq_iff ec.cmd "AUTH"),
    (validate_iff j c ec.event).0 (ground arith),
    ground arith,
    ground arith,
  )

  -- A signed event whose first delegation tag holds a malformed signature panics the connection.
  pub wrap_event_cmd_panics :
      (e : Event) (n d query sigstr : String)
      → IsSigned j c e
      → find is_delegation e.tags ≡ some (n ∷ d ∷ query ∷ sigstr ∷ [])
      → c.signature sigstr ≡ none
      → wrap_event_cmd j c captures (record { cmd = "EVENT"; event = e }) ≡ panics
  unfolding wrap_event_cmd
  wrap_event_cmd_panics e n d query sigstr signed found bad =
      let valid = (validate_iff j c e).1 signed in
      let here : find is_delegation (build_index e).tags ≡ some (n ∷ d ∷ query ∷ sigstr ∷ []) =
        rw tags-build_index found in
      let author =
        (delegated_author_panics captures c (build_index e) n d query sigstr here).1 bad in
      ground (arith, eq_refl "EVENT")
