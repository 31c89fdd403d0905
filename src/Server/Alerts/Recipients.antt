-- ===== src/Server/Alerts/Recipients.antt =====
-- Who receives an alert.
use open_broadcast_intercom.Base.{
  ℕ, ◌≡◌, ◌∙◌, Bool, false, not, ◌&&◌, none, some, [], ◌∷◌, arith, ◌==◌, nat_eq, if◌then◌else◌,
  contains, contains-filter, filter, nat_beq_iff,
}
use open_broadcast_intercom.Base.Map
use open_broadcast_intercom.Base.Map.{contains-keys, contains_key-get}
use open_broadcast_intercom.Base.Sorted.{
  nat_ord, mem, mem-sorted_unique, IsStrict, sorted_unique-IsStrict,
}
use open_broadcast_intercom.Control.{AlertTarget, user, listeners}
use open_broadcast_intercom.Server.State.{Session, ServerState}
use open_broadcast_intercom.Server.Alerts.{
  is_live, live_user, live_listener, resolve_alert_recipients,
}

module _ {F : Type 0} where
  -- the target names the user, or a channel that the user listens to
  abbrev pub wants : AlertTarget → ℕ → Session F → Bool
  wants (user v) u session = v == u
  wants (listeners channel_id) u session = contains session.listen_channels channel_id

  -- a session that the target means, other than the sender's, and reachable now
  abbrev pub reaches : ServerState F → ℕ → ℕ → AlertTarget → ℕ → Bool
  reaches state now sender target u = elim (Map.get state.sessions u) [
    | none ↦ false
    | some session ↦ not (u == sender) && (wants target u session && is_live state now u session)
  ]

  mem-user :
      (state : ServerState F) (now sender v u : ℕ)
      → mem nat_ord (if live_user state now sender v then v ∷ [] else []) u
        ≡ reaches state now sender (user v) u
  unfolding contains live_user
  mem-user state now sender v u = ground (arith, nat_beq_iff v u)

  mem-listener :
      (state : ServerState F) (now sender channel_id u : ℕ)
      → mem nat_ord (filter (live_listener state now sender channel_id) (Map.keys state.sessions)) u
        ≡ reaches state now sender (listeners channel_id) u
  unfolding live_listener
  mem-listener state now sender channel_id u = ground (
    arith,
    contains-filter (live_listener state now sender channel_id) (Map.keys state.sessions) u,
    contains-keys state.sessions u,
    contains_key-get state.sessions u,
  )

  -- The recipients of an alert, in ascending order and each once, are exactly the users other than
  -- the sender who have a session, whom the target names or who listen to the channel it names, and
  -- who have a control connection or a fresh audio endpoint.
  pub recipients_exact :
      (state : ServerState F) (now sender : ℕ) (target : AlertTarget)
      → IsStrict nat_ord (resolve_alert_recipients state now sender target)
        × ((u : ℕ)
            → mem nat_ord (resolve_alert_recipients state now sender target) u
              ≡ reaches state now sender target u)
  unfolding resolve_alert_recipients
  recipients_exact state now sender (user v) = (
    sorted_unique-IsStrict nat_ord _,
    λ u. mem-sorted_unique nat_ord _ u ∙ mem-user state now sender v u,
  )
  recipients_exact state now sender (listeners channel_id) = (
    sorted_unique-IsStrict nat_ord _,
    λ u. mem-sorted_unique nat_ord _ u ∙ mem-listener state now sender channel_id u,
  )
