-- ===== src/Server/Mixing/Priority.antt =====
-- Who has priority on a channel: the routes of a round in terms of its sessions and its frames.
use open_broadcast_intercom.Base.{
  ℕ, ◌≡◌, Bool, false, ◌&&◌, ◌||◌, Option, none, some, List, [], ◌∷◌, arith, ◌==◌, nat_eq,
  if◌then◌else◌, any, contains, set_insert, contains-set_insert, inl, inr, Option-cases,
}
use open_broadcast_intercom.Base.Map
use open_broadcast_intercom.Base.Map.{Map, get-modify, get-or_insert, contains_key-get}
use open_broadcast_intercom.Wire.Types.{AudioTarget, channel, direct, mixed}
use open_broadcast_intercom.Control.{target_eq}
use open_broadcast_intercom.Server.State.{Session}
use open_broadcast_intercom.Server.Sources.{ActiveSourceFrame}
use open_broadcast_intercom.Server.Mixing.Senders.{
  Sender, session_senders, is_server_virtual_source, add_frame, priority_with, no_routes,
  add_virtual, sender_routes,
}
use open_broadcast_intercom.Server.Mixing.Routing.{with_virtual_frame, get-session_senders}

abbrev pub priority_by : Option Sender → Bool
priority_by none = false
priority_by (some sender) = sender.priority

abbrev pub on_channel : Option Sender → ℕ → Bool
on_channel none id = false
on_channel (some sender) id = contains sender.priority_channels id

module _ {S : Type 0} where
  -- a frame of this user with priority
  abbrev pub is_priority_of : ℕ → ActiveSourceFrame S → Bool
  is_priority_of u frame = frame.user_id == u && frame.priority

  -- and for this channel
  abbrev pub is_priority_on : ℕ → ℕ → ActiveSourceFrame S → Bool
  is_priority_on u id frame = frame.user_id == u && frame.priority && (frame.target == channel id)

  contains-priority_with :
      (frame : ActiveSourceFrame S) (channels : List ℕ) (id : ℕ)
      → contains (priority_with frame channels) id
        ≡ (contains channels id || (frame.priority && (frame.target == channel id)))
  contains-priority_with frame channels id = go frame.target
    where
      go :
          (target : AudioTarget)
          → contains
              (elim target [
                | channel c ↦ if frame.priority then set_insert channels c else channels
                | direct _ ↦ channels
                | mixed ↦ channels
              ])
              id
            ≡ (contains channels id || (frame.priority && (target == channel id)))
      go (channel c) = ground (arith, contains-set_insert channels c id)
      go (direct user) = ground arith
      go mixed = ground arith

  priority-with_virtual_frame :
      (frame : ActiveSourceFrame S) (routes : Map Sender) (u : ℕ)
      → priority_by (Map.get (with_virtual_frame frame routes) u)
        ≡ (priority_by (Map.get routes u) || (is_server_virtual_source u && is_priority_of u frame))
  priority-with_virtual_frame frame routes u = elim (Option-cases (Map.get routes u)) [
    | inl e ↦ ground (
      arith,
      get-modify (Map.or_insert routes frame.user_id no_routes) frame.user_id u (add_frame frame),
      get-or_insert routes frame.user_id u no_routes,
      contains_key-get routes frame.user_id,
    )
    | inr (s, e) ↦ ground (
      arith,
      get-modify (Map.or_insert routes frame.user_id no_routes) frame.user_id u (add_frame frame),
      get-or_insert routes frame.user_id u no_routes,
      contains_key-get routes frame.user_id,
    )
  ]

  channel-with_virtual_frame :
      (frame : ActiveSourceFrame S) (routes : Map Sender) (u id : ℕ)
      → on_channel (Map.get (with_virtual_frame frame routes) u) id ≡ (
          on_channel (Map.get routes u) id
          || (is_server_virtual_source u && is_priority_on u id frame))
  unfolding contains
  channel-with_virtual_frame frame routes u id = elim (Option-cases (Map.get routes u)) [
    | inl e ↦ ground (
      arith,
      get-modify (Map.or_insert routes frame.user_id no_routes) frame.user_id u (add_frame frame),
      get-or_insert routes frame.user_id u no_routes,
      contains_key-get routes frame.user_id,
      contains-priority_with frame [] id,
    )
    | inr (s, e) ↦ ground (
      arith,
      get-modify (Map.or_insert routes frame.user_id no_routes) frame.user_id u (add_frame frame),
      get-or_insert routes frame.user_id u no_routes,
      contains_key-get routes frame.user_id,
      contains-priority_with frame s.priority_channels id,
    )
  ]

  priority-add_virtual :
      (frames : List (ActiveSourceFrame S)) (routes : Map Sender) (u : ℕ)
      → priority_by (Map.get (add_virtual frames routes) u) ≡ (
          priority_by (Map.get routes u)
          || (is_server_virtual_source u && any (is_priority_of u) frames))
  unfolding add_virtual any
  priority-add_virtual [] routes u = ground arith
  priority-add_virtual (frame ∷ frames) routes u = ground (
    arith,
    priority-add_virtual frames (with_virtual_frame frame routes) u,
    priority-with_virtual_frame frame routes u,
  )

  channel-add_virtual :
      (frames : List (ActiveSourceFrame S)) (routes : Map Sender) (u id : ℕ)
      → on_channel (Map.get (add_virtual frames routes) u) id ≡ (
          on_channel (Map.get routes u) id
          || (is_server_virtual_source u && any (is_priority_on u id) frames))
  unfolding add_virtual any
  channel-add_virtual [] routes u id = ground arith
  channel-add_virtual (frame ∷ frames) routes u id = ground (
    arith,
    channel-add_virtual frames (with_virtual_frame frame routes) u id,
    channel-with_virtual_frame frame routes u id,
  )

module _ {F S : Type 0} where
  -- the user speaks with priority: the session says so, or a frame of a source of the server does
  abbrev pub is_prior : Map (Session F) → List (ActiveSourceFrame S) → ℕ → Bool
  is_prior sessions frames u =
      elim (Map.get sessions u) [ none ↦ false | some session ↦ session.priority ]
      || (is_server_virtual_source u && any (is_priority_of u) frames)

  -- the user's priority counts on this channel, which the session lists, or for which a source of the
  -- server has a frame with priority
  abbrev pub is_prior_on : Map (Session F) → List (ActiveSourceFrame S) → ℕ → ℕ → Bool
  is_prior_on sessions frames u id =
      elim (Map.get sessions u) [
        | none ↦ false
        | some session ↦ contains session.priority_channels id
      ]
      || (is_server_virtual_source u && any (is_priority_on u id) frames)

  -- The user has priority on the channel.
  abbrev pub has_priority : Map (Session F) → List (ActiveSourceFrame S) → ℕ → ℕ → Bool
  has_priority sessions frames u id = is_prior sessions frames u && is_prior_on sessions frames u id

  pub sender_routes-has_priority :
      (sessions : Map (Session F)) (frames : List (ActiveSourceFrame S)) (u id : ℕ)
      → (priority_by (Map.get (sender_routes sessions frames) u)
          && on_channel (Map.get (sender_routes sessions frames) u) id)
        ≡ has_priority sessions frames u id
  unfolding sender_routes
  sender_routes-has_priority sessions frames u id = elim (Option-cases (Map.get sessions u)) [
    | inl e ↦ ground (
      arith,
      priority-add_virtual frames (session_senders sessions) u,
      channel-add_virtual frames (session_senders sessions) u id,
      get-session_senders sessions u,
    )
    | inr (s, e) ↦ ground (
      arith,
      priority-add_virtual frames (session_senders sessions) u,
      channel-add_virtual frames (session_senders sessions) u id,
      get-session_senders sessions u,
    )
  ]
