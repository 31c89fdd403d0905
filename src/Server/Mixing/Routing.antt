-- ===== src/Server/Mixing/Routing.antt =====
-- Who sends where: the routes of a round in terms of its sessions and its frames.
use open_broadcast_intercom.Base.{
  ℕ, ◌≡◌, refl, Bool, true, false, ◌&&◌, ◌||◌, Option, none, some, List, [], ◌∷◌, arith, ◌==◌,
  nat_eq, if◌then◌else◌, any, contains, contains-set_insert, inl, inr, Option-cases,
}
use mathlib.Core.Option
use open_broadcast_intercom.Base.Map
use open_broadcast_intercom.Base.Map.{Map, get-modify, get-or_insert, contains_key-get}
use open_broadcast_intercom.Wire.Types.{AudioTarget}
use open_broadcast_intercom.Control.{target_eq}
use open_broadcast_intercom.Server.State.{Session}
use open_broadcast_intercom.Server.Sources.{ActiveSourceFrame}
use open_broadcast_intercom.Server.Routes.{session_tx_targets}
use open_broadcast_intercom.Server.Mixing.Senders.{
  Sender, sender_of, session_senders, is_server_virtual_source, add_frame, no_routes, add_virtual,
  sender_routes,
}

abbrev pub sends_by : Option Sender → AudioTarget → Bool
sends_by none target = false
sends_by (some sender) target = contains sender.targets target

abbrev pub is_some : {A : Type 0} → Option A → Bool
is_some none = false
is_some (some _) = true

module _ {S : Type 0} where
  -- a frame of this user, for this target
  abbrev pub is_frame_of : ℕ → AudioTarget → ActiveSourceFrame S → Bool
  is_frame_of u target frame = frame.user_id == u && frame.target == target

  abbrev pub is_from : ℕ → ActiveSourceFrame S → Bool
  is_from u frame = frame.user_id == u

  -- one round of the loop over the frames
  abbrev pub with_virtual_frame : ActiveSourceFrame S → Map Sender → Map Sender
  with_virtual_frame frame routes =
      if is_server_virtual_source frame.user_id
      then Map.modify (Map.or_insert routes frame.user_id no_routes) frame.user_id (add_frame frame)
      else routes

  get-with_virtual_frame :
      (frame : ActiveSourceFrame S) (routes : Map Sender) (u : ℕ) (target : AudioTarget)
      → sends_by (Map.get (with_virtual_frame frame routes) u) target ≡ (
          sends_by (Map.get routes u) target
          || (is_server_virtual_source u && is_frame_of u target frame))
  unfolding contains
  get-with_virtual_frame frame routes u target = elim (Option-cases (Map.get routes u)) [
    | inl e ↦ ground (
      arith,
      get-modify (Map.or_insert routes frame.user_id no_routes) frame.user_id u (add_frame frame),
      get-or_insert routes frame.user_id u no_routes,
      contains_key-get routes frame.user_id,
      contains-set_insert {A = AudioTarget} [] frame.target target,
    )
    | inr (s, e) ↦ ground (
      arith,
      get-modify (Map.or_insert routes frame.user_id no_routes) frame.user_id u (add_frame frame),
      get-or_insert routes frame.user_id u no_routes,
      contains_key-get routes frame.user_id,
      contains-set_insert s.targets frame.target target,
    )
  ]

  known-with_virtual_frame :
      (frame : ActiveSourceFrame S) (routes : Map Sender) (u : ℕ)
      → is_some (Map.get (with_virtual_frame frame routes) u)
        ≡ (is_some (Map.get routes u) || (is_server_virtual_source u && is_from u frame))
  known-with_virtual_frame frame routes u = elim (Option-cases (Map.get routes u)) [
    | inl e ↦ ground (
      arith,
      get-modify (Map.or_insert routes frame.user_id no_routes) frame.user_id u (add_frame frame),
      get-or_insert routes frame.user_id u no_routes,
      contains_key-get routes frame.user_id,
    )
    | inr (s, e) ↦ ground (
      arith,
      get-modify (Map.or_insert routes frame.user_id no_routes) frame.user_id u (add_frame frame),
      get-or_insert routes frame.user_id u no_routes,
      contains_key-get routes frame.user_id,
    )
  ]

  sends-add_virtual :
      (frames : List (ActiveSourceFrame S)) (routes : Map Sender) (u : ℕ) (target : AudioTarget)
      → sends_by (Map.get (add_virtual frames routes) u) target ≡ (
          sends_by (Map.get routes u) target
          || (is_server_virtual_source u && any (is_frame_of u target) frames))
  unfolding add_virtual any
  sends-add_virtual [] routes u target = ground arith
  sends-add_virtual (frame ∷ frames) routes u target = ground (
    arith,
    sends-add_virtual frames (with_virtual_frame frame routes) u target,
    get-with_virtual_frame frame routes u target,
  )

  known-add_virtual :
      (frames : List (ActiveSourceFrame S)) (routes : Map Sender) (u : ℕ)
      → is_some (Map.get (add_virtual frames routes) u)
        ≡ (is_some (Map.get routes u) || (is_server_virtual_source u && any (is_from u) frames))
  unfolding add_virtual any
  known-add_virtual [] routes u = ground arith
  known-add_virtual (frame ∷ frames) routes u = ground (
    arith,
    known-add_virtual frames (with_virtual_frame frame routes) u,
    known-with_virtual_frame frame routes u,
  )

module _ {F : Type 0} where
  pub get-session_senders :
      (sessions : Map (Session F)) (u : ℕ)
      → Map.get (session_senders sessions) u ≡ Option.map sender_of (Map.get sessions u)
  unfolding Map.get session_senders
  get-session_senders [] u = refl
  get-session_senders ((v, session) ∷ sessions) u = ground (arith, get-session_senders sessions u)

module _ {F S : Type 0} where
  -- The user may send to the target: the user's session says so, or the user is a source of the
  -- server, which has a frame for the target in this round.
  abbrev pub may_send : Map (Session F) → List (ActiveSourceFrame S) → ℕ → AudioTarget → Bool
  may_send sessions frames u target =
      elim (Map.get sessions u) [
        | none ↦ false
        | some session ↦ contains (session_tx_targets session) target
      ]
      || (is_server_virtual_source u && any (is_frame_of u target) frames)

  -- the user has a session, or is a source of the server that has a frame in this round
  abbrev pub is_known : Map (Session F) → List (ActiveSourceFrame S) → ℕ → Bool
  is_known sessions frames u =
      is_some (Map.get sessions u) || (is_server_virtual_source u && any (is_from u) frames)

  pub sender_routes-may_send :
      (sessions : Map (Session F)) (frames : List (ActiveSourceFrame S)) (u : ℕ)
      (target : AudioTarget)
      → sends_by (Map.get (sender_routes sessions frames) u) target
        ≡ may_send sessions frames u target
  unfolding sender_routes
  sender_routes-may_send sessions frames u target = elim (Option-cases (Map.get sessions u)) [
    | inl e ↦ ground (
      arith,
      sends-add_virtual frames (session_senders sessions) u target,
      get-session_senders sessions u,
    )
    | inr (s, e) ↦ ground (
      arith,
      sends-add_virtual frames (session_senders sessions) u target,
      get-session_senders sessions u,
    )
  ]

  pub sender_routes-is_known :
      (sessions : Map (Session F)) (frames : List (ActiveSourceFrame S)) (u : ℕ)
      → is_some (Map.get (sender_routes sessions frames) u) ≡ is_known sessions frames u
  unfolding sender_routes
  sender_routes-is_known sessions frames u = elim (Option-cases (Map.get sessions u)) [
    | inl e ↦ ground (
      arith,
      known-add_virtual frames (session_senders sessions) u,
      get-session_senders sessions u,
    )
    | inr (s, e) ↦ ground (
      arith,
      known-add_virtual frames (session_senders sessions) u,
      get-session_senders sessions u,
    )
  ]
