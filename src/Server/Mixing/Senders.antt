-- ===== src/Server/Mixing/Senders.antt =====
-- Who may send where in one round, and whom a direct call ducks.
use open_broadcast_intercom.Base.{
  ℕ, Bool, false, ◌&&◌, ◌||◌, List, [], ◌∷◌, ◌==◌, nat_eq, leb, if◌then◌else◌, any, set_insert,
}
use open_broadcast_intercom.Base.Map
use open_broadcast_intercom.Base.Map.{Map}
use open_broadcast_intercom.Wire.Types.{AudioTarget, channel, direct, mixed}
use open_broadcast_intercom.Control.{TalkButtonConfig, target_eq}
use open_broadcast_intercom.Control.Actions.{transmit_users}
use open_broadcast_intercom.Server.State.{Session, server_user_id}
use open_broadcast_intercom.Server.Sources.{ActiveSourceFrame}
use open_broadcast_intercom.Server.Buttons.{pressed_buttons}
use open_broadcast_intercom.Server.Routes.{session_tx_targets}

abbrev pub tts_source_user_base : ℕ
tts_source_user_base = 64_000

-- `is_server_virtual_source`
unfoldable pub is_server_virtual_source : ℕ → Bool
is_server_virtual_source user_id = user_id == server_user_id || leb tts_source_user_base user_id

-- The value of `sender_routes`: the priority, its channels, and the targets of a sender.
pub record Sender : Type 0 where
  pub priority : Bool
  pub priority_channels : List ℕ
  pub targets : List AudioTarget

abbrev pub no_routes : Sender
no_routes = record { priority = false; priority_channels = []; targets = [] }

module _ {F : Type 0} where
  abbrev pub sender_of : Session F → Sender
  sender_of session = record {
    priority = session.priority;
    priority_channels = session.priority_channels;
    targets = session_tx_targets session;
  }

  unfoldable pub session_senders : Map (Session F) → Map Sender
  session_senders [] = []
  session_senders ((user_id, session) ∷ sessions) =
      (user_id, sender_of session) ∷ session_senders sessions

module _ {S : Type 0} where
  abbrev pub priority_with : ActiveSourceFrame S → List ℕ → List ℕ
  priority_with source channels = elim source.target [
    | channel id ↦ if source.priority then set_insert channels id else channels
    | direct _ ↦ channels
    | mixed ↦ channels
  ]

  -- the entry of a source of the server, with one more frame
  abbrev pub add_frame : ActiveSourceFrame S → Sender → Sender
  add_frame source sender = record {
    priority = sender.priority || source.priority;
    priority_channels = priority_with source sender.priority_channels;
    targets = set_insert sender.targets source.target;
  }

  unfoldable pub add_virtual : List (ActiveSourceFrame S) → Map Sender → Map Sender
  unfolding is_server_virtual_source
  add_virtual [] routes = routes
  add_virtual (source ∷ sources) routes = add_virtual sources (
      if is_server_virtual_source source.user_id
      then Map.modify (Map.or_insert routes source.user_id no_routes) source.user_id
          (add_frame source)
      else routes)

  -- a frame of this user to that one is in the round
  unfoldable pub speaks_to : List (ActiveSourceFrame S) → ℕ → ℕ → Bool
  speaks_to sources caller user =
      any
        (λ (source : ActiveSourceFrame S). source.user_id == caller && source.target == direct user)
        sources

  -- the frames of the server that duck
  unfoldable pub virtual_ducks : List (ActiveSourceFrame S) → List ℕ → List ℕ
  unfolding is_server_virtual_source
  virtual_ducks [] ducked = ducked
  virtual_ducks (source ∷ sources) ducked = virtual_ducks sources (
      if is_server_virtual_source source.user_id && source.duck
      then elim source.target [
        | channel _ ↦ ducked
        | direct user ↦ set_insert ducked user
        | mixed ↦ ducked
      ]
      else ducked)

  -- the calls of one caller, each a user with its `duck`
  unfoldable pub call_ducks : List (ActiveSourceFrame S) → ℕ → List (ℕ × Bool) → List ℕ → List ℕ
  unfolding speaks_to
  call_ducks sources caller [] ducked = ducked
  call_ducks sources caller ((user, duck) ∷ calls) ducked =
      call_ducks sources caller calls
        (if duck && speaks_to sources caller user then set_insert ducked user else ducked)

  -- the buttons that the caller holds
  unfoldable pub button_ducks :
      List (ActiveSourceFrame S) → ℕ → List TalkButtonConfig → List ℕ → List ℕ
  button_ducks sources caller [] ducked = ducked
  button_ducks sources caller (button ∷ buttons) ducked =
      button_ducks sources caller buttons
        (call_ducks sources caller (transmit_users button.actions) ducked)

module _ {F S : Type 0} where
  -- `sender_routes`
  unfoldable pub sender_routes : Map (Session F) → List (ActiveSourceFrame S) → Map Sender
  sender_routes sessions sources = add_virtual sources (session_senders sessions)

  unfoldable pub session_ducks : List (ActiveSourceFrame S) → Map (Session F) → List ℕ → List ℕ
  session_ducks sources [] ducked = ducked
  session_ducks sources ((caller, session) ∷ sessions) ducked = session_ducks sources sessions (
      button_ducks sources caller (pressed_buttons session)
        (call_ducks sources caller session.active_direct_calls ducked))

  -- `direct_duck_by_listener`
  unfoldable pub direct_duck_by_listener : Map (Session F) → List (ActiveSourceFrame S) → List ℕ
  direct_duck_by_listener sessions sources =
      session_ducks sources sessions (virtual_ducks sources [])
