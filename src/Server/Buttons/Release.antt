-- ===== src/Server/Buttons/Release.antt =====
-- What is left of a user's calls and buttons when the control connection ends.
use open_broadcast_intercom.Base.{
  ℕ, ◌≡◌, refl, ◌∙◌, Bool, false, Option, none, some, List, [], ◌∷◌, String, arith, ◌==◌, nat_eq,
  if◌then◌else◌, inl, inr, Option-cases,
}
use mathlib.Core.Option
use open_broadcast_intercom.Base.Map
use open_broadcast_intercom.Base.Map.{Map, get-modify, get-or_insert, contains_key-get}
use open_broadcast_intercom.Control.{TalkButtonConfig}
use open_broadcast_intercom.Server.State.{
  Session, ServerState, SameCore, SameCore-trans, push-SameCore, push_all-SameCore,
  DirectCallHistory,
}
use open_broadcast_intercom.Server.Calls.{close_call, open_from, close_history}
use open_broadcast_intercom.Control.Actions.{transmit_users}
use open_broadcast_intercom.Server.Buttons.{
  close_routes, close_buttons, close_direct_calls, release_all, clear_active_buttons,
}

-- What a session says of the user's talking and of nothing else: the active calls, the active
-- buttons, regular talk and the routes.
pub record Talking : Type 0 where
  pub calls : Map Bool
  pub buttons : List String
  pub regular : Bool
  pub listen : List ℕ
  pub tx : List ℕ

-- nothing is active, and the routes are as they were
abbrev pub silent : Talking → Talking
silent t = record t { calls = []; buttons = []; regular = false }

module _ {F : Type 0} where
  abbrev pub talking : Session F → Talking
  talking s = record {
    calls = s.active_direct_calls;
    buttons = s.active_buttons;
    regular = s.regular_talk_active;
    listen = s.listen_channels;
    tx = s.tx_channels;
  }

  unfoldable pub talk_of : Map (Session F) → ℕ → Option Talking
  talk_of sessions v = Option.map talking (Map.get sessions v)

  talk-close :
      (sessions : Map (Session F)) (p : DirectCallHistory → Bool) (now k v : ℕ)
      → talk_of (Map.modify sessions k (close_call p now)) v ≡ talk_of sessions v
  unfolding talk_of
  talk-close sessions p now k v = elim (Option-cases (Map.get sessions v)) [
    | inl e ↦ ground (arith, get-modify sessions k v (close_call p now))
    | inr (s, e) ↦ ground (arith, get-modify sessions k v (close_call p now))
  ]

  talk-close_history :
      (sessions : Map (Session F)) (u t : ℕ) (source : Option String) (now v : ℕ)
      → talk_of (close_history sessions u t source now) v ≡ talk_of sessions v
  unfolding close_history
  talk-close_history sessions u t source now v =
      talk-close (Map.modify sessions u (close_call (open_from u t source) now))
        (open_from u t source) now t v
      ∙ talk-close sessions (open_from u t source) now u v

  talk-close_routes :
      (now u : ℕ) (button : String) (users : List (ℕ × Bool)) (sessions : Map (Session F)) (v : ℕ)
      → talk_of (close_routes now u button users sessions) v ≡ talk_of sessions v
  unfolding close_routes
  talk-close_routes now u button [] sessions v = refl
  talk-close_routes now u button ((t, duck) ∷ users) sessions v =
      talk-close_routes now u button users (close_history sessions u t (some button) now) v
      ∙ talk-close_history sessions u t (some button) now v

  talk-close_buttons :
      (now u : ℕ) (buttons : List TalkButtonConfig) (sessions : Map (Session F)) (v : ℕ)
      → talk_of (close_buttons now u buttons sessions) v ≡ talk_of sessions v
  unfolding close_buttons
  talk-close_buttons now u [] sessions v = refl
  talk-close_buttons now u (b ∷ buttons) sessions v =
      talk-close_buttons now u buttons (close_routes now u b.id (transmit_users b.actions) sessions)
        v
      ∙ talk-close_routes now u b.id (transmit_users b.actions) sessions v

  talk-close_direct_calls :
      (now u : ℕ) (targets : List ℕ) (sessions : Map (Session F)) (v : ℕ)
      → talk_of (close_direct_calls now u targets sessions) v ≡ talk_of sessions v
  unfolding close_direct_calls
  talk-close_direct_calls now u [] sessions v = refl
  talk-close_direct_calls now u (t ∷ targets) sessions v =
      talk-close_direct_calls now u targets (close_history sessions u t none now) v
      ∙ talk-close_history sessions u t none now v

  talk-release :
      (sessions : Map (Session F)) (u v : ℕ)
      → talk_of (Map.modify sessions u release_all) v
        ≡ (if v == u then Option.map silent (talk_of sessions v) else talk_of sessions v)
  unfolding talk_of
  talk-release sessions u v = elim (Option-cases (Map.get sessions v)) [
    | inl e ↦ ground (arith, get-modify sessions u v release_all)
    | inr (s, e) ↦ ground (arith, get-modify sessions u v release_all)
  ]

  -- only this user's talking stopped
  abbrev pub Releases : ServerState F → ℕ → ServerState F → Type 0
  Releases state u after =
      ((v : ℕ)
        → talk_of after.sessions v ≡ (
            if v == u
            then Option.map silent (talk_of state.sessions v)
            else talk_of state.sessions v))
      × (after.alerts ≡ state.alerts)
      × (after.emergency ≡ state.emergency)

  closed-Releases :
      (state after : ServerState F) (now u : ℕ) (targets : List ℕ) (buttons : List TalkButtonConfig)
      → SameCore after (record state {
        sessions =
            Map.modify
              (close_direct_calls now u targets (close_buttons now u buttons state.sessions))
              u
              release_all;
      })
      → Releases state u after
  closed-Releases state after now u targets buttons same =
      let closed = close_buttons now u buttons state.sessions in
      (
        λ v. rw same.sessions (
            talk-release (close_direct_calls now u targets closed) u v
            ∙ ground (
              arith,
              talk-close_direct_calls now u targets closed v,
              talk-close_buttons now u buttons state.sessions v,
            )),
        same.alerts,
        same.emergency,
      )

  -- Once the buttons of a user are cleared, the user has no active call and no active button, and
  -- regular talk is off; the user's routes, and the calls, buttons, talk and routes of all other
  -- users, are as before, and so are the alerts and the emergency.
  pub clear-Releases :
      (state : ServerState F) (now u : ℕ) → Releases state u (clear_active_buttons state now u)
  unfolding clear_active_buttons
  clear-Releases state now u =
      closed-Releases state _ now u _ _ (SameCore-trans (push-SameCore _ u) (push_all-SameCore _ _))
