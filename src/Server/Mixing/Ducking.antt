-- ===== src/Server/Mixing/Ducking.antt =====
-- Whom a round ducks.
use open_broadcast_intercom.Base.{
  ℕ, ◌≡◌, refl, ◌∙◌, Bool, false, not, ◌&&◌, ◌||◌, List, [], ◌∷◌, arith, ◌==◌, nat_eq, nat_beq_iff,
  if◌then◌else◌, any, contains, set_insert, contains-set_insert, Bool-cases, inl, inr,
}
use open_broadcast_intercom.Base.Map.{Map}
use open_broadcast_intercom.Wire.Types.{AudioTarget, channel, direct, mixed}
use open_broadcast_intercom.Control.{TalkButtonConfig, target_eq}
use open_broadcast_intercom.Control.Actions.{transmit_users}
use open_broadcast_intercom.Server.State.{Session}
use open_broadcast_intercom.Server.Sources.{ActiveSourceFrame}
use open_broadcast_intercom.Server.Buttons.{pressed_buttons}
use open_broadcast_intercom.Server.Mixing.Senders.{
  Sender, is_server_virtual_source, speaks_to, virtual_ducks, call_ducks, button_ducks,
  session_ducks,
}
use open_broadcast_intercom.Server.Mixing.Listener.{sends_with_priority, priority_channels_now}

-- one of the calls is to this user, and ducks
abbrev pub ducks_in : ℕ → List (ℕ × Bool) → Bool
ducks_in l [] = false
ducks_in l ((user, duck) ∷ calls) = (duck && user == l) || ducks_in l calls

-- so does one of the buttons
abbrev pub ducks_by : ℕ → List TalkButtonConfig → Bool
ducks_by l [] = false
ducks_by l (button ∷ buttons) = ducks_in l (transmit_users button.actions) || ducks_by l buttons

priority_step :
    (target : AudioTarget) (p : ℕ → Bool) (own : Bool) (rest : List ℕ) (listen : List ℕ) (id : ℕ)
    → contains
        (elim target [
          | channel c ↦
              if own || not (contains listen c)
              then rest
              else if p c
              then set_insert rest c
              else rest
          | direct _ ↦ rest
          | mixed ↦ rest
        ])
        id
      ≡ ((not own && target == channel id && p id && contains listen id) || contains rest id)
priority_step (channel c) p own rest listen id = elim (Bool-cases (c == id)) [
  | inl e ↦ rw ((nat_beq_iff c id).0 e) (ground (arith, contains-set_insert rest id id))
  | inr e ↦ ground (arith, contains-set_insert rest c id)
]
priority_step (direct user) p own rest listen id = ground arith
priority_step mixed p own rest listen id = ground arith

shuffle :
    (a b c d rest later : Bool)
    → rest ≡ (d && later)
    → ((a && b && c && d) || rest) ≡ (d && ((a && b && c) || later))
shuffle a b c d rest later e = ground arith

module _ {S : Type 0} where
  -- a frame of the server to this user, which ducks
  abbrev pub is_virtual_duck : ℕ → ActiveSourceFrame S → Bool
  is_virtual_duck l frame =
      is_server_virtual_source frame.user_id && frame.duck && (frame.target == direct l)

  -- one round of the loop
  abbrev duck_for : ActiveSourceFrame S → List ℕ → List ℕ
  duck_for frame ducked =
      if is_server_virtual_source frame.user_id && frame.duck
      then elim frame.target [
        | channel _ ↦ ducked
        | direct user ↦ set_insert ducked user
        | mixed ↦ ducked
      ]
      else ducked

  contains-duck_for :
      (frame : ActiveSourceFrame S) (ducked : List ℕ) (l : ℕ)
      → contains (duck_for frame ducked) l ≡ (is_virtual_duck l frame || contains ducked l)
  contains-duck_for frame ducked l = go frame.target
    where
      go :
          (target : AudioTarget)
          → contains
              (if is_server_virtual_source frame.user_id && frame.duck
                then elim target [
                  | channel _ ↦ ducked
                  | direct user ↦ set_insert ducked user
                  | mixed ↦ ducked
                ]
                else ducked)
              l
            ≡ (is_server_virtual_source frame.user_id && frame.duck && target == direct l
                || contains ducked l)
      go (channel id) = ground arith
      go (direct user) = ground (arith, contains-set_insert ducked user l)
      go mixed = ground arith

  pub contains-virtual_ducks :
      (frames : List (ActiveSourceFrame S)) (ducked : List ℕ) (l : ℕ)
      → contains (virtual_ducks frames ducked) l
        ≡ (any (is_virtual_duck l) frames || contains ducked l)
  unfolding virtual_ducks any
  contains-virtual_ducks [] ducked l = refl
  contains-virtual_ducks (frame ∷ frames) ducked l = ground (
    arith,
    contains-virtual_ducks frames (duck_for frame ducked) l,
    contains-duck_for frame ducked l,
  )

  contains-call_ducks :
      (frames : List (ActiveSourceFrame S)) (caller : ℕ) (calls : List (ℕ × Bool)) (ducked : List ℕ)
      (l : ℕ)
      → contains (call_ducks frames caller calls ducked) l
        ≡ ((ducks_in l calls && speaks_to frames caller l) || contains ducked l)
  unfolding call_ducks
  contains-call_ducks frames caller [] ducked l = refl
  contains-call_ducks frames caller ((user, duck) ∷ calls) ducked l = ground (
    arith,
    nat_beq_iff user l,
    contains-set_insert ducked user l,
    contains-call_ducks frames caller calls
        (if duck && speaks_to frames caller user then set_insert ducked user else ducked) l,
  )

  contains-button_ducks :
      (frames : List (ActiveSourceFrame S)) (caller : ℕ) (buttons : List TalkButtonConfig)
      (ducked : List ℕ) (l : ℕ)
      → contains (button_ducks frames caller buttons ducked) l
        ≡ ((ducks_by l buttons && speaks_to frames caller l) || contains ducked l)
  unfolding button_ducks
  contains-button_ducks frames caller [] ducked l = refl
  contains-button_ducks frames caller (button ∷ buttons) ducked l = ground (
    arith,
    contains-call_ducks frames caller (transmit_users button.actions) ducked l,
    contains-button_ducks frames caller buttons
        (call_ducks frames caller (transmit_users button.actions) ducked) l,
  )

module _ {S : Type 0} where
  -- a talker with priority on a channel that the listener listens to
  abbrev pub is_priority_talk : ℕ → Map Sender → ℕ → ActiveSourceFrame S → Bool
  is_priority_talk l routes id frame =
      not (frame.user_id == l)
      && (frame.target == channel id)
      && sends_with_priority routes frame id

module _ {F S : Type 0} where
  -- the caller speaks to this user, and a call or a button that the caller holds ducks
  abbrev pub ducks : List (ActiveSourceFrame S) → ℕ → Map (Session F) → Bool
  ducks frames l [] = false
  ducks frames l ((caller, session) ∷ sessions) =
      (speaks_to frames caller l
        && (ducks_in l session.active_direct_calls || ducks_by l (pressed_buttons session)))
      || ducks frames l sessions

  pub contains-session_ducks :
      (frames : List (ActiveSourceFrame S)) (sessions : Map (Session F)) (ducked : List ℕ) (l : ℕ)
      → contains (session_ducks frames sessions ducked) l
        ≡ (ducks frames l sessions || contains ducked l)
  unfolding session_ducks
  contains-session_ducks frames [] ducked l = refl
  contains-session_ducks frames ((caller, session) ∷ sessions) ducked l =
      let called = call_ducks frames caller session.active_direct_calls ducked in
      ground (
        arith,
        contains-call_ducks frames caller session.active_direct_calls ducked l,
        contains-button_ducks frames caller (pressed_buttons session) called l,
        contains-session_ducks frames sessions
            (button_ducks frames caller (pressed_buttons session) called) l,
      )

  pub contains-priority_channels :
      (l : ℕ) (listener : Session F) (routes : Map Sender) (frames : List (ActiveSourceFrame S))
      (id : ℕ)
      → contains (priority_channels_now l listener routes frames) id
        ≡ (contains listener.listen_channels id && any (is_priority_talk l routes id) frames)
  unfolding priority_channels_now any
  contains-priority_channels l listener routes [] id = unfold contains in ground arith
  contains-priority_channels l listener routes (frame ∷ frames) id =
      let rest = priority_channels_now l listener routes frames in
      priority_step frame.target (sends_with_priority routes frame) (frame.user_id == l) rest
        listener.listen_channels id
      ∙ shuffle (not (frame.user_id == l)) (frame.target == channel id)
          (sends_with_priority routes frame id) (contains listener.listen_channels id)
          (contains rest id) (any (is_priority_talk l routes id) frames)
          (contains-priority_channels l listener routes frames id)
