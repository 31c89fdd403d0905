-- ===== src/Server/Mixing/Factors.antt =====
-- The factors of the gain with which a frame is mixed for a listener.
use open_broadcast_intercom.Base.{
  ℕ, ◌≡◌, ap, fun_ext, Bool, false, not, ◌&&◌, ◌||◌, Option, none, some, List, [], arith, ◌==◌,
  nat_eq, if◌then◌else◌, any, contains, inl, inr, Option-cases,
}
use open_broadcast_intercom.Base.Map
use open_broadcast_intercom.Base.Map.{Map}
use open_broadcast_intercom.Wire.Types.{AudioTarget, channel, direct, mixed}
use open_broadcast_intercom.Control.{target_eq}
use open_broadcast_intercom.Server.Gains.{Gains}
use open_broadcast_intercom.Server.State.{Session, RuntimeEmergency}
use open_broadcast_intercom.Server.Emergency.Rights.{receives}
use open_broadcast_intercom.Server.Sources.{ActiveSourceFrame}
use open_broadcast_intercom.Server.Mixing.Senders.{
  Sender, sender_routes, direct_duck_by_listener, virtual_ducks,
}
use open_broadcast_intercom.Server.Mixing.Listener.{
  Samples, Hearing, Passed, pass, sends_with_priority, interrupts, ifb_now,
}
use open_broadcast_intercom.Server.Mixing.Loop.{
  priority_duck_gain, ifb_duck_gain, direct_duck_gain, emergency_duck_gain,
}
use open_broadcast_intercom.Server.Mixing.Build.{hearing, emergency_active_for}
use open_broadcast_intercom.Server.Mixing.Routing.{sends_by, may_send, sender_routes-may_send}
use open_broadcast_intercom.Server.Mixing.Priority.{
  priority_by, on_channel, has_priority, sender_routes-has_priority,
}
use open_broadcast_intercom.Server.Mixing.Heard.{
  round_for, recipients_now-receives, receives-others,
}
use open_broadcast_intercom.Server.Mixing.Ducking.{
  is_priority_talk, contains-priority_channels, is_virtual_duck, ducks, contains-session_ducks,
  contains-virtual_ducks,
}

any_same : {A : Type 0} (p q : A → Bool) (xs : List A) → ((x : A) → p x ≡ q x) → any p xs ≡ any q xs
any_same p q xs h = ap (λ r. any r xs) (fun_ext h)

-- the channel of a target, if it has one
abbrev pub channel_of_target : AudioTarget → Option ℕ
channel_of_target (channel id) = some id
channel_of_target (direct user) = none
channel_of_target mixed = none

module _ {S : Type 0} where
  sends-talks :
      (routes : Map Sender) (frame : ActiveSourceFrame S) (id : ℕ)
      → sends_with_priority routes frame id ≡ (
          priority_by (Map.get routes frame.user_id)
          && on_channel (Map.get routes frame.user_id) id
          && sends_by (Map.get routes frame.user_id) frame.target)
  sends-talks routes frame id = elim (Option-cases (Map.get routes frame.user_id)) [
    | inl e ↦ ground arith
    | inr (s, e) ↦ ground arith
  ]

module _ {F S : Type 0} where
  -- What is known of a frame that passes.
  pub passed_parts :
      (h : Hearing F) (frame : ActiveSourceFrame S) (p : Passed)
      → pass h frame ≡ some p
      → (Map.get h.routes frame.user_id ≡ some p.sender)
        × (p.channel_id ≡ channel_of_target frame.target)
        × (p.is_emergency ≡ (frame.target == mixed))
  unfolding pass
  passed_parts h frame p e = ground arith

  -- somebody else, who has priority on the channel and may send to it, has this frame for it
  abbrev pub talks_over :
      Map (Session F) → List (ActiveSourceFrame S) → ℕ → ℕ → ActiveSourceFrame S → Bool
  talks_over sessions frames l id frame =
      not (frame.user_id == l)
      && (frame.target == channel id)
      && has_priority sessions frames frame.user_id id
      && may_send sessions frames frame.user_id frame.target

  talk-talks_over :
      (sessions : Map (Session F)) (frames : List (ActiveSourceFrame S)) (l id : ℕ)
      (frame : ActiveSourceFrame S)
      → is_priority_talk l (sender_routes sessions frames) id frame
        ≡ talks_over sessions frames l id frame
  talk-talks_over sessions frames l id frame = ground (
    arith,
    sends-talks (sender_routes sessions frames) frame id,
    sender_routes-has_priority sessions frames frame.user_id id,
    sender_routes-may_send sessions frames frame.user_id frame.target,
  )

  -- somebody else has this frame for a channel that interrupts the listener, and may send to it
  abbrev pub breaks_in :
      Map (Session F) → List (ActiveSourceFrame S) → ℕ → Session F → ActiveSourceFrame S → Bool
  breaks_in sessions frames l listener frame = elim (channel_of_target frame.target) [
    | none ↦ false
    | some id ↦
        not (frame.user_id == l)
        && contains listener.listen_channels id
        && contains listener.ifb.interrupt id
        && may_send sessions frames frame.user_id frame.target
  ]

  interrupts-breaks_in :
      (sessions : Map (Session F)) (frames : List (ActiveSourceFrame S)) (l : ℕ)
      (listener : Session F) (frame : ActiveSourceFrame S)
      → interrupts l listener (sender_routes sessions frames) frame
        ≡ breaks_in sessions frames l listener frame
  interrupts-breaks_in sessions frames l listener frame =
      elim (Option-cases (Map.get (sender_routes sessions frames) frame.user_id)) [
        | inl e ↦ ground (arith, sender_routes-may_send sessions frames frame.user_id frame.target)
        | inr (s, e) ↦
            ground (arith, sender_routes-may_send sessions frames frame.user_id frame.target)
      ]

  -- something else is said to the listener with a duck
  abbrev pub is_called_over :
      Map (Session F) → List (ActiveSourceFrame S) → ℕ → ActiveSourceFrame S → Bool
  is_called_over sessions frames l frame =
      (any (is_virtual_duck l) frames || ducks frames l sessions) && not (frame.target == direct l)

module _ (g : Gains) {S : Type 0} (m : Samples g S) where
  open g use {F, zero, one, default_duck}
  open m use {mul, max, priority_duck}

  -- a volume of the listener, which is one if it is not set and at least zero
  abbrev pub at_least_zero : Option F → F
  at_least_zero none = max one zero
  at_least_zero (some volume) = max volume zero

  -- the volume of the frame's channel, or of channel zero if it has none
  abbrev pub channel_volume : Session F → AudioTarget → F
  channel_volume listener target = elim (channel_of_target target) [
    | none ↦ at_least_zero (Map.get listener.channel_volumes 0)
    | some id ↦ at_least_zero (Map.get listener.channel_volumes id)
  ]

  abbrev pub priority_factor :
      Map (Session F) → List (ActiveSourceFrame S) → ℕ → Session F → ActiveSourceFrame S → F
  priority_factor sessions frames l listener frame = elim (channel_of_target frame.target) [
    | none ↦ one
    | some id ↦
        if contains listener.listen_channels id
          && any (talks_over sessions frames l id) frames
          && not (has_priority sessions frames frame.user_id id)
        then priority_duck
        else one
  ]

  abbrev pub ifb_factor :
      Map (Session F) → List (ActiveSourceFrame S) → ℕ → Session F → ActiveSourceFrame S → F
  ifb_factor sessions frames l listener frame = elim (channel_of_target frame.target) [
    | none ↦ one
    | some id ↦
        if listener.ifb.enabled
          && any (breaks_in sessions frames l listener) frames
          && contains listener.ifb.program id
        then listener.ifb.duck_gain
        else one
  ]

  abbrev pub direct_factor :
      Map (Session F) → List (ActiveSourceFrame S) → ℕ → ActiveSourceFrame S → F
  direct_factor sessions frames l frame =
      if is_called_over sessions frames l frame then default_duck else one

  abbrev pub emergency_factor :
      Option (RuntimeEmergency F) → Map (Session F) → ℕ → ActiveSourceFrame S → F
  emergency_factor none sessions l frame = one
  emergency_factor (some emergency) sessions l frame =
      if receives emergency sessions l && not (frame.target == mixed)
      then if emergency.mute_others then zero else emergency.duck_gain
      else one

  pub priority_lem :
      (now : ℕ) (emergency : Option (RuntimeEmergency F)) (sessions : Map (Session F))
      (frames : List (ActiveSourceFrame S)) (l : ℕ) (listener : Session F)
      (frame : ActiveSourceFrame S) (p : Passed)
      → let h = hearing (round_for now emergency sessions frames) l listener in
        pass h frame ≡ some p
        → priority_duck_gain g m h p ≡ priority_factor sessions frames l listener frame
  unfolding priority_duck_gain hearing
  priority_lem now emergency sessions frames l listener frame p e =
      let h = hearing (round_for now emergency sessions frames) l listener in
      let parts = passed_parts h frame p e in
      elim (Option-cases (channel_of_target frame.target)) [
        | inl c ↦ ground arith
        | inr (id, c) ↦ ground (
          arith,
          contains-priority_channels l listener (sender_routes sessions frames) frames id,
          any_same (is_priority_talk l (sender_routes sessions frames) id)
              (talks_over sessions frames l id) frames (talk-talks_over sessions frames l id),
          sender_routes-has_priority sessions frames frame.user_id id,
        )
      ]

  pub ifb_lem :
      (now : ℕ) (emergency : Option (RuntimeEmergency F)) (sessions : Map (Session F))
      (frames : List (ActiveSourceFrame S)) (l : ℕ) (listener : Session F)
      (frame : ActiveSourceFrame S) (p : Passed)
      → let h = hearing (round_for now emergency sessions frames) l listener in
        pass h frame ≡ some p → ifb_duck_gain g m h p ≡ ifb_factor sessions frames l listener frame
  unfolding ifb_duck_gain hearing ifb_now
  ifb_lem now emergency sessions frames l listener frame p e =
      let h = hearing (round_for now emergency sessions frames) l listener in
      let parts = passed_parts h frame p e in
      ground (
        arith,
        any_same (interrupts l listener (sender_routes sessions frames))
            (breaks_in sessions frames l listener) frames
            (interrupts-breaks_in sessions frames l listener),
      )

  pub direct_lem :
      (now : ℕ) (emergency : Option (RuntimeEmergency F)) (sessions : Map (Session F))
      (frames : List (ActiveSourceFrame S)) (l : ℕ) (listener : Session F)
      (frame : ActiveSourceFrame S)
      → direct_duck_gain g m (hearing (round_for now emergency sessions frames) l listener) frame
        ≡ direct_factor sessions frames l frame
  unfolding direct_duck_gain hearing direct_duck_by_listener contains
  direct_lem now emergency sessions frames l listener frame = ground (
    arith,
    contains-session_ducks frames sessions (virtual_ducks frames []) l,
    contains-virtual_ducks frames [] l,
  )

  pub emergency_lem :
      (now : ℕ) (emergency : Option (RuntimeEmergency F)) (sessions : Map (Session F))
      (frames : List (ActiveSourceFrame S)) (l : ℕ) (listener : Session F)
      (frame : ActiveSourceFrame S) (p : Passed)
      → let h = hearing (round_for now emergency sessions frames) l listener in
        pass h frame ≡ some p
        → emergency_duck_gain g m h p ≡ emergency_factor emergency sessions l frame
  unfolding emergency_duck_gain hearing emergency_active_for
  emergency_lem now none sessions frames l listener frame p e = ground arith
  emergency_lem now (some emergency) sessions frames l listener frame p e =
      let h = hearing (round_for now (some emergency) sessions frames) l listener in
      ground (
        arith,
        passed_parts h frame p e,
        recipients_now-receives emergency sessions l,
        receives-others g m emergency sessions l,
      )
