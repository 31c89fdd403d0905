-- ===== src/Server/Mixing/Heard.antt =====
-- Which frames of a round a client hears.
use open_broadcast_intercom.Base.{
  ℕ, ◌+◌, ◌≡◌, refl, Bool, true, false, not, ◌&&◌, ◌||◌, Option, none, some, List, [], ◌∷◌, arith,
  ◌==◌, nat_eq, contains, filter, length, inl, inr, Bool-cases,
}
use open_broadcast_intercom.Base.Map.{Map}
use open_broadcast_intercom.Wire.Types.{channel, direct, mixed, mix_samples_per_frame}
use open_broadcast_intercom.Control.{target_eq}
use open_broadcast_intercom.Server.Gains.{Gains}
use open_broadcast_intercom.Server.State.{Session, RuntimeEmergency}
use open_broadcast_intercom.Server.Emergency.Rights.{receives, emergency_exact}
use open_broadcast_intercom.Server.Sources.{ActiveSourceFrame}
use open_broadcast_intercom.Server.Mixing.Senders.{sender_routes, direct_duck_by_listener}
use open_broadcast_intercom.Server.Mixing.Listener.{Samples, Hearing, Mix, Passed, pass}
use open_broadcast_intercom.Server.Mixing.Loop.{
  emergency_duck_gain, add_source, add_passed, mix_sources,
}
use open_broadcast_intercom.Server.Mixing.Build.{
  Round, MixerState, round_of, recipients_now, emergency_active_for, hearing,
}
use open_broadcast_intercom.Server.Mixing.Routing.{
  is_some, may_send, is_known, sender_routes-may_send, sender_routes-is_known,
}

module _ {F : Type 0} where
  pub recipients_now-receives :
      (emergency : RuntimeEmergency F) (sessions : Map (Session F)) (l : ℕ)
      → contains (recipients_now (some emergency) sessions) l ≡ receives emergency sessions l
  unfolding recipients_now
  recipients_now-receives emergency sessions l = (emergency_exact emergency sessions).1 l

module _ {F S : Type 0} where
  -- the round of these sessions and frames
  abbrev pub round_for :
      ℕ → Option (RuntimeEmergency F) → Map (Session F) → List (ActiveSourceFrame S) → Round F S
  round_for now emergency sessions frames = record {
    now = now;
    emergency = emergency;
    recipients = recipients_now emergency sessions;
    routes = sender_routes sessions frames;
    ducked = direct_duck_by_listener sessions frames;
    frames = frames;
  }

  -- the frames of the round that starts in this state
  abbrev pub frames_of : MixerState F S → ℕ → List (ActiveSourceFrame S)
  frames_of state now = (round_of state now).0.frames

  -- the emergency's source speaks to one of its recipients
  abbrev pub from_emergency :
      Option (RuntimeEmergency F) → Map (Session F) → ℕ → ActiveSourceFrame S → Bool
  from_emergency none sessions l frame = false
  from_emergency (some emergency) sessions l frame =
      emergency.source == frame.user_id && receives emergency sessions l

  -- The frame is meant for the listener: of somebody else, with a full frame of samples, and on a
  -- channel that the listener listens to and the sender may send to, or to the listener from a
  -- sender that may, or to all from the source of an emergency that the listener receives.
  abbrev pub is_meant :
      Option (RuntimeEmergency F)
      → Map (Session F)
      → List (ActiveSourceFrame S)
      → ℕ
      → Session F
      → ActiveSourceFrame S
      → Bool
  is_meant emergency sessions frames l listener frame =
      not (frame.user_id == l)
      && (length frame.samples == mix_samples_per_frame)
      && elim frame.target [
        | channel id ↦
            contains listener.listen_channels id
            && may_send sessions frames frame.user_id frame.target
        | direct user ↦ user == l && may_send sessions frames frame.user_id frame.target
        | mixed ↦
            from_emergency emergency sessions l frame && is_known sessions frames frame.user_id
      ]

  pub pass-is_meant :
      (now : ℕ) (emergency : Option (RuntimeEmergency F)) (sessions : Map (Session F))
      (frames : List (ActiveSourceFrame S)) (l : ℕ) (listener : Session F)
      (frame : ActiveSourceFrame S)
      → is_some (pass (hearing (round_for now emergency sessions frames) l listener) frame)
        ≡ is_meant emergency sessions frames l listener frame
  unfolding pass hearing
  pass-is_meant now none sessions frames l listener frame = ground (
    arith,
    sender_routes-may_send sessions frames frame.user_id frame.target,
    sender_routes-is_known sessions frames frame.user_id,
  )
  pass-is_meant now (some emergency) sessions frames l listener frame = ground (
    arith,
    sender_routes-may_send sessions frames frame.user_id frame.target,
    sender_routes-is_known sessions frames frame.user_id,
    recipients_now-receives emergency sessions l,
  )

module _ (g : Gains) {S : Type 0} (m : Samples g S) where
  open g use {F}
  open m use {is_zero}

  -- The listener receives an emergency that silences what does not come from it.
  abbrev pub is_muted :
      Option (RuntimeEmergency F) → Map (Session F) → ℕ → ActiveSourceFrame S → Bool
  is_muted none sessions l frame = false
  is_muted (some emergency) sessions l frame =
      receives emergency sessions l
      && not (frame.target == mixed)
      && (emergency.mute_others || is_zero emergency.duck_gain)

  -- meant for the listener and not muted
  abbrev pub may_hear :
      Option (RuntimeEmergency F)
      → Map (Session F)
      → List (ActiveSourceFrame S)
      → ℕ
      → Session F
      → ActiveSourceFrame S
      → Bool
  may_hear emergency sessions frames l listener frame =
      is_meant emergency sessions frames l listener frame
      && not (is_muted emergency sessions l frame)

  abbrev pub hears : Hearing F → Option Passed → Bool
  hears h none = false
  hears h (some p) = not (is_zero (emergency_duck_gain g m h p))

  pub receives-others :
      (emergency : RuntimeEmergency F) (sessions : Map (Session F)) (l : ℕ)
      → receives emergency sessions l ≡ true
      → (emergency.source == l) ≡ false
  receives-others emergency sessions l h = ground arith

  pub hears-may_hear :
      (now : ℕ) (emergency : Option (RuntimeEmergency F)) (sessions : Map (Session F))
      (frames : List (ActiveSourceFrame S)) (l : ℕ) (listener : Session F)
      (frame : ActiveSourceFrame S)
      → let h = hearing (round_for now emergency sessions frames) l listener in
        hears h (pass h frame) ≡ may_hear emergency sessions frames l listener frame
  unfolding pass hearing emergency_duck_gain emergency_active_for
  hears-may_hear now none sessions frames l listener frame = ground (
    arith,
    sender_routes-may_send sessions frames frame.user_id frame.target,
    sender_routes-is_known sessions frames frame.user_id,
    m.one-is_zero,
  )
  hears-may_hear now (some emergency) sessions frames l listener frame = ground (
    arith,
    sender_routes-may_send sessions frames frame.user_id frame.target,
    sender_routes-is_known sessions frames frame.user_id,
    recipients_now-receives emergency sessions l,
    receives-others emergency sessions l,
    m.one-is_zero,
    m.zero-is_zero,
  )

  add_passed-skip :
      (h : Hearing F) (frame : ActiveSourceFrame S) (p : Option Passed) (mix : Mix F)
      → hears h p ≡ false
      → add_passed g m h frame p mix ≡ mix
  unfolding add_passed
  add_passed-skip h frame none mix e = refl
  add_passed-skip h frame (some p) mix e =
      ground (arith, Bool-cases (is_zero (emergency_duck_gain g m h p)))

  add_passed-count :
      (h : Hearing F) (frame : ActiveSourceFrame S) (p : Option Passed) (mix : Mix F)
      → hears h p ≡ true
      → (add_passed g m h frame p mix).active_sources ≡ mix.active_sources + 1
  unfolding add_passed add_source
  add_passed-count h frame none mix e = ground arith
  add_passed-count h frame (some p) mix e = ground arith

  abbrev pub heard_by : Hearing F → List (ActiveSourceFrame S) → List (ActiveSourceFrame S)
  heard_by h frames = filter (λ frame. hears h (pass h frame)) frames

  pub mix_sources-heard_by :
      (h : Hearing F) (frames : List (ActiveSourceFrame S)) (mix : Mix F)
      → mix_sources g m h frames mix ≡ mix_sources g m h (heard_by h frames) mix
  unfolding mix_sources filter
  mix_sources-heard_by h [] mix = refl
  mix_sources-heard_by h (frame ∷ frames) mix = elim (Bool-cases (hears h (pass h frame))) [
    | inl e ↦ rw e (mix_sources-heard_by h frames (add_passed g m h frame (pass h frame) mix))
    | inr e ↦
        rw (e, add_passed-skip h frame (pass h frame) mix e) (mix_sources-heard_by h frames mix)
  ]

  pub count-heard_by :
      (h : Hearing F) (frames : List (ActiveSourceFrame S)) (mix : Mix F)
      → (mix_sources g m h frames mix).active_sources
        ≡ length (heard_by h frames) + mix.active_sources
  unfolding mix_sources filter
  count-heard_by h [] mix = omega arith
  count-heard_by h (frame ∷ frames) mix = ground (
    arith,
    count-heard_by h frames (add_passed g m h frame (pass h frame) mix),
    add_passed-count h frame (pass h frame) mix,
    add_passed-skip h frame (pass h frame) mix,
  )
