-- ===== src/Server/Mixing/Gain.antt =====
-- With what gain a frame that a client hears is mixed.
use open_broadcast_intercom.Base.{
  ℕ, suc, ◌≡◌, refl, ◌∙◌, sym, ap, true, false, not, Option, none, some, List, arith, nat_eq,
  if◌then◌else◌, inl, inr, Option-cases,
}
use open_broadcast_intercom.Base.Map
use open_broadcast_intercom.Base.Map.{Map}
use open_broadcast_intercom.Control.{target_eq}
use open_broadcast_intercom.Server.Gains.{Gains}
use open_broadcast_intercom.Server.State.{Session, RuntimeEmergency}
use open_broadcast_intercom.Server.Sources.{ActiveSourceFrame}
use open_broadcast_intercom.Server.Mixing.Listener.{Samples, Mix, Passed, active_for_codec, pass}
use open_broadcast_intercom.Server.Mixing.Loop.{
  emergency_duck_gain, source_gain, pan_gains, pan_of, add_scaled, add_source, add_passed,
}
use open_broadcast_intercom.Server.Mixing.Build.{hearing}
use open_broadcast_intercom.Server.Mixing.Heard.{round_for, may_hear, hears, hears-may_hear}
use open_broadcast_intercom.Server.Mixing.Factors.{
  channel_of_target, passed_parts, at_least_zero, channel_volume, priority_factor, ifb_factor,
  direct_factor, emergency_factor, priority_lem, ifb_lem, direct_lem, emergency_lem,
}

module _ (g : Gains) {S : Type 0} (m : Samples g S) where
  open g use {F, zero}
  open m use {mul}

  -- the product of the volumes and of the four duckings
  abbrev pub gain_of :
      Option (RuntimeEmergency F)
      → Map (Session F)
      → List (ActiveSourceFrame S)
      → ℕ
      → Session F
      → ActiveSourceFrame S
      → F
  gain_of emergency sessions frames l listener frame =
      mul
        (mul
          (mul
            (mul
              (mul (channel_volume g m listener frame.target)
                (at_least_zero g m (Map.get listener.talker_volumes frame.user_id)))
              (priority_factor g m sessions frames l listener frame))
            (ifb_factor g m sessions frames l listener frame))
          (direct_factor g m sessions frames l frame))
        (emergency_factor g m emergency sessions l frame)

  abbrev pub pan_for : Session F → ActiveSourceFrame S → F
  pan_for listener frame = elim (channel_of_target frame.target) [
    | none ↦ zero
    | some id ↦ elim (Map.get listener.stereo.channel_pan id) [ none ↦ zero | some pan ↦ pan ]
  ]

  -- the mix with one more frame, at this gain
  abbrev pub mixed_with : F → Session F → ActiveSourceFrame S → Mix F → Mix F
  mixed_with gain listener frame mix =
      let (left_gain, right_gain) = pan_gains g m (pan_for listener frame) in
      if active_for_codec listener.stereo listener.output_codec
      then record {
        mono = mix.mono;
        left = add_scaled g m (λ x. mul (mul x gain) left_gain) mix.left frame.samples;
        right = add_scaled g m (λ x. mul (mul x gain) right_gain) mix.right frame.samples;
        active_sources = suc mix.active_sources;
      }
      else record {
        mono = add_scaled g m (λ x. mul x gain) mix.mono frame.samples;
        left = mix.left;
        right = mix.right;
        active_sources = suc mix.active_sources;
      }

  source_gain-gain_of :
      (now : ℕ) (emergency : Option (RuntimeEmergency F)) (sessions : Map (Session F))
      (frames : List (ActiveSourceFrame S)) (l : ℕ) (listener : Session F)
      (frame : ActiveSourceFrame S) (p : Passed)
      → let h = hearing (round_for now emergency sessions frames) l listener in
        pass h frame ≡ some p
        → source_gain g m h frame p ≡ gain_of emergency sessions frames l listener frame
  unfolding source_gain hearing
  source_gain-gain_of now emergency sessions frames l listener frame p e =
      let h = hearing (round_for now emergency sessions frames) l listener in
      ground (
        arith,
        passed_parts h frame p e,
        priority_lem g m now emergency sessions frames l listener frame p e,
        ifb_lem g m now emergency sessions frames l listener frame p e,
        direct_lem g m now emergency sessions frames l listener frame,
        emergency_lem g m now emergency sessions frames l listener frame p e,
      )

  pan_of-pan_for :
      (now : ℕ) (emergency : Option (RuntimeEmergency F)) (sessions : Map (Session F))
      (frames : List (ActiveSourceFrame S)) (l : ℕ) (listener : Session F)
      (frame : ActiveSourceFrame S) (p : Passed)
      → let h = hearing (round_for now emergency sessions frames) l listener in
        pass h frame ≡ some p → pan_of g m h p ≡ pan_for listener frame
  unfolding pan_of hearing
  pan_of-pan_for now emergency sessions frames l listener frame p e =
      let h = hearing (round_for now emergency sessions frames) l listener in
      ground (arith, passed_parts h frame p e)

  added_at :
      (now : ℕ) (emergency : Option (RuntimeEmergency F)) (sessions : Map (Session F))
      (frames : List (ActiveSourceFrame S)) (l : ℕ) (listener : Session F)
      (frame : ActiveSourceFrame S) (mix : Mix F) (p : Passed)
      → let h = hearing (round_for now emergency sessions frames) l listener in
        pass h frame ≡ some p
        → m.is_zero (emergency_duck_gain g m h p) ≡ false
        → add_passed g m h frame (some p) mix
          ≡ mixed_with (gain_of emergency sessions frames l listener frame) listener frame mix
  unfolding add_passed add_source hearing
  added_at now emergency sessions frames l listener frame mix p e live =
      rw
        (
          live,
          source_gain-gain_of now emergency sessions frames l listener frame p e,
          pan_of-pan_for now emergency sessions frames l listener frame p e,
        )
        refl

  -- The gain with which a frame that a client hears is mixed, into the mono mix or, with the gains of
  -- the pan of its channel, into the stereo mix. It is the product of the listener's volumes for the
  -- channel (channel 0 for a frame without one) and for the talker, each one if it is not set and at
  -- least zero, and of four factors, each one where nothing ducks:
  -- the priority gain, if the frame is for a channel that the listener listens to, on which its sender
  -- has no priority, and somebody other than the listener who has priority on it and may send to it
  -- has a frame for it in this round;
  -- the listener's IFB gain, if IFB is enabled, the frame is for a program channel, and somebody other
  -- than the listener has a frame for an interrupt channel that the listener listens to and the
  -- sender may send to;
  -- the default gain, if the frame is not a call to the listener, and the server has a frame for the
  -- listener that ducks, or somebody has a frame for the listener and a call to the listener that
  -- ducks, or holds a button that does;
  -- and for a listener who receives an emergency, if the frame is not for all, zero when it mutes
  -- others and otherwise its own gain.
  -- A user has priority on a channel by its session, or, as a source of the server, by its frames of
  -- this round.
  pub gain_exact :
      (now : ℕ) (emergency : Option (RuntimeEmergency F)) (sessions : Map (Session F))
      (frames : List (ActiveSourceFrame S)) (l : ℕ) (listener : Session F)
      (frame : ActiveSourceFrame S) (mix : Mix F)
      → may_hear g m emergency sessions frames l listener frame ≡ true
      → let h = hearing (round_for now emergency sessions frames) l listener in
        add_passed g m h frame (pass h frame) mix
        ≡ mixed_with (gain_of emergency sessions frames l listener frame) listener frame mix
  unfolding add_passed add_source
  gain_exact now emergency sessions frames l listener frame mix heard =
      let h = hearing (round_for now emergency sessions frames) l listener in
      let passes = hears-may_hear g m now emergency sessions frames l listener frame ∙ heard in
      elim (Option-cases (pass h frame)) [
        | inl e ↦ let no : false ≡ true = sym (ap (hears g m h) e) ∙ passes in cc
        | inr (p, e) ↦
            let live : not (m.is_zero (emergency_duck_gain g m h p)) ≡ true =
              sym (ap (hears g m h) e) ∙ passes in
            rw e (added_at now emergency sessions frames l listener frame mix p e (ground arith))
      ]
