-- ===== src/Server/Mixing/Loop.antt =====
-- The gains of a source that passes, the loop that adds the sources, and the limiter.
use open_broadcast_intercom.Base.{
  ℕ, suc, Bool, not, ◌&&◌, Option, none, some, List, [], ◌∷◌, ◌++◌, ◌==◌, nat_eq, if◌then◌else◌,
  contains, map,
}
use open_broadcast_intercom.Base.Map
use open_broadcast_intercom.Wire.Types.{direct}
use open_broadcast_intercom.Control.{target_eq}
use open_broadcast_intercom.Server.Gains.{Gains}
use open_broadcast_intercom.Server.Sources.{ActiveSourceFrame}
use open_broadcast_intercom.Server.Mixing.Listener.{
  Samples, Hearing, Mix, Passed, pass, speaks_with_priority, active_for_codec,
}

module _ (g : Gains) {S : Type 0} (m : Samples g S) where
  open g use {F, zero, one, default_duck, clamp}
  open m use {
    is_zero, is_negative, mul, add, sub, div, max, abs, gt, minus_one, priority_duck,
    limiter_threshold, of_sample, to_sample,
  }

  -- `priority_duck_gain`
  unfoldable pub priority_duck_gain : Hearing F → Passed → F
  priority_duck_gain h p = elim p.channel_id [
    | none ↦ one
    | some id ↦
        if contains h.active_priority_channels id && not (speaks_with_priority p.sender id)
        then priority_duck
        else one
  ]

  -- `ifb_duck_gain`
  unfoldable pub ifb_duck_gain : Hearing F → Passed → F
  ifb_duck_gain h p = elim p.channel_id [
    | none ↦ one
    | some id ↦
        if h.ifb_active && contains h.listener.ifb.program id then h.listener.ifb.duck_gain else one
  ]

  -- `direct_duck_gain`
  unfoldable pub direct_duck_gain : Hearing F → ActiveSourceFrame S → F
  direct_duck_gain h source =
      if h.direct_duck_active && not (source.target == direct h.listener_id)
      then default_duck
      else one

  -- `emergency_duck_gain`
  unfoldable pub emergency_duck_gain : Hearing F → Passed → F
  emergency_duck_gain h p =
      if h.emergency_active && not p.is_emergency
      then elim h.emergency [
        | none ↦ one
        | some emergency ↦ if emergency.mute_others then zero else emergency.duck_gain
      ]
      else one

  volume_of : Option F → F
  volume_of none = max one zero
  volume_of (some volume) = max volume zero

  abbrev pub channel_of : Passed → ℕ
  channel_of p = elim p.channel_id [ none ↦ 0 | some id ↦ id ]

  -- `gain`
  unfoldable pub source_gain : Hearing F → ActiveSourceFrame S → Passed → F
  unfolding volume_of
  source_gain h source p =
      mul
        (mul
          (mul
            (mul
              (mul (volume_of (Map.get h.listener.channel_volumes (channel_of p)))
                (volume_of (Map.get h.listener.talker_volumes source.user_id)))
              (priority_duck_gain h p))
            (ifb_duck_gain h p))
          (direct_duck_gain h source))
        (emergency_duck_gain h p)

  -- `pan_gains`
  unfoldable pub pan_gains : F → F × F
  pan_gains pan =
      let pan' = clamp pan minus_one one in
      if is_negative pan' then (one, add one pan') else (sub one pan', one)

  -- the pan of a source, zero without a channel or an entry
  unfoldable pub pan_of : Hearing F → Passed → F
  pan_of h p = elim p.channel_id [
    | none ↦ zero
    | some id ↦ elim (Map.get h.listener.stereo.channel_pan id) [ none ↦ zero | some pan ↦ pan ]
  ]

  -- `*mixed += …` for each sample; the zip stops at the shorter of the two
  unfoldable pub add_scaled : (F → F) → List F → List S → List F
  add_scaled scale [] samples = []
  add_scaled scale (mixed ∷ mix) [] = mixed ∷ mix
  add_scaled scale (mixed ∷ mix) (sample ∷ samples) =
      add mixed (scale (of_sample sample)) ∷ add_scaled scale mix samples

  -- the rest of the loop's body
  unfoldable pub add_source : Hearing F → ActiveSourceFrame S → Passed → Mix F → Mix F
  add_source h source p mix =
      let gain = source_gain h source p in
      let (left_gain, right_gain) = pan_gains (pan_of h p) in
      if active_for_codec h.listener.stereo h.listener.output_codec
      then record {
        mono = mix.mono;
        left = add_scaled (λ x. mul (mul x gain) left_gain) mix.left source.samples;
        right = add_scaled (λ x. mul (mul x gain) right_gain) mix.right source.samples;
        active_sources = suc mix.active_sources;
      }
      else record {
        mono = add_scaled (λ x. mul x gain) mix.mono source.samples;
        left = mix.left;
        right = mix.right;
        active_sources = suc mix.active_sources;
      }

  -- the loop's body for a source that passes, which an emergency may still mute
  unfoldable pub add_passed : Hearing F → ActiveSourceFrame S → Option Passed → Mix F → Mix F
  unfolding add_source
  add_passed h source none mix = mix
  add_passed h source (some p) mix =
      if is_zero (emergency_duck_gain h p) then mix else add_source h source p mix

  -- `for source in &source_frames`
  unfoldable pub mix_sources : Hearing F → List (ActiveSourceFrame S) → Mix F → Mix F
  unfolding add_passed
  mix_sources h [] mix = mix
  mix_sources h (source ∷ sources) mix =
      mix_sources h sources (add_passed h source (pass h source) mix)

  -- the largest magnitude
  unfoldable pub peak : F → List F → F
  peak acc [] = acc
  peak acc (sample ∷ samples) = peak (max acc (abs sample)) samples

  unfoldable pub limiter_gain : F → F
  limiter_gain top = if gt top limiter_threshold then div limiter_threshold top else one

  -- `limiter_gain < 1.0`
  unfoldable pub limiter_acts : F → Bool
  limiter_acts gain = gt one gain

  -- `limit_frame`, without its meter
  unfoldable pub limit_frame : List F → List S × Bool
  unfolding peak limiter_gain limiter_acts
  limit_frame samples =
      let gain = limiter_gain (peak zero samples) in
      (map (λ x. to_sample (mul x gain)) samples, limiter_acts gain)

  -- the two channels in turn
  unfoldable pub interleave : F → List F → List F → List S
  interleave gain [] right = []
  interleave gain (l ∷ left) [] = []
  interleave gain (l ∷ left) (r ∷ right) =
      to_sample (mul l gain) ∷ to_sample (mul r gain) ∷ interleave gain left right

  -- `limit_stereo_frame`, without its meter
  unfoldable pub limit_stereo_frame : List F → List F → List S × Bool
  unfolding peak limiter_gain limiter_acts interleave
  limit_stereo_frame left right =
      let gain = limiter_gain (peak zero (left ++ right)) in
      (interleave gain left right, limiter_acts gain)
