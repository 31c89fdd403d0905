-- ===== src/Server/Mixing/Build.antt =====
-- `build_mixes`: one round of the mixer over all clients.
use open_broadcast_intercom.Base.{
  ℕ, suc, zero, ◌+◌, ◌%◌, Bool, false, not, ◌&&◌, Option, none, some, List, [], ◌∷◌, ◌++◌, ◌==◌,
  nat_eq, if◌then◌else◌, contains,
}
use open_broadcast_intercom.Base.Map.{Map}
use open_broadcast_intercom.Wire.Types.{Codec, OpusProfile, mix_samples_per_frame}
use open_broadcast_intercom.Server.Gains.{Gains}
use open_broadcast_intercom.Server.State.{Session, RuntimeEmergency, session_audio_addr}
use open_broadcast_intercom.Server.Emergency.{emergency_recipients_for_sessions}
use open_broadcast_intercom.Server.Sources.{SourceQueue, VirtualAudioSource, ActiveSourceFrame}
use open_broadcast_intercom.Server.Mixing.Collect.{retain_active, pop_all, play_all}
use open_broadcast_intercom.Server.Mixing.Senders.{Sender, sender_routes, direct_duck_by_listener}
use open_broadcast_intercom.Server.Mixing.Listener.{
  Samples, Hearing, Mix, priority_channels_now, ifb_now, active_for_codec,
}
use open_broadcast_intercom.Server.Mixing.Loop.{mix_sources, limit_frame, limit_stereo_frame}

-- `MixOutput`, without its meter
pub record MixOutput (S : Type 0) : Type 0 where
  pub user_id : ℕ
  pub addr : ℕ
  pub codec : Codec
  pub opus_profile : OpusProfile
  pub samples : List S
  pub channels : ℕ
  pub active_sources : ℕ
  pub limiter_event : Bool

-- Of `ServerState`, what the mixer reads and writes.
pub record MixerState (F S : Type 0) : Type 0 where
  pub emergency : Option (RuntimeEmergency F)
  pub sessions : Map (Session F)
  pub sources : Map (SourceQueue S)
  pub virtual_sources : List (VirtualAudioSource S)
  pub expired_source_queues : ℕ

-- What a round knows before it turns to the listeners.
pub record Round (F S : Type 0) : Type 0 where
  pub now : ℕ
  pub emergency : Option (RuntimeEmergency F)
  pub recipients : List ℕ
  pub routes : Map Sender
  pub ducked : List ℕ
  pub frames : List (ActiveSourceFrame S)

module _ {F : Type 0} where
  -- `emergency_recipients`
  unfoldable pub recipients_now : Option (RuntimeEmergency F) → Map (Session F) → List ℕ
  recipients_now none sessions = []
  recipients_now (some emergency) sessions = emergency_recipients_for_sessions emergency sessions

  -- `emergency_active_for_listener`
  unfoldable pub emergency_active_for : Option (RuntimeEmergency F) → List ℕ → ℕ → Bool
  emergency_active_for none recipients listener_id = false
  emergency_active_for (some emergency) recipients listener_id =
      contains recipients listener_id && not (emergency.source == listener_id)

  silence : ℕ → F → List F
  silence zero x = []
  silence (suc n) x = x ∷ silence n x

  -- the mix before the first source
  unfoldable pub no_mix : F → Mix F
  unfolding silence
  no_mix x = record {
    mono = silence mix_samples_per_frame x;
    left = silence mix_samples_per_frame x;
    right = silence mix_samples_per_frame x;
    active_sources = 0;
  }

module _ {S : Type 0} where
  abbrev pub push_output : Option (MixOutput S) → List (MixOutput S) → List (MixOutput S)
  push_output none outputs = outputs
  push_output (some output) outputs = output ∷ outputs

module _ {F S : Type 0} where
  -- what is known of one listener
  unfoldable pub hearing : Round F S → ℕ → Session F → Hearing F
  unfolding emergency_active_for
  hearing round listener_id listener = record {
    listener_id = listener_id;
    listener = listener;
    routes = round.routes;
    emergency = round.emergency;
    emergency_recipients = round.recipients;
    active_priority_channels = priority_channels_now listener_id listener round.routes round.frames;
    ifb_active = ifb_now listener_id listener round.routes round.frames;
    direct_duck_active = contains round.ducked listener_id;
    emergency_active = emergency_active_for round.emergency round.recipients listener_id;
  }

  -- the frames, the queues and sources that are left, and the number of queues that expired
  unfoldable pub round_of : MixerState F S → ℕ → Round F S × MixerState F S
  round_of state now =
      let (expired, active) = retain_active now state.sources in
      let (queued, sources) = pop_all active in
      let (played, virtual_sources) = play_all state.virtual_sources in
      let frames = queued ++ played in
      (
        record {
          now = now;
          emergency = state.emergency;
          recipients = recipients_now state.emergency state.sessions;
          routes = sender_routes state.sessions frames;
          ducked = direct_duck_by_listener state.sessions frames;
          frames = frames;
        },
        record {
          emergency = state.emergency;
          sessions = state.sessions;
          sources = sources;
          virtual_sources = virtual_sources;
          expired_source_queues =
              (state.expired_source_queues + expired) % 18_446_744_073_709_551_616;
        },
      )

module _ (g : Gains) {S : Type 0} (m : Samples g S) where
  open g use {F, zero as silent, one}

  -- the frame of a mix that has a source
  unfoldable pub output_of : ℕ → ℕ → Session F → Mix F → MixOutput S
  output_of listener_id addr listener mix =
      let stereo = active_for_codec listener.stereo listener.output_codec in
      let limited =
        if stereo then limit_stereo_frame g m mix.left mix.right else limit_frame g m mix.mono in
      record {
        user_id = listener_id;
        addr = addr;
        codec = listener.output_codec;
        opus_profile = listener.opus_profile;
        samples = limited.0;
        channels = if stereo then 2 else 1;
        active_sources = mix.active_sources;
        limiter_event = limited.1;
      }

  -- the listener's `ifb_status` is written before the mix
  unfoldable pub with_ifb_status : Hearing F → Session F
  with_ifb_status h = record h.listener {
    ifb_status = record {
      active = h.ifb_active;
      duck_gain = if h.ifb_active then h.listener.ifb.duck_gain else one;
    };
  }

  unfoldable pub output_unless_silent : ℕ → ℕ → Session F → Mix F → Option (MixOutput S)
  output_unless_silent listener_id addr listener mix =
      if mix.active_sources == 0 then none else some (output_of listener_id addr listener mix)

  -- the closure of `filter_map`
  unfoldable pub mix_for : Round F S → ℕ → Session F → Option (MixOutput S) × Session F
  unfolding no_mix output_unless_silent with_ifb_status
  mix_for round listener_id listener = elim (session_audio_addr listener round.now) [
    | none ↦ (none, listener)
    | some addr ↦
        (let h = hearing round listener_id listener in
          (
            output_unless_silent listener_id addr listener
                (mix_sources g m h round.frames (no_mix silent)),
            with_ifb_status h,
          ))
  ]

  unfoldable pub mix_all : Round F S → Map (Session F) → List (MixOutput S) × Map (Session F)
  unfolding mix_for
  mix_all round [] = ([], [])
  mix_all round ((listener_id, listener) ∷ sessions) =
      let (outputs, rest) = mix_all round sessions in
      let (output, after) = mix_for round listener_id listener in
      (push_output output outputs, (listener_id, after) ∷ rest)

  -- `build_mixes`
  unfoldable pub build_mixes : MixerState F S → ℕ → List (MixOutput S) × MixerState F S
  unfolding mix_all
  build_mixes state now =
      let (round, collected) = round_of state now in
      let (outputs, sessions) = mix_all round state.sessions in
      (outputs, record collected { sessions = sessions })
