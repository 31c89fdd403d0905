-- ===== src/Server/Mixing/Listener.antt =====
-- What one client hears of a round: which frames pass, with what gain, and the limited sum.
-- The meters (`OutputMeterStatus`) are left out, but for the limiter's event.
use open_broadcast_intercom.Base.{
  ℕ, ◌≡◌, Bool, true, false, not, ◌&&◌, ◌||◌, Option, none, some, List, [], ◌∷◌, ◌==◌, nat_eq,
  if◌then◌else◌, any, contains, set_insert, length,
}
use open_broadcast_intercom.Base.Map
use open_broadcast_intercom.Base.Map.{Map}
use open_broadcast_intercom.Wire.Types.{
  channel, direct, mixed, mix_samples_per_frame, Codec, pcm16, pcm24, adpcm, pcm48, opus,
}
use open_broadcast_intercom.Control.{target_eq}
use open_broadcast_intercom.Server.Gains.{Gains}
use open_broadcast_intercom.Server.State.{Session, RuntimeEmergency, StereoConfig}
use open_broadcast_intercom.Server.Sources.{ActiveSourceFrame}
use open_broadcast_intercom.Server.Mixing.Senders.{Sender}

-- The operations of `f32` that the mixer uses on gains and on samples, which are `i16` in frames.
pub record Samples (g : Gains) (S : Type 0) : Type 0 where
  -- `== 0.0`
  pub is_zero : g.F → Bool
  pub is_negative : g.F → Bool
  pub mul : g.F → g.F → g.F
  pub add : g.F → g.F → g.F
  pub sub : g.F → g.F → g.F
  pub div : g.F → g.F → g.F
  pub max : g.F → g.F → g.F
  pub abs : g.F → g.F
  -- `>`
  pub gt : g.F → g.F → Bool
  pub minus_one : g.F
  -- `PRIORITY_DUCK_GAIN`
  pub priority_duck : g.F
  -- `LIMITER_THRESHOLD`
  pub limiter_threshold : g.F
  -- `sample as f32 / i16::MAX as f32`
  pub of_sample : S → g.F
  -- `(x * i16::MAX as f32).round().clamp(i16::MIN as f32, i16::MAX as f32) as i16`, of the product
  -- of a sample and the limiter's gain
  pub to_sample : g.F → S
  pub zero-is_zero : is_zero g.zero ≡ true
  pub one-is_zero : is_zero g.one ≡ false

-- `StereoConfig::active_for_codec`
unfoldable pub active_for_codec : {F : Type 0} → StereoConfig F → Codec → Bool
active_for_codec stereo pcm48 = stereo.enabled
active_for_codec stereo opus = stereo.enabled
active_for_codec stereo pcm16 = false
active_for_codec stereo pcm24 = false
active_for_codec stereo adpcm = false

-- What the loop over the sources knows of a listener.
pub record Hearing (F : Type 0) : Type 0 where
  pub listener_id : ℕ
  pub listener : Session F
  pub routes : Map Sender
  pub emergency : Option (RuntimeEmergency F)
  pub emergency_recipients : List ℕ
  pub active_priority_channels : List ℕ
  pub ifb_active : Bool
  pub direct_duck_active : Bool
  pub emergency_active : Bool

-- The loop's variables.
pub record Mix (F : Type 0) : Type 0 where
  pub mono : List F
  pub left : List F
  pub right : List F
  pub active_sources : ℕ

-- A source that passes: its sender, its channel, and whether it is the emergency's.
pub record Passed : Type 0 where
  pub sender : Sender
  pub channel_id : Option ℕ
  pub is_emergency : Bool

passed_with : Sender → Option ℕ → Bool → Option Passed
passed_with sender channel_id is_emergency =
    some record { sender = sender; channel_id = channel_id; is_emergency = is_emergency }

-- the sender of a route, by priority, on this channel
abbrev pub speaks_with_priority : Sender → ℕ → Bool
speaks_with_priority sender id = sender.priority && contains sender.priority_channels id

abbrev pub sends_with_priority : {S : Type 0} → Map Sender → ActiveSourceFrame S → ℕ → Bool
sends_with_priority routes source id = elim (Map.get routes source.user_id) [
  | none ↦ false
  | some sender ↦ speaks_with_priority sender id && contains sender.targets source.target
]

module _ {F S : Type 0} where
  -- `active_priority_channels`
  unfoldable pub priority_channels_now :
      ℕ → Session F → Map Sender → List (ActiveSourceFrame S) → List ℕ
  priority_channels_now listener_id listener routes [] = []
  priority_channels_now listener_id listener routes (source ∷ sources) =
      let rest = priority_channels_now listener_id listener routes sources in
      elim source.target [
        | channel id ↦
            if source.user_id == listener_id || not (contains listener.listen_channels id)
            then rest
            else if sends_with_priority routes source id
            then set_insert rest id
            else rest
        | direct _ ↦ rest
        | mixed ↦ rest
      ]

  -- the test of `ifb_active` on a source
  abbrev pub interrupts : ℕ → Session F → Map Sender → ActiveSourceFrame S → Bool
  interrupts listener_id listener routes source = elim source.target [
    | channel id ↦
        if source.user_id == listener_id
          || not (contains listener.listen_channels id)
          || not (contains listener.ifb.interrupt id)
        then false
        else elim (Map.get routes source.user_id) [
          | none ↦ false
          | some sender ↦ contains sender.targets source.target
        ]
    | direct _ ↦ false
    | mixed ↦ false
  ]

  -- `ifb_active`
  unfoldable pub ifb_now : ℕ → Session F → Map Sender → List (ActiveSourceFrame S) → Bool
  ifb_now listener_id listener routes sources =
      listener.ifb.enabled && any (interrupts listener_id listener routes) sources

  -- the first tests of the loop's body, up to `channel_id`
  unfoldable pub pass : Hearing F → ActiveSourceFrame S → Option Passed
  unfolding passed_with
  pass h source =
      if source.user_id == h.listener_id || not (length source.samples == mix_samples_per_frame)
      then none
      else elim (Map.get h.routes source.user_id) [
        | none ↦ none
        | some sender ↦ elim source.target [
          | channel id ↦
              if not (contains h.listener.listen_channels id)
                || not (contains sender.targets source.target)
              then none
              else passed_with sender (some id) false
          | direct user ↦
              if not (user == h.listener_id) || not (contains sender.targets source.target)
              then none
              else passed_with sender none false
          | mixed ↦ elim h.emergency [
            | none ↦ none
            | some emergency ↦
                if not (emergency.source == source.user_id)
                  || not (contains h.emergency_recipients h.listener_id)
                then none
                else passed_with sender none true
          ]
        ]
      ]
