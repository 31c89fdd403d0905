-- ===== src/Tests/Sounding.antt =====
-- A round of the mixer.
use open_broadcast_intercom.Base.{
  ℕ, zero, suc, ◌+◌, ◌-◌, ◌*◌, ◌/◌, ◌≡◌, refl, true, false, none, some, List, [], ◌∷◌, max, ltb,
  nat_beq, any, contains, filter, set_extend, map, nat_eq,
}
use open_broadcast_intercom.Base.Map
use open_broadcast_intercom.Base.Map.{Map}
use open_broadcast_intercom.Control.Actions.{transmit_users, transmit_channels}
use open_broadcast_intercom.Server.Routes.{session_tx_targets, effective_tx_channels}
use open_broadcast_intercom.Wire.Types.{channel, direct}
use open_broadcast_intercom.Server.State.{Session}
use open_broadcast_intercom.Server.Sources.{SourceQueue, ActiveSourceFrame, new_source}
use open_broadcast_intercom.Server.Mixing.Listener.{Samples, pass}
use open_broadcast_intercom.Server.Mixing.Build.{MixerState, build_mixes, hearing, no_mix}
use open_broadcast_intercom.Server.Mixing.Heard.{round_for, frames_of, may_hear}
use open_broadcast_intercom.Server.Mixing.Outputs.{all_sent, build_mixes_exact}
use open_broadcast_intercom.Server.Mixing.Gain.{gain_of, mixed_with, gain_exact}
use open_broadcast_intercom.Server.Mixing.Loop.{add_passed}
use open_broadcast_intercom.Server.Mixing.Effect.{
  informed, popped, live, advanced, build_mixes_effect,
}
use open_broadcast_intercom.Tests.Samples.{hundredths, director, camera, sound, fire}

-- samples and gains in hundredths
abbrev samples : Samples hundredths ℕ
samples = record {
  is_zero = λ x. nat_beq x 0;
  is_negative = λ x. false;
  mul = λ x y. x * y / 100;
  add = λ x y. x + y;
  sub = λ x y. x - y;
  div = λ x y. x * 100 / y;
  max = max;
  abs = λ x. x;
  gt = λ x y. ltb y x;
  minus_one = 0;
  priority_duck = 25;
  limiter_threshold = 95;
  of_sample = λ s. s;
  to_sample = λ x. x;
  zero-is_zero = refl;
  one-is_zero = refl;
}

tone : ℕ → ℕ → List ℕ
tone zero level = []
tone (suc n) level = level ∷ tone n level

abbrev queue : SourceQueue ℕ
queue = record {
  frames =
      record { target = channel 7; samples = tone 480 10; priority = false; duck = false } ∷ [];
  last_seen = 90;
}

abbrev listeners : Map (Session ℕ)
listeners =
    (1, director)
    ∷ (2, record camera { addr = some 5; audio_last_seen = some 95 })
    ∷ (3, record sound { addr = some 6; audio_last_seen = some 95 })
    ∷ []

abbrev mixer : MixerState ℕ ℕ
mixer = record {
  emergency = some fire;
  sessions = listeners;
  sources = (1, queue) ∷ [];
  virtual_sources = new_source 64_000 (direct 2) (tone 480 20 ∷ []) false true ∷ [];
  expired_source_queues = 0;
}

build_mixes_exact_example :
    (build_mixes hundredths samples mixer 100).0
    ≡ all_sent hundredths samples 100 (some fire) listeners (frames_of mixer 100) listeners
build_mixes_exact_example = build_mixes_exact hundredths samples mixer 100

build_mixes_effect_example :
    let after = (build_mixes hundredths samples mixer 100).1 in
    (after.sessions
      ≡ map (informed hundredths samples 100 listeners (frames_of mixer 100)) listeners)
    × (after.sources ≡ map popped (filter (live 100) mixer.sources))
    × (after.virtual_sources ≡ advanced mixer.virtual_sources)
    × (after.emergency ≡ mixer.emergency)
build_mixes_effect_example = build_mixes_effect hundredths samples mixer 100

abbrev frames : List (ActiveSourceFrame ℕ)
frames =
    record {
      user_id = 1;
      target = channel 7;
      samples = tone 480 10;
      priority = false;
      duck = false;
    }
    ∷ record {
      user_id = 64_000;
      target = direct 2;
      samples = tone 480 20;
      priority = false;
      duck = true;
    }
    ∷ []

abbrev spoken : ActiveSourceFrame ℕ
spoken = record {
  user_id = 1;
  target = channel 7;
  samples = tone 480 10;
  priority = false;
  duck = false;
}

spoken_heard : may_hear hundredths samples none listeners frames 2 camera spoken ≡ true
unfolding any tone contains Map.get session_tx_targets set_extend filter transmit_users Map.keys
    effective_tx_channels transmit_channels
spoken_heard = refl

gain_exact_example :
    let h = hearing (round_for 100 none listeners frames) 2 camera in
    add_passed hundredths samples h spoken (pass h spoken) (no_mix 0)
    ≡ mixed_with hundredths samples
        (gain_of hundredths samples none listeners frames 2 camera spoken)
        camera
        spoken
        (no_mix 0)
gain_exact_example =
    gain_exact hundredths samples 100 none listeners frames 2 camera spoken (no_mix 0) spoken_heard
