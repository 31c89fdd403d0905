-- ===== src/Server/Config/Handle.antt =====
-- The requests that change the desired configuration, as `apply_control` handles them.
-- Whether the admin state can be saved is an argument, since that is a write of a file.
use open_broadcast_intercom.Base.{
  ℕ, Bool, true, false, ◌&&◌, Option, none, some, List, [], ◌∷◌, if◌then◌else◌, Result, ok, err,
  ◌>>=◌, not,
}
use mathlib.Core.Option
use open_broadcast_intercom.Wire.Types.{Codec}
use open_broadcast_intercom.Control.{TalkMode, ClientLockoutPolicy}
use open_broadcast_intercom.Server.Gains.{Gains}
use open_broadcast_intercom.Server.State.{ServerState, push_config_update}
use open_broadcast_intercom.Server.Ifb.{normalize_ifb_config}
use open_broadcast_intercom.Server.Config.Buttons.{normalize_button_configs, sorted_unique_channels}
use open_broadcast_intercom.Server.Config.Desired.{
  DesiredClientConfig, AdminState, Limits, normalize_client_uid, upsert_desired_client,
  enroll_desired, desired_baseline_for_user,
}
use open_broadcast_intercom.Server.Config.Apply.{
  normalize_stereo_config, apply_desired_to_live_session,
}
use open_broadcast_intercom.Server.Config.Lockout.{
  Aspect, codec, talk_mode, priority, ConfigError, save_failed, ConfigRequest,
  validate_config_lockout, ensure_control_allowed, codec_available_for_user,
}

-- the server with its admin state
pub record Managed (F : Type 0) : Type 0 where
  pub admin : AdminState F
  pub server : ServerState F

-- A request of a user about the user's own configuration.
pub data ConfigMessage (F : Type 0) : Type 0 where
  set_config : ConfigRequest F → ConfigMessage F
  set_codec : ℕ → Codec → ConfigMessage F
  set_mode : ℕ → TalkMode → ConfigMessage F
  set_priority : ℕ → Bool → ConfigMessage F

abbrev pub ConfigResponse : Type 0
ConfigResponse = Result ConfigError (Unit {0})

abbrev pub has_none : List ℕ → Bool
has_none [] = true
has_none (_ ∷ _) = false

abbrev pub or_else : {A : Type 0} → Option A → A → A
or_else none a = a
or_else (some b) a = b

module _ (g : Gains) (limits : Limits g.F) where
  open g use {F}

  -- the first lines of `apply_desired_client`
  abbrev pub tidy : DesiredClientConfig F → DesiredClientConfig F
  tidy desired = record desired {
    client_uid =
        Option.map (λ uid. normalize_client_uid uid (some desired.user_id)) desired.client_uid;
    priority_channels = sorted_unique_channels desired.priority_channels;
  }

  abbrev pub admin_with : ℕ → AdminState F → DesiredClientConfig F → AdminState F
  admin_with now admin desired = record admin {
    devices = enroll_desired now desired admin.devices;
    clients = upsert_desired_client admin.clients desired;
  }

  -- `apply_desired_client`
  unfoldable pub apply_desired_client :
      Bool → ℕ → Managed F → DesiredClientConfig F → ConfigResponse × Managed F
  apply_desired_client saved now state desired =
      let desired' = tidy desired in
      let admin = admin_with now state.admin desired' in
      if not saved then (err save_failed, record state { admin = admin }) else (
        ok tt,
        record {
          admin = admin;
          server =
              push_config_update
                (record state.server {
                  sessions =
                      apply_desired_to_live_session g limits now desired' state.server.sessions;
                })
                desired'.user_id;
        },
      )

  -- the configuration that a request asks for
  unfoldable pub requested : DesiredClientConfig F → ConfigRequest F → DesiredClientConfig F
  requested baseline r = record baseline {
    role = or_else r.role baseline.role;
    name = or_else r.name baseline.name;
    listen = r.listen;
    tx = r.tx;
    vol = r.vol;
    talker_vol = or_else r.talker_vol baseline.talker_vol;
    codec = or_else r.codec baseline.codec;
    opus_profile = or_else r.opus_profile baseline.opus_profile;
    talk_mode = or_else r.talk_mode baseline.talk_mode;
    priority = or_else r.priority baseline.priority;
    priority_channels = elim r.priority_channels [
      | none ↦ baseline.priority_channels
      | some ids ↦ sorted_unique_channels ids
    ];
    buttons = elim r.buttons [
      | none ↦ baseline.buttons
      | some buttons ↦ normalize_button_configs buttons
    ];
    ifb = elim r.ifb [ none ↦ baseline.ifb | some ifb ↦ normalize_ifb_config g ifb ];
    stereo = elim r.stereo [
      | none ↦ baseline.stereo
      | some stereo ↦ normalize_stereo_config g limits stereo
    ];
  }

  abbrev pub baseline_of : Managed F → ℕ → DesiredClientConfig F
  baseline_of state user_id = desired_baseline_for_user g state.admin state.server.sessions user_id

  abbrev pub codec_allowed : Managed F → ℕ → ℕ → Option Codec → ConfigResponse
  codec_allowed state now user_id none = ok tt
  codec_allowed state now user_id (some c) = codec_available_for_user state.server now user_id c

  -- the checks of the `Config` request
  unfoldable pub config_allowed : ℕ → Managed F → ConfigRequest F → ConfigResponse
  config_allowed now state r =
      validate_config_lockout g limits (baseline_of state r.user_id) r
      >>= (λ _. codec_allowed state now r.user_id r.codec)

  -- `if let Err(message) = … { return ControlResponse::Error { message } }`
  abbrev pub unless_refused :
      ConfigResponse → Managed F → ConfigResponse × Managed F → ConfigResponse × Managed F
  unless_refused (ok _) state result = result
  unless_refused (err e) state result = (err e, state)

  -- `ControlMessage::Config`
  unfoldable pub apply_config : Bool → ℕ → Managed F → ConfigRequest F → ConfigResponse × Managed F
  apply_config saved now state r =
      unless_refused (config_allowed now state r) state
        (apply_desired_client saved now state (requested (baseline_of state r.user_id) r))

  abbrev pub allowed_for : Managed F → ℕ → (ClientLockoutPolicy → Bool) → Aspect → ConfigResponse
  allowed_for state user_id allowed aspect =
      ensure_control_allowed g limits state.admin state.server.sessions user_id allowed aspect

  -- `ControlMessage::AudioCodec`
  unfoldable pub apply_audio_codec : Bool → ℕ → Managed F → ℕ → Codec → ConfigResponse × Managed F
  apply_audio_codec saved now state user_id c =
      unless_refused
        (allowed_for state user_id (λ p. p.allow_codec) codec
          >>= (λ _. codec_available_for_user state.server now user_id c))
        state
        (apply_desired_client saved now state (record (baseline_of state user_id) { codec = c }))

  -- `ControlMessage::TalkMode`
  unfoldable pub apply_talk_mode : Bool → ℕ → Managed F → ℕ → TalkMode → ConfigResponse × Managed F
  apply_talk_mode saved now state user_id mode =
      unless_refused (allowed_for state user_id (λ p. p.allow_talk_mode) talk_mode) state (
        apply_desired_client saved now state
          (record (baseline_of state user_id) { talk_mode = mode }))

  abbrev pub prioritized : DesiredClientConfig F → Bool → DesiredClientConfig F
  prioritized baseline active = record baseline {
    priority = active;
    priority_channels =
        if active && has_none baseline.priority_channels
        then sorted_unique_channels baseline.tx
        else baseline.priority_channels;
  }

  -- `ControlMessage::Priority`
  unfoldable pub apply_priority : Bool → ℕ → Managed F → ℕ → Bool → ConfigResponse × Managed F
  apply_priority saved now state user_id active =
      unless_refused (allowed_for state user_id (λ p. p.allow_priority) priority) state
        (apply_desired_client saved now state (prioritized (baseline_of state user_id) active))

  -- `apply_control`, of the requests that change the configuration
  unfoldable pub apply_config_message :
      Bool → ℕ → Managed F → ConfigMessage F → ConfigResponse × Managed F
  apply_config_message saved now state (set_config r) = apply_config saved now state r
  apply_config_message saved now state (set_codec user_id c) =
      apply_audio_codec saved now state user_id c
  apply_config_message saved now state (set_mode user_id mode) =
      apply_talk_mode saved now state user_id mode
  apply_config_message saved now state (set_priority user_id active) =
      apply_priority saved now state user_id active
