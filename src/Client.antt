-- ===== src/Client.antt =====
-- clients/core/src/lib.rs: `ClientConfig`, what it transmits to, and the server's events.
pub mod Targets
use open_broadcast_intercom.Base.{
  ℕ, Bool, true, false, not, ◌&&◌, ◌||◌, Option, none, some, List, [], ◌∷◌, ◌++◌, String, ◌==◌,
  nat_eq, if◌then◌else◌, filter, set_insert, set_extend, string_eq,
}
use mathlib.Core.List.{map}
use open_broadcast_intercom.Base.Map.{Map}
use open_broadcast_intercom.Base.Sorted.{nat_ord, sort}
use open_broadcast_intercom.Wire.Types.{
  Codec, OpusProfile, AudioTarget, channel, direct, mixed, codec_supported,
}
use open_broadcast_intercom.Control.{
  TalkMode, muted, ptt, open_mic, talk_mode_beq, TalkButtonConfig, EmergencyTarget, ClientRole,
  IfbConfig, ClientLockoutPolicy, target_ord, target_eq,
}
use open_broadcast_intercom.Control.Actions.{
  transmit_users, users_of, button_targets, button_channels, pressed,
}

-- What the events carry and these operations only pass on: gains, audio processing, presence, the
-- history of calls, alerts, and the settings of stereo and of the ESP32.
pub record Payload : Type 1 where
  pub F : Type 0
  pub Processing : Type 0
  pub Roster : Type 0
  pub History : Type 0
  pub Alert : Type 0
  pub Stereo : Type 0
  pub Esp32 : Type 0

pub record DirectCallStatus : Type 0 where
  pub caller : ℕ
  pub caller_name : Option String
  pub target : ℕ
  pub target_name : Option String
  pub active : Bool
  pub duck : Bool

pub record EmergencyStatus (F : Type 0) : Type 0 where
  pub active : Bool
  pub source : ℕ
  pub target : EmergencyTarget
  pub duck_gain : F
  pub mute_others : Bool
  pub recipients : List ℕ

module _ (p : Payload) where
  open p use {F, Processing, Roster, History, Alert, Stereo, Esp32}

  -- The fields of `ControlEvent::ConfigUpdate`.
  pub record ConfigUpdate : Type 0 where
    pub user_id : ℕ
    pub client_uid : String
    pub name : String
    pub listen : List ℕ
    pub tx : List ℕ
    pub vol : Map F
    pub talker_vol : Map F
    pub codec : Codec
    pub opus_profile : OpusProfile
    pub talk_mode : TalkMode
    pub regular_talk_active : Bool
    pub priority : Bool
    pub priority_channels : List ℕ
    pub processing : Processing
    pub buttons : List TalkButtonConfig
    pub active_buttons : List String
    pub active_direct_calls : List DirectCallStatus
    pub last_direct_caller : Option ℕ
    pub direct_call_history : List History
    pub active_alerts : List Alert
    pub recent_alerts : List Alert
    pub emergency : Option (EmergencyStatus F)
    pub ifb : IfbConfig F
    pub lockout : ClientLockoutPolicy
    pub stereo : Stereo
    pub esp32_audio : Esp32

  pub data ControlEvent : Type 0 where
    config_update : ConfigUpdate → ControlEvent
    presence_update : ℕ → String → List Roster → ControlEvent

  -- `ClientConfig` but for `role`, `advertised_buttons` and `capabilities`, which these operations
  -- neither read nor write.
  pub record ClientConfig : Type 0 where
    pub user_id : ℕ
    pub client_uid : String
    pub name : String
    pub listen : List ℕ
    pub tx : List ℕ
    pub codec : Codec
    pub opus_profile : OpusProfile
    pub talk_mode : TalkMode
    pub last_non_muted_talk_mode : TalkMode
    pub regular_talk_active : Bool
    pub priority : Bool
    pub priority_channels : List ℕ
    pub processing : Processing
    pub channel_rosters : List Roster
    pub emergency : Option (EmergencyStatus F)
    pub vol : Map F
    pub talker_vol : Map F
    pub buttons : List TalkButtonConfig
    pub active_buttons : List String
    pub active_direct_calls : List DirectCallStatus
    pub last_direct_caller : Option ℕ
    pub direct_call_history : List History
    pub active_alerts : List Alert
    pub recent_alerts : List Alert
    pub ifb : IfbConfig F
    pub lockout : ClientLockoutPolicy
    pub stereo : Stereo
    pub esp32_audio : Esp32

pub record ClientTransmitSnapshot : Type 0 where
  pub user_id : ℕ
  pub targets : List AudioTarget
  pub codec : Codec
  pub opus_profile : OpusProfile

-- the microphone is open: open mode, or push to talk that is held
abbrev pub talks : TalkMode → Bool → Bool
talks mode regular_talk_active =
    talk_mode_beq mode open_mic || (talk_mode_beq mode ptt && regular_talk_active)

abbrev pub target_of : DirectCallStatus → AudioTarget
target_of call = direct call.target

module _ {p : Payload} where
  -- `ClientConfig::set_talk_mode`
  unfoldable pub change_talk_mode : ClientConfig p → TalkMode → ClientConfig p
  change_talk_mode config talk_mode = record config {
    talk_mode = talk_mode;
    last_non_muted_talk_mode =
        if not (talk_mode_beq talk_mode muted) then talk_mode else config.last_non_muted_talk_mode;
  }

  -- `ClientConfig::restored_unmute_talk_mode`
  unfoldable pub restored_unmute_talk_mode : ClientConfig p → TalkMode
  restored_unmute_talk_mode config =
      if talk_mode_beq config.last_non_muted_talk_mode muted
      then ptt
      else config.last_non_muted_talk_mode

  -- `ClientConfig::active_tx_channels`
  unfoldable pub active_tx_channels : ClientConfig p → List ℕ
  active_tx_channels config =
      let channels =
        if talks config.talk_mode config.regular_talk_active then set_extend [] config.tx else [] in
      sort nat_ord
        (set_extend channels (button_channels (pressed config.active_buttons config.buttons)))

  -- the user's own calls that are active
  abbrev pub own_calls : ClientConfig p → List DirectCallStatus
  own_calls config =
      filter (λ call. call.caller == config.user_id && call.active) config.active_direct_calls

  -- the user started the emergency that is active
  abbrev pub leads_emergency : ClientConfig p → Bool
  leads_emergency config = elim config.emergency [
    | none ↦ false
    | some emergency ↦ emergency.active && emergency.source == config.user_id
  ]

  -- `ClientConfig::active_tx_targets`
  unfoldable pub active_tx_targets : ClientConfig p → List AudioTarget
  active_tx_targets config =
      let channels = set_extend [] (map channel (active_tx_channels config)) in
      let calls = set_extend channels (map target_of (own_calls config)) in
      let buttons =
        set_extend calls
          (map direct (button_targets (pressed config.active_buttons config.buttons))) in
      sort target_ord (if leads_emergency config then set_insert buttons mixed else buttons)

  -- `ClientConfig::active_transmit_snapshot`
  unfoldable pub active_transmit_snapshot : ClientConfig p → Option ClientTransmitSnapshot
  active_transmit_snapshot config =
      if config.user_id == 0 then none else elim (active_tx_targets config) [
        | [] ↦ none
        | target ∷ targets ↦ some record {
          user_id = config.user_id;
          targets = target ∷ targets;
          codec = config.codec;
          opus_profile = config.opus_profile;
        }
      ]

  -- the branch of `apply_control_event` for an update that is the client's own
  unfoldable pub accept_update : ClientConfig p → ConfigUpdate p → ClientConfig p
  unfolding change_talk_mode
  accept_update config event =
      let named : ClientConfig p = record config {
        client_uid = if event.client_uid == "" then config.client_uid else event.client_uid;
        listen = event.listen;
        name = event.name;
        tx = event.tx;
        vol = event.vol;
        talker_vol = event.talker_vol;
        codec = if codec_supported event.codec then event.codec else config.codec;
        opus_profile =
            if codec_supported event.codec then event.opus_profile else config.opus_profile;
      } in
      let talking : ClientConfig p = change_talk_mode named event.talk_mode in
      record talking {
        regular_talk_active = event.regular_talk_active;
        priority = event.priority;
        priority_channels = event.priority_channels;
        processing = event.processing;
        buttons = event.buttons;
        active_buttons = event.active_buttons;
        active_direct_calls = event.active_direct_calls;
        last_direct_caller = event.last_direct_caller;
        direct_call_history = event.direct_call_history;
        active_alerts = event.active_alerts;
        recent_alerts = event.recent_alerts;
        emergency = event.emergency;
        ifb = event.ifb;
        lockout = event.lockout;
        stereo = event.stereo;
        esp32_audio = event.esp32_audio;
      }

  -- `apply_control_event`
  unfoldable pub apply_control_event : ClientConfig p → ControlEvent p → ClientConfig p
  unfolding accept_update
  apply_control_event config (presence_update user_id client_uid channels) =
      if config.user_id == user_id then record config { channel_rosters = channels } else config
  apply_control_event config (config_update event) =
      if config.user_id == event.user_id then accept_update config event else config
