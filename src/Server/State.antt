-- ===== src/Server/State.antt =====
-- server/src/lib.rs: `Session`, `ServerState` and the push of configuration updates.
-- An `Instant` is a number of milliseconds, and the present time is an argument. The session's
-- `advertised_buttons`, `capabilities`, `esp32_audio`, `processing` and `bridge` are left out: the
-- operations that are modelled do not read them.
use open_broadcast_intercom.Base.{
  ℕ, ◌-◌, ◌≡◌, refl, ◌∙◌, Bool, true, false, Option, none, some, List, [], ◌∷◌, ◌++◌, String, arith,
  leb, if◌then◌else◌, Result, ok,
}
use open_broadcast_intercom.Base.Map
use open_broadcast_intercom.Base.Map.{Map}
use open_broadcast_intercom.Wire.Types.{Codec, pcm16, OpusProfile, speech_24_standard}
use open_broadcast_intercom.Control.{
  ClientRole, client, EnrollmentStatus, enrolled, TalkMode, ptt, AlertTarget, EmergencyTarget,
  TalkButtonConfig, IfbConfig, IfbStatus, ClientLockoutPolicy, AlertRecipientStatus,
}
use open_broadcast_intercom.Server.Gains.{Gains}

-- `SERVER_USER_ID`
abbrev pub server_user_id : ℕ
server_user_id = 0

-- `AUDIO_ENDPOINT_TIMEOUT`, in milliseconds
abbrev pub audio_endpoint_timeout : ℕ
audio_endpoint_timeout = 6_000

-- The field `duck` of `ActiveDirectCall` is its only one.
pub record DirectCallHistory : Type 0 where
  pub caller : ℕ
  pub target : ℕ
  pub started : ℕ
  pub ended : Option ℕ
  pub duck : Bool
  pub source_button : Option String

pub record RuntimeAlert : Type 0 where
  pub id : ℕ
  pub sender : ℕ
  pub target : AlertTarget
  pub message : Option String
  pub created_at_ms : ℕ
  pub recipients : List AlertRecipientStatus
  pub cancelled : Bool
  pub cancelled_at_ms : Option ℕ

pub record StereoConfig (F : Type 0) : Type 0 where
  pub enabled : Bool
  pub channel_pan : Map F

pub record RuntimeEmergency (F : Type 0) : Type 0 where
  pub source : ℕ
  pub target : EmergencyTarget
  pub duck_gain : F
  pub mute_others : Bool

pub record Session (F : Type 0) : Type 0 where
  pub client_uid : String
  pub enrollment : EnrollmentStatus
  pub addr : Option ℕ
  pub audio_last_seen : Option ℕ
  pub role : ClientRole
  pub listen_channels : List ℕ
  pub tx_channels : List ℕ
  pub channel_volumes : Map F
  pub talker_volumes : Map F
  pub output_codec : Codec
  pub opus_profile : OpusProfile
  pub supported_codecs : List Codec
  pub buttons : List TalkButtonConfig
  pub active_buttons : List String
  pub active_direct_calls : Map Bool
  pub last_direct_caller : Option ℕ
  pub direct_call_history : List DirectCallHistory
  pub ifb : IfbConfig F
  pub ifb_status : IfbStatus F
  pub lockout : ClientLockoutPolicy
  pub stereo : StereoConfig F
  pub name : String
  pub talk_mode : TalkMode
  pub regular_talk_active : Bool
  pub priority : Bool
  pub priority_channels : List ℕ
  pub last_seen : ℕ

-- Of `ServerState`, what alerts, calls, buttons and the emergency use; the admin state, the audio
-- queues and the health, recording and transcription of the server are left out.
-- A control client is its sender, which stands for whether the connection still receives; `pushed`
-- is the users to whom a configuration update was sent, oldest first.
pub record ServerState (F : Type 0) : Type 0 where
  pub sessions : Map (Session F)
  pub control_clients : Map Bool
  pub alerts : List RuntimeAlert
  pub emergency : Option (RuntimeEmergency F)
  pub next_alert_id : ℕ
  pub pushed : List ℕ

abbrev pub open_lockout : ClientLockoutPolicy
open_lockout = record {
  allow_channels = true;
  allow_volumes = true;
  allow_codec = true;
  allow_talk_mode = true;
  allow_priority = true;
  allow_buttons = true;
  allow_ifb = true;
  allow_device_selection = true;
  allow_local_api = true;
}

-- What a request failed by; each is one of the source's messages.
pub data ControlError : Type 0 where
  unknown_client : ℕ → ControlError
  unknown_target_client : ℕ → ControlError
  unknown_button : String → ℕ → ControlError
  unknown_alert : ℕ → ControlError
  direct_call_yourself : ControlError
  no_last_direct_caller : ControlError
  no_live_recipients : ControlError
  alert_not_assigned : ℕ → ℕ → ControlError
  cannot_cancel_alert : ℕ → ℕ → ControlError
  cannot_clear_emergency : ℕ → ControlError

-- `ControlResponse::Ack` or `ControlResponse::Error`
abbrev pub Response : Type 0
Response = Result ControlError (Unit {0})

abbrev pub ack : Response
ack = ok tt

module _ (g : Gains) where
  open g use {F, one, default_duck}

  -- `Session::new`
  unfoldable pub new_session : ℕ → Session F
  new_session now = record {
    client_uid = "";
    enrollment = enrolled;
    addr = none;
    audio_last_seen = none;
    role = client;
    listen_channels = [];
    tx_channels = [];
    channel_volumes = [];
    talker_volumes = [];
    output_codec = pcm16;
    opus_profile = speech_24_standard;
    supported_codecs = pcm16 ∷ [];
    buttons = [];
    active_buttons = [];
    active_direct_calls = [];
    last_direct_caller = none;
    direct_call_history = [];
    ifb = record { enabled = false; program = []; interrupt = []; duck_gain = default_duck };
    ifb_status = record { active = false; duck_gain = one };
    lockout = open_lockout;
    stereo = record { enabled = false; channel_pan = [] };
    name = "";
    talk_mode = ptt;
    regular_talk_active = false;
    priority = false;
    priority_channels = [];
    last_seen = now;
  }

module _ {F : Type 0} where
  -- `session_audio_addr`
  unfoldable pub session_audio_addr : Session F → ℕ → Option ℕ
  session_audio_addr session now = elim session.addr [
    | none ↦ none
    | some addr ↦ elim session.audio_last_seen [
      | none ↦ some addr
      | some last_seen ↦ if leb (now - last_seen) audio_endpoint_timeout then some addr else none
    ]
  ]

  -- the send of `push_config_update`: a sender whose receiver is gone is removed
  send_update : ServerState F → ℕ → Option Bool → ServerState F
  send_update state user_id none = state
  send_update state user_id (some true) = record state { pushed = state.pushed ++ user_id ∷ [] }
  send_update state user_id (some false) = record state {
    control_clients = Map.remove state.control_clients user_id;
  }

  -- `push_config_update`: nothing without a session, whose snapshot is sent
  unfoldable pub push_config_update : ServerState F → ℕ → ServerState F
  unfolding send_update
  push_config_update state user_id =
      if Map.contains_key state.sessions user_id
      then send_update state user_id (Map.get state.control_clients user_id)
      else state

  -- `for user in users { push_config_update(state, user) }`
  unfoldable pub push_all : ServerState F → List ℕ → ServerState F
  push_all state [] = state
  push_all state (user_id ∷ users) = push_all (push_config_update state user_id) users

  -- A push changes nothing but the connections and what was sent.
  pub record SameCore (a b : ServerState F) : Type 0 where
    pub sessions : a.sessions ≡ b.sessions
    pub alerts : a.alerts ≡ b.alerts
    pub emergency : a.emergency ≡ b.emergency
    pub next_alert_id : a.next_alert_id ≡ b.next_alert_id

  pub push-SameCore :
      (state : ServerState F) (user_id : ℕ) → SameCore (push_config_update state user_id) state
  unfolding push_config_update
  push-SameCore state user_id = ground arith

  pub push_all-SameCore :
      (state : ServerState F) (users : List ℕ) → SameCore (push_all state users) state
  unfolding push_all
  push_all-SameCore state [] = record {
    sessions = refl;
    alerts = refl;
    emergency = refl;
    next_alert_id = refl;
  }
  push_all-SameCore state (user_id ∷ users) = ground (
    arith,
    push-SameCore state user_id,
    push_all-SameCore (push_config_update state user_id) users,
  )

  pub SameCore-trans : {a b c : ServerState F} → SameCore a b → SameCore b c → SameCore a c
  SameCore-trans h k = record {
    sessions = h.sessions ∙ k.sessions;
    alerts = h.alerts ∙ k.alerts;
    emergency = h.emergency ∙ k.emergency;
    next_alert_id = h.next_alert_id ∙ k.next_alert_id;
  }
