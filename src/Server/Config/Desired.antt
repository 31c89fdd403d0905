-- ===== src/Server/Config/Desired.antt =====
-- The desired configuration of a client, and the admin state that keeps it. The `hardware_fingerprint`,
-- `warnings`, `supported_codecs`, `advertised_buttons` and `capabilities` of a device, and the
-- `esp32_audio` and `processing` of a configuration, are left out, like the channels and the
-- templates of the admin state.
use Prim.Native.String.{◌++◌ as str_append}
use open_broadcast_intercom.Base.{
  ℕ, zero, suc, ◌/◌, ◌%◌, Bool, true, false, not, ◌&&◌, Option, none, some, List, [], ◌∷◌, ◌++◌,
  String, ◌==◌, nat_eq, string_eq, ltb, leb, if◌then◌else◌, filter, find, any, map, update_first,
}
use open_broadcast_intercom.Base.Map
use open_broadcast_intercom.Base.Map.{Map}
use open_broadcast_intercom.Base.Sorted.{nat_ord, sort}
use open_broadcast_intercom.Base.Stable.{sort_by, dedup_by}
use open_broadcast_intercom.Base.Text.{string_le}
use open_broadcast_intercom.Base.Trim.{trim, is_empty}
use open_broadcast_intercom.Wire.Types.{Codec, pcm16, OpusProfile, speech_24_standard}
use open_broadcast_intercom.Control.{
  ClientRole, client, EnrollmentStatus, enrolled, TalkMode, ptt, TalkButtonConfig, IfbConfig,
  ClientLockoutPolicy,
}
use open_broadcast_intercom.Control.Same.{codec_eq}
use open_broadcast_intercom.Server.Gains.{Gains}
use open_broadcast_intercom.Server.State.{Session, StereoConfig, open_lockout}
use open_broadcast_intercom.Server.Config.Buttons.{normalize_button_configs}

-- `CHANNEL_OPEN`
abbrev pub channel_open : ℕ
channel_open = 0

pub record DeviceEnrollment : Type 0 where
  pub client_uid : String
  pub user_id : ℕ
  pub status : EnrollmentStatus
  pub name : String
  pub role : ClientRole
  pub first_seen_ms : ℕ
  pub last_seen_ms : ℕ

pub record DesiredClientConfig (F : Type 0) : Type 0 where
  pub user_id : ℕ
  pub client_uid : Option String
  pub role : ClientRole
  pub name : String
  pub listen : List ℕ
  pub tx : List ℕ
  pub vol : Map F
  pub talker_vol : Map F
  pub codec : Codec
  pub opus_profile : OpusProfile
  pub talk_mode : TalkMode
  pub priority : Bool
  pub priority_channels : List ℕ
  pub buttons : List TalkButtonConfig
  pub ifb : IfbConfig F
  pub lockout : ClientLockoutPolicy
  pub stereo : StereoConfig F

pub record PresetConfig (F : Type 0) : Type 0 where
  pub id : String
  pub name : String
  pub clients : List (DesiredClientConfig F)

-- Of `PersistedAdminState`, the devices, the configured clients and the presets.
pub record AdminState (F : Type 0) : Type 0 where
  pub devices : List DeviceEnrollment
  pub clients : List (DesiredClientConfig F)
  pub presets : List (PresetConfig F)

-- The constants of `f32` that a configuration is clamped to, and `==` of `f32`.
pub record Limits (F : Type 0) : Type 0 where
  pub minus_one : F
  -- `4.0`
  pub four : F
  pub same : F → F → Bool

-- the decimal digits of a `u16`, as `format!` prints them
digit : ℕ → String
digit n =
    let d = n % 10 in
    if d == 0
    then "0"
    else if d == 1
    then "1"
    else if d == 2
    then "2"
    else if d == 3
    then "3"
    else if d == 4
    then "4"
    else if d == 5
    then "5"
    else if d == 6
    then "6"
    else if d == 7
    then "7"
    else if d == 8
    then "8"
    else "9"

digits : ℕ → ℕ → String
unfolding digit
digits zero n = digit n
digits (suc f) n =
    let high = digits f (n / 10) in if ltb n 10 then digit n else str_append high (digit n)

-- `normalize_client_uid`
unfoldable pub normalize_client_uid : String → Option ℕ → String
unfolding digits
normalize_client_uid client_uid requested =
    let trimmed = trim client_uid in
    if not (is_empty trimmed) then trimmed else elim requested [
      | none ↦ "legacy-unassigned"
      | some user_id ↦
          if ltb 0 user_id then str_append "legacy-" (digits 4 user_id) else "legacy-unassigned"
    ]

abbrev pub device_le : DeviceEnrollment → DeviceEnrollment → Bool
device_le a b =
    if ltb a.user_id b.user_id
    then true
    else if ltb b.user_id a.user_id
    then false
    else string_le a.client_uid b.client_uid

abbrev pub is_valid_device : DeviceEnrollment → Bool
is_valid_device device = ltb 0 device.user_id && not (is_empty (trim device.client_uid))

abbrev pub normalize_device : DeviceEnrollment → DeviceEnrollment
normalize_device device = record device {
  client_uid = normalize_client_uid device.client_uid (some device.user_id);
  name = trim device.name;
}

-- `normalize_device_enrollments`
unfoldable pub normalize_device_enrollments : List DeviceEnrollment → List DeviceEnrollment
normalize_device_enrollments devices =
    dedup_by (λ (a b : DeviceEnrollment). a.client_uid == b.client_uid)
      (sort_by device_le (map normalize_device (filter is_valid_device devices)))

module _ {F : Type 0} where
  -- `desired_client`
  unfoldable pub desired_client : AdminState F → ℕ → Option (DesiredClientConfig F)
  desired_client admin user_id =
      find (λ (config : DesiredClientConfig F). config.user_id == user_id) admin.clients

  abbrev pub is_for : ℕ → DesiredClientConfig F → Bool
  is_for user_id config = config.user_id == user_id

  abbrev pub user_id_le : DesiredClientConfig F → DesiredClientConfig F → Bool
  user_id_le a b = leb a.user_id b.user_id

  -- `upsert_desired_client`
  unfoldable pub upsert_desired_client :
      List (DesiredClientConfig F) → DesiredClientConfig F → List (DesiredClientConfig F)
  upsert_desired_client clients desired = sort_by user_id_le (
      if any (is_for desired.user_id) clients
      then update_first (is_for desired.user_id) (λ _. desired) clients
      else clients ++ desired ∷ [])

  abbrev pub enroll : ℕ → DesiredClientConfig F → DeviceEnrollment → DeviceEnrollment
  enroll now desired device = record device {
    user_id = desired.user_id;
    status = enrolled;
    role = desired.role;
    name = if is_empty desired.name then device.name else desired.name;
    last_seen_ms = now;
  }

  abbrev pub device_of : ℕ → String → DesiredClientConfig F → DeviceEnrollment
  device_of now client_uid desired = record {
    client_uid = client_uid;
    user_id = desired.user_id;
    status = enrolled;
    name = desired.name;
    role = desired.role;
    first_seen_ms = now;
    last_seen_ms = now;
  }

  -- the part of `apply_desired_client` that enrolls the device of the configuration
  unfoldable pub enroll_desired :
      ℕ → DesiredClientConfig F → List DeviceEnrollment → List DeviceEnrollment
  enroll_desired now desired devices = elim desired.client_uid [
    | none ↦ devices
    | some uid ↦
        (let client_uid = normalize_client_uid uid (some desired.user_id) in
          let is_device = λ (device : DeviceEnrollment). device.client_uid == client_uid in
          normalize_device_enrollments (
            if any is_device devices
            then update_first is_device (enroll now desired) devices
            else devices ++ device_of now client_uid desired ∷ []))
  ]

module _ (g : Gains) where
  open g use {F, default_duck}

  -- `DesiredClientConfig::new`
  unfoldable pub new_desired : ℕ → DesiredClientConfig F
  new_desired user_id = record {
    user_id = user_id;
    client_uid = none;
    role = client;
    name = "";
    listen = channel_open ∷ [];
    tx = channel_open ∷ [];
    vol = [];
    talker_vol = [];
    codec = pcm16;
    opus_profile = speech_24_standard;
    talk_mode = ptt;
    priority = false;
    priority_channels = [];
    buttons = [];
    ifb = record { enabled = false; program = []; interrupt = []; duck_gain = default_duck };
    lockout = open_lockout;
    stereo = record { enabled = false; channel_pan = [] };
  }

  abbrev pub desired_of : ℕ → Session F → DesiredClientConfig F
  desired_of user_id session = record {
    user_id = user_id;
    client_uid = if is_empty session.client_uid then none else some session.client_uid;
    role = session.role;
    name = "";
    listen = sort nat_ord session.listen_channels;
    tx = sort nat_ord session.tx_channels;
    vol = session.channel_volumes;
    talker_vol = session.talker_volumes;
    codec = session.output_codec;
    opus_profile = session.opus_profile;
    talk_mode = session.talk_mode;
    priority = session.priority;
    priority_channels = sort nat_ord session.priority_channels;
    buttons = normalize_button_configs session.buttons;
    ifb = session.ifb;
    lockout = session.lockout;
    stereo = session.stereo;
  }

  -- `desired_baseline_for_user`
  unfoldable pub desired_baseline_for_user :
      AdminState F → Map (Session F) → ℕ → DesiredClientConfig F
  desired_baseline_for_user admin sessions user_id = elim (desired_client admin user_id) [
    | some desired ↦ desired
    | none ↦ elim (Map.get sessions user_id) [
      | none ↦ new_desired user_id
      | some session ↦ desired_of user_id session
    ]
  ]
