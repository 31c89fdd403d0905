-- ===== src/Tests/Requesting.antt =====
-- Requests about a configuration.
use open_broadcast_intercom.Base.{
  ℕ, ◌≡◌, refl, true, false, none, some, [], ◌∷◌, err, nat_beq, arith, List,
}
use open_broadcast_intercom.Wire.Types.{opus, speech_24_standard}
use open_broadcast_intercom.Control.{client, ptt, momentary, TalkButtonConfig, user}
use open_broadcast_intercom.Server.Config.Desired.{
  DesiredClientConfig, Limits, desired_baseline_for_user, desired_client,
}
use open_broadcast_intercom.Server.Config.Lockout.{
  ConfigRequest, locked, codec, ensure_control_allowed,
}
use open_broadcast_intercom.Server.Config.Handle.{
  Managed, set_config, set_codec, baseline_of, apply_config_message, apply_audio_codec,
}
use open_broadcast_intercom.Server.Config.Keeps.{Keeps}
use open_broadcast_intercom.Server.Config.Locked.{requests_keep_locked}
use open_broadcast_intercom.Server.Config.Refused.{Refuses, refused_unchanged}
use open_broadcast_intercom.Base.{find, filter, String}
use open_broadcast_intercom.Base.Stable.{sort_by, dedup_by}
use open_broadcast_intercom.Base.Trim.{trim, is_empty, is_whitespace}
use open_broadcast_intercom.Server.Config.Buttons.{
  normalize_button_configs, normalize_button, normalize_button_color, button_id_le, parse_u16,
}
use open_broadcast_intercom.Server.Alerts.Sending.{IsOrderly}
use open_broadcast_intercom.Server.Activation.{Moment}
use open_broadcast_intercom.Server.Dispatch.{
  ServerEvent, message, disconnect, button, send_alert, run_server,
}
use open_broadcast_intercom.Server.Dispatch.Reached.{run_server-IsOrderly}
use open_broadcast_intercom.Tests.Samples.{hundredths, show}

abbrev limits : Limits ℕ
limits = record { minus_one = 0; four = 400; same = nat_beq }

-- the second client may not change its codec and its channels
abbrev camera_config : DesiredClientConfig ℕ
camera_config = record {
  user_id = 2;
  client_uid = some "camera";
  role = client;
  name = "Camera";
  listen = 7 ∷ 8 ∷ [];
  tx = [];
  vol = [];
  talker_vol = [];
  codec = opus;
  opus_profile = speech_24_standard;
  talk_mode = ptt;
  priority = false;
  priority_channels = [];
  buttons = [];
  ifb = record { enabled = false; program = []; interrupt = []; duck_gain = 25 };
  lockout = record {
    allow_channels = false;
    allow_volumes = true;
    allow_codec = false;
    allow_talk_mode = true;
    allow_priority = true;
    allow_buttons = true;
    allow_ifb = true;
    allow_device_selection = true;
    allow_local_api = true;
  };
  stereo = record { enabled = false; channel_pan = [] };
}

abbrev managed : Managed ℕ
managed = record {
  admin = record { devices = []; clients = camera_config ∷ []; presets = [] };
  server = show;
}

-- the channels in another order, and the same codec
abbrev request : ConfigRequest ℕ
request = record {
  user_id = 2;
  role = none;
  name = some "Camera 2";
  listen = 8 ∷ 7 ∷ [];
  tx = [];
  vol = [];
  talker_vol = none;
  codec = none;
  opus_profile = none;
  talk_mode = some ptt;
  priority = some true;
  priority_channels = some (7 ∷ []);
  buttons = none;
  ifb = none;
  stereo = none;
}

requests_keep_locked_example : Keeps nat_beq (baseline_of hundredths limits managed 2) (
    baseline_of hundredths limits
      (apply_config_message hundredths limits true 9 managed (set_config request)).1
      2)
requests_keep_locked_example =
    requests_keep_locked hundredths limits true 9 managed (set_config request) 2

codec_is_locked :
    (apply_config_message hundredths limits true 9 managed (set_codec 2 opus)).0
    ≡ err (locked codec)
unfolding apply_config_message apply_audio_codec ensure_control_allowed desired_baseline_for_user
    desired_client find
codec_is_locked = refl

refused_unchanged_example :
    Refuses hundredths limits true managed
      (locked codec)
      (apply_config_message hundredths limits true 9 managed (set_codec 2 opus)).1
refused_unchanged_example =
    refused_unchanged hundredths limits true 9 managed (set_codec 2 opus) (locked codec)
      codec_is_locked

abbrev numbered : String → TalkButtonConfig
numbered id = record { id = id; label = id; color = none; mode = momentary; actions = [] }

-- two buttons with one identifier stay apart
both_sevens_stay :
    normalize_button_configs (numbered "7" ∷ numbered "07" ∷ numbered "7" ∷ [])
    ≡ numbered "7" ∷ numbered "07" ∷ numbered "7" ∷ []
unfolding normalize_button_configs normalize_button normalize_button_color button_id_le parse_u16
    sort_by dedup_by filter trim is_empty is_whitespace
both_sevens_stay = refl

-- a client presses a button that alerts, and then leaves
abbrev busy : List (Moment × ServerEvent ℕ)
busy =
    (record { saved = true; now = 9; now_ms = 9 }, message (button 1 "stage" true))
    ∷ (record { saved = true; now = 10; now_ms = 10 }, message (send_alert 1 (user 2) none))
    ∷ (record { saved = true; now = 11; now_ms = 11 }, disconnect 1 true)
    ∷ []

server-IsOrderly : IsOrderly managed.server
server-IsOrderly = ground arith

run_server-IsOrderly_example : IsOrderly (run_server hundredths limits managed busy).server
run_server-IsOrderly_example = run_server-IsOrderly hundredths limits managed busy server-IsOrderly
