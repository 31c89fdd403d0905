-- ===== src/Tests/Following.antt =====
-- A client that follows the server.
use open_broadcast_intercom.Base.{
  ℕ, nat_eq, ◌≡◌, ◌≢◌, refl, true, false, not, ◌&&◌, ◌||◌, none, some, [], ◌∷◌, arith, contains,
  if◌then◌else◌,
}
use open_broadcast_intercom.Base.Map
use open_broadcast_intercom.Base.Sorted.{nat_ord, sort, mem}
use open_broadcast_intercom.Base.Text.{string_ord}
use open_broadcast_intercom.Wire.Types.{
  channel, direct, mixed, pcm16, adpcm, speech_24_standard, codec_supported,
}
use open_broadcast_intercom.Control.{muted, open_mic, target_ord, target_eq, target_beq, all}
use open_broadcast_intercom.Client.{
  Payload, ClientConfig, config_update, ConfigUpdate, EmergencyStatus, active_tx_targets,
  leads_emergency, apply_control_event, restored_unmute_talk_mode,
}
use open_broadcast_intercom.Client.Targets.{calls_now, IsReady, event-IsReady}
use open_broadcast_intercom.Server.State.{open_lockout}
use open_broadcast_intercom.Server.Routes.{
  apply_route_edits, session_tx_targets, active_direct_call_statuses_for_user,
}
use open_broadcast_intercom.Server.Routes.Edits.{is_odd, edits_exact}
use open_broadcast_intercom.Server.Routes.Reports.{calls_user, reports_exact}
use open_broadcast_intercom.Server.Routes.Agreement.{
  Follows, session_wants, session_targets_exact, targets_agree,
}
use open_broadcast_intercom.Tests.Samples.{clients, director, stage_button}

abbrev plain : Payload
plain = record {
  F = ℕ;
  Processing = Unit {0};
  Roster = Unit {0};
  History = Unit {0};
  Alert = Unit {0};
  Stereo = Unit {0};
  Esp32 = Unit {0};
}

abbrev alarm : EmergencyStatus ℕ
alarm = record {
  active = true;
  source = 1;
  target = all;
  duck_gain = 10;
  mute_others = false;
  recipients = 2 ∷ 3 ∷ [];
}

abbrev belt_pack : ClientConfig plain
belt_pack = record {
  user_id = 1;
  client_uid = "belt pack";
  name = "Director";
  listen = 7 ∷ [];
  tx = sort nat_ord director.tx_channels;
  codec = pcm16;
  opus_profile = speech_24_standard;
  talk_mode = open_mic;
  last_non_muted_talk_mode = open_mic;
  regular_talk_active = director.regular_talk_active;
  priority = false;
  priority_channels = [];
  processing = tt;
  channel_rosters = [];
  emergency = some alarm;
  vol = [];
  talker_vol = [];
  buttons = stage_button ∷ [];
  active_buttons = sort string_ord director.active_buttons;
  active_direct_calls = active_direct_call_statuses_for_user 1 clients;
  last_direct_caller = none;
  direct_call_history = [];
  active_alerts = [];
  recent_alerts = [];
  ifb = record { enabled = false; program = []; interrupt = []; duck_gain = 25 };
  lockout = open_lockout;
  stereo = tt;
  esp32_audio = tt;
}

abbrev muting : ConfigUpdate plain
muting = record {
  user_id = 1;
  client_uid = "";
  name = "Director";
  listen = [];
  tx = [];
  vol = [];
  talker_vol = [];
  codec = adpcm;
  opus_profile = speech_24_standard;
  talk_mode = muted;
  regular_talk_active = false;
  priority = false;
  priority_channels = [];
  processing = tt;
  buttons = [];
  active_buttons = [];
  active_direct_calls = [];
  last_direct_caller = none;
  direct_call_history = [];
  active_alerts = [];
  recent_alerts = [];
  emergency = none;
  ifb = record { enabled = false; program = []; interrupt = []; duck_gain = 25 };
  lockout = open_lockout;
  stereo = tt;
  esp32_audio = tt;
}

belt_pack-Follows : Follows clients director belt_pack
belt_pack-Follows = record {
  same_mode = refl;
  same_talk = refl;
  same_tx = refl;
  same_buttons = refl;
  same_active = refl;
  same_calls = refl;
}

director_found : Map.get clients 1 ≡ some director
unfolding Map.get
director_found = refl

targets_agree_example : mem target_ord (active_tx_targets belt_pack) (direct 2) ≡ (
    contains (session_tx_targets director) (direct 2)
    || (target_beq mixed (direct 2) && leads_emergency belt_pack))
targets_agree_example =
    targets_agree clients director belt_pack director_found belt_pack-Follows (direct 2)

belt_pack-IsReady : IsReady belt_pack
unfolding codec_supported
belt_pack-IsReady = record { can_unmute = λ e. ground arith; can_encode = refl }

event-IsReady_example :
    IsReady (apply_control_event belt_pack (config_update muting))
    × (restored_unmute_talk_mode (apply_control_event belt_pack (config_update muting)) ≢ muted)
    × ((apply_control_event belt_pack (config_update muting)).user_id ≡ 1)
event-IsReady_example = event-IsReady belt_pack (config_update muting) belt_pack-IsReady

reports_exact_example :
    calls_now (active_direct_call_statuses_for_user 1 clients) 1 2
    ≡ elim (Map.get clients 1) [ none ↦ false | some session ↦ calls_user session 2 ]
reports_exact_example = reports_exact clients 1 2

session_targets_exact_example :
    contains (session_tx_targets director) (channel 4) ≡ session_wants director (channel 4)
session_targets_exact_example = session_targets_exact director (channel 4)

edits_exact_example :
    mem nat_ord (apply_route_edits (1 ∷ 2 ∷ []) (3 ∷ []) (2 ∷ []) (3 ∷ 4 ∷ [])) 3 ≡ (
      let kept =
        (contains {A = ℕ} (1 ∷ 2 ∷ []) 3 || contains {A = ℕ} (3 ∷ []) 3)
        && not (contains {A = ℕ} (2 ∷ []) 3) in
      if is_odd (3 ∷ 4 ∷ []) 3 then not kept else kept)
edits_exact_example = edits_exact (1 ∷ 2 ∷ []) (3 ∷ []) (2 ∷ []) (3 ∷ 4 ∷ []) 3
