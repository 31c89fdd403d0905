-- ===== src/Server/Config/Apply.antt =====
-- A configuration becomes the session's.
use open_broadcast_intercom.Base.{
  ℕ, not, ◌||◌, none, some, [], ◌∷◌, ◌==◌, nat_eq, string_eq, if◌then◌else◌, filter, map, contains,
  set_extend,
}
use open_broadcast_intercom.Base.Map
use open_broadcast_intercom.Base.Map.{Map}
use open_broadcast_intercom.Wire.Types.{pcm16}
use open_broadcast_intercom.Control.{TalkButtonConfig}
use open_broadcast_intercom.Control.Same.{codec_eq}
use open_broadcast_intercom.Server.Gains.{Gains}
use open_broadcast_intercom.Server.State.{Session, StereoConfig, new_session}
use open_broadcast_intercom.Server.Ifb.{normalize_ifb_config}
use open_broadcast_intercom.Server.Config.Buttons.{normalize_button_configs}
use open_broadcast_intercom.Server.Config.Desired.{DesiredClientConfig, Limits}

module _ (g : Gains) where
  open g use {F, zero as nought, one, is_finite, clamp}

  -- `normalize_talker_volumes`
  unfoldable pub normalize_talker_volumes : Limits F → Map F → ℕ → Map F
  normalize_talker_volumes limits [] listener = []
  normalize_talker_volumes limits ((talker, gain) ∷ volumes) listener =
      let rest = normalize_talker_volumes limits volumes listener in
      if talker == listener || not (is_finite gain)
      then rest
      else (talker, clamp gain nought limits.four) ∷ rest

  unfoldable pub normalize_pans : Limits F → Map F → Map F
  normalize_pans limits [] = []
  normalize_pans limits ((id, pan) ∷ pans) =
      let rest = normalize_pans limits pans in
      if is_finite pan then (id, clamp pan limits.minus_one one) ∷ rest else rest

  -- `normalize_stereo_config`
  unfoldable pub normalize_stereo_config : Limits F → StereoConfig F → StereoConfig F
  unfolding normalize_pans
  normalize_stereo_config limits stereo = record stereo {
    channel_pan = normalize_pans limits stereo.channel_pan;
  }

  -- `apply_desired_to_session_fields`
  unfoldable pub apply_desired_to_session_fields :
      Limits F → DesiredClientConfig F → Session F → Session F
  apply_desired_to_session_fields limits desired session =
      let buttons = normalize_button_configs desired.buttons in
      record session {
        client_uid = elim desired.client_uid [ none ↦ session.client_uid | some uid ↦ uid ];
        role = desired.role;
        listen_channels = set_extend [] desired.listen;
        tx_channels = set_extend [] desired.tx;
        channel_volumes = desired.vol;
        talker_volumes = normalize_talker_volumes limits desired.talker_vol desired.user_id;
        buttons = buttons;
        ifb = normalize_ifb_config g desired.ifb;
        lockout = desired.lockout;
        stereo = normalize_stereo_config limits desired.stereo;
        name = desired.name;
        active_buttons =
            filter (λ id. contains (map (λ (button : TalkButtonConfig). button.id) buttons) id)
              session.active_buttons;
        output_codec =
            if contains session.supported_codecs desired.codec then desired.codec else pcm16;
        opus_profile = desired.opus_profile;
        talk_mode = desired.talk_mode;
        priority = desired.priority;
        priority_channels = set_extend [] desired.priority_channels;
      }

  -- `apply_desired_to_live_session`
  unfoldable pub apply_desired_to_live_session :
      Limits F → ℕ → DesiredClientConfig F → Map (Session F) → Map (Session F)
  apply_desired_to_live_session limits now desired sessions =
      Map.modify (Map.or_insert sessions desired.user_id (new_session g now)) desired.user_id
        (λ session. record (apply_desired_to_session_fields limits desired session) {
          last_seen = now;
        })
