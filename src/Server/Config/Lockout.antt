-- ===== src/Server/Config/Lockout.antt =====
-- What the administrator locked, and the requests that it refuses.
use open_broadcast_intercom.Base.{
  ℕ, Bool, true, false, not, ◌&&◌, ◌||◌, Option, none, some, List, [], ◌∷◌, String, ◌==◌, nat_eq,
  if◌then◌else◌, nat_beq, length, contains, Result, ok, err,
}
use open_broadcast_intercom.Base.Map
use open_broadcast_intercom.Base.Map.{Map}
use open_broadcast_intercom.Base.Sorted.{nat_ord, sort}
use open_broadcast_intercom.Wire.Types.{Codec, OpusProfile, codec_supported}
use open_broadcast_intercom.Control.{
  ClientRole, TalkMode, TalkButtonConfig, IfbConfig, ClientLockoutPolicy,
}
use open_broadcast_intercom.Control.Same.{
  list_beq, list_eq, codec_eq, profile_eq, talk_mode_eq, bool_eq, button_eq, bool_beq,
}
use open_broadcast_intercom.Server.Gains.{Gains}
use open_broadcast_intercom.Server.State.{Session, StereoConfig, ServerState, session_audio_addr}
use open_broadcast_intercom.Server.Ifb.{normalize_ifb_config}
use open_broadcast_intercom.Server.Config.Buttons.{normalize_button_configs}
use open_broadcast_intercom.Server.Config.Desired.{
  DesiredClientConfig, AdminState, Limits, desired_baseline_for_user,
}

-- what is locked
pub data Aspect : Type 0 where
  channels volumes codec talk_mode priority buttons ifb : Aspect

-- Why a change of the configuration failed; each is one of the source's messages.
pub data ConfigError : Type 0 where
  locked : Aspect → ConfigError
  unsupported_codec : Codec → ConfigError
  codec_not_advertised : ℕ → Codec → ConfigError
  save_failed : ConfigError

-- `ControlMessage::Config`, without `processing` and `esp32_audio`
pub record ConfigRequest (F : Type 0) : Type 0 where
  pub user_id : ℕ
  pub role : Option ClientRole
  pub name : Option String
  pub listen : List ℕ
  pub tx : List ℕ
  pub vol : Map F
  pub talker_vol : Option (Map F)
  pub codec : Option Codec
  pub opus_profile : Option OpusProfile
  pub talk_mode : Option TalkMode
  pub priority : Option Bool
  pub priority_channels : Option (List ℕ)
  pub buttons : Option (List TalkButtonConfig)
  pub ifb : Option (IfbConfig F)
  pub stereo : Option (StereoConfig F)

-- `same_channels`
unfoldable pub same_channels : List ℕ → List ℕ → Bool
same_channels left right = list_beq (sort nat_ord left) (sort nat_ord right)

-- `value.is_some_and(|value| …)`
abbrev pub is_some_and : {A : Type 0} → (A → Bool) → Option A → Bool
is_some_and test none = false
is_some_and test (some a) = test a

module _ {F : Type 0} where
  same_entries : (F → F → Bool) → Map F → Map F → Bool
  same_entries same [] right = true
  same_entries same ((id, gain) ∷ left) right =
      elim (Map.get right id) [ none ↦ false | some other ↦ same gain other ]
      && same_entries same left right

  -- `==` of `HashMap<_, f32>`
  unfoldable pub same_gains : (F → F → Bool) → Map F → Map F → Bool
  unfolding same_entries
  same_gains same left right = nat_beq (length left) (length right) && same_entries same left right

  -- `==` of `IfbConfig`
  unfoldable pub same_ifb : (F → F → Bool) → IfbConfig F → IfbConfig F → Bool
  same_ifb same left right =
      bool_beq left.enabled right.enabled
      && list_beq left.program right.program
      && list_beq left.interrupt right.interrupt
      && same left.duck_gain right.duck_gain

module _ (g : Gains) (limits : Limits g.F) where
  open g use {F}

  abbrev pub channels_differ : DesiredClientConfig F → ConfigRequest F → Bool
  channels_differ b r = not (same_channels r.listen b.listen) || not (same_channels r.tx b.tx)

  abbrev pub volumes_differ : DesiredClientConfig F → ConfigRequest F → Bool
  volumes_differ b r =
      not (same_gains limits.same r.vol b.vol)
      || is_some_and (λ v. not (same_gains limits.same v b.talker_vol)) r.talker_vol

  abbrev pub codec_differs : DesiredClientConfig F → ConfigRequest F → Bool
  codec_differs b r =
      is_some_and (λ v. not (v == b.codec)) r.codec
      || is_some_and (λ v. not (v == b.opus_profile)) r.opus_profile

  abbrev pub buttons_differ : DesiredClientConfig F → ConfigRequest F → Bool
  buttons_differ b r =
      is_some_and (λ v. not (list_beq (normalize_button_configs v) b.buttons)) r.buttons

  abbrev pub ifb_differs : DesiredClientConfig F → ConfigRequest F → Bool
  ifb_differs b r =
      is_some_and (λ v. not (same_ifb limits.same (normalize_ifb_config g v) b.ifb)) r.ifb

  -- `validate_config_lockout`
  unfoldable pub validate_config_lockout :
      DesiredClientConfig F → ConfigRequest F → Result ConfigError (Unit {0})
  validate_config_lockout b r =
      if not b.lockout.allow_channels && channels_differ b r
      then err (locked channels)
      else if not b.lockout.allow_volumes && volumes_differ b r
      then err (locked volumes)
      else if not b.lockout.allow_codec && codec_differs b r
      then err (locked codec)
      else if not b.lockout.allow_talk_mode && is_some_and (λ v. not (v == b.talk_mode)) r.talk_mode
      then err (locked talk_mode)
      else if not b.lockout.allow_priority && is_some_and (λ v. not (v == b.priority)) r.priority
      then err (locked priority)
      else if not b.lockout.allow_priority
          && is_some_and (λ v. not (same_channels v b.priority_channels)) r.priority_channels
      then err (locked priority)
      else if not b.lockout.allow_buttons && buttons_differ b r
      then err (locked buttons)
      else if not b.lockout.allow_ifb && ifb_differs b r
      then err (locked ifb)
      else ok tt

  -- `ensure_control_allowed`
  unfoldable pub ensure_control_allowed :
      AdminState F
      → Map (Session F)
      → ℕ
      → (ClientLockoutPolicy → Bool)
      → Aspect
      → Result ConfigError (Unit {0})
  ensure_control_allowed admin sessions user_id allowed aspect =
      if allowed (desired_baseline_for_user g admin sessions user_id).lockout
      then ok tt
      else err (locked aspect)

module _ {F : Type 0} where
  abbrev pub has_live_audio : Session F → ℕ → Bool
  has_live_audio session now = elim (session_audio_addr session now) [
    | none ↦ false
    | some _ ↦ true
  ]

  -- `codec_available_for_user`
  unfoldable pub codec_available_for_user :
      ServerState F → ℕ → ℕ → Codec → Result ConfigError (Unit {0})
  codec_available_for_user state now user_id c =
      if not (codec_supported c)
      then err (unsupported_codec c)
      else elim (Map.get state.sessions user_id) [
        | none ↦ ok tt
        | some session ↦
            if not (has_live_audio session now || Map.contains_key state.control_clients user_id)
            then ok tt
            else if contains session.supported_codecs c
            then ok tt
            else err (codec_not_advertised user_id c)
      ]
