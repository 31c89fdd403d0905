-- ===== src/Client/Targets.antt =====
-- What a client transmits to, and what an event of the server leaves of its settings.
use open_broadcast_intercom.Base.{
  ℕ, ◌≡◌, ◌≢◌, refl, ◌∙◌, Bool, true, false, not, ◌&&◌, ◌||◌, List, [], ◌∷◌, arith, ◌==◌, nat_eq,
  if◌then◌else◌, any, filter, contains, set_insert, set_extend, contains-set_insert,
  contains-set_extend, Bool-cases, inl, inr,
}
use mathlib.Core.List.{map}
use open_broadcast_intercom.Base.Sorted.{nat_ord, mem, mem-sort}
use open_broadcast_intercom.Wire.Types.{AudioTarget, channel, direct, mixed, Codec, codec_supported}
use open_broadcast_intercom.Control.{
  TalkMode, muted, ptt, open_mic, talk_mode_beq, target_beq, target_ord, target_eq,
}
use open_broadcast_intercom.Control.Actions.{button_targets, button_channels, pressed}
use open_broadcast_intercom.Client.{
  Payload, ClientConfig, ControlEvent, config_update, presence_update, ConfigUpdate,
  DirectCallStatus, talks, target_of, own_calls, leads_emergency, active_tx_channels,
  active_tx_targets, apply_control_event, accept_update, restored_unmute_talk_mode,
}

pub channels_in :
    (cs : List ℕ) (t : AudioTarget)
    → contains (map channel cs) t
      ≡ elim t [ channel c ↦ contains cs c | direct u ↦ false | mixed ↦ false ]
unfolding contains
channels_in [] t = ground arith
channels_in (c ∷ cs) t = ground (arith, channels_in cs t)

pub users_in :
    (us : List ℕ) (t : AudioTarget)
    → contains (map direct us) t
      ≡ elim t [ channel c ↦ false | direct u ↦ contains us u | mixed ↦ false ]
unfolding contains
users_in [] t = ground arith
users_in (u ∷ us) t = ground (arith, users_in us t)

-- a call that `caller` has to `target` now
unfoldable pub calls_now : List DirectCallStatus → ℕ → ℕ → Bool
calls_now calls caller target =
    any (λ call. (call.caller == caller && call.active) && call.target == target) calls

calls_in :
    (calls : List DirectCallStatus) (caller : ℕ) (t : AudioTarget)
    → contains (map target_of (filter (λ call. call.caller == caller && call.active) calls)) t
      ≡ elim t [ channel c ↦ false | direct u ↦ calls_now calls caller u | mixed ↦ false ]
unfolding contains filter any calls_now
calls_in [] caller t = ground arith
calls_in (call ∷ calls) caller t = ground (arith, calls_in calls caller t)

union_of :
    (as' bs cs : List AudioTarget) (leads : Bool) (t : AudioTarget)
    → let all_of = set_extend (set_extend (set_extend [] as') bs) cs in
      contains (if leads then set_insert all_of mixed else all_of) t
      ≡ ((target_beq mixed t && leads) || (contains cs t || (contains bs t || contains as' t)))
unfolding contains
union_of as' bs cs leads t = ground (
  arith,
  contains-set_insert (set_extend (set_extend (set_extend [] as') bs) cs) mixed t,
  contains-set_extend (set_extend (set_extend [] as') bs) cs t,
  contains-set_extend (set_extend [] as') bs t,
  contains-set_extend [] as' t,
)

unmutes :
    (mode last : TalkMode)
    → last ≢ muted
    → (if not (talk_mode_beq mode muted) then mode else last) ≢ muted
unmutes muted last h = h
unmutes ptt last h = λ e. ground arith
unmutes open_mic last h = λ e. ground arith

restores : (m : TalkMode) → (if talk_mode_beq m muted then ptt else m) ≢ muted
restores muted = λ e. ground arith
restores ptt = λ e. ground arith
restores open_mic = λ e. ground arith

encodes :
    (sent own : Codec)
    → codec_supported own ≡ true
    → codec_supported (if codec_supported sent then sent else own) ≡ true
encodes sent own h = ground arith

module _ {p : Payload} where
  -- the configuration asks for audio to this target
  abbrev pub wanted : ClientConfig p → AudioTarget → Bool
  wanted config (channel c) =
      (talks config.talk_mode config.regular_talk_active && contains config.tx c)
      || contains (button_channels (pressed config.active_buttons config.buttons)) c
  wanted config (direct u) =
      calls_now config.active_direct_calls config.user_id u
      || contains (button_targets (pressed config.active_buttons config.buttons)) u
  wanted config mixed = leads_emergency config

  channels_exact :
      (config : ClientConfig p) (c : ℕ)
      → contains (active_tx_channels config) c ≡ wanted config (channel c)
  unfolding active_tx_channels set_extend contains
  channels_exact config c =
      let buttons = button_channels (pressed config.active_buttons config.buttons) in
      let open_channels =
        if talks config.talk_mode config.regular_talk_active then set_extend [] config.tx else [] in
      mem-sort nat_ord (set_extend open_channels buttons) c
      ∙ ground
          (arith, contains-set_extend open_channels buttons c, contains-set_extend [] config.tx c)

  one_of :
      (config : ClientConfig p) (t : AudioTarget)
      → ((target_beq mixed t && leads_emergency config)
          || (contains
                (map direct (button_targets (pressed config.active_buttons config.buttons)))
                t
              || (contains (map target_of (own_calls config)) t
                  || contains (map channel (active_tx_channels config)) t)))
        ≡ wanted config t
  one_of config (channel c) = ground (
    arith,
    channels_in (active_tx_channels config) (channel c),
    channels_exact config c,
    calls_in config.active_direct_calls config.user_id (channel c),
    users_in (button_targets (pressed config.active_buttons config.buttons)) (channel c),
  )
  one_of config (direct u) = ground (
    arith,
    channels_in (active_tx_channels config) (direct u),
    calls_in config.active_direct_calls config.user_id (direct u),
    users_in (button_targets (pressed config.active_buttons config.buttons)) (direct u),
  )
  one_of config mixed = ground (
    arith,
    channels_in (active_tx_channels config) mixed,
    calls_in config.active_direct_calls config.user_id mixed,
    users_in (button_targets (pressed config.active_buttons config.buttons)) mixed,
  )

  -- A client transmits to exactly these targets: the channels of its `tx` while its microphone is
  -- open or its talk key is held, the channels and users of the buttons that are active, the users
  -- whom it calls now, and the mixed stream while it leads the emergency.
  pub targets_exact :
      (config : ClientConfig p) (t : AudioTarget)
      → mem target_ord (active_tx_targets config) t ≡ wanted config t
  unfolding active_tx_targets
  targets_exact config t =
      let as' = map channel (active_tx_channels config) in
      let bs = map target_of (own_calls config) in
      let cs = map direct (button_targets (pressed config.active_buttons config.buttons)) in
      mem-sort target_ord _ t ∙ union_of as' bs cs (leads_emergency config) t ∙ one_of config t

  -- The client can unmute, and can encode what it sends.
  pub record IsReady (config : ClientConfig p) : Type 0 where
    pub can_unmute : config.last_non_muted_talk_mode ≢ muted
    pub can_encode : codec_supported config.codec ≡ true

  update-IsReady :
      (config : ClientConfig p) (event : ConfigUpdate p)
      → IsReady config
      → IsReady (accept_update config event)
  unfolding accept_update
  update-IsReady config event ready = record {
    can_unmute = unmutes event.talk_mode config.last_non_muted_talk_mode ready.can_unmute;
    can_encode = encodes event.codec config.codec ready.can_encode;
  }

  -- An event keeps a client ready, whatever the server sends: the talk mode to which it unmutes is
  -- never `Muted`, and its codec is one it supports. It never changes the client's own identifier.
  pub event-IsReady :
      (config : ClientConfig p) (event : ControlEvent p)
      → IsReady config
      → IsReady (apply_control_event config event)
        × (restored_unmute_talk_mode (apply_control_event config event) ≢ muted)
        × ((apply_control_event config event).user_id ≡ config.user_id)
  unfolding apply_control_event restored_unmute_talk_mode
  event-IsReady config (presence_update user_id client_uid channels) ready =
      elim (Bool-cases (config.user_id == user_id)) [
        | inl e ↦ rw e (
          record { can_unmute = ready.can_unmute; can_encode = ready.can_encode },
          restores config.last_non_muted_talk_mode,
          refl,
        )
        | inr e ↦ rw e (ready, restores config.last_non_muted_talk_mode, refl)
      ]
  event-IsReady config (config_update event) ready =
      elim (Bool-cases (config.user_id == event.user_id)) [
        | inl e ↦ rw e (
          update-IsReady config event ready,
          restores (accept_update config event).last_non_muted_talk_mode,
          refl,
        )
        | inr e ↦ rw e (ready, restores config.last_non_muted_talk_mode, refl)
      ]
