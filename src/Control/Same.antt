-- ===== src/Control/Same.antt =====
-- `PartialEq` of the types of the control plane that have no `f32`, as it is derived.
use open_broadcast_intercom.Base.{
  ◌≡◌, refl, ◌↔◌, Bool, true, false, ◌&&◌, List, [], ◌∷◌, arith, ◌==◌, Eq, nat_eq, nat_beq,
  string_eq, eq_iff, option_eq, option_beq_iff,
}
use open_broadcast_intercom.Wire.Types.{
  Codec, pcm16, adpcm, opus, pcm48, pcm24, OpusProfile, speech_16_low, speech_24_standard,
  speech_48_high, music_48,
}
use open_broadcast_intercom.Control.{
  TalkMode, talk_mode_beq, TalkButtonMode, momentary, latching, AlertTarget, user, listeners,
  RouteEdit, TalkButtonAction, transmit, alert, apply_preset, set_talk_mode, route_edit,
  TalkButtonConfig,
}

module _ {ℓ} {A : Type ℓ} ⦃e : Eq A⦄ where
  abbrev pub list_beq : List A → List A → Bool
  list_beq [] [] = true
  list_beq (x ∷ xs) (y ∷ ys) = (x == y) && list_beq xs ys
  list_beq [] (y ∷ ys) = false
  list_beq (x ∷ xs) [] = false

  pub list_beq_iff : (xs ys : List A) → (list_beq xs ys ≡ true) ↔ (xs ≡ ys)
  list_beq_iff [] [] = (λ _. refl, λ _. refl)
  list_beq_iff (x ∷ xs) (y ∷ ys) = (
    λ h. ground (arith, e.beq_iff x y, list_beq_iff xs ys),
    λ h. ground (arith, e.beq_iff x y, list_beq_iff xs ys),
  )
  list_beq_iff [] (y ∷ ys) = (λ h. ground arith, λ h. ground arith)
  list_beq_iff (x ∷ xs) [] = (λ h. ground arith, λ h. ground arith)

  instance abbrev pub list_eq : Eq (List A)
  list_eq = record { beq = list_beq; beq_iff = list_beq_iff }

abbrev pub codec_beq : Codec → Codec → Bool
codec_beq pcm16 pcm16 = true
codec_beq adpcm adpcm = true
codec_beq opus opus = true
codec_beq pcm48 pcm48 = true
codec_beq pcm24 pcm24 = true
codec_beq _ _ = false

pub codec_beq_iff : (a b : Codec) → (codec_beq a b ≡ true) ↔ (a ≡ b)
codec_beq_iff a b = (λ h. ground arith, λ h. ground arith)

instance abbrev pub codec_eq : Eq Codec
codec_eq = record { beq = codec_beq; beq_iff = codec_beq_iff }

abbrev pub profile_beq : OpusProfile → OpusProfile → Bool
profile_beq speech_16_low speech_16_low = true
profile_beq speech_24_standard speech_24_standard = true
profile_beq speech_48_high speech_48_high = true
profile_beq music_48 music_48 = true
profile_beq _ _ = false

pub profile_beq_iff : (a b : OpusProfile) → (profile_beq a b ≡ true) ↔ (a ≡ b)
profile_beq_iff a b = (λ h. ground arith, λ h. ground arith)

instance abbrev pub profile_eq : Eq OpusProfile
profile_eq = record { beq = profile_beq; beq_iff = profile_beq_iff }

pub talk_mode_beq_iff : (a b : TalkMode) → (talk_mode_beq a b ≡ true) ↔ (a ≡ b)
talk_mode_beq_iff a b = (λ h. ground arith, λ h. ground arith)

instance abbrev pub talk_mode_eq : Eq TalkMode
talk_mode_eq = record { beq = talk_mode_beq; beq_iff = talk_mode_beq_iff }

abbrev pub bool_beq : Bool → Bool → Bool
bool_beq true true = true
bool_beq false false = true
bool_beq _ _ = false

pub bool_beq_iff : (a b : Bool) → (bool_beq a b ≡ true) ↔ (a ≡ b)
bool_beq_iff a b = (λ h. ground arith, λ h. ground arith)

instance abbrev pub bool_eq : Eq Bool
bool_eq = record { beq = bool_beq; beq_iff = bool_beq_iff }

abbrev pub mode_beq : TalkButtonMode → TalkButtonMode → Bool
mode_beq momentary momentary = true
mode_beq latching latching = true
mode_beq _ _ = false

abbrev pub alert_target_beq : AlertTarget → AlertTarget → Bool
alert_target_beq (user a) (user b) = nat_beq a b
alert_target_beq (listeners a) (listeners b) = nat_beq a b
alert_target_beq _ _ = false

pub alert_target_beq_iff : (a b : AlertTarget) → (alert_target_beq a b ≡ true) ↔ (a ≡ b)
alert_target_beq_iff a b = (λ h. ground arith, λ h. ground arith)

instance abbrev pub alert_target_eq : Eq AlertTarget
alert_target_eq = record { beq = alert_target_beq; beq_iff = alert_target_beq_iff }

abbrev pub edit_beq : RouteEdit → RouteEdit → Bool
edit_beq a b =
    list_beq a.users b.users
    && list_beq a.listen_add b.listen_add
    && list_beq a.listen_remove b.listen_remove
    && list_beq a.listen_toggle b.listen_toggle
    && list_beq a.tx_add b.tx_add
    && list_beq a.tx_remove b.tx_remove
    && list_beq a.tx_toggle b.tx_toggle

pub edit_beq_iff : (a b : RouteEdit) → (edit_beq a b ≡ true) ↔ (a ≡ b)
edit_beq_iff a b = (
  λ h. ground (
    arith,
    list_beq_iff a.users b.users,
    list_beq_iff a.listen_add b.listen_add,
    list_beq_iff a.listen_remove b.listen_remove,
    list_beq_iff a.listen_toggle b.listen_toggle,
    list_beq_iff a.tx_add b.tx_add,
    list_beq_iff a.tx_remove b.tx_remove,
    list_beq_iff a.tx_toggle b.tx_toggle,
  ),
  λ h. ground (
    arith,
    list_beq_iff a.users b.users,
    list_beq_iff a.listen_add b.listen_add,
    list_beq_iff a.listen_remove b.listen_remove,
    list_beq_iff a.listen_toggle b.listen_toggle,
    list_beq_iff a.tx_add b.tx_add,
    list_beq_iff a.tx_remove b.tx_remove,
    list_beq_iff a.tx_toggle b.tx_toggle,
  ),
)

abbrev pub action_beq : TalkButtonAction → TalkButtonAction → Bool
action_beq (transmit cs us d) (transmit cs' us' d') =
    list_beq cs cs' && list_beq us us' && bool_beq d d'
action_beq (alert ts m) (alert ts' m') = list_beq ts ts' && (m == m')
action_beq (apply_preset p) (apply_preset p') = p == p'
action_beq (set_talk_mode us m) (set_talk_mode us' m') = list_beq us us' && talk_mode_beq m m'
action_beq (route_edit e) (route_edit e') = edit_beq e e'
action_beq _ _ = false

pub action_beq_iff : (a b : TalkButtonAction) → (action_beq a b ≡ true) ↔ (a ≡ b)
action_beq_iff (transmit cs us d) (transmit cs' us' d') = (
  λ h. ground (arith, list_beq_iff cs cs', list_beq_iff us us'),
  λ h. ground (arith, list_beq_iff cs cs', list_beq_iff us us'),
)
action_beq_iff (alert ts m) (alert ts' m') = (
  λ h. ground (arith, list_beq_iff ts ts', option_beq_iff m m'),
  λ h. ground (arith, list_beq_iff ts ts', option_beq_iff m m'),
)
action_beq_iff (apply_preset p) (apply_preset p') =
    (λ h. ground (arith, eq_iff p p'), λ h. ground (arith, eq_iff p p'))
action_beq_iff (set_talk_mode us m) (set_talk_mode us' m') =
    (λ h. ground (arith, list_beq_iff us us'), λ h. ground (arith, list_beq_iff us us'))
action_beq_iff (route_edit e) (route_edit e') =
    (λ h. ground (arith, edit_beq_iff e e'), λ h. ground (arith, edit_beq_iff e e'))
action_beq_iff (transmit _ _ _) (alert _ _) = (λ h. ground arith, λ h. ground arith)
action_beq_iff (transmit _ _ _) (apply_preset _) = (λ h. ground arith, λ h. ground arith)
action_beq_iff (transmit _ _ _) (set_talk_mode _ _) = (λ h. ground arith, λ h. ground arith)
action_beq_iff (transmit _ _ _) (route_edit _) = (λ h. ground arith, λ h. ground arith)
action_beq_iff (alert _ _) (transmit _ _ _) = (λ h. ground arith, λ h. ground arith)
action_beq_iff (alert _ _) (apply_preset _) = (λ h. ground arith, λ h. ground arith)
action_beq_iff (alert _ _) (set_talk_mode _ _) = (λ h. ground arith, λ h. ground arith)
action_beq_iff (alert _ _) (route_edit _) = (λ h. ground arith, λ h. ground arith)
action_beq_iff (apply_preset _) (transmit _ _ _) = (λ h. ground arith, λ h. ground arith)
action_beq_iff (apply_preset _) (alert _ _) = (λ h. ground arith, λ h. ground arith)
action_beq_iff (apply_preset _) (set_talk_mode _ _) = (λ h. ground arith, λ h. ground arith)
action_beq_iff (apply_preset _) (route_edit _) = (λ h. ground arith, λ h. ground arith)
action_beq_iff (set_talk_mode _ _) (transmit _ _ _) = (λ h. ground arith, λ h. ground arith)
action_beq_iff (set_talk_mode _ _) (alert _ _) = (λ h. ground arith, λ h. ground arith)
action_beq_iff (set_talk_mode _ _) (apply_preset _) = (λ h. ground arith, λ h. ground arith)
action_beq_iff (set_talk_mode _ _) (route_edit _) = (λ h. ground arith, λ h. ground arith)
action_beq_iff (route_edit _) (transmit _ _ _) = (λ h. ground arith, λ h. ground arith)
action_beq_iff (route_edit _) (alert _ _) = (λ h. ground arith, λ h. ground arith)
action_beq_iff (route_edit _) (apply_preset _) = (λ h. ground arith, λ h. ground arith)
action_beq_iff (route_edit _) (set_talk_mode _ _) = (λ h. ground arith, λ h. ground arith)

instance abbrev pub action_eq : Eq TalkButtonAction
action_eq = record { beq = action_beq; beq_iff = action_beq_iff }

abbrev pub button_beq : TalkButtonConfig → TalkButtonConfig → Bool
button_beq a b =
    (a.id == b.id)
    && (a.label == b.label)
    && (a.color == b.color)
    && mode_beq a.mode b.mode
    && list_beq a.actions b.actions

pub button_beq_iff : (a b : TalkButtonConfig) → (button_beq a b ≡ true) ↔ (a ≡ b)
button_beq_iff a b = (
  λ h. ground (
    arith,
    eq_iff a.id b.id,
    eq_iff a.label b.label,
    option_beq_iff a.color b.color,
    list_beq_iff a.actions b.actions,
  ),
  λ h. ground (
    arith,
    eq_iff a.id b.id,
    eq_iff a.label b.label,
    option_beq_iff a.color b.color,
    list_beq_iff a.actions b.actions,
  ),
)

instance abbrev pub button_eq : Eq TalkButtonConfig
button_eq = record { beq = button_beq; beq_iff = button_beq_iff }
