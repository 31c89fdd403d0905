-- ===== src/Control.antt =====
-- common/src/lib.rs: the data of the control plane, which clients and server share.
-- A client's gains (`f32`) are of a type `F` that is a parameter, and its user and channel
-- identifiers (`u16`) are numbers.
pub mod Actions
pub mod Same
use open_broadcast_intercom.Base.{
  ℕ, ◌≡◌, ◌↔◌, Bool, true, false, Option, List, String, arith, leb, nat_beq, Eq, nat_eq,
}
use open_broadcast_intercom.Base.Sorted.{Ord, IsLinear}
use open_broadcast_intercom.Wire.Types.{AudioTarget, channel, direct, mixed}

pub data ClientRole : Type 0 where
  client bridge : ClientRole

pub data EnrollmentStatus : Type 0 where
  enrolled pending rejected : EnrollmentStatus

pub data TalkMode : Type 0 where
  muted ptt open_mic : TalkMode

pub data TalkButtonMode : Type 0 where
  momentary latching : TalkButtonMode

pub data AlertTarget : Type 0 where
  user : ℕ → AlertTarget
  listeners : ℕ → AlertTarget

pub data EmergencyTarget : Type 0 where
  all : EmergencyTarget
  users : List ℕ → EmergencyTarget
  channels : List ℕ → EmergencyTarget

-- The fields of `RouteEdit`.
pub record RouteEdit : Type 0 where
  pub users : List ℕ
  pub listen_add : List ℕ
  pub listen_remove : List ℕ
  pub listen_toggle : List ℕ
  pub tx_add : List ℕ
  pub tx_remove : List ℕ
  pub tx_toggle : List ℕ

pub data TalkButtonAction : Type 0 where
  transmit : List ℕ → List ℕ → Bool → TalkButtonAction
  alert : List AlertTarget → Option String → TalkButtonAction
  apply_preset : String → TalkButtonAction
  set_talk_mode : List ℕ → TalkMode → TalkButtonAction
  route_edit : RouteEdit → TalkButtonAction

pub record TalkButtonConfig : Type 0 where
  pub id : String
  pub label : String
  pub color : Option String
  pub mode : TalkButtonMode
  pub actions : List TalkButtonAction

pub record IfbConfig (F : Type 0) : Type 0 where
  pub enabled : Bool
  pub program : List ℕ
  pub interrupt : List ℕ
  pub duck_gain : F

pub record IfbStatus (F : Type 0) : Type 0 where
  pub active : Bool
  pub duck_gain : F

pub record ClientLockoutPolicy : Type 0 where
  pub allow_channels : Bool
  pub allow_volumes : Bool
  pub allow_codec : Bool
  pub allow_talk_mode : Bool
  pub allow_priority : Bool
  pub allow_buttons : Bool
  pub allow_ifb : Bool
  pub allow_device_selection : Bool
  pub allow_local_api : Bool

pub record AlertRecipientStatus : Type 0 where
  pub user_id : ℕ
  pub acked_at_ms : Option ℕ

-- The sort key of a target: channels, then users, then the mixed stream.
abbrev pub target_le : AudioTarget → AudioTarget → Bool
target_le (channel a) (channel b) = leb a b
target_le (channel a) _ = true
target_le (direct a) (channel b) = false
target_le (direct a) (direct b) = leb a b
target_le (direct a) mixed = true
target_le mixed mixed = true
target_le mixed _ = false

abbrev pub target_beq : AudioTarget → AudioTarget → Bool
target_beq (channel a) (channel b) = nat_beq a b
target_beq (direct a) (direct b) = nat_beq a b
target_beq mixed mixed = true
target_beq _ _ = false

pub target_beq_iff : (a b : AudioTarget) → (target_beq a b ≡ true) ↔ (a ≡ b)
target_beq_iff a b = (λ h. ground arith, λ h. ground arith)

instance abbrev pub target_eq : Eq AudioTarget
target_eq = record { beq = target_beq; beq_iff = target_beq_iff }

target_le-total : (a b : AudioTarget) → target_le a b ≡ false → target_le b a ≡ true
target_le-total a b h = ground arith

target_le_trans :
    (a b c : AudioTarget) → target_le a b ≡ true → target_le b c ≡ true → target_le a c ≡ true
target_le_trans a b c h k = ground arith

target_le-antisym : (a b : AudioTarget) → target_le a b ≡ true → target_le b a ≡ true → a ≡ b
target_le-antisym a b h k = ground arith

pub target_le-IsLinear : IsLinear target_le
target_le-IsLinear = record {
  total = target_le-total;
  trans = target_le_trans;
  antisym = target_le-antisym;
}

abbrev pub target_ord : Ord AudioTarget
target_ord = record {
  le = target_le;
  beq = target_beq;
  beq_iff = target_beq_iff;
  linear = target_le-IsLinear;
}

abbrev pub talk_mode_beq : TalkMode → TalkMode → Bool
talk_mode_beq muted muted = true
talk_mode_beq ptt ptt = true
talk_mode_beq open_mic open_mic = true
talk_mode_beq _ _ = false
