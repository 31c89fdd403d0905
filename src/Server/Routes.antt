-- ===== src/Server/Routes.antt =====
-- server/src/lib.rs: where the server takes a user's audio to go, and the calls that it reports.
pub mod Edits
pub mod Reports
pub mod Agreement
use open_broadcast_intercom.Base.{
  ℕ, ◌≡◌, Bool, true, false, not, ◌&&◌, ◌||◌, Option, none, some, List, [], ◌∷◌, ◌++◌, String, ◌==◌,
  nat_eq, arith, ◌↔◌, if◌then◌else◌, filter, set_insert, set_remove, set_extend, contains, ltb, leb,
  nat_beq, Bool-cases,
}
use mathlib.Core.List.{map}
use open_broadcast_intercom.Base.Map
use open_broadcast_intercom.Base.Map.{Map}
use open_broadcast_intercom.Base.Sorted.{nat_ord, sort, Ord, IsLinear, sorted_unique}
use open_broadcast_intercom.Base.Trim.{non_empty_trim}
use open_broadcast_intercom.Wire.Types.{AudioTarget, channel, direct}
use open_broadcast_intercom.Control.{TalkButtonConfig, target_eq}
use open_broadcast_intercom.Control.Actions.{transmit_users, button_targets, button_channels}
use open_broadcast_intercom.Client.{DirectCallStatus, talks}
use open_broadcast_intercom.Server.State.{Session}
use open_broadcast_intercom.Server.Buttons.{pressed_buttons}

-- `apply_route_edits`
unfoldable pub toggle_all : List ℕ → List ℕ → List ℕ
unfolding set_insert set_remove contains
toggle_all set [] = set
toggle_all set (id ∷ toggle) =
    toggle_all (if contains set id then set_remove set id else id ∷ set) toggle

unfoldable pub remove_all : List ℕ → List ℕ → List ℕ
remove_all set [] = set
remove_all set (id ∷ remove) = remove_all (set_remove set id) remove

unfoldable pub apply_route_edits : List ℕ → List ℕ → List ℕ → List ℕ → List ℕ
apply_route_edits routes add remove toggle =
    sort nat_ord (toggle_all (remove_all (set_extend (set_extend [] routes) add) remove) toggle)

-- The key by which calls are sorted and told apart; it determines the status that is reported.
pub record CallKey : Type 0 where
  pub caller : ℕ
  pub target : ℕ
  pub duck : Bool

abbrev pub duck_le : Bool → Bool → Bool
duck_le true false = false
duck_le _ _ = true

abbrev pub duck_beq : Bool → Bool → Bool
duck_beq true true = true
duck_beq false false = true
duck_beq _ _ = false

abbrev pub key_le : CallKey → CallKey → Bool
key_le a b =
    if ltb a.caller b.caller
    then true
    else if ltb b.caller a.caller
    then false
    else if ltb a.target b.target
    then true
    else if ltb b.target a.target
    then false
    else duck_le a.duck b.duck

abbrev pub key_beq : CallKey → CallKey → Bool
key_beq a b = nat_beq a.caller b.caller && (nat_beq a.target b.target && duck_beq a.duck b.duck)

pub key_beq_iff : (a b : CallKey) → (key_beq a b ≡ true) ↔ (a ≡ b)
key_beq_iff a b = (λ h. ground arith, λ h. ground arith)

pub key_le-total : (a b : CallKey) → key_le a b ≡ false → key_le b a ≡ true
key_le-total a b h = ground arith

pub key_le_trans : (a b c : CallKey) → key_le a b ≡ true → key_le b c ≡ true → key_le a c ≡ true
key_le_trans a b c h k = ground arith

pub key_le-antisym : (a b : CallKey) → key_le a b ≡ true → key_le b a ≡ true → a ≡ b
key_le-antisym a b h k = ground arith

abbrev pub key_ord : Ord CallKey
key_ord = record {
  le = key_le;
  beq = key_beq;
  beq_iff = key_beq_iff;
  linear = record { total = key_le-total; trans = key_le_trans; antisym = key_le-antisym };
}

abbrev pub key_of : ℕ → ℕ × Bool → CallKey
key_of caller (target, duck) = record { caller = caller; target = target; duck = duck }

-- the users of the buttons, each with its `duck`
abbrev pub button_calls : List TalkButtonConfig → List (ℕ × Bool)
button_calls [] = []
button_calls (button ∷ buttons) = transmit_users button.actions ++ button_calls buttons

module _ {F : Type 0} where
  -- `Session::effective_tx_channels`
  unfoldable pub effective_tx_channels : Session F → List ℕ
  effective_tx_channels session =
      let tx =
        if talks session.talk_mode session.regular_talk_active
        then set_extend [] session.tx_channels
        else [] in
      set_extend tx (button_channels (pressed_buttons session))

  -- `Session::active_tx_targets`
  unfoldable pub session_tx_targets : Session F → List AudioTarget
  session_tx_targets session =
      let channels = set_extend [] (map channel (effective_tx_channels session)) in
      let calls = set_extend channels (map direct (Map.keys session.active_direct_calls)) in
      set_extend calls (map direct (button_targets (pressed_buttons session)))

  -- `session_display_name`
  unfoldable pub session_display_name : Map (Session F) → ℕ → Option String
  session_display_name sessions user_id = elim (Map.get sessions user_id) [
    | none ↦ none
    | some session ↦ non_empty_trim session.name
  ]

  -- the calls that a caller's session reports to a user
  unfoldable pub calls_of : ℕ → ℕ → Session F → List CallKey
  calls_of user_id caller session =
      filter (λ (call : CallKey). call.caller == user_id || call.target == user_id)
        (map (key_of caller)
          (session.active_direct_calls ++ button_calls (pressed_buttons session)))

  unfoldable pub all_calls : ℕ → Map (Session F) → List ℕ → List CallKey
  all_calls user_id sessions [] = []
  all_calls user_id sessions (caller ∷ callers) =
      elim (Map.get sessions caller) [ none ↦ [] | some session ↦ calls_of user_id caller session ]
      ++ all_calls user_id sessions callers

  abbrev pub status_of : Map (Session F) → CallKey → DirectCallStatus
  status_of sessions call = record {
    caller = call.caller;
    caller_name = session_display_name sessions call.caller;
    target = call.target;
    target_name = session_display_name sessions call.target;
    active = true;
    duck = call.duck;
  }

  -- `active_direct_call_statuses_for_user`
  unfoldable pub active_direct_call_statuses_for_user : ℕ → Map (Session F) → List DirectCallStatus
  active_direct_call_statuses_for_user user_id sessions =
      map (status_of sessions)
        (sorted_unique key_ord (all_calls user_id sessions (Map.keys sessions)))
