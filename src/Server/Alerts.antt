-- ===== src/Server/Alerts.antt =====
-- server/src/lib.rs: alerts, from the choice of their recipients to their acknowledgement and
-- cancellation, and the bounded history of inactive ones. The wall clock (`now_ms`) and the
-- monotonic clock (`now`) are arguments.
pub mod History
pub mod Recipients
pub mod Pending
pub mod Sending
pub mod Settling
use open_broadcast_intercom.Base.{
  ℕ, suc, ◌+◌, ◌-◌, ◌≡◌, refl, Bool, true, false, not, ◌&&◌, ◌||◌, Option, none, some, List, [],
  ◌∷◌, ◌++◌, String, arith, ltb, leb, nat_beq, ◌==◌, nat_eq, option_eq, if◌then◌else◌, ok, err,
  length, filter, any, find, update_first, contains, map, take,
}
use mathlib.Core.List.{reverse}
use mathlib.Core.Option
use open_broadcast_intercom.Base.Map
use open_broadcast_intercom.Base.Sorted.{nat_ord, sorted_unique}
use open_broadcast_intercom.Base.Trim.{non_empty_trim}
use open_broadcast_intercom.Control.{AlertTarget, user, listeners, AlertRecipientStatus}
use open_broadcast_intercom.Server.State.{
  Session, ServerState, RuntimeAlert, Response, ack, unknown_alert, no_live_recipients,
  alert_not_assigned, cannot_cancel_alert, server_user_id, session_audio_addr, push_config_update,
  push_all,
}

abbrev pub is_none {ℓ} : {A : Type ℓ} → Option A → Bool
is_none none = true
is_none (some a) = false

abbrev pub is_some {ℓ} : {A : Type ℓ} → Option A → Bool
is_some none = false
is_some (some a) = true

-- the recipient has not acknowledged
abbrev pub unacked : AlertRecipientStatus → Bool
unacked recipient = is_none recipient.acked_at_ms

-- `RuntimeAlert::active_for`
unfoldable pub active_for : RuntimeAlert → ℕ → Bool
unfolding any
active_for alert user_id =
    not alert.cancelled
    && any (λ recipient. recipient.user_id == user_id && unacked recipient) alert.recipients

-- `RuntimeAlert::relevant_for`
unfoldable pub relevant_for : RuntimeAlert → ℕ → Bool
unfolding any
relevant_for alert user_id =
    alert.sender == user_id || any (λ recipient. recipient.user_id == user_id) alert.recipients

-- `RuntimeAlert::active`
unfoldable pub active : RuntimeAlert → Bool
unfolding any
active alert = not alert.cancelled && any unacked alert.recipients

abbrev pub inactive : RuntimeAlert → Bool
inactive alert = not (active alert)

abbrev pub max_inactive_alerts : ℕ
max_inactive_alerts = 50

-- the `retain` of `trim_alert_history`, with its counter
unfoldable pub retain_counted : ℕ → List RuntimeAlert → List RuntimeAlert
retain_counted remove_count [] = []
retain_counted remove_count (alert ∷ alerts) =
    let drops = ltb 0 remove_count && inactive alert in
    let rest = retain_counted (if drops then remove_count - 1 else remove_count) alerts in
    if drops then rest else alert ∷ rest

unfoldable pub trim_alert_history : List RuntimeAlert → List RuntimeAlert
trim_alert_history alerts =
    let count = length (filter inactive alerts) in
    if leb count max_inactive_alerts
    then alerts
    else retain_counted (count - max_inactive_alerts) alerts

-- `alert_statuses_for_user_with_sessions`, as the alerts behind the statuses: the active ones, and
-- the twenty newest of the others that concern the user, newest first
unfoldable pub alerts_for_user : List RuntimeAlert → ℕ → List RuntimeAlert × List RuntimeAlert
unfolding filter
alerts_for_user alerts user_id = (
  filter (λ alert. active_for alert user_id) alerts,
  take_20 (
      reverse
        (filter (λ alert. relevant_for alert user_id && not (active_for alert user_id)) alerts)),
)
  where
    take_20 : List RuntimeAlert → List RuntimeAlert
    take_20 xs = take 20 xs

abbrev new_recipient : ℕ → AlertRecipientStatus
new_recipient recipient = record { user_id = recipient; acked_at_ms = none }

-- the alert that `create_runtime_alert` makes
abbrev pub new_alert : ℕ → ℕ → AlertTarget → Option String → ℕ → List ℕ → RuntimeAlert
new_alert alert_id sender target message now_ms recipients = record {
  id = alert_id;
  sender = sender;
  target = target;
  message = Option.bind message non_empty_trim;
  created_at_ms = now_ms;
  recipients = map new_recipient recipients;
  cancelled = false;
  cancelled_at_ms = none;
}

-- the changes of an acknowledgement and of a cancellation to an alert
abbrev pub acknowledge : ℕ → ℕ → RuntimeAlert → RuntimeAlert
acknowledge user_id now_ms alert = record alert {
  recipients =
      update_first (λ recipient. recipient.user_id == user_id)
        (λ recipient. record recipient { acked_at_ms = some now_ms }) alert.recipients;
}

abbrev pub cancel : ℕ → RuntimeAlert → RuntimeAlert
cancel now_ms alert = record alert { cancelled = true; cancelled_at_ms = some now_ms }

abbrev pub has_id : ℕ → RuntimeAlert → Bool
has_id alert_id alert = alert.id == alert_id

module _ {F : Type 0} where
  -- a client with a control connection or a fresh audio endpoint
  unfoldable pub is_live : ServerState F → ℕ → ℕ → Session F → Bool
  unfolding session_audio_addr
  is_live state now user_id session =
      Map.contains_key state.control_clients user_id || is_some (session_audio_addr session now)

  live_user : ServerState F → ℕ → ℕ → ℕ → Bool
  unfolding is_live
  live_user state now sender user_id = elim (Map.get state.sessions user_id) [
    | none ↦ false
    | some session ↦ not (user_id == sender) && is_live state now user_id session
  ]

  live_listener : ServerState F → ℕ → ℕ → ℕ → ℕ → Bool
  unfolding is_live contains
  live_listener state now sender channel_id user_id = elim (Map.get state.sessions user_id) [
    | none ↦ false
    | some session ↦
        not (user_id == sender)
        && contains session.listen_channels channel_id
        && is_live state now user_id session
  ]

  -- `resolve_alert_recipients`
  unfoldable pub resolve_alert_recipients : ServerState F → ℕ → ℕ → AlertTarget → List ℕ
  unfolding live_user live_listener
  resolve_alert_recipients state now sender (user user_id) =
      sorted_unique nat_ord (if live_user state now sender user_id then user_id ∷ [] else [])
  resolve_alert_recipients state now sender (listeners channel_id) =
      sorted_unique nat_ord
        (filter (live_listener state now sender channel_id) (Map.keys state.sessions))

  -- `create_runtime_alert`; its result is only logged
  unfoldable pub create_runtime_alert :
      ServerState F → ℕ → ℕ → AlertTarget → Option String → List ℕ → ServerState F
  create_runtime_alert state now_ms user_id target message recipients = record state {
    alerts = trim_alert_history (
        state.alerts
        ++ new_alert state.next_alert_id user_id target message now_ms recipients ∷ []);
    next_alert_id = state.next_alert_id + 1;
  }

  -- the end of `apply_send_alert_event`, once the recipients are known
  send_to : ServerState F → ℕ → ℕ → AlertTarget → Option String → List ℕ → Response × ServerState F
  send_to state now_ms user_id target message [] = (err no_live_recipients, state)
  send_to state now_ms user_id target message (first ∷ others) =
      let created = create_runtime_alert state now_ms user_id target message (first ∷ others) in
      (ack, push_config_update (push_all created (first ∷ others)) user_id)

  -- `apply_send_alert_event`
  unfoldable pub apply_send_alert_event :
      ServerState F → ℕ → ℕ → ℕ → AlertTarget → Option String → Response × ServerState F
  unfolding send_to
  apply_send_alert_event state now now_ms user_id target message =
      send_to state now_ms user_id target message
        (resolve_alert_recipients state now user_id target)

  -- `apply_ack_alert_event`
  unfoldable pub apply_ack_alert_event : ServerState F → ℕ → ℕ → ℕ → Response × ServerState F
  apply_ack_alert_event state now_ms user_id alert_id = elim (find (has_id alert_id) state.alerts) [
    | none ↦ (err (unknown_alert alert_id), state)
    | some alert ↦ elim (find (λ recipient. recipient.user_id == user_id) alert.recipients) [
      | none ↦ (err (alert_not_assigned alert_id user_id), state)
      | some recipient ↦
          let changed = update_first (has_id alert_id) (acknowledge user_id now_ms) state.alerts in
          let state' : ServerState F = record state { alerts = trim_alert_history changed } in
          (ack, push_config_update (push_config_update state' user_id) alert.sender)
    ]
  ]

  -- `apply_cancel_alert_event`
  unfoldable pub apply_cancel_alert_event : ServerState F → ℕ → ℕ → ℕ → Response × ServerState F
  apply_cancel_alert_event state now_ms user_id alert_id =
      elim (find (has_id alert_id) state.alerts) [
        | none ↦ (err (unknown_alert alert_id), state)
        | some alert ↦
            if not (user_id == server_user_id) && not (alert.sender == user_id)
            then (err (cannot_cancel_alert user_id alert_id), state)
            else (let changed = update_first (has_id alert_id) (cancel now_ms) state.alerts in
                let state' : ServerState F = record state { alerts = trim_alert_history changed } in
                let affected =
                  alert.sender ∷ map (λ recipient. recipient.user_id) alert.recipients in
                (ack, push_all state' (sorted_unique nat_ord affected)))
      ]
