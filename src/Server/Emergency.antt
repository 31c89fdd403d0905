-- ===== src/Server/Emergency.antt =====
-- server/src/lib.rs: the emergency call, who receives it and who may end it.
pub mod Rights
pub mod Requests
use open_broadcast_intercom.Base.{
  ℕ, Bool, true, false, not, ◌&&◌, ◌||◌, Option, none, some, List, ◌∷◌, ◌==◌, nat_eq, if◌then◌else◌,
  err, any, filter, contains, ltb,
}
use open_broadcast_intercom.Base.Map
use open_broadcast_intercom.Base.Map.{Map}
use open_broadcast_intercom.Base.Sorted.{nat_ord, sorted_unique}
use open_broadcast_intercom.Control.{EmergencyTarget, all, users, channels}
use open_broadcast_intercom.Server.Gains.{Gains}
use open_broadcast_intercom.Server.State.{
  Session, ServerState, RuntimeEmergency, Response, ack, unknown_client, cannot_clear_emergency,
  server_user_id, push_config_update, push_all,
}

-- `sorted_unique_users`
unfoldable pub sorted_unique_users : List ℕ → List ℕ
sorted_unique_users us = sorted_unique nat_ord (filter (λ user. ltb 0 user) us)

-- `normalize_emergency_target`
unfoldable pub normalize_emergency_target : EmergencyTarget → EmergencyTarget
unfolding sorted_unique_users
normalize_emergency_target all = all
normalize_emergency_target (users us) = users (sorted_unique_users us)
normalize_emergency_target (channels cs) = channels (sorted_unique nat_ord cs)

module _ {F : Type 0} where
  -- the session listens to one of the channels
  abbrev pub listens_to : List ℕ → Session F → Bool
  listens_to cs session = any (λ channel. contains session.listen_channels channel) cs

  abbrev pub listening : Map (Session F) → List ℕ → ℕ → Bool
  listening sessions cs user_id = elim (Map.get sessions user_id) [
    | none ↦ false
    | some session ↦ listens_to cs session
  ]

  -- `emergency_recipients_for_sessions`
  unfoldable pub emergency_recipients_for_sessions : RuntimeEmergency F → Map (Session F) → List ℕ
  emergency_recipients_for_sessions emergency sessions =
      let others = λ (user_id : ℕ). not (user_id == emergency.source) in
      sorted_unique nat_ord (elim emergency.target [
        | all ↦ filter others (Map.keys sessions)
        | users us ↦ filter (λ v. others v && Map.contains_key sessions v) us
        | channels cs ↦ filter (λ v. others v && listening sessions cs v) (Map.keys sessions)
      ])

  -- `emergency_status_for_user`, as the emergency and its recipients
  unfoldable pub emergency_status_for_user :
      Option (RuntimeEmergency F) → Map (Session F) → ℕ → Option (RuntimeEmergency F × List ℕ)
  emergency_status_for_user none sessions user_id = none
  emergency_status_for_user (some emergency) sessions user_id =
      let recipients = emergency_recipients_for_sessions emergency sessions in
      if emergency.source == user_id || contains recipients user_id
      then some (emergency, recipients)
      else none

  -- the user started the emergency, or is the server's administrator
  abbrev pub may_clear : ℕ → RuntimeEmergency F → Bool
  may_clear user_id current = current.source == user_id || user_id == server_user_id

  -- `affected`, each of whom is told
  abbrev pub affected_users : ServerState F → ℕ → List ℕ
  affected_users state user_id = sorted_unique nat_ord (user_id ∷ Map.keys state.sessions)

  abbrev pub with_emergency : ServerState F → Option (RuntimeEmergency F) → ServerState F
  with_emergency state emergency = record state { emergency = emergency }

  -- `clear_emergency_for_source`
  unfoldable pub clear_emergency_for_source : ServerState F → ℕ → ServerState F
  clear_emergency_for_source state user_id = elim state.emergency [
    | none ↦ state
    | some current ↦
        if current.source == user_id
        then push_all (with_emergency state none) (Map.keys state.sessions)
        else state
  ]

module _ (g : Gains) where
  open g use {F, zero, one, default_duck, is_finite, clamp}

  -- `normalize_duck_gain`
  unfoldable pub normalize_duck_gain : F → F
  normalize_duck_gain gain = if is_finite gain then clamp gain zero one else default_duck

  abbrev pub new_emergency : ℕ → EmergencyTarget → F → Bool → RuntimeEmergency F
  new_emergency user_id target duck_gain mute_others = record {
    source = user_id;
    target = normalize_emergency_target target;
    duck_gain = normalize_duck_gain duck_gain;
    mute_others = mute_others;
  }

  -- `apply_emergency_event`
  unfoldable pub apply_emergency_event :
      ServerState F → ℕ → Bool → EmergencyTarget → F → Bool → Response × ServerState F
  apply_emergency_event state user_id active target duck_gain mute_others =
      if active && not (Map.contains_key state.sessions user_id)
      then (err (unknown_client user_id), state)
      else if active
      then (
        ack,
        push_all (with_emergency state (some (new_emergency user_id target duck_gain mute_others)))
            (affected_users state user_id),
      )
      else elim state.emergency [
        | none ↦ (ack, push_all state (affected_users state user_id))
        | some current ↦
            if may_clear user_id current
            then (ack, push_all (with_emergency state none) (affected_users state user_id))
            else (err (cannot_clear_emergency user_id), state)
      ]
