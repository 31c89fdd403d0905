-- ===== src/Server/Calls.antt =====
-- server/src/lib.rs: direct calls and replies, with the history of calls that each session keeps.
pub mod Active
pub mod Reply
pub mod Effect
pub mod Bound
use open_broadcast_intercom.Base.{
  ℕ, ◌-◌, Bool, true, false, not, ◌&&◌, Option, none, some, List, [], ◌∷◌, ◌++◌, String, ◌==◌,
  nat_eq, string_eq, option_eq, if◌then◌else◌, err, length, drop, update_last,
}
use open_broadcast_intercom.Base.Map
use open_broadcast_intercom.Base.Map.{Map}
use open_broadcast_intercom.Control.{
  TalkButtonAction, transmit, alert, apply_preset, set_talk_mode, route_edit,
}
use open_broadcast_intercom.Server.Gains.{Gains}
use open_broadcast_intercom.Server.State.{
  Session, ServerState, DirectCallHistory, Response, ack, unknown_client, unknown_target_client,
  direct_call_yourself, no_last_direct_caller, new_session, push_config_update,
}

abbrev pub max_direct_call_history : ℕ
max_direct_call_history = 20

abbrev pub is_open : DirectCallHistory → Bool
is_open entry = elim entry.ended [ none ↦ true | some _ ↦ false ]

-- an open entry of a call, whatever started it
abbrev pub open_between : ℕ → ℕ → DirectCallHistory → Bool
open_between caller target entry = entry.caller == caller && entry.target == target && is_open entry

-- an open entry of a call that `source` started, `none` for a direct call
abbrev pub open_from : ℕ → ℕ → Option String → DirectCallHistory → Bool
open_from caller target source entry =
    entry.caller == caller
    && entry.target == target
    && entry.source_button == source
    && is_open entry

abbrev pub end_at : ℕ → DirectCallHistory → DirectCallHistory
end_at now entry = record entry { ended = some now }

abbrev pub entry_of : ℕ → ℕ → ℕ → Bool → Option String → DirectCallHistory
entry_of caller target now duck source = record {
  caller = caller;
  target = target;
  started = now;
  ended = none;
  duck = duck;
  source_button = source;
}

module _ {F : Type 0} where
  -- `direct_call_history.push(..)`
  abbrev pub log_call : DirectCallHistory → Session F → Session F
  log_call entry session = record session {
    direct_call_history = session.direct_call_history ++ entry ∷ [];
  }

  -- the newest entry that passes gets its end
  abbrev pub close_call : (DirectCallHistory → Bool) → ℕ → Session F → Session F
  close_call p now session = record session {
    direct_call_history = update_last p (end_at now) session.direct_call_history;
  }

  abbrev pub trim_calls : Session F → Session F
  trim_calls session = record session {
    direct_call_history =
        drop (length session.direct_call_history - max_direct_call_history)
          session.direct_call_history;
  }

  -- `trim_direct_history`
  unfoldable pub trim_direct_history : Map (Session F) → ℕ → Map (Session F)
  trim_direct_history sessions user_id = Map.modify sessions user_id trim_calls

  -- what `apply_direct_call_event` does to the caller's session
  unfoldable pub caller_side : ℕ → ℕ → ℕ → Bool → Bool → Session F → Session F
  caller_side now user_id target_user_id active duck caller =
      if active
      then log_call (entry_of user_id target_user_id now duck none) (record caller {
        active_direct_calls = Map.insert caller.active_direct_calls target_user_id duck;
        last_seen = now;
      })
      else close_call (open_between user_id target_user_id) now (record caller {
        active_direct_calls = Map.remove caller.active_direct_calls target_user_id;
        last_seen = now;
      })

  -- and to the target's
  unfoldable pub target_side : ℕ → ℕ → ℕ → Bool → Bool → Session F → Session F
  target_side now user_id target_user_id active duck target =
      if active
      then log_call (entry_of user_id target_user_id now duck none)
          (record target { last_direct_caller = some user_id })
      else close_call (open_between user_id target_user_id) now target

  -- `close_button_direct_history`, and with `none` `close_direct_call_history`
  unfoldable pub close_history : Map (Session F) → ℕ → ℕ → Option String → ℕ → Map (Session F)
  close_history sessions user_id target_user_id source now =
      let close = close_call (open_from user_id target_user_id source) now in
      Map.modify (Map.modify sessions user_id close) target_user_id close

module _ (g : Gains) where
  open g use {F}

  -- the sessions after a direct call that is not refused
  unfoldable pub call_sessions : Map (Session F) → ℕ → ℕ → ℕ → Bool → Bool → Map (Session F)
  call_sessions sessions now user_id target_user_id active duck =
      let entered = Map.or_insert sessions user_id (new_session g now) in
      let called =
        Map.modify entered user_id (caller_side now user_id target_user_id active duck) in
      let reached =
        Map.modify called target_user_id (target_side now user_id target_user_id active duck) in
      trim_direct_history (trim_direct_history reached user_id) target_user_id

  -- `apply_direct_call_event`
  unfoldable pub apply_direct_call_event :
      ServerState F → ℕ → ℕ → ℕ → Bool → Bool → Response × ServerState F
  apply_direct_call_event state now user_id target_user_id active duck =
      if user_id == target_user_id
      then (err direct_call_yourself, state)
      else if not (Map.contains_key state.sessions target_user_id)
      then (err (unknown_target_client target_user_id), state)
      else (let sessions = call_sessions state.sessions now user_id target_user_id active duck in
          let state' : ServerState F = record state { sessions = sessions } in
          (ack, push_config_update (push_config_update state' user_id) target_user_id))

  -- `apply_reply_call_event`
  unfoldable pub apply_reply_call_event :
      ServerState F → ℕ → ℕ → Bool → Bool → Response × ServerState F
  apply_reply_call_event state now user_id active duck = elim (Map.get state.sessions user_id) [
    | none ↦ (err (unknown_client user_id), state)
    | some session ↦ elim session.last_direct_caller [
      | none ↦ (err no_last_direct_caller, state)
      | some last_direct_caller ↦
          apply_direct_call_event state now user_id last_direct_caller active duck
    ]
  ]
