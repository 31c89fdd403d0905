-- ===== src/Server/Calls/Bound.antt =====
-- The histories of calls stay short.
use open_broadcast_intercom.Base.{
  ℕ, ap, ◌∙◌, ◌-◌, ◌≤◌, ◌≡◌, Bool, Bool-cases, nat_beq_iff, false, none, some, List, [], arith,
  ◌==◌, nat_eq, inl, inr, Option-cases, length, length-drop,
}
use open_broadcast_intercom.Base.Map
use open_broadcast_intercom.Base.Map.{Map, get-modify, get-or_insert, contains_key-get}
use open_broadcast_intercom.Server.Gains.{Gains}
use open_broadcast_intercom.Server.Calls.Effect.{called, direct_call_cases}
use open_broadcast_intercom.Server.State.{
  Session, ServerState, push_config_update, push-SameCore, new_session, DirectCallHistory,
}
use open_broadcast_intercom.Server.Calls.{
  trim_calls, trim_direct_history, caller_side, target_side, call_sessions, apply_direct_call_event,
  max_direct_call_history,
}

module _ {F : Type 0} where
  -- the history of a user's session
  unfoldable pub history : Map (Session F) → ℕ → List DirectCallHistory
  history sessions v = elim (Map.get sessions v) [ none ↦ [] | some s ↦ s.direct_call_history ]

  -- Every session keeps at most the newest calls.
  abbrev pub Short : Map (Session F) → Type 0
  Short sessions = (v : ℕ) → length (history sessions v) ≤ max_direct_call_history

  history-modify :
      (sessions : Map (Session F)) (k v : ℕ) (f : Session F → Session F)
      → (v == k) ≡ false
      → history (Map.modify sessions k f) v ≡ history sessions v
  unfolding history
  history-modify sessions k v f h = ground (arith, get-modify sessions k v f)

  trimmed_short :
      (sessions : Map (Session F)) (k : ℕ)
      → length (history (trim_direct_history sessions k) k) ≤ max_direct_call_history
  unfolding history trim_direct_history
  trimmed_short sessions k = elim (Option-cases (Map.get sessions k)) [
    | inl e ↦ ground (arith, get-modify sessions k k trim_calls)
    | inr (s, e) ↦ ground (
      arith,
      get-modify sessions k k trim_calls,
      length-drop (length s.direct_call_history - max_direct_call_history) s.direct_call_history,
    )
  ]

  trim-history :
      (sessions : Map (Session F)) (k v : ℕ)
      → length (history (trim_direct_history sessions k) v) ≤ length (history sessions v)
  unfolding history trim_direct_history
  trim-history sessions k v = elim (Option-cases (Map.get sessions v)) [
    | inl e ↦ ground (arith, get-modify sessions k v trim_calls)
    | inr (s, e) ↦ ground (
      arith,
      get-modify sessions k v trim_calls,
      length-drop (length s.direct_call_history - max_direct_call_history) s.direct_call_history,
    )
  ]

module _ (g : Gains) where
  open g use {F}

  or_insert-history :
      (sessions : Map (Session F)) (u now v : ℕ)
      → history (Map.or_insert sessions u (new_session g now)) v ≡ history sessions v
  unfolding history new_session
  or_insert-history sessions u now v =
      ground (arith, get-or_insert sessions u v (new_session g now), contains_key-get sessions u)

  call_sessions-Short :
      (sessions : Map (Session F)) (now u t : ℕ) (active duck : Bool)
      → Short sessions
      → Short (call_sessions g sessions now u t active duck)
  unfolding call_sessions
  call_sessions-Short sessions now u t active duck h v =
      let entered = Map.or_insert sessions u (new_session g now) in
      let called = Map.modify entered u (caller_side now u t active duck) in
      let reached = Map.modify called t (target_side now u t active duck) in
      let trimmed = trim_direct_history reached u in
      elim (Bool-cases (v == t)) [
        | inl e ↦ rw ((nat_beq_iff v t).0 e) (trimmed_short trimmed t)
        | inr e ↦ elim (Bool-cases (v == u)) [
          | inl d ↦
              rw ((nat_beq_iff v u).0 d)
                (omega (arith, trim-history trimmed t u, trimmed_short reached u))
          | inr d ↦
              let untouched : history reached v ≡ history sessions v =
                history-modify called t v (target_side now u t active duck) e
                ∙ history-modify entered u v (caller_side now u t active duck) d
                ∙ or_insert-history sessions u now v in
              omega (
                arith,
                h v,
                trim-history trimmed t v,
                trim-history reached u v,
                ap (λ calls. length calls) untouched,
              )
        ]
      ]

  -- When every session's history of calls has at most twenty entries, that is so after a request for
  -- a direct call too.
  pub direct_call-Short :
      (state : ServerState F) (now u t : ℕ) (active duck : Bool)
      → Short state.sessions
      → Short (apply_direct_call_event g state now u t active duck).1.sessions
  direct_call-Short state now u t active duck h =
      let after = called g state now u t active duck in
      let first = push_config_update after u in
      rw (direct_call_cases g state now u t active duck) (elim (Bool-cases (u == t)) [
        | inl e ↦ rw e h
        | inr e ↦ elim (Bool-cases (Map.contains_key state.sessions t)) [
          | inl d ↦
              rw (e, d, (push-SameCore first t).sessions, (push-SameCore after u).sessions)
                (call_sessions-Short state.sessions now u t active duck h)
          | inr d ↦ rw (e, d) h
        ]
      ])
