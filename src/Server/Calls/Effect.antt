-- ===== src/Server/Calls/Effect.antt =====
-- What a request for a direct call does.
use open_broadcast_intercom.Base.{
  ℕ, ◌≡◌, ◌≢◌, refl, ◌∙◌, ◌⊎◌, inl, inr, Bool, true, false, not, ◌&&◌, none, some, ◌==◌, nat_eq,
  if◌then◌else◌, Bool-cases, nat_beq_iff, err,
}
use open_broadcast_intercom.Base.Map
use open_broadcast_intercom.Base.Map.{
  Map, get-modify, get-or_insert, get-insert, get-remove, contains_key-get,
}
use open_broadcast_intercom.Server.Gains.{Gains}
use open_broadcast_intercom.Server.State.{
  ServerState, Response, ack, unknown_target_client, direct_call_yourself, push_config_update,
  SameCore, SameCore-trans, push-SameCore,
}
use open_broadcast_intercom.Server.Calls.{call_sessions, apply_direct_call_event}
use open_broadcast_intercom.Server.Calls.Active.{in_call, in_call-call_sessions}
use open_broadcast_intercom.Server.Calls.Reply.{reply_target, reply-call_sessions}

module _ (g : Gains) where
  open g use {F}

  abbrev pub called : ServerState F → ℕ → ℕ → ℕ → Bool → Bool → ServerState F
  called state now u t active duck = record state {
    sessions = call_sessions g state.sessions now u t active duck;
  }

  pub direct_call_cases :
      (state : ServerState F) (now u t : ℕ) (active duck : Bool)
      → apply_direct_call_event g state now u t active duck ≡ (
          if u == t
          then (err direct_call_yourself, state)
          else if not (Map.contains_key state.sessions t)
          then (err (unknown_target_client t), state)
          else (
            ack,
            push_config_update (push_config_update (called state now u t active duck) u) t,
          ))
  unfolding apply_direct_call_event
  direct_call_cases state now u t active duck = refl

  -- The request succeeds; the call and the reply target are as it says, and all else as before.
  abbrev pub Calls : ServerState F → ℕ → ℕ → Bool → Bool → Response × ServerState F → Type 0
  Calls state u t active duck result =
      (result.0 ≡ ack)
      × ((v w : ℕ)
          → in_call result.1.sessions v w ≡ (
              if v == u && w == t
              then (if active then some duck else none)
              else in_call state.sessions v w))
      × ((v : ℕ)
          → reply_target result.1.sessions v
            ≡ (if v == t && active then some u else reply_target state.sessions v))
      × (result.1.alerts ≡ state.alerts)
      × (result.1.emergency ≡ state.emergency)

  called-Calls :
      (state after : ServerState F) (now u t : ℕ) (active duck : Bool)
      → Map.contains_key state.sessions t ≡ true
      → SameCore after (called state now u t active duck)
      → Calls state u t active duck (ack, after)
  called-Calls state after now u t active duck h same = (
    refl,
    λ v w. rw same.sessions (in_call-call_sessions g state.sessions now u t active duck v w),
    λ v. rw same.sessions (reply-call_sessions g state.sessions now u t active duck v h),
    same.alerts,
    same.emergency,
  )

  -- What a request for a direct call does. A call of oneself and a call of a user without a session
  -- fail and change nothing. Any other request succeeds: afterwards the caller's call of the target
  -- is active with the given ducking, or is not active, as the request says; an activation makes the
  -- caller the one to whom the target replies; and every other pair of users, the reply target of
  -- every other user, the alerts and the emergency are as before.
  pub direct_call_effect :
      (state : ServerState F) (now u t : ℕ) (active duck : Bool)
      → let result = apply_direct_call_event g state now u t active duck in
        ((u ≡ t) × (result ≡ (err direct_call_yourself, state)))
        ⊎ ((u ≢ t)
            × (Map.contains_key state.sessions t ≡ false)
            × (result ≡ (err (unknown_target_client t), state)))
        ⊎ ((u ≢ t)
            × (Map.contains_key state.sessions t ≡ true)
            × Calls state u t active duck result)
  direct_call_effect state now u t active duck = elim (Bool-cases (u == t)) [
    | inl e ↦ inl ((nat_beq_iff u t).0 e, direct_call_cases state now u t active duck ∙ rw e refl)
    | inr e ↦ inr (elim (Bool-cases (Map.contains_key state.sessions t)) [
      | inl h ↦ inr (
        λ p. cc ((nat_beq_iff u t).1 p),
        h,
        rw (direct_call_cases state now u t active duck) (
            rw (e, h)
              (called-Calls state _ now u t active duck h (
                SameCore-trans
                  (push-SameCore (push_config_update (called state now u t active duck) u) t)
                  (push-SameCore (called state now u t active duck) u)))),
      )
      | inr h ↦ inl (
        λ p. cc ((nat_beq_iff u t).1 p),
        h,
        direct_call_cases state now u t active duck ∙ rw (e, h) refl,
      )
    ])
  ]
