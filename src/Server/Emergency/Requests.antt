-- ===== src/Server/Emergency/Requests.antt =====
-- What a request does to the emergency.
use open_broadcast_intercom.Base.{
  ℕ, ◌≡◌, ◌≢◌, refl, ◌⊎◌, inl, inr, Bool, true, false, Option, none, some, nat_eq, arith, err,
  Bool-cases, Option-cases,
}
use open_broadcast_intercom.Base.Map
use open_broadcast_intercom.Base.Map.{Map, contains-keys, contains_key-get}
use open_broadcast_intercom.Control.{EmergencyTarget}
use open_broadcast_intercom.Server.Gains.{Gains}
use open_broadcast_intercom.Server.State.{
  Session, ServerState, RuntimeEmergency, Response, ack, unknown_client, cannot_clear_emergency,
  push_all-SameCore,
}
use open_broadcast_intercom.Server.Emergency.{
  may_clear, normalize_emergency_target, normalize_duck_gain, new_emergency, apply_emergency_event,
  affected_users, with_emergency,
}

module _ (g : Gains) where
  open g use {F}

  -- the emergency that a user starts
  abbrev pub Started : ℕ → EmergencyTarget → F → Bool → RuntimeEmergency F → Type 0
  Started u target gain mute emergency =
      (emergency.source ≡ u)
      × (emergency.target ≡ normalize_emergency_target target)
      × (emergency.duck_gain ≡ normalize_duck_gain g gain)
      × (emergency.mute_others ≡ mute)

  -- a request to start an emergency was answered so, and left this emergency
  abbrev pub AfterStart :
      ServerState F
      → ℕ
      → EmergencyTarget
      → F
      → Bool
      → Response
      → Option (RuntimeEmergency F)
      → Type 0
  AfterStart state u target gain mute response after =
      ((session : Session F) × (Map.get state.sessions u ≡ some session)
        × (response ≡ ack)
        × ((emergency : RuntimeEmergency F) × (after ≡ some emergency)
            × Started u target gain mute emergency))
      ⊎ ((Map.get state.sessions u ≡ none)
          × (response ≡ err (unknown_client u))
          × (after ≡ state.emergency))

  -- a request to end it was
  abbrev pub AfterEnd : ServerState F → ℕ → Response → Option (RuntimeEmergency F) → Type 0
  AfterEnd state u response after =
      ((state.emergency ≡ none) × (response ≡ ack) × (after ≡ none))
      ⊎ ((current : RuntimeEmergency F) × (state.emergency ≡ some current)
          × ((current.source ≡ u) ⊎ (u ≡ 0))
          × (response ≡ ack)
          × (after ≡ none))
      ⊎ ((current : RuntimeEmergency F) × (state.emergency ≡ some current)
          × (current.source ≢ u)
          × (u ≢ 0)
          × (response ≡ err (cannot_clear_emergency u))
          × (after ≡ some current))

  -- who may end an emergency
  may_clear_cases :
      (u : ℕ) (current : RuntimeEmergency F)
      → ((may_clear u current ≡ true) × ((current.source ≡ u) ⊎ (u ≡ 0)))
        ⊎ ((may_clear u current ≡ false) × (current.source ≢ u) × (u ≢ 0))
  may_clear_cases u current = elim (Bool-cases (may_clear u current)) [
    | inl e ↦ inl (e, ground arith)
    | inr e ↦ inr (e, (λ h. ground arith), (λ h. ground arith))
  ]

  start-AfterStart :
      (state : ServerState F) (u : ℕ) (target : EmergencyTarget) (gain : F) (mute : Bool)
      → let result = apply_emergency_event g state u true target gain mute in
        AfterStart state u target gain mute result.0 result.1.emergency
  unfolding apply_emergency_event
  start-AfterStart state u target gain mute =
      let emergency = new_emergency g u target gain mute in
      let pushed =
        push_all-SameCore (with_emergency state (some emergency)) (affected_users state u) in
      let known = contains_key-get state.sessions u in
      elim (Option-cases (Map.get state.sessions u)) [
        | inl e ↦ rw (known, e) (inr (refl, refl, refl))
        | inr (session, e) ↦
            rw (known, e)
              (inl (session, refl, refl, (emergency, pushed.emergency, (refl, refl, refl, refl))))
      ]

  end-AfterEnd :
      (state : ServerState F) (u : ℕ) (target : EmergencyTarget) (gain : F) (mute : Bool)
      → let result = apply_emergency_event g state u false target gain mute in
        AfterEnd state u result.0 result.1.emergency
  unfolding apply_emergency_event
  end-AfterEnd state u target gain mute =
      let pushed = push_all-SameCore state (affected_users state u) in
      let ended = push_all-SameCore (with_emergency state none) (affected_users state u) in
      elim (Option-cases state.emergency) [
        | inl e ↦ ground arith
        | inr (current, e) ↦ elim (may_clear_cases u current) [
          | inl (c, may) ↦ inr (inl (current, e, may, rw (e, c) refl, rw (e, c) ended.emergency))
          | inr (c, other, user) ↦ inr (inr (current, e, other, user, rw (e, c) refl, rw (e, c) e))
        ]
      ]

  -- the request's outcome
  abbrev pub AfterRequest :
      ServerState F
      → ℕ
      → Bool
      → EmergencyTarget
      → F
      → Bool
      → Response
      → Option (RuntimeEmergency F)
      → Type 0
  AfterRequest state u true target gain mute response after =
      AfterStart state u target gain mute response after
  AfterRequest state u false target gain mute response after = AfterEnd state u response after

  -- What a request about the emergency does. A user with a session may start one, in place of any
  -- that is active, with the user as its source, the normal form of the target, the normalised gain
  -- and the muting of the request; a user without a session is refused. The user who started it and
  -- the server's own user, 0, may end it, and anybody else is refused; to end none is no error. A
  -- request that is refused leaves the emergency as it is, and no request changes the sessions or the
  -- alerts.
  pub emergency_effect :
      (state : ServerState F) (u : ℕ) (active : Bool) (target : EmergencyTarget) (gain : F)
      (mute : Bool)
      → let result = apply_emergency_event g state u active target gain mute in
        AfterRequest state u active target gain mute result.0 result.1.emergency
        × (result.1.sessions ≡ state.sessions)
        × (result.1.alerts ≡ state.alerts)
  unfolding apply_emergency_event
  emergency_effect state u true target gain mute =
      let started = with_emergency state (some (new_emergency g u target gain mute)) in
      (
        start-AfterStart state u target gain mute,
        ground (arith, push_all-SameCore started (affected_users state u)),
        ground (arith, push_all-SameCore started (affected_users state u)),
      )
  emergency_effect state u false target gain mute =
      let pushed = push_all-SameCore state (affected_users state u) in
      let ended = push_all-SameCore (with_emergency state none) (affected_users state u) in
      (
        end-AfterEnd state u target gain mute,
        ground (arith, pushed, ended),
        ground (arith, pushed, ended),
      )
