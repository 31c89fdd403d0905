-- ===== src/Server/Alerts/Settling.antt =====
-- What acknowledging and cancelling an alert do to the alerts that wait for each user.
use open_broadcast_intercom.Base.{
  ℕ, ◌≡◌, refl, ◌∙◌, Bool, true, false, not, ◌||◌, ◌⊎◌, inl, inr, none, some, List, [], ◌∷◌, arith,
  ◌==◌, nat_eq, if◌then◌else◌, Bool-cases, Option-cases, find, update_first, set_remove, contains,
  map, err,
}
use open_broadcast_intercom.Base.Sorted.{nat_ord, mem, sorted_unique}
use open_broadcast_intercom.Control.{AlertRecipientStatus}
use open_broadcast_intercom.Server.State.{
  ServerState, RuntimeAlert, Response, ack, unknown_alert, alert_not_assigned, cannot_cancel_alert,
  server_user_id, push_config_update, push_all, SameCore, SameCore-trans, push-SameCore,
  push_all-SameCore,
}
use open_broadcast_intercom.Server.Alerts.{
  trim_alert_history, apply_ack_alert_event, apply_cancel_alert_event, has_id, acknowledge, cancel,
}
use open_broadcast_intercom.Server.Alerts.Sending.{IsOrderly, core-IsOrderly}
use open_broadcast_intercom.Server.Alerts.Pending.{
  Changes, pending_for, recipient_ids, trim-Orderly, trim-pending, update-pending, update-Orderly,
  acknowledge-Changes, cancel-Changes,
}

-- The server, or the sender of the alert.
abbrev pub may_cancel : ℕ → RuntimeAlert → Bool
may_cancel u a = u == server_user_id || a.sender == u

find_recipient :
    (u : ℕ) (rs : List AlertRecipientStatus)
    → ((find (λ r. r.user_id == u) rs ≡ none)
        × (mem nat_ord (map (λ (r : AlertRecipientStatus). r.user_id) rs) u ≡ false))
      ⊎ ((r : AlertRecipientStatus) × (find (λ r. r.user_id == u) rs ≡ some r)
          × (mem nat_ord (map (λ (r : AlertRecipientStatus). r.user_id) rs) u ≡ true))
unfolding find contains
find_recipient u [] = inl (refl, refl)
find_recipient u (r ∷ rs) = elim (Bool-cases (r.user_id == u)) [
  | inl e ↦ inr (r, rw e refl, rw e refl)
  | inr e ↦ elim (find_recipient u rs) [
    | inl (f, m) ↦ inl (rw e f, rw e m)
    | inr (s, f, m) ↦ inr (s, rw e f, rw e m)
  ]
]

module _ {F : Type 0} where
  -- A request that succeeds takes the alert from those that wait for the users that it does not
  -- keep, and leaves what waits for the others.
  abbrev pub Takes : ServerState F → ℕ → (ℕ → Bool) → Response × ServerState F → Type 0
  Takes state i keeps result =
      (result.0 ≡ ack)
      × IsOrderly result.1
      × ((v : ℕ)
          → pending_for result.1.alerts v ≡ (
              if keeps v
              then pending_for state.alerts v
              else set_remove (pending_for state.alerts v) i))

  changed : ServerState F → ℕ → (RuntimeAlert → RuntimeAlert) → ServerState F
  changed state i f = record state {
    alerts = trim_alert_history (update_first (has_id i) f state.alerts);
  }

  changed-Takes :
      (state after : ServerState F) (f : RuntimeAlert → RuntimeAlert) (i : ℕ) (keeps : ℕ → Bool)
      → ((v : ℕ) → Changes f v (keeps v))
      → IsOrderly state
      → SameCore after (changed state i f)
      → Takes state i keeps (ack, after)
  unfolding changed
  changed-Takes state after f i keeps c o same = (
    refl,
    core-IsOrderly same (
        trim-Orderly 0 state.next_alert_id _
          (update-Orderly f 0 (keeps 0) i 0 state.next_alert_id state.alerts (c 0) o)),
    λ v. rw same.alerts (
        trim-pending v (update_first (has_id i) f state.alerts)
        ∙ update-pending f v (keeps v) i 0 state.next_alert_id state.alerts (c v) o),
  )

  ack_found :
      (state : ServerState F) (t u i : ℕ) (a : RuntimeAlert) (r : AlertRecipientStatus)
      → find (has_id i) state.alerts ≡ some a
      → find (λ r. r.user_id == u) a.recipients ≡ some r
      → apply_ack_alert_event state t u i ≡ (
        ack,
        push_config_update (push_config_update (changed state i (acknowledge u t)) u) a.sender,
      )
  unfolding apply_ack_alert_event changed
  ack_found state t u i a r e f = rw (e, apply_ack_alert_event) (rw f refl)

  ack_unassigned :
      (state : ServerState F) (t u i : ℕ) (a : RuntimeAlert)
      → find (has_id i) state.alerts ≡ some a
      → find (λ r. r.user_id == u) a.recipients ≡ none
      → apply_ack_alert_event state t u i ≡ (err (alert_not_assigned i u), state)
  unfolding apply_ack_alert_event
  ack_unassigned state t u i a e f = rw (e, apply_ack_alert_event) (rw f refl)

  ack_unknown :
      (state : ServerState F) (t u i : ℕ)
      → find (has_id i) state.alerts ≡ none
      → apply_ack_alert_event state t u i ≡ (err (unknown_alert i), state)
  unfolding apply_ack_alert_event
  ack_unknown state t u i e = rw (e, apply_ack_alert_event)

  -- When the identifiers of the alerts ascend below the next one and no alert has a recipient twice,
  -- acknowledging an alert takes it from those that wait for this user, and changes nothing for
  -- anyone else; an unknown alert, or one that is not addressed to the user, fails and changes
  -- nothing.
  pub ack_alert_pending :
      (state : ServerState F) (t u i : ℕ)
      → IsOrderly state
      → let result = apply_ack_alert_event state t u i in
        ((find (has_id i) state.alerts ≡ none) × (result ≡ (err (unknown_alert i), state)))
        ⊎ ((a : RuntimeAlert) × (find (has_id i) state.alerts ≡ some a)
            × (((mem nat_ord (recipient_ids a) u ≡ false)
                  × (result ≡ (err (alert_not_assigned i u), state)))
                ⊎ ((mem nat_ord (recipient_ids a) u ≡ true)
                    × Takes state i (λ v. not (v == u)) result)))
  ack_alert_pending state t u i o = elim (Option-cases (find (has_id i) state.alerts)) [
    | inl e ↦ inl (e, ack_unknown state t u i e)
    | inr (a, e) ↦ inr (
      a,
      e,
      elim (find_recipient u a.recipients) [
        | inl (f, m) ↦ inl (m, ack_unassigned state t u i a e f)
        | inr (r, f, m) ↦ inr (
          m,
          rw (ack_found state t u i a r e f) (
              changed-Takes state _ (acknowledge u t) i (λ v. not (v == u))
                (λ v. acknowledge-Changes u v t) o
                (SameCore-trans
                  (push-SameCore (push_config_update (changed state i (acknowledge u t)) u)
                    a.sender)
                  (push-SameCore (changed state i (acknowledge u t)) u))),
        )
      ],
    )
  ]

  cancel_unknown :
      (state : ServerState F) (t u i : ℕ)
      → find (has_id i) state.alerts ≡ none
      → apply_cancel_alert_event state t u i ≡ (err (unknown_alert i), state)
  unfolding apply_cancel_alert_event
  cancel_unknown state t u i e = rw (e, apply_cancel_alert_event)

  cancel_found :
      (state : ServerState F) (t u i : ℕ) (a : RuntimeAlert)
      → find (has_id i) state.alerts ≡ some a
      → apply_cancel_alert_event state t u i ≡ (
          if may_cancel u a
          then (
            ack,
            push_all
                (changed state i (cancel t))
                (sorted_unique nat_ord (a.sender ∷ recipient_ids a)),
          )
          else (err (cannot_cancel_alert u i), state))
  unfolding apply_cancel_alert_event changed
  cancel_found state t u i a e = rw (e, apply_cancel_alert_event) (ground arith)

  -- When the identifiers of the alerts ascend below the next one and no alert has a recipient twice,
  -- cancelling takes an alert from everybody for whom it waits, and is left to its sender and to
  -- the server: an unknown alert, or a request by anyone else, fails and changes nothing.
  pub cancel_alert_pending :
      (state : ServerState F) (t u i : ℕ)
      → IsOrderly state
      → let result = apply_cancel_alert_event state t u i in
        ((find (has_id i) state.alerts ≡ none) × (result ≡ (err (unknown_alert i), state)))
        ⊎ ((a : RuntimeAlert) × (find (has_id i) state.alerts ≡ some a)
            × (((may_cancel u a ≡ false) × (result ≡ (err (cannot_cancel_alert u i), state)))
                ⊎ ((may_cancel u a ≡ true) × Takes state i (λ v. false) result)))
  cancel_alert_pending state t u i o = elim (Option-cases (find (has_id i) state.alerts)) [
    | inl e ↦ inl (e, cancel_unknown state t u i e)
    | inr (a, e) ↦ inr (
      a,
      e,
      elim (Bool-cases (may_cancel u a)) [
        | inl m ↦ inr (
          m,
          rw (cancel_found state t u i a e) (
              rw m (
                changed-Takes state _ (cancel t) i (λ v. false) (λ v. cancel-Changes v t) o
                  (push_all-SameCore (changed state i (cancel t)) _))),
        )
        | inr m ↦ inl (m, rw (cancel_found state t u i a e) (rw m refl))
      ],
    )
  ]
