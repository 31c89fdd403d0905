-- ===== src/Server/Alerts/Sending.antt =====
-- What sending an alert does to the alerts that wait for each user.
use open_broadcast_intercom.Base.{
  ℕ, suc, ◌+◌, ◌≡◌, ◌≢◌, refl, ap, ◌∙◌, ◌&&◌, ◌⊎◌, inl, inr, Option, List, [], ◌∷◌, ◌++◌, String,
  arith, ◌==◌, nat_eq, if◌then◌else◌, filter, any, contains, map, err,
}
use open_broadcast_intercom.Base.Sorted.{nat_ord, mem, IsStrict}
use open_broadcast_intercom.Control.{AlertTarget, AlertRecipientStatus}
use open_broadcast_intercom.Server.State.{
  ServerState, RuntimeAlert, Response, ack, no_live_recipients, push_all, SameCore, push-SameCore,
  push_all-SameCore,
}
use open_broadcast_intercom.Server.Alerts.{
  active_for, new_alert, new_recipient, unacked, create_runtime_alert, resolve_alert_recipients,
  send_to, apply_send_alert_event,
}
use open_broadcast_intercom.Server.Alerts.Recipients.{recipients_exact}
use open_broadcast_intercom.Server.Alerts.Pending.{
  pending_for, recipient_ids, Orderly, trim-Orderly, trim-pending,
}

any-new :
    (rs : List ℕ) (v : ℕ)
    → any (λ r. r.user_id == v && unacked r) (map new_recipient rs) ≡ mem nat_ord rs v
unfolding any contains
any-new [] v = refl
any-new (r ∷ rs) v = ground (arith, any-new rs v)

ids-new : (rs : List ℕ) → map (λ (r : AlertRecipientStatus). r.user_id) (map new_recipient rs) ≡ rs
ids-new [] = refl
ids-new (r ∷ rs) = ap (◌∷◌ r) (ids-new rs)

pending-append :
    (alerts : List RuntimeAlert) (a : RuntimeAlert) (v : ℕ)
    → pending_for (alerts ++ a ∷ []) v
      ≡ (if active_for a v then pending_for alerts v ++ a.id ∷ [] else pending_for alerts v)
unfolding pending_for filter
pending-append [] a v = ground arith
pending-append (b ∷ alerts) a v = ground (arith, pending-append alerts a v)

append-Orderly :
    (lo hi : ℕ) (alerts : List RuntimeAlert) (a : RuntimeAlert)
    → a.id ≡ hi
    → IsStrict nat_ord (recipient_ids a)
    → Orderly lo hi alerts
    → Orderly lo (hi + 1) (alerts ++ a ∷ [])
append-Orderly lo hi [] a e s o = (omega arith, s, omega arith)
append-Orderly lo hi (b ∷ alerts) a e s o =
    (o.0, o.1, append-Orderly (suc b.id) hi alerts a e s o.2)

module _ {F : Type 0} where
  abbrev pub IsOrderly : ServerState F → Type 0
  IsOrderly state = Orderly 0 state.next_alert_id state.alerts

  pub core-IsOrderly : {a b : ServerState F} → SameCore a b → IsOrderly b → IsOrderly a
  core-IsOrderly c o = rw (c.alerts, c.next_alert_id) o

  -- After a created alert, exactly its recipients have one more alert to see, the newest.
  create-pending :
      (state : ServerState F) (t u : ℕ) (target : AlertTarget) (message : Option String)
      (rs : List ℕ)
      → IsStrict nat_ord rs
      → IsOrderly state
      → IsOrderly (create_runtime_alert state t u target message rs)
        × ((v : ℕ)
            → pending_for (create_runtime_alert state t u target message rs).alerts v ≡ (
                if mem nat_ord rs v
                then pending_for state.alerts v ++ state.next_alert_id ∷ []
                else pending_for state.alerts v))
  unfolding create_runtime_alert active_for
  create-pending state t u target message rs s o =
      let a = new_alert state.next_alert_id u target message t rs in
      (
        trim-Orderly 0 (state.next_alert_id + 1) _
            (append-Orderly 0 state.next_alert_id state.alerts a refl (rw (ids-new rs) s) o),
        λ v.
            trim-pending v (state.alerts ++ a ∷ [])
            ∙ pending-append state.alerts a v
            ∙ ap
                (λ b.
                  if b
                  then pending_for state.alerts v ++ state.next_alert_id ∷ []
                  else pending_for state.alerts v)
                (any-new rs v),
      )

  -- Exactly the recipients of a request that succeeds have one more alert, the newest.
  abbrev pub Delivers : ServerState F → List ℕ → Response × ServerState F → Type 0
  Delivers state rs result =
      (result.0 ≡ ack)
      × IsOrderly result.1
      × ((v : ℕ)
          → pending_for result.1.alerts v ≡ (
              if mem nat_ord rs v
              then pending_for state.alerts v ++ state.next_alert_id ∷ []
              else pending_for state.alerts v))

  send_to_pending :
      (state : ServerState F) (t u : ℕ) (target : AlertTarget) (message : Option String)
      (rs : List ℕ)
      → IsStrict nat_ord rs
      → IsOrderly state
      → ((rs ≡ []) × (send_to state t u target message rs ≡ (err no_live_recipients, state)))
        ⊎ ((rs ≢ []) × Delivers state rs (send_to state t u target message rs))
  unfolding send_to
  send_to_pending state t u target message [] s o = inl (refl, refl)
  send_to_pending state t u target message (r ∷ rs) s o =
      let created = create_runtime_alert state t u target message (r ∷ rs) in
      let (orderly, pending) = create-pending state t u target message (r ∷ rs) s o in
      let sent = push-SameCore (push_all created (r ∷ rs)) u in
      let all_sent = push_all-SameCore created (r ∷ rs) in
      inr (
        λ e. cc,
        (
          refl,
          core-IsOrderly sent (core-IsOrderly all_sent orderly),
          λ v. rw (sent.alerts, all_sent.alerts) (pending v),
        ),
      )

  -- When the identifiers of the alerts ascend below the next one and no alert has a recipient twice,
  -- a sent alert reaches exactly its resolved recipients: if there are none the request fails and
  -- changes nothing, and otherwise it is acknowledged, the state stays orderly, each recipient has
  -- the new alert behind those that waited before, and for all others the same alerts wait.
  pub send_alert_pending :
      (state : ServerState F) (now t u : ℕ) (target : AlertTarget) (message : Option String)
      → IsOrderly state
      → let rs = resolve_alert_recipients state now u target in
        let result = apply_send_alert_event state now t u target message in
        ((rs ≡ []) × (result ≡ (err no_live_recipients, state)))
        ⊎ ((rs ≢ []) × Delivers state rs result)
  unfolding apply_send_alert_event
  send_alert_pending state now t u target message o =
      send_to_pending state t u target message (resolve_alert_recipients state now u target)
        ((recipients_exact state now u target).0) o
