-- ===== src/Tests/Alerting.antt =====
-- Alerts and the emergency.
use open_broadcast_intercom.Base.{
  ℕ, ◌≡◌, ◌≢◌, ◌⊎◌, true, false, not, none, some, [], arith, ◌==◌, nat_eq, err, find,
}
use open_broadcast_intercom.Base.Sorted.{nat_ord, mem, IsStrict}
use open_broadcast_intercom.Control.{user, listeners, all}
use open_broadcast_intercom.Server.State.{
  RuntimeAlert, no_live_recipients, unknown_alert, alert_not_assigned, cannot_cancel_alert,
}
use open_broadcast_intercom.Server.Alerts.{
  resolve_alert_recipients, apply_send_alert_event, apply_ack_alert_event, apply_cancel_alert_event,
  has_id,
}
use open_broadcast_intercom.Server.Alerts.Recipients.{reaches, recipients_exact}
use open_broadcast_intercom.Server.Alerts.Pending.{recipient_ids}
use open_broadcast_intercom.Server.Alerts.Sending.{IsOrderly, Delivers, send_alert_pending}
use open_broadcast_intercom.Server.Alerts.Settling.{
  Takes, may_cancel, ack_alert_pending, cancel_alert_pending,
}
use open_broadcast_intercom.Server.Emergency.{
  emergency_recipients_for_sessions, apply_emergency_event,
}
use open_broadcast_intercom.Server.Emergency.Rights.{receives, emergency_exact}
use open_broadcast_intercom.Server.Emergency.Requests.{AfterRequest, emergency_effect}
use open_broadcast_intercom.Tests.Samples.{hundredths, clients, fire, show}

show-IsOrderly : IsOrderly show
show-IsOrderly = ground arith

send_alert_pending_example :
    ((resolve_alert_recipients show 9 1 (listeners 8) ≡ [])
      × (apply_send_alert_event show 9 9 1 (listeners 8) none ≡ (err no_live_recipients, show)))
    ⊎ ((resolve_alert_recipients show 9 1 (listeners 8) ≢ [])
        × Delivers show
            (resolve_alert_recipients show 9 1 (listeners 8))
            (apply_send_alert_event show 9 9 1 (listeners 8) none))
send_alert_pending_example = send_alert_pending show 9 9 1 (listeners 8) none show-IsOrderly

ack_alert_pending_example :
    ((find (has_id 0) show.alerts ≡ none)
      × (apply_ack_alert_event show 9 2 0 ≡ (err (unknown_alert 0), show)))
    ⊎ ((a : RuntimeAlert) × (find (has_id 0) show.alerts ≡ some a)
        × (((mem nat_ord (recipient_ids a) 2 ≡ false)
              × (apply_ack_alert_event show 9 2 0 ≡ (err (alert_not_assigned 0 2), show)))
            ⊎ ((mem nat_ord (recipient_ids a) 2 ≡ true)
                × Takes show 0 (λ v. not (v == 2)) (apply_ack_alert_event show 9 2 0))))
ack_alert_pending_example = ack_alert_pending show 9 2 0 show-IsOrderly

cancel_alert_pending_example :
    ((find (has_id 0) show.alerts ≡ none)
      × (apply_cancel_alert_event show 9 1 0 ≡ (err (unknown_alert 0), show)))
    ⊎ ((a : RuntimeAlert) × (find (has_id 0) show.alerts ≡ some a)
        × (((may_cancel 1 a ≡ false)
              × (apply_cancel_alert_event show 9 1 0 ≡ (err (cannot_cancel_alert 1 0), show)))
            ⊎ ((may_cancel 1 a ≡ true)
                × Takes show 0 (λ v. false) (apply_cancel_alert_event show 9 1 0))))
cancel_alert_pending_example = cancel_alert_pending show 9 1 0 show-IsOrderly

recipients_exact_example :
    IsStrict nat_ord (resolve_alert_recipients show 9 1 (user 2))
    × ((u : ℕ)
        → mem nat_ord (resolve_alert_recipients show 9 1 (user 2)) u ≡ reaches show 9 1 (user 2) u)
recipients_exact_example = recipients_exact show 9 1 (user 2)

emergency_exact_example :
    IsStrict nat_ord (emergency_recipients_for_sessions fire clients)
    × ((u : ℕ)
        → mem nat_ord (emergency_recipients_for_sessions fire clients) u ≡ receives fire clients u)
emergency_exact_example = emergency_exact fire clients

emergency_effect_example :
    let result = apply_emergency_event hundredths show 2 true all 200 false in
    AfterRequest hundredths show 2 true all 200 false result.0 result.1.emergency
    × (result.1.sessions ≡ show.sessions)
    × (result.1.alerts ≡ show.alerts)
emergency_effect_example = emergency_effect hundredths show 2 true all 200 false
