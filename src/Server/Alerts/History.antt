-- ===== src/Server/Alerts/History.antt =====
-- The history of alerts: what trimming removes.
use open_broadcast_intercom.Base.{
  ℕ, zero, suc, ◌-◌, ◌≤◌, ◌≡◌, refl, ap, true, inl, inr, List, [], ◌∷◌, arith, tests, leb,
  Bool-cases, length, filter, drop, length-drop,
}
use open_broadcast_intercom.Server.State.{RuntimeAlert}
use open_broadcast_intercom.Server.Alerts.{
  active, inactive, retain_counted, trim_alert_history, max_inactive_alerts,
}

retain-active :
    (n : ℕ) (alerts : List RuntimeAlert)
    → filter active (retain_counted n alerts) ≡ filter active alerts
unfolding filter retain_counted
retain-active n [] = refl
retain-active zero (a ∷ alerts) = ground (arith, retain-active zero alerts)
retain-active (suc n) (a ∷ alerts) =
    ground (arith, retain-active (suc n) alerts, retain-active (suc n - 1) alerts)

retain-inactive :
    (n : ℕ) (alerts : List RuntimeAlert)
    → filter inactive (retain_counted n alerts) ≡ drop n (filter inactive alerts)
unfolding filter retain_counted
retain-inactive zero [] = refl
retain-inactive (suc n) [] = refl
retain-inactive zero (a ∷ alerts) = ground (arith, retain-inactive zero alerts)
retain-inactive (suc n) (a ∷ alerts) =
    let one_less : suc n - 1 ≡ n = omega arith in
    ground (arith, one_less, retain-inactive (suc n) alerts, retain-inactive n alerts)

few_dropped : (count : ℕ) → leb count max_inactive_alerts ≡ true → 0 ≡ count - max_inactive_alerts
few_dropped count h = ground arith

-- Trimming keeps every active alert in its place among them, and of the inactive ones the fifty
-- newest: it drops the oldest ones beyond fifty.
pub trim_keeps :
    (alerts : List RuntimeAlert)
    → (filter active (trim_alert_history alerts) ≡ filter active alerts)
      × (filter inactive (trim_alert_history alerts)
          ≡ drop (length (filter inactive alerts) - max_inactive_alerts) (filter inactive alerts))
      × (length (filter inactive (trim_alert_history alerts)) ≤ max_inactive_alerts)
unfolding trim_alert_history
trim_keeps alerts =
    let count = length (filter inactive alerts) in
    elim (Bool-cases (leb count max_inactive_alerts)) [
      | inl few ↦
          rw few
            (refl, ap (λ n. drop n (filter inactive alerts)) (few_dropped count few), omega (tests))
      | inr many ↦ rw many (
        retain-active (count - max_inactive_alerts) alerts,
        retain-inactive (count - max_inactive_alerts) alerts,
        rw (retain-inactive (count - max_inactive_alerts) alerts)
            (omega (arith, length-drop (count - max_inactive_alerts) (filter inactive alerts))),
      )
    ]
