-- ===== src/Server/Alerts/Pending.antt =====
-- The alerts that wait for a user, and how the changes of single alerts show in them.
use open_broadcast_intercom.Base.{
  ℕ, suc, ◌-◌, ◌≤◌, ◌<◌, ◌≡◌, refl, Bool, true, false, not, ◌&&◌, inl, inr, List, [], ◌∷◌, arith,
  ◌==◌, nat_eq, leb, ltb, if◌then◌else◌, Bool-cases, filter, any, update_first, set_remove,
  contains, map, some, length,
}
use open_broadcast_intercom.Base.Sorted.{nat_ord, mem, IsStrict}
use open_broadcast_intercom.Base.NormalForm.{Climbs-not-mem, Climbs-IsStrict}
use open_broadcast_intercom.Control.{AlertRecipientStatus}
use open_broadcast_intercom.Server.State.{RuntimeAlert}
use open_broadcast_intercom.Server.Alerts.{
  active, active_for, inactive, unacked, retain_counted, trim_alert_history, acknowledge, cancel,
  has_id, max_inactive_alerts,
}

abbrev waits_for : ℕ → RuntimeAlert → Bool
waits_for v alert = active_for alert v

abbrev pub ids : List RuntimeAlert → List ℕ
ids alerts = map (λ (a : RuntimeAlert). a.id) alerts

-- the identifiers of the alerts that are active for a user, oldest first
unfoldable pub pending_for : List RuntimeAlert → ℕ → List ℕ
pending_for alerts v = ids (filter (waits_for v) alerts)

abbrev pub recipient_ids : RuntimeAlert → List ℕ
recipient_ids alert = map (λ (r : AlertRecipientStatus). r.user_id) alert.recipients

-- The identifiers ascend from `lo` and stay below `hi`, and no alert has a recipient twice.
abbrev pub Orderly : ℕ → ℕ → List RuntimeAlert → Type 0
Orderly lo hi [] = lo ≤ hi
Orderly lo hi (a ∷ alerts) =
    (lo ≤ a.id) × IsStrict nat_ord (recipient_ids a) × Orderly (suc a.id) hi alerts

Orderly-mono :
    (lo lo' hi : ℕ) (alerts : List RuntimeAlert)
    → lo ≤ lo'
    → Orderly lo' hi alerts
    → Orderly lo hi alerts
Orderly-mono lo lo' hi [] h o = omega arith
Orderly-mono lo lo' hi (a ∷ alerts) h o = (omega arith, o.1, o.2)

retain-Orderly :
    (n lo hi : ℕ) (alerts : List RuntimeAlert)
    → Orderly lo hi alerts
    → Orderly lo hi (retain_counted n alerts)
unfolding retain_counted
retain-Orderly n lo hi [] o = o
retain-Orderly n lo hi (a ∷ alerts) o = elim (Bool-cases (ltb 0 n && inactive a)) [
  | inl drops ↦ rw drops (
      Orderly-mono lo (suc a.id) hi _ (omega arith)
        (retain-Orderly (n - 1) (suc a.id) hi alerts o.2))
  | inr keeps ↦ rw keeps (o.0, o.1, retain-Orderly n (suc a.id) hi alerts o.2)
]

pub trim-Orderly :
    (lo hi : ℕ) (alerts : List RuntimeAlert)
    → Orderly lo hi alerts
    → Orderly lo hi (trim_alert_history alerts)
unfolding trim_alert_history
trim-Orderly lo hi alerts o =
    let count = length (filter inactive alerts) in
    elim (Bool-cases (leb count max_inactive_alerts)) [
      | inl few ↦ rw few o
      | inr many ↦ rw many (retain-Orderly (count - max_inactive_alerts) lo hi alerts o)
    ]

waits_for-active :
    (v : ℕ) (rs : List AlertRecipientStatus)
    → any (λ r. r.user_id == v && unacked r) rs ≡ true
    → any unacked rs ≡ true
unfolding any
waits_for-active v [] h = cc
waits_for-active v (r ∷ rs) h = ground (arith, waits_for-active v rs)

active_for-active : (v : ℕ) (a : RuntimeAlert) → active_for a v ≡ true → active a ≡ true
unfolding active_for active
active_for-active v a h = ground (arith, waits_for-active v a.recipients)

retain-pending :
    (n v : ℕ) (alerts : List RuntimeAlert)
    → pending_for (retain_counted n alerts) v ≡ pending_for alerts v
unfolding pending_for retain_counted filter
retain-pending n v [] = refl
retain-pending n v (a ∷ alerts) =
    ground
      (arith, active_for-active v a, retain-pending n v alerts, retain-pending (n - 1) v alerts)

-- Trimming takes no alert from anyone.
pub trim-pending :
    (v : ℕ) (alerts : List RuntimeAlert)
    → pending_for (trim_alert_history alerts) v ≡ pending_for alerts v
unfolding trim_alert_history
trim-pending v alerts =
    ground (arith, retain-pending (length (filter inactive alerts) - max_inactive_alerts) v alerts)

-- An alert whose identifier is below all others waits for nobody among them.
pending_above :
    (i v lo hi : ℕ) (alerts : List RuntimeAlert)
    → i < lo
    → Orderly lo hi alerts
    → set_remove (pending_for alerts v) i ≡ pending_for alerts v
unfolding pending_for filter set_remove
pending_above i v lo hi [] h o = refl
pending_above i v lo hi (a ∷ alerts) h o =
    ground (arith, pending_above i v (suc a.id) hi alerts (omega arith) o.2)

-- `f` keeps the identifier, and an orderly alert then waits for `v` as before, or no longer at all.
abbrev pub Changes : (RuntimeAlert → RuntimeAlert) → ℕ → Bool → Type 0
Changes f v keeps =
    (a : RuntimeAlert)
    → IsStrict nat_ord (recipient_ids a)
    → ((f a).id ≡ a.id)
      × (recipient_ids (f a) ≡ recipient_ids a)
      × (active_for (f a) v ≡ (if keeps then active_for a v else false))

pub update-pending :
    (f : RuntimeAlert → RuntimeAlert) (v : ℕ) (keeps : Bool) (i lo hi : ℕ)
    (alerts : List RuntimeAlert)
    → Changes f v keeps
    → Orderly lo hi alerts
    → pending_for (update_first (has_id i) f alerts) v
      ≡ (if keeps then pending_for alerts v else set_remove (pending_for alerts v) i)
unfolding pending_for filter update_first set_remove
update-pending f v keeps i lo hi [] c o = ground arith
update-pending f v keeps i lo hi (a ∷ alerts) c o = ground (
  arith,
  c a o.1,
  pending_above i v (suc a.id) hi alerts,
  update-pending f v keeps i (suc a.id) hi alerts c o.2,
)

pub update-Orderly :
    (f : RuntimeAlert → RuntimeAlert) (v : ℕ) (keeps : Bool) (i lo hi : ℕ)
    (alerts : List RuntimeAlert)
    → Changes f v keeps
    → Orderly lo hi alerts
    → Orderly lo hi (update_first (has_id i) f alerts)
unfolding update_first
update-Orderly f v keeps i lo hi [] c o = o
update-Orderly f v keeps i lo hi (a ∷ alerts) c o = elim (Bool-cases (has_id i a)) [
  | inl e ↦ rw e (rw ((c a o.1).0) o.0, rw ((c a o.1).1) o.1, rw ((c a o.1).0) o.2)
  | inr e ↦ rw e (o.0, o.1, update-Orderly f v keeps i (suc a.id) hi alerts c o.2)
]

-- Acknowledging touches one recipient.
ids-acknowledge :
    (u t : ℕ) (rs : List AlertRecipientStatus)
    → map
        (λ (r : AlertRecipientStatus). r.user_id)
        (update_first (λ r. r.user_id == u) (λ r. record r { acked_at_ms = some t }) rs)
      ≡ map (λ (r : AlertRecipientStatus). r.user_id) rs
unfolding update_first
ids-acknowledge u t [] = refl
ids-acknowledge u t (r ∷ rs) = ground (arith, ids-acknowledge u t rs)

absent_unacked :
    (v : ℕ) (rs : List AlertRecipientStatus)
    → mem nat_ord (map (λ (r : AlertRecipientStatus). r.user_id) rs) v ≡ false
    → any (λ r. r.user_id == v && unacked r) rs ≡ false
unfolding any contains
absent_unacked v [] h = refl
absent_unacked v (r ∷ rs) h = ground (arith, absent_unacked v rs)

any-acknowledge :
    (u v t : ℕ) (rs : List AlertRecipientStatus)
    → IsStrict nat_ord (map (λ (r : AlertRecipientStatus). r.user_id) rs)
    → any
        (λ r. r.user_id == v && unacked r)
        (update_first (λ r. r.user_id == u) (λ r. record r { acked_at_ms = some t }) rs)
      ≡ (if v == u then false else any (λ r. r.user_id == v && unacked r) rs)
unfolding any update_first
any-acknowledge u v t [] s = ground arith
any-acknowledge u v t (r ∷ rs) s = ground (
  arith,
  absent_unacked r.user_id rs (Climbs-not-mem nat_ord r.user_id _ s),
  any-acknowledge u v t rs (Climbs-IsStrict nat_ord r.user_id _ s),
)

pub acknowledge-Changes : (u v t : ℕ) → Changes (acknowledge u t) v (not (v == u))
unfolding active_for
acknowledge-Changes u v t a s =
    (refl, ids-acknowledge u t a.recipients, ground (arith, any-acknowledge u v t a.recipients s))

pub cancel-Changes : (v t : ℕ) → Changes (cancel t) v false
unfolding active_for
cancel-Changes v t a s = (refl, refl, refl)
