-- ===== src/Server/Enrollment/Tidy.antt =====
-- The identifiers of the devices stay as the server stores them.
use open_broadcast_intercom.Base.{
  ℕ, ◌≡◌, Bool, true, false, Option, some, List, [], ◌∷◌, arith, ◌==◌, nat_eq, string_eq, find,
  update_first, map, filter, inl, inr, Bool-cases, Option-cases, String,
}
use open_broadcast_intercom.Base.Stable.{sort_by-Every, dedup_by-Every}
use open_broadcast_intercom.Base.Trim.{trim, is_empty, trim_twice}
use open_broadcast_intercom.Control.{ClientRole}
use open_broadcast_intercom.Server.Config.Desired.{
  DeviceEnrollment, AdminState, normalize_device_enrollments, device_le, is_valid_device,
  normalize_device,
}
use open_broadcast_intercom.Server.Enrollment.Resolve.{
  EnrollmentPolicy, auto, approval, preconfigured_only, has_uid, seen, enroll_known, enroll_new,
  enroll_unknown, awaiting, configured_as, resolve_uid,
}
use open_broadcast_intercom.Server.Enrollment.Found.{IsTidy, AllTidy, normalize-nonblank}

valid-IsTidy :
    (device : DeviceEnrollment) → is_valid_device device ≡ true → IsTidy (normalize_device device)
valid-IsTidy device v =
    let blank : is_empty (trim device.client_uid) ≡ false = ground arith in
    rw (normalize-nonblank device.client_uid (some device.user_id) blank)
      (trim_twice device.client_uid, blank)

normal-AllTidy :
    (devices : List DeviceEnrollment)
    → AllTidy (map normalize_device (filter is_valid_device devices))
unfolding filter
normal-AllTidy [] = tt
normal-AllTidy (device ∷ devices) = elim (Bool-cases (is_valid_device device)) [
  | inl v ↦ rw v (valid-IsTidy device v, normal-AllTidy devices)
  | inr v ↦ rw v (normal-AllTidy devices)
]

-- Whatever the devices are, their identifiers are tidy once the list is normalised.
pub normalized-AllTidy :
    (devices : List DeviceEnrollment) → AllTidy (normalize_device_enrollments devices)
unfolding normalize_device_enrollments
normalized-AllTidy devices =
    dedup_by-Every IsTidy (λ a b. a.client_uid == b.client_uid) _
      (sort_by-Every IsTidy device_le _ (normal-AllTidy devices))

seen-AllTidy :
    (uid : String) (now : ℕ) (role : ClientRole) (devices : List DeviceEnrollment)
    → AllTidy devices
    → AllTidy (update_first (has_uid uid) (seen now role) devices)
unfolding update_first
seen-AllTidy uid now role [] t = tt
seen-AllTidy uid now role (device ∷ devices) t = elim (Bool-cases (has_uid uid device)) [
  | inl e ↦ rw e t
  | inr e ↦ rw e (t.0, seen-AllTidy uid now role devices t.1)
]

module _ {F : Type 0} where
  unknown-AllTidy :
      (saved : Bool) (policy : EnrollmentPolicy) (now : ℕ) (admin : AdminState F) (uid : String)
      (requested : Option ℕ) (role : ClientRole)
      → AllTidy admin.devices
      → AllTidy (enroll_unknown saved policy now admin uid requested role).1.devices
  unfolding enroll_unknown enroll_new
  unknown-AllTidy saved preconfigured_only now admin uid requested role t = t
  unknown-AllTidy saved auto now admin uid requested role t = normalized-AllTidy _
  unknown-AllTidy saved approval now admin uid requested role t = normalized-AllTidy _

  -- A device that connects leaves the identifiers tidy.
  pub resolve_uid-AllTidy :
      (saved : Bool) (policy : EnrollmentPolicy) (now : ℕ) (admin : AdminState F) (uid : String)
      (requested : Option ℕ) (role : ClientRole)
      → AllTidy admin.devices
      → AllTidy (resolve_uid saved policy now admin uid requested role).1.devices
  unfolding resolve_uid enroll_new enroll_known
  resolve_uid-AllTidy saved policy now admin uid requested role t =
      elim (Option-cases (find (has_uid uid) admin.devices)) [
        | inr (d, e) ↦ rw (e, resolve_uid) (seen-AllTidy uid now role admin.devices t)
        | inl e ↦ elim (Option-cases (find (configured_as uid) admin.clients)) [
          | inr (c, f) ↦ rw (e, f, resolve_uid) (normalized-AllTidy _)
          | inl f ↦ elim (Option-cases (awaiting admin requested)) [
            | inr (c, w) ↦ rw (e, f, w, resolve_uid) (normalized-AllTidy _)
            | inl w ↦
                rw (e, f, w, resolve_uid)
                  (unknown-AllTidy saved policy now admin uid requested role t)
          ]
        ]
      ]
