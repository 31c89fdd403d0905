-- ===== src/Server/Enrollment/Found.antt =====
-- What is found of an admin state after its devices are normalised.
use open_broadcast_intercom.Base.{
  ℕ, ◌≡◌, refl, ◌∙◌, sym, ap, true, false, Option, none, some, List, [], ◌∷◌, ◌++◌, String, arith,
  ◌==◌, nat_eq, string_eq, eq_iff, find, map, filter, inl, inr, Bool-cases,
}
use open_broadcast_intercom.Base.Trim.{trim, is_empty}
use open_broadcast_intercom.Base.Stable.{
  sort_by, find-sort_append, find-sort_none, find-dedup_by, Every,
}
use open_broadcast_intercom.Server.Config.Desired.{
  DeviceEnrollment, normalize_client_uid, normalize_device_enrollments, device_le, is_valid_device,
  normalize_device,
}
use open_broadcast_intercom.Server.Enrollment.Resolve.{has_uid}

-- an identifier as the server stores it: not blank, and without white space at the ends
abbrev pub IsTidy : DeviceEnrollment → Type 0
IsTidy device = (trim device.client_uid ≡ device.client_uid) × (is_empty device.client_uid ≡ false)

abbrev pub AllTidy : List DeviceEnrollment → Type 0
AllTidy devices = Every IsTidy devices

-- an identifier that is not blank is trimmed
pub normalize-nonblank :
    (uid : String) (requested : Option ℕ)
    → is_empty (trim uid) ≡ false
    → normalize_client_uid uid requested ≡ trim uid
unfolding normalize_client_uid
normalize-nonblank uid requested h = rw h refl

tidy_uid :
    (device : DeviceEnrollment)
    → trim device.client_uid ≡ device.client_uid
    → is_empty device.client_uid ≡ false
    → (normalize_device device).client_uid ≡ device.client_uid
tidy_uid device h k =
    normalize-nonblank device.client_uid (some device.user_id) (ap is_empty h ∙ k) ∙ h

abbrev normal_devices : List DeviceEnrollment → List DeviceEnrollment
normal_devices devices = map normalize_device (filter is_valid_device devices)

none_normalized :
    (uid : String) (devices : List DeviceEnrollment)
    → AllTidy devices
    → find (has_uid uid) devices ≡ none
    → find (has_uid uid) (normal_devices devices) ≡ none
unfolding find filter
none_normalized uid [] t e = refl
none_normalized uid (device ∷ devices) t e =
    let same = tidy_uid device t.0.0 t.0.1 in
    elim (Bool-cases (has_uid uid device)) [
      | inl h ↦ ground arith
      | inr h ↦ elim (Bool-cases (is_valid_device device)) [
        | inl v ↦ rw (v, same, h) (none_normalized uid devices t.1 (sym (rw h refl) ∙ e))
        | inr v ↦ rw v (none_normalized uid devices t.1 (sym (rw h refl) ∙ e))
      ]
    ]

normal-append :
    (devices : List DeviceEnrollment) (new : DeviceEnrollment)
    → is_valid_device new ≡ true
    → normal_devices (devices ++ new ∷ []) ≡ normal_devices devices ++ normalize_device new ∷ []
unfolding filter
normal-append [] new v = rw v refl
normal-append (device ∷ devices) new v = elim (Bool-cases (is_valid_device device)) [
  | inl d ↦ rw d (ap (λ ds. normalize_device device ∷ ds) (normal-append devices new v))
  | inr d ↦ rw d (normal-append devices new v)
]

normal-dropped :
    (devices : List DeviceEnrollment) (new : DeviceEnrollment)
    → is_valid_device new ≡ false
    → normal_devices (devices ++ new ∷ []) ≡ normal_devices devices
unfolding filter
normal-dropped [] new v = rw v refl
normal-dropped (device ∷ devices) new v = elim (Bool-cases (is_valid_device device)) [
  | inl d ↦ rw d (ap (λ ds. normalize_device device ∷ ds) (normal-dropped devices new v))
  | inr d ↦ rw d (normal-dropped devices new v)
]

same_uid :
    (uid : String) (a b : DeviceEnrollment)
    → (a.client_uid == b.client_uid) ≡ true
    → has_uid uid a ≡ has_uid uid b
same_uid uid a b h = ap (λ v. v == uid) ((eq_iff a.client_uid b.client_uid).0 h)

-- A new device is found under its identifier after the list is normalised.
pub found_normalized :
    (devices : List DeviceEnrollment) (new : DeviceEnrollment)
    → AllTidy devices
    → find (has_uid new.client_uid) devices ≡ none
    → is_valid_device new ≡ true
    → trim new.client_uid ≡ new.client_uid
    → is_empty new.client_uid ≡ false
    → find (has_uid new.client_uid) (normalize_device_enrollments (devices ++ new ∷ []))
      ≡ some (normalize_device new)
unfolding normalize_device_enrollments
found_normalized devices new t e v h k =
    find-dedup_by (has_uid new.client_uid) (λ a b. a.client_uid == b.client_uid)
      (sort_by device_le (normal_devices (devices ++ new ∷ []))) (same_uid new.client_uid)
    ∙ ap (λ ds. find (has_uid new.client_uid) (sort_by device_le ds)) (normal-append devices new v)
    ∙ find-sort_append (has_uid new.client_uid) device_le (normal_devices devices)
        (normalize_device new) (none_normalized new.client_uid devices t e)
    ∙ rw (tidy_uid new h k) (rw ((eq_iff new.client_uid new.client_uid).1 refl) refl)

-- A new device that is not valid is dropped.
pub dropped_normalized :
    (devices : List DeviceEnrollment) (new : DeviceEnrollment)
    → AllTidy devices
    → find (has_uid new.client_uid) devices ≡ none
    → is_valid_device new ≡ false
    → find (has_uid new.client_uid) (normalize_device_enrollments (devices ++ new ∷ [])) ≡ none
unfolding normalize_device_enrollments
dropped_normalized devices new t e v =
    find-dedup_by (has_uid new.client_uid) (λ a b. a.client_uid == b.client_uid)
      (sort_by device_le (normal_devices (devices ++ new ∷ []))) (same_uid new.client_uid)
    ∙ ap (λ ds. find (has_uid new.client_uid) (sort_by device_le ds)) (normal-dropped devices new v)
    ∙ find-sort_none (has_uid new.client_uid) device_le (normal_devices devices)
        (none_normalized new.client_uid devices t e)
