-- ===== src/Server/Enrollment/Again.antt =====
-- A device that connects again.
use open_broadcast_intercom.Base.{
  ℕ, ◌≡◌, refl, ◌∙◌, sym, ap, subst, ◌⊎◌, Bool, true, false, Option, none, some, List, [], ◌∷◌,
  ◌++◌, String, arith, nat_eq, string_eq, ltb, find, update_first, inl, inr, Bool-cases,
  Option-cases, Result, ok, err,
}
use open_broadcast_intercom.Base.Trim.{trim, is_empty, trim_twice}
use open_broadcast_intercom.Control.{ClientRole, EnrollmentStatus, enrolled}
use open_broadcast_intercom.Server.Config.Desired.{
  DeviceEnrollment, DesiredClientConfig, AdminState, normalize_device_enrollments, normalize_device,
}
use open_broadcast_intercom.Server.Enrollment.{next_available_user_id}
use open_broadcast_intercom.Server.Enrollment.Free.{next_available_exact}
use open_broadcast_intercom.Server.Enrollment.Resolve.{
  EnrollmentPolicy, auto, approval, preconfigured_only, EnrollmentDecision, EnrollmentError,
  has_uid, seen, new_device, enroll_known, enroll_new, enroll_unknown, awaiting, awaits,
  configured_as, free_id, decide, is_preconfigured, resolve_uid, resolve_client_enrollment,
}
use open_broadcast_intercom.Server.Enrollment.Found.{
  AllTidy, normalize-nonblank, found_normalized, dropped_normalized,
}
use open_broadcast_intercom.Server.Enrollment.Tidy.{resolve_uid-AllTidy}

-- the identifier is a device's, with this user and status
abbrev pub Remembered : String → ℕ → EnrollmentStatus → List DeviceEnrollment → Type 0
Remembered uid user_id status devices =
    (d : DeviceEnrollment) × (find (has_uid uid) devices ≡ some d)
    × (d.user_id ≡ user_id)
    × (d.status ≡ status)

found_seen :
    (uid : String) (now : ℕ) (role : ClientRole) (devices : List DeviceEnrollment)
    (d : DeviceEnrollment)
    → find (has_uid uid) devices ≡ some d
    → find (has_uid uid) (update_first (has_uid uid) (seen now role) devices)
      ≡ some (seen now role d)
unfolding find update_first
found_seen uid now role [] d e = ground arith
found_seen uid now role (device ∷ devices) d e = elim (Bool-cases (has_uid uid device)) [
  | inl h ↦ ground arith
  | inr h ↦ rw h (rw h (found_seen uid now role devices d (sym (rw h refl) ∙ e)))
]

new_Remembered :
    (now : ℕ) (uid : String) (user_id : ℕ) (status : EnrollmentStatus) (name : String)
    (role : ClientRole) (devices : List DeviceEnrollment)
    → AllTidy devices
    → find (has_uid uid) devices ≡ none
    → ltb 0 user_id ≡ true
    → trim uid ≡ uid
    → is_empty uid ≡ false
    → Remembered uid user_id status
        (normalize_device_enrollments (devices ++ new_device now uid user_id status name role ∷ []))
new_Remembered now uid user_id status name role devices t e u h k =
    let new = new_device now uid user_id status name role in
    (normalize_device new, found_normalized devices new t e (rw (u, h, k) refl) h k, refl, refl)

free_positive :
    (devices clients : List ℕ) (requested : Option ℕ)
    → ltb 0 (next_available_user_id devices clients requested) ≡ true
free_positive devices clients requested = elim (next_available_exact devices clients requested) [
  | inl (asked, lo, free) ↦ ground arith
  | inr (vain, inl (lo, hi, free, all)) ↦ ground arith
  | inr (vain, inr (last, all)) ↦ ground arith
]

found_passes : {A : Type 0} (p : A → Bool) (xs : List A) (x : A) → find p xs ≡ some x → p x ≡ true
unfolding find
found_passes p [] x e = ground arith
found_passes p (y ∷ xs) x e = elim (Bool-cases (p y)) [
  | inl h ↦ ground arith
  | inr h ↦ ground (arith, found_passes p xs x)
]

module _ {F : Type 0} where
  -- no device has the identifier, and a client that is configured for it has this user
  abbrev pub ConfiguredAs : String → ℕ → EnrollmentStatus → AdminState F → Type 0
  ConfiguredAs uid user_id status admin =
      (find (has_uid uid) admin.devices ≡ none)
      × ((c : DesiredClientConfig F) × (find (configured_as uid) admin.clients ≡ some c)
          × (c.user_id ≡ user_id))
      × (status ≡ enrolled)

  -- A decision is remembered under the identifier.
  abbrev Kept : String → Result EnrollmentError EnrollmentDecision × AdminState F → Type 0
  Kept uid (ok d, admin) =
      Remembered uid d.user_id d.status admin.devices ⊎ ConfiguredAs uid d.user_id d.status admin
  Kept uid (err e, admin) = Unit {0}

  known-Kept :
      (now : ℕ) (admin : AdminState F) (uid : String) (role : ClientRole) (d : DeviceEnrollment)
      → find (has_uid uid) admin.devices ≡ some d
      → Kept uid (enroll_known true now admin uid role d)
  unfolding enroll_known
  known-Kept now admin uid role d e =
      inl (seen now role d, found_seen uid now role admin.devices d e, refl, refl)

  unknown-Kept :
      (policy : EnrollmentPolicy) (now : ℕ) (admin : AdminState F) (uid : String)
      (requested : Option ℕ) (role : ClientRole)
      → AllTidy admin.devices
      → find (has_uid uid) admin.devices ≡ none
      → trim uid ≡ uid
      → is_empty uid ≡ false
      → Kept uid (enroll_unknown true policy now admin uid requested role)
  unfolding enroll_unknown enroll_new
  unknown-Kept preconfigured_only now admin uid requested role t e h k = tt
  unknown-Kept auto now admin uid requested role t e h k = inl (
      new_Remembered now uid (free_id admin requested) _ "" role admin.devices t e
        (free_positive _ _ requested) h k)
  unknown-Kept approval now admin uid requested role t e h k = inl (
      new_Remembered now uid (free_id admin requested) _ "" role admin.devices t e
        (free_positive _ _ requested) h k)

  awaiting_positive :
      (admin : AdminState F) (requested : Option ℕ) (config : DesiredClientConfig F)
      → awaiting admin requested ≡ some config
      → ltb 0 config.user_id ≡ true
  unfolding awaiting
  awaiting_positive admin none config e = ground arith
  awaiting_positive admin (some u) config e = elim (Bool-cases (ltb 0 u)) [
    | inl h ↦
        let same = found_passes (awaits u) admin.clients config (sym (rw h refl) ∙ e) in
        ground arith
    | inr h ↦ ground arith
  ]

  configured-Kept :
      (now : ℕ) (admin : AdminState F) (uid : String) (role : ClientRole)
      (c : DesiredClientConfig F)
      → AllTidy admin.devices
      → find (has_uid uid) admin.devices ≡ none
      → find (configured_as uid) admin.clients ≡ some c
      → trim uid ≡ uid
      → is_empty uid ≡ false
      → Kept uid (enroll_new true now admin uid role c.user_id enrolled c.name true)
  unfolding enroll_new
  configured-Kept now admin uid role c t e f h k = elim (Bool-cases (ltb 0 c.user_id)) [
    | inl u ↦ inl (new_Remembered now uid c.user_id _ c.name role admin.devices t e u h k)
    | inr u ↦
        let new = new_device now uid c.user_id enrolled c.name role in
        inr (dropped_normalized admin.devices new t e (rw u refl), (c, f, refl), refl)
  ]

  resolve_uid-Kept :
      (policy : EnrollmentPolicy) (now : ℕ) (admin : AdminState F) (uid : String)
      (requested : Option ℕ) (role : ClientRole)
      → AllTidy admin.devices
      → trim uid ≡ uid
      → is_empty uid ≡ false
      → Kept uid (resolve_uid true policy now admin uid requested role)
  unfolding resolve_uid enroll_new
  resolve_uid-Kept policy now admin uid requested role t h k =
      elim (Option-cases (find (has_uid uid) admin.devices)) [
        | inr (d, e) ↦ rw (e, resolve_uid) (known-Kept now admin uid role d e)
        | inl e ↦ elim (Option-cases (find (configured_as uid) admin.clients)) [
          | inr (c, f) ↦ rw (e, f, resolve_uid) (configured-Kept now admin uid role c t e f h k)
          | inl f ↦ elim (Option-cases (awaiting admin requested)) [
            | inr (c, w) ↦
                rw (e, f, w, resolve_uid)
                  (inl (
                    new_Remembered now uid c.user_id _ c.name role admin.devices t e
                      (awaiting_positive admin requested c w) h k))
            | inl w ↦
                rw (e, f, w, resolve_uid) (unknown-Kept policy now admin uid requested role t e h k)
          ]
        ]
      ]

  again_known :
      (policy : EnrollmentPolicy) (now : ℕ) (admin : AdminState F) (uid : String)
      (requested : Option ℕ) (role : ClientRole) (u : ℕ) (status : EnrollmentStatus)
      → Remembered uid u status admin.devices
      → (preconfigured : Bool) × ((resolve_uid true policy now admin uid requested role).0
          ≡ ok (decide u uid status preconfigured))
  unfolding resolve_uid enroll_known
  again_known policy now admin uid requested role u status (d, found, same, kept) = (
    is_preconfigured uid d.user_id admin.clients,
    rw (found, resolve_uid)
        (λ i. ok (decide (same i) uid (kept i) (is_preconfigured uid d.user_id admin.clients))),
  )

  again_configured :
      (policy : EnrollmentPolicy) (now : ℕ) (admin : AdminState F) (uid : String)
      (requested : Option ℕ) (role : ClientRole) (u : ℕ) (status : EnrollmentStatus)
      → ConfiguredAs uid u status admin
      → (preconfigured : Bool) × ((resolve_uid true policy now admin uid requested role).0
          ≡ ok (decide u uid status preconfigured))
  unfolding resolve_uid enroll_new
  again_configured policy now admin uid requested role u status (unknown, (c, found, same), kept) =
      (true, rw (unknown, found, resolve_uid) (λ i. ok (decide (same i) uid (sym kept i) true)))

  decided :
      (uid : String) (result : Result EnrollmentError EnrollmentDecision × AdminState F)
      (decision : EnrollmentDecision)
      → Kept uid result
      → result.0 ≡ ok decision
      → Kept uid (ok decision, result.1)
  decided uid (ok d, admin) decision k h =
      let same : d ≡ decision =
        ap (λ (r : Result EnrollmentError EnrollmentDecision). elim r [ ok x ↦ x | err _ ↦ d ]) h in
      subst (λ x. Kept uid (ok x, admin)) same k
  decided uid (err x, admin) decision k h = ground arith

  -- A device that was enrolled under an identifier that is not blank, and connects again with it, gets
  -- the same user and the same status, whatever number it asks for, in whatever role, and whatever
  -- the policy is by then. This holds if nothing else changed, the admin state can be saved, and the
  -- identifiers of the devices that were stored before are tidy: not blank, and without white space
  -- at the ends. They are still tidy after the device was enrolled.
  pub enrollment_stable :
      (policy : EnrollmentPolicy) (now : ℕ) (admin : AdminState F) (client_uid : String)
      (requested : Option ℕ) (role : ClientRole) (decision : EnrollmentDecision)
      (policy' : EnrollmentPolicy) (now' : ℕ) (requested' : Option ℕ) (role' : ClientRole)
      → AllTidy admin.devices
      → is_empty (trim client_uid) ≡ false
      → (resolve_client_enrollment true policy now admin client_uid requested role).0 ≡ ok decision
      → let after = (resolve_client_enrollment true policy now admin client_uid requested role).1 in
        ((preconfigured : Bool) × ((resolve_client_enrollment true policy' now' after client_uid
              requested' role').0
            ≡ ok (decide decision.user_id (trim client_uid) decision.status preconfigured)))
        × AllTidy after.devices
  unfolding resolve_client_enrollment
  enrollment_stable policy now admin client_uid requested role decision policy' now' requested'
        role' tidy k h =
      let uid = trim client_uid in
      let named = normalize-nonblank client_uid requested k in
      let first = resolve_uid true policy now admin uid requested role in
      let kept =
        resolve_uid-Kept policy now admin uid requested role tidy (trim_twice client_uid) k in
      rw (normalize-nonblank client_uid requested' k, named)
        (
          elim (decided uid first decision kept (rw named at h)) [
            | inl known ↦
                again_known policy' now' first.1 uid requested' role' decision.user_id
                  decision.status known
            | inr configured ↦
                again_configured policy' now' first.1 uid requested' role' decision.user_id
                  decision.status configured
          ],
          resolve_uid-AllTidy true policy now admin uid requested role tidy,
        )
