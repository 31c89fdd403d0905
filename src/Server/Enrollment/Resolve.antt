-- ===== src/Server/Enrollment/Resolve.antt =====
-- The enrollment of a device that connects: `resolve_client_enrollment`. The warning about a
-- conflict, like all that a device keeps of what it can do, is left out; whether the admin state can
-- be saved is an argument.
use open_broadcast_intercom.Base.{
  ℕ, Bool, true, false, ◌&&◌, ◌||◌, Option, none, some, List, [], ◌∷◌, ◌++◌, String, ◌==◌, nat_eq,
  string_eq, option_eq, ltb, if◌then◌else◌, find, any, map, update_first, Result, ok, err,
}
use open_broadcast_intercom.Control.{ClientRole, EnrollmentStatus, enrolled, pending, rejected}
use open_broadcast_intercom.Server.Enrollment.{next_available_user_id}
use open_broadcast_intercom.Server.Config.Desired.{
  DeviceEnrollment, DesiredClientConfig, AdminState, normalize_client_uid,
  normalize_device_enrollments,
}

pub data EnrollmentPolicy : Type 0 where
  auto approval preconfigured_only : EnrollmentPolicy

pub record EnrollmentDecision : Type 0 where
  pub user_id : ℕ
  pub client_uid : String
  pub status : EnrollmentStatus
  pub preconfigured : Bool

-- Why a device was not enrolled; each is one of the source's messages.
pub data EnrollmentError : Type 0 where
  not_preconfigured : String → EnrollmentError
  enrollment_not_saved : EnrollmentError

-- the status of a new device
unfoldable pub status_under : EnrollmentPolicy → EnrollmentStatus
status_under auto = enrolled
status_under approval = pending
status_under preconfigured_only = rejected

abbrev pub has_uid : String → DeviceEnrollment → Bool
has_uid uid device = device.client_uid == uid

abbrev pub seen : ℕ → ClientRole → DeviceEnrollment → DeviceEnrollment
seen now role device = record device { last_seen_ms = now; role = role }

abbrev pub new_device : ℕ → String → ℕ → EnrollmentStatus → String → ClientRole → DeviceEnrollment
new_device now uid user_id status name role = record {
  client_uid = uid;
  user_id = user_id;
  status = status;
  name = name;
  role = role;
  first_seen_ms = now;
  last_seen_ms = now;
}

abbrev pub decide : ℕ → String → EnrollmentStatus → Bool → EnrollmentDecision
decide user_id uid status preconfigured = record {
  user_id = user_id;
  client_uid = uid;
  status = status;
  preconfigured = preconfigured;
}

module _ {F : Type 0} where
  abbrev pub configured_as : String → DesiredClientConfig F → Bool
  configured_as uid config = config.client_uid == some uid

  abbrev pub is_preconfigured : String → ℕ → List (DesiredClientConfig F) → Bool
  is_preconfigured uid user_id configs =
      any
        (λ (config : DesiredClientConfig F). config.user_id == user_id || configured_as uid config)
        configs

  abbrev pub awaits : ℕ → DesiredClientConfig F → Bool
  awaits user_id config = config.user_id == user_id && config.client_uid == none

  abbrev pub save :
      Bool
      → AdminState F
      → EnrollmentDecision
      → Result EnrollmentError EnrollmentDecision × AdminState F
  save saved admin decision = (if saved then ok decision else err enrollment_not_saved, admin)

  -- the device is known
  unfoldable pub enroll_known :
      Bool
      → ℕ
      → AdminState F
      → String
      → ClientRole
      → DeviceEnrollment
      → Result EnrollmentError EnrollmentDecision × AdminState F
  enroll_known saved now admin uid role device =
      save saved
        (record admin { devices = update_first (has_uid uid) (seen now role) admin.devices })
        (decide device.user_id uid device.status
          (is_preconfigured uid device.user_id admin.clients))

  -- `admin_state.devices.push(…)`, `normalize_device_enrollments` and the save
  unfoldable pub enroll_new :
      Bool
      → ℕ
      → AdminState F
      → String
      → ClientRole
      → ℕ
      → EnrollmentStatus
      → String
      → Bool
      → Result EnrollmentError EnrollmentDecision × AdminState F
  enroll_new saved now admin uid role user_id status name preconfigured =
      save saved
        (record admin {
          devices =
              normalize_device_enrollments
                (admin.devices ++ new_device now uid user_id status name role ∷ []);
        })
        (decide user_id uid status preconfigured)

  -- the client that is configured for the requested identifier and has no device yet
  unfoldable pub awaiting : AdminState F → Option ℕ → Option (DesiredClientConfig F)
  awaiting admin none = none
  awaiting admin (some user_id) =
      if ltb 0 user_id then find (awaits user_id) admin.clients else none

  -- `next_available_user_id(&admin_state, requested_user_id)`
  abbrev pub free_id : AdminState F → Option ℕ → ℕ
  free_id admin requested =
      next_available_user_id (map (λ (d : DeviceEnrollment). d.user_id) admin.devices)
        (map (λ (c : DesiredClientConfig F). c.user_id) admin.clients) requested

  -- the rest: the policy decides
  unfoldable pub enroll_unknown :
      Bool
      → EnrollmentPolicy
      → ℕ
      → AdminState F
      → String
      → Option ℕ
      → ClientRole
      → Result EnrollmentError EnrollmentDecision × AdminState F
  unfolding status_under
  enroll_unknown saved preconfigured_only now admin uid requested role =
      (err (not_preconfigured uid), admin)
  enroll_unknown saved auto now admin uid requested role =
      enroll_new saved now admin uid role (free_id admin requested) (status_under auto) "" false
  enroll_unknown saved approval now admin uid requested role =
      enroll_new saved now admin uid role (free_id admin requested) (status_under approval) "" false

  -- `resolve_client_enrollment`, once the identifier is normalised
  unfoldable pub resolve_uid :
      Bool
      → EnrollmentPolicy
      → ℕ
      → AdminState F
      → String
      → Option ℕ
      → ClientRole
      → Result EnrollmentError EnrollmentDecision × AdminState F
  resolve_uid saved policy now admin uid requested role = elim (find (has_uid uid) admin.devices) [
    | some device ↦ enroll_known saved now admin uid role device
    | none ↦ elim (find (configured_as uid) admin.clients) [
      | some config ↦ enroll_new saved now admin uid role config.user_id enrolled config.name true
      | none ↦ elim (awaiting admin requested) [
        | some config ↦
            enroll_new saved now
              (record admin {
                clients =
                    update_first (awaits config.user_id)
                      (λ (c : DesiredClientConfig F). record c { client_uid = some uid })
                      admin.clients;
              })
              uid role config.user_id enrolled config.name true
        | none ↦ enroll_unknown saved policy now admin uid requested role
      ]
    ]
  ]

  -- `resolve_client_enrollment`
  unfoldable pub resolve_client_enrollment :
      Bool
      → EnrollmentPolicy
      → ℕ
      → AdminState F
      → String
      → Option ℕ
      → ClientRole
      → Result EnrollmentError EnrollmentDecision × AdminState F
  unfolding resolve_uid
  resolve_client_enrollment saved policy now admin client_uid requested role =
      resolve_uid saved policy now admin (normalize_client_uid client_uid requested) requested role
