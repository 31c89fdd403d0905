-- ===== src/Tests/Configuring.antt =====
-- Identifiers and settings.
use open_broadcast_intercom.Base.{
  ℕ, ◌<◌, ◌≡◌, refl, ◌⊎◌, Bool, true, false, not, ◌&&◌, some, List, [], ◌∷◌, ◌++◌, contains, nat_eq,
  find, ok,
}
use open_broadcast_intercom.Base.Sorted.{nat_ord, IsStrict}
use open_broadcast_intercom.Base.Trim.{trim, is_empty, is_whitespace}
use open_broadcast_intercom.Control.{IfbConfig, client, enrolled, pending}
use open_broadcast_intercom.Server.Enrollment.{next_available_user_id, first_unused}
use open_broadcast_intercom.Server.Enrollment.Free.{AsksInVain, Smallest, next_available_exact}
use open_broadcast_intercom.Server.Enrollment.Resolve.{
  EnrollmentDecision, auto, approval, decide, resolve_client_enrollment, resolve_uid,
  enroll_unknown, enroll_new, awaiting, status_under,
}
use open_broadcast_intercom.Server.Enrollment.Found.{AllTidy}
use open_broadcast_intercom.Server.Enrollment.Again.{enrollment_stable}
use open_broadcast_intercom.Server.Config.Desired.{AdminState, normalize_client_uid}
use open_broadcast_intercom.Server.Ifb.{normalize_ifb_config}
use open_broadcast_intercom.Server.Ifb.Normal.{ifb_exact}
use open_broadcast_intercom.Tests.Samples.{hundredths}

next_available_exact_example :
    let v = next_available_user_id (1 ∷ 2 ∷ []) (4 ∷ []) (some 2) in
    let used : List ℕ = (1 ∷ 2 ∷ []) ++ 4 ∷ [] in
    ((some 2 ≡ some v) × (0 < v) × (contains used v ≡ false))
    ⊎ (AsksInVain used (some 2) × Smallest used v)
next_available_exact_example = next_available_exact (1 ∷ 2 ∷ []) (4 ∷ []) (some 2)

abbrev talkback : IfbConfig ℕ
talkback = record {
  enabled = true;
  program = 3 ∷ 1 ∷ 2 ∷ 3 ∷ [];
  interrupt = 2 ∷ 9 ∷ [];
  duck_gain = 2_000;
}

ifb_exact_example :
    let after = normalize_ifb_config hundredths talkback in
    IsStrict nat_ord after.interrupt
    × ((c : ℕ) → contains after.interrupt c ≡ contains talkback.interrupt c)
    × ((c : ℕ)
        → contains after.program c
          ≡ (contains talkback.program c && not (contains talkback.interrupt c)))
    × (hundredths.is_finite after.duck_gain ≡ true)
    × (hundredths.le 0 after.duck_gain ≡ true)
    × (hundredths.le after.duck_gain 100 ≡ true)
    × (after.enabled ≡ talkback.enabled)
ifb_exact_example = ifb_exact hundredths talkback

abbrev rack : AdminState ℕ
rack = record {
  devices =
      record {
        client_uid = "pack-1";
        user_id = 4;
        status = enrolled;
        name = "Pack";
        role = client;
        first_seen_ms = 1;
        last_seen_ms = 2;
      }
      ∷ [];
  clients = [];
  presets = [];
}

pack_is_tidy : AllTidy rack.devices
unfolding trim is_empty is_whitespace
pack_is_tidy = ((refl, refl), tt)

not_blank : is_empty (trim " pack-2 ") ≡ false
unfolding trim is_empty is_whitespace
not_blank = refl

abbrev second_pack : EnrollmentDecision
second_pack = record { user_id = 1; client_uid = "pack-2"; status = pending; preconfigured = false }

second_pack_waits :
    (resolve_client_enrollment true approval 7 rack " pack-2 " (some 4) client).0 ≡ ok second_pack
unfolding resolve_client_enrollment resolve_uid enroll_unknown enroll_new awaiting status_under
    next_available_user_id first_unused normalize_client_uid find trim is_empty is_whitespace
    contains
second_pack_waits = refl

enrollment_stable_example :
    let after = (resolve_client_enrollment true approval 7 rack " pack-2 " (some 4) client).1 in
    ((preconfigured : Bool) × ((resolve_client_enrollment true auto 9 after " pack-2 "
          (some 5)
          client).0
        ≡ ok (decide 1 (trim " pack-2 ") pending preconfigured)))
    × AllTidy after.devices
enrollment_stable_example =
    enrollment_stable approval 7 rack " pack-2 " (some 4) client second_pack auto 9 (some 5) client
      pack_is_tidy not_blank second_pack_waits
