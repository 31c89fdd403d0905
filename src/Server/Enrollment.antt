-- ===== src/Server/Enrollment.antt =====
-- server/src/lib.rs: the identifier that a new device gets.
pub mod Free
pub mod Resolve
pub mod Found
pub mod Tidy
pub mod Again
use open_broadcast_intercom.Base.{
  ℕ, zero, suc, ◌+◌, Bool, true, false, not, ◌&&◌, Option, none, some, List, ◌++◌, ltb, nat_eq,
  if◌then◌else◌, contains,
}

-- `UserId::MAX`
abbrev pub max_user_id : ℕ
max_user_id = 65_535

-- `(from..).take(n).find(|user_id| !used.contains(user_id))`
unfoldable pub first_unused : ℕ → ℕ → List ℕ → Option ℕ
first_unused zero from used = none
first_unused (suc n) from used =
    let later = first_unused n (from + 1) used in
    if not (contains used from) then some from else later

abbrev pub is_free : List ℕ → ℕ → Bool
is_free used user_id = ltb 0 user_id && not (contains used user_id)

-- the search of `next_available_user_id`
abbrev pub smallest_free : List ℕ → ℕ
smallest_free used = elim (first_unused max_user_id 1 used) [
  | none ↦ max_user_id
  | some user_id ↦ user_id
]

-- `next_available_user_id`, of the identifiers of the devices and of the configured clients
unfoldable pub next_available_user_id : List ℕ → List ℕ → Option ℕ → ℕ
next_available_user_id devices clients requested =
    let used = devices ++ clients in
    elim requested [
      | none ↦ smallest_free used
      | some user_id ↦ if is_free used user_id then user_id else smallest_free used
    ]
