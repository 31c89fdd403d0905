-- ===== src/Server/Enrollment/Free.antt =====
-- When an identifier is free.
use open_broadcast_intercom.Base.{
  ℕ, zero, suc, ◌+◌, ◌≤◌, ◌<◌, ◌≡◌, refl, ◌⊎◌, inl, inr, true, false, Option, none, some, List,
  ◌++◌, nat_eq, ◌==◌, nat_beq_iff, contains, arith, Bool-cases,
}
use open_broadcast_intercom.Server.Enrollment.{
  max_user_id, first_unused, is_free, smallest_free, next_available_user_id,
}

-- every identifier of the range is used
abbrev pub AllUsed : List ℕ → ℕ → ℕ → Type 0
AllUsed used from to = (v : ℕ) → from ≤ v → v < to → contains used v ≡ true

-- The search finds the smallest identifier that is not used, if there is one.
first_unused-exact :
    (n from : ℕ) (used : List ℕ)
    → ((first_unused n from used ≡ none) × AllUsed used from (from + n))
      ⊎ ((v : ℕ) × (first_unused n from used ≡ some v)
          × (from ≤ v)
          × (v < from + n)
          × (contains used v ≡ false)
          × AllUsed used from v)
unfolding first_unused
first_unused-exact zero from used = inl (refl, λ v a b. ground arith)
first_unused-exact (suc n) from used = elim (Bool-cases (contains used from)) [
  | inr e ↦ rw e (inr (from, refl, omega arith, omega arith, e, λ v a b. ground arith))
  | inl e ↦ rw e (elim (first_unused-exact n (from + 1) used) [
    | inl (f, all) ↦ inl (f, λ v a b. at_first v e (λ c. all v c (omega arith)) a)
    | inr (v, f, lo, hi, free, all) ↦
        inr (v, f, omega arith, omega arith, free, λ w a b. at_first w e (λ c. all w c b) a)
  ])
]
  where
    at_first :
        (v : ℕ)
        → contains used from ≡ true
        → (from + 1 ≤ v → contains used v ≡ true)
        → from ≤ v
        → contains used v ≡ true
    at_first v e later a = elim (Bool-cases (v == from)) [
      | inl d ↦ rw ((nat_beq_iff v from).0 d) e
      | inr d ↦ later (ground arith)
    ]

-- What a device gets that has no identifier of its own: the smallest that is not used, or, when all
-- are used, the greatest.
abbrev pub Smallest : List ℕ → ℕ → Type 0
Smallest used v =
    ((0 < v) × (v ≤ max_user_id) × (contains used v ≡ false) × AllUsed used 1 v)
    ⊎ ((v ≡ max_user_id) × AllUsed used 1 (max_user_id + 1))

smallest_free-Smallest : (used : List ℕ) → Smallest used (smallest_free used)
smallest_free-Smallest used = elim (first_unused-exact max_user_id 1 used) [
  | inl (f, all) ↦ rw (f, smallest_free) (inr (refl, λ v a b. all v a (omega arith)))
  | inr (v, f, lo, hi, free, all) ↦
      rw (f, smallest_free) (inl (omega arith, omega arith, free, all))
]

-- no identifier is asked for that the device can get
abbrev pub AsksInVain : List ℕ → Option ℕ → Type 0
AsksInVain used requested =
    (requested ≡ none) ⊎ ((w : ℕ) × (requested ≡ some w) × ((w ≡ 0) ⊎ (contains used w ≡ true)))

in_vain : (used : List ℕ) (w : ℕ) → is_free used w ≡ false → AsksInVain used (some w)
in_vain used w e = elim (Bool-cases (contains used w)) [
  | inl c ↦ inr (w, refl, inr c)
  | inr c ↦ inr (w, refl, inl (ground arith))
]

-- A device that asks for an identifier gets it if that is positive and not used by a device or a
-- configured client. A device that asks for none, for zero or for one that is used gets the smallest
-- positive one that is not used, or, when all of 1 to 65,535 are used, the greatest of them.
pub next_available_exact :
    (devices clients : List ℕ) (requested : Option ℕ)
    → let used = devices ++ clients in
      let v = next_available_user_id devices clients requested in
      ((requested ≡ some v) × (0 < v) × (contains used v ≡ false))
      ⊎ (AsksInVain used requested × Smallest used v)
unfolding next_available_user_id
next_available_exact devices clients none =
    inr (inl refl, smallest_free-Smallest (devices ++ clients))
next_available_exact devices clients (some user_id) =
    elim (Bool-cases (is_free (devices ++ clients) user_id)) [
      | inl e ↦ rw e (inl (refl, ground arith, ground arith))
      | inr e ↦ rw e (
          inr (in_vain (devices ++ clients) user_id e, smallest_free-Smallest (devices ++ clients)))
    ]
