-- ===== src/Base/Stable.antt =====
-- `sort_by` and `dedup_by`, for a comparison that need not tell different elements apart: the sort
-- is stable.
use mathlib.Core.Bool.{Bool, true, false}
use mathlib.Core.List.{List, [], ◌∷◌, ◌++◌}
use mathlib.Core.Logic.{inl, inr}
use open_broadcast_intercom.Base.Tests.{if◌then◌else◌, Bool-cases}
use open_broadcast_intercom.Base.Lists.{find}
use mathlib.Core.Path.{◌≡◌, refl}
use mathlib.Core.Option.{none, some}
use native.Mathlib.Omega.{arith}

module _ {ℓ} {A : Type ℓ} where
  place_by : (A → A → Bool) → A → List A → List A
  place_by le a [] = a ∷ []
  place_by le a (x ∷ xs) = let rest = place_by le a xs in if le a x then a ∷ x ∷ xs else x ∷ rest

  -- `sort_by`, where `le a b` says that `a` does not compare as greater than `b`
  unfoldable pub sort_by : (A → A → Bool) → List A → List A
  unfolding place_by
  sort_by le [] = []
  sort_by le (x ∷ xs) = place_by le x (sort_by le xs)

  -- behind an element that stays
  dedup_by_after : (A → A → Bool) → A → List A → List A
  dedup_by_after same a [] = []
  dedup_by_after same a (x ∷ xs) = elim (same x a) [
    | true ↦ dedup_by_after same a xs
    | false ↦ x ∷ dedup_by_after same x xs
  ]

  -- `dedup_by`
  unfoldable pub dedup_by : (A → A → Bool) → List A → List A
  unfolding dedup_by_after
  dedup_by same [] = []
  dedup_by same (x ∷ xs) = x ∷ dedup_by_after same x xs

  find-place_by :
      (p : A → Bool) (le : A → A → Bool) (a : A) (xs : List A)
      → ((x : A) → p a ≡ true → p x ≡ true → le a x ≡ true)
      → find p (place_by le a xs) ≡ (if p a then some a else find p xs)
  unfolding find place_by
  find-place_by p le a [] h = refl
  find-place_by p le a (x ∷ xs) h = ground (arith, find-place_by p le a xs h, h x)

  -- The sort finds what the list finds, if it does not tell apart what is looked for.
  pub find-sort_by :
      (p : A → Bool) (le : A → A → Bool) (xs : List A)
      → ((a x : A) → p a ≡ true → p x ≡ true → le a x ≡ true)
      → find p (sort_by le xs) ≡ find p xs
  unfolding find sort_by
  find-sort_by p le [] h = refl
  find-sort_by p le (x ∷ xs) h =
      ground (arith, find-place_by p le x (sort_by le xs) (h x), find-sort_by p le xs h)

  find-place_none :
      (p : A → Bool) (le : A → A → Bool) (a : A) (xs : List A)
      → p a ≡ false
      → find p (place_by le a xs) ≡ find p xs
  unfolding find place_by
  find-place_none p le a [] h = ground arith
  find-place_none p le a (x ∷ xs) h = ground (arith, find-place_none p le a xs)

  find-place_last :
      (p : A → Bool) (le : A → A → Bool) (a : A) (xs : List A)
      → find p xs ≡ none
      → find p (place_by le a xs) ≡ (if p a then some a else none)
  unfolding find place_by
  find-place_last p le a [] h = refl
  find-place_last p le a (x ∷ xs) h = ground (arith, find-place_last p le a xs)

  -- What is looked for and stands last only is found after the sort.
  pub find-sort_append :
      (p : A → Bool) (le : A → A → Bool) (xs : List A) (a : A)
      → find p xs ≡ none
      → find p (sort_by le (xs ++ a ∷ [])) ≡ (if p a then some a else none)
  unfolding find sort_by place_by
  find-sort_append p le [] a h = refl
  find-sort_append p le (x ∷ xs) a h =
      ground (arith, find-place_none p le x (sort_by le (xs ++ a ∷ [])), find-sort_append p le xs a)

  find-dedup_by_after :
      (p : A → Bool) (same : A → A → Bool) (a : A) (xs : List A)
      → ((x b : A) → same x b ≡ true → p x ≡ p b)
      → p a ≡ false
      → find p (dedup_by_after same a xs) ≡ find p xs
  unfolding find dedup_by_after
  find-dedup_by_after p same a [] h k = refl
  find-dedup_by_after p same a (x ∷ xs) h k =
      ground (arith, find-dedup_by_after p same a xs h, find-dedup_by_after p same x xs h, h x a)

  -- Repetitions do not change what is found, if the test does not tell them apart.
  pub find-dedup_by :
      (p : A → Bool) (same : A → A → Bool) (xs : List A)
      → ((x b : A) → same x b ≡ true → p x ≡ p b)
      → find p (dedup_by same xs) ≡ find p xs
  unfolding find dedup_by
  find-dedup_by p same [] h = refl
  find-dedup_by p same (x ∷ xs) h = ground (arith, find-dedup_by_after p same x xs h)

  pub find-sort_none :
      (p : A → Bool) (le : A → A → Bool) (xs : List A)
      → find p xs ≡ none
      → find p (sort_by le xs) ≡ none
  unfolding find sort_by
  find-sort_none p le [] h = refl
  find-sort_none p le (x ∷ xs) h =
      ground (arith, find-place_last p le x (sort_by le xs), find-sort_none p le xs)

  -- all elements are such
  abbrev pub Every : (A → Type 0) → List A → Type 0
  Every P [] = Unit {0}
  Every P (x ∷ xs) = P x × Every P xs

  place_by-Every :
      (P : A → Type 0) (le : A → A → Bool) (a : A) (xs : List A)
      → P a
      → Every P xs
      → Every P (place_by le a xs)
  unfolding place_by
  place_by-Every P le a [] k h = (k, tt)
  place_by-Every P le a (x ∷ xs) k h = elim (Bool-cases (le a x)) [
    | inl e ↦ rw e (k, h)
    | inr e ↦ rw e (h.0, place_by-Every P le a xs k h.1)
  ]

  pub sort_by-Every :
      (P : A → Type 0) (le : A → A → Bool) (xs : List A) → Every P xs → Every P (sort_by le xs)
  unfolding sort_by
  sort_by-Every P le [] h = tt
  sort_by-Every P le (x ∷ xs) h =
      place_by-Every P le x (sort_by le xs) h.0 (sort_by-Every P le xs h.1)

  dedup_by_after-Every :
      (P : A → Type 0) (same : A → A → Bool) (a : A) (xs : List A)
      → Every P xs
      → Every P (dedup_by_after same a xs)
  unfolding dedup_by_after
  dedup_by_after-Every P same a [] h = tt
  dedup_by_after-Every P same a (x ∷ xs) h = elim (Bool-cases (same x a)) [
    | inl e ↦ rw (e, dedup_by_after) (dedup_by_after-Every P same a xs h.1)
    | inr e ↦ rw (e, dedup_by_after) (h.0, dedup_by_after-Every P same x xs h.1)
  ]

  pub dedup_by-Every :
      (P : A → Type 0) (same : A → A → Bool) (xs : List A) → Every P xs → Every P (dedup_by same xs)
  unfolding dedup_by
  dedup_by-Every P same [] h = tt
  dedup_by-Every P same (x ∷ xs) h = (h.0, dedup_by_after-Every P same x xs h.1)
