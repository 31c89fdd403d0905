-- ===== src/Base/Sorted.antt =====
-- `sort_unstable`, `sort_by_key` and `dedup`: a sorted vector without repetitions is a normal form
-- of a set.
use open_broadcast_intercom.Base.Tests.{Eq, nat_beq, nat_beq_iff, leb, if◌then◌else◌, Bool-cases}
use open_broadcast_intercom.Base.Lists.{contains}
use Prim.Native.Nat.{ℕ}
use mathlib.Core.Path.{◌≡◌, refl, ◌∙◌}
use mathlib.Core.Logic.{◌↔◌, inl, inr}
use mathlib.Core.Bool.{Bool, true, false, ◌||◌}
use mathlib.Core.List.{List, [], ◌∷◌}
use native.Mathlib.Omega.{arith}

-- The order of the sort, with the laws that `Ord` promises.
pub record IsLinear {ℓ} {A : Type ℓ} (le : A → A → Bool) : Type ℓ where
  pub total : (a b : A) → le a b ≡ false → le b a ≡ true
  pub trans : (a b c : A) → le a b ≡ true → le b c ≡ true → le a c ≡ true
  pub antisym : (a b : A) → le a b ≡ true → le b a ≡ true → a ≡ b

pub record Ord {ℓ} (A : Type ℓ) : Type ℓ where
  pub le : A → A → Bool
  pub beq : A → A → Bool
  pub beq_iff : (a b : A) → (beq a b ≡ true) ↔ (a ≡ b)
  pub linear : IsLinear le
  pub open linear use *

-- An order has an equality.
abbrev pub eq_of_ord {ℓ} : {A : Type ℓ} → Ord A → Eq A
eq_of_ord o = record { beq = o.beq; beq_iff = o.beq_iff }

pub leb-IsLinear : IsLinear leb
leb-IsLinear = ground arith

abbrev pub nat_ord : Ord ℕ
nat_ord = record { le = leb; beq = nat_beq; beq_iff = nat_beq_iff; linear = leb-IsLinear }

module _ {ℓ} {A : Type ℓ} (o : Ord A) where
  open o use {le, beq, beq_iff, total, trans, antisym}

  place : A → List A → List A
  place a [] = a ∷ []
  place a (x ∷ xs) = let rest = place a xs in if le a x then a ∷ x ∷ xs else x ∷ rest

  -- `sort_unstable()`, or `sort_by_key` where the key determines the element
  unfoldable pub sort : List A → List A
  unfolding place
  sort [] = []
  sort (x ∷ xs) = place x (sort xs)

  -- the rest of a vector behind an element that stays
  dedup_after : A → List A → List A
  dedup_after a [] = []
  dedup_after a (x ∷ xs) = elim (beq a x) [ true ↦ dedup_after a xs | false ↦ x ∷ dedup_after x xs ]

  unfoldable pub dedup : List A → List A
  unfolding dedup_after
  dedup [] = []
  dedup (x ∷ xs) = x ∷ dedup_after x xs

  -- `v.sort_unstable(); v.dedup();`
  unfoldable pub sorted_unique : List A → List A
  unfolding sort dedup
  sorted_unique xs = dedup (sort xs)

  -- `contains`, by the order's equality
  abbrev pub mem : List A → A → Bool
  mem xs a = contains ⦃e = eq_of_ord o⦄ xs a

  mem-place : (a : A) (xs : List A) (b : A) → mem (place a xs) b ≡ (beq a b || mem xs b)
  unfolding contains place
  mem-place a [] b = refl
  mem-place a (x ∷ xs) b = ground (arith, mem-place a xs b)

  pub mem-sort : (xs : List A) (b : A) → mem (sort xs) b ≡ mem xs b
  unfolding contains sort
  mem-sort [] b = refl
  mem-sort (x ∷ xs) b = ground (arith, mem-place x (sort xs) b, mem-sort xs b)

  mem-dedup_after :
      (a : A) (xs : List A) (b : A) → (beq a b || mem (dedup_after a xs) b) ≡ (beq a b || mem xs b)
  unfolding contains dedup_after
  mem-dedup_after a [] b = refl
  mem-dedup_after a (x ∷ xs) b =
      ground (arith, beq_iff a x, mem-dedup_after a xs b, mem-dedup_after x xs b)

  pub mem-dedup : (xs : List A) (b : A) → mem (dedup xs) b ≡ mem xs b
  unfolding dedup contains
  mem-dedup [] b = refl
  mem-dedup (x ∷ xs) b = mem-dedup_after x xs b

  -- Sorting and deduplication keep exactly the elements.
  pub mem-sorted_unique : (xs : List A) (b : A) → mem (sorted_unique xs) b ≡ mem xs b
  unfolding sorted_unique
  mem-sorted_unique xs b = mem-dedup (sort xs) b ∙ mem-sort xs b

  -- every element is at least `a`, and they ascend
  abbrev Ascends : A → List A → Type 0
  Ascends a [] = Unit {0}
  Ascends a (x ∷ xs) = (le a x ≡ true) × Ascends x xs

  -- every element is above `a`, and they ascend strictly
  abbrev pub Climbs : A → List A → Type 0
  Climbs a [] = Unit {0}
  Climbs a (x ∷ xs) = (le a x ≡ true) × (beq a x ≡ false) × Climbs x xs

  abbrev IsSorted : List A → Type 0
  IsSorted [] = Unit {0}
  IsSorted (x ∷ xs) = Ascends x xs

  -- strictly ascending
  abbrev pub IsStrict : List A → Type 0
  IsStrict [] = Unit {0}
  IsStrict (x ∷ xs) = Climbs x xs

  place-Ascends : (b a : A) (xs : List A) → le b a ≡ true → Ascends b xs → Ascends b (place a xs)
  unfolding place
  place-Ascends b a [] h s = (h, tt)
  place-Ascends b a (x ∷ xs) h s = ground (arith, total a x, place-Ascends x a xs)

  place-IsSorted : (a : A) (xs : List A) → IsSorted xs → IsSorted (place a xs)
  unfolding place
  place-IsSorted a [] s = tt
  place-IsSorted a (x ∷ xs) s = ground (arith, total a x, place-Ascends x a xs)

  sort-IsSorted : (xs : List A) → IsSorted (sort xs)
  unfolding sort
  sort-IsSorted [] = tt
  sort-IsSorted (x ∷ xs) = place-IsSorted x (sort xs) (sort-IsSorted xs)

  dedup_after-Climbs : (a : A) (xs : List A) → Ascends a xs → Climbs a (dedup_after a xs)
  unfolding dedup_after
  dedup_after-Climbs a [] s = tt
  dedup_after-Climbs a (x ∷ xs) s = elim (Bool-cases (beq a x)) [
    | inl same ↦ rw (same, dedup_after) (dedup_after-Climbs a xs (rw ((beq_iff a x).0 same) s.1))
    | inr other ↦ rw (other, dedup_after) (s.0, other, dedup_after-Climbs x xs s.1)
  ]

  -- The normal form is strictly ascending.
  pub sorted_unique-IsStrict : (xs : List A) → IsStrict (sorted_unique xs)
  unfolding sorted_unique dedup
  sorted_unique-IsStrict xs = go (sort xs) (sort-IsSorted xs)
    where
      go : (ys : List A) → IsSorted ys → IsStrict (dedup ys)
      go [] s = tt
      go (y ∷ ys) s = dedup_after-Climbs y ys s
