-- ===== src/Base/NormalForm.antt =====
-- Strictly ascending vectors are normal forms: sets with the same elements have the same one.
use open_broadcast_intercom.Base.Tests.{Bool-cases}
use open_broadcast_intercom.Base.Lists.{contains}
use open_broadcast_intercom.Base.Sorted.{
  Ord, mem, sorted_unique, Climbs, IsStrict, sorted_unique-IsStrict, mem-sorted_unique,
}
use mathlib.Core.Path.{◌≡◌, refl, sym, ap, ◌∙◌}
use mathlib.Core.Logic.{inl, inr}
use mathlib.Core.Bool.{true, false}
use mathlib.Core.List.{List, [], ◌∷◌}
use native.Mathlib.Omega.{arith}

module _ {ℓ} {A : Type ℓ} (o : Ord A) where
  open o use {le, beq, beq_iff, total, trans, antisym}

  -- What lies behind a strict start is above it.
  Climbs-above :
      (a : A) (xs : List A) (b : A)
      → Climbs o a xs
      → mem o xs b ≡ true
      → (le a b ≡ true) × (beq a b ≡ false)
  unfolding contains
  Climbs-above a [] b s h = cc
  Climbs-above a (x ∷ xs) b s h =
      ground (
        arith,
        Climbs-above x xs b,
        beq_iff x b,
        beq_iff a b,
        beq_iff a x,
        trans a x b,
        antisym a x,
      )

  pub Climbs-not-mem : (a : A) (xs : List A) → Climbs o a xs → mem o xs a ≡ false
  Climbs-not-mem a xs s = elim (Bool-cases (mem o xs a)) [
    | inl h ↦ ground (arith, Climbs-above a xs a s h, beq_iff a a)
    | inr h ↦ h
  ]

  pub Climbs-IsStrict : (a : A) (xs : List A) → Climbs o a xs → IsStrict o xs
  Climbs-IsStrict a [] s = tt
  Climbs-IsStrict a (x ∷ xs) s = s.2

  heads_agree :
      (x : A) (xs : List A) (y : A) (ys : List A)
      → Climbs o x xs
      → Climbs o y ys
      → ((a : A) → mem o (x ∷ xs) a ≡ mem o (y ∷ ys) a)
      → x ≡ y
  unfolding contains
  heads_agree x xs y ys s t h = ground (
    arith,
    h x,
    h y,
    beq_iff x x,
    beq_iff y y,
    beq_iff y x,
    beq_iff x y,
    antisym x y,
    Climbs-above x xs y s,
    Climbs-above y ys x t,
  )

  tails_agree :
      (x : A) (xs ys : List A)
      → Climbs o x xs
      → Climbs o x ys
      → ((a : A) → mem o (x ∷ xs) a ≡ mem o (x ∷ ys) a)
      → (a : A) → mem o xs a ≡ mem o ys a
  unfolding contains
  tails_agree x xs ys s t h a = elim (Bool-cases (beq x a)) [
    | inl e ↦ rw (← (beq_iff x a).0 e) (Climbs-not-mem x xs s ∙ sym (Climbs-not-mem x ys t))
    | inr e ↦ ground (arith, h a)
  ]

  -- Strictly ascending vectors with the same elements are equal.
  pub strict_ext :
      (xs ys : List A)
      → IsStrict o xs
      → IsStrict o ys
      → ((a : A) → mem o xs a ≡ mem o ys a)
      → xs ≡ ys
  strict_ext [] [] s t h = refl
  strict_ext [] (y ∷ ys) s t h = unfold contains in ground (arith, h y, beq_iff y y)
  strict_ext (x ∷ xs) [] s t h = unfold contains in ground (arith, h x, beq_iff x x)
  strict_ext (x ∷ xs) (y ∷ ys) s t h =
      let e = heads_agree x xs y ys s t h in
      let t' : Climbs o x ys = rw e t in
      let h' : (a : A) → mem o (x ∷ xs) a ≡ mem o (x ∷ ys) a = rw (← e) at h in
      rw (← e) (
        ap (◌∷◌ x) (
          strict_ext xs ys (Climbs-IsStrict x xs s) (Climbs-IsStrict x ys t')
            (tails_agree x xs ys s t' h')))

  -- The normal form of vectors with the same elements is the same.
  pub sorted_unique_ext :
      (xs ys : List A)
      → ((a : A) → mem o xs a ≡ mem o ys a)
      → sorted_unique o xs ≡ sorted_unique o ys
  sorted_unique_ext xs ys h =
      strict_ext (sorted_unique o xs) (sorted_unique o ys) (sorted_unique-IsStrict o xs)
        (sorted_unique-IsStrict o ys)
        λ a. mem-sorted_unique o xs a ∙ h a ∙ sym (mem-sorted_unique o ys a)

  -- A strictly ascending vector is its own normal form.
  pub sorted_unique_strict : (xs : List A) → IsStrict o xs → sorted_unique o xs ≡ xs
  sorted_unique_strict xs s =
      strict_ext (sorted_unique o xs) xs (sorted_unique-IsStrict o xs) s (mem-sorted_unique o xs)

  pub sorted_unique_twice :
      (xs : List A) → sorted_unique o (sorted_unique o xs) ≡ sorted_unique o xs
  sorted_unique_twice xs = sorted_unique_strict (sorted_unique o xs) (sorted_unique-IsStrict o xs)
