-- ===== src/Base/Lists.antt =====
-- `Vec` and slices as lists: the operations over the native numbers, and their laws.
use Prim.Native.Nat.{ℕ, zero, suc, ◌+◌, ◌-◌, ◌≤◌}
use mathlib.Core.Path.{◌≡◌, refl}
use mathlib.Core.Bool.{Bool, true, false, not, ◌||◌}
use mathlib.Core.Option.{Option, none, some}
use mathlib.Core.List.{List, [], ◌∷◌, ◌++◌}
use native.Mathlib.Omega.{arith}
use open_broadcast_intercom.Base.Tests.{Eq, ◌==◌, if◌then◌else◌}

module _ {ℓ} {A : Type ℓ} where
  abbrev pub length : List A → ℕ
  length [] = 0
  length (x ∷ xs) = suc (length xs)

  abbrev pub get_elem? : List A → ℕ → Option A
  get_elem? [] i = none
  get_elem? (x ∷ xs) zero = some x
  get_elem? (x ∷ xs) (suc i) = get_elem? xs i

  abbrev pub take : ℕ → List A → List A
  take zero xs = []
  take (suc n) [] = []
  take (suc n) (x ∷ xs) = x ∷ take n xs

  -- `drain(..n)` leaves this
  abbrev pub drop : ℕ → List A → List A
  drop zero xs = xs
  drop (suc n) [] = []
  drop (suc n) (x ∷ xs) = drop n xs

  -- `iter().filter(p)`, `retain(p)`
  unfoldable pub filter : (A → Bool) → List A → List A
  filter p [] = []
  filter p (x ∷ xs) = let rest = filter p xs in if p x then x ∷ rest else rest

  -- `iter().any(p)`
  unfoldable pub any : (A → Bool) → List A → Bool
  any p [] = false
  any p (x ∷ xs) = p x || any p xs

  -- `iter().find(p)`
  unfoldable pub find : (A → Bool) → List A → Option A
  find p [] = none
  find p (x ∷ xs) = if p x then some x else find p xs

  -- the first element that passes, changed by `f`: `if let Some(x) = iter_mut().find(p) { *x = f(x) }`
  unfoldable pub update_first : (A → Bool) → (A → A) → List A → List A
  update_first p f [] = []
  update_first p f (x ∷ xs) = let rest = update_first p f xs in if p x then f x ∷ xs else x ∷ rest

  -- the last element that passes, changed by `f`: the same with `iter_mut().rev().find(p)`
  unfoldable pub update_last : (A → Bool) → (A → A) → List A → List A
  unfolding any
  update_last p f [] = []
  update_last p f (x ∷ xs) =
      let rest = update_last p f xs in
      if any p xs then x ∷ rest else if p x then f x ∷ xs else x ∷ xs

  pub length-append : (xs ys : List A) → length (xs ++ ys) ≡ length xs + length ys
  length-append [] ys = omega arith
  length-append (x ∷ xs) ys = omega (arith, length-append xs ys)

  pub length-drop : (n : ℕ) (xs : List A) → length (drop n xs) ≡ length xs - n
  length-drop zero xs = omega arith
  length-drop (suc n) [] = omega arith
  length-drop (suc n) (x ∷ xs) = omega (arith, length-drop n xs)

  pub drop_all : (xs : List A) → drop (length xs) xs ≡ []
  drop_all [] = refl
  drop_all (x ∷ xs) = drop_all xs

  pub get_elem?-drop : (n i : ℕ) (xs : List A) → get_elem? (drop n xs) i ≡ get_elem? xs (n + i)
  get_elem?-drop zero i xs = ground arith
  get_elem?-drop (suc n) i [] = refl
  get_elem?-drop (suc n) i (x ∷ xs) = ground (arith, get_elem?-drop n i xs)

  pub length-filter-le : (p : A → Bool) (xs : List A) → length (filter p xs) ≤ length xs
  unfolding filter
  length-filter-le p [] = omega arith
  length-filter-le p (x ∷ xs) = ground (arith, length-filter-le p xs)

  pub length-update_first :
      (p : A → Bool) (f : A → A) (xs : List A) → length (update_first p f xs) ≡ length xs
  unfolding update_first
  length-update_first p f [] = refl
  length-update_first p f (x ∷ xs) = ground (arith, length-update_first p f xs)

module _ {ℓ} {A : Type ℓ} where
  pub length-update_last :
      (p : A → Bool) (f : A → A) (xs : List A) → length (update_last p f xs) ≡ length xs
  unfolding update_last
  length-update_last p f [] = refl
  length-update_last p f (x ∷ xs) = ground (arith, length-update_last p f xs)

-- `contains(&x)` of a vector, a slice or a set; `HashSet` is a list without repetitions, which the
-- program never reads in order before it sorts it.
module _ {ℓ} {A : Type ℓ} ⦃e : Eq A⦄ where
  unfoldable pub contains : List A → A → Bool
  contains [] a = false
  contains (x ∷ xs) a = x == a || contains xs a

  -- `HashSet::insert`
  unfoldable pub set_insert : List A → A → List A
  unfolding contains
  set_insert xs a = if contains xs a then xs else a ∷ xs

  -- `HashSet::extend`
  unfoldable pub set_extend : List A → List A → List A
  unfolding set_insert
  set_extend xs [] = xs
  set_extend xs (a ∷ as') = set_extend (set_insert xs a) as'

  -- `HashSet::remove`, for a set without its report
  unfoldable pub set_remove : List A → A → List A
  unfolding filter
  set_remove xs a = filter (λ x. not (x == a)) xs

  pub beq_refl : (a : A) → (a == a) ≡ true
  beq_refl a = (e.beq_iff a a).1 refl

  pub contains-set_insert :
      (xs : List A) (a b : A) → contains (set_insert xs a) b ≡ (a == b || contains xs b)
  unfolding set_insert
  contains-set_insert xs a b = ground (arith, e.beq_iff a b)

  pub contains-append :
      (xs ys : List A) (a : A) → contains (xs ++ ys) a ≡ (contains xs a || contains ys a)
  unfolding contains
  contains-append [] ys a = refl
  contains-append (x ∷ xs) ys a = ground (arith, contains-append xs ys a)

  pub contains-set_extend :
      (xs ys : List A) (b : A) → contains (set_extend xs ys) b ≡ (contains ys b || contains xs b)
  unfolding set_extend
  contains-set_extend xs [] b = refl
  contains-set_extend xs (y ∷ ys) b =
      ground (arith, contains-set_extend (set_insert xs y) ys b, contains-set_insert xs y b)

  pub contains-filter :
      (p : A → Bool) (xs : List A) (a : A)
      → contains (filter p xs) a ≡ (if p a then contains xs a else false)
  unfolding contains filter
  contains-filter p [] a = ground arith
  contains-filter p (x ∷ xs) a = ground (arith, contains-filter p xs a, e.beq_iff x a)

  pub contains-set_remove :
      (xs : List A) (a b : A)
      → contains (set_remove xs a) b ≡ (if b == a then false else contains xs b)
  unfolding set_remove
  contains-set_remove xs a b = ground (arith, contains-filter (λ x. not (x == a)) xs b)
