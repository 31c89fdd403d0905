-- ===== src/Base/Map.antt =====
-- `HashMap` with small integer keys. The order of the entries stands for the map's order of
-- iteration, which the program sorts away wherever a result could show it.
use open_broadcast_intercom.Base.Tests.{◌==◌, nat_eq, if◌then◌else◌}
use open_broadcast_intercom.Base.Lists.{contains}
use Prim.Native.Nat.{ℕ}
use mathlib.Core.Path.{◌≡◌, refl}
use mathlib.Core.Bool.{Bool, true, false, ◌||◌}
use mathlib.Core.Option
use mathlib.Core.Option.{Option, none, some}
use mathlib.Core.List.{List, [], ◌∷◌}
use native.Mathlib.Omega.{arith}

abbrev pub Map {ℓ} : Type ℓ → Type ℓ
Map V = List (ℕ × V)

module _ {ℓ} {V : Type ℓ} where
  -- `get(&k)`
  unfoldable pub get : Map V → ℕ → Option V
  get [] k = none
  get ((j, v) ∷ m) k = if j == k then some v else get m k

  unfoldable pub contains_key : Map V → ℕ → Bool
  contains_key [] k = false
  contains_key ((j, v) ∷ m) k = j == k || contains_key m k

  unfoldable pub keys : Map V → List ℕ
  keys [] = []
  keys ((j, v) ∷ m) = j ∷ keys m

  -- `insert(k, v)`
  unfoldable pub insert : Map V → ℕ → V → Map V
  insert [] k v = (k, v) ∷ []
  insert ((j, w) ∷ m) k v = let rest = insert m k v in if j == k then (k, v) ∷ m else (j, w) ∷ rest

  -- `remove(&k)`
  unfoldable pub remove : Map V → ℕ → Map V
  remove [] k = []
  remove ((j, w) ∷ m) k = let rest = remove m k in if j == k then rest else (j, w) ∷ rest

  -- `if let Some(v) = m.get_mut(&k) { *v = f(v) }`
  unfoldable pub modify : Map V → ℕ → (V → V) → Map V
  modify [] k f = []
  modify ((j, w) ∷ m) k f =
      let rest = modify m k f in if j == k then (j, f w) ∷ rest else (j, w) ∷ rest

  -- `entry(k).or_insert_with(v)`
  unfoldable pub or_insert : Map V → ℕ → V → Map V
  unfolding contains_key insert
  or_insert m k v = if contains_key m k then m else insert m k v

  pub get-insert :
      (m : Map V) (k j : ℕ) (v : V) → get (insert m k v) j ≡ (if k == j then some v else get m j)
  unfolding get insert
  get-insert [] k j v = refl
  get-insert ((i, w) ∷ m) k j v = ground (arith, get-insert m k j v)

  pub get-remove : (m : Map V) (k j : ℕ) → get (remove m k) j ≡ (if k == j then none else get m j)
  unfolding get remove
  get-remove [] k j = ground arith
  get-remove ((i, w) ∷ m) k j = ground (arith, get-remove m k j)

  pub get-modify :
      (m : Map V) (k j : ℕ) (f : V → V)
      → get (modify m k f) j ≡ (if k == j then Option.map f (get m j) else get m j)
  unfolding get modify
  get-modify [] k j f = ground arith
  get-modify ((i, w) ∷ m) k j f = ground (arith, get-modify m k j f)

  pub contains_key-get :
      (m : Map V) (k : ℕ) → contains_key m k ≡ elim (get m k) [ none ↦ false | some _ ↦ true ]
  unfolding get contains_key
  contains_key-get [] k = refl
  contains_key-get ((i, w) ∷ m) k = ground (arith, contains_key-get m k)

  pub get-or_insert :
      (m : Map V) (k j : ℕ) (v : V)
      → get (or_insert m k v) j
        ≡ (if contains_key m k then get m j else if k == j then some v else get m j)
  unfolding or_insert
  get-or_insert m k j v = ground (arith, get-insert m k j v)

  pub keys-modify : (m : Map V) (k : ℕ) (f : V → V) → keys (modify m k f) ≡ keys m
  unfolding keys modify
  keys-modify [] k f = refl
  keys-modify ((i, w) ∷ m) k f = ground (arith, keys-modify m k f)

  pub contains-keys : (m : Map V) (k : ℕ) → contains (keys m) k ≡ contains_key m k
  unfolding keys contains contains_key
  contains-keys [] k = refl
  contains-keys ((i, w) ∷ m) k = ground (arith, contains-keys m k)

pub ruleset map_laws = (get-insert, get-remove, get-modify, contains_key-get, get-or_insert)
