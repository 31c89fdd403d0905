-- ===== src/Server/Gains.antt =====
-- `f32`: the gains are a parameter, with the constants and operations that the server uses and the
-- documented behaviour of `clamp` on finite numbers.
use open_broadcast_intercom.Base.{◌≡◌, Bool, true}

pub record Gains : Type 1 where
  pub F : Type 0
  pub zero : F
  pub one : F
  -- `DEFAULT_IFB_DUCK_GAIN`
  pub default_duck : F
  pub is_finite : F → Bool
  -- `<=`
  pub le : F → F → Bool
  -- `clamp(lo, hi)` is `clamp x lo hi`
  pub clamp : F → F → F → F
  pub zero-finite : is_finite zero ≡ true
  pub one-finite : is_finite one ≡ true
  pub duck-finite : is_finite default_duck ≡ true
  pub zero-le-one : le zero one ≡ true
  pub zero-le-duck : le zero default_duck ≡ true
  pub duck-le-one : le default_duck one ≡ true
  pub clamp_finite :
      (x lo hi : F)
      → is_finite lo ≡ true
      → is_finite hi ≡ true
      → le lo hi ≡ true
      → is_finite x ≡ true
      → (is_finite (clamp x lo hi) ≡ true)
        × (le lo (clamp x lo hi) ≡ true)
        × (le (clamp x lo hi) hi ≡ true)
  pub clamp_inside : (x lo hi : F) → le lo x ≡ true → le x hi ≡ true → clamp x lo hi ≡ x
