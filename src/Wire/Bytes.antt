-- ===== src/Wire/Bytes.antt =====
-- `to_be_bytes` and `from_be_bytes` of `u16` and `u32`.
use open_broadcast_intercom.Base.{ℕ, ◌+◌, ◌*◌, ◌/◌, ◌%◌, ◌^◌, ◌<◌, ◌≡◌, List, [], ◌∷◌, arith}

abbrev pub be16 : ℕ → List ℕ
be16 n = (n / 256 % 256) ∷ (n % 256) ∷ []

abbrev pub be32 : ℕ → List ℕ
be32 n = (n / 2 ^ 24 % 256) ∷ (n / 2 ^ 16 % 256) ∷ (n / 256 % 256) ∷ (n % 256) ∷ []

unfoldable pub from_be16 : ℕ → ℕ → ℕ
from_be16 a b = a * 256 + b

unfoldable pub from_be32 : ℕ → ℕ → ℕ → ℕ → ℕ
from_be32 a b c d = a * 2 ^ 24 + b * 2 ^ 16 + c * 256 + d

pub from_be16-be16 : (n : ℕ) → n < 65_536 → from_be16 (n / 256 % 256) (n % 256) ≡ n
unfolding from_be16
from_be16-be16 n h = omega arith

pub from_be32-be32 :
    (n : ℕ)
    → n < 2 ^ 32
    → from_be32 (n / 2 ^ 24 % 256) (n / 2 ^ 16 % 256) (n / 256 % 256) (n % 256) ≡ n
unfolding from_be32
from_be32-be32 n h = omega arith

pub be16-from_be16 :
    (a b : ℕ)
    → a < 256
    → b < 256
    → (from_be16 a b / 256 % 256 ≡ a) × (from_be16 a b % 256 ≡ b) × (from_be16 a b < 65_536)
unfolding from_be16
be16-from_be16 a b h k = omega arith

pub be32-from_be32 :
    (a b c d : ℕ)
    → a < 256
    → b < 256
    → c < 256
    → d < 256
    → (from_be32 a b c d / 2 ^ 24 % 256 ≡ a)
      × (from_be32 a b c d / 2 ^ 16 % 256 ≡ b)
      × (from_be32 a b c d / 256 % 256 ≡ c)
      × (from_be32 a b c d % 256 ≡ d)
      × (from_be32 a b c d < 2 ^ 32)
unfolding from_be32
be32-from_be32 a b c d h i j k = omega arith
