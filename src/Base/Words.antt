-- ===== src/Base/Words.antt =====
-- Machine words as native numbers, and their big-endian bytes.
use Prim.Native.Nat.{ℕ, ◌+◌, ◌*◌, ◌/◌, ◌%◌, ◌^◌, ◌<◌}
use mathlib.Core.Path.{◌≡◌}
use mathlib.Core.List.{[], ◌∷◌}
use native.Mathlib.Omega.{arith}
use arcticwolf.Base.Text.{Bytes}

-- `u32::to_be_bytes`
unfoldable pub be32 : ℕ → Bytes
be32 x = x / 0x1000000 % 256 ∷ x / 0x10000 % 256 ∷ x / 256 % 256 ∷ x % 256 ∷ []

-- `u32::from_be_bytes`
unfoldable pub of_be32 : ℕ → ℕ → ℕ → ℕ → ℕ
of_be32 a b c d = a * 0x1000000 + b * 0x10000 + c * 256 + d

-- `u64::to_be_bytes`
unfoldable pub be64 : ℕ → Bytes
be64 x =
    x / 0x100000000000000 % 256
    ∷ x / 0x1000000000000 % 256
    ∷ x / 0x10000000000 % 256
    ∷ x / 0x100000000 % 256
    ∷ x / 0x1000000 % 256
    ∷ x / 0x10000 % 256
    ∷ x / 256 % 256
    ∷ x % 256
    ∷ []

pub of_be32_be32 :
    (x : ℕ)
    → x < 2 ^ 32
    → of_be32 (x / 0x1000000 % 256) (x / 0x10000 % 256) (x / 256 % 256) (x % 256) ≡ x
unfolding of_be32
of_be32_be32 x h = omega arith

-- The number that big-endian bytes stand for, after the bytes read before.
unfoldable pub of_be : ℕ → Bytes → ℕ
of_be acc [] = acc
of_be acc (b ∷ bs) = of_be (acc * 256 + b) bs

pub of_be-be64 : (x : ℕ) → x < 2 ^ 64 → of_be 0 (be64 x) ≡ x
unfolding of_be be64
of_be-be64 x h = omega arith
