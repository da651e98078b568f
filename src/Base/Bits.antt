-- ===== src/Base/Bits.antt =====
-- The bitwise "and" of a number with a mask below a power of two.
use Prim.Native.Nat.{
  ℕ, zero, suc, ◌+◌, ◌*◌, ◌/◌, ◌%◌, ◌≤◌, ◌<◌, min, bit_and, digits, bit_and-bitwise,
}
use mathlib.Core.Path.{◌≡◌, refl, ◌∙◌, sym}
use mathlib.Core.Bool.{Bool, true, ◌&&◌}
use native.Mathlib.Omega.{arith}

-- What `bit_and` computes, where it looks at `n` digits.
abbrev and_of : ℕ → ℕ → ℕ → ℕ
and_of n a b = digits (λ y. zero) min n a b

and_of-zero : (n a : ℕ) → and_of n a 0 ≡ 0
and_of-zero zero a = refl
and_of-zero (suc n) zero = refl
and_of-zero (suc n) (suc a) = omega (arith, and_of-zero n (suc a / 2))

-- Digits beyond those of the number change nothing.
and_of-enough : (n k a b : ℕ) → a ≤ n → a ≤ k → and_of n a b ≡ and_of k a b
and_of-enough zero zero a b h g = refl
and_of-enough zero (suc k) zero b h g = refl
and_of-enough zero (suc k) (suc a) b h g = absurd (omega arith)
and_of-enough (suc n) zero zero b h g = refl
and_of-enough (suc n) (suc k) zero b h g = refl
and_of-enough (suc n) zero (suc a) b h g = absurd (omega arith)
and_of-enough (suc n) (suc k) (suc a) b h g =
    omega (arith, and_of-enough n k (suc a / 2) (b / 2) (omega arith) (omega arith))

zero-bit_and : (b : ℕ) → bit_and 0 b ≡ 0
zero-bit_and b = bit_and-bitwise 0 b

-- The lowest digit and the others.
bit_and_digits : (a b : ℕ) → bit_and a b ≡ bit_and (a / 2) (b / 2) * 2 + min (a % 2) (b % 2)
bit_and_digits zero b = omega (arith, zero-bit_and b, zero-bit_and (b / 2))
bit_and_digits (suc a) b = omega (
  arith,
  bit_and-bitwise (suc a) b,
  bit_and-bitwise (suc a / 2) (b / 2),
  and_of-enough a (suc a / 2) (suc a / 2) (b / 2) (omega arith) (omega arith),
)

-- A mask below `m` sees the digits below `m` alone.
abbrev SeesLow : ℕ → Type 0
SeesLow m = (a b : ℕ) → b < m → bit_and a b ≡ bit_and (a % m) b

SeesLow-one : SeesLow 1
SeesLow-one a b h =
    let none : b ≡ 0 = omega arith in
    rw none (
      bit_and-bitwise a 0
      ∙ and_of-zero a a
      ∙ sym (bit_and-bitwise (a % 1) 0 ∙ and_of-zero (a % 1) (a % 1)))

SeesLow-double :
    (m : ℕ)
    → ((a : ℕ) → a % (m * 2) / 2 ≡ a / 2 % m)
    → ((a : ℕ) → a % (m * 2) % 2 ≡ a % 2)
    → SeesLow m
    → SeesLow (m * 2)
SeesLow-double m halves keeps low a b h =
    bit_and_digits a b
    ∙ rw (low (a / 2) (b / 2) (omega arith), sym (halves a), sym (keeps a))
        (sym (bit_and_digits (a % (m * 2)) b))

pub bit_and-mod_64 : (a b : ℕ) → b < 64 → bit_and a b ≡ bit_and (a % 64) b
bit_and-mod_64 =
    SeesLow-double 32 (λ a. omega arith) (λ a. omega arith)
      (SeesLow-double 16 (λ a. omega arith) (λ a. omega arith)
        (SeesLow-double 8 (λ a. omega arith) (λ a. omega arith)
          (SeesLow-double 4 (λ a. omega arith) (λ a. omega arith)
            (SeesLow-double 2 (λ a. omega arith) (λ a. omega arith)
              (SeesLow-double 1 (λ a. omega arith) (λ a. omega arith) SeesLow-one)))))

-- A test that every number below a bound passes.
unfoldable pub every_below : ℕ → (ℕ → Bool) → Bool
every_below zero test = true
every_below (suc n) test = let rest = every_below n test in test n && rest

pub every_below_lem :
    (n : ℕ) (test : ℕ → Bool) (a : ℕ) → every_below n test ≡ true → a < n → test a ≡ true
unfolding every_below
every_below_lem zero test a h below = absurd (omega arith)
every_below_lem (suc n) test a h below = ground (arith, every_below_lem n test a)
