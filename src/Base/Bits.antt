-- ===== src/Base/Bits.antt =====
-- Masks and shifts as arithmetic, for the masks that the macros of utils.h use.
use Prim.Native.Nat.{
  ℕ, zero, suc, ◌+◌, ◌*◌, ◌/◌, ◌%◌, ◌≤◌, ◌<◌, min, max, bit_and, bit_or, digits, bit_and-bitwise,
  bit_or-bitwise,
}
use mathlib.Core.Path.{◌≡◌, refl}
use native.Mathlib.Omega.{arith}

-- The digit recursion that the native operations stand for does not depend on spare rounds.
module _ (pad : ℕ → ℕ) (f : ℕ → ℕ → ℕ) where
  fuel_lem : (n m a b : ℕ) → a ≤ n → a ≤ m → digits pad f n a b ≡ digits pad f m a b
  fuel_lem zero zero a b p q = refl
  fuel_lem zero (suc m) zero b p q = refl
  fuel_lem zero (suc m) (suc a) b p q = absurd (omega arith)
  fuel_lem (suc n) zero zero b p q = refl
  fuel_lem (suc n) zero (suc a) b p q = absurd (omega arith)
  fuel_lem (suc n) (suc m) zero b p q = refl
  fuel_lem (suc n) (suc m) (suc a) b p q =
      omega (arith, fuel_lem n m (suc a / 2) (b / 2) (omega arith) (omega arith))

bit_and-zero_left : (b : ℕ) → bit_and 0 b ≡ 0
bit_and-zero_left b = bit_and-bitwise 0 b

bit_or-zero_left : (b : ℕ) → bit_or 0 b ≡ b
bit_or-zero_left b = bit_or-bitwise 0 b

-- One binary digit of a conjunction.
bit_and-digit : (a b : ℕ) → bit_and a b ≡ bit_and (a / 2) (b / 2) * 2 + min (a % 2) (b % 2)
bit_and-digit zero b = omega (arith, bit_and-zero_left b, bit_and-zero_left (b / 2))
bit_and-digit (suc a) b = omega (
  arith,
  bit_and-bitwise (suc a) b,
  bit_and-bitwise (suc a / 2) (b / 2),
  fuel_lem (λ c. zero) min a (suc a / 2) (suc a / 2) (b / 2) (omega arith) (omega arith),
)

-- One binary digit of a disjunction.
bit_or-digit : (a b : ℕ) → bit_or a b ≡ bit_or (a / 2) (b / 2) * 2 + max (a % 2) (b % 2)
bit_or-digit zero b = omega (arith, bit_or-zero_left b, bit_or-zero_left (b / 2))
bit_or-digit (suc a) b = omega (
  arith,
  bit_or-bitwise (suc a) b,
  bit_or-bitwise (suc a / 2) (b / 2),
  fuel_lem (λ c. c) max a (suc a / 2) (suc a / 2) (b / 2) (omega arith) (omega arith),
)

-- Four digits at once: a mask with a hexadecimal digit 0, and one with the digit f.
and_even : (a m : ℕ) → bit_and a (2 * m) ≡ 2 * bit_and (a / 2) m
and_even a m = rw (bit_and-digit a (2 * m), half) (omega arith)
  where
    half : 2 * m / 2 ≡ m
    half = omega arith

and_odd : (a m : ℕ) → bit_and a (2 * m + 1) ≡ 2 * bit_and (a / 2) m + a % 2
and_odd a m = rw (bit_and-digit a (2 * m + 1), half) (omega arith)
  where
    half : (2 * m + 1) / 2 ≡ m
    half = omega arith

quarters : (a : ℕ) → a / 2 / 2 / 2 / 2 ≡ a / 16
quarters a = omega arith

pub and_nibble_zero : (a m : ℕ) → bit_and a (16 * m) ≡ 16 * bit_and (a / 16) m
and_nibble_zero a m =
    rw (regroup, ← quarters a)
      (omega (
        arith,
        and_even a (2 * (2 * (2 * m))),
        and_even (a / 2) (2 * (2 * m)),
        and_even (a / 2 / 2) (2 * m),
        and_even (a / 2 / 2 / 2) m,
      ))
  where
    regroup : 16 * m ≡ 2 * (2 * (2 * (2 * m)))
    regroup = omega arith

pub and_nibble_f : (a m : ℕ) → bit_and a (16 * m + 15) ≡ 16 * bit_and (a / 16) m + a % 16
and_nibble_f a m =
    rw (regroup, ← quarters a)
      (omega (
        arith,
        and_odd a (2 * (2 * (2 * m + 1) + 1) + 1),
        and_odd (a / 2) (2 * (2 * m + 1) + 1),
        and_odd (a / 2 / 2) (2 * m + 1),
        and_odd (a / 2 / 2 / 2) m,
      ))
  where
    regroup : 16 * m + 15 ≡ 2 * (2 * (2 * (2 * m + 1) + 1) + 1) + 1
    regroup = omega arith

and-zero_fuel : (n a : ℕ) → a ≤ n → bit_and a 0 ≡ 0
and-zero_fuel n zero h = refl
and-zero_fuel zero (suc a) h = absurd (omega arith)
and-zero_fuel (suc n) (suc a) h =
    omega (arith, bit_and-digit (suc a) 0, and-zero_fuel n (suc a / 2) (omega arith))

pub bit_and-zero : (a : ℕ) → bit_and a 0 ≡ 0
bit_and-zero a = and-zero_fuel a a (omega arith)

or-zero_fuel : (n a : ℕ) → a ≤ n → bit_or a 0 ≡ a
or-zero_fuel n zero h = refl
or-zero_fuel zero (suc a) h = absurd (omega arith)
or-zero_fuel (suc n) (suc a) h =
    omega (arith, bit_or-digit (suc a) 0, or-zero_fuel n (suc a / 2) (omega arith))

bit_or-zero : (a : ℕ) → bit_or a 0 ≡ a
bit_or-zero a = or-zero_fuel a a (omega arith)

or_even : (a b : ℕ) → bit_or (2 * a) b ≡ 2 * bit_or a (b / 2) + b % 2
or_even a b = rw (bit_or-digit (2 * a) b, half) (omega arith)
  where
    half : 2 * a / 2 ≡ a
    half = omega arith

or_nibble : (a b : ℕ) → bit_or (16 * a) b ≡ 16 * bit_or a (b / 16) + b % 16
or_nibble a b =
    rw (regroup, ← quarters b)
      (omega (
        arith,
        or_even (2 * (2 * (2 * a))) b,
        or_even (2 * (2 * a)) (b / 2),
        or_even (2 * a) (b / 2 / 2),
        or_even a (b / 2 / 2 / 2),
      ))
  where
    regroup : 16 * a ≡ 2 * (2 * (2 * (2 * a)))
    regroup = omega arith

-- A value above bit 16 and one below it: the disjunction is the sum.
pub or_disjoint : (a b : ℕ) → b < 65536 → bit_or (65536 * a) b ≡ 65536 * a + b
or_disjoint a b h = rw (regroup) (
    omega (
      arith,
      or_nibble (16 * (16 * (16 * a))) b,
      or_nibble (16 * (16 * a)) (b / 16),
      or_nibble (16 * a) (b / 16 / 16),
      or_nibble a (b / 16 / 16 / 16),
      top,
    ))
  where
    regroup : 65536 * a ≡ 16 * (16 * (16 * (16 * a)))
    regroup = omega arith

    top : bit_or a (b / 16 / 16 / 16 / 16) ≡ a
    top = let e : b / 16 / 16 / 16 / 16 ≡ 0 = omega arith in rw e (bit_or-zero a)
