-- ===== src/Prelude/Bits.antt =====
-- Laws of the bit operations at variables, from one equation for the lowest digit.
use Prim.Native.Nat.{
  ℕ, zero, suc, ◌+◌, ◌*◌, ◌/◌, ◌%◌, ◌^◌, ◌≤◌, ◌<◌, max, min, bit_and, bit_or, bit_xor, differ,
  digits, bitwise, bit_and-bitwise, bit_or-bitwise, bit_xor-bitwise,
}
use mathlib.Core.Path.{◌≡◌, refl, ap, sym, ◌∙◌}
use native.Mathlib.Omega.{arith}
use alcatraz.Prelude.Tests.{ltb, ◌==◌, if◌then◌else◌}
use native.Mathlib.Nat.{le_refl}

-- The recursion of `bitwise` does not depend on its fuel.
module _ (z : ℕ → ℕ) (f : ℕ → ℕ → ℕ) where
  fuel_irrelevant : (n m a b : ℕ) → a ≤ n → a ≤ m → digits z f n a b ≡ digits z f m a b
  fuel_irrelevant n m zero b p q = go n m
    where
      at_zero : (k : ℕ) → digits z f k 0 b ≡ z b
      at_zero zero = refl
      at_zero (suc k) = refl

      go : (n m : ℕ) → digits z f n 0 b ≡ digits z f m 0 b
      go n m = at_zero n ∙ sym (at_zero m)
  fuel_irrelevant zero m (suc a) b p q = absurd (omega arith)
  fuel_irrelevant (suc n) zero (suc a) b p q = absurd (omega arith)
  fuel_irrelevant (suc n) (suc m) (suc a) b p q =
      ap (λ (t : ℕ). t * 2 + f (suc a % 2) (b % 2))
        (fuel_irrelevant n m (suc a / 2) (b / 2) (omega arith) (omega arith))

  above_digit : (b a : ℕ) → digits z f a (suc a / 2) (b / 2) ≡ bitwise z f (suc a / 2) (b / 2)
  above_digit b a = fuel_irrelevant a (suc a / 2) (suc a / 2) (b / 2) (omega arith) (le_refl _)

  -- An operation that is such a recursion, with the same equation for the digit 0.
  module _ (op : ℕ → ℕ → ℕ) (h : (a b : ℕ) → op a b ≡ bitwise z f a b) where
    lowest_digit :
        ((b : ℕ) → z b ≡ z (b / 2) * 2 + f 0 (b % 2))
        → (a b : ℕ) → op a b ≡ op (a / 2) (b / 2) * 2 + f (a % 2) (b % 2)
    lowest_digit at_zero zero b = rw (h 0 b) (rw (h 0 (b / 2)) (at_zero b))
    lowest_digit at_zero (suc a) b = rw (h (suc a) b) (
        rw (h (suc a / 2) (b / 2))
          (ap (λ (t : ℕ). t * 2 + f (suc a % 2) (b % 2)) (above_digit b a)))

pub bit_and_step : (a b : ℕ) → bit_and a b ≡ bit_and (a / 2) (b / 2) * 2 + min (a % 2) (b % 2)
bit_and_step = lowest_digit (λ y. 0) min bit_and bit_and-bitwise (λ c. omega arith)

-- On digits the library's `differ` is the sum without the carry.
differ_digits : (x y : ℕ) → x < 2 → y < 2 → differ x y ≡ (x + y) % 2
differ_digits zero y p q = omega arith
differ_digits (suc x) zero p q = omega arith
differ_digits (suc zero) (suc zero) p q = refl
differ_digits (suc zero) (suc (suc y)) p q = absurd (omega arith)
differ_digits (suc (suc x)) (suc y) p q = absurd (omega arith)

pub bit_xor_step : (a b : ℕ) → bit_xor a b ≡ bit_xor (a / 2) (b / 2) * 2 + (a % 2 + b % 2) % 2
bit_xor_step a b =
    lowest_digit (λ y. y) differ bit_xor bit_xor-bitwise (λ c. omega arith) a b
    ∙ ap (λ (d : ℕ). bit_xor (a / 2) (b / 2) * 2 + d)
        (differ_digits (a % 2) (b % 2) (omega arith) (omega arith))

pub bit_or_step : (a b : ℕ) → bit_or a b ≡ bit_or (a / 2) (b / 2) * 2 + max (a % 2) (b % 2)
bit_or_step = lowest_digit (λ y. y) max bit_or bit_or-bitwise (λ c. omega arith)

-- Bit `k` of a number.
abbrev pub bit : ℕ → ℕ → ℕ
bit zero x = x % 2
bit (suc k) x = bit k (x / 2)

pub bit-lt : (k x : ℕ) → bit k x < 2
bit-lt zero x = omega arith
bit-lt (suc k) x = bit-lt k (x / 2)

pub bit-bit_or : (k a b : ℕ) → bit k (bit_or a b) ≡ max (bit k a) (bit k b)
bit-bit_or zero a b = omega (arith, bit_or_step a b)
bit-bit_or (suc k) a b =
    let half : bit_or a b / 2 ≡ bit_or (a / 2) (b / 2) = omega (arith, bit_or_step a b) in
    rw half (bit-bit_or k (a / 2) (b / 2))

pub bit-bit_and : (k a b : ℕ) → bit k (bit_and a b) ≡ min (bit k a) (bit k b)
bit-bit_and zero a b = omega (arith, bit_and_step a b)
bit-bit_and (suc k) a b =
    let half : bit_and a b / 2 ≡ bit_and (a / 2) (b / 2) = omega (arith, bit_and_step a b) in
    rw half (bit-bit_and k (a / 2) (b / 2))

pub bit-bit_xor : (k a b : ℕ) → bit k (bit_xor a b) ≡ (bit k a + bit k b) % 2
bit-bit_xor zero a b = omega (arith, bit_xor_step a b)
bit-bit_xor (suc k) a b =
    let half : bit_xor a b / 2 ≡ bit_xor (a / 2) (b / 2) = omega (arith, bit_xor_step a b) in
    rw half (bit-bit_xor k (a / 2) (b / 2))

-- Numbers with the same bits are equal.
bits_ext_fuel : (n a b : ℕ) → a ≤ n → b ≤ n → ((k : ℕ) → bit k a ≡ bit k b) → a ≡ b
bits_ext_fuel zero a b p q h = omega arith
bits_ext_fuel (suc n) zero zero p q h = refl
bits_ext_fuel (suc n) a b p q h =
    omega (arith, h 0, bits_ext_fuel n (a / 2) (b / 2) (omega arith) (omega arith) (λ k. h (suc k)))

pub bits_ext : (a b : ℕ) → ((k : ℕ) → bit k a ≡ bit k b) → a ≡ b
bits_ext a b h = bits_ext_fuel (a + b) a b (omega arith) (omega arith) h

pub bit_xor_comm : (a b : ℕ) → bit_xor a b ≡ bit_xor b a
bit_xor_comm a b = bits_ext _ _ λ k. omega (arith, bit-bit_xor k a b, bit-bit_xor k b a)

pub bit_xor_assoc : (a b c : ℕ) → bit_xor (bit_xor a b) c ≡ bit_xor a (bit_xor b c)
bit_xor_assoc a b c = bits_ext _ _ λ k. omega (
  arith,
  bit-bit_xor k (bit_xor a b) c,
  bit-bit_xor k a b,
  bit-bit_xor k a (bit_xor b c),
  bit-bit_xor k b c,
)

pub bit_zero : (k : ℕ) → bit k 0 ≡ 0
bit_zero zero = refl
bit_zero (suc k) = bit_zero k

pub bit_xor_self : (a : ℕ) → bit_xor a a ≡ 0
bit_xor_self a = bits_ext _ _ λ k. omega (arith, bit-bit_xor k a a, bit_zero k)

pub bit_xor-zero : (a : ℕ) → bit_xor a 0 ≡ a
bit_xor-zero a = bits_ext _ _ λ k. omega (arith, bit-bit_xor k a 0, bit_zero k, bit-lt k a)

pub bit_or-zero : (a : ℕ) → bit_or a 0 ≡ a
bit_or-zero a = bits_ext _ _ λ k. omega (arith, bit-bit_or k a 0, bit_zero k)

pub bit_and-zero : (a : ℕ) → bit_and a 0 ≡ 0
bit_and-zero a = bits_ext _ _ λ k. omega (arith, bit-bit_and k a 0, bit_zero k)

-- `hlf k` drops the `k` low bits and `dbl k` puts `k` zeros below; at a numeral `k` both compute
-- to terms that `omega` reads.
abbrev pub hlf : ℕ → ℕ → ℕ
hlf zero a = a
hlf (suc k) a = hlf k (a / 2)

abbrev pub dbl : ℕ → ℕ → ℕ
dbl zero a = a
dbl (suc k) a = dbl k a * 2

abbrev pub low : ℕ → ℕ → ℕ
low zero a = 0
low (suc k) a = low k (a / 2) * 2 + a % 2

-- The mask of the `k` low bits.
abbrev pub ones : ℕ → ℕ
ones zero = 0
ones (suc k) = ones k * 2 + 1

pub bit_and-ones : (k a : ℕ) → bit_and a (ones k) ≡ low k a
bit_and-ones zero a = bit_and-zero a
bit_and-ones (suc k) a =
    let half : (ones k * 2 + 1) / 2 ≡ ones k = omega arith in
    let above : bit_and (a / 2) ((ones k * 2 + 1) / 2) ≡ low k (a / 2) =
      rw half (bit_and-ones k (a / 2)) in
    omega (arith, bit_and_step a (ones k * 2 + 1), above)

pub bit_and-dbl : (k a m : ℕ) → bit_and a (dbl k m) ≡ dbl k (bit_and (hlf k a) m)
bit_and-dbl zero a m = refl
bit_and-dbl (suc k) a m =
    let half : dbl k m * 2 / 2 ≡ dbl k m = omega arith in
    let above : bit_and (a / 2) (dbl k m * 2 / 2) ≡ dbl k (bit_and (hlf k (a / 2)) m) =
      rw half (bit_and-dbl k (a / 2) m) in
    omega (arith, bit_and_step a (dbl k m * 2), above)

pub bit_or-dbl : (k h r : ℕ) → hlf k r ≡ 0 → bit_or (dbl k h) r ≡ dbl k h + r
bit_or-dbl zero h r e = rw e (omega (arith, bit_or-zero h))
bit_or-dbl (suc k) h r e =
    let half : dbl k h * 2 / 2 ≡ dbl k h = omega arith in
    let above : bit_or (dbl k h * 2 / 2) (r / 2) ≡ dbl k h + r / 2 =
      rw half (bit_or-dbl k h (r / 2) e) in
    omega (arith, bit_or_step (dbl k h * 2) r, above)

pub low-eq : (k a : ℕ) → hlf k a ≡ 0 → low k a ≡ a
low-eq zero a h = omega arith
low-eq (suc k) a h = omega (arith, low-eq k (a / 2) h)

-- The address part of a 64-bit value: `a & 0xFFFFFFFFFFFFF000`.
pub page_mask : (a : ℕ) → a < 2 ^ 64 → bit_and a 0xFFFF_FFFF_FFFF_F000 ≡ a / 4096 * 4096
page_mask a h =
    let top : hlf 52 (hlf 12 a) ≡ 0 = omega arith in
    omega (arith, bit_and-dbl 12 a (ones 52), bit_and-ones 52 (hlf 12 a), low-eq 52 (hlf 12 a) top)

-- The offset part: `a & 0xFFF`.
pub offset_mask : (a : ℕ) → bit_and a 0xFFF ≡ a % 4096
offset_mask a = omega (arith, bit_and-ones 12 a)

-- Flags below bit 12 are added to a page address by `|`.
pub page_flags : (p f : ℕ) → f < 4096 → bit_or (p * 4096) f ≡ p * 4096 + f
page_flags p f h =
    let fits : hlf 12 f ≡ 0 = omega arith in
    let shifted : dbl 12 p ≡ p * 4096 = omega arith in rw (← shifted) (bit_or-dbl 12 p f fits)

-- The number whose only bit is `j`, and the bits of it and of the mask of the low bits.
abbrev pub single : ℕ → ℕ
single zero = 1
single (suc j) = single j * 2

pub bit-single : (j k : ℕ) → bit k (single j) ≡ (if j == k then 1 else 0)
bit-single zero zero = omega arith
bit-single zero (suc k) = let half : 1 / 2 ≡ 0 = omega arith in rw half (ground (arith, bit_zero k))
bit-single (suc j) zero = ground arith
bit-single (suc j) (suc k) =
    let half : single j * 2 / 2 ≡ single j = omega arith in rw half (ground (arith, bit-single j k))

pub bit-ones : (n k : ℕ) → bit k (ones n) ≡ (if ltb k n then 1 else 0)
bit-ones zero k = ground (arith, bit_zero k)
bit-ones (suc n) zero = ground arith
bit-ones (suc n) (suc k) =
    let half : (ones n * 2 + 1) / 2 ≡ ones n = omega arith in rw half (ground (arith, bit-ones n k))

pub bit_or_comm : (a b : ℕ) → bit_or a b ≡ bit_or b a
bit_or_comm a b = bits_ext _ _ λ k. omega (arith, bit-bit_or k a b, bit-bit_or k b a)

-- A mask whose `k` low bits are set.
pub bit_and-above :
    (k a m : ℕ) → bit_and a (dbl k m + ones k) ≡ dbl k (bit_and (hlf k a) m) + low k a
bit_and-above zero a m = let whole : m + 0 ≡ m = omega arith in rw whole (omega arith)
bit_and-above (suc k) a m =
    let half : (dbl k m * 2 + (ones k * 2 + 1)) / 2 ≡ dbl k m + ones k = omega arith in
    let above : bit_and (a / 2) ((dbl k m * 2 + (ones k * 2 + 1)) / 2)
        ≡ dbl k (bit_and (hlf k (a / 2)) m) + low k (a / 2) =
      rw half (bit_and-above k (a / 2) m) in
    omega (arith, bit_and_step a (dbl k m * 2 + (ones k * 2 + 1)), above)

-- `r | (h << k)` is a sum where `r` has at most `k` bits.
pub bit_or-shifted : (k r h : ℕ) → hlf k r ≡ 0 → bit_or r (dbl k h) ≡ r + dbl k h
bit_or-shifted k r h e = rw (bit_or_comm r (dbl k h)) (omega (arith, bit_or-dbl k h r e))
