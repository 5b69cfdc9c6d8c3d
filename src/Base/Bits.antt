-- ===== src/Base/Bits.antt =====
-- Laws of `bit_and` and `bit_or` at variables, from the digit recursion that they stand for.
use Prim.Native.Nat.{
  ℕ, zero, suc, ◌+◌, ◌-◌, ◌*◌, ◌/◌, ◌%◌, ◌^◌, ◌≤◌, ◌<◌, min, bit_and, digits, bit_and-bitwise,
}
use mathlib.Core.Path.{◌≡◌, refl, ap, sym, ◌∙◌}
use mathlib.Core.Logic.{◌↔◌}
use native.Mathlib.Nat.{pow-suc}
use native.Mathlib.Omega.{arith}

-- The rounds of the digit recursion behind a conjunction.
abbrev rounds : ℕ → ℕ → ℕ → ℕ
rounds k x y = digits (λ _. 0) min k x y

one_round_more : (k x y : ℕ) → x ≤ k → rounds (suc k) x y ≡ rounds k x y
one_round_more k zero y enough = omega (arith, no_digits k y, no_digits (suc k) y)
  where
    no_digits : (j z : ℕ) → rounds j 0 z ≡ 0
    no_digits zero z = refl
    no_digits (suc j) z = refl
one_round_more zero (suc x) y enough = absurd (omega arith)
one_round_more (suc k) (suc x) y enough =
    let half_less : suc x / 2 ≤ k = omega arith in
    omega (arith, one_round_more k (suc x / 2) (y / 2) half_less)

more_rounds : (d k x y : ℕ) → x ≤ k → rounds (d + k) x y ≡ rounds k x y
more_rounds zero k x y enough = ap (λ j. rounds j x y) (omega arith)
more_rounds (suc d) k x y enough =
    let moved : suc d + k ≡ suc (d + k) = omega arith in
    ap (λ j. rounds j x y) moved
    ∙ one_round_more (d + k) x y (omega arith)
    ∙ more_rounds d k x y enough

bit_and-left_zero : (y : ℕ) → bit_and 0 y ≡ 0
bit_and-left_zero y = bit_and-bitwise 0 y

-- The conjunction of two numbers from that of their halves and their last digits.
bit_and-halves : (x y : ℕ) → bit_and x y ≡ 2 * bit_and (x / 2) (y / 2) + min (x % 2) (y % 2)
bit_and-halves zero y = omega (arith, bit_and-left_zero y, bit_and-left_zero (y / 2))
bit_and-halves (suc x) y =
    let half = suc x / 2 in
    let spare : (x - half) + half ≡ x = omega arith in
    let surplus : rounds x half (y / 2) ≡ rounds half half (y / 2) =
      ap (λ k. rounds k half (y / 2)) (sym spare)
      ∙ more_rounds (x - half) half half (y / 2) (omega arith) in
    omega (arith, surplus, bit_and-bitwise half (y / 2), bit_and-bitwise (suc x) y)

bit_and-right_zero : (bound x : ℕ) → x ≤ bound → bit_and x 0 ≡ 0
bit_and-right_zero bound zero small = refl
bit_and-right_zero zero (suc x) small = absurd (omega arith)
bit_and-right_zero (suc bound) (suc x) small =
    let half_small : suc x / 2 ≤ bound = omega arith in
    omega (arith, bit_and-right_zero bound (suc x / 2) half_small, bit_and-halves (suc x) 0)

-- Bit `i` of a number, 0 or 1.
unfoldable pub bit : ℕ → ℕ → ℕ
bit m zero = m % 2
bit m (suc i) = bit (m / 2) i

pub bit-lt_two : (m i : ℕ) → bit m i < 2
unfolding bit
bit-lt_two m zero = omega arith
bit-lt_two m (suc i) = bit-lt_two (m / 2) i

double-half : (p : ℕ) → p * 2 / 2 ≡ p
double-half p = omega arith

-- A conjunction with a power of two keeps that bit alone.
pub bit_and-pow : (m i : ℕ) → bit_and m (2 ^ i) ≡ bit m i * 2 ^ i
unfolding bit
bit_and-pow m zero =
    omega (arith, bit_and-halves m 1, bit_and-right_zero (m / 2) (m / 2) (omega arith))
bit_and-pow m (suc i) = rw (pow-suc 2 i) (
    omega (
      arith,
      bit_and-halves m (2 ^ i * 2),
      ap (bit_and (m / 2)) (double-half (2 ^ i)),
      bit_and-pow (m / 2) i,
    ))

pub pow_pos : (i : ℕ) → 0 < 2 ^ i
pow_pos zero = omega arith
pow_pos (suc i) = omega (arith, pow-suc 2 i, pow_pos i)

half_pow : (i : ℕ) → 2 ^ suc i / 2 ≡ 2 ^ i
half_pow i = omega (arith, pow-suc 2 i)

zero-bit : (i : ℕ) → bit 0 i ≡ 0
unfolding bit
zero-bit zero = refl
zero-bit (suc i) = zero-bit i

pub pow-bit_self : (i : ℕ) → bit (2 ^ i) i ≡ 1
unfolding bit
pow-bit_self zero = refl
pow-bit_self (suc i) = rw (half_pow i) (pow-bit_self i)

-- A power of two has one bit.
pub pow-bit_eq : (i j : ℕ) → bit (2 ^ i) j ≡ 1 → i ≡ j
unfolding bit
pow-bit_eq zero zero h = refl
pow-bit_eq zero (suc j) h = absurd (omega (arith, zero-bit j))
pow-bit_eq (suc i) zero h = absurd (omega (arith, pow-suc 2 i))
pow-bit_eq (suc i) (suc j) h = ap suc (pow-bit_eq i j (rw (half_pow i) at h))

-- A number without its last digits.
unfoldable pub shift : ℕ → ℕ → ℕ
shift m zero = m
shift m (suc i) = shift (m / 2) i

pub shift-bit : (m i j : ℕ) → bit (shift m i) j ≡ bit m (i + j)
unfolding shift bit
shift-bit m zero j = let e : j ≡ 0 + j = omega arith in ap (bit m) e
shift-bit m (suc i) j =
    let moved : suc i + j ≡ suc (i + j) = omega arith in
    shift-bit (m / 2) i j ∙ ap (bit m) (sym moved)

scaled_zero : (m x : ℕ) → bit_and m (x * 2 ^ 0) ≡ bit_and m x * 2 ^ 0
scaled_zero m x = let one : x * 1 ≡ x = omega arith in omega (arith, ap (bit_and m) one)

-- A conjunction with a multiple of a power of two is one of the digits above it.
pub bit_and-scaled : (m x i : ℕ) → bit_and m (x * 2 ^ i) ≡ bit_and (shift m i) x * 2 ^ i
unfolding shift
bit_and-scaled m x zero = scaled_zero m x
bit_and-scaled m x (suc i) =
    let doubled : x * (2 ^ i * 2) ≡ x * 2 ^ i * 2 = omega arith in
    rw (pow-suc 2 i) (
      omega (
        arith,
        ap (bit_and m) doubled,
        bit_and-halves m (x * 2 ^ i * 2),
        ap (bit_and (m / 2)) (double-half (x * 2 ^ i)),
        bit_and-scaled (m / 2) x i,
      ))

-- The conjunction with 0b111110 tells of digits one to five.
pub bit_and-five_iff :
    (y : ℕ)
    → (bit_and y 62 ≡ 0)
      ↔ ((bit y 1 ≡ 0) × (bit y 2 ≡ 0) × (bit y 3 ≡ 0) × (bit y 4 ≡ 0) × (bit y 5 ≡ 0))
unfolding bit
bit_and-five_iff y =
    let e0 = bit_and-halves y 62 in
    let e1 = bit_and-halves (y / 2) 31 in
    let e2 = bit_and-halves (y / 2 / 2) 15 in
    let e3 = bit_and-halves (y / 2 / 2 / 2) 7 in
    let e4 = bit_and-halves (y / 2 / 2 / 2 / 2) 3 in
    let e5 = bit_and-halves (y / 2 / 2 / 2 / 2 / 2) 1 in
    let e6 =
      bit_and-right_zero (y / 2 / 2 / 2 / 2 / 2 / 2) (y / 2 / 2 / 2 / 2 / 2 / 2) (omega arith) in
    (
      λ h. (omega arith, omega arith, omega arith, omega arith, omega arith),
      λ h. omega (arith, h.0, h.1, h.2, h.3, h.4),
    )
