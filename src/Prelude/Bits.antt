-- ===== src/Prelude/Bits.antt =====
-- Bitwise `and` on the native numbers at the operands that the program uses: a mask of low ones,
-- and a number with its predecessor.
use Prim.Native.Nat.{
  ℕ, zero, suc, ◌+◌, ◌-◌, ◌*◌, ◌/◌, ◌%◌, ◌^◌, ◌≤◌, ◌<◌, ◌∣◌, min, bit_and, digits, bit_and-bitwise,
}
use mathlib.Core.Path.{◌≡◌, refl, sym, ap, subst, ◌∙◌}
use mathlib.Core.Logic.{◌⊎◌, inl, inr}
use native.Mathlib.Nat.{pow-suc, mod-mod_of_dvd, dvd-mul_right}
use native.Mathlib.Decide.{dec_lt}
use native.Mathlib.Omega.{arith}

-- The conjunction of `x` and `y` with at most `t` digits of `x`.
abbrev lows : ℕ → ℕ → ℕ → ℕ
lows t x y = digits (λ _. zero) min t x y

nothing_left : (t y : ℕ) → lows t 0 y ≡ 0
nothing_left zero y = refl
nothing_left (suc t) y = refl

-- Rounds beyond the digits of `x` add nothing.
rounds_agree : (t u x y : ℕ) → x ≤ t → t ≤ u → lows u x y ≡ lows t x y
rounds_agree t u zero y below more = nothing_left u y ∙ sym (nothing_left t y)
rounds_agree zero u (suc x) y below more = absurd (omega arith)
rounds_agree (suc t) zero (suc x) y below more = absurd (omega arith)
rounds_agree (suc t) (suc u) (suc x) y below more =
    ap (λ r. r * 2 + min (suc x % 2) (y % 2))
      (rounds_agree t u (suc x / 2) (y / 2) (omega arith) (omega arith))

as_lows : (x y : ℕ) → bit_and x y ≡ lows x x y
as_lows x y = bit_and-bitwise x y

-- The lowest binary digit apart from the others.
pub bit_and_step : (x y : ℕ) → bit_and x y ≡ bit_and (x / 2) (y / 2) * 2 + min (x % 2) (y % 2)
bit_and_step zero y = omega (arith, as_lows 0 (y / 2), as_lows 0 y)
bit_and_step (suc x) y =
    let half = suc x / 2 in
    as_lows (suc x) y
    ∙ ap (λ r. r * 2 + min (suc x % 2) (y % 2))
        (rounds_agree half x half (y / 2) (omega arith) (omega arith) ∙ sym (as_lows half (y / 2)))

lows_none : (t x : ℕ) → lows t x 0 ≡ 0
lows_none zero zero = refl
lows_none zero (suc x) = refl
lows_none (suc t) zero = refl
lows_none (suc t) (suc x) = omega (arith, lows_none t (suc x / 2))

pub two_pow-suc : (k : ℕ) → 2 ^ suc k ≡ 2 * 2 ^ k
two_pow-suc k = omega (arith, pow-suc 2 k)

pub two_pow_pos : (k : ℕ) → 0 < 2 ^ k
two_pow_pos zero = omega arith
two_pow_pos (suc k) = omega (arith, two_pow-suc k, two_pow_pos k)

mod_double : (a m : ℕ) → 0 < m → a % (2 * m) ≡ a / 2 % m * 2 + a % 2
mod_double a m h = grind arith

-- A mask of `k` ones keeps the remainder.
pub bit_and_mask : (k a : ℕ) → bit_and a (2 ^ k - 1) ≡ a % 2 ^ k
bit_and_mask zero a = omega (arith, as_lows a 0, lows_none a a)
bit_and_mask (suc k) a =
    let half : (2 ^ suc k - 1) / 2 ≡ 2 ^ k - 1 = omega (arith, two_pow-suc k, two_pow_pos k) in
    let step = rw half at (bit_and_step a (2 ^ suc k - 1)) in
    omega (
      arith,
      step,
      bit_and_mask k (a / 2),
      two_pow-suc k,
      two_pow_pos k,
      ap (λ n. a % n) (two_pow-suc k),
      mod_double a (2 ^ k) (two_pow_pos k),
    )

bit_and_self_upto : (n a : ℕ) → a < n → bit_and a a ≡ a
bit_and_self_upto zero a h = absurd (omega arith)
bit_and_self_upto (suc n) a h = elim (dec_lt 0 a) [
  | yes some_left ↦ omega (arith, bit_and_step a a, bit_and_self_upto n (a / 2) (omega arith))
  | no none_left ↦ let e : a ≡ 0 = omega arith in rw e (as_lows 0 0)
]

-- `m & (m - 1)` clears the lowest one: it goes on below `m` with the same highest one, until only
-- that is left.
pub clear_lowest :
    (k m : ℕ)
    → 2 ^ k ≤ m
    → m < 2 * 2 ^ k
    → ((m ≡ 2 ^ k) × (bit_and m (m - 1) ≡ 0))
      ⊎ ((2 ^ k ≤ bit_and m (m - 1)) × (bit_and m (m - 1) < m))
clear_lowest zero m lo hi = let e : m ≡ 1 = omega arith in inl (e, rw e)
clear_lowest (suc k) m lo hi = elim (dec_lt 0 (m % 2)) [
  | yes odd ↦
      let half : (m - 1) / 2 ≡ m / 2 = omega arith in
      let step = rw half at (bit_and_step m (m - 1)) in
      inr
        (omega (arith, step, bit_and_self_upto (suc (m / 2)) (m / 2) (omega arith), two_pow-suc k))
  | no even ↦
      let half : (m - 1) / 2 ≡ m / 2 - 1 = omega (arith, two_pow-suc k, two_pow_pos k) in
      let step = rw half at (bit_and_step m (m - 1)) in
      omega (
        arith,
        step,
        two_pow-suc k,
        clear_lowest k (m / 2) (omega (arith, two_pow-suc k)) (omega (arith, two_pow-suc k)),
      )
]

-- Every positive number lies between a power of two and its double.
bracket_upto : (n m : ℕ) → 0 < m → m ≤ n → (k : ℕ) × (2 ^ k ≤ m) × (m < 2 * 2 ^ k)
bracket_upto zero m h le = absurd (omega arith)
bracket_upto (suc n) m h le = elim (dec_lt 1 m) [
  | yes big ↦
      let (k, lo, hi) = bracket_upto n (m / 2) (omega arith) (omega arith) in
      (suc k, omega (arith, two_pow-suc k), omega (arith, two_pow-suc k))
  | no one ↦ (0, omega arith, omega arith)
]

pub bracket : (m : ℕ) → 0 < m → (k : ℕ) × (2 ^ k ≤ m) × (m < 2 * 2 ^ k)
bracket m h = bracket_upto m m h (omega arith)

two_pow-add : (k j : ℕ) → 2 ^ k * 2 ^ j ≡ 2 ^ (k + j)
two_pow-add zero j = let e : j ≡ 0 + j = omega arith in omega (arith, ap (λ (n : ℕ). 2 ^ n) e)
two_pow-add (suc k) j =
    let e : suc k + j ≡ suc (k + j) = omega arith in
    omega (
      arith,
      ap (λ (t : ℕ). t * 2 ^ j) (two_pow-suc k),
      two_pow-add k j,
      ap (λ (n : ℕ). 2 ^ n) e,
      two_pow-suc (k + j),
    )

two_pow-dvd : (k : ℕ) → k ≤ 32 → 2 ^ k ∣ 2 ^ 32
two_pow-dvd k h =
    let e : k + (32 - k) ≡ 32 = omega arith in
    subst (λ n. 2 ^ k ∣ n) (two_pow-add k (32 - k) ∙ ap (λ (n : ℕ). 2 ^ n) e)
      (dvd-mul_right (2 ^ k) (2 ^ (32 - k)))

-- A 32-bit wrap does not show under a mask of at most 32 ones.
pub mod-wrap : (k a : ℕ) → k ≤ 32 → a % 2 ^ 32 % 2 ^ k ≡ a % 2 ^ k
mod-wrap k a h = mod-mod_of_dvd (2 ^ k) a (two_pow-dvd k h)
