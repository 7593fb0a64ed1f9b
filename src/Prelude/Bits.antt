-- ===== src/Prelude/Bits.antt =====
-- The native bit operations at variables: the law of the lowest digit, masks, fields, and the
-- group laws of `bit_xor`.
use Prim.Native.Nat.{ℕ, zero, suc, ◌+◌, ◌-◌, ◌*◌, ◌/◌, ◌%◌, ◌^◌, ◌≤◌, ◌<◌, min, max}
use Prim.Native.Nat.{bit_and, bit_or, bit_xor, digits, differ}
use Prim.Native.Nat.{bit_and-bitwise, bit_or-bitwise, bit_xor-bitwise}
use mathlib.Core.Path.{◌≡◌, refl, sym, ap, ◌∙◌}
use native.Mathlib.Omega.{arith}
use native.Mathlib.Nat.{pow-succ', one-le-pow, div-add-mod, div-div-eq-div-mul}

-- Any two counts of digits that cover the left number give the same result.
module _ (z : ℕ → ℕ) (f : ℕ → ℕ → ℕ) where
  enough_digits : (n e a b : ℕ) → a ≤ n → a ≤ e → digits z f n a b ≡ digits z f e a b
  enough_digits zero zero a b p q = refl
  enough_digits zero (suc e) zero b p q = refl
  enough_digits (suc n) zero zero b p q = refl
  enough_digits (suc n) (suc e) zero b p q = refl
  enough_digits zero e (suc a) b p q = absurd (omega arith)
  enough_digits (suc n) zero (suc a) b p q = absurd (omega arith)
  enough_digits (suc n) (suc e) (suc a) b p q =
      ap (λ t. t * 2 + f (suc a % 2) (b % 2))
        (enough_digits n e (suc a / 2) (b / 2) (omega arith) (omega arith))

  lowest_digit :
      (a b : ℕ)
      → digits z f (suc a) (suc a) b
        ≡ digits z f (suc a / 2) (suc a / 2) (b / 2) * 2 + f (suc a % 2) (b % 2)
  lowest_digit a b =
      ap (λ t. t * 2 + f (suc a % 2) (b % 2))
        (enough_digits a (suc a / 2) (suc a / 2) (b / 2) (omega arith) (omega arith))

differ_digits : (x y : ℕ) → x < 2 → y < 2 → differ x y ≡ (x + y) % 2
differ_digits zero y p q = omega arith
differ_digits (suc zero) zero p q = refl
differ_digits (suc zero) (suc zero) p q = refl
differ_digits (suc zero) (suc (suc y)) p q = absurd (omega arith)
differ_digits (suc (suc x)) y p q = absurd (omega arith)

pub and_digit : (a b : ℕ) → bit_and a b ≡ bit_and (a / 2) (b / 2) * 2 + min (a % 2) (b % 2)
and_digit zero b = simp bit_and-bitwise (omega arith)
and_digit (suc a) b = simp bit_and-bitwise (lowest_digit (λ y. 0) min a b)

pub or_digit : (a b : ℕ) → bit_or a b ≡ bit_or (a / 2) (b / 2) * 2 + max (a % 2) (b % 2)
or_digit zero b = simp bit_or-bitwise (omega arith)
or_digit (suc a) b = simp bit_or-bitwise (lowest_digit (λ y. y) max a b)

xor_differ : (a b : ℕ) → bit_xor a b ≡ bit_xor (a / 2) (b / 2) * 2 + differ (a % 2) (b % 2)
xor_differ zero b = simp bit_xor-bitwise (omega arith)
xor_differ (suc a) b = simp bit_xor-bitwise (lowest_digit (λ y. y) differ a b)

pub xor_digit : (a b : ℕ) → bit_xor a b ≡ bit_xor (a / 2) (b / 2) * 2 + (a % 2 + b % 2) % 2
xor_digit a b =
    omega (arith, xor_differ a b, differ_digits (a % 2) (b % 2) (omega arith) (omega arith))

-- Halving a number drops the lowest digit.
half_mod : (p n : ℕ) → n % (2 * p) ≡ n / 2 % p * 2 + n % 2
half_mod p n = omega (
  arith,
  div-add-mod n (2 * p),
  div-add-mod (n / 2) p,
  ap (λ (t : ℕ). p * t) (div-div-eq-div-mul n 2 p),
)

mod_digit : (k n : ℕ) → n % 2 ^ suc k ≡ n / 2 % 2 ^ k * 2 + n % 2
mod_digit k n = rw pow-succ' (half_mod (2 ^ k) n)

div_digit : (k n : ℕ) → n / 2 ^ suc k ≡ n / 2 / 2 ^ k
div_digit k n = rw (pow-succ', ← div-div-eq-div-mul)

times_digit : (q k : ℕ) → q * 2 ^ suc k ≡ 2 * (q * 2 ^ k)
times_digit q k = omega (arith, ap (λ (t : ℕ). q * t) (pow-succ' 2 k))

-- Strong induction on a number through its half.
module _ {ℓ} (P : ℕ → Type ℓ) (base : P 0) (step : (n : ℕ) → P (n / 2) → P n) where
  below_fuel : (f n : ℕ) → n ≤ f → P n
  below_fuel f zero h = base
  below_fuel zero (suc n) h = absurd (omega arith)
  below_fuel (suc f) (suc n) h = step (suc n) (below_fuel f (suc n / 2) (omega arith))

  pub by_halves : (n : ℕ) → P n
  by_halves n = below_fuel n n (omega arith)

pub and-zero : (a : ℕ) → bit_and a 0 ≡ 0
and-zero = by_halves (λ a. bit_and a 0 ≡ 0) refl (λ a ih. omega (arith, and_digit a 0))

pub or-zero : (a : ℕ) → bit_or a 0 ≡ a
or-zero = by_halves (λ a. bit_or a 0 ≡ a) refl (λ a ih. omega (arith, or_digit a 0))

pub xor-zero : (a : ℕ) → bit_xor a 0 ≡ a
xor-zero = by_halves (λ a. bit_xor a 0 ≡ a) refl (λ a ih. omega (arith, xor_digit a 0))

pub xor_self : (a : ℕ) → bit_xor a a ≡ 0
xor_self = by_halves (λ a. bit_xor a a ≡ 0) refl (λ a ih. omega (arith, xor_digit a a))

pub zero-xor : (b : ℕ) → bit_xor 0 b ≡ b
zero-xor b = simp bit_xor-bitwise

pub xor_comm : (a b : ℕ) → bit_xor a b ≡ bit_xor b a
xor_comm a b =
    by_halves (λ a. (b : ℕ) → bit_xor a b ≡ bit_xor b a) (λ b. rw (xor-zero, zero-xor))
      (λ a ih b. omega (arith, xor_digit a b, xor_digit b a, ih (b / 2))) a b

pub xor_assoc : (a b c : ℕ) → bit_xor (bit_xor a b) c ≡ bit_xor a (bit_xor b c)
xor_assoc a b c =
    by_halves (λ a. (b c : ℕ) → bit_xor (bit_xor a b) c ≡ bit_xor a (bit_xor b c))
      (λ b c. ap (λ t. bit_xor t c) (zero-xor b) ∙ sym (zero-xor (bit_xor b c)))
      (λ a ih b c. ground (
        arith,
        xor_digit a b,
        xor_digit b c,
        xor_digit (bit_xor a b) c,
        xor_digit a (bit_xor b c),
        ih (b / 2) (c / 2),
      ))
      a b c

-- A mask of `k` low digits is the remainder by `2 ^ k`.
pub and_mask : (k a : ℕ) → bit_and a (2 ^ k - 1) ≡ a % 2 ^ k
and_mask zero a = omega (arith, and-zero a)
and_mask (suc k) a = ground (
  arith,
  and_digit a (2 ^ suc k - 1),
  mod_digit k a,
  pow-succ' 2 k,
  one-le-pow k 2,
  and_mask k (a / 2),
)

-- A mask that stands `k` digits higher reads the digits above `k`.
pub and_above : (k a m : ℕ) → bit_and a (m * 2 ^ k) ≡ bit_and (a / 2 ^ k) m * 2 ^ k
and_above zero a m = ground arith
and_above (suc k) a m = ground (
  arith,
  and_digit a (m * 2 ^ suc k),
  times_digit m k,
  times_digit (bit_and (a / 2 ^ suc k) m) k,
  div_digit k a,
  and_above k (a / 2) m,
)

-- Digits above `k` joined to a number of `k` digits are a sum.
pub or_sum : (k q r : ℕ) → r < 2 ^ k → bit_or (q * 2 ^ k) r ≡ q * 2 ^ k + r
or_sum zero q r h = ground (arith, or-zero q)
or_sum (suc k) q r h = ground (
  arith,
  or_digit (q * 2 ^ suc k) r,
  times_digit q k,
  pow-succ' 2 k,
  or_sum k q (r / 2) (omega (arith, pow-succ' 2 k)),
)

pub xor_mod : (k a b : ℕ) → bit_xor a b % 2 ^ k ≡ bit_xor (a % 2 ^ k) (b % 2 ^ k)
xor_mod zero a b = ground arith
xor_mod (suc k) a b = ground (
  arith,
  mod_digit k (bit_xor a b),
  mod_digit k a,
  mod_digit k b,
  xor_digit a b,
  xor_digit (a % 2 ^ suc k) (b % 2 ^ suc k),
  xor_mod k (a / 2) (b / 2),
)

pub xor_div : (k a b : ℕ) → bit_xor a b / 2 ^ k ≡ bit_xor (a / 2 ^ k) (b / 2 ^ k)
xor_div zero a b = ground arith
xor_div (suc k) a b = ground (
  arith,
  div_digit k (bit_xor a b),
  div_digit k a,
  div_digit k b,
  xor_digit a b,
  xor_div k (a / 2) (b / 2),
)

-- A field of `w` digits that stands `k` digits up.
pub and_field : (k w a : ℕ) → bit_and a ((2 ^ w - 1) * 2 ^ k) ≡ a / 2 ^ k % 2 ^ w * 2 ^ k
and_field k w a = ground (arith, and_above k a (2 ^ w - 1), and_mask w (a / 2 ^ k))

pub zero-or : (b : ℕ) → bit_or 0 b ≡ b
zero-or b = simp bit_or-bitwise

pub or_comm : (a b : ℕ) → bit_or a b ≡ bit_or b a
or_comm a b =
    by_halves (λ a. (b : ℕ) → bit_or a b ≡ bit_or b a) (λ b. zero-or b ∙ sym (or-zero b))
      (λ a ih b. omega (arith, or_digit a b, or_digit b a, ih (b / 2))) a b

pub or-eq_zero : (a b : ℕ) → bit_or a b ≡ 0 → (a ≡ 0) × (b ≡ 0)
or-eq_zero a b =
    by_halves (λ a. (b : ℕ) → bit_or a b ≡ 0 → (a ≡ 0) × (b ≡ 0)) (λ b e. omega (arith, zero-or b))
      (λ a ih b e.
        let high : bit_or (a / 2) (b / 2) ≡ 0 = omega (arith, or_digit a b) in
        omega (arith, or_digit a b, ih (b / 2) high))
      a b

-- Numbers of two fields are joined by `^` field by field.
pub xor-join :
    (k p q r s : ℕ)
    → q < 2 ^ k
    → s < 2 ^ k
    → bit_xor (p * 2 ^ k + q) (r * 2 ^ k + s) ≡ bit_xor p r * 2 ^ k + bit_xor q s
xor-join zero p q r s hq hs =
    let eq : q ≡ 0 = omega (arith, hq) in
    let es : s ≡ 0 = omega (arith, hs) in rw (eq, es, xor-zero 0) (ground arith)
xor-join (suc k) p q r s hq hs = ground (
  arith,
  xor_digit (p * 2 ^ suc k + q) (r * 2 ^ suc k + s),
  xor_digit q s,
  times_digit p k,
  times_digit r k,
  times_digit (bit_xor p r) k,
  pow-succ' 2 k,
  xor-join k p (q / 2) r (s / 2) (omega (arith, pow-succ' 2 k)) (omega (arith, pow-succ' 2 k)),
)
