-- ===== src/Ocb2/Swap.antt =====
-- `Endian::swap` of include/mumble/Endian.hpp on 64 bits: the eight bytes in the other order.
use libmumble.Prelude.Bits.{xor_div, xor_mod, xor-join}
use libmumble.Prelude.{ap, ◌∙◌, ℕ, ◌+◌, ◌*◌, ◌/◌, ◌%◌, ◌^◌, ◌≡◌, arith, bit_xor, IsU64, IsByte}

-- A byte behind a number.
abbrev pub join : ℕ → ℕ → ℕ
join p q = p * 2 ^ 8 + q

-- The number with these bytes, the first at the top.
unfoldable pub of_bytes8 : ℕ → ℕ → ℕ → ℕ → ℕ → ℕ → ℕ → ℕ → ℕ
of_bytes8 a b c d e f g h = join (join (join (join (join (join (join a b) c) d) e) f) g) h

unfoldable pub byte_at : ℕ → ℕ → ℕ
byte_at k x = x / 2 ^ (8 * k) % 2 ^ 8

unfoldable pub swap64 : ℕ → ℕ
unfolding of_bytes8 byte_at
swap64 x =
    of_bytes8 (byte_at 0 x) (byte_at 1 x) (byte_at 2 x) (byte_at 3 x) (byte_at 4 x) (byte_at 5 x)
      (byte_at 6 x) (byte_at 7 x)

pub byte_at-IsByte : (k x : ℕ) → IsByte (byte_at k x)
unfolding byte_at
byte_at-IsByte k x = omega arith

pub swap64-IsU64 : (x : ℕ) → IsU64 (swap64 x)
unfolding swap64 of_bytes8
swap64-IsU64 x = omega (
  arith,
  byte_at-IsByte 0 x,
  byte_at-IsByte 1 x,
  byte_at-IsByte 2 x,
  byte_at-IsByte 3 x,
  byte_at-IsByte 4 x,
  byte_at-IsByte 5 x,
  byte_at-IsByte 6 x,
  byte_at-IsByte 7 x,
)

pub split8 :
    (x : ℕ)
    → IsU64 x
    → of_bytes8
        (byte_at 7 x)
        (byte_at 6 x)
        (byte_at 5 x)
        (byte_at 4 x)
        (byte_at 3 x)
        (byte_at 2 x)
        (byte_at 1 x)
        (byte_at 0 x)
      ≡ x
unfolding of_bytes8 byte_at
split8 x h = omega arith

module _ (a b c d e f g h : ℕ) (ha : IsByte a) (hb : IsByte b) (hc : IsByte c) (hd : IsByte d)
    (he : IsByte e) (hf : IsByte f) (hg : IsByte g) (hh : IsByte h) where
  swap_bytes : swap64 (of_bytes8 a b c d e f g h) ≡ of_bytes8 h g f e d c b a
  unfolding swap64 of_bytes8 byte_at
  swap_bytes = omega arith

-- Swapping twice gives the number back.
pub swap_self : (x : ℕ) → IsU64 x → swap64 (swap64 x) ≡ x
unfolding swap64
swap_self x h =
    swap_bytes (byte_at 0 x) (byte_at 1 x) (byte_at 2 x) (byte_at 3 x) (byte_at 4 x) (byte_at 5 x)
      (byte_at 6 x) (byte_at 7 x) (byte_at-IsByte 0 x) (byte_at-IsByte 1 x) (byte_at-IsByte 2 x)
      (byte_at-IsByte 3 x) (byte_at-IsByte 4 x) (byte_at-IsByte 5 x) (byte_at-IsByte 6 x)
      (byte_at-IsByte 7 x)
    ∙ split8 x h

join-xor :
    (p q r s : ℕ)
    → IsByte q
    → IsByte s
    → bit_xor (join p q) (join r s) ≡ join (bit_xor p r) (bit_xor q s)
join-xor p q r s hq hs = xor-join 8 p q r s hq hs

pub byte_at-xor : (k x y : ℕ) → byte_at k (bit_xor x y) ≡ bit_xor (byte_at k x) (byte_at k y)
unfolding byte_at
byte_at-xor k x y =
    ap (λ (n : ℕ). n % 2 ^ 8) (xor_div (8 * k) x y) ∙ xor_mod 8 (x / 2 ^ (8 * k)) (y / 2 ^ (8 * k))

-- Swapping commutes with `^`.
pub swap64-xor : (x y : ℕ) → swap64 (bit_xor x y) ≡ bit_xor (swap64 x) (swap64 y)
unfolding swap64 of_bytes8
swap64-xor x y =
    let b : (k n : ℕ) → IsByte (byte_at k n) = byte_at-IsByte in
    rw (
      byte_at-xor 0 x y,
      byte_at-xor 1 x y,
      byte_at-xor 2 x y,
      byte_at-xor 3 x y,
      byte_at-xor 4 x y,
      byte_at-xor 5 x y,
      byte_at-xor 6 x y,
      byte_at-xor 7 x y,
      join-xor _ _ _ _ (b 7 x) (b 7 y),
      join-xor _ _ _ _ (b 6 x) (b 6 y),
      join-xor _ _ _ _ (b 5 x) (b 5 y),
      join-xor _ _ _ _ (b 4 x) (b 4 y),
      join-xor _ _ _ _ (b 3 x) (b 3 y),
      join-xor _ _ _ _ (b 2 x) (b 2 y),
      join-xor _ _ _ _ (b 1 x) (b 1 y),
    )
