-- ===== src/PacketDataStream/Read.antt =====
-- What `operator>>(uint64_t &)` does: on an encoding it gives the number back, and on any bytes
-- its result depends on nothing but the bytes.
use libmumble.Prelude.{ℕ, zero, suc, ◌+◌, ◌*◌, ◌/◌, ◌^◌, ◌<◌, ◌≤◌, bit_and}
use libmumble.Prelude.{◌≡◌, ap, ◌∙◌, arith, Bool}
use libmumble.Prelude.{List, [], ◌∷◌, ◌++◌, append_assoc, append-nil, length}
use libmumble.Prelude.{All, IsByte, not64}
use libmumble.Prelude.Bits.{and_mask, and_field, or_sum}
use libmumble.PacketDataStream.{PacketDataStream, next, or_next, read_case}
use native.Mathlib.Nat.{mod-eq_of_lt, one-le-pow}
use native.Mathlib.Numerals.{towards_suc}

abbrev pub at : Bool → List ℕ → List ℕ → ℕ → PacketDataStream
at ok before ahead overshoot = record {
  ok = ok;
  before = before;
  ahead = ahead;
  overshoot = overshoot;
}

pow_eight : (s : ℕ) → 2 ^ (s + 8) ≡ 256 * 2 ^ s
pow_eight s = simp towards_suc (omega arith)

operand_fits : (b s : ℕ) → b < 2 ^ 8 → b * 2 ^ s < 2 ^ (s + 8)
operand_fits b s h =
    let most : b * 2 ^ s ≤ 255 * 2 ^ s = grind arith in
    omega (arith, pow_eight s, one-le-pow s 2 (omega arith))

-- One operand joins eight bits below those that are there.
or_next_byte :
    (shift q b : ℕ) (ok : Bool) (before rest : List ℕ) (o : ℕ)
    → b < 2 ^ 8
    → (q * 2 ^ 8 + b) * 2 ^ shift < 2 ^ 64
    → or_next shift (q * 2 ^ (shift + 8), at ok before (b ∷ rest) o)
      ≡ ((q * 2 ^ 8 + b) * 2 ^ shift, at ok (before ++ b ∷ []) rest o)
unfolding or_next next
or_next_byte shift q b ok before rest o hb h =
    let fits : b * 2 ^ shift < 2 ^ 64 = grind arith in
    let sum : q * 2 ^ (shift + 8) + b * 2 ^ shift ≡ (q * 2 ^ 8 + b) * 2 ^ shift =
      omega (arith, ap (λ (t : ℕ). q * t) (pow_eight shift)) in
    rw (
      mod-eq_of_lt {n = b * 2 ^ shift} {m = 2 ^ 64} fits,
      or_sum (shift + 8) q (b * 2 ^ shift) (operand_fits b shift hb),
      sum,
    )

byte_more : (n : ℕ) → 8 * suc n ≡ 8 * n + 8
byte_more n = omega arith

pow_byte : (n : ℕ) → 2 ^ (8 * suc n) ≡ 256 * 2 ^ (8 * n)
pow_byte n = rw (byte_more n) (pow_eight (8 * n))

-- The row of operands `next() << 8 * (n - 1) | … | next() << 0` over what stands above them.
abbrev pub or_row : ℕ → ℕ × PacketDataStream → ℕ × PacketDataStream
or_row zero p = p
or_row (suc n) p = or_row n (or_next (8 * n) p)

-- The number that big-endian bytes behind `q` stand for.
abbrev pub big_endian : ℕ → List ℕ → ℕ
big_endian q [] = q
big_endian q (b ∷ bs) = big_endian (q * 2 ^ 8 + b) bs

big_endian-ge : (q : ℕ) (bs : List ℕ) → q * 2 ^ (8 * length bs) ≤ big_endian q bs
big_endian-ge q [] = omega arith
big_endian-ge q (b ∷ bs) =
    let scaled : q * 2 ^ (8 * suc (length bs)) ≡ q * 2 ^ 8 * 2 ^ (8 * length bs) =
      omega (arith, ap (λ (t : ℕ). q * t) (pow_byte (length bs))) in
    let tail = big_endian-ge (q * 2 ^ 8 + b) bs in
    let more : q * 2 ^ 8 * 2 ^ (8 * length bs) ≤ (q * 2 ^ 8 + b) * 2 ^ (8 * length bs) =
      grind arith in
    omega arith

pub or_row_lem :
    (bs : List ℕ) (q : ℕ) (ok : Bool) (before rest : List ℕ) (o : ℕ)
    → All IsByte bs
    → big_endian q bs < 2 ^ 64
    → or_row (length bs) (q * 2 ^ (8 * length bs), at ok before (bs ++ rest) o)
      ≡ (big_endian q bs, at ok (before ++ bs) rest o)
or_row_lem [] q ok before rest o hb h =
    rw append-nil (ap (λ (t : ℕ). (t, at ok before rest o)) (omega arith))
or_row_lem (b ∷ bs) q ok before rest o (hb, hbs) h =
    let n = length bs in
    let fits : (q * 2 ^ 8 + b) * 2 ^ (8 * n) < 2 ^ 64 =
      omega (arith, big_endian-ge (q * 2 ^ 8 + b) bs) in
    ap (λ (k : ℕ). or_row n (or_next (8 * n) (q * 2 ^ k, at ok before (b ∷ (bs ++ rest)) o)))
      (byte_more n)
    ∙ ap (or_row n) (or_next_byte (8 * n) q b ok before (bs ++ rest) o hb fits)
    ∙ or_row_lem bs (q * 2 ^ 8 + b) ok (before ++ b ∷ []) rest o hbs h
    ∙ ap (λ t. (big_endian q (b ∷ bs), at ok t rest o)) (append_assoc before (b ∷ []) bs)

-- The fields of a first byte.
pub field_80 : (t : ℕ) → t < 2 ^ 8 → bit_and t 0x80 ≡ t / 2 ^ 7 * 2 ^ 7
field_80 t h = omega (arith, and_field 7 1 t)

pub field_c0 : (t : ℕ) → t < 2 ^ 8 → bit_and t 0xc0 ≡ t / 2 ^ 6 * 2 ^ 6
field_c0 t h = omega (arith, and_field 6 2 t)

pub field_e0 : (t : ℕ) → t < 2 ^ 8 → bit_and t 0xe0 ≡ t / 2 ^ 5 * 2 ^ 5
field_e0 t h = omega (arith, and_field 5 3 t)

pub field_f0 : (t : ℕ) → t < 2 ^ 8 → bit_and t 0xf0 ≡ t / 2 ^ 4 * 2 ^ 4
field_f0 t h = omega (arith, and_field 4 4 t)

pub field_fc : (t : ℕ) → t < 2 ^ 8 → bit_and t 0xfc ≡ t / 2 ^ 2 * 2 ^ 2
field_fc t h = omega (arith, and_field 2 6 t)

-- The kinds of first byte, `q` being the bits of the number that it holds.
module _ (old q : ℕ) (s : PacketDataStream) (nested : ℕ × PacketDataStream) where
  pub first_7 : q < 2 ^ 7 → read_case old q s nested ≡ (q, s)
  unfolding read_case
  first_7 h = ground (arith, field_80 q, and_mask 7 q)

  pub first_14 : q < 2 ^ 6 → read_case old (0x80 + q) s nested ≡ or_row 1 (q * 2 ^ 8, s)
  unfolding read_case
  first_14 h = let t = 0x80 + q in ground (arith, field_80 t, field_c0 t, and_mask 6 t)

  pub first_21 : q < 2 ^ 5 → read_case old (0xc0 + q) s nested ≡ or_row 2 (q * 2 ^ 16, s)
  unfolding read_case
  first_21 h =
      let t = 0xc0 + q in
      ground (arith, field_80 t, field_c0 t, field_e0 t, field_f0 t, and_mask 5 t)

  pub first_28 : q < 2 ^ 4 → read_case old (0xe0 + q) s nested ≡ or_row 3 (q * 2 ^ 24, s)
  unfolding read_case
  first_28 h = let t = 0xe0 + q in ground (arith, field_80 t, field_c0 t, field_f0 t, and_mask 4 t)

  pub first_32 : q < 4 → read_case old (0xf0 + q) s nested ≡ or_row 4 (0, s)
  unfolding read_case
  first_32 h = let t = 0xf0 + q in ground (arith, field_80 t, field_c0 t, field_f0 t, field_fc t)

  pub first_64 : q < 4 → read_case old (0xf4 + q) s nested ≡ or_row 8 (0, s)
  unfolding read_case
  first_64 h = let t = 0xf4 + q in ground (arith, field_80 t, field_c0 t, field_f0 t, field_fc t)

  pub first_negative : q < 4 → read_case old (0xf8 + q) s nested ≡ (not64 nested.0, nested.1)
  unfolding read_case
  first_negative h =
      let t = 0xf8 + q in ground (arith, field_80 t, field_c0 t, field_f0 t, field_fc t)

  pub first_short : q < 4 → read_case old (0xfc + q) s nested ≡ (not64 q, s)
  unfolding read_case
  first_short h =
      let t = 0xfc + q in
      ground (arith, field_80 t, field_c0 t, field_f0 t, field_fc t, and_mask 2 t)
