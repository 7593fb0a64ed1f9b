-- ===== src/PacketDataStream/Write.antt =====
-- What `operator<<(uint64_t)` does to a stream of any size: it appends the bytes of the encoding
-- one by one, and counts those that find no room.
use libmumble.Prelude.{ℕ, ◌+◌, ◌-◌, ◌*◌, ◌/◌, ◌%◌, ◌^◌, ◌<◌, bit_and, bit_or}
use libmumble.Prelude.{◌≡◌, refl, ◌∙◌, arith, ◌&&◌}
use libmumble.Prelude.{tests, Bool-cases, inl, inr}
use native.Mathlib.Nat.{mod-eq_of_lt}
use libmumble.Prelude.{
  List, [], ◌∷◌, ◌++◌, append_assoc, append-nil, length, take, drop, take-nil, drop-nil,
}
use libmumble.Prelude.{ltb, leb, All, IsByte, IsU64, IsU32, u32, not64}
use libmumble.Prelude.Bits.{and_mask, and_field, or_sum, or_comm}
use libmumble.PacketDataStream.{PacketDataStream, append, write_magnitude, write_u64}
use libmumble.PacketDataStream.Encoding.{magnitude, encoding, encoding-IsByte}

abbrev pub append_all : List ℕ → PacketDataStream → PacketDataStream
append_all [] s = s
append_all (b ∷ bs) s = append_all bs (append b s)

-- `x >> k` joined to a prefix of ones that it does not reach.
or_prefix : (k q r : ℕ) → r < 2 ^ k → bit_or r (q * 2 ^ k) ≡ q * 2 ^ k + r
or_prefix k q r h = or_comm r (q * 2 ^ k) ∙ or_sum k q r h

low_byte : (x : ℕ) → bit_and x 0xff ≡ x % 2 ^ 8
low_byte x = and_mask 8 x

write_magnitude-append_all :
    (m : ℕ) (s : PacketDataStream) → IsU64 m → write_magnitude m s ≡ append_all (magnitude m) s
unfolding write_magnitude magnitude
write_magnitude-append_all m s h = simp low_byte (elim (Bool-cases (ltb m (2 ^ 7))) [
  | inl e ↦ rw e
  | inr d ↦ rw d (elim (Bool-cases (ltb m (2 ^ 14))) [
    | inl e ↦ rw (e, or_prefix 7 1 (m / 2 ^ 8) (omega tests))
    | inr d ↦ rw d (elim (Bool-cases (ltb m (2 ^ 21))) [
      | inl e ↦ rw (e, or_prefix 6 3 (m / 2 ^ 16) (omega tests))
      | inr d ↦ rw d (elim (Bool-cases (ltb m (2 ^ 28))) [
        | inl e ↦ rw (e, or_prefix 5 7 (m / 2 ^ 24) (omega tests))
        | inr d ↦ rw d (elim (Bool-cases (ltb m (2 ^ 32))) [
          | inl e ↦ rw (e, mod-eq_of_lt {n = m / 2 ^ 24} {m = 2 ^ 8} (omega tests))
          | inr d ↦ rw (d, mod-eq_of_lt {n = m / 2 ^ 56} {m = 2 ^ 8} (omega tests))
        ])
      ])
    ])
  ])
])

pub write_u64-append_all :
    (v : ℕ) (s : PacketDataStream) → IsU64 v → write_u64 v s ≡ append_all (encoding v) s
unfolding write_u64 encoding
write_u64-append_all v s h = ground (
  arith,
  and_field 63 1 v,
  or_sum 2 63 (not64 v),
  write_magnitude-append_all v s,
  write_magnitude-append_all (not64 v) (append 0xf8 s),
)

-- The state after a row of bytes, in one step.
abbrev pub appended : List ℕ → PacketDataStream → PacketDataStream
appended bs s = record {
  ok = s.ok && leb (length bs) (length s.ahead);
  before = s.before ++ take (length s.ahead) bs;
  ahead = drop (length bs) s.ahead;
  overshoot = u32 (s.overshoot + (length bs - length s.ahead));
}

append-IsU32 : (b : ℕ) (s : PacketDataStream) → IsU32 s.overshoot → IsU32 (append b s).overshoot
unfolding append
append-IsU32 b s k = ground arith

append_step :
    (b : ℕ) (bs : List ℕ) (s : PacketDataStream)
    → All IsByte (b ∷ bs)
    → IsU32 s.overshoot
    → append_all bs (append b s) ≡ appended bs (append b s)
    → append_all (b ∷ bs) s ≡ appended (b ∷ bs) s
unfolding append
append_step b bs s h k ih = go s.ahead refl
  where
    go : (rest : List ℕ) → s.ahead ≡ rest → append_all (b ∷ bs) s ≡ appended (b ∷ bs) s
    go [] e = ground (arith, drop-nil {A = ℕ} (length bs))
    go (a ∷ rest) e = ground (arith, append_assoc s.before (b ∷ []) (take (length rest) bs))

pub append_all_lem :
    (bs : List ℕ) (s : PacketDataStream)
    → All IsByte bs
    → IsU32 s.overshoot
    → append_all bs s ≡ appended bs s
append_all_lem [] s h k = ground (arith, append-nil s.before, take-nil {A = ℕ} (length s.ahead))
append_all_lem (b ∷ bs) s h k =
    append_step b bs s h k (append_all_lem bs (append b s) h.1 (append-IsU32 b s k))

-- Writing a 64-bit integer appends its encoding: the bytes that find room are stored in order and
-- the cursor passes them, the others are counted by the undersize, and the stream is good
-- afterwards exactly if it was and all of them fit.
pub write_u64-appended :
    (v : ℕ) (s : PacketDataStream)
    → IsU64 v
    → IsU32 s.overshoot
    → write_u64 v s ≡ appended (encoding v) s
write_u64-appended v s h k =
    write_u64-append_all v s h ∙ append_all_lem (encoding v) s (encoding-IsByte v h) k
