-- ===== src/PacketDataStream/Keeps.antt =====
-- Reading moves the cursor and touches nothing else, whatever the bytes are.
use libmumble.Prelude.{IsByte, All, ℕ, zero, suc, ◌*◌, ◌≤◌}
use libmumble.Prelude.{◌≡◌, refl, ◌∙◌, arith, true, bit_and}
use libmumble.Prelude.{List, [], ◌∷◌, ◌++◌, append_assoc, length, shl64, ap, sym, Bool}
use libmumble.Prelude.{take, drop, take-append-drop, length-drop}
use libmumble.PacketDataStream.Values.{read_block, read_int}
use libmumble.PacketDataStream.{PacketDataStream, buf, next, or_next, read_case, read_ahead}
use libmumble.PacketDataStream.{read_u64}
use libmumble.PacketDataStream.Read.{or_row, field_80, field_c0, field_e0, field_f0, field_fc}

-- `t` is `s` with the cursor moved forward, and good only if `s` is.
pub record Moved (s t : PacketDataStream) : Type 0 where
  pub same_buf : buf t ≡ buf s
  pub same_overshoot : t.overshoot ≡ s.overshoot
  pub forward : length t.ahead ≤ length s.ahead
  pub good_before : t.ok ≡ true → s.ok ≡ true

Moved-trans : {s t u : PacketDataStream} → Moved s t → Moved t u → Moved s u
Moved-trans m n = record {
  same_buf = n.same_buf ∙ m.same_buf;
  same_overshoot = n.same_overshoot ∙ m.same_overshoot;
  forward = omega arith;
  good_before = λ e. m.good_before (n.good_before e);
}

Moved-refl : (s : PacketDataStream) → Moved s s
Moved-refl s = record {
  same_buf = refl;
  same_overshoot = refl;
  forward = omega arith;
  good_before = λ e. e;
}

next-Moved : (s : PacketDataStream) → Moved s (next s).1
unfolding next buf
next-Moved s = go s.ahead refl
  where
    go : (rest : List ℕ) → s.ahead ≡ rest → Moved s (next s).1
    go [] e = ground arith
    go (b ∷ rest) e = ground (arith, append_assoc s.before (b ∷ []) rest)

or_next-Moved :
    (s : PacketDataStream) (shift : ℕ) (p : ℕ × PacketDataStream)
    → Moved s p.1
    → Moved s (or_next shift p).1
unfolding or_next
or_next-Moved s shift p m = Moved-trans m (next-Moved p.1)

-- A row of operands `next() << 8 * (n - 1) | … | next()`.
or_row-Moved :
    (s : PacketDataStream) (n : ℕ) (p : ℕ × PacketDataStream) → Moved s p.1 → Moved s (or_row n p).1
or_row-Moved s zero p m = m
or_row-Moved s (suc n) p m = or_row-Moved s n (or_next (8 * n) p) (or_next-Moved s (8 * n) p m)

read_case-Moved :
    (value tmp : ℕ) (s : PacketDataStream) (nested : ℕ × PacketDataStream)
    → Moved s nested.1
    → Moved s (read_case value tmp s nested).1
unfolding read_case buf
read_case-Moved value tmp s nested m =
    let two = or_row-Moved s 1 (shl64 (bit_and tmp 0x3f) 8, s) (Moved-refl s) in
    let three = or_row-Moved s 2 (shl64 (bit_and tmp 0x1f) 16, s) (Moved-refl s) in
    let four = or_row-Moved s 3 (shl64 (bit_and tmp 0x0f) 24, s) (Moved-refl s) in
    let five = or_row-Moved s 4 (0, s) (Moved-refl s) in
    let nine = or_row-Moved s 8 (0, s) (Moved-refl s) in ground arith

read_ahead-Moved :
    (value : ℕ) (bytes : List ℕ) (s : PacketDataStream) → Moved s (read_ahead value bytes s).1
unfolding read_ahead
read_ahead-Moved value [] s =
    Moved-trans (next-Moved s)
      (read_case-Moved value (next s).0 (next s).1 (value, (next s).1) (Moved-refl (next s).1))
read_ahead-Moved value (b ∷ bs) s = Moved-trans (next-Moved s) (
    read_case-Moved value (next s).0 (next s).1 (read_ahead value bs (next s).1)
      (read_ahead-Moved value bs (next s).1))

-- The five kinds of test on the first byte leave no other case.
read_case_any :
    (a b tmp : ℕ) (s : PacketDataStream) (m n : ℕ × PacketDataStream)
    → IsByte tmp
    → m ≡ n
    → read_case a tmp s m ≡ read_case b tmp s n
unfolding read_case
read_case_any a b tmp s m n h e =
    ground (arith, field_80 tmp, field_c0 tmp, field_e0 tmp, field_f0 tmp, field_fc tmp)

next-nil : (s : PacketDataStream) → s.ahead ≡ [] → (next s).0 ≡ 0
unfolding next
next-nil s e = ground arith

next-cons :
    (s : PacketDataStream) {x : ℕ} {xs : List ℕ}
    → s.ahead ≡ x ∷ xs
    → ((next s).0 ≡ x) × ((next s).1.ahead ≡ xs)
unfolding next
next-cons s e = ground arith

read_case_zero :
    (a tmp : ℕ) (s : PacketDataStream) (m : ℕ × PacketDataStream)
    → tmp ≡ 0
    → read_case a tmp s m ≡ (0, s)
unfolding read_case
read_case_zero a tmp s m e = rw e

read_ahead_any :
    (a b : ℕ) (bytes : List ℕ) (s : PacketDataStream)
    → s.ahead ≡ bytes
    → All IsByte bytes
    → read_ahead a bytes s ≡ read_ahead b bytes s
unfolding read_ahead
read_ahead_any a b [] s e h =
    let zero_byte = next-nil s e in
    read_case_zero a (next s).0 (next s).1 (a, (next s).1) zero_byte
    ∙ sym (read_case_zero b (next s).0 (next s).1 (b, (next s).1) zero_byte)
read_ahead_any a b (x ∷ xs) s e (hx, hxs) =
    let (first, rest) = next-cons s e in
    read_case_any a b (next s).0 (next s).1 (read_ahead a xs (next s).1)
      (read_ahead b xs (next s).1) (rw first hx) (read_ahead_any a b xs (next s).1 rest hxs)

-- What an integer read gives depends on the bytes alone, and not on what the target held before:
-- every byte begins one of the forms.
pub read_u64_any :
    (a b : ℕ) (s : PacketDataStream) → All IsByte s.ahead → read_u64 a s ≡ read_u64 b s
unfolding read_u64
read_u64_any a b s h = read_ahead_any a b s.ahead s refl h

-- Reading an integer from any bytes leaves the buffer and the undersize as they are, moves the
-- cursor forward only, and never makes a bad stream good.
pub read_u64-Moved : (value : ℕ) (s : PacketDataStream) → Moved s (read_u64 value s).1
unfolding read_u64
read_u64-Moved value s = read_ahead-Moved value s.ahead s

advance-Moved :
    (s : PacketDataStream) (n : ℕ) (good : Bool)
    → (good ≡ true → s.ok ≡ true)
    → Moved s (record s { ok = good; before = s.before ++ take n s.ahead; ahead = drop n s.ahead })
unfolding buf
advance-Moved s n good g = record {
  same_buf =
      append_assoc s.before (take n s.ahead) (drop n s.ahead)
      ∙ ap (λ t. s.before ++ t) (take-append-drop n s.ahead);
  same_overshoot = refl;
  forward = omega (arith, length-drop n s.ahead);
  good_before = g;
}

-- Reading a block or a string from any bytes leaves the buffer and the undersize as they are,
-- moves the cursor forward only, and never makes a bad stream good.
pub read_block-Moved : (s : PacketDataStream) → Moved s (read_block s).1
unfolding read_block read_int
read_block-Moved s =
    Moved-trans (read_u64-Moved 0 s) (advance-Moved (read_u64 0 s).1 _ _ (ground arith))
