-- ===== src/PacketDataStream/ValueTrips.antt =====
-- Narrow integers, blocks and strings through a buffer with room for them.
use libmumble.Prelude.{ℕ, ◌+◌, ◌%◌, ◌^◌, ◌<◌, ◌≤◌, ◌⊎◌, inl, inr}
use libmumble.Prelude.{◌≡◌, refl, sym, ap, ◌∙◌, arith, le→leb, le→ltb_false, Bool, true, false}
use libmumble.Prelude.{List, [], ◌++◌, append_assoc, length, drop, take-all}
use libmumble.Prelude.{take-append_length, drop-append_length}
use mathlib.Core.Path.{subst}
use libmumble.Prelude.{ltb, IsU64, IsU32, length-drop, length-append}
use libmumble.PacketDataStream.{PacketDataStream, open_buf, rewind, buf, write_u64}
use libmumble.PacketDataStream.{append_block}
use libmumble.PacketDataStream.Encoding.{encoding}
use libmumble.PacketDataStream.Write.{write_u64-appended}
use libmumble.PacketDataStream.Read.{at}
use libmumble.PacketDataStream.RoundTrip.{read_u64-encoding}
use libmumble.PacketDataStream.Values.{sign_extend, write_int, read_int, write_block, write_string}
use libmumble.PacketDataStream.Values.{read_block}
use native.Mathlib.Nat.{mod-eq_of_lt}

pub write_u64_fresh :
    (v : ℕ) (memory : List ℕ)
    → IsU64 v
    → length (encoding v) ≤ length memory
    → write_u64 v (at true [] memory 0) ≡ at true (encoding v) (drop (length (encoding v)) memory) 0
write_u64_fresh v memory h fits =
    write_u64-appended v (at true [] memory 0) h (omega arith)
    ∙ ground (arith, take-all (encoding v) (length memory) fits)

-- A `w`-bit type for which the library instantiates the operators.
abbrev pub IsWidth : ℕ → Type 0
IsWidth w = (w ≡ 8) ⊎ (w ≡ 16) ⊎ (w ≡ 32)

abbrev SignExtends : ℕ → ℕ → Type 0
SignExtends w x = x < 2 ^ w → IsU64 (sign_extend w x) × (sign_extend w x % 2 ^ w ≡ x)

sign_extend_back :
    (w x : ℕ) → IsWidth w → x < 2 ^ w → IsU64 (sign_extend w x) × (sign_extend w x % 2 ^ w ≡ x)
unfolding sign_extend
sign_extend_back w x width h = go width
  where
    at_width : (n : ℕ) → w ≡ n → SignExtends n x → SignExtends w x
    at_width n e = subst (λ k. SignExtends k x) (sym e)

    go : IsWidth w → IsU64 (sign_extend w x) × (sign_extend w x % 2 ^ w ≡ x)
    go (inl e) = at_width 8 e (λ h. ground arith) h
    go (inr (inl e)) = at_width 16 e (λ h. ground arith) h
    go (inr (inr e)) = at_width 32 e (λ h. ground arith) h

-- A signed integer of 8, 16 or 32 bits, negative or not, that is written to a fresh stream with
-- room for it is read back after a rewind, with the cursor where the writer left it.
pub read_int-write_int :
    (w x : ℕ) (memory : List ℕ)
    → IsWidth w
    → x < 2 ^ w
    → length (encoding (sign_extend w x)) ≤ length memory
    → let written = write_int w x (open_buf memory) in
      read_int w (rewind written) ≡ (x, written) × (written.ok ≡ true)
unfolding open_buf rewind buf write_int read_int
read_int-write_int w x memory width h fits =
    let v = sign_extend w x in
    let ext = sign_extend_back w x width h in
    let rest = drop (length (encoding v)) memory in
    rw (write_u64_fresh v memory ext.0 fits, read_u64-encoding 0 v true [] rest 0 ext.0, ext.1)
      (refl, refl)

append_block_room :
    (block before ahead : List ℕ)
    → length block ≤ length ahead
    → append_block block (at true before ahead 0)
      ≡ at true (before ++ block) (drop (length block) ahead) 0
unfolding append_block
append_block_room block before ahead h = rw (le→leb _ _ h)

-- The size in front of a block tells where it ends.
pub read_block-encoding :
    (block before rest : List ℕ) (ok : Bool) (o : ℕ)
    → IsU32 (length block)
    → read_block (at ok before (encoding (length block) ++ (block ++ rest)) o)
      ≡ (block, at ok ((before ++ encoding (length block)) ++ block) rest o)
unfolding read_block read_int
read_block-encoding block before rest ok o h =
    let n = length block in
    let inside : ltb (length (block ++ rest)) n ≡ false =
      le→ltb_false _ _ (omega (arith, length-append block rest)) in
    rw (
      read_u64-encoding 0 n ok before (block ++ rest) o (omega arith),
      mod-eq_of_lt {n = n} {m = 2 ^ 32} h,
      inside,
      take-append_length block rest,
      drop-append_length block rest,
    )

-- A block of less than 2 ^ 32 bytes that is written to a fresh stream with room for it and its
-- size is read back after a rewind, with the cursor where the writer left it.
pub read_block-write_block :
    (block memory : List ℕ)
    → IsU32 (length block)
    → length (encoding (length block)) + length block ≤ length memory
    → let written = write_block block (open_buf memory) in
      read_block (rewind written) ≡ (block, written) × (written.ok ≡ true)
unfolding open_buf rewind buf write_block
read_block-write_block block memory h fits =
    let n = length block in
    let room = drop (length (encoding n)) memory in
    let tail = drop n room in
    let wrote : append_block block (write_u64 n (at true [] memory 0))
        ≡ at true (encoding n ++ block) tail 0 =
      ap (append_block block) (write_u64_fresh n memory (omega arith) (omega arith))
      ∙ append_block_room block (encoding n) room
          (omega (arith, length-drop (length (encoding n)) memory)) in
    rw (wrote, append_assoc (encoding n) block tail)
      (read_block-encoding block [] tail true 0 h, refl)

-- A string of less than 2 ^ 32 bytes is written as the block of its bytes.
pub write_string-write_block :
    (str : List ℕ) (s : PacketDataStream)
    → IsU32 (length str)
    → write_string str s ≡ write_block str s
unfolding write_string write_block
write_string-write_block str s h = rw (mod-eq_of_lt {n = length str} {m = 2 ^ 32} h)
