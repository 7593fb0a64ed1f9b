-- ===== src/PacketDataStream/Tests.antt =====
-- Runs of the stream on small buffers, and the theorems at concrete inputs.
use libmumble.Prelude.{ℕ, ◌-◌, ◌^◌, ◌≡◌, refl, arith, true, false, inl, inr}
use libmumble.Prelude.{List, [], ◌∷◌, replicate}
use libmumble.PacketDataStream.{PacketDataStream, open_buf, rewind, buf, append, write_magnitude}
use libmumble.PacketDataStream.{write_u64, read_u64, next}
use libmumble.PacketDataStream.Encoding.{magnitude, encoding}
use libmumble.PacketDataStream.Write.{appended}
use libmumble.PacketDataStream.Buffers.{write_all, read_all, write_all-appended, read_all-write_all}
use libmumble.PacketDataStream.Values.{sign_extend, write_int, read_int, write_block, read_block}
use libmumble.PacketDataStream.Values.{read_float}
use libmumble.PacketDataStream.ValueTrips.{read_int-write_int, read_block-write_block}
use libmumble.PacketDataStream.Keeps.{Moved, read_u64-Moved, read_u64_any, read_block-Moved}

abbrev room : ℕ → List ℕ
room n = replicate n 0xaa

bytes_300 : buf (write_u64 300 (open_buf (room 3))) ≡ 0x81 ∷ 0x2c ∷ 0xaa ∷ []
unfolding buf write_u64 write_magnitude append open_buf
bytes_300 = refl

bytes_minus_3 : buf (write_int 32 (2 ^ 32 - 3) (open_buf (room 2))) ≡ 0xfe ∷ 0xaa ∷ []
unfolding buf write_int write_u64 write_magnitude append open_buf
bytes_minus_3 = refl

-- Four of the six bytes of -1000000000 do not fit.
short_buffer :
    write_int 32 (2 ^ 32 - 1000000000) (open_buf (room 2))
    ≡ record { ok = false; before = 0xf8 ∷ 0xf0 ∷ []; ahead = []; overshoot = 4 }
unfolding write_int write_u64 write_magnitude append open_buf
short_buffer = refl

-- A prefix of complements is undone from the inside out.
nested : (read_u64 7 (open_buf (0xf8 ∷ 0xf8 ∷ 0x05 ∷ []))).0 ≡ 5
unfolding read_u64 open_buf
nested = refl

float_cut : (read_float (open_buf (1 ∷ 2 ∷ []))).0 ≡ (1, 2, 0, 0)
unfolding read_float open_buf next
float_cut = refl

write_all-appended_example :
    write_all (300 ∷ 5 ∷ []) (open_buf (room 2))
    ≡ appended (0x81 ∷ 0x2c ∷ 5 ∷ []) (open_buf (room 2))
unfolding open_buf encoding magnitude
write_all-appended_example =
    write_all-appended (300 ∷ 5 ∷ []) (open_buf (room 2)) (omega arith) (omega arith)

read_all-write_all_example :
    let written = write_all (300 ∷ (2 ^ 64 - 1) ∷ []) (open_buf (room 4)) in
    read_all 2 (rewind written) ≡ (300 ∷ (2 ^ 64 - 1) ∷ [], written) × (written.ok ≡ true)
unfolding encoding magnitude
read_all-write_all_example =
    read_all-write_all (300 ∷ (2 ^ 64 - 1) ∷ []) (room 4) (omega arith) (omega arith)

read_int-write_int_example :
    let written = write_int 16 (2 ^ 16 - 1000) (open_buf (room 3)) in
    read_int 16 (rewind written) ≡ (2 ^ 16 - 1000, written) × (written.ok ≡ true)
unfolding encoding magnitude sign_extend
read_int-write_int_example =
    read_int-write_int 16 (2 ^ 16 - 1000) (room 3) (inr (inl refl)) (omega arith) (omega arith)

read_block-write_block_example :
    let written = write_block (7 ∷ 8 ∷ []) (open_buf (room 3)) in
    read_block (rewind written) ≡ (7 ∷ 8 ∷ [], written) × (written.ok ≡ true)
unfolding encoding magnitude
read_block-write_block_example =
    read_block-write_block (7 ∷ 8 ∷ []) (room 3) (omega arith) (omega arith)

abbrev cut_number : PacketDataStream
cut_number = record { ok = true; before = []; ahead = 0xf4 ∷ 1 ∷ []; overshoot = 0 }

read_u64-Moved_example : Moved cut_number (read_u64 0 cut_number).1
read_u64-Moved_example = read_u64-Moved 0 cut_number

read_block-Moved_example : Moved cut_number (read_block cut_number).1
read_block-Moved_example = read_block-Moved cut_number

read_u64_any_example : read_u64 3 cut_number ≡ read_u64 4 cut_number
read_u64_any_example = read_u64_any 3 4 cut_number (omega arith)
