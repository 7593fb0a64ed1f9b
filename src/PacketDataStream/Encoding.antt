-- ===== src/PacketDataStream/Encoding.antt =====
-- The bytes of a variable-length integer, in plain arithmetic, apart from any buffer.
use libmumble.Prelude.{ℕ, ◌+◌, ◌-◌, ◌/◌, ◌%◌, ◌^◌, ◌<◌, ◌≤◌, List, [], ◌∷◌, arith}
use libmumble.Prelude.{ltb, leb, if◌then◌else◌, length, All, IsByte, IsU64}

-- 7, 14, 21 and 28 bits behind a growing prefix of ones, then 32 and 64 bits behind a whole byte.
unfoldable pub magnitude : ℕ → List ℕ
magnitude m =
    if ltb m (2 ^ 7)
    then m ∷ []
    else if ltb m (2 ^ 14)
    then (0x80 + m / 2 ^ 8) ∷ m % 2 ^ 8 ∷ []
    else if ltb m (2 ^ 21)
    then (0xc0 + m / 2 ^ 16) ∷ m / 2 ^ 8 % 2 ^ 8 ∷ m % 2 ^ 8 ∷ []
    else if ltb m (2 ^ 28)
    then (0xe0 + m / 2 ^ 24) ∷ m / 2 ^ 16 % 2 ^ 8 ∷ m / 2 ^ 8 % 2 ^ 8 ∷ m % 2 ^ 8 ∷ []
    else if ltb m (2 ^ 32)
    then 0xf0 ∷ m / 2 ^ 24 ∷ m / 2 ^ 16 % 2 ^ 8 ∷ m / 2 ^ 8 % 2 ^ 8 ∷ m % 2 ^ 8 ∷ []
    else 0xf4
      ∷ m / 2 ^ 56
      ∷ m / 2 ^ 48 % 2 ^ 8
      ∷ m / 2 ^ 40 % 2 ^ 8
      ∷ m / 2 ^ 32 % 2 ^ 8
      ∷ m / 2 ^ 24 % 2 ^ 8
      ∷ m / 2 ^ 16 % 2 ^ 8
      ∷ m / 2 ^ 8 % 2 ^ 8
      ∷ m % 2 ^ 8
      ∷ []

-- The 2 ^ 32 highest values stand for the negative numbers from -1 on, by their complement.
unfoldable pub encoding : ℕ → List ℕ
encoding v =
    if leb (2 ^ 64 - 2 ^ 32) v
    then (if leb (2 ^ 64 - 4) v
        then (0xfc + (2 ^ 64 - 1 - v)) ∷ []
        else 0xf8 ∷ magnitude (2 ^ 64 - 1 - v))
    else magnitude v

magnitude-IsByte : (m : ℕ) → IsU64 m → All IsByte (magnitude m)
unfolding magnitude
magnitude-IsByte m h = ground arith

length-magnitude :
    (m : ℕ)
    → (1 ≤ length (magnitude m))
      × (length (magnitude m) ≤ 9)
      × (m < 2 ^ 32 → length (magnitude m) ≤ 5)
unfolding magnitude
length-magnitude m = ground arith

pub encoding-IsByte : (v : ℕ) → IsU64 v → All IsByte (encoding v)
unfolding encoding
encoding-IsByte v h = ground (arith, magnitude-IsByte v, magnitude-IsByte (2 ^ 64 - 1 - v))

pub length-encoding : (v : ℕ) → (1 ≤ length (encoding v)) × (length (encoding v) ≤ 9)
unfolding encoding
length-encoding v = ground (arith, length-magnitude v, length-magnitude (2 ^ 64 - 1 - v))
