-- ===== src/Version.antt =====
-- `Version` of include/mumble/Types.hpp: four 16-bit numbers, their 64-bit form, and the older
-- 32-bit form, which saturates minor and patch at 8 bits and has no extra.
pub mod Blobs
mod Tests
use libmumble.Prelude.{ℕ, bit_and, bit_or, Bool, not, ◌==◌, u16, u32, shl64, shr, ◌*◌, ◌^◌, min}

pub record Version : Type 0 where
  pub major : ℕ
  pub minor : ℕ
  pub patch : ℕ
  pub extra : ℕ

-- `Version(const uint64_t blob)`.
unfoldable pub of_blob64 : ℕ → Version
of_blob64 blob = record {
  major = u16 (shr (bit_and blob 0xffff000000000000) 48);
  minor = u16 (shr (bit_and blob 0xffff00000000) 32);
  patch = u16 (shr (bit_and blob 0xffff0000) 16);
  extra = u16 (shr (bit_and blob 0xffff) 0);
}

-- `Version(const uint32_t blob)`.
unfoldable pub of_blob32 : ℕ → Version
of_blob32 blob = record {
  major = u16 (shr (bit_and blob 0xffff0000) 16);
  minor = u16 (shr (bit_and blob 0xff00) 8);
  patch = u16 (shr (bit_and blob 0xff) 0);
  extra = 0;
}

unfoldable pub blob64 : Version → ℕ
blob64 v =
    bit_or (bit_or (bit_or (shl64 v.major 48) (shl64 v.minor 32)) (shl64 v.patch 16))
      (shl64 v.extra 0)

-- `x << k` on a `uint32_t`.
abbrev shl32 : ℕ → ℕ → ℕ
shl32 x k = u32 (x * 2 ^ k)

unfoldable pub blob32 : Version → ℕ
blob32 v =
    bit_or (bit_or (shl32 (min v.major 0xffff) 16) (shl32 (min v.minor 0xff) 8))
      (shl32 (min v.patch 0xff) 0)

unfoldable pub is_valid : Version → Bool
is_valid v = not (bit_or (bit_or (bit_or v.major v.minor) v.patch) v.extra == 0)
