-- ===== src/Version/Blobs.antt =====
-- The two integer forms of a version.
use libmumble.Prelude.{ℕ, ◌+◌, ◌*◌, ◌/◌, ◌%◌, ◌^◌, bit_or, min, ◌≢◌, ◌↔◌}
use libmumble.Prelude.{◌≡◌, arith, true, IsU16, IsU64}
use libmumble.Prelude.Bits.{and_field, or_sum, and_mask, or-eq_zero, zero-or}
use libmumble.Version.{Version, of_blob64, of_blob32, blob64, blob32, is_valid}

-- The four parts fit `uint16_t`.
pub record IsVersion (v : Version) : Type 0 where
  pub major_fits : IsU16 v.major
  pub minor_fits : IsU16 v.minor
  pub patch_fits : IsU16 v.patch
  pub extra_fits : IsU16 v.extra

-- The 64-bit form as a sum.
blob64_sum :
    (v : Version)
    → IsVersion v
    → blob64 v ≡ v.major * 2 ^ 48 + v.minor * 2 ^ 32 + v.patch * 2 ^ 16 + v.extra
unfolding blob64
blob64_sum v h = ground (
  arith,
  or_sum 48 v.major (v.minor * 2 ^ 32),
  or_sum 32 (v.major * 2 ^ 16 + v.minor) (v.patch * 2 ^ 16),
  or_sum 16 (v.major * 2 ^ 32 + v.minor * 2 ^ 16 + v.patch) v.extra,
)

-- The parts of a 64-bit form.
of_blob64_parts :
    (b : ℕ)
    → IsU64 b
    → of_blob64 b ≡ record {
      major = b / 2 ^ 48;
      minor = b / 2 ^ 32 % 2 ^ 16;
      patch = b / 2 ^ 16 % 2 ^ 16;
      extra = b % 2 ^ 16;
    }
unfolding of_blob64
of_blob64_parts b h =
    ground (arith, and_field 48 16 b, and_field 32 16 b, and_field 16 16 b, and_mask 16 b)

-- The 64-bit form of a version gives the version back.
pub of_blob64-blob64 : (v : Version) → IsVersion v → of_blob64 (blob64 v) ≡ v
of_blob64-blob64 v h =
    ground (arith, blob64_sum v h, of_blob64_parts (blob64 v) (omega (arith, blob64_sum v h)))

of_blob64-IsVersion : (b : ℕ) → IsVersion (of_blob64 b)
unfolding of_blob64
of_blob64-IsVersion b = omega arith

-- Every 64-bit number is the form of the version that it is read as.
pub blob64-of_blob64 : (b : ℕ) → IsU64 b → blob64 (of_blob64 b) ≡ b
blob64-of_blob64 b h =
    ground (arith, of_blob64_parts b h, blob64_sum (of_blob64 b) (of_blob64-IsVersion b))

-- The 32-bit form keeps major, cuts minor and patch to at most 255, and forgets extra.
pub of_blob32-blob32 :
    (v : Version)
    → IsVersion v
    → of_blob32 (blob32 v)
      ≡ record { major = v.major; minor = min v.minor 255; patch = min v.patch 255; extra = 0 }
unfolding of_blob32 blob32
of_blob32-blob32 v h =
    let q = v.major * 2 ^ 16 + min v.minor 255 * 2 ^ 8 + min v.patch 255 in
    ground (
      arith,
      or_sum 16 v.major (min v.minor 255 * 2 ^ 8),
      or_sum 8 (v.major * 2 ^ 8 + min v.minor 255) (min v.patch 255),
      and_field 16 16 q,
      and_field 8 8 q,
      and_mask 8 q,
    )

-- A version is valid exactly if its 64-bit form is not zero.
pub is_valid-blob64 : (v : Version) → IsVersion v → (is_valid v ≡ true) ↔ (blob64 v ≢ 0)
unfolding is_valid
is_valid-blob64 v h = ground (
  arith,
  blob64_sum v h,
  zero-or v.minor,
  zero-or v.patch,
  zero-or v.extra,
  or-eq_zero v.major v.minor,
  or-eq_zero (bit_or v.major v.minor) v.patch,
  or-eq_zero (bit_or (bit_or v.major v.minor) v.patch) v.extra,
)
