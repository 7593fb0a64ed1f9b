-- ===== src/Version/Tests.antt =====
-- The theorems on versions at concrete inputs.
use libmumble.Prelude.{◌≡◌, ◌≢◌, ◌↔◌, ◌+◌, refl, arith, true}
use libmumble.Version.{Version, of_blob64, of_blob32, blob64, blob32, is_valid}
use libmumble.Version.Blobs.{IsVersion, of_blob64-blob64, blob64-of_blob64, of_blob32-blob32}
use libmumble.Version.Blobs.{is_valid-blob64}

abbrev release : Version
release = record { major = 1; minor = 5; patch = 634; extra = 2 }

release-IsVersion : IsVersion release
release-IsVersion = omega arith

release_forms : blob64 release + blob32 release ≡ 0x1000_5027a_0002 + 0x105ff
unfolding blob64 blob32
release_forms = refl

of_blob64-blob64_example : of_blob64 (blob64 release) ≡ release
of_blob64-blob64_example = of_blob64-blob64 release release-IsVersion

blob64-of_blob64_example : blob64 (of_blob64 0x0001_0005_027a_0002) ≡ 0x0001_0005_027a_0002
blob64-of_blob64_example = blob64-of_blob64 0x0001_0005_027a_0002 (omega arith)

release_is_read_back :
    of_blob32 (blob32 release) ≡ record { major = 1; minor = 5; patch = 255; extra = 0 }
release_is_read_back = of_blob32-blob32 release release-IsVersion

is_valid-blob64_example : (is_valid release ≡ true) ↔ (blob64 release ≢ 0)
is_valid-blob64_example = is_valid-blob64 release release-IsVersion
