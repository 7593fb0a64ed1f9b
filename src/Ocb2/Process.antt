-- ===== src/Ocb2/Process.antt =====
-- `CryptOCB2::P::process` of src/CryptOCB2.cpp, over OpenSSL.
use libmumble.Prelude.{Bool, true, false, not, none, some, List, [], ◌∷◌, ◌++◌, if◌then◌else◌}
use libmumble.Tcp.Fields.{Bytes}
use libmumble.Evp.{Evp, on_call, on_bytes}

unfoldable pub same_mode : Bool → Bool → Bool
same_mode true b = b
same_mode false b = not b

module _ (evp : Evp) where
  -- Nothing where it fails.
  abbrev gives_up : evp.Ctx → Bytes × evp.Ctx
  gives_up c = ([], c)

  -- The bytes are written in two parts.
  unfoldable pub transform : Bytes → evp.Ctx → Bytes × evp.Ctx
  unfolding on_bytes
  transform input ctx =
      on_bytes (evp.update input ctx) gives_up
        (λ written c. on_bytes (evp.final c) gives_up (λ more c'. (written ++ more, c')))

  -- With the key of the object.
  unfoldable pub process : Bytes → Bool → Bytes → evp.Ctx → Bytes × evp.Ctx
  unfolding on_call transform same_mode
  process key encrypt input ctx =
      let keys = if same_mode (evp.is_encrypting ctx) encrypt then none else some key in
      on_call (evp.init none keys none (some encrypt) ctx) gives_up
        (λ c. on_call (evp.set_padding false c) gives_up (transform input))

  -- A number of calls in a row, each with its mode.
  unfoldable pub process_all : Bytes → List (Bool × Bytes) → evp.Ctx → List Bytes × evp.Ctx
  unfolding process
  process_all key [] ctx = ([], ctx)
  process_all key (call ∷ calls) ctx =
      let now = process key call.0 call.1 ctx in
      let later = process_all key calls now.1 in (now.0 ∷ later.0, later.1)
