-- ===== src/Crypt/Process.antt =====
-- `Crypt::encrypt` and `decrypt` of src/Crypt.cpp, over OpenSSL.
use libmumble.Prelude.{
  ℕ, ◌+◌, Bool, true, false, not, ◌||◌, ◌&&◌, Option, none, some, [], ◌++◌, length, ltb, ◌==◌,
  if◌then◌else◌,
}
use libmumble.Tcp.Fields.{Bytes}
use libmumble.Evp.{Evp, on_call, on_bytes}
use libmumble.Crypt.{State, Crypt, checked, or_zero}

-- The size that is returned, and what was written to the output and to the tag; nothing where it fails.
pub record Processed : Type 0 where
  pub written : ℕ
  pub output : Bytes
  pub tag : Bytes

abbrev pub nothing : Processed
nothing = record { written = 0; output = []; tag = [] }

unfoldable pub same_mode : Bool → Bool → Bool
same_mode true b = b
same_mode false b = not b

module _ (evp : Evp) where
  -- The size that is asked for with an empty output.
  unfoldable pub size_for : Bytes → State evp → evp.Ctx → ℕ
  unfolding or_zero
  size_for input st c =
      let size = or_zero (evp.block_size_of c) in
      if st.has_padding && ltb 1 size then length input + size else length input

  -- The mode, with the key and the nonce where it changes.
  unfoldable pub begin : Bool → State evp → evp.Ctx → Bool × evp.Ctx
  unfolding same_mode
  begin encrypt st c =
      if same_mode (evp.is_encrypting c) encrypt
      then evp.init none none none (some encrypt) c
      else evp.init none (some st.p_key) (some st.p_nonce) (some encrypt) c

  unfoldable pub give_tag : Bool → Bytes → evp.Ctx → Bool × evp.Ctx
  give_tag encrypt tag c = if encrypt || (length tag == 0) then (true, c) else evp.set_tag tag c

  unfoldable pub give_aad : Bytes → evp.Ctx → Bool × evp.Ctx
  give_aad aad c = if length aad == 0 then (true, c) else evp.update_aad aad c

  unfoldable pub take_tag : Bool → ℕ → evp.Ctx → Option Bytes × evp.Ctx
  take_tag encrypt size c = if not encrypt || (size == 0) then (some [], c) else evp.get_tag size c

  abbrev gives_up : evp.Ctx → Processed × evp.Ctx
  gives_up c = (nothing, c)

  -- Behind the mode, the padding, the tag and the additional data.
  unfoldable pub transform : Bool → Bytes → ℕ → evp.Ctx → Processed × evp.Ctx
  unfolding on_bytes take_tag
  transform encrypt input tag_size ctx = on_bytes (evp.update input ctx) gives_up (λ written c1.
      on_bytes (evp.final c1) gives_up (λ more c2.
        on_bytes (take_tag encrypt tag_size c2) gives_up (λ tag c3.
          let output = written ++ more in
          (record { written = length output; output = output; tag = tag }, c3))))

  -- `P::process`, with the size of the output.
  unfoldable pub process :
      Bool → ℕ → Bytes → Bytes → Bytes → State evp → evp.Ctx → Processed × evp.Ctx
  unfolding on_call begin give_tag give_aad transform size_for
  process encrypt out_size input tag aad st ctx =
      if out_size == 0
      then (record nothing { written = size_for input st ctx }, ctx)
      else on_call (begin encrypt st ctx) gives_up (λ c1.
        on_call (evp.set_padding st.has_padding c1) gives_up (λ c2.
          on_call (give_tag encrypt tag c2) gives_up
            (λ c3. on_call (give_aad aad c3) gives_up (transform encrypt input (length tag)))))

  unfoldable pub processed : Bool → ℕ → Bytes → Bytes → Bytes → Crypt evp → Processed × Crypt evp
  unfolding checked process
  processed encrypt out_size input tag aad crypt =
      checked evp (nothing, crypt)
        (λ st c.
          (let r = process encrypt out_size input tag aad st c in
            (r.0, some (record st { ctx = some r.1 }))))
        crypt

  unfoldable pub encrypt : ℕ → Bytes → Bytes → Bytes → Crypt evp → Processed × Crypt evp
  unfolding processed
  encrypt = processed true

  unfoldable pub decrypt : ℕ → Bytes → Bytes → Bytes → Crypt evp → Processed × Crypt evp
  unfolding processed
  decrypt = processed false
