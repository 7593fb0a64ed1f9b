-- ===== src/Crypt.antt =====
-- `Crypt` of src/Crypt.cpp, over OpenSSL: what it holds, and its operations but `encrypt` and `decrypt`.
-- What a generator of random bytes answers is an argument. Sizes are below 2 ^ 31, where the casts to
-- `int` keep them.
pub mod Process
pub mod Keys
pub mod Aead
pub mod Trips
mod Tests
use libmumble.Prelude.{
  ℕ, zero, suc, Bool, true, false, not, Option, none, some, List, [], ◌∷◌, length, ◌==◌,
  if◌then◌else◌, u32,
}
use libmumble.Tcp.Fields.{Bytes}
use libmumble.Evp.{Evp, on_call}

unfoldable pub or_zero : Option ℕ → ℕ
or_zero none = 0
or_zero (some n) = n

unfoldable pub or_empty : Option Bytes → Bytes
or_empty none = []
or_empty (some bytes) = bytes

module _ (evp : Evp) where
  -- `Crypt::P`; the context is none where it could not be made.
  pub record State : Type 0 where
    pub p_key : Bytes
    pub p_nonce : Bytes
    pub has_padding : Bool
    pub ctx : Option evp.Ctx

  -- `Crypt`: none where it was moved from.
  abbrev pub Crypt : Type 0
  Crypt = Option State

  unfoldable pub has_cipher : Option evp.Cipher → Bool
  has_cipher none = false
  has_cipher (some cipher) = true

  -- `P::operator bool`.
  unfoldable pub with_cipher : {A : Type 0} → A → (evp.Ctx → A) → Option evp.Ctx → A
  unfolding has_cipher
  with_cipher fail next none = fail
  with_cipher fail next (some c) = if has_cipher (evp.cipher_of c) then next c else fail

  -- `CHECK`, with what is returned where it fails, and what comes behind it.
  unfoldable pub checked : {A : Type 0} → A → (State → evp.Ctx → A) → Crypt → A
  unfolding with_cipher
  checked fail next none = fail
  checked fail next (some st) = with_cipher fail (next st) st.ctx

  -- `Crypt::operator bool`.
  unfoldable pub is_usable : Crypt → Bool
  unfolding checked
  is_usable = checked false (λ st c. true)

  abbrev with_ctx : State → evp.Ctx → Crypt
  with_ctx st c = some (record st { ctx = some c })

  -- The name and the context of `P::setCipher`, and the cipher of that name.
  unfoldable pub cipher_called : Bytes → Option evp.Cipher
  cipher_called [] = some evp.null_cipher
  cipher_called (b ∷ name) = evp.cipher_by_name (b ∷ name)

  unfoldable pub give_cipher : Option evp.Cipher → State → evp.Ctx → Bool × Crypt
  unfolding on_call
  give_cipher none st ctx = (false, some st)
  give_cipher (some cipher) st ctx =
      on_call (evp.init (some cipher) none none none ctx) (λ c. (false, with_ctx st c))
        (λ c. (true, some (record st { p_key = []; p_nonce = []; ctx = some c })))

  -- `P::setCipher`. The buffers get their size and lose it again: `m_key = {}` makes a vector empty.
  unfoldable pub p_set_cipher : Bytes → State → evp.Ctx → Bool × Crypt
  unfolding cipher_called give_cipher
  p_set_cipher name = give_cipher (cipher_called name)

  unfoldable pub set_cipher : Bytes → Crypt → Bool × Crypt
  unfolding checked p_set_cipher
  set_cipher name crypt = checked (false, crypt) (p_set_cipher name) crypt

  unfoldable pub with_null : Option evp.Ctx → State → Crypt
  unfolding p_set_cipher
  with_null none st = some st
  with_null (some c) st = (p_set_cipher [] st c).1

  -- `Crypt::Crypt()` and `P::P()`.
  unfoldable pub new_crypt : Crypt
  unfolding with_null
  new_crypt =
      with_null evp.new_ctx
        (record { p_key = []; p_nonce = []; has_padding = true; ctx = evp.new_ctx })

  -- The move into a new object, and what is left of the old one.
  unfoldable pub move : Crypt → Crypt × Crypt
  move crypt = (crypt, none)

  unfoldable pub handle : Crypt → Option evp.Ctx
  unfolding checked
  handle = checked none (λ st c. some c)

  -- Behind the check there is a cipher.
  unfoldable pub p_cipher : State → evp.Ctx → Bytes
  p_cipher st c = elim (evp.cipher_of c) [
    | none ↦ []
    | some cipher ↦ if evp.is_null cipher then [] else evp.cipher_name cipher
  ]

  unfoldable pub cipher : Crypt → Bytes
  unfolding checked p_cipher
  cipher = checked [] p_cipher

  unfoldable pub block_size : Crypt → ℕ
  unfolding checked or_zero
  block_size = checked 0 (λ st c. or_zero (evp.block_size_of c))

  unfoldable pub key_size : Crypt → ℕ
  unfolding checked
  key_size = checked 0 (λ st c. u32 (length st.p_key))

  unfoldable pub nonce_size : Crypt → ℕ
  unfolding checked
  nonce_size = checked 0 (λ st c. u32 (length st.p_nonce))

  unfoldable pub key : Crypt → Bytes
  unfolding checked
  key = checked [] (λ st c. st.p_key)

  unfoldable pub nonce : Crypt → Bytes
  unfolding checked
  nonce = checked [] (λ st c. st.p_nonce)

  unfoldable pub gen_key : Option Bytes → Crypt → Bytes
  unfolding key_size or_empty
  gen_key random crypt = if key_size crypt == 0 then [] else or_empty random

  unfoldable pub gen_nonce : Option Bytes → Crypt → Bytes
  unfolding nonce_size or_empty
  gen_nonce random crypt = if nonce_size crypt == 0 then [] else or_empty random

  -- The key is stored and handed to the library.
  unfoldable pub store_key : Bytes → State → evp.Ctx → Bool × Crypt
  unfolding on_call
  store_key bytes st ctx =
      let stored = record st { p_key = bytes } in
      on_call (evp.init none (some bytes) none none ctx) (λ c. (false, with_ctx stored c))
        (λ c. (true, with_ctx stored c))

  unfoldable pub p_set_key : Bytes → State → evp.Ctx → Bool × Crypt
  unfolding on_call store_key
  p_set_key bytes st ctx =
      if length st.p_key == length bytes
      then store_key bytes st ctx
      else on_call (evp.set_key_length (length bytes) ctx) (λ c. (false, with_ctx st c))
          (store_key bytes st)

  unfoldable pub set_key : Bytes → Crypt → Bool × Crypt
  unfolding checked p_set_key
  set_key bytes crypt = checked (false, crypt) (p_set_key bytes) crypt

  unfoldable pub store_nonce : Bytes → State → evp.Ctx → Bool × Crypt
  unfolding on_call
  store_nonce bytes st ctx =
      let stored = record st { p_nonce = bytes } in
      on_call (evp.init none none (some bytes) none ctx) (λ c. (false, with_ctx stored c))
        (λ c. (true, with_ctx stored c))

  unfoldable pub p_set_nonce : Bytes → State → evp.Ctx → Bool × Crypt
  unfolding on_call store_nonce
  p_set_nonce bytes st ctx =
      if length st.p_nonce == length bytes
      then store_nonce bytes st ctx
      else on_call (evp.set_iv_length (length bytes) ctx) (λ c. (false, with_ctx st c))
          (store_nonce bytes st)

  unfoldable pub set_nonce : Bytes → Crypt → Bool × Crypt
  unfolding checked p_set_nonce
  set_nonce bytes crypt = checked (false, crypt) (p_set_nonce bytes) crypt

  -- `Crypt::usesPadding`, which does not check: none where it reads through a null pointer.
  unfoldable pub uses_padding : Crypt → Option Bool
  uses_padding none = none
  uses_padding (some st) = some st.has_padding

  unfoldable pub toggle_padding : Bool → Crypt → Bool × Crypt
  unfolding checked
  toggle_padding enable crypt =
      checked (false, crypt) (λ st c. (true, some (record st { has_padding = enable }))) crypt

  unfoldable pub reset : Crypt → Bool × Crypt
  unfolding checked on_call
  reset crypt =
      checked (false, crypt)
        (λ st ctx.
          on_call (evp.reset ctx) (λ c. (false, with_ctx st c)) (λ c. (true, with_ctx st c)))
        crypt
