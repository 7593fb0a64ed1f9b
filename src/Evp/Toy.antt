-- ===== src/Evp/Toy.antt =====
-- OpenSSL for tests: a context holds a key and a mode, and moves the bytes that it is given.
use libmumble.Prelude.{
  ℕ, ◌+◌, ◌-◌, Bool, true, false, Option, none, some, [], ◌∷◌, replicate, u8, get_or, if◌then◌else◌,
}
use libmumble.Tcp.Fields.{Bytes}
use libmumble.Evp.{Evp}

abbrev pub ToyCtx : Type 0
ToyCtx = Bool × Bytes

abbrev pub or_old : {A : Type 0} → Option A → A → A
or_old none old = old
or_old (some new) old = new

-- Each byte moves on by the first one of the key, or back.
abbrev pub shift_all : ℕ → Bytes → Bytes
shift_all n [] = []
shift_all n (b ∷ bytes) = u8 (b + n) ∷ shift_all n bytes

abbrev pub toy_cipher : Bytes → Bool → Bytes → Bytes
toy_cipher key mode input = shift_all (if mode then get_or key 0 0 else 256 - get_or key 0 0) input

abbrev pub toy_evp : Evp
toy_evp = record {
  Ctx = ToyCtx;
  Cipher = ℕ;
  new_ctx = some (false, []);
  null_cipher = 0;
  aes_128_ecb = 1;
  cipher_by_name = λ name. some 1;
  cipher_name = λ c. [];
  is_null = λ c. false;
  cipher_of = λ c. some 1;
  block_size_of = λ c. some 16;
  key_length = λ c. 16;
  iv_length = λ c. 0;
  is_encrypting = λ c. c.0;
  init = λ cipher key iv mode c. (true, (or_old mode c.0, or_old key c.1));
  set_key_length = λ n c. (true, c);
  set_iv_length = λ n c. (true, c);
  set_tag = λ tag c. (true, c);
  get_tag = λ n c. (some (replicate n 0), c);
  set_padding = λ on c. (true, c);
  update_aad = λ aad c. (true, c);
  update = λ input c. (some (toy_cipher c.1 c.0 input), c);
  final = λ c. (some [], c);
  reset = λ c. (true, c);
}
