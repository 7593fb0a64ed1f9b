-- ===== src/Crypt/Keys.antt =====
-- The key and the nonce that a `Crypt` of src/Crypt.cpp holds.
use libmumble.Prelude.{
  ℕ, Bool, true, false, Option, none, some, [], length, ◌==◌, ◌≡◌, refl, sym, ap, ◌∙◌, arith,
  Bool-cases, inl, inr, u32,
}
use libmumble.Tcp.Fields.{Bytes}
use libmumble.Evp.{Evp, on_call}
use libmumble.Crypt.{
  State, Crypt, checked, with_cipher, has_cipher, cipher_called, p_set_cipher, set_cipher, key_size,
  nonce_size, gen_key, gen_nonce, key, nonce, set_key, p_set_key, store_key, give_cipher,
}

module _ (evp : Evp) where
  -- What a call comes to is what stands behind `CHECK`, or what is returned where that fails.
  with_cipher-elim :
      {A : Type 0} (Q : A → Type 0) (fail : A) (next : evp.Ctx → A) (o : Option evp.Ctx)
      → Q fail
      → ((c : evp.Ctx) → o ≡ some c → has_cipher evp (evp.cipher_of c) ≡ true → Q (next c))
      → Q (with_cipher evp fail next o)
  unfolding with_cipher
  with_cipher-elim Q fail next none f k = f
  with_cipher-elim Q fail next (some c) f k = elim (Bool-cases (has_cipher evp (evp.cipher_of c))) [
    | inl e ↦ rw e (k c refl e)
    | inr e ↦ rw e f
  ]

  -- Neither a key nor a nonce.
  abbrev HasNone : Crypt evp → Type 0
  HasNone crypt = (key_size evp crypt ≡ 0) × (nonce_size evp crypt ≡ 0)

  with_cipher_zero : (o : Option evp.Ctx) → ◌≡◌ {A = ℕ} (with_cipher evp {A = ℕ} 0 (λ c. 0) o) 0
  with_cipher_zero o = with_cipher-elim (λ (n : ℕ). n ≡ 0) 0 (λ c. 0) o refl (λ c e h. refl)

  empty-HasNone : (st : State evp) → HasNone (some (record st { p_key = []; p_nonce = [] }))
  unfolding key_size nonce_size checked
  empty-HasNone st = (with_cipher_zero st.ctx, with_cipher_zero st.ctx)

  abbrev Forgets : Bool × Crypt evp → Type 0
  Forgets r = r.0 ≡ true → HasNone r.1

  called-Forgets :
      (st : State evp) (r : Bool × evp.Ctx)
      → Forgets (
          on_call r
            (λ c. (false, some (record st { ctx = some c })))
            (λ c. (true, some (record st { p_key = []; p_nonce = []; ctx = some c }))))
  unfolding on_call
  called-Forgets st (true, c) h = empty-HasNone (record st { ctx = some c })
  called-Forgets st (false, c) h = ground (arith, h)

  give_cipher-Forgets :
      (o : Option evp.Cipher) (st : State evp) (c : evp.Ctx) → Forgets (give_cipher evp o st c)
  unfolding give_cipher
  give_cipher-Forgets none st c = λ h. ground (arith, h)
  give_cipher-Forgets (some cipher) st c =
      called-Forgets st (evp.init (some cipher) none none none c)

  set_cipher-Forgets : (name : Bytes) (crypt : Crypt evp) → Forgets (set_cipher evp name crypt)
  unfolding set_cipher checked p_set_cipher
  set_cipher-Forgets name none = λ h. ground (arith, h)
  set_cipher-Forgets name (some st) =
      with_cipher-elim Forgets (false, some st) (p_set_cipher evp name st) st.ctx
        (λ h. ground (arith, h)) (λ c e usable. give_cipher-Forgets (cipher_called evp name) st c)

-- After `setCipher` has chosen a cipher, whichever it is, the object has a key and a nonce of no bytes,
-- and `genKey` and `genNonce` return no bytes, whatever the generator would give.
pub set_cipher_forgets :
    (evp : Evp) (name : Bytes) (crypt : Crypt evp)
    → (set_cipher evp name crypt).0 ≡ true
    → (key_size evp (set_cipher evp name crypt).1 ≡ 0)
      × (nonce_size evp (set_cipher evp name crypt).1 ≡ 0)
      × ((random : Option Bytes) → gen_key evp random (set_cipher evp name crypt).1 ≡ [])
      × ((random : Option Bytes) → gen_nonce evp random (set_cipher evp name crypt).1 ≡ [])
unfolding gen_key gen_nonce
set_cipher_forgets evp name crypt h =
    let zeros = set_cipher-Forgets evp name crypt h in
    (zeros.0, zeros.1, (λ random. rw zeros.0 refl), (λ random. rw zeros.1 refl))

-- As documented, only a call with a cipher changes the cipher.
pub record KeepsCipher (evp : Evp) : Type 0 where
  pub by_init :
      (key iv : Option Bytes) (mode : Option Bool) (c : evp.Ctx)
      → evp.cipher_of (evp.init none key iv mode c).1 ≡ evp.cipher_of c
  pub by_length : (n : ℕ) (c : evp.Ctx) → evp.cipher_of (evp.set_key_length n c).1 ≡ evp.cipher_of c

module _ (evp : Evp) (keeps : KeepsCipher evp) (bytes : Bytes) where
  -- The key is stored and all else kept.
  abbrev Stores : State evp → Bool × Crypt evp → Type 0
  Stores st r =
      r.0 ≡ true
      → (key evp r.1 ≡ bytes)
        × (nonce evp r.1 ≡ st.p_nonce)
        × (key_size evp r.1 ≡ u32 (length bytes))

  called-Stores :
      (st : State evp) (r : Bool × evp.Ctx)
      → has_cipher evp (evp.cipher_of r.1) ≡ true
      → Stores st (
          on_call r
            (λ c. (false, some (record st { p_key = bytes; ctx = some c })))
            (λ c. (true, some (record st { p_key = bytes; ctx = some c }))))
  unfolding on_call key nonce key_size checked with_cipher
  called-Stores st (true, c) usable h = rw usable (refl, refl, refl)
  called-Stores st (false, c) usable h = ground (arith, h)

  store_key-Stores :
      (st : State evp) (c : evp.Ctx)
      → has_cipher evp (evp.cipher_of c) ≡ true
      → Stores st (store_key evp bytes st c)
  unfolding store_key
  store_key-Stores st c usable =
      called-Stores st (evp.init none (some bytes) none none c)
        (ap (λ o. has_cipher evp o) (keeps.by_init (some bytes) none none c) ∙ usable)

  sized-Stores :
      (st : State evp) (r : Bool × evp.Ctx)
      → has_cipher evp (evp.cipher_of r.1) ≡ true
      → Stores st
          (on_call r (λ c. (false, some (record st { ctx = some c }))) (store_key evp bytes st))
  unfolding on_call
  sized-Stores st (true, c) usable = store_key-Stores st c usable
  sized-Stores st (false, c) usable = λ h. ground (arith, h)

  p_set_key-Stores :
      (st : State evp) (c : evp.Ctx)
      → has_cipher evp (evp.cipher_of c) ≡ true
      → Stores st (p_set_key evp bytes st c)
  unfolding p_set_key
  p_set_key-Stores st c usable = elim (Bool-cases (length st.p_key == length bytes)) [
    | inl e ↦ rw e (store_key-Stores st c usable)
    | inr e ↦ rw e (
        sized-Stores st (evp.set_key_length (length bytes) c)
          (ap (λ o. has_cipher evp o) (keeps.by_length (length bytes) c) ∙ usable))
  ]

nonce_is :
    (evp : Evp) (st : State evp) (c : evp.Ctx)
    → st.ctx ≡ some c
    → has_cipher evp (evp.cipher_of c) ≡ true
    → nonce evp (some st) ≡ st.p_nonce
unfolding nonce checked with_cipher
nonce_is evp st c e usable =
    ap (λ (o : Option evp.Ctx). with_cipher evp [] (λ x. st.p_nonce) o) e ∙ rw usable refl

-- Where only a call with a cipher changes the cipher: when `setKey` succeeds, of whatever size the key
-- is, `key` returns that key and `keySize` its size in 32 bits, and the nonce is what it was.
pub set_key_stores :
    (evp : Evp) (keeps : KeepsCipher evp) (bytes : Bytes) (crypt : Crypt evp)
    → (set_key evp bytes crypt).0 ≡ true
    → (key evp (set_key evp bytes crypt).1 ≡ bytes)
      × (nonce evp (set_key evp bytes crypt).1 ≡ nonce evp crypt)
      × (key_size evp (set_key evp bytes crypt).1 ≡ u32 (length bytes))
unfolding set_key checked
set_key_stores evp keeps bytes none = λ h. ground (arith, h)
set_key_stores evp keeps bytes (some st) =
    with_cipher-elim evp
      (λ r.
        r.0 ≡ true
        → (key evp r.1 ≡ bytes)
          × (nonce evp r.1 ≡ nonce evp (some st))
          × (key_size evp r.1 ≡ u32 (length bytes)))
      (false, some st) (p_set_key evp bytes st) st.ctx (λ h. ground (arith, h))
      (λ c e usable h.
        (let stored = p_set_key-Stores evp keeps bytes st c usable h in
          (stored.0, stored.1 ∙ sym (nonce_is evp st c e usable), stored.2)))
