-- ===== src/Crypt/Trips.antt =====
-- `Crypt::decrypt` of src/Crypt.cpp takes back `encrypt`, over an authenticated cipher.
use libmumble.Prelude.{
  ℕ, ◌<◌, ◌≤◌, Bool, true, false, not, Option, some, [], ◌∷◌, length, ◌==◌, ◌≡◌, refl, ap, ◌∙◌,
  arith, append-nil, ==-false,
}
use libmumble.Tcp.Fields.{Bytes}
use libmumble.Evp.{Evp}
use libmumble.Evp.Calls.{Succeeds, Gives, on_call-Succeeds, on_bytes-Gives}
use libmumble.Crypt.{State, Crypt, checked, with_cipher, has_cipher}
use libmumble.Crypt.Aead.{IsAead}
use libmumble.Crypt.Process.{
  Processed, nothing, same_mode, begin, give_tag, give_aad, take_tag, transform, process, processed,
  encrypt, decrypt,
}

module _ (evp : Evp) (key nonce : Bytes) (aead : IsAead evp key nonce) where
  begin_is :
      (mode : Bool) (st : State evp) (c : evp.Ctx)
      → aead.IsReady c
      → st.p_key ≡ key
      → st.p_nonce ≡ nonce
      → evp.is_encrypting c ≡ not mode
      → Succeeds (aead.Holds mode [] []) (begin evp mode st c)
  unfolding begin same_mode
  begin_is true st c ready hk hn hm = rw (hm, hk, hn) (aead.keyed true c ready)
  begin_is false st c ready hk hn hm = rw (hm, hk, hn) (aead.keyed false c ready)

  give_aad_is :
      (mode : Bool) (aad tag : Bytes) (c : evp.Ctx)
      → aead.Holds mode [] tag c
      → Succeeds (aead.Holds mode aad tag) (give_aad evp aad c)
  unfolding give_aad
  give_aad_is mode [] tag c h = (refl, h)
  give_aad_is mode (a ∷ aad) tag c h =
      rw (==-false (length (a ∷ aad)) 0 (λ e. omega (arith, e)))
        (aead.fed mode (a ∷ aad) tag c (omega arith) h)

  -- What `encrypt` comes to, and `decrypt`.
  abbrev Encrypts : ℕ → Bytes → Bytes → Processed × evp.Ctx → Type 0
  Encrypts size aad input r =
      (r.0 ≡ record {
        written = length (aead.seal aad input);
        output = aead.seal aad input;
        tag = aead.seal_tag size aad input;
      })
      × aead.Sealed aad input r.1

  abbrev Decrypts : Bytes → Processed × evp.Ctx → Type 0
  Decrypts input r = (r.0 ≡ record { written = length input; output = input; tag = [] })

  take_tag_is :
      (size : ℕ) (aad input : Bytes) (c : evp.Ctx)
      → 0 < size
      → size ≤ 16
      → aead.Sealed aad input c
      → Gives (aead.Sealed aad input) (aead.seal_tag size aad input) (take_tag evp true size c)
  unfolding take_tag
  take_tag_is size aad input c some_tag small h =
      let there : (size == 0) ≡ false = ==-false size 0 (λ e. omega (arith, e, some_tag)) in
      rw there (aead.tag_taken size aad input c some_tag small h)

  give_tag_is :
      (size : ℕ) (aad input : Bytes) (c : evp.Ctx)
      → 0 < size
      → size ≤ 16
      → aead.Holds false [] [] c
      → Succeeds
          (aead.Holds false [] (aead.seal_tag size aad input))
          (give_tag evp false (aead.seal_tag size aad input) c)
  unfolding give_tag
  give_tag_is size aad input c some_tag small h =
      let tag = aead.seal_tag size aad input in
      let long = aead.length_tag size aad input in
      let there : (length tag == 0) ≡ false =
        ==-false (length tag) 0 (λ e. omega (arith, e, long, some_tag)) in
      rw there (aead.tagged tag c (omega (arith, long, some_tag)) (omega (arith, long, small)) h)

  abbrev outcome : Bytes → Bytes → Processed
  outcome output tag = record { written = length output; output = output; tag = tag }

  encrypt_transform_is :
      (size : ℕ) (aad input : Bytes) (c : evp.Ctx)
      → 0 < size
      → size ≤ 16
      → aead.Holds true aad [] c
      → Encrypts size aad input (transform evp true input size c)
  unfolding transform
  encrypt_transform_is size aad input c some_tag small h =
      let Q = Encrypts size aad input in
      let P = aead.Sealed aad input in
      on_bytes-Gives P Q (aead.seal aad input) (evp.update input c) _ _
        (aead.encrypted aad input c h)
        (λ c1 h1.
          on_bytes-Gives P Q [] (evp.final c1) _ _ (aead.encrypted_end aad input c1 h1) (λ c2 h2.
            on_bytes-Gives P Q (aead.seal_tag size aad input) (take_tag evp true size c2) _ _
              (take_tag_is size aad input c2 some_tag small h2)
              (λ c3 h3. (
                ap (λ (l : Bytes). outcome l (aead.seal_tag size aad input))
                    (append-nil (aead.seal aad input)),
                h3,
              ))))

  decrypt_transform_is :
      (size room : ℕ) (aad input : Bytes) (c : evp.Ctx)
      → 0 < size
      → size ≤ 16
      → aead.Holds false aad (aead.seal_tag size aad input) c
      → Decrypts input (transform evp false (aead.seal aad input) room c)
  unfolding transform take_tag
  decrypt_transform_is size room aad input c some_tag small h =
      let Q = Decrypts input in
      on_bytes-Gives aead.Opened Q input (evp.update (aead.seal aad input) c) _ _
        (aead.decrypted size aad input c some_tag small h)
        (λ c1 h1.
          on_bytes-Gives aead.Opened Q [] (evp.final c1) _ _ (aead.decrypted_end c1 h1)
            (λ c2 h2. ap (λ (l : Bytes). outcome l []) (append-nil input)))

  module _ (st : State evp) (c : evp.Ctx) (ready : aead.IsReady c) (hk : st.p_key ≡ key)
      (hn : st.p_nonce ≡ nonce) (out : ℕ) (room : 0 < out) where
    out_there : (out == 0) ≡ false
    out_there = ==-false out 0 (λ e. omega (arith, e, room))

    encrypt_is :
        (input tag aad : Bytes)
        → 0 < length tag
        → length tag ≤ 16
        → evp.is_encrypting c ≡ false
        → Encrypts (length tag) aad input (process evp true out input tag aad st c)
    unfolding process give_tag
    encrypt_is input tag aad some_tag small hm =
        let Q = Encrypts (length tag) aad input in
        let P = aead.Holds true [] [] in
        rw out_there (
          on_call-Succeeds P Q _ _ _ (begin_is true st c ready hk hn hm) (λ c1 h1.
            on_call-Succeeds P Q _ _ _ (aead.padded true st.has_padding c1 h1) (λ c2 h2.
              on_call-Succeeds (aead.Holds true aad []) Q _ _ _ (give_aad_is true aad [] c2 h2)
                (λ c3 h3. encrypt_transform_is (length tag) aad input c3 some_tag small h3))))

    decrypt_is :
        (size : ℕ) (input aad : Bytes)
        → 0 < size
        → size ≤ 16
        → evp.is_encrypting c ≡ true
        → Decrypts input
            (process evp false out (aead.seal aad input) (aead.seal_tag size aad input) aad st c)
    unfolding process
    decrypt_is size input aad some_tag small hm =
        let Q = Decrypts input in
        let P = aead.Holds false [] [] in
        let tag = aead.seal_tag size aad input in
        rw out_there (
          on_call-Succeeds P Q _ _ _ (begin_is false st c ready hk hn hm) (λ c1 h1.
            on_call-Succeeds P Q _ _ _ (aead.padded false st.has_padding c1 h1) (λ c2 h2.
              on_call-Succeeds (aead.Holds false [] tag) Q _ _ _
                (give_tag_is size aad input c2 some_tag small h2)
                (λ c3 h3.
                  on_call-Succeeds (aead.Holds false aad tag) Q _ _ _
                    (give_aad_is false aad tag c3 h3)
                    (λ c4 h4.
                      decrypt_transform_is size (length tag) aad input c4 some_tag small h4)))))

-- Behind `CHECK`.
processed_is :
    (evp : Evp) (mode : Bool) (out : ℕ) (input tag aad : Bytes) (st : State evp) (c : evp.Ctx)
    → st.ctx ≡ some c
    → has_cipher evp (evp.cipher_of c) ≡ true
    → processed evp mode out input tag aad (some st) ≡ (
      (process evp mode out input tag aad st c).0,
      some (record st { ctx = some (process evp mode out input tag aad st c).1 }),
    )
unfolding processed checked with_cipher
processed_is evp mode out input tag aad st c e usable =
    let next : evp.Ctx → Processed × Crypt evp = λ x.
      (let r = process evp mode out input tag aad st x in
        (r.0, some (record st { ctx = some r.1 }))) in
    ap (λ (o : Option evp.Ctx). with_cipher evp (nothing, some st) next o) e ∙ rw usable refl

-- Over an authenticated cipher as it is documented: where the object holds the key and the nonce and was
-- last used to decrypt, or not at all, each output is not empty and has room for what is written to it,
-- and the tag has one to sixteen bytes, `encrypt` gives the sealed input and its tag, and `decrypt` with
-- the same tag and additional data gives the input back.
pub decrypt-encrypt_aead :
    (evp : Evp) (key nonce : Bytes) (aead : IsAead evp key nonce) (st : State evp) (c : evp.Ctx)
    (out back : ℕ) (input tag aad : Bytes)
    → st.ctx ≡ some c
    → has_cipher evp (evp.cipher_of c) ≡ true
    → aead.IsReady c
    → evp.is_encrypting c ≡ false
    → st.p_key ≡ key
    → st.p_nonce ≡ nonce
    → 0 < out
    → length (aead.seal aad input) ≤ out
    → 0 < back
    → length input ≤ back
    → 0 < length tag
    → length tag ≤ 16
    → let sent = encrypt evp out input tag aad (some st) in
      let text = aead.seal aad input in
      (sent.0 ≡ record {
        written = length text;
        output = text;
        tag = aead.seal_tag (length tag) aad input;
      })
      × ((decrypt evp back sent.0.output sent.0.tag aad sent.1).0
          ≡ record { written = length input; output = input; tag = [] })
decrypt-encrypt_aead evp key nonce aead st c out back input tag aad hc usable ready hm hk hn ho
      whole hb whole_back ht small =
    let r = process evp true out input tag aad st c in
    let given = encrypt_is evp key nonce aead st c ready hk hn out ho input tag aad ht small hm in
    let after : State evp = record st { ctx = some r.1 } in
    let next = aead.sealed_mode aad input r.1 given.1 in
    let run : encrypt evp out input tag aad (some st) ≡ (r.0, some after) =
      (unfold encrypt in processed_is evp true out input tag aad st c hc usable) in
    let text = aead.seal aad input in
    let mark = aead.seal_tag (length tag) aad input in
    let same : decrypt evp back text mark aad (some after)
        ≡ processed evp false back text mark aad (some after) =
      (unfold decrypt in refl) in
    (
      ap (λ (x : Processed × Crypt evp). x.0) run ∙ given.0,
      ap (λ (x : Processed × Crypt evp). (decrypt evp back x.0.output x.0.tag aad x.1).0) run
          ∙ ap (λ (p : Processed). (decrypt evp back p.output p.tag aad (some after)).0) given.0
          ∙ ap (λ (x : Processed × Crypt evp). x.0)
              (same ∙ processed_is evp false back text mark aad after r.1 refl next.2)
          ∙ decrypt_is evp key nonce aead after r.1 next.1 hk hn back hb (length tag) input aad ht
              small next.0,
    )
