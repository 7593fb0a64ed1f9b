-- ===== src/Ocb2/Stateless.antt =====
-- Over AES-128-ECB, the calls of `P::process` in src/CryptOCB2.cpp do not depend on each other.
use libmumble.Prelude.{
  Bool, true, false, none, some, List, [], ◌∷◌, length, ◌≡◌, refl, sym, ap₂, if◌then◌else◌, All,
  map, append-nil, Bool-cases, inl, inr,
}
use mathlib.Core.Path.{subst}
use libmumble.Tcp.Fields.{Bytes}
use libmumble.Evp.{Evp}
use libmumble.Evp.Calls.{Succeeds, Gives, on_call-Succeeds, on_bytes-Gives, on_call-true}
use libmumble.Ocb2.Object.{Ocb2, set_key, give_key}
use libmumble.Ocb2.Process.{same_mode, transform, process, process_all}

-- What the documentation of OpenSSL says of a context with a block cipher in ECB mode: what it holds
-- is the key and the mode that it was given last, and with the padding off, sixteen bytes are
-- transformed at once with nothing left for the end.
pub record IsEcb (evp : Evp) : Type 1 where
  pub cipher : Bytes → Bool → Bytes → Bytes
  pub IsReady : evp.Ctx → Type 0
  pub Holds : Bytes → Bool → evp.Ctx → Type 0
  pub ready : (key : Bytes) (mode : Bool) (c : evp.Ctx) → Holds key mode c → IsReady c
  pub mode_is :
      (key : Bytes) (mode : Bool) (c : evp.Ctx) → Holds key mode c → evp.is_encrypting c ≡ mode
  pub keyed :
      (key : Bytes) (c : evp.Ctx)
      → length key ≡ 16
      → IsReady c
      → Succeeds (Holds key (evp.is_encrypting c)) (evp.init none (some key) none none c)
  pub keyed_mode :
      (key : Bytes) (mode : Bool) (c : evp.Ctx)
      → length key ≡ 16
      → IsReady c
      → Succeeds (Holds key mode) (evp.init none (some key) none (some mode) c)
  pub again :
      (key : Bytes) (mode : Bool) (c : evp.Ctx)
      → Holds key mode c
      → Succeeds (Holds key mode) (evp.init none none none (some mode) c)
  pub unpadded :
      (key : Bytes) (mode : Bool) (c : evp.Ctx)
      → Holds key mode c
      → Succeeds (Holds key mode) (evp.set_padding false c)
  pub updated :
      (key : Bytes) (mode : Bool) (input : Bytes) (c : evp.Ctx)
      → length input ≡ 16
      → Holds key mode c
      → Gives (Holds key mode) (cipher key mode input) (evp.update input c)
  pub ended :
      (key : Bytes) (mode : Bool) (c : evp.Ctx)
      → Holds key mode c
      → Gives (Holds key mode) [] (evp.final c)

abbrev pub IsWhole : Bool × Bytes → Type 0
IsWhole call = length call.1 ≡ 16

module _ (evp : Evp) (ecb : IsEcb evp) where
  -- The context holds the key, in one mode or the other.
  abbrev pub IsKeyed : Bytes → evp.Ctx → Type 0
  IsKeyed key c = ecb.Holds key (evp.is_encrypting c) c

  same_mode_eq : (a b : Bool) → same_mode a b ≡ true → a ≡ b
  unfolding same_mode
  same_mode_eq true true h = refl
  same_mode_eq true false h = sym h
  same_mode_eq false true h = h
  same_mode_eq false false h = refl

  -- What a call of `process` comes to.
  abbrev Transforms : Bytes → Bool → Bytes → Bytes × evp.Ctx → Type 0
  Transforms key mode input r = (r.0 ≡ ecb.cipher key mode input) × ecb.Holds key mode r.1

  begin_is :
      (key : Bytes) (mode : Bool) (c : evp.Ctx)
      → length key ≡ 16
      → IsKeyed key c
      → Succeeds (ecb.Holds key mode) (
          evp.init none
            (if same_mode (evp.is_encrypting c) mode then none else some key)
            none
            (some mode)
            c)
  unfolding same_mode
  begin_is key mode c long h =
      let m = evp.is_encrypting c in
      elim (Bool-cases (same_mode m mode)) [
        | inl e ↦ rw e (
            ecb.again key mode c
              (subst (λ (x : Bool). ecb.Holds key x c) (same_mode_eq m mode e) h))
        | inr e ↦ rw e (ecb.keyed_mode key mode c long (ecb.ready key m c h))
      ]

  transform_is :
      (key : Bytes) (mode : Bool) (input : Bytes) (c : evp.Ctx)
      → length input ≡ 16
      → ecb.Holds key mode c
      → Transforms key mode input (transform evp input c)
  unfolding transform
  transform_is key mode input c whole h =
      on_bytes-Gives (ecb.Holds key mode) (Transforms key mode input) (ecb.cipher key mode input)
        (evp.update input c) _ _ (ecb.updated key mode input c whole h)
        (λ c1 h1.
          on_bytes-Gives (ecb.Holds key mode) (Transforms key mode input) [] (evp.final c1) _ _
            (ecb.ended key mode c1 h1) (λ c2 h2. (append-nil _, h2)))

  process_is :
      (key : Bytes) (mode : Bool) (input : Bytes) (c : evp.Ctx)
      → length key ≡ 16
      → length input ≡ 16
      → IsKeyed key c
      → Transforms key mode input (process evp key mode input c)
  unfolding process
  process_is key mode input c long whole h =
      on_call-Succeeds (ecb.Holds key mode) (Transforms key mode input) _ _ _
        (begin_is key mode c long h)
        (λ c1 h1.
          on_call-Succeeds (ecb.Holds key mode) (Transforms key mode input) _ _ _
            (ecb.unpadded key mode c1 h1) (λ c2 h2. transform_is key mode input c2 whole h2))

  Holds-IsKeyed : (key : Bytes) (mode : Bool) (c : evp.Ctx) → ecb.Holds key mode c → IsKeyed key c
  Holds-IsKeyed key mode c h =
      subst (λ (m : Bool). ecb.Holds key m c) (sym (ecb.mode_is key mode c h)) h

  process_all_is :
      (key : Bytes) (calls : List (Bool × Bytes)) (c : evp.Ctx)
      → length key ≡ 16
      → All IsWhole calls
      → IsKeyed key c
      → ((process_all evp key calls c).0 ≡ map (λ call. ecb.cipher key call.0 call.1) calls)
        × IsKeyed key (process_all evp key calls c).1
  unfolding process_all
  process_all_is key [] c long whole h = (refl, h)
  process_all_is key (call ∷ calls) c long whole h =
      let now = process_is key call.0 call.1 c long whole.0 h in
      let keyed = Holds-IsKeyed key call.0 (process evp key call.0 call.1 c).1 now.1 in
      let later = process_all_is key calls (process evp key call.0 call.1 c).1 long whole.1 keyed in
      (ap₂ ◌∷◌ now.0 later.0, later.1)

  give_key_is :
      (key : Bytes) (o : Ocb2 evp) (c : evp.Ctx)
      → (evp.init none (some key) none none c).0 ≡ true
      → give_key evp key o (some c)
        ≡ (true, record o { ctx = some (evp.init none (some key) none none c).1 })
  unfolding give_key
  give_key_is key o c h = on_call-true (evp.init none (some key) none none c) _ _ h

  set_key_is :
      (key : Bytes) (o : Ocb2 evp) (c : evp.Ctx)
      → length key ≡ 16
      → ecb.IsReady c
      → o.ctx ≡ some c
      → o.is_ok ≡ true
      → set_key evp key o
        ≡ (true, record o { p_key = key; ctx = some (evp.init none (some key) none none c).1 })
  unfolding set_key
  set_key_is key o c long ready h ok =
      let keyed = ecb.keyed key c long ready in
      rw (ok, long, h)
        (give_key_is key (record { is_ok = true; p_key = key; p_nonce = o.p_nonce; ctx = some c }) c
          keyed.0)

-- Over AES-128-ECB as it is documented: on an object that is usable, a key of sixteen bytes is taken,
-- and from then on the calls of `P::process`, in any order of modes, each give what the cipher makes of
-- its sixteen bytes with that key: no call depends on another.
pub process_all-set_key :
    (evp : Evp) (ecb : IsEcb evp) (key : Bytes) (o : Ocb2 evp) (c : evp.Ctx)
    (calls : List (Bool × Bytes))
    → length key ≡ 16
    → ecb.IsReady c
    → o.ctx ≡ some c
    → o.is_ok ≡ true
    → All IsWhole calls
    → (c' : evp.Ctx) × (set_key evp key o ≡ (true, record o { p_key = key; ctx = some c' }))
      × ((process_all evp key calls c').0 ≡ map (λ call. ecb.cipher key call.0 call.1) calls)
process_all-set_key evp ecb key o c calls long ready h ok whole =
    let given = evp.init none (some key) none none c in
    let keyed = ecb.keyed key c long ready in
    (
      given.1,
      set_key_is evp ecb key o c long ready h ok,
      (process_all_is evp ecb key calls given.1 long whole
          (Holds-IsKeyed evp ecb key (evp.is_encrypting c) given.1 keyed.1)).0,
    )
