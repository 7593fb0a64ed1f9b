-- ===== src/Base64.antt =====
-- `Base64` of src/Base64.cpp, over OpenSSL: what `EVP_DecodeUpdate` and `EVP_EncodeBlock` make of what
-- they are handed is an argument, none where they fail, and so is what `EVP_DecodeFinal` writes.
mod Tests
use libmumble.Prelude.{
  ℕ, ◌+◌, ◌-◌, ◌*◌, ◌/◌, ◌%◌, ◌^◌, ◌<◌, ◌≤◌, Bool, true, false, not, ◌||◌, Option, none, some, List,
  [], ◌∷◌, ◌++◌, ◌==◌, ltb, if◌then◌else◌, length, take, drop, ◌≡◌, refl, ap, ◌∙◌, arith, ==-false,
  take-all, u32, u64,
}
use libmumble.Tcp.Fields.{Bytes}

-- The size that is returned, and what was written to the output; or an output that is not empty but
-- shorter than what is written.
pub data Coded : Type 0 where
  coded : ℕ → Bytes → Coded
  overrun : Coded

-- `return {};`
abbrev pub not_coded : Coded
not_coded = coded 0 []

-- The bytes that are handed in where the size is cast to an `int`, none where that is negative.
unfoldable pub handed : Bytes → Option Bytes
handed input =
    let size = u32 (length input) in if ltb size (2 ^ 31) then some (take size input) else none

-- The end is written over the start of the output.
unfoldable pub decode_end : ℕ → Bytes → Option Bytes → Coded
decode_end room written none = not_coded
decode_end room written (some more) =
    if ltb room (length more)
    then overrun
    else coded (length written + length more) (more ++ drop (length more) written)

unfoldable pub decode_all : ℕ → Option Bytes → Option Bytes → Coded
unfolding decode_end
decode_all room none final = not_coded
decode_all room (some written) final =
    if ltb room (length written) then overrun else decode_end room written final

-- `Base64::decode`, with whether there is a context and the size of the output.
unfoldable pub decode : Bool → ℕ → Bytes → (Option Bytes → Option Bytes) → Option Bytes → Coded
unfolding decode_all handed
decode ok out_size input update final =
    if not ok
    then not_coded
    else if out_size == 0
    then coded (length input / 4 * 3) []
    else decode_all out_size (update (handed input)) final

-- The size that `encode` asks for, in a 64-bit `size_t`.
unfoldable pub size_to_encode : ℕ → ℕ
size_to_encode n = u64 (u64 (4 * u64 (n + 2)) / 3 + 1)

-- The text is written with its NUL.
unfoldable pub encode_all : ℕ → Option Bytes → Coded
encode_all room none = not_coded
encode_all room (some text) =
    if ltb room (length text + 1) then overrun else coded (length text + 1) (text ++ (0 ∷ []))

-- `Base64::encode`.
unfoldable pub encode : ℕ → Bytes → (Option Bytes → Option Bytes) → Coded
unfolding size_to_encode encode_all handed
encode out_size input block =
    if out_size == 0
    then coded (size_to_encode (length input)) []
    else encode_all out_size (block (handed input))

-- What is documented of `EVP_EncodeBlock`: four bytes for each three, with padding.
abbrev pub IsBase64 : Bytes → Bytes → Type 0
IsBase64 input text = length text ≡ 4 * ((length input + 2) / 3)

size_bounds :
    (n text : ℕ)
    → n < 2 ^ 30
    → text ≡ 4 * ((n + 2) / 3)
    → (text + 1 ≤ size_to_encode n) × (size_to_encode n ≤ text + 3)
unfolding size_to_encode
size_bounds n text small h = (omega (arith, small, h), omega (arith, small, h))

handed_whole : (input : Bytes) → length input < 2 ^ 30 → handed input ≡ some input
unfolding handed
handed_whole input small =
    let same : u32 (length input) ≡ length input = omega (arith, small) in
    let there : ltb (length input) (2 ^ 31) ≡ true = ground (arith, small) in
    rw same (rw there (ap (λ (l : Bytes). some l) (take-all input (length input) (omega arith))))

-- Of an input below 2 ^ 30 bytes, `encode` without an output asks for a size, at least that of the text
-- with its NUL and at most two more; with an output of at least that size it writes the text that
-- `EVP_EncodeBlock` makes of the whole input, with its NUL, and returns their size.
pub encode-size_to_encode :
    (out : ℕ) (input text : Bytes) (block : Option Bytes → Option Bytes)
    → length input < 2 ^ 30
    → block (some input) ≡ some text
    → IsBase64 input text
    → size_to_encode (length input) ≤ out
    → (asked : ℕ) × (encode 0 input block ≡ coded asked [])
      × (length text + 1 ≤ asked)
      × (asked ≤ length text + 3)
      × (encode out input block ≡ coded (length text + 1) (text ++ (0 ∷ [])))
unfolding encode
encode-size_to_encode out input text block small made h room =
    let bounds = size_bounds (length input) (length text) small h in
    let there : (out == 0) ≡ false = ==-false out 0 (λ e. omega (arith, e, room, bounds)) in
    let fits : ltb out (length text + 1) ≡ false = ground (arith, room, bounds) in
    (
      size_to_encode (length input),
      refl,
      bounds.0,
      bounds.1,
      rw (there, handed_whole input small, made) (unfold encode_all in rw fits refl),
    )
