-- ===== src/Base64/Tests.antt =====
-- Tests of `Base64` at concrete values.
use libmumble.Prelude.{ℕ, ◌≡◌, ◌≤◌, refl, Option, none, some, [], ◌∷◌, ◌++◌, arith}
use libmumble.Tcp.Fields.{Bytes}
use libmumble.Base64.{coded, overrun, encode, encode_all, handed, size_to_encode}
use libmumble.Base64.{encode-size_to_encode}

-- "ab" is "YWI=".
abbrev text : Bytes
text = 89 ∷ 87 ∷ 73 ∷ 61 ∷ []

abbrev block : Option Bytes → Option Bytes
block none = some []
block (some input) = some text

encode-size_to_encode_example :
    (asked : ℕ) × (encode 0 (97 ∷ 98 ∷ []) block ≡ coded asked [])
    × (5 ≤ asked)
    × (asked ≤ 7)
    × (encode 6 (97 ∷ 98 ∷ []) block ≡ coded 5 (text ++ (0 ∷ [])))
unfolding size_to_encode
encode-size_to_encode_example =
    encode-size_to_encode 6 (97 ∷ 98 ∷ []) text block (omega arith) refl refl (omega arith)

-- Two bytes take five with the NUL, and six are asked for.
six_for_two : encode 0 (97 ∷ 98 ∷ []) block ≡ coded 6 []
unfolding encode size_to_encode
six_for_two = refl

-- An output of one byte is written past its end.
one_is_overrun : encode 1 (97 ∷ 98 ∷ []) block ≡ overrun
unfolding encode encode_all handed
one_is_overrun = refl
