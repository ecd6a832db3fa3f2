-- ===== src/Base64.antt =====
-- xframe/comserv/base64.C: CBase64. A string is the list of its bytes.
pub mod Characters
pub mod Roundtrip
use tsm_proxy.Prelude.{
  ℕ, zero, suc, ◌+◌, ◌-◌, ◌*◌, ◌/◌, ◌%◌, ◌≡◌, Bool, true, false, Option, none, some, List, [], ◌∷◌,
  ◌++◌, ◌==◌, leb, ltb, if◌then◌else◌, length, get_or,
}

-- `g_pCodes`: the letters, the digits, `+`, `/`, and `=`.
abbrev pub codes : List ℕ
codes =
    65 ∷ 66 ∷ 67 ∷ 68 ∷ 69 ∷ 70 ∷ 71 ∷ 72 ∷ 73 ∷ 74 ∷ 75 ∷ 76 ∷ 77 ∷ 78 ∷ 79 ∷ 80 ∷ 81 ∷ 82 ∷ 83
    ∷ 84 ∷ 85 ∷ 86 ∷ 87 ∷ 88 ∷ 89 ∷ 90 ∷ 97 ∷ 98 ∷ 99 ∷ 100 ∷ 101 ∷ 102 ∷ 103 ∷ 104 ∷ 105 ∷ 106
    ∷ 107 ∷ 108 ∷ 109 ∷ 110 ∷ 111 ∷ 112 ∷ 113 ∷ 114 ∷ 115 ∷ 116 ∷ 117 ∷ 118 ∷ 119 ∷ 120 ∷ 121 ∷ 122
    ∷ 48 ∷ 49 ∷ 50 ∷ 51 ∷ 52 ∷ 53 ∷ 54 ∷ 55 ∷ 56 ∷ 57 ∷ 43 ∷ 47 ∷ 61 ∷ []

-- `g_pMap`: the value of a character, 254 for `=`, 255 for any other.
abbrev pub values : List ℕ
values =
    255 ∷ 255 ∷ 255 ∷ 255 ∷ 255 ∷ 255 ∷ 255 ∷ 255 ∷ 255 ∷ 255 ∷ 255 ∷ 255 ∷ 255 ∷ 255 ∷ 255 ∷ 255
    ∷ 255 ∷ 255 ∷ 255 ∷ 255 ∷ 255 ∷ 255 ∷ 255 ∷ 255 ∷ 255 ∷ 255 ∷ 255 ∷ 255 ∷ 255 ∷ 255 ∷ 255 ∷ 255
    ∷ 255 ∷ 255 ∷ 255 ∷ 255 ∷ 255 ∷ 255 ∷ 255 ∷ 255 ∷ 255 ∷ 255 ∷ 255 ∷ 62 ∷ 255 ∷ 255 ∷ 255 ∷ 63
    ∷ 52 ∷ 53 ∷ 54 ∷ 55 ∷ 56 ∷ 57 ∷ 58 ∷ 59 ∷ 60 ∷ 61 ∷ 255 ∷ 255 ∷ 255 ∷ 254 ∷ 255 ∷ 255 ∷ 255 ∷ 0
    ∷ 1 ∷ 2 ∷ 3 ∷ 4 ∷ 5 ∷ 6 ∷ 7 ∷ 8 ∷ 9 ∷ 10 ∷ 11 ∷ 12 ∷ 13 ∷ 14 ∷ 15 ∷ 16 ∷ 17 ∷ 18 ∷ 19 ∷ 20 ∷ 21
    ∷ 22 ∷ 23 ∷ 24 ∷ 25 ∷ 255 ∷ 255 ∷ 255 ∷ 255 ∷ 255 ∷ 255 ∷ 26 ∷ 27 ∷ 28 ∷ 29 ∷ 30 ∷ 31 ∷ 32 ∷ 33
    ∷ 34 ∷ 35 ∷ 36 ∷ 37 ∷ 38 ∷ 39 ∷ 40 ∷ 41 ∷ 42 ∷ 43 ∷ 44 ∷ 45 ∷ 46 ∷ 47 ∷ 48 ∷ 49 ∷ 50 ∷ 51 ∷ 255
    ∷ 255 ∷ 255 ∷ 255 ∷ 255 ∷ 255 ∷ 255 ∷ 255 ∷ 255 ∷ 255 ∷ 255 ∷ 255 ∷ 255 ∷ 255 ∷ 255 ∷ 255 ∷ 255
    ∷ 255 ∷ 255 ∷ 255 ∷ 255 ∷ 255 ∷ 255 ∷ 255 ∷ 255 ∷ 255 ∷ 255 ∷ 255 ∷ 255 ∷ 255 ∷ 255 ∷ 255 ∷ 255
    ∷ 255 ∷ 255 ∷ 255 ∷ 255 ∷ 255 ∷ 255 ∷ 255 ∷ 255 ∷ 255 ∷ 255 ∷ 255 ∷ 255 ∷ 255 ∷ 255 ∷ 255 ∷ 255
    ∷ 255 ∷ 255 ∷ 255 ∷ 255 ∷ 255 ∷ 255 ∷ 255 ∷ 255 ∷ 255 ∷ 255 ∷ 255 ∷ 255 ∷ 255 ∷ 255 ∷ 255 ∷ 255
    ∷ 255 ∷ 255 ∷ 255 ∷ 255 ∷ 255 ∷ 255 ∷ 255 ∷ 255 ∷ 255 ∷ 255 ∷ 255 ∷ 255 ∷ 255 ∷ 255 ∷ 255 ∷ 255
    ∷ 255 ∷ 255 ∷ 255 ∷ 255 ∷ 255 ∷ 255 ∷ 255 ∷ 255 ∷ 255 ∷ 255 ∷ 255 ∷ 255 ∷ 255 ∷ 255 ∷ 255 ∷ 255
    ∷ 255 ∷ 255 ∷ 255 ∷ 255 ∷ 255 ∷ 255 ∷ 255 ∷ 255 ∷ 255 ∷ 255 ∷ 255 ∷ 255 ∷ 255 ∷ 255 ∷ 255 ∷ 255
    ∷ 255 ∷ 255 ∷ 255 ∷ 255 ∷ 255 ∷ 255 ∷ 255 ∷ 255 ∷ 255 ∷ 255 ∷ 255 ∷ 255 ∷ 255 ∷ 255 ∷ 255 ∷ 255
    ∷ 255 ∷ 255 ∷ 255 ∷ 255 ∷ []

unfoldable pub code : ℕ → ℕ
code v = get_or codes v 0

-- A `char` of 128 and more is negative in the source, which then reads in front of the table; here it
-- is passed over as any other character without a value.
unfoldable pub value : ℕ → ℕ
value c = get_or values c 255

-- Encode into a string: three bytes at a time, and then the one or two that are left.
unfoldable pub encode : List ℕ → List ℕ
unfolding code
encode [] = []
encode (a ∷ []) = code (a / 4) ∷ code (a % 4 * 16) ∷ 61 ∷ 61 ∷ []
encode (a ∷ b ∷ []) = code (a / 4) ∷ code (a % 4 * 16 + b / 16) ∷ code (b % 16 * 4) ∷ 61 ∷ []
encode (a ∷ b ∷ c ∷ rest) =
    code (a / 4)
    ∷ code (a % 4 * 16 + b / 16)
    ∷ code (b % 16 * 4 + c / 64)
    ∷ code (c % 64)
    ∷ encode rest

-- Encode into a buffer of the given length: the string with a NULL byte behind it has to fit.
unfoldable pub encode_into : List ℕ → ℕ → Option (List ℕ)
unfolding encode
encode_into bytes capacity =
    if capacity == 0
    then none
    else if ltb capacity ((length bytes + 2) / 3 * 4 + 1)
    then none
    else some (encode bytes)

-- The variables of the loop of Decode: t holds y characters of a group of four, g is the number of
-- bytes that a group gives, and `out` are the bytes written, the last one first; z is their number.
pub record Decoder : Type 0 where
  pub t : ℕ
  pub y : ℕ
  pub g : ℕ
  pub z : ℕ
  pub out : List ℕ

-- `pOut[z++]` for the bytes of a group.
unfoldable pub write_group : ℕ → Decoder → Decoder
write_group t d =
    let first = t / 65536 % 256 ∷ d.out in
    let second = if ltb 1 d.g then t / 256 % 256 ∷ first else first in
    let third = if ltb 2 d.g then t % 256 ∷ second else second in
    record { t = 0; y = 0; g = d.g; z = length third; out = third }

-- A character of value c below 64. As t is shifted by six bits, `|` adds it. The group is written
-- when it is complete, if it fits; t keeps 64 bits, and g wraps below 0.
unfoldable pub take_value : ℕ → ℕ → Decoder → Option Decoder
unfolding write_group
take_value capacity c d =
    let t = (d.t * 64 + c) % 18446744073709551616 in
    if d.y + 1 == 4
    then (if ltb capacity ((d.z + d.g) % 18446744073709551616)
        then none
        else some (write_group t d))
    else some (record d { t = t; y = d.y + 1 })

unfoldable pub step : ℕ → ℕ → Decoder → Option Decoder
unfolding take_value value
step capacity char d =
    if value char == 255
    then some d
    else if value char == 254
    then take_value capacity 0
        (record d { g = (d.g + 18446744073709551615) % 18446744073709551616 })
    else take_value capacity (value char) d

unfoldable pub and_then : Option Decoder → (Decoder → Option Decoder) → Option Decoder
and_then none f = none
and_then (some d) f = f d

unfoldable pub decode_loop : ℕ → List ℕ → Decoder → Option Decoder
unfolding step and_then
decode_loop capacity [] d = some d
decode_loop capacity (c ∷ cs) d = and_then (step capacity c d) (decode_loop capacity cs)

abbrev pub reverse_onto : List ℕ → List ℕ → List ℕ
reverse_onto [] ys = ys
reverse_onto (x ∷ xs) ys = reverse_onto xs (x ∷ ys)

unfoldable pub written : Option Decoder → Option (List ℕ)
written none = none
written (some d) = some (reverse_onto d.out [])

-- Decode into a buffer of the given length; none is `return false`.
unfoldable pub decode : List ℕ → ℕ → Option (List ℕ)
unfolding decode_loop written
decode chars capacity =
    written (decode_loop capacity chars (record { t = 0; y = 0; g = 3; z = 0; out = [] }))
