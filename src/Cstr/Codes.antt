-- ===== src/Cstr/Codes.antt =====
-- The encodings of CStr: of URIs, of HTML, of numbers as bytes, and of Unicode.
pub mod Uric
pub mod Numbers
pub mod Html
use mathlib.Core.Option
use tsm_proxy.Prelude.{
  ℕ, zero, suc, ◌+◌, ◌-◌, ◌*◌, ◌/◌, ◌%◌, Bool, true, false, ◌&&◌, ◌||◌, not, Option, none, some,
  List, [], ◌∷◌, ◌++◌, ◌==◌, leb, ltb, if◌then◌else◌, length, drop, u32,
}
use tsm_proxy.Chars.{bytes, before, c_string, is_digit, isspace, since}
use tsm_proxy.Cstr.{CStr, n_cat, room}

-- A digit of `%02X`.
abbrev pub hex_digit : ℕ → ℕ
hex_digit n = if ltb n 10 then n + 48 else n + 55

abbrev pub is_reserved : ℕ → Bool
is_reserved c = c == 38 || (c == 61 || (c == 43 || c == 37))

unfoldable pub encode_byte : ℕ → List ℕ
encode_byte c =
    if is_reserved c
    then 37 ∷ hex_digit (c / 16) ∷ hex_digit (c % 16) ∷ []
    else (if c == 32 then 43 else c) ∷ []

unfoldable pub encode_bytes : List ℕ → List ℕ
unfolding encode_byte
encode_bytes [] = []
encode_bytes (c ∷ cs) = encode_byte c ++ encode_bytes cs

-- A string that gets a new content grows where that does not fit.
unfoldable pub replaced : List ℕ → CStr → CStr
unfolding room
replaced t s = record (room (length t) s) { buffer = t }

unfoldable pub uric_encode : CStr → CStr
unfolding encode_bytes replaced before
uric_encode s = replaced (encode_bytes (c_string s.buffer)) s

-- The value of a hexadecimal digit.
unfoldable pub hex_value : ℕ → Option ℕ
hex_value c =
    if is_digit c
    then some (c - 48)
    else if leb 65 c && leb c 70
    then some (c - 55)
    else if leb 97 c && leb c 102
    then some (c - 87)
    else none

-- The digits that `%x` reads, at most so many, with the value of those before; none where there are
-- none.
unfoldable pub hex_digits : ℕ → Option ℕ → List ℕ → Option ℕ
unfolding hex_value
hex_digits zero n s = n
hex_digits (suc width) n [] = n
hex_digits (suc width) n (c ∷ cs) = elim (hex_value c) [
  | none ↦ n
  | some v ↦ hex_digits width (some (16 * Option.get_or n 0 + v)) cs
]

-- `sscanf(r, "%02x")` and `"%04x"`: behind white space; none where the variable stays as it was. The
-- sign and the prefix `0x` that %x would take are not read here.
unfoldable pub scan_hex : ℕ → List ℕ → Option ℕ
unfolding hex_digits since
scan_hex width s = hex_digits width none (since (λ c. not (isspace c)) s)

-- `intCatUtf8`: highByte and lowerByte are the bytes of the number.
unfoldable pub utf8 : ℕ → List ℕ
utf8 i =
    let high = i / 256 % 256 in
    let low = i % 256 in
    if high == 0 && ltb low 128
    then low ∷ []
    else if ltb high 8
    then (192 + high * 4 + low / 64) ∷ (128 + low % 64) ∷ []
    else (224 + high / 16) ∷ (128 + high % 16 * 4 + low / 64) ∷ (128 + low % 64) ∷ []

unfoldable pub int_cat_utf8 : ℕ → CStr → CStr
unfolding utf8 n_cat
int_cat_utf8 i s = n_cat (utf8 i) s

-- What is read at a character of an encoded string, and how many bytes behind it belong to it. None
-- where a variable is used that nothing was read into.
unfoldable pub escape : List ℕ → Option (List ℕ × ℕ)
unfolding scan_hex utf8
escape [] = none
escape (c ∷ cs) =
    if c == 117
    then Option.map (λ n. (utf8 n, 5)) (scan_hex 4 cs)
    else Option.map (λ n. (n % 256 ∷ [], 2)) (scan_hex 2 (c ∷ cs))

unfoldable pub piece : ℕ → List ℕ → Option (List ℕ × ℕ)
unfolding escape
piece c cs = if c == 37 then escape cs else some ((if c == 43 then 32 else c) ∷ [], 0)

abbrev pub join : Option (List ℕ × ℕ) → (ℕ → Option (List ℕ)) → Option (List ℕ)
join none again = none
join (some (t, n)) again = Option.map (λ rest. t ++ rest) (again n)

-- The bytes behind a number of bytes that are skipped. None too where the pointer moves past the end
-- of the text.
unfoldable pub decode_bytes : ℕ → List ℕ → Option (List ℕ)
unfolding piece
decode_bytes zero [] = some []
decode_bytes (suc n) [] = none
decode_bytes (suc n) (c ∷ cs) = decode_bytes n cs
decode_bytes zero (c ∷ cs) = join (piece c cs) (λ n. decode_bytes n cs)

unfoldable pub uric_decode : CStr → Option CStr
unfolding decode_bytes before
uric_decode s = Option.map (λ t. record s { buffer = t }) (decode_bytes 0 (c_string s.buffer))

abbrev pub next_is_space : List ℕ → Bool
next_is_space [] = false
next_is_space (c ∷ cs) = c == 32

unfoldable pub html_char : ℕ → List ℕ → List ℕ
html_char c cs =
    if c == 38
    then bytes "&amp;"
    else if c == 60
    then bytes "&lt;"
    else if c == 62
    then bytes "&gt;"
    else if c == 39
    then bytes "&apos;"
    else if c == 34
    then bytes "&quot;"
    else if c == 32 && next_is_space cs
    then bytes "&nbsp;"
    else if c == 10
    then bytes "<br>\n"
    else if c == 13
    then []
    else c ∷ []

unfoldable pub html_bytes : List ℕ → List ℕ
unfolding html_char
html_bytes [] = []
html_bytes (c ∷ cs) = html_char c cs ++ html_bytes cs

unfoldable pub html_encode : CStr → CStr
unfolding html_bytes replaced before
html_encode s = replaced (html_bytes (c_string s.buffer)) s

-- `htonl` of an int and its bytes, the highest first; a negative int is the number below 2 ^ 32 of
-- its bits.
abbrev pub net_bytes : ℕ → List ℕ
net_bytes i = i / 16777216 % 256 ∷ i / 65536 % 256 ∷ i / 256 % 256 ∷ i % 256 ∷ []

unfoldable pub int_cat4 : ℕ → CStr → CStr
unfolding n_cat
int_cat4 i s = n_cat (net_bytes i) s

-- The loop of intCatShort, which tests `(len>1 && zero) || ones`: behind a last byte 0xff it reads the
-- byte past the number, which none stands for.
unfoldable pub shorten : List ℕ → Option (List ℕ)
shorten [] = none
shorten (a ∷ []) = if a == 255 then none else some (a ∷ [])
shorten (a ∷ b ∷ r) =
    let rest = shorten (b ∷ r) in
    if (a == 0 && ltb b 128) || (a == 255 && leb 128 b) then rest else some (a ∷ b ∷ r)

unfoldable pub int_cat_short : ℕ → CStr → Option CStr
unfolding shorten n_cat
int_cat_short i s = Option.map (λ t. n_cat t s) (shorten (net_bytes i))

-- `intCat7`, for an int that is not negative: groups of seven bits from the first that is not 0 on,
-- with the high bit set but in the last.
unfoldable pub groups : Bool → List ℕ → List ℕ
groups begun [] = []
groups begun (c ∷ []) = c ∷ []
groups begun (c ∷ d ∷ r) =
    let rest = groups (begun || not (c == 0)) (d ∷ r) in
    if begun || not (c == 0) then (128 + c) ∷ rest else rest

abbrev pub seven : ℕ → List ℕ
seven id = id / 268435456 ∷ id / 2097152 % 128 ∷ id / 16384 % 128 ∷ id / 128 % 128 ∷ id % 128 ∷ []

unfoldable pub int_cat7 : ℕ → CStr → CStr
unfolding groups n_cat
int_cat7 id s = n_cat (groups false (seven id)) s
