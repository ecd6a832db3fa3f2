-- ===== src/Cstr/Wire.antt =====
-- xframe/comserv/comtypedef_vchar.C: a CStr in a message, its length in four bytes and then its bytes.
use tsm_proxy.Prelude.{
  ℕ, ◌+◌, ◌*◌, ◌/◌, ◌%◌, ◌<◌, ◌≡◌, ap, ◌∙◌, false, Option, none, some, List, ◌∷◌, ◌++◌, ltb, leb,
  if◌then◌else◌, length, length-append, take, drop, take-append_front, drop-append_front, arith,
}
use tsm_proxy.Cstr.{CStr, room}
use tsm_proxy.Cstr.Codes.{net_bytes}

-- The string, where the pointer is then, and the result.
pub record Unpacked : Type 0 where
  pub string : CStr
  pub rest : List ℕ
  pub result : ℕ

unfoldable pub size : CStr → ℕ
size s = 4 + length s.buffer

unfoldable pub encode : CStr → List ℕ
encode s = net_bytes (length s.buffer) ++ s.buffer

-- `set` with the bytes and their number.
unfoldable pub set : List ℕ → CStr → CStr
unfolding room
set str s = record (room (length str) s) { buffer = str }

-- With the length that was read. None where it is negative as an int, or the buffer ends too early.
unfoldable pub decode_text : ℕ → List ℕ → CStr → Option Unpacked
unfolding room size
decode_text n buf s =
    if leb 2147483648 n
    then none
    else if ltb (length buf) n
    then none
    else some (record {
      string = record (room n s) { buffer = take n buf };
      rest = drop n buf;
      result = 4 + n;
    })

unfoldable pub decode : List ℕ → CStr → Option Unpacked
unfolding decode_text
decode (a ∷ b ∷ c ∷ d ∷ buf) s = decode_text (a * 16777216 + b * 65536 + c * 256 + d) buf s
decode _ s = none

four_bytes :
    (n : ℕ)
    → n < 2147483648
    → n / 16777216 % 256 * 16777216 + n / 65536 % 256 * 65536 + n / 256 % 256 * 256 + n % 256 ≡ n
four_bytes n h = omega (arith, h)

-- decode gives back the string that was encoded, whatever follows it, and answers its size; the
-- buffer of the string that it is decoded into grows where it has no room.
pub unpack-encode :
    (s t : CStr) (rest : List ℕ)
    → length s.buffer < 2147483648
    → decode (encode s ++ rest) t
      ≡ some (record {
        string = record (room (length s.buffer) t) { buffer = s.buffer };
        rest = rest;
        result = size s;
      })
unfolding decode decode_text encode size
unpack-encode s t rest h =
    let n = length s.buffer in
    let small : leb 2147483648 n ≡ false = ground (arith, h) in
    let enough : ltb (length (s.buffer ++ rest)) n ≡ false =
      ground (arith, length-append s.buffer rest) in
    ap (λ k. decode_text k (s.buffer ++ rest) t) (four_bytes n h)
    ∙ rw (small, enough)
        (ap
            (λ x. some (record {
              string = record (room n t) { buffer = x };
              rest = drop n (s.buffer ++ rest);
              result = 4 + n;
            }))
            (take-append_front s.buffer rest)
          ∙ ap
              (λ x. some (record {
                string = record (room n t) { buffer = s.buffer };
                rest = x;
                result = 4 + n;
              }))
              (drop-append_front s.buffer rest))
