-- ===== src/Base64/Roundtrip.antt =====
-- Decode after Encode.
use tsm_proxy.Prelude.{
  ℕ, ◌+◌, ◌*◌, ◌/◌, ◌%◌, ◌≤◌, ◌<◌, ◌≡◌, refl, ap, ◌∙◌, inl, inr, true, false, none, some, List, [],
  ◌∷◌, arith, ◌==◌, ltb, if◌then◌else◌, length, Bool-cases,
}
use tsm_proxy.Base64.Characters.{shift, fewer, eat, eat_last, pad, pad_last}
use tsm_proxy.Base64.{
  code, encode, encode_into, Decoder, write_group, decode_loop, reverse_onto, written, decode,
}

-- The decoder between two groups.
abbrev between : List ℕ → Decoder
between out = record { t = 0; y = 0; g = 3; z = length out; out = out }

abbrev pub Bytes : List ℕ → Type 0
Bytes [] = Unit {0}
Bytes (b ∷ bs) = (b < 256) × Bytes bs

-- What t holds after the characters of a group.
abbrev joined : ℕ → ℕ → ℕ
joined t v = (t * 64 + v) % 18446744073709551616

joined_lem :
    (v w x y : ℕ)
    → v < 64
    → w < 64
    → x < 64
    → y < 64
    → joined (joined (joined (joined 0 v) w) x) y ≡ ((v * 64 + w) * 64 + x) * 64 + y
joined_lem v w x y h i j k = omega arith

module _ (a b c : ℕ) (ha : a < 256) (hb : b < 256) (hc : c < 256) where
  whole :
      ((a / 4 * 64 + (a % 4 * 16 + b / 16)) * 64 + (b % 16 * 4 + c / 64)) * 64 + c % 64
      ≡ (a * 256 + b) * 256 + c
  whole = omega arith

  first_byte : ((a * 256 + b) * 256 + c) / 65536 % 256 ≡ a
  first_byte = omega arith

  second_byte : ((a * 256 + b) * 256 + c) / 256 % 256 ≡ b
  second_byte = omega arith

  third_byte : ((a * 256 + b) * 256 + c) % 256 ≡ c
  third_byte = omega arith

  -- What t is after a group that encodes the three bytes.
  group_value :
      joined
        (joined (joined (joined 0 (a / 4)) (a % 4 * 16 + b / 16)) (b % 16 * 4 + c / 64))
        (c % 64)
      ≡ (a * 256 + b) * 256 + c
  group_value =
      joined_lem (a / 4) (a % 4 * 16 + b / 16) (b % 16 * 4 + c / 64) (c % 64) (omega arith)
        (omega arith) (omega arith) (omega arith)
      ∙ whole

write_three :
    (a b c : ℕ) (d : Decoder)
    → a < 256
    → b < 256
    → c < 256
    → d.g ≡ 3
    → write_group ((a * 256 + b) * 256 + c) d ≡ between (c ∷ b ∷ a ∷ d.out)
unfolding write_group
write_three a b c d ha hb hc e =
    rw (e, first_byte a b c ha hb hc, second_byte a b c ha hb hc, third_byte a b c ha hb hc) refl

padded : (t : ℕ) → t * 64 % 18446744073709551616 ≡ joined t 0
padded t = omega arith

module _ (capacity : ℕ) where
  group :
      (a b c : ℕ) (cs out : List ℕ)
      → a < 256
      → b < 256
      → c < 256
      → length out + 3 ≤ capacity
      → decode_loop capacity
          (code (a / 4)
            ∷ code (a % 4 * 16 + b / 16)
            ∷ code (b % 16 * 4 + c / 64)
            ∷ code (c % 64)
            ∷ cs)
          (between out)
        ≡ decode_loop capacity cs (between (c ∷ b ∷ a ∷ out))
  unfolding shift
  group a b c cs out ha hb hc h =
      let one = shift (a / 4) (between out) in
      let two = shift (a % 4 * 16 + b / 16) one in
      let three = shift (b % 16 * 4 + c / 64) two in
      eat capacity (a / 4) _ (between out) (omega arith) refl
      ∙ eat capacity (a % 4 * 16 + b / 16) _ one (omega arith) refl
      ∙ eat capacity (b % 16 * 4 + c / 64) _ two (omega arith) refl
      ∙ eat_last capacity (c % 64) cs three (omega arith) refl h
      ∙ ap (λ t. decode_loop capacity cs (write_group t three)) (group_value a b c ha hb hc)
      ∙ ap (decode_loop capacity cs) (write_three a b c three ha hb hc refl)

  last_one :
      (a : ℕ) (out : List ℕ)
      → a < 256
      → length out + 1 ≤ capacity
      → written
          (decode_loop capacity (code (a / 4) ∷ code (a % 4 * 16) ∷ 61 ∷ 61 ∷ []) (between out))
        ≡ some (reverse_onto (a ∷ out) [])
  unfolding shift write_group decode_loop written
  last_one a out ha h =
      let one = shift (a / 4) (between out) in
      let two = shift (a % 4 * 16) one in
      let three = shift 0 (fewer two) in
      let t_value : joined (joined (joined (joined 0 (a / 4)) (a % 4 * 16)) 0) 0 ≡ a * 65536 =
        joined_lem (a / 4) (a % 4 * 16) 0 0 (omega arith) (omega arith) (omega arith) (omega arith)
        ∙ omega arith in
      let byte : a * 65536 / 65536 % 256 ≡ a = omega arith in
      ap written (
        eat capacity (a / 4) (code (a % 4 * 16) ∷ 61 ∷ 61 ∷ []) (between out) (omega arith) refl
        ∙ eat capacity (a % 4 * 16) (61 ∷ 61 ∷ []) one (omega arith) refl
        ∙ pad capacity (61 ∷ []) two refl
        ∙ pad_last capacity [] three refl h)
      ∙ ap (λ t. some (reverse_onto (t / 65536 % 256 ∷ out) []))
          (padded (joined (joined (joined 0 (a / 4)) (a % 4 * 16)) 0) ∙ t_value)
      ∙ ap (λ x. some (reverse_onto (x ∷ out) [])) byte

  last_two :
      (a b : ℕ) (out : List ℕ)
      → a < 256
      → b < 256
      → length out + 2 ≤ capacity
      → written (
          decode_loop capacity
            (code (a / 4) ∷ code (a % 4 * 16 + b / 16) ∷ code (b % 16 * 4) ∷ 61 ∷ [])
            (between out))
        ≡ some (reverse_onto (b ∷ a ∷ out) [])
  unfolding shift write_group decode_loop written
  last_two a b out ha hb h =
      let one = shift (a / 4) (between out) in
      let two = shift (a % 4 * 16 + b / 16) one in
      let three = shift (b % 16 * 4) two in
      let t_value : joined (joined (joined (joined 0 (a / 4)) (a % 4 * 16 + b / 16)) (b % 16 * 4)) 0
          ≡ (a * 256 + b) * 256 =
        joined_lem (a / 4) (a % 4 * 16 + b / 16) (b % 16 * 4) 0 (omega arith) (omega arith)
          (omega arith) (omega arith)
        ∙ omega arith in
      let first : (a * 256 + b) * 256 / 65536 % 256 ≡ a = omega arith in
      let second : (a * 256 + b) * 256 / 256 % 256 ≡ b = omega arith in
      ap written (
        eat capacity (a / 4) (code (a % 4 * 16 + b / 16) ∷ code (b % 16 * 4) ∷ 61 ∷ [])
          (between out) (omega arith) refl
        ∙ eat capacity (a % 4 * 16 + b / 16) (code (b % 16 * 4) ∷ 61 ∷ []) one (omega arith) refl
        ∙ eat capacity (b % 16 * 4) (61 ∷ []) two (omega arith) refl
        ∙ pad_last capacity [] three refl h)
      ∙ ap (λ t. some (reverse_onto (t / 256 % 256 ∷ t / 65536 % 256 ∷ out) []))
          (padded (joined (joined (joined 0 (a / 4)) (a % 4 * 16 + b / 16)) (b % 16 * 4)) ∙ t_value)
      ∙ rw (first, second) refl

  decode_loop-encode :
      (bytes out : List ℕ)
      → Bytes bytes
      → length out + length bytes ≤ capacity
      → written (decode_loop capacity (encode bytes) (between out)) ≡ some (reverse_onto out bytes)
  unfolding encode written decode_loop
  decode_loop-encode [] out w h = refl
  decode_loop-encode (a ∷ []) out w h = last_one a out w.0 (omega arith)
  decode_loop-encode (a ∷ b ∷ []) out w h = last_two a b out w.0 w.1.0 (omega arith)
  decode_loop-encode (a ∷ b ∷ c ∷ rest) out w h =
      ap written (group a b c (encode rest) out w.0 w.1.0 w.1.1.0 (omega arith))
      ∙ decode_loop-encode rest (c ∷ b ∷ a ∷ out) w.1.1.1 (omega arith)

-- Decode gives back the bytes that Encode was given, into a buffer that has room for them.
pub decode-encode :
    (bytes : List ℕ) (capacity : ℕ)
    → Bytes bytes
    → length bytes ≤ capacity
    → decode (encode bytes) capacity ≡ some bytes
unfolding decode
decode-encode bytes capacity w h = decode_loop-encode capacity bytes [] w (omega arith)

pub length-encode : (bytes : List ℕ) → length (encode bytes) ≡ (length bytes + 2) / 3 * 4
unfolding encode
length-encode [] = refl
length-encode (a ∷ []) = refl
length-encode (a ∷ b ∷ []) = refl
length-encode (a ∷ b ∷ c ∷ rest) = omega (arith, length-encode rest)

-- Encode into a buffer writes what Encode gives exactly where it and its NULL byte fit, and refuses
-- the call elsewhere.
pub encode_into_lem :
    (bytes : List ℕ) (capacity : ℕ)
    → encode_into bytes capacity
      ≡ (if ltb (length (encode bytes)) capacity then some (encode bytes) else none)
unfolding encode_into
encode_into_lem bytes capacity = rw (length-encode bytes) (room ((length bytes + 2) / 3 * 4))
  where
    room :
        (n : ℕ)
        → (if capacity == 0
            then none
            else if ltb capacity (n + 1)
            then none
            else some (encode bytes))
          ≡ (if ltb n capacity then some (encode bytes) else none)
    room n = elim (Bool-cases (capacity == 0)) [
      | inl e ↦ let full : ltb n capacity ≡ false = ground arith in rw (e, full) refl
      | inr e ↦ elim (Bool-cases (ltb n capacity)) [
        | inl f ↦ let fits : ltb capacity (n + 1) ≡ false = ground arith in rw (e, f, fits) refl
        | inr f ↦ let full : ltb capacity (n + 1) ≡ true = ground arith in rw (e, f, full) refl
      ]
    ]
