-- ===== src/Cstr/Codes/Uric.antt =====
-- uricEncode and uricDecode.
use mathlib.Core.Option
use tsm_proxy.Prelude.{
  ℕ, ◌≡◌, refl, ap, ◌∙◌, sym, inl, inr, true, false, some, List, [], subst, ◌∷◌, ◌++◌, arith, ◌==◌,
  Bool-cases, eq_of_==,
}
use tsm_proxy.Chars.{since, c_string}
use tsm_proxy.Chars.Laws.{Avoids, before-Avoids, before_all}
use tsm_proxy.Cstr.{CStr}
use tsm_proxy.Cstr.Codes.{
  is_reserved, encode_byte, encode_bytes, replaced, uric_encode, hex_value, hex_digits, scan_hex,
  escape, piece, decode_bytes, uric_decode,
}

-- A reserved character is one of four.
reserved_cases : (P : ℕ → Type 0) (c : ℕ) → P 38 → P 61 → P 43 → P 37 → is_reserved c ≡ true → P c
reserved_cases P c a b d e h = elim (Bool-cases (c == 38)) [
  | inl p ↦ subst P (sym (eq_of_== c 38 p)) a
  | inr p ↦ elim (Bool-cases (c == 61)) [
    | inl q ↦ subst P (sym (eq_of_== c 61 q)) b
    | inr q ↦ elim (Bool-cases (c == 43)) [
      | inl r ↦ subst P (sym (eq_of_== c 43 r)) d
      | inr r ↦ elim (Bool-cases (c == 37)) [
        | inl s ↦ subst P (sym (eq_of_== c 37 s)) e
        | inr s ↦ absurd (no (rw (p, q, r, s) at h))
      ]
    ]
  ]
]
  where
    no : false ≡ true → ⊥
    no q = cc

-- The decoder reads back one encoded character.
abbrev Reads : ℕ → Type 0
Reads c =
    (rest : List ℕ)
    → decode_bytes 0 (encode_byte c ++ rest) ≡ Option.map (λ t. c ∷ t) (decode_bytes 0 rest)

encode_byte-Reads : (c : ℕ) → Reads c
unfolding encode_byte decode_bytes piece escape scan_hex hex_digits hex_value since
encode_byte-Reads c = elim (Bool-cases (is_reserved c)) [
  | inl e ↦ reserved_cases Reads c (λ rest. refl) (λ rest. refl) (λ rest. refl) (λ rest. refl) e
  | inr e ↦ λ rest. elim (Bool-cases (c == 32)) [
    | inl h ↦
        rw (e, h) (ap (λ x. Option.map (λ t. x ∷ t) (decode_bytes 0 rest)) (sym (eq_of_== c 32 h)))
    | inr h ↦
        let other : (c == 37) ≡ false = ground arith in
        let plus : (c == 43) ≡ false = ground arith in rw (e, h, other, plus) refl
  ]
]

decode-encode : (s : List ℕ) → decode_bytes 0 (encode_bytes s) ≡ some s
unfolding encode_bytes decode_bytes
decode-encode [] = refl
decode-encode (c ∷ cs) =
    encode_byte-Reads c (encode_bytes cs) ∙ ap (Option.map (λ t. c ∷ t)) (decode-encode cs)

-- No NULL comes into the encoded text.
encode_byte-Avoids :
    (c : ℕ) (rest : List ℕ)
    → (c == 0) ≡ false
    → Avoids (λ x. x == 0) rest
    → Avoids (λ x. x == 0) (encode_byte c ++ rest)
unfolding encode_byte
encode_byte-Avoids c rest h n = elim (Bool-cases (is_reserved c)) [
  | inl e ↦
      reserved_cases (λ x. Avoids (λ y. y == 0) (encode_byte x ++ rest)) c (refl, (refl, (refl, n)))
        (refl, (refl, (refl, n))) (refl, (refl, (refl, n))) (refl, (refl, (refl, n))) e
  | inr e ↦ elim (Bool-cases (c == 32)) [ inl s ↦ rw (e, s) (refl, n) | inr s ↦ rw (e, s) (h, n) ]
]

encode_bytes-Avoids : (s : List ℕ) → Avoids (λ x. x == 0) s → Avoids (λ x. x == 0) (encode_bytes s)
unfolding encode_bytes
encode_bytes-Avoids [] n = tt
encode_bytes-Avoids (c ∷ cs) n =
    encode_byte-Avoids c (encode_bytes cs) n.0 (encode_bytes-Avoids cs n.1)

-- uricDecode gives back the text that uricEncode was called on, for every string.
pub uric_decode-encode :
    (s : CStr)
    → Option.map (λ (t : CStr). t.buffer) (uric_decode (uric_encode s)) ≡ some (c_string s.buffer)
unfolding uric_decode uric_encode replaced
uric_decode-encode s =
    let text = c_string s.buffer in
    let whole : c_string (encode_bytes text) ≡ encode_bytes text =
      before_all (λ c. c == 0) (encode_bytes text)
        (encode_bytes-Avoids text (before-Avoids (λ c. c == 0) s.buffer)) in
    rw (whole, decode-encode text) refl
