-- ===== src/Varchar/Codec.antt =====
-- What the CVarChar classes hold and how they are coded (xframe/comserv/comtypedef_vchar.C).
use tsm_proxy.Prelude.{
  ℕ, zero, suc, ◌+◌, ◌≤◌, ◌≡◌, ap, ◌∙◌, inl, inr, false, Option, none, some, List, [], ◌∷◌, ◌++◌,
  ltb, length, length-append, take, drop, take-append_front, drop-append_front, Bool-cases, arith,
}
use tsm_proxy.Varchar.{size, encode, decode, set_var_char_content}

-- decode gives back the string that was encoded, whatever follows it, and answers its size, for a
-- string within the limit.
pub decode-encode_front :
    (limit : ℕ) (v rest : List ℕ)
    → length v ≤ limit
    → decode limit (encode v ++ rest) ≡ some (record { content = v; rest = rest; result = size v })
unfolding decode encode size
decode-encode_front limit v rest h =
    let within : ltb limit (length v) ≡ false = ground (arith, h) in
    let enough : ltb (length (v ++ rest)) (length v) ≡ false =
      ground (arith, length-append v rest) in
    rw (within, enough)
      (ap
          (λ t.
            some
              (record { content = t; rest = drop (length v) (v ++ rest); result = 1 + length v }))
          (take-append_front v rest)
        ∙ ap (λ t. some (record { content = v; rest = t; result = 1 + length v }))
            (drop-append_front v rest))

length-take_bound : (n : ℕ) (s : List ℕ) → length (take n s) ≤ n
length-take_bound zero s = omega arith
length-take_bound (suc n) [] = omega arith
length-take_bound (suc n) (c ∷ s) = omega (arith, length-take_bound n s)

-- A string that is set stays within the limit.
pub set_var_char_content-bound :
    (limit : ℕ) (buf : Option (List ℕ)) (len : ℕ) (v : List ℕ)
    → length v ≤ limit
    → length (set_var_char_content limit buf len v) ≤ limit
unfolding set_var_char_content
set_var_char_content-bound limit none len v h = h
set_var_char_content-bound limit (some buf) len v h = elim (Bool-cases (ltb 0 len)) [
  | inr e ↦ rw e h
  | inl e ↦ elim (Bool-cases (ltb limit len)) [
    | inl f ↦ rw (e, f) (length-take_bound limit buf)
    | inr f ↦ rw (e, f) (ground (arith, length-take_bound len buf))
  ]
]
