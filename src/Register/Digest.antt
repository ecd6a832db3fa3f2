-- ===== src/Register/Digest.antt =====
-- cs_Auth against the digest of RFC 2617.
use mathlib.Core.List.{append_assoc}
use tsm_proxy.Prelude.{
  ℕ, zero, suc, ◌*◌, ◌≡◌, refl, ap, ◌∙◌, sym, inl, inr, ◌↔◌, true, false, some, List, [], ◌∷◌, ◌++◌,
  arith, ◌==◌, if◌then◌else◌, length, take, Bool-cases, eq_of_==, ==_refl,
}
use tsm_proxy.Chars.{bytes, same}
use tsm_proxy.Register.{
  Credentials, AuthFits, method_name, cvt_hex, get_digest, digest_calc_ha2, quality, auth_input,
  cs_auth,
}

same_refl : (s : List ℕ) → same s s ≡ true
unfolding same
same_refl [] = refl
same_refl (c ∷ s) = rw (==_refl c) (same_refl s)

eq_of_same : (s t : List ℕ) → same s t ≡ true → s ≡ t
unfolding same
eq_of_same [] [] h = refl
eq_of_same [] (d ∷ t) h = cc
eq_of_same (c ∷ s) [] h = cc
eq_of_same (c ∷ s) (d ∷ t) h = elim (Bool-cases (c == d)) [
  | inl e ↦ ap (λ x. x ∷ s) (eq_of_== c d e) ∙ ap (λ x. d ∷ x) (eq_of_same s t (rw e at h))
  | inr e ↦ absurd (clash (rw e at h))
]
  where
    clash : false ≡ true → ⊥
    clash q = cc

take_front : (n : ℕ) (s t : List ℕ) → length s ≡ n → take n (s ++ t) ≡ s
take_front zero [] t h = refl
take_front zero (c ∷ s) t h = absurd (omega arith)
take_front (suc n) [] t h = absurd (omega arith)
take_front (suc n) (c ∷ s) t h = ap (λ x. c ∷ x) (take_front n s t (omega (arith, h)))

take_whole : (n : ℕ) (s : List ℕ) → length s ≡ n → take n s ≡ s
take_whole zero [] h = refl
take_whole zero (c ∷ s) h = absurd (omega arith)
take_whole (suc n) [] h = absurd (omega arith)
take_whole (suc n) (c ∷ s) h = ap (λ x. c ∷ x) (take_whole n s (omega (arith, h)))

length-cvt_hex : (s : List ℕ) → length (cvt_hex s) ≡ 2 * length s
unfolding cvt_hex
length-cvt_hex [] = omega arith
length-cvt_hex (c ∷ s) = omega (arith, length-cvt_hex s)

-- The parts of a text with colons between them.
abbrev pub joined : List (List ℕ) → List ℕ
joined [] = []
joined (s ∷ []) = s
joined (s ∷ t ∷ r) = s ++ 58 ∷ joined (t ∷ r)

-- The response of RFC 2617 to a challenge, from H(A1).
abbrev pub rfc_response : (List ℕ → List ℕ) → List ℕ → Credentials → List ℕ
rfc_response md5 ha1 c =
    let ha2 = cvt_hex (md5 (joined (method_name c.msg_type ∷ c.uri ∷ []))) in
    cvt_hex (
      md5 (
        if same c.qop (bytes "auth")
        then joined (ha1 ∷ c.nonce ∷ c.nonce_count ∷ c.cnonce ∷ c.qop ∷ ha2 ∷ [])
        else joined (ha1 ∷ c.nonce ∷ ha2 ∷ [])))

module _ (md5 : List ℕ → List ℕ) (md5_length : (t : List ℕ) → length (md5 t) ≡ 16)
    (stack password : List ℕ) (ha1 : length password ≡ 32) (c : Credentials) where
  hex_32 : (t : List ℕ) → take 32 (cvt_hex (md5 t)) ≡ cvt_hex (md5 t)
  hex_32 t = take_whole 32 (cvt_hex (md5 t)) (omega (arith, length-cvt_hex (md5 t), md5_length t))

  auth_input_lem : auth_input md5 stack password c ≡ (
      let ha2 = cvt_hex (md5 (joined (method_name c.msg_type ∷ c.uri ∷ []))) in
      if same c.qop (bytes "auth")
      then joined (password ∷ c.nonce ∷ c.nonce_count ∷ c.cnonce ∷ c.qop ∷ ha2 ∷ [])
      else joined (password ∷ c.nonce ∷ ha2 ∷ []))
  unfolding auth_input digest_calc_ha2 get_digest
  auth_input_lem =
      let ha2 = cvt_hex (md5 (joined (method_name c.msg_type ∷ c.uri ∷ []))) in
      let front =
        ap (λ x. x ++ 58 ∷ (c.nonce ++ 58 ∷ (quality c ++ take 32 ha2)))
          (take_front 32 password stack ha1) in
      let back =
        ap (λ x. password ++ 58 ∷ (c.nonce ++ 58 ∷ (quality c ++ x)))
          (hex_32 (method_name c.msg_type ++ 58 ∷ c.uri)) in
      front ∙ back ∙ elim (Bool-cases (same c.qop (bytes "auth"))) [
        | inl e ↦ rw e (simp append_assoc)
        | inr e ↦ rw e refl
      ]

  -- cs_Auth accepts a response exactly where its first 32 characters are the digits of the digest,
  -- for a password of 32 characters, an MD5 of 16 bytes and credentials whose texts fit into the
  -- buffers of cs_Auth.
  pub cs_auth-rfc_response :
      AuthFits c
      → (cs_auth md5 stack password (some c) ≡ true)
        ↔ (take 32 c.response ≡ rfc_response md5 password c)
  unfolding cs_auth get_digest
  cs_auth-rfc_response fits =
      let whole : take 32 (get_digest md5 (auth_input md5 stack password c))
          ≡ rfc_response md5 password c =
        hex_32 (auth_input md5 stack password c) ∙ ap (λ t. cvt_hex (md5 t)) auth_input_lem in
      (
        (λ h. sym (eq_of_same _ _ h) ∙ whole),
        (λ h.
            ap (λ t. same t (take 32 c.response)) (whole ∙ sym h) ∙ same_refl (take 32 c.response)),
      )
