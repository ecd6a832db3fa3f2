-- ===== src/Cstr/Codes/Html.antt =====
-- htmlEncode, and a reader of the HTML that it writes.
use tsm_proxy.Prelude.{
  ℕ, zero, suc, ◌≡◌, refl, ap, ◌∙◌, sym, inl, inr, true, false, List, [], ◌∷◌, ◌++◌, ◌==◌,
  if◌then◌else◌, Bool-cases, eq_of_==, subst,
}
use tsm_proxy.Chars.{bytes, is_prefix, c_string}
use tsm_proxy.Chars.Laws.{Avoids}
use tsm_proxy.Cstr.{CStr}
use tsm_proxy.Cstr.Codes.{html_char, html_bytes, html_encode, next_is_space, replaced}

-- The character of an entity, and how many bytes follow its first one.
unfoldable pub named : List ℕ → ℕ × ℕ
unfolding is_prefix
named cs =
    if is_prefix (bytes "amp;") cs
    then (38, 4)
    else if is_prefix (bytes "lt;") cs
    then (60, 3)
    else if is_prefix (bytes "gt;") cs
    then (62, 3)
    else if is_prefix (bytes "apos;") cs
    then (39, 5)
    else if is_prefix (bytes "quot;") cs
    then (34, 5)
    else if is_prefix (bytes "nbsp;") cs
    then (32, 5)
    else (38, 0)

unfoldable pub entity : ℕ → List ℕ → ℕ × ℕ
unfolding named
entity c cs = if c == 38 then named cs else if c == 60 then (10, 4) else (c, 0)

-- The text of HTML, with a number of bytes in front that are skipped.
unfoldable pub html_text : ℕ → List ℕ → List ℕ
unfolding entity
html_text n [] = []
html_text (suc n) (c ∷ cs) = html_text n cs
html_text zero (c ∷ cs) = (entity c cs).0 ∷ html_text (entity c cs).1 cs

abbrev Reads : ℕ → Type 0
Reads c =
    (cs rest : List ℕ)
    → (c == 13) ≡ false
    → html_text 0 (html_char c cs ++ rest) ≡ c ∷ html_text 0 rest

html_text-plain :
    (c : ℕ) (rest : List ℕ)
    → (c == 38) ≡ false
    → (c == 60) ≡ false
    → html_text 0 (c ∷ rest) ≡ c ∷ html_text 0 rest
unfolding html_text entity
html_text-plain c rest a b =
    let one : entity c rest ≡ (c, 0) = rw (a, b) refl in
    ap (λ (e : ℕ × ℕ). e.0 ∷ html_text e.1 rest) one

at_value : (P : ℕ → Type 0) (c k : ℕ) → (c == k) ≡ true → P k → P c
at_value P c k h p = subst P (sym (eq_of_== c k h)) p

html_char-Reads : (c : ℕ) → Reads c
unfolding html_char html_text entity
html_char-Reads c = elim (Bool-cases (c == 38)) [
  | inl a ↦ at_value Reads c 38 a (λ cs rest h. refl)
  | inr a ↦ elim (Bool-cases (c == 60)) [
    | inl b ↦ at_value Reads c 60 b (λ cs rest h. refl)
    | inr b ↦ elim (Bool-cases (c == 62)) [
      | inl d ↦ at_value Reads c 62 d (λ cs rest h. refl)
      | inr d ↦ elim (Bool-cases (c == 39)) [
        | inl e ↦ at_value Reads c 39 e (λ cs rest h. refl)
        | inr e ↦ elim (Bool-cases (c == 34)) [
          | inl f ↦ at_value Reads c 34 f (λ cs rest h. refl)
          | inr f ↦ elim (Bool-cases (c == 32)) [
            | inl g ↦ at_value Reads c 32 g (λ cs rest h. elim (Bool-cases (next_is_space cs)) [
              | inl k ↦ rw k refl
              | inr k ↦ rw k refl
            ])
            | inr g ↦ elim (Bool-cases (c == 10)) [
              | inl k ↦ at_value Reads c 10 k (λ cs rest h. refl)
              | inr k ↦ λ cs rest h. rw (a, b, d, e, f, g, k, h) (html_text-plain c rest a b)
            ]
          ]
        ]
      ]
    ]
  ]
]

pub html_text-html_bytes : (s : List ℕ) → Avoids (λ c. c == 13) s → html_text 0 (html_bytes s) ≡ s
unfolding html_text html_bytes
html_text-html_bytes [] n = refl
html_text-html_bytes (c ∷ cs) n =
    html_char-Reads c cs (html_bytes cs) n.0 ∙ ap (λ t. c ∷ t) (html_text-html_bytes cs n.1)

-- The HTML of htmlEncode reads back as the text, where that has no carriage return.
pub html_text-html_encode :
    (s : CStr)
    → Avoids (λ c. c == 13) (c_string s.buffer)
    → html_text 0 (html_encode s).buffer ≡ c_string s.buffer
unfolding html_encode replaced
html_text-html_encode s n = html_text-html_bytes (c_string s.buffer) n
