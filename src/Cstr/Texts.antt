-- ===== src/Cstr/Texts.antt =====
-- Searches in a CStr: strstr, cut and replace.
use mathlib.Core.List.{append_assoc}
use tsm_proxy.Prelude.{
  ℕ, zero, suc, ◌+◌, ◌≤◌, ◌<◌, ◌≡◌, refl, ap, ◌∙◌, sym, subst, inl, inr, Bool, true, false, Option,
  none, some, List, [], ◌∷◌, ◌++◌, arith, ◌==◌, length, length-append, take, drop, Bool-cases,
  eq_of_==,
}
use mathlib.Core.Option
use tsm_proxy.Chars.{before, c_string, is_prefix, strstr}
use tsm_proxy.Chars.Laws.{Avoids, before_all, before-Avoids}
use tsm_proxy.Cstr.{
  CStr, new, assign, assign_str, clear, n_cat, append_text, cut_at, cut, replace_loop, replace,
}

is_prefix-drop : (p s : List ℕ) → is_prefix p s ≡ true → p ++ drop (length p) s ≡ s
unfolding is_prefix
is_prefix-drop [] s h = refl
is_prefix-drop (c ∷ p) [] h = cc
is_prefix-drop (c ∷ p) (d ∷ s) h = elim (Bool-cases (c == d)) [
  | inl e ↦
      let first : c ≡ d = eq_of_== c d e in
      ap (λ x. x ∷ (p ++ drop (length p) s)) first
      ∙ ap (λ x. d ∷ x) (is_prefix-drop p s (rw e at h))
  | inr e ↦ absurd (no (rw e at h))
]
  where
    no : false ≡ true → ⊥
    no q = cc

-- The separator begins nowhere in the text.
abbrev pub Absent : List ℕ → List ℕ → Type 0
Absent sep [] = is_prefix sep [] ≡ false
Absent sep (c ∷ cs) = (is_prefix sep (c ∷ cs) ≡ false) × Absent sep cs

-- It begins at none of the first so many places.
abbrev pub Later : ℕ → List ℕ → List ℕ → Type 0
Later zero sep s = Unit {0}
Later (suc n) sep [] = Unit {0}
Later (suc n) sep (c ∷ cs) = (is_prefix sep (c ∷ cs) ≡ false) × Later n sep cs

abbrev pub Found : List ℕ → List ℕ → Option ℕ → Type 0
Found sep s none = Absent sep s
Found sep s (some k) = (take k s ++ (sep ++ drop (k + length sep) s) ≡ s) × Later k sep s

Found-suc :
    (sep : List ℕ) (c : ℕ) (cs : List ℕ) (o : Option ℕ)
    → is_prefix sep (c ∷ cs) ≡ false
    → Found sep cs o
    → Found sep (c ∷ cs) (Option.map suc o)
Found-suc sep c cs none e f = (e, f)
Found-suc sep c cs (some k) e (f, l) =
    let place : suc k + length sep ≡ suc (k + length sep) = omega arith in
    (ap (λ n. c ∷ (take k cs ++ (sep ++ drop n (c ∷ cs)))) place ∙ ap (λ t. c ∷ t) f, (e, l))

Found-front : (sep s : List ℕ) → is_prefix sep s ≡ true → Found sep s (some 0)
Found-front sep s e =
    let place : 0 + length sep ≡ length sep = omega arith in
    (ap (λ n. sep ++ drop n s) place ∙ is_prefix-drop sep s e, tt)

-- strstr finds the first place where the separator begins, or there is none.
pub strstr-Found : (s sep : List ℕ) → Found sep s (strstr s sep)
unfolding strstr
strstr-Found [] sep = elim (Bool-cases (is_prefix sep [])) [
  | inl e ↦ rw e (Found-front sep [] e)
  | inr e ↦ rw e e
]
strstr-Found (c ∷ cs) sep = elim (Bool-cases (is_prefix sep (c ∷ cs))) [
  | inl e ↦ rw e (Found-front sep (c ∷ cs) e)
  | inr e ↦ rw e (Found-suc sep c cs (strstr cs sep) e (strstr-Found cs sep))
]

Avoids-drop : (stop : ℕ → Bool) (n : ℕ) (s : List ℕ) → Avoids stop s → Avoids stop (drop n s)
Avoids-drop stop zero s h = h
Avoids-drop stop (suc n) [] h = tt
Avoids-drop stop (suc n) (c ∷ s) h = Avoids-drop stop n s h.1

-- A text without a NULL.
abbrev pub IsText : List ℕ → Type 0
IsText s = Avoids (λ c. c == 0) s

c_string-IsText : (s : List ℕ) → IsText s → c_string s ≡ s
c_string-IsText s h = before_all (λ c. c == 0) s h

abbrev pub Cut : List ℕ → CStr → CStr → CStr × CStr → Option ℕ → Type 0
Cut sep s result r none = (r.0.buffer ≡ []) × (r.1.buffer ≡ s.buffer) × Absent sep s.buffer
Cut sep s result r (some k) =
    (r.1.buffer ++ (sep ++ r.0.buffer) ≡ s.buffer)
    × (r.1.buffer ≡ take k s.buffer)
    × Later k sep s.buffer

cut_at-Cut :
    (sep : List ℕ) (s result : CStr) (o : Option ℕ)
    → IsText s.buffer
    → Found sep s.buffer o
    → Cut sep s result (cut_at sep s result o) o
unfolding cut_at clear assign assign_str n_cat
cut_at-Cut sep s result none h f = (refl, refl, f)
cut_at-Cut sep s result (some k) h f =
    let rest = drop (k + length sep) s.buffer in
    let whole : c_string (drop (k + length sep) (c_string s.buffer)) ≡ rest =
      ap (λ t. c_string (drop (k + length sep) t)) (c_string-IsText s.buffer h)
      ∙ c_string-IsText rest (Avoids-drop (λ c. c == 0) (k + length sep) s.buffer h) in
    (ap (λ t. take k s.buffer ++ (sep ++ t)) whole ∙ f.0, refl, f.1)

-- cut takes the string apart at the first place where the separator begins: the result, the separator
-- and what stays in the string are the text; without a separator all of it is the result.
pub cut-Cut :
    (sep : List ℕ) (s result : CStr)
    → IsText sep
    → IsText s.buffer
    → Cut sep s result (cut sep s result) (strstr s.buffer sep)
unfolding cut
cut-Cut sep s result hs h =
    rw (c_string-IsText sep hs, c_string-IsText s.buffer h)
      (cut_at-Cut sep s result (strstr s.buffer sep) h (strstr-Found s.buffer sep))

-- The text with each occurrence of the pattern, from left to right, replaced.
pub data Replaced (pattern by : List ℕ) : List ℕ → List ℕ → Type 0 where
  ends : {p : List ℕ} → Absent pattern p → Replaced pattern by p p
  finds :
      {p q : List ℕ} (a r : List ℕ)
      → a ++ (pattern ++ r) ≡ p
      → Later (length a) pattern p
      → Replaced pattern by r q
      → Replaced pattern by p (a ++ (by ++ q))

length-take_le : (k : ℕ) (s : List ℕ) → length (take k s) ≤ k
length-take_le zero s = omega arith
length-take_le (suc k) [] = omega arith
length-take_le (suc k) (c ∷ s) = omega (arith, length-take_le k s)

Later-le : (m n : ℕ) (sep s : List ℕ) → m ≤ n → Later n sep s → Later m sep s
Later-le zero n sep s h l = tt
Later-le (suc m) zero sep s h l = absurd (omega arith)
Later-le (suc m) (suc n) sep [] h l = tt
Later-le (suc m) (suc n) sep (c ∷ s) h l = (l.0, Later-le m n sep s (omega arith) l.1)

abbrev Done : List ℕ → List ℕ → List ℕ → List ℕ → Option CStr → Type 0
Done pattern by p before_it none = ⊥
Done pattern by p before_it (some d) =
    (q : List ℕ) × (d.buffer ≡ before_it ++ q) × Replaced pattern by p q

module _ (pattern by : List ℕ) (some_pattern : 0 < length pattern) (text : IsText by) where
  replace_loop-Done :
      (fuel : ℕ) (p : List ℕ) (dest : CStr)
      → length p < fuel
      → IsText p
      → Done pattern by p dest.buffer (replace_loop fuel pattern by p dest)
  unfolding replace_loop append_text n_cat
  replace_loop-Done zero p dest b h = absurd (omega arith)
  replace_loop-Done (suc fuel) p dest b h =
      round (strstr p pattern) (strstr-Found p pattern)
        (λ r dest' c. replace_loop-Done fuel r dest' c)
    where
      further :
          (a r : List ℕ) (o : Option CStr)
          → a ++ (pattern ++ r) ≡ p
          → Later (length a) pattern p
          → Done pattern by r ((dest.buffer ++ a) ++ c_string by) o
          → Done pattern by p dest.buffer o
      further a r none f l d = d
      further a r (some d) f l (q, e, replaced) = (
        a ++ (by ++ q),
        e
            ∙ ap (λ t. ((dest.buffer ++ a) ++ t) ++ q) (c_string-IsText by text)
            ∙ append_assoc (dest.buffer ++ a) by q
            ∙ append_assoc dest.buffer a (by ++ q),
        finds a r f l replaced,
      )

      round :
          (o : Option ℕ)
          → Found pattern p o
          → ((r : List ℕ) (dest' : CStr)
              → length r < fuel
              → IsText r
              → Done pattern by r dest'.buffer (replace_loop fuel pattern by r dest'))
          → Done pattern by p dest.buffer (elim o as (λ x. Option CStr) [
            | none ↦ some (append_text p dest)
            | some k ↦
                replace_loop fuel pattern by
                  (drop (k + length pattern) p)
                  (append_text by (n_cat (take k p) dest))
          ])
      round none f again = (p, ap (λ t. dest.buffer ++ t) (c_string-IsText p h), ends f)
      round (some k) (f, l) again =
          let r = drop (k + length pattern) p in
          let shorter : length r < fuel = omega (
            arith,
            ap length f,
            length-append (take k p) (pattern ++ r),
            length-append pattern r,
          ) in
          further (take k p) r _ f (Later-le (length (take k p)) k pattern p (length-take_le k p) l)
            (again r (append_text by (n_cat (take k p) dest)) shorter
              (Avoids-drop (λ c. c == 0) (k + length pattern) p h))

-- replace ends where the pattern is not empty and neither text has a NULL, with each occurrence of the
-- pattern replaced, from left to right.
pub replace-Replaced :
    (pattern by : List ℕ) (s : CStr)
    → 0 < length pattern
    → IsText pattern
    → IsText by
    → (d : CStr) × (replace pattern by s ≡ some d)
      × Replaced pattern by (c_string s.buffer) d.buffer
unfolding replace new assign_str
replace-Replaced pattern by s some_pattern hp hb =
    let t = c_string s.buffer in
    rw (replace, c_string-IsText pattern hp)
      (each (replace_loop (length t + 1) pattern by t new) (
        replace_loop-Done pattern by some_pattern hb (length t + 1) t new (omega arith)
          (before-Avoids (λ c. c == 0) s.buffer)))
  where
    each :
        (o : Option CStr)
        → Done pattern by (c_string s.buffer) [] o
        → (d : CStr) × ((elim o as (λ x. Option CStr) [
          | none ↦ none
          | some dest ↦ some (assign_str dest s)
        ])
            ≡ some d)
          × Replaced pattern by (c_string s.buffer) d.buffer
    each none d = absurd d
    each (some dest) (q, e, r) =
        (assign_str dest s, refl, subst (Replaced pattern by (c_string s.buffer)) (sym e) r)

-- An empty pattern is found in front of every text.
replace_loop-empty :
    (fuel : ℕ) (by p : List ℕ) (dest : CStr) → replace_loop fuel [] by p dest ≡ none
unfolding replace_loop strstr is_prefix
replace_loop-empty zero by p dest = refl
replace_loop-empty (suc fuel) by [] dest =
    replace_loop-empty fuel by [] (append_text by (n_cat [] dest))
replace_loop-empty (suc fuel) by (c ∷ p) dest =
    replace_loop-empty fuel by (c ∷ p) (append_text by (n_cat [] dest))

-- replace with an empty pattern does not end: no number of rounds is enough.
pub replace-empty :
    (by : List ℕ) (s : CStr) (fuel : ℕ)
    → (replace_loop fuel [] by (c_string s.buffer) new ≡ none) × (replace [] by s ≡ none)
unfolding replace before
replace-empty by s fuel = (
  replace_loop-empty fuel by (c_string s.buffer) new,
  ap
      (λ (o : Option CStr). elim o as (λ x. Option CStr) [
        | none ↦ none
        | some dest ↦ some (assign_str dest s)
      ])
      (replace_loop-empty (length (c_string s.buffer) + 1) by (c_string s.buffer) new),
)
