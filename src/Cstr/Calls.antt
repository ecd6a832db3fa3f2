-- ===== src/Cstr/Calls.antt =====
-- Any calls of a CStr.
use mathlib.Core.Option
use tsm_proxy.Prelude.{
  ℕ, zero, suc, ◌+◌, ◌%◌, ◌≤◌, ◌≡◌, subst, inl, inr, false, Option, none, some, List, [], ◌∷◌, ◌++◌,
  arith, ◌==◌, length, length-append, Bool-cases,
}
use tsm_proxy.Prelude.Int.{ℤ}
use tsm_proxy.Chars.{c_string, strstr}
use tsm_proxy.Cstr.{
  CStr, new, assign, assign_str, clear, steal, n_cat, append_str, append_text, append_char,
  set_byte, trim, trim_all, to_lower, to_upper, cut, cut_length, f_cat_title, replace,
}
use tsm_proxy.Cstr.Codes.{
  uric_encode, utf8, int_cat_utf8, escape, piece, join, decode_bytes, uric_decode, html_encode,
  int_cat4, int_cat_short, shorten, int_cat7, scan_hex, net_bytes, groups, seven,
}
use tsm_proxy.Cstr.Valid.{
  IsValid, shorter, assign-IsValid, assign_str-IsValid, n_cat-IsValid, replaced-IsValid,
  set_byte-IsValid, trim-IsValid, trim_all-IsValid, to_lower-IsValid, to_upper-IsValid,
  cut_length-IsValid, cut_at-IsValid, f_cat_title-IsValid, length-before,
}

-- A call on the string, with its other arguments.
pub data Call : Type 0 where
  assigns : Option (List ℕ) → Call
  copies appends : CStr → Call
  clears steals trims trims_all lowers uppers : Call
  cats cats_text cuts : List ℕ → Call
  cats_char : ℕ → Call
  sets : ℕ → ℤ → Call
  cuts_length : ℤ → Call
  titles : List ℕ → ℕ → ℕ → Call
  replaces : List ℕ → List ℕ → Call
  uric_encodes uric_decodes html_encodes : Call
  cats_utf8 cats4 cats_short cats7 : ℕ → Call

-- None where the call reads past its buffer, or does not end.
unfoldable pub apply : Call → CStr → Option CStr
unfolding assign assign_str append_str clear steal trim trim_all to_lower to_upper n_cat append_text
    cut append_char set_byte cut_length f_cat_title replace uric_encode uric_decode html_encode
    int_cat_utf8 int_cat4 int_cat_short int_cat7 new
apply (assigns o) s = some (assign o s)
apply (copies t) s = some (assign_str t s)
apply (appends t) s = some (append_str t s)
apply clears s = some (clear s)
apply steals s = some (steal s).0
apply trims s = some (trim s)
apply trims_all s = some (trim_all s)
apply lowers s = some (to_lower s)
apply uppers s = some (to_upper s)
apply (cats t) s = some (n_cat t s)
apply (cats_text t) s = some (append_text t s)
apply (cuts sep) s = some (cut sep s new).0
apply (cats_char c) s = some (append_char c s)
apply (sets c i) s = some (set_byte c i s)
apply (cuts_length i) s = some (cut_length i s)
apply (titles t c n) s = some (f_cat_title t c n s)
apply (replaces p by) s = replace p by s
apply uric_encodes s = some (uric_encode s)
apply uric_decodes s = uric_decode s
apply html_encodes s = some (html_encode s)
apply (cats_utf8 i) s = some (int_cat_utf8 i s)
apply (cats4 i) s = some (int_cat4 i s)
apply (cats_short i) s = int_cat_short i s
apply (cats7 i) s = some (int_cat7 i s)

unfoldable pub run_calls : List Call → CStr → Option CStr
unfolding apply
run_calls [] s = some s
run_calls (c ∷ cs) s = elim (apply c s) [ none ↦ none | some t ↦ run_calls cs t ]

abbrev AllValid : Option CStr → Type 0
AllValid none = Unit {0}
AllValid (some s) = IsValid s

-- What is decoded is no longer than what it is decoded from.
length-utf8 : (i : ℕ) → length (utf8 i) ≤ 3
unfolding utf8
length-utf8 i = ground arith

abbrev Fits : Option (List ℕ × ℕ) → Type 0
Fits none = Unit {0}
Fits (some (t, n)) = length t ≤ n + 1

piece-Fits : (c : ℕ) (cs : List ℕ) → Fits (piece c cs)
unfolding piece escape
piece-Fits c [] = elim (Bool-cases (c == 37)) [ inl e ↦ rw e tt | inr e ↦ rw e (omega arith) ]
piece-Fits c (d ∷ cs) = elim (Bool-cases (c == 37)) [
  | inr e ↦ rw e (omega arith)
  | inl e ↦ elim (Bool-cases (d == 117)) [
    | inl u ↦ rw (e, u) (wide (scan_hex 4 cs))
    | inr u ↦ rw (e, u) (narrow (scan_hex 2 (d ∷ cs)))
  ]
]
  where
    wide : (o : Option ℕ) → Fits (Option.map (λ n. (utf8 n, 5)) o)
    wide none = tt
    wide (some n) = omega (arith, length-utf8 n)

    narrow : (o : Option ℕ) → Fits (Option.map (λ n. (n % 256 ∷ [], 2)) o)
    narrow none = tt
    narrow (some n) = omega arith

-- So many bytes are skipped, and the decoded text is that much shorter.
abbrev Decoded : ℕ → List ℕ → Option (List ℕ) → Type 0
Decoded n s none = Unit {0}
Decoded n s (some t) = length t + n ≤ length s

Decoded-skip :
    (n c : ℕ) (s : List ℕ) (o : Option (List ℕ)) → Decoded n s o → Decoded (suc n) (c ∷ s) o
Decoded-skip n c s none h = tt
Decoded-skip n c s (some t) h = omega (arith, h)

Decoded-join :
    (c : ℕ) (s : List ℕ) (o : Option (List ℕ × ℕ)) (again : ℕ → Option (List ℕ))
    → Fits o
    → ((n : ℕ) → Decoded n s (again n))
    → Decoded 0 (c ∷ s) (join o again)
Decoded-join c s none again f h = tt
Decoded-join c s (some (t, n)) again f h = each (again n) (h n)
  where
    each :
        (o : Option (List ℕ)) → Decoded n s o → Decoded 0 (c ∷ s) (Option.map (λ rest. t ++ rest) o)
    each none d = tt
    each (some rest) d = omega (arith, d, f, length-append t rest)

decode_bytes-Decoded : (n : ℕ) (s : List ℕ) → Decoded n s (decode_bytes n s)
unfolding decode_bytes
decode_bytes-Decoded zero [] = omega arith
decode_bytes-Decoded (suc n) [] = tt
decode_bytes-Decoded (suc n) (c ∷ cs) =
    Decoded-skip n c cs (decode_bytes n cs) (decode_bytes-Decoded n cs)
decode_bytes-Decoded zero (c ∷ cs) =
    Decoded-join c cs (piece c cs) (λ n. decode_bytes n cs) (piece-Fits c cs)
      (λ n. decode_bytes-Decoded n cs)

Decoded-IsValid :
    (s : CStr) (o : Option (List ℕ))
    → IsValid s
    → Decoded 0 (c_string s.buffer) o
    → AllValid (Option.map (λ t. record s { buffer = t }) o)
Decoded-IsValid s none v d = tt
Decoded-IsValid s (some t) v d =
    shorter t s v (omega (arith, d, length-before (λ c. c == 0) s.buffer))

shortened-IsValid : (s : CStr) (o : Option (List ℕ)) → AllValid (Option.map (λ t. n_cat t s) o)
shortened-IsValid s none = tt
shortened-IsValid s (some t) = n_cat-IsValid t s

replaced_by-IsValid :
    (s : CStr) (o : Option CStr)
    → AllValid (elim o as (λ x. Option CStr) [ none ↦ none | some dest ↦ some (assign_str dest s) ])
replaced_by-IsValid s none = tt
replaced_by-IsValid s (some dest) = assign_str-IsValid dest s

apply-IsValid : (c : Call) (s : CStr) → IsValid s → AllValid (apply c s)
unfolding apply new clear steal append_str append_text append_char cut uric_encode uric_decode
    html_encode int_cat_utf8 int_cat4 int_cat_short int_cat7 replace
apply-IsValid (assigns o) s v = assign-IsValid o s
apply-IsValid (copies t) s v = assign_str-IsValid t s
apply-IsValid (appends t) s v = n_cat-IsValid t.buffer s
apply-IsValid clears s v = omega arith
apply-IsValid steals s v = omega arith
apply-IsValid trims s v = trim-IsValid s v
apply-IsValid trims_all s v = trim_all-IsValid s v
apply-IsValid lowers s v = to_lower-IsValid s v
apply-IsValid uppers s v = to_upper-IsValid s v
apply-IsValid (cats t) s v = n_cat-IsValid t s
apply-IsValid (cats_text t) s v = n_cat-IsValid (c_string t) s
apply-IsValid (cuts sep) s v =
    (cut_at-IsValid (c_string sep) s new (strstr (c_string s.buffer) (c_string sep))).0
apply-IsValid (cats_char c) s v = n_cat-IsValid (c ∷ []) s
apply-IsValid (sets c i) s v = set_byte-IsValid c i s v
apply-IsValid (cuts_length i) s v = cut_length-IsValid i s v
apply-IsValid (titles t c n) s v = f_cat_title-IsValid t c n s
apply-IsValid (replaces p by) s v = replaced_by-IsValid s _
apply-IsValid uric_encodes s v = replaced-IsValid _ s
apply-IsValid uric_decodes s v =
    Decoded-IsValid s (decode_bytes 0 (c_string s.buffer)) v
      (decode_bytes-Decoded 0 (c_string s.buffer))
apply-IsValid html_encodes s v = replaced-IsValid _ s
apply-IsValid (cats_utf8 i) s v = n_cat-IsValid (utf8 i) s
apply-IsValid (cats4 i) s v = n_cat-IsValid (net_bytes i) s
apply-IsValid (cats_short i) s v = shortened-IsValid s (shorten (net_bytes i))
apply-IsValid (cats7 i) s v = n_cat-IsValid (groups false (seven i)) s

-- After any calls that return, the bytes of a string that fitted into its buffer fit into it.
pub run_calls-IsValid :
    (cs : List Call) (s t : CStr) → IsValid s → run_calls cs s ≡ some t → IsValid t
unfolding run_calls
run_calls-IsValid [] s t v h = let e : s ≡ t = cc in subst IsValid e v
run_calls-IsValid (c ∷ cs) s t v h =
    each (apply c s) (apply-IsValid c s v) (λ u. run_calls-IsValid cs u t) h
  where
    each :
        (o : Option CStr)
        → AllValid o
        → ((u : CStr) → IsValid u → run_calls cs u ≡ some t → IsValid t)
        → (elim o as (λ x. Option CStr) [ none ↦ none | some u ↦ run_calls cs u ]) ≡ some t
        → IsValid t
    each none w ih h = cc
    each (some u) w ih h = ih u w h
