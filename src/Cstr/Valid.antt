-- ===== src/Cstr/Valid.antt =====
-- The bytes of a CStr and the NULL behind them fit into its buffer, whatever was called.
use tsm_proxy.Prelude.{
  ℕ, zero, suc, ◌+◌, ◌-◌, ◌/◌, ◌≤◌, ◌≡◌, refl, ap, inl, inr, Bool, not, Option, none, some, List,
  [], ◌∷◌, ◌++◌, map, arith, ◌==◌, leb, ltb, length, take, drop, length-append, length-take,
  length-set, Bool-cases,
}
use tsm_proxy.Prelude.Int.{ℤ, pos, negsuc}
use tsm_proxy.Chars.{before, since, c_string, isspace, isalnum, tolower, toupper}
use tsm_proxy.Chars.Laws.{before-append-since, length-since}
use tsm_proxy.Cstr.{
  CStr, new, from_text, copy, resize, room, assign, assign_str, clear, n_cat, append_text,
  append_char, set_byte, trim_end, trim_end_at, trim, letters, trim_all, to_lower, to_upper, cut_at,
  cut_length, f_cat_chars, titled, f_cat_title,
}
use tsm_proxy.Cstr.Codes.{replaced}

abbrev pub IsValid : CStr → Type 0
IsValid s = length s.buffer ≤ s.capacity

-- A buffer that room was made in holds so many bytes, and does not shrink.
room-le : (n : ℕ) (s : CStr) → (n ≤ (room n s).capacity) × (s.capacity ≤ (room n s).capacity)
unfolding room resize
room-le n s = ground arith

resized :
    (n : ℕ) (s : CStr) (t : List ℕ) → length t ≤ n → IsValid (record (room n s) { buffer = t })
resized n s t h = omega (arith, (room-le n s).0)

pub from_text-IsValid : (o : Option (List ℕ)) → IsValid (from_text o)
unfolding from_text new
from_text-IsValid none = omega arith
from_text-IsValid (some t) = ground arith

pub copy-IsValid : (s : CStr) → IsValid (copy s)
unfolding copy
copy-IsValid s = ground arith

pub assign-IsValid : (o : Option (List ℕ)) (s : CStr) → IsValid (assign o s)
unfolding assign
assign-IsValid none s = omega arith
assign-IsValid (some t) s = resized (length (c_string t)) s (c_string t) (omega arith)

pub assign_str-IsValid : (t s : CStr) → IsValid (assign_str t s)
unfolding assign_str
assign_str-IsValid t s = resized (length t.buffer) s t.buffer (omega arith)

pub n_cat-IsValid : (t : List ℕ) (s : CStr) → IsValid (n_cat t s)
unfolding n_cat
n_cat-IsValid t s =
    resized (length s.buffer + length t) s (s.buffer ++ t) (omega (arith, length-append s.buffer t))

pub replaced-IsValid : (t : List ℕ) (s : CStr) → IsValid (replaced t s)
unfolding replaced
replaced-IsValid t s = resized (length t) s t (omega arith)

pub set_byte-IsValid : (c : ℕ) (i : ℤ) (s : CStr) → IsValid s → IsValid (set_byte c i s)
unfolding set_byte
set_byte-IsValid c (pos n) s v = omega (arith, length-set s.buffer n c)
set_byte-IsValid c (negsuc n) s v = elim (Bool-cases (ltb (length s.buffer) (suc n))) [
  | inl e ↦ rw e v
  | inr e ↦ rw e (omega (arith, length-set s.buffer (length s.buffer - suc n) c))
]

-- A shorter content fits too.
pub shorter :
    (t : List ℕ) (s : CStr)
    → IsValid s
    → length t ≤ length s.buffer
    → IsValid (record s { buffer = t })
shorter t s v h = omega (arith, v)

length-trim_end : (t : List ℕ) → length (trim_end t) ≤ length t
unfolding trim_end
length-trim_end [] = omega arith
length-trim_end (c ∷ cs) = at (trim_end cs) (length-trim_end cs)
  where
    at : (r : List ℕ) → length r ≤ length cs → length (trim_end_at c r) ≤ suc (length cs)
    at [] h = ground arith
    at (d ∷ ds) h = omega arith

pub trim-IsValid : (s : CStr) → IsValid s → IsValid (trim s)
unfolding trim
trim-IsValid s v =
    let p = since (λ c. not (isspace c)) s.buffer in
    shorter _ s v (
      omega (
        arith,
        length-trim_end (
            take (length p) (
              (c_string p ++ 0 ∷ []) ++ drop (length (c_string p ++ 0 ∷ [])) (s.buffer ++ 0 ∷ []))),
        length-take (length p)
            ((c_string p ++ 0 ∷ []) ++ drop (length (c_string p ++ 0 ∷ [])) (s.buffer ++ 0 ∷ [])),
        length-since (λ c. not (isspace c)) s.buffer,
      ))

pub length-before : (stop : ℕ → Bool) (t : List ℕ) → length (before stop t) ≤ length t
length-before stop t =
    omega
      (arith, ap length (before-append-since stop t), length-append (before stop t) (since stop t))

length-letters : (t : List ℕ) → length (letters t) ≤ length t
length-letters [] = omega arith
length-letters (c ∷ cs) = elim (Bool-cases (isalnum c)) [
  | inl e ↦ rw e (omega (arith, length-letters cs))
  | inr e ↦ rw e (omega (arith, length-letters cs))
]

pub trim_all-IsValid : (s : CStr) → IsValid s → IsValid (trim_all s)
unfolding trim_all
trim_all-IsValid s v =
    shorter _ s v
      (omega (arith, length-letters (c_string s.buffer), length-before (λ c. c == 0) s.buffer))

length-map : (f : ℕ → ℕ) (t : List ℕ) → length (map f t) ≡ length t
length-map f [] = refl
length-map f (c ∷ cs) = ap suc (length-map f cs)

-- toLower and toUpper: the text is changed, and what is behind a NULL stays.
case-le : (f : ℕ → ℕ) (t : List ℕ) → length (map f (c_string t) ++ since (λ c. c == 0) t) ≤ length t
case-le f t = omega (
  arith,
  length-append (map f (c_string t)) (since (λ c. c == 0) t),
  length-map f (c_string t),
  ap length (before-append-since (λ c. c == 0) t),
  length-append (c_string t) (since (λ c. c == 0) t),
)

pub to_lower-IsValid : (s : CStr) → IsValid s → IsValid (to_lower s)
unfolding to_lower
to_lower-IsValid s v = shorter _ s v (case-le tolower s.buffer)

pub to_upper-IsValid : (s : CStr) → IsValid s → IsValid (to_upper s)
unfolding to_upper
to_upper-IsValid s v = shorter _ s v (case-le toupper s.buffer)

pub cut_length-IsValid : (i : ℤ) (s : CStr) → IsValid s → IsValid (cut_length i s)
unfolding cut_length
cut_length-IsValid (pos n) s v = elim (Bool-cases (leb (length s.buffer) n)) [
  | inl e ↦ rw e v
  | inr e ↦ rw e (shorter _ s v (omega (arith, length-take n s.buffer)))
]
cut_length-IsValid (negsuc n) s v = elim (Bool-cases (ltb (length s.buffer) (suc n))) [
  | inl e ↦ rw e v
  | inr e ↦ rw e (shorter _ s v (omega (arith, length-take (length s.buffer - suc n) s.buffer)))
]

-- Both strings of a cut.
pub cut_at-IsValid :
    (sep : List ℕ) (s result : CStr) (k : Option ℕ)
    → IsValid (cut_at sep s result k).0 × IsValid (cut_at sep s result k).1
unfolding cut_at clear
cut_at-IsValid sep s result none = (omega arith, assign_str-IsValid s result)
cut_at-IsValid sep s result (some k) = (
  assign-IsValid (some (drop (k + length sep) (c_string s.buffer))) s,
  n_cat-IsValid (take k s.buffer) (clear result),
)

pub f_cat_chars-IsValid : (c n : ℕ) (s : CStr) → IsValid s → IsValid (f_cat_chars c n s)
unfolding f_cat_chars append_char
f_cat_chars-IsValid c zero s v = v
f_cat_chars-IsValid c (suc n) s v =
    f_cat_chars-IsValid c n (append_char c s) (n_cat-IsValid (c ∷ []) s)

pub titled-IsValid : (title : List ℕ) (c l r : ℕ) (s : CStr) → IsValid (titled title c l r s)
unfolding titled append_char
titled-IsValid title c l r s =
    f_cat_chars-IsValid c r
      (append_char 32 (append_text title (append_char 32 (f_cat_chars c l s))))
      (n_cat-IsValid (32 ∷ []) (append_text title (append_char 32 (f_cat_chars c l s))))

pub f_cat_title-IsValid : (title : List ℕ) (c n : ℕ) (s : CStr) → IsValid (f_cat_title title c n s)
unfolding f_cat_title append_text
f_cat_title-IsValid title c n s = elim (Bool-cases (ltb n (length (c_string title) + 4))) [
  | inl e ↦ rw e (n_cat-IsValid (c_string title) s)
  | inr e ↦
      let l = (n - length (c_string title) - 2) / 2 in
      rw e (titled-IsValid title c l (n - length (c_string title) - 2 - l) s)
]
