-- ===== src/Cstr/Codes/Numbers.antt =====
-- Numbers as bytes: what reads them back.
use mathlib.Core.Option
use tsm_proxy.Prelude.{
  ℕ, ◌+◌, ◌*◌, ◌/◌, ◌%◌, ◌<◌, ◌≤◌, ◌≡◌, refl, ap, ◌∙◌, inl, inr, ◌⊎◌, ◌≢◌, true, false, ◌&&◌, ◌||◌,
  Option, none, some, List, [], ◌∷◌, ◌++◌, arith, ◌==◌, leb, ltb, if◌then◌else◌, Bool-cases,
  eq_of_==, subst,
}
use tsm_proxy.Cstr.{CStr, n_cat}
use tsm_proxy.Cstr.Codes.{
  utf8, int_cat_utf8, net_bytes, shorten, int_cat_short, groups, seven, int_cat7,
}

-- The code point of a sequence of UTF-8 of at most three bytes.
abbrev pub utf8_value : List ℕ → ℕ
utf8_value [] = 0
utf8_value (a ∷ []) = a
utf8_value (a ∷ b ∷ []) = a % 32 * 64 + b % 64
utf8_value (a ∷ b ∷ c ∷ r) = a % 16 * 4096 + b % 64 * 64 + c % 64

-- The lead byte tells the number of bytes, and each byte behind it begins with the bits 10.
abbrev pub IsUtf8 : List ℕ → Type 0
IsUtf8 [] = ⊥
IsUtf8 (a ∷ []) = a < 128
IsUtf8 (a ∷ b ∷ []) = (194 ≤ a) × (a < 224) × (128 ≤ b) × (b < 192)
IsUtf8 (a ∷ b ∷ c ∷ []) = (224 ≤ a) × (a < 240) × (128 ≤ b) × (b < 192) × (128 ≤ c) × (c < 192)
IsUtf8 (a ∷ b ∷ c ∷ d ∷ r) = ⊥

-- intCatUtf8 appends the UTF-8 sequence of a number below 65536.
utf8_lem : (i : ℕ) → i < 65536 → IsUtf8 (utf8 i) × (utf8_value (utf8 i) ≡ i)
unfolding utf8
utf8_lem i h = elim (Bool-cases (i / 256 % 256 == 0 && ltb (i % 256) 128)) [
  | inl e ↦ rw e (ground arith)
  | inr e ↦ elim (Bool-cases (ltb (i / 256 % 256) 8)) [
    | inl f ↦ rw (e, f) (ground arith)
    | inr f ↦ rw (e, f) (ground arith)
  ]
]

-- intCatUtf8 appends one to three bytes of UTF-8 that stand for the number, for every number of 16 bits.
pub utf8_value-int_cat_utf8 :
    (i : ℕ) (s : CStr)
    → i < 65536
    → (t : List ℕ) × ((int_cat_utf8 i s).buffer ≡ s.buffer ++ t) × IsUtf8 t × (utf8_value t ≡ i)
unfolding int_cat_utf8 n_cat
utf8_value-int_cat_utf8 i s h = (utf8 i, refl, (utf8_lem i h).0, (utf8_lem i h).1)

-- The 32 bits of a number in two's complement with at most four bytes.
abbrev pub read_short : List ℕ → ℕ
read_short [] = 0
read_short (d ∷ []) = if leb 128 d then 4294967040 + d else d
read_short (c ∷ d ∷ []) = if leb 128 c then 4294901760 + c * 256 + d else c * 256 + d
read_short (b ∷ c ∷ d ∷ []) =
    if leb 128 b then 4278190080 + b * 65536 + c * 256 + d else b * 65536 + c * 256 + d
read_short (a ∷ b ∷ c ∷ d ∷ r) = a * 16777216 + b * 65536 + c * 256 + d

-- No leading byte that only repeats the sign.
abbrev pub IsShort : List ℕ → Type 0
IsShort [] = ⊥
IsShort (a ∷ []) = Unit {0}
IsShort (a ∷ b ∷ r) = ((a == 0 && ltb b 128) || (a == 255 && leb 128 b)) ≡ false

abbrev pub Reads : ℕ → Option (List ℕ) → Type 0
Reads n none = n ≡ 4294967295
Reads n (some t) = (read_short t ≡ n) × IsShort t × (n ≢ 4294967295)

module _ (a b c d : ℕ) (ha : a < 256) (hb : b < 256) (hc : c < 256) (hd : d < 256) where
  -- A byte that only repeats the sign of the next one.
  shorten-Reads : Reads (a * 16777216 + b * 65536 + c * 256 + d) (shorten (a ∷ b ∷ c ∷ d ∷ []))
  unfolding shorten
  shorten-Reads = elim (Bool-cases ((a == 0 && ltb b 128) || (a == 255 && leb 128 b))) [
    | inr e ↦ rw e (ground arith)
    | inl e ↦ elim (Bool-cases ((b == 0 && ltb c 128) || (b == 255 && leb 128 c))) [
      | inr f ↦ rw (e, f) (ground arith)
      | inl f ↦ elim (Bool-cases ((c == 0 && ltb d 128) || (c == 255 && leb 128 d))) [
        | inr g ↦ rw (e, f, g) (ground arith)
        | inl g ↦ elim (Bool-cases (d == 255)) [
          | inl k ↦ rw (e, f, g, k) (ground arith)
          | inr k ↦ rw (e, f, g, k) (ground arith)
        ]
      ]
    ]
  ]

-- intCatShort appends the shortest bytes that read back as the int, in two's complement, for every int
-- but -1, where it reads past the end of the number.
pub read_short-int_cat_short :
    (i : ℕ) (s : CStr)
    → i < 4294967296
    → ((i ≡ 4294967295) × (int_cat_short i s ≡ none))
      ⊎ ((t : List ℕ) × (Option.map (λ (r : CStr). r.buffer) (int_cat_short i s)
            ≡ some (s.buffer ++ t))
          × (read_short t ≡ i)
          × IsShort t
          × (i ≢ 4294967295))
unfolding int_cat_short n_cat
read_short-int_cat_short i s h = each _ (subst (λ n. Reads n (shorten (net_bytes i))) whole found)
  where
    whole :
        i / 16777216 % 256 * 16777216 + i / 65536 % 256 * 65536 + i / 256 % 256 * 256 + i % 256 ≡ i
    whole = omega arith

    found :
        Reads
          (i / 16777216 % 256 * 16777216 + i / 65536 % 256 * 65536 + i / 256 % 256 * 256 + i % 256)
          (shorten (net_bytes i))
    found =
        shorten-Reads (i / 16777216 % 256) (i / 65536 % 256) (i / 256 % 256) (i % 256) (omega arith)
          (omega arith) (omega arith) (omega arith)

    each :
        (o : Option (List ℕ))
        → Reads i o
        → ((i ≡ 4294967295) × (Option.map (λ t. n_cat t s) o ≡ none))
          ⊎ ((t : List ℕ) × (Option.map (λ (r : CStr). r.buffer) (Option.map (λ t. n_cat t s) o)
                ≡ some (s.buffer ++ t))
              × (read_short t ≡ i)
              × IsShort t
              × (i ≢ 4294967295))
    each none e = inl (e, refl)
    each (some t) (v, short, other) = inr (t, refl, v, short, other)

-- Seven bits of each byte.
abbrev pub read_seven : ℕ → List ℕ → ℕ
read_seven acc [] = acc
read_seven acc (c ∷ cs) = read_seven (acc * 128 + c % 128) cs

-- The high bit is set on all but the last, and no group in front is 0.
abbrev pub Continued : List ℕ → Type 0
Continued [] = ⊥
Continued (c ∷ []) = c < 128
Continued (c ∷ d ∷ cs) = (128 ≤ c) × Continued (d ∷ cs)

abbrev Small : List ℕ → Type 0
Small [] = Unit {0}
Small (c ∷ cs) = (c < 128) × Small cs

cons-Continued : (x : ℕ) (t : List ℕ) → 128 ≤ x → Continued t → Continued (x ∷ t)
cons-Continued x [] h k = absurd k
cons-Continued x (d ∷ t) h k = (h, k)

groups_begun :
    (c : ℕ) (cs : List ℕ) (acc : ℕ)
    → Small (c ∷ cs)
    → (read_seven acc (groups true (c ∷ cs)) ≡ read_seven acc (c ∷ cs))
      × Continued (groups true (c ∷ cs))
unfolding groups
groups_begun c [] acc h = (refl, h.0)
groups_begun c (d ∷ cs) acc h =
    let (same, continued) = groups_begun d cs (acc * 128 + (128 + c) % 128) h.1 in
    let seven_bits : (128 + c) % 128 ≡ c % 128 = omega arith in
    (
      same ∙ ap (λ n. read_seven (acc * 128 + n) (d ∷ cs)) seven_bits,
      cons-Continued (128 + c) (groups true (d ∷ cs)) (omega arith) continued,
    )

groups_all :
    (c : ℕ) (cs : List ℕ)
    → Small (c ∷ cs)
    → (read_seven 0 (groups false (c ∷ cs)) ≡ read_seven 0 (c ∷ cs))
      × Continued (groups false (c ∷ cs))
unfolding groups
groups_all c [] h = (refl, h.0)
groups_all c (d ∷ cs) h = elim (Bool-cases (c == 0)) [
  | inl e ↦
      let (same, continued) = groups_all d cs h.1 in
      let first : 0 ≡ (0 + c % 128) = omega (arith, eq_of_== c 0 e) in
      rw e (same ∙ ap (λ n. read_seven n (d ∷ cs)) first, continued)
  | inr e ↦
      let (same, continued) = groups_begun d cs (0 + (128 + c) % 128) h.1 in
      let seven_bits : (128 + c) % 128 ≡ c % 128 = omega arith in
      rw e (
        same ∙ ap (λ n. read_seven (0 + n) (d ∷ cs)) seven_bits,
        cons-Continued (128 + c) (groups true (d ∷ cs)) (omega arith) continued,
      )
]

-- intCat7 appends bytes that carry the number, seven bits in each, and end with the first that is
-- below 128.
pub read_seven-int_cat7 :
    (id : ℕ) (s : CStr)
    → id < 2147483648
    → (t : List ℕ) × ((int_cat7 id s).buffer ≡ s.buffer ++ t) × (read_seven 0 t ≡ id) × Continued t
unfolding int_cat7 n_cat
read_seven-int_cat7 id s h =
    let (same, continued) =
      groups_all (id / 268435456)
        (id / 2097152 % 128 ∷ id / 16384 % 128 ∷ id / 128 % 128 ∷ id % 128 ∷ []) (omega arith) in
    (groups false (seven id), refl, same ∙ omega arith, continued)
