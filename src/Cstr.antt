-- ===== src/Cstr.antt =====
-- xframe/comserv/comtypedef_vchar.C: CStr, a string in a buffer that grows. The buffer is the list of
-- its m_length bytes; the byte behind them is NULL. A `const char*` is a list of bytes, of which the
-- ones in front of the first NULL count.
pub mod Texts
pub mod Codes
pub mod Wire
pub mod Valid
pub mod Calls
use tsm_proxy.Prelude.{
  ℕ, zero, suc, ◌+◌, ◌-◌, ◌*◌, ◌/◌, Bool, true, false, ◌&&◌, ◌||◌, not, Option, none, some, List,
  [], ◌∷◌, ◌++◌, map, ◌==◌, leb, ltb, if◌then◌else◌, length, take, drop, set, get_or, replicate,
}
use tsm_proxy.Prelude.Int.{ℤ, pos, negsuc}
use tsm_proxy.Chars.{
  before, since, c_string, same, less, strstr, isspace, isalnum, tolower, toupper,
}

pub record CStr : Type 0 where
  pub buffer : List ℕ
  pub capacity : ℕ

-- MaxCStrBufferLen
abbrev pub max_buffer : ℕ
max_buffer = 32

unfoldable pub new : CStr
new = record { buffer = []; capacity = max_buffer - 1 }

-- The constructor from text, and the one that copies.
unfoldable pub from_text : Option (List ℕ) → CStr
unfolding new
from_text none = new
from_text (some str) = record {
  buffer = c_string str;
  capacity =
      if ltb (max_buffer - 1) (length (c_string str))
      then length (c_string str)
      else max_buffer - 1;
}

unfoldable pub copy : CStr → CStr
copy str = record {
  buffer = str.buffer;
  capacity = if ltb (max_buffer - 1) (length str.buffer) then length str.buffer else max_buffer - 1;
}

unfoldable pub resize : ℕ → CStr → CStr
resize n s =
    if leb n s.capacity then s else record s { capacity = (n / max_buffer + 1) * max_buffer - 1 }

-- The buffer grows where the bytes do not fit.
unfoldable pub room : ℕ → CStr → CStr
unfolding resize
room n s = if ltb s.capacity n then resize n s else s

unfoldable pub assign : Option (List ℕ) → CStr → CStr
unfolding room
assign none s = record s { buffer = [] }
assign (some str) s = record (room (length (c_string str)) s) { buffer = c_string str }

unfoldable pub assign_str : CStr → CStr → CStr
unfolding room
assign_str str s = record (room (length str.buffer) s) { buffer = str.buffer }

unfoldable pub clear : CStr → CStr
clear s = record s { buffer = [] }

-- The text goes to the caller; the string is in its own buffer again.
unfoldable pub steal : CStr → CStr × List ℕ
unfolding new
steal s = (new, s.buffer)

unfoldable pub n_cat : List ℕ → CStr → CStr
unfolding room
n_cat str s = record (room (length s.buffer + length str) s) { buffer = s.buffer ++ str }

-- `+=` of a string, of text and of a character.
unfoldable pub append_str : CStr → CStr → CStr
unfolding n_cat
append_str str s = n_cat str.buffer s

unfoldable pub append_text : List ℕ → CStr → CStr
unfolding n_cat
append_text str s = n_cat (c_string str) s

unfoldable pub append_char : ℕ → CStr → CStr
unfolding n_cat
append_char c s = n_cat (c ∷ []) s

unfoldable pub get_byte : ℤ → CStr → ℕ
get_byte (pos n) s = get_or s.buffer n 0
get_byte (negsuc n) s =
    if ltb (length s.buffer) (suc n) then 0 else get_or s.buffer (length s.buffer - suc n) 0

unfoldable pub set_byte : ℕ → ℤ → CStr → CStr
set_byte c (pos n) s = record s { buffer = set s.buffer n c }
set_byte c (negsuc n) s =
    if ltb (length s.buffer) (suc n)
    then s
    else record s { buffer = set s.buffer (length s.buffer - suc n) c }

-- `strcpy` over the front of a buffer.
abbrev overlay : List ℕ → List ℕ → List ℕ
overlay t memory = t ++ drop (length t) memory

-- The bytes from c on, where those behind c are trimmed.
abbrev trim_end_at : ℕ → List ℕ → List ℕ
trim_end_at c [] = if isspace c then [] else c ∷ []
trim_end_at c (d ∷ ds) = c ∷ d ∷ ds

unfoldable pub trim_end : List ℕ → List ℕ
trim_end [] = []
trim_end (c ∷ cs) = trim_end_at c (trim_end cs)

abbrev skip_space : List ℕ → List ℕ
skip_space s = since (λ c. not (isspace c)) s

unfoldable pub trim : CStr → CStr
unfolding since before trim_end
trim s =
    let p = skip_space s.buffer in
    let memory = overlay (c_string p ++ 0 ∷ []) (s.buffer ++ 0 ∷ []) in
    record s { buffer = trim_end (take (length p) memory) }

abbrev letters : List ℕ → List ℕ
letters [] = []
letters (c ∷ cs) = let rest = letters cs in if isalnum c then c ∷ rest else rest

unfoldable pub trim_all : CStr → CStr
unfolding before
trim_all s = record s { buffer = letters (c_string s.buffer) }

unfoldable pub to_lower : CStr → CStr
unfolding before since
to_lower s = record s { buffer = map tolower (c_string s.buffer) ++ since (λ c. c == 0) s.buffer }

unfoldable pub to_upper : CStr → CStr
unfolding before since
to_upper s = record s { buffer = map toupper (c_string s.buffer) ++ since (λ c. c == 0) s.buffer }

-- `cut(sep, result)`: the string behind the separator, and the result in front of it.
unfoldable pub cut_at : List ℕ → CStr → CStr → Option ℕ → CStr × CStr
unfolding assign assign_str clear n_cat
cut_at sep s result none = (clear s, assign_str s result)
cut_at sep s result (some k) = (
  assign (some (drop (k + length sep) (c_string s.buffer))) s,
  n_cat (take k s.buffer) (clear result),
)

unfoldable pub cut : List ℕ → CStr → CStr → CStr × CStr
unfolding cut_at strstr before
cut sep s result = cut_at (c_string sep) s result (strstr (c_string s.buffer) (c_string sep))

-- `cut(length)`: that many bytes stay, or all but so many.
unfoldable pub cut_length : ℤ → CStr → CStr
cut_length (pos n) s = if leb (length s.buffer) n then s else record s { buffer = take n s.buffer }
cut_length (negsuc n) s =
    if ltb (length s.buffer) (suc n)
    then s
    else record s { buffer = take (length s.buffer - suc n) s.buffer }

-- The comparisons with text, and with a string.
unfoldable pub eq_text : CStr → List ℕ → Bool
unfolding same
eq_text s str = same (c_string s.buffer) (c_string str)

unfoldable pub lt_text : CStr → List ℕ → Bool
unfolding less
lt_text s str = less (c_string s.buffer) (c_string str)

unfoldable pub gt_text : CStr → List ℕ → Bool
unfolding less
gt_text s str = less (c_string str) (c_string s.buffer)

unfoldable pub le_text : CStr → List ℕ → Bool
unfolding lt_text eq_text
le_text s str = lt_text s str || eq_text s str

unfoldable pub ge_text : CStr → List ℕ → Bool
unfolding gt_text eq_text
ge_text s str = gt_text s str || eq_text s str

unfoldable pub eq_str : CStr → CStr → Bool
unfolding same
eq_str s t = length s.buffer == length t.buffer && same s.buffer t.buffer

-- The first four bytes of the text as a number, the first the lowest.
unfoldable pub hash : CStr → ℕ
hash s =
    let t = c_string s.buffer in
    get_or t 0 0 + 256 * get_or t 1 0 + 65536 * get_or t 2 0 + 16777216 * get_or t 3 0

unfoldable pub f_cat_chars : ℕ → ℕ → CStr → CStr
unfolding append_char
f_cat_chars c zero s = s
f_cat_chars c (suc n) s = f_cat_chars c n (append_char c s)

-- The title between so many fill characters on each side.
unfoldable pub titled : List ℕ → ℕ → ℕ → ℕ → CStr → CStr
unfolding f_cat_chars append_text append_char
titled title c left_len right_len s =
    f_cat_chars c right_len
      (append_char 32 (append_text title (append_char 32 (f_cat_chars c left_len s))))

-- The title in the middle of a line of fill characters, if the line has room for it.
unfoldable pub f_cat_title : List ℕ → ℕ → ℕ → CStr → CStr
unfolding titled append_text
f_cat_title title c line_len s =
    let title_len = length (c_string title) in
    let left_len = (line_len - title_len - 2) / 2 in
    if ltb line_len (title_len + 4)
    then append_text title s
    else titled title c left_len (line_len - title_len - 2 - left_len) s

-- `replace`: the rounds of its loop, with what is left of the text. An empty pattern is found again
-- and again.
unfoldable pub replace_loop : ℕ → List ℕ → List ℕ → List ℕ → CStr → Option CStr
unfolding append_text n_cat strstr
replace_loop zero pattern by p dest = none
replace_loop (suc fuel) pattern by p dest = elim (strstr p pattern) [
  | none ↦ some (append_text p dest)
  | some k ↦
      replace_loop fuel pattern by (drop (k + length pattern) p)
        (append_text by (n_cat (take k p) dest))
]

unfoldable pub replace : List ℕ → List ℕ → CStr → Option CStr
unfolding replace_loop new assign_str
replace pattern by s =
    let p = c_string s.buffer in
    elim (replace_loop (length p + 1) (c_string pattern) by p new) [
      | none ↦ none
      | some dest ↦ some (assign_str dest s)
    ]
