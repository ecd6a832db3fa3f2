-- ===== src/Chars.antt =====
-- C strings, as lists of bytes: what the strings and the parsers of the source use of the C library.
-- A byte is a number below 256; the character classes are those of the C locale.
pub mod Laws
use Prim.Native.Char.{code}
use Prim.Native.String.{String}
use mathlib.Core.Option
use tsm_proxy.Prelude.{
  ℕ, suc, ◌+◌, ◌-◌, ◌*◌, ◌%◌, Bool, true, false, ◌&&◌, ◌||◌, not, Option, none, some, List, [], ◌∷◌,
  ◌++◌, map, ◌==◌, leb, ltb, if◌then◌else◌, length, drop,
}
use tsm_proxy.Prelude.Int.{ℤ, pos, negsuc}

-- A string literal.
abbrev pub bytes : String → List ℕ
bytes String.[] = []
bytes (String.◌∷◌ c s) = code c ∷ bytes s

-- The characters before the first one that passes the test, and those from it on.
unfoldable pub before : (ℕ → Bool) → List ℕ → List ℕ
before stop [] = []
before stop (c ∷ cs) = let rest = before stop cs in if stop c then [] else c ∷ rest

unfoldable pub since : (ℕ → Bool) → List ℕ → List ℕ
since stop [] = []
since stop (c ∷ cs) = let rest = since stop cs in if stop c then c ∷ cs else rest

-- What a function that takes a `char*` sees of a buffer: the bytes before the first NULL.
abbrev pub c_string : List ℕ → List ℕ
c_string s = before (λ c. c == 0) s

-- `strcmp(s, t) == 0` and the order of strcmp.
unfoldable pub same : List ℕ → List ℕ → Bool
same [] [] = true
same [] (d ∷ ds) = false
same (c ∷ cs) [] = false
same (c ∷ cs) (d ∷ ds) = c == d && same cs ds

unfoldable pub less : List ℕ → List ℕ → Bool
less [] [] = false
less [] (d ∷ ds) = true
less (c ∷ cs) [] = false
less (c ∷ cs) (d ∷ ds) = ltb c d || (c == d && less cs ds)

unfoldable pub is_prefix : List ℕ → List ℕ → Bool
is_prefix [] s = true
is_prefix (p ∷ ps) [] = false
is_prefix (p ∷ ps) (c ∷ cs) = p == c && is_prefix ps cs

-- `strstr(s, sep)`: where the first occurrence begins.
unfoldable pub strstr : List ℕ → List ℕ → Option ℕ
unfolding is_prefix
strstr [] sep = if is_prefix sep [] then some 0 else none
strstr (c ∷ cs) sep =
    let later = Option.map suc (strstr cs sep) in if is_prefix sep (c ∷ cs) then some 0 else later

abbrev pub is_digit : ℕ → Bool
is_digit c = leb 48 c && leb c 57

abbrev pub is_upper : ℕ → Bool
is_upper c = leb 65 c && leb c 90

abbrev pub is_lower : ℕ → Bool
is_lower c = leb 97 c && leb c 122

abbrev pub isspace : ℕ → Bool
isspace c = c == 32 || (leb 9 c && leb c 13)

abbrev pub isalnum : ℕ → Bool
isalnum c = is_digit c || (is_upper c || is_lower c)

abbrev pub tolower : ℕ → ℕ
tolower c = if is_upper c then c + 32 else c

abbrev pub toupper : ℕ → ℕ
toupper c = if is_lower c then c - 32 else c

-- `strcasecmp(s, t) == 0`
unfoldable pub same_letters : List ℕ → List ℕ → Bool
unfolding same
same_letters s t = same (map tolower s) (map tolower t)

unfoldable pub digits : ℕ → List ℕ → ℕ
digits n [] = n
digits n (c ∷ cs) = let more = digits (n * 10 + (c - 48)) cs in if is_digit c then more else n

-- The number that the 32 bits of an int stand for.
abbrev pub int_of_bits : ℕ → ℤ
int_of_bits w = if ltb w 2147483648 then pos w else negsuc (4294967295 - w)

abbrev at_most : ℕ → ℕ → ℕ
at_most limit n = if ltb limit n then limit else n

-- atoi on 64 bits: strtol stops at the ends of a long, and the low 32 bits of the long are the int.
unfoldable pub positive : ℕ → ℤ
positive n = int_of_bits (at_most 9223372036854775807 n % 4294967296)

unfoldable pub negative : ℕ → ℤ
negative n = int_of_bits ((18446744073709551616 - at_most 9223372036854775808 n) % 4294967296)

-- Behind the white space of atoi.
unfoldable pub signed : List ℕ → ℤ
unfolding digits positive negative
signed [] = pos 0
signed (c ∷ cs) =
    if c == 45 then negative (digits 0 cs) else positive (digits 0 (if c == 43 then cs else c ∷ cs))

unfoldable pub atoi : List ℕ → ℤ
unfolding signed since
atoi s = signed (since (λ c. not (isspace c)) s)
