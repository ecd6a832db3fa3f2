-- ===== src/Http/Built.antt =====
-- The requests of the adapter, as its own parser reads them.
use mathlib.Core.List.{append_assoc}
use tsm_proxy.Prelude.{
  ℕ, zero, suc, ◌+◌, ◌*◌, ◌-◌, ◌/◌, ◌%◌, ◌≤◌, ◌<◌, ◌≡◌, refl, ap, ◌∙◌, sym, inl, inr, Bool, true,
  false, ◌&&◌, leb, ltb, none, List, [], ◌∷◌, ◌++◌, ◌==◌, if◌then◌else◌, length, Bool-cases, arith,
  eq_of_==,
}
use tsm_proxy.Prelude.Int.{ℤ, pos}
use tsm_proxy.Chars.{
  bytes, is_prefix, atoi, signed, positive, digits, is_digit, since, same_letters, same,
}
use tsm_proxy.Http.{
  Header, HttpMessage, returned, complete, get_double_crlf, get_content, is_zero, new, parse_stream,
}
use tsm_proxy.Http.Client.{
  decimal_loop, decimal, int_text, line, is_file, other_lines, is_empty, build_http_request,
}
use tsm_proxy.Http.Headers.{Request, headers_text, text, last_length}
use tsm_proxy.Http.Requests.{IsLegal, headed, finished, parse_stream-text}

unfoldable pub AllDigits : List ℕ → Type 0
AllDigits [] = Unit {0}
AllDigits (c ∷ cs) = (is_digit c ≡ true) × AllDigits cs

digits-append :
    (k : ℕ) (xs ys : List ℕ) → AllDigits xs → digits k (xs ++ ys) ≡ digits (digits k xs) ys
unfolding digits AllDigits
digits-append k [] ys h = refl
digits-append k (c ∷ xs) ys h = rw (h.0) (digits-append (k * 10 + (c - 48)) xs ys h.1)

AllDigits-append : (xs ys : List ℕ) → AllDigits xs → AllDigits ys → AllDigits (xs ++ ys)
unfolding AllDigits
AllDigits-append [] ys h k = k
AllDigits-append (c ∷ xs) ys h k = (h.0, AllDigits-append xs ys h.1 k)

last_digit : (n : ℕ) → is_digit (48 + n % 10) ≡ true
last_digit n = ground arith

pub decimal_loop-AllDigits : (fuel n : ℕ) → AllDigits (decimal_loop fuel n)
unfolding decimal_loop AllDigits
decimal_loop-AllDigits zero n = (last_digit n, tt)
decimal_loop-AllDigits (suc fuel) n = elim (Bool-cases (n / 10 == 0)) [
  | inl e ↦ rw e (last_digit n, tt)
  | inr e ↦ rw e (
      AllDigits-append (decimal_loop fuel (n / 10)) ((48 + n % 10) ∷ [])
        (decimal_loop-AllDigits fuel (n / 10)) (last_digit n, tt))
]

digits-decimal_loop : (fuel n : ℕ) → n ≤ fuel → digits 0 (decimal_loop fuel n) ≡ n
unfolding decimal_loop digits
digits-decimal_loop zero n h = rw (last_digit n) (omega (arith, h))
digits-decimal_loop (suc fuel) n h = elim (Bool-cases (n / 10 == 0)) [
  | inl e ↦ rw (e, last_digit n) (omega (arith, eq_of_== (n / 10) 0 e))
  | inr e ↦ rw e (
      digits-append 0 (decimal_loop fuel (n / 10)) ((48 + n % 10) ∷ [])
        (decimal_loop-AllDigits fuel (n / 10))
      ∙ rw (last_digit n) (omega (arith, digits-decimal_loop fuel (n / 10) (omega (arith, h)))))
]

and_false : (b : Bool) → (b && false) ≡ false
and_false true = refl
and_false false = refl

-- Digits are no white space and no sign.
atoi-AllDigits : (s : List ℕ) → AllDigits s → atoi s ≡ positive (digits 0 s)
unfolding atoi signed since digits AllDigits positive
atoi-AllDigits [] h = refl
atoi-AllDigits (c ∷ cs) h =
    let no_space : (c == 32) ≡ false = ground (arith, h.0) in
    let no_control : leb c 13 ≡ false = ground (arith, h.0) in
    let no_plus : (c == 43) ≡ false = ground (arith, h.0) in
    let no_minus : (c == 45) ≡ false = ground (arith, h.0) in
    rw (no_space, no_control, and_false (leb 9 c), no_plus, no_minus) refl

positive_small : (n : ℕ) → n < 2147483648 → positive n ≡ pos n
unfolding positive
positive_small n h =
    let fits : ltb 9223372036854775807 n ≡ false = ground (arith, h) in
    let same_bits : n % 4294967296 ≡ n = omega (arith, h) in
    let half : ltb n 2147483648 ≡ true = ground (arith, h) in rw (fits, same_bits, half) refl

-- atoi reads the number that `%d` wrote.
pub atoi-decimal : (n : ℕ) → n < 2147483648 → atoi (decimal n) ≡ pos n
atoi-decimal n h =
    atoi-AllDigits (decimal n) (decimal_loop-AllDigits n n)
    ∙ ap positive (digits-decimal_loop n n (omega arith))
    ∙ positive_small n h

-- The header lines of the other arguments.
unfoldable pub others : List (List ℕ) → List Header
unfolding is_prefix
others [] = []
others (a ∷ []) = []
others (a ∷ b ∷ r) = elim (is_file a) [
  | true ↦ others (b ∷ r)
  | false ↦ record { name = a; value = b } ∷ others r
]

line-text : (n v rest : List ℕ) → line n v ++ rest ≡ (n ++ 58 ∷ 32 ∷ v) ++ 13 ∷ 10 ∷ rest
line-text n v rest = simp append_assoc

other_lines-others :
    (args : List (List ℕ)) (rest : List ℕ)
    → other_lines args ++ rest ≡ headers_text (others args) rest
unfolding other_lines others
other_lines-others [] rest = refl
other_lines-others (a ∷ []) rest = refl
other_lines-others (a ∷ b ∷ r) rest = elim (Bool-cases (is_file a)) [
  | inl e ↦ rw e (other_lines-others (b ∷ r) rest)
  | inr e ↦ rw e (
      append_assoc (line a b) (other_lines r) rest
      ∙ line-text a b (other_lines r ++ rest)
      ∙ ap (λ t. (a ++ 58 ∷ 32 ∷ b) ++ 13 ∷ 10 ∷ t) (other_lines-others r rest))
]

abbrev with_length : List ℕ → List Header → List Header
with_length content hs =
    if is_empty content
    then hs
    else record { name = bytes "Content-Length"; value = decimal (length content) } ∷ hs

-- The request that is sent.
abbrev pub request_of : List ℕ → ℤ → List ℕ → List ℕ → List (List ℕ) → Request
request_of host port path content args = record {
  method = if is_empty content then bytes "GET" else bytes "POST";
  path = path;
  query = none;
  headers =
      record { name = bytes "Host"; value = host ++ 58 ∷ int_text port }
      ∷ record { name = bytes "Connection"; value = bytes "keep-alive" }
      ∷ record { name = bytes "User-Agent"; value = bytes "UniFrame" }
      ∷ with_length content (others args);
  body = content;
}

length-text :
    (content : List ℕ) (args : List (List ℕ))
    → (if is_empty content then [] else line (bytes "Content-Length") (decimal (length content)))
        ++ (other_lines args ++ 13 ∷ 10 ∷ content)
      ≡ headers_text (with_length content (others args)) (13 ∷ 10 ∷ content)
length-text [] args = other_lines-others args (13 ∷ 10 ∷ [])
length-text (c ∷ cs) args =
    line-text (bytes "Content-Length") (decimal (length (c ∷ cs)))
      (other_lines args ++ 13 ∷ 10 ∷ c ∷ cs)
    ∙ ap (λ t. (bytes "Content-Length" ++ 58 ∷ 32 ∷ decimal (length (c ∷ cs))) ++ 13 ∷ 10 ∷ t)
        (other_lines-others args (13 ∷ 10 ∷ c ∷ cs))

build_http_request-text :
    (host : List ℕ) (port : ℤ) (path content : List ℕ) (args : List (List ℕ))
    → build_http_request host port path content args ≡ text (request_of host port path content args)
unfolding build_http_request
build_http_request-text host port path content args =
    ap
      (λ t.
        (if is_empty content then bytes "GET" else bytes "POST")
        ++ 32 ∷ 47 ∷ (path ++ 32 ∷ (bytes "HTTP/1.1" ++ 13 ∷ 10 ∷ t)))
      (ap
          (λ t.
            line (bytes "Host") (host ++ 58 ∷ int_text port)
            ++ (line (bytes "Connection") (bytes "keep-alive")
                ++ (line (bytes "User-Agent") (bytes "UniFrame") ++ t)))
          (length-text content args)
        ∙ line-text (bytes "Host") (host ++ 58 ∷ int_text port) (
            line (bytes "Connection") (bytes "keep-alive")
            ++ (line (bytes "User-Agent") (bytes "UniFrame")
                ++ headers_text (with_length content (others args)) (13 ∷ 10 ∷ content))))

-- No header is another Content-Length.
abbrev pub NoLength : List Header → Type 0
NoLength [] = Unit {0}
NoLength (h ∷ hs) = (same_letters h.name (bytes "Content-Length") ≡ false) × NoLength hs

last_length-NoLength : (n : ℤ) (hs : List Header) → NoLength hs → last_length n hs ≡ n
last_length-NoLength n [] k = refl
last_length-NoLength n (h ∷ hs) k = rw k.0 (last_length-NoLength n hs k.1)

length_of_content :
    (host : List ℕ) (port : ℤ) (path content : List ℕ) (args : List (List ℕ))
    → NoLength (others args)
    → length content < 2147483648
    → last_length (pos 0) (request_of host port path content args).headers ≡ pos (length content)
unfolding same_letters same
length_of_content host port path [] args k small = last_length-NoLength (pos 0) (others args) k
length_of_content host port path (c ∷ cs) args k small =
    last_length-NoLength (atoi (decimal (length (c ∷ cs)))) (others args) k
    ∙ atoi-decimal (length (c ∷ cs)) small

-- The message that the parser of another adapter has then.
abbrev pub received : Request → ℕ → HttpMessage
received r id = record (headed r id) {
  state = if is_empty r.body then get_double_crlf else get_content;
  content = r.body;
}

finished_body :
    (m : HttpMessage) (b : List ℕ)
    → m.content ≡ []
    → m.content_length ≡ pos (length b)
    → finished m b
      ≡ returned complete
          (record m { state = if is_empty b then get_double_crlf else get_content; content = b })
finished_body m [] e h = elim (Bool-cases (is_zero m.content_length)) [
  | inl z ↦ rw z (ap (λ t. returned complete (record m { state = get_double_crlf; content = t })) e)
  | inr z ↦ absurd (clash (sym z ∙ ap is_zero h))
]
  where
    clash : false ≡ true → ⊥
    clash q = cc
finished_body m (c ∷ cs) e h = elim (Bool-cases (is_zero m.content_length)) [
  | inl z ↦ absurd (apart (sym z ∙ ap is_zero h))
  | inr z ↦ rw z refl
]
  where
    apart : true ≡ is_zero (pos (length (c ∷ cs))) → ⊥
    apart q = cc

finished-received :
    (r : Request) (id : ℕ)
    → last_length (pos 0) r.headers ≡ pos (length r.body)
    → finished (headed r id) r.body ≡ returned complete (received r id)
finished-received r id h = finished_body (headed r id) r.body refl h

-- A request that the adapter builds is complete for its own parser, which finds the path, the
-- headers and the content in it, if the path, the host and the arguments hold none of the characters
-- that end them, the value of no header begins with a blank, no argument is another Content-Length and
-- an int can hold the length of the content.
pub parse_stream-build :
    (host : List ℕ) (port : ℤ) (path content : List ℕ) (args : List (List ℕ)) (id : ℕ)
    → IsLegal (request_of host port path content args)
    → NoLength (others args)
    → length content < 2147483648
    → parse_stream (build_http_request host port path content args) (new id)
      ≡ returned complete (received (request_of host port path content args) id)
parse_stream-build host port path content args id l k small =
    let r = request_of host port path content args in
    ap (λ t. parse_stream t (new id)) (build_http_request-text host port path content args)
    ∙ parse_stream-text r id l
    ∙ finished-received r id (length_of_content host port path content args k small)
