-- ===== src/Http/Client.antt =====
-- proxy/psahttp/hookpsahttpimpl.C: the requests that the HTTP adapter sends. A CStr that is only
-- appended to, and a `const char*`, are their bytes in front of the NULL.
use tsm_proxy.Prelude.{
  ℕ, zero, suc, ◌+◌, ◌/◌, ◌%◌, Bool, true, false, Option, some, List, [], ◌∷◌, ◌++◌, ◌==◌,
  if◌then◌else◌, length, drop,
}
use tsm_proxy.Prelude.Int.{ℤ, pos, negsuc}
use tsm_proxy.Chars.{bytes, is_prefix, atoi}
use tsm_proxy.Cstr.{CStr, cut}
use tsm_proxy.Cstr

-- The digits of a number, where the fuel is not below it.
unfoldable pub decimal_loop : ℕ → ℕ → List ℕ
decimal_loop zero n = (48 + n % 10) ∷ []
decimal_loop (suc fuel) n =
    let front = decimal_loop fuel (n / 10) in
    (if n / 10 == 0 then [] else front) ++ (48 + n % 10) ∷ []

abbrev pub decimal : ℕ → List ℕ
decimal n = decimal_loop n n

-- `%d`
unfoldable pub int_text : ℤ → List ℕ
unfolding decimal_loop
int_text (pos n) = decimal n
int_text (negsuc n) = 45 ∷ decimal (n + 1)

-- A line of the request.
abbrev pub line : List ℕ → List ℕ → List ℕ
line name value = name ++ 58 ∷ 32 ∷ (value ++ 13 ∷ 10 ∷ [])

abbrev pub is_file : List ℕ → Bool
is_file s = is_prefix (bytes "-file ") s

-- The lines of the other arguments. One that begins with `-file ` names the file of a download, the
-- others go in pairs; a name without a value is left out.
unfoldable pub other_lines : List (List ℕ) → List ℕ
unfolding is_prefix
other_lines [] = []
other_lines (a ∷ []) = []
other_lines (a ∷ b ∷ r) = elim (is_file a) [
  | true ↦ other_lines (b ∷ r)
  | false ↦ line a b ++ other_lines r
]

-- The file that the download goes to afterwards.
unfoldable pub download : List (List ℕ) → Option (List ℕ) → Option (List ℕ)
unfolding is_prefix
download [] o = o
download (a ∷ []) o = if is_file a then some (drop 6 a) else o
download (a ∷ b ∷ r) o = elim (is_file a) [
  | true ↦ download (b ∷ r) (some (drop 6 a))
  | false ↦ download r o
]

abbrev pub is_empty : List ℕ → Bool
is_empty [] = true
is_empty (c ∷ cs) = false

unfoldable pub build_http_request : List ℕ → ℤ → List ℕ → List ℕ → List (List ℕ) → List ℕ
unfolding int_text other_lines
build_http_request host port path content args =
    (if is_empty content then bytes "GET" else bytes "POST")
    ++ 32
      ∷ 47
      ∷ (path
          ++ 32
            ∷ (bytes "HTTP/1.1"
                ++ 13
                  ∷ 10
                  ∷ (line (bytes "Host") (host ++ 58 ∷ int_text port)
                      ++ (line (bytes "Connection") (bytes "keep-alive")
                          ++ (line (bytes "User-Agent") (bytes "UniFrame")
                              ++ ((if is_empty content
                                    then []
                                    else line (bytes "Content-Length") (decimal (length content)))
                                  ++ (other_lines args ++ 13 ∷ 10 ∷ content)))))))

-- `parseUrl`: what is left of the url, the address and the port.
unfoldable pub parse_url : CStr → CStr × CStr × ℤ
unfolding cut atoi
parse_url url =
    let (u1, r1) = cut (bytes "//") url Cstr.new in
    let (u2, r2) = cut (bytes "/") u1 r1 in
    let (r3, addr) = cut (bytes ":") r2 Cstr.new in
    (u2, addr, if is_empty r3.buffer then pos 80 else atoi r3.buffer)
