-- ===== src/Http/Services.antt =====
-- A request for an application, from one adapter to another.
use mathlib.Core.Option
use tsm_proxy.Prelude.{
  ℕ, ◌<◌, ◌≡◌, refl, ap, ◌∙◌, true, false, some, List, [], ◌∷◌, ◌==◌, ltb, length, arith,
}
use tsm_proxy.Prelude.Int.{ℤ, pos}
use tsm_proxy.Chars.{bytes, same, atoi, before, c_string}
use tsm_proxy.Cstr.Codes.{decode_bytes, piece}
use tsm_proxy.Http.{HttpMessage, returned, complete, new, parse_stream}
use tsm_proxy.Http.Client.{decimal, build_http_request}
use tsm_proxy.Http.Requests.{IsLegal}
use tsm_proxy.Http.Built.{
  AllDigits, decimal_loop-AllDigits, atoi-decimal, request_of, received, NoLength, others,
  parse_stream-build,
}
use tsm_proxy.Http.Dispatch.{
  Outside, check_async_app_key, process_async, process_decoded, process_http_message,
}

c_string-AllDigits : (s : List ℕ) → AllDigits s → c_string s ≡ s
unfolding before AllDigits
c_string-AllDigits [] h = refl
c_string-AllDigits (c ∷ cs) h =
    let some_char : (c == 0) ≡ false = ground (arith, h.0) in
    rw some_char (ap (λ t. c ∷ t) (c_string-AllDigits cs h.1))

decode_bytes-AllDigits : (s : List ℕ) → AllDigits s → decode_bytes 0 s ≡ some s
unfolding decode_bytes piece AllDigits
decode_bytes-AllDigits [] h = refl
decode_bytes-AllDigits (c ∷ cs) h =
    let no_percent : (c == 37) ≡ false = ground (arith, h.0) in
    let no_plus : (c == 43) ≡ false = ground (arith, h.0) in
    rw (no_percent, no_plus, decode_bytes-AllDigits cs h.1) refl

empty_number : (n : ℕ) → atoi [] ≡ pos n → n ≡ 0
unfolding atoi
empty_number n a = cc

not_self_test :
    (c : ℕ) (cs : List ℕ)
    → AllDigits (c ∷ cs)
    → same (c_string (c ∷ cs)) (bytes "psahttpselftest") ≡ false
unfolding same AllDigits
not_self_test c cs d =
    let no_p : (c == 112) ≡ false = ground (arith, d.0) in
    ap (λ t. same t (bytes "psahttpselftest")) (c_string-AllDigits (c ∷ cs) d) ∙ rw no_p refl

key-AllDigits :
    (o : Outside) (c : ℕ) (cs : List ℕ) (n : ℕ)
    → AllDigits (c ∷ cs)
    → atoi (c ∷ cs) ≡ pos n
    → 100 < n
    → check_async_app_key o (c_string (c ∷ cs)) ≡ some (pos n)
unfolding check_async_app_key AllDigits
key-AllDigits o c cs n d a h =
    let above : ltb 100 n ≡ true = ground (arith, h) in
    ap (check_async_app_key o) (c_string-AllDigits (c ∷ cs) d) ∙ rw (d.0, a, above) refl

process_decoded-AllDigits :
    (o : Outside) (m : HttpMessage) (counter n : ℕ) (s : List ℕ)
    → AllDigits s
    → atoi s ≡ pos n
    → 100 < n
    → process_decoded o (record m { path = s }) counter
      ≡ process_async o (pos n) (record m { path = s }) counter
unfolding process_decoded
process_decoded-AllDigits o m counter n [] d a h = absurd (omega (arith, h, empty_number n a))
process_decoded-AllDigits o m counter n (c ∷ cs) d a h =
    rw (not_self_test c cs d, key-AllDigits o c cs n d a h) refl

-- A request that an adapter builds for the number of an application, above 100 and one that an int can
-- hold, is parsed to a message for which processHttpMessage asks that application, if the host and the
-- arguments hold none of the characters that end a line or a name, the value of no header begins with
-- a blank, no argument is another Content-Length and an int can hold the length of the content.
pub process_http_message-build :
    (o : Outside) (host : List ℕ) (port : ℤ) (content : List ℕ) (args : List (List ℕ))
    (id counter n : ℕ)
    → IsLegal (request_of host port (decimal n) content args)
    → NoLength (others args)
    → length content < 2147483648
    → 100 < n
    → n < 2147483648
    → let m = received (request_of host port (decimal n) content args) id in
      (parse_stream (build_http_request host port (decimal n) content args) (new id)
        ≡ returned complete m)
      × (process_http_message o m counter ≡ some (process_async o (pos n) m counter))
unfolding process_http_message
process_http_message-build o host port content args id counter n l k small h int =
    let m = received (request_of host port (decimal n) content args) id in
    let d : AllDigits (decimal n) = decimal_loop-AllDigits n n in
    (
      parse_stream-build host port (decimal n) content args id l k small,
      ap
            (λ s.
              Option.map (λ path. process_decoded o (record m { path = path }) counter)
                (decode_bytes 0 s))
            (c_string-AllDigits (decimal n) d)
          ∙ ap (Option.map (λ path. process_decoded o (record m { path = path }) counter))
              (decode_bytes-AllDigits (decimal n) d)
          ∙ ap some (process_decoded-AllDigits o m counter n (decimal n) d (atoi-decimal n int) h),
    )
