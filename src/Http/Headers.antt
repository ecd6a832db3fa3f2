-- ===== src/Http/Headers.antt =====
-- A request as text, and its header lines in the parser.
use mathlib.Core.List.{append-nil, append_assoc}
use mathlib.Core.Option
use tsm_proxy.Prelude.{
  ℕ, ◌≡◌, refl, ap, ◌∙◌, sym, Bool, false, not, Option, none, some, List, [], ◌∷◌, ◌++◌, ◌==◌,
  if◌then◌else◌,
}
use tsm_proxy.Prelude.Int.{ℤ}
use tsm_proxy.Chars.{bytes, before, since, c_string, same_letters, atoi}
use tsm_proxy.Chars.Laws.{Avoids, before_all}
use tsm_proxy.Http.{
  Header, HttpMessage, get_crlf, get_line_begin, get_line, put_header, header_of, add_header,
}
use tsm_proxy.Http.Feed.{reads, step, end_line, feed, feed-step}
use tsm_proxy.Http.Words.{feed-line, cut}

pub record Request : Type 0 where
  pub method : List ℕ
  pub path : List ℕ
  pub query : Option (List ℕ)
  pub headers : List Header
  pub body : List ℕ

abbrev pub line_of : Header → List ℕ
line_of h = h.name ++ 58 ∷ 32 ∷ h.value

abbrev pub headers_text : List Header → List ℕ → List ℕ
headers_text [] rest = rest
headers_text (h ∷ hs) rest = line_of h ++ 13 ∷ 10 ∷ headers_text hs rest

abbrev pub query_text : Option (List ℕ) → List ℕ → List ℕ
query_text none rest = rest
query_text (some q) rest = 63 ∷ (q ++ rest)

-- `method /path?query HTTP/1.1`, the header lines, an empty line and the body.
abbrev pub text : Request → List ℕ
text r =
    r.method
    ++ 32
      ∷ 47
      ∷ (r.path
          ++ query_text r.query
              (32 ∷ (bytes "HTTP/1.1" ++ 13 ∷ 10 ∷ headers_text r.headers (13 ∷ 10 ∷ r.body))))

abbrev pub starts_blank : List ℕ → Bool
starts_blank [] = false
starts_blank (c ∷ cs) = c == 32

pub record IsLine (h : Header) : Type 0 where
  pub no_colon : Avoids (λ c. c == 58) h.name
  pub name_cr : Avoids (λ c. c == 13) h.name
  pub name_null : Avoids (λ c. c == 0) h.name
  pub value_cr : Avoids (λ c. c == 13) h.value
  pub value_null : Avoids (λ c. c == 0) h.value
  pub no_blank : starts_blank h.value ≡ false

abbrev pub AllLines : List Header → Type 0
AllLines [] = Unit {0}
AllLines (h ∷ hs) = IsLine h × AllLines hs

Avoids-append :
    (stop : ℕ → Bool) (a b : List ℕ) → Avoids stop a → Avoids stop b → Avoids stop (a ++ b)
Avoids-append stop [] b h k = k
Avoids-append stop (c ∷ a) b h k = (h.0, Avoids-append stop a b h.1 k)

since_value : (v : List ℕ) → starts_blank v ≡ false → since (λ c. not (c == 32)) (32 ∷ v) ≡ v
unfolding since
since_value [] h = refl
since_value (c ∷ v) h = rw h refl

-- addHeader takes a line apart at its first colon.
add_header-line :
    (h : Header) (m : HttpMessage) → IsLine h → add_header (line_of h) m ≡ some (put_header h m)
unfolding add_header header_of
add_header-line h m l =
    let whole : c_string (line_of h) ≡ line_of h =
      before_all (λ c. c == 0) (line_of h)
        (Avoids-append (λ c. c == 0) h.name (58 ∷ 32 ∷ h.value) l.name_null
          (refl, (refl, l.value_null))) in
    ap
      (λ s.
        Option.map (λ item. put_header item m)
          (header_of (before (λ c. c == 58) s) (since (λ c. c == 58) s)))
      whole
    ∙ cut (λ c. c == 58) h.name (32 ∷ h.value) 58 refl l.no_colon
        (λ x y. Option.map (λ item. put_header item m) (header_of x y))
    ∙ ap (λ v. some (put_header (record { name = h.name; value = v }) m))
        (since_value h.value l.no_blank)

starts_line :
    (p : List ℕ) (m : HttpMessage)
    → m.state ≡ get_line_begin
    → Avoids (λ c. c == 13) p
    → (r : List ℕ)
    → feed false m (p ++ 58 ∷ r) ≡ feed false (record m { state = get_line }) (p ++ 58 ∷ r)
unfolding feed step
starts_line [] m e n r =
    feed-step get_line_begin m 58 r
      (reads false (record m { cur_line = m.cur_line ++ 58 ∷ []; state = get_line })) e refl
starts_line (c ∷ p) m e n r =
    feed-step get_line_begin m c (p ++ 58 ∷ r)
      (reads false (record m { cur_line = m.cur_line ++ c ∷ []; state = get_line })) e (rw n.0 refl)
    ∙ sym (
        feed-step get_line (record m { state = get_line }) c (p ++ 58 ∷ r)
          (reads false (record m { cur_line = m.cur_line ++ c ∷ []; state = get_line })) refl
          (rw n.0 refl))

-- The message in front of a header line.
abbrev pub at_line : HttpMessage → HttpMessage
at_line m = record m { cur_line = []; state = get_line_begin }

read_header :
    (h : Header) (m : HttpMessage) (r : List ℕ)
    → IsLine h
    → feed false (at_line m) (line_of h ++ 13 ∷ 10 ∷ r) ≡ feed false (at_line (put_header h m)) r
unfolding feed step end_line put_header
read_header h m r l =
    let line = line_of h in
    let m1 : HttpMessage = record m { cur_line = line; state = get_line } in
    let m2 : HttpMessage = record (put_header h m1) { state = get_crlf } in
    ap (feed false (at_line m)) (append_assoc h.name (58 ∷ 32 ∷ h.value) (13 ∷ 10 ∷ r))
    ∙ starts_line h.name (at_line m) refl l.name_cr (32 ∷ (h.value ++ 13 ∷ 10 ∷ r))
    ∙ ap (feed false (record m { cur_line = []; state = get_line }))
        (sym (append_assoc h.name (58 ∷ 32 ∷ h.value) (13 ∷ 10 ∷ r)))
    ∙ feed-line (line ++ 13 ∷ 10 ∷ r) (record m { cur_line = []; state = get_line }) refl
    ∙ cut (λ c. c == 13) line (10 ∷ r) 13 refl
        (Avoids-append (λ c. c == 13) h.name (58 ∷ 32 ∷ h.value) l.name_cr
          (refl, (refl, l.value_cr)))
        (λ x y. feed false (record m { cur_line = x; state = get_line }) y)
    ∙ feed-step get_line m1 13 (10 ∷ r) (reads false m2) refl (ap end_line (add_header-line h m1 l))

abbrev pub put_all : List Header → HttpMessage → HttpMessage
put_all [] m = m
put_all (h ∷ hs) m = put_all hs (put_header h m)

pub read_headers :
    (hs : List Header) (m : HttpMessage) (r : List ℕ)
    → AllLines hs
    → feed false (at_line m) (headers_text hs r) ≡ feed false (at_line (put_all hs m)) r
read_headers [] m r l = refl
read_headers (h ∷ hs) m r l =
    read_header h m (headers_text hs r) l.0 ∙ read_headers hs (put_header h m) r l.1

abbrev pub is_length : Header → Bool
is_length h = same_letters h.name (bytes "Content-Length")

-- The last of the Content-Length headers, as a number and as text.
abbrev pub last_length : ℤ → List Header → ℤ
last_length n [] = n
last_length n (h ∷ hs) = last_length (if is_length h then atoi h.value else n) hs

abbrev pub last_length_str : List ℕ → List Header → List ℕ
last_length_str s [] = s
last_length_str s (h ∷ hs) = last_length_str (if is_length h then h.value else s) hs

pub put_all_lem :
    (hs : List Header) (m : HttpMessage)
    → put_all hs m ≡ record m {
      header_list = m.header_list ++ hs;
      content_length = last_length m.content_length hs;
      content_length_str = last_length_str m.content_length_str hs;
    }
unfolding put_header
put_all_lem [] m = ap (λ l. record m { header_list = l }) (sym (append-nil m.header_list))
put_all_lem (h ∷ hs) m =
    put_all_lem hs (put_header h m)
    ∙ ap
        (λ l. record m {
          header_list = l;
          content_length = last_length m.content_length (h ∷ hs);
          content_length_str = last_length_str m.content_length_str (h ∷ hs);
        })
        (append_assoc m.header_list (h ∷ []) hs)
