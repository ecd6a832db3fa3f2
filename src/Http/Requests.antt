-- ===== src/Http/Requests.antt =====
-- What the parser makes of a whole request.
use tsm_proxy.Prelude.{
  ℕ, ◌≡◌, refl, ap, ◌∙◌, inl, inr, true, false, Option, none, some, List, [], ◌∷◌, ◌++◌, ◌==◌,
  if◌then◌else◌, Bool-cases,
}
use tsm_proxy.Prelude.Int.{pos}
use tsm_proxy.Chars.{bytes, before, same}
use tsm_proxy.Chars.Laws.{Avoids}
use tsm_proxy.Http.{
  HttpMessage, State, get_path, get_query, get_version, get_crlf, get_line_begin, get_double_crlf,
  get_content, incomplete, complete, Outcome, returned, new, put_header, ends_path, is_zero,
  parse_stream,
}
use tsm_proxy.Http.Feed.{reads, accepts, step, feed, feed-step}
use tsm_proxy.Http.Words.{read_method, read_path, read_query, read_version}
use tsm_proxy.Http.Cuts.{mark, map_outcome, parse_stream-feed}
use tsm_proxy.Http.Headers.{
  Request, headers_text, query_text, text, AllLines, at_line, put_all, read_headers, last_length,
  last_length_str, put_all_lem,
}

abbrev query_of : Option (List ℕ) → List ℕ
query_of none = []
query_of (some q) = q

-- The message of a request in front of its empty line.
abbrev pub headed : Request → ℕ → HttpMessage
headed r id = record {
  state = get_line_begin;
  method = r.method;
  path = r.path;
  query = query_of r.query;
  version = bytes "HTTP/1.1";
  cur_line = [];
  header_list = r.headers;
  content_length = last_length (pos 0) r.headers;
  content_length_str = last_length_str [] r.headers;
  content = [];
  source_content = text r;
  is_request = true;
  link_id = id;
}

-- What is behind the empty line: nothing is read of it where the length is 0, else all that is there.
abbrev pub with_body : HttpMessage → List ℕ → Outcome
with_body m [] = returned incomplete (record m { state = get_content })
with_body m (c ∷ cs) = returned complete (record m { state = get_content; content = c ∷ cs })

abbrev pub finished : HttpMessage → List ℕ → Outcome
finished m body =
    if is_zero m.content_length
    then returned complete (record m { state = get_double_crlf })
    else with_body m body

pub record IsLegal (r : Request) : Type 0 where
  pub method_word : Avoids (λ c. c == 32) r.method
  pub path_word : Avoids ends_path r.path
  pub query_word : Avoids (λ c. c == 32) (query_of r.query)
  pub lines : AllLines r.headers

read_end :
    (m : HttpMessage) (body : List ℕ)
    → m.state ≡ get_line_begin
    → m.content ≡ []
    → feed false m (13 ∷ 10 ∷ body) ≡ finished m body
unfolding feed step
read_end m body e h =
    feed-step get_line_begin m 13 (10 ∷ body) (reads false (record m { state = get_double_crlf })) e
      refl
    ∙ elim (Bool-cases (is_zero m.content_length)) [
      | inl z ↦
          feed-step get_double_crlf (record m { state = get_double_crlf }) 10 body
            (accepts (record m { state = get_double_crlf })) refl (rw z refl)
          ∙ rw z refl
      | inr z ↦
          feed-step get_double_crlf (record m { state = get_double_crlf }) 10 body
            (reads false (record m { state = get_content })) refl (rw z refl)
          ∙ rest body
          ∙ rw z refl
    ]
  where
    rest : (b : List ℕ) → feed false (record m { state = get_content }) b ≡ with_body m b
    rest [] = refl
    rest (c ∷ cs) =
        ap (λ x. returned complete (record m { state = get_content; content = x ++ c ∷ cs })) h

-- What follows the path, in the message that has it.
abbrev behind : Request → List ℕ
behind r = bytes "HTTP/1.1" ++ 13 ∷ 10 ∷ headers_text r.headers (13 ∷ 10 ∷ r.body)

abbrev located : Request → ℕ → List ℕ → State → HttpMessage
located r id q s = record (new id) { method = r.method; path = r.path; query = q; state = s }

read_target :
    (r : Request) (q : Option (List ℕ)) (id : ℕ)
    → Avoids ends_path r.path
    → Avoids (λ c. c == 32) (query_of q)
    → feed false
        (record (new id) { method = r.method; state = get_path })
        (r.path ++ query_text q (32 ∷ behind r))
      ≡ feed false (located r id (query_of q) get_version) (behind r)
unfolding new
read_target r none id np nq =
    read_path r.path (behind r) 32 (record (new id) { method = r.method; state = get_path }) refl
      refl np
read_target r (some q) id np nq =
    read_path r.path (q ++ 32 ∷ behind r) 63
      (record (new id) { method = r.method; state = get_path }) refl refl np
    ∙ read_query q (behind r) (located r id [] get_query) refl nq

read_behind :
    (r : Request) (id : ℕ) (q : List ℕ)
    → AllLines r.headers
    → feed false (located r id q get_version) (behind r)
      ≡ finished
          (at_line
            (put_all r.headers (record (located r id q get_crlf) { version = bytes "HTTP/1.1" })))
          r.body
unfolding new same before step put_header
read_behind r id q l =
    let m : HttpMessage = record (located r id q get_crlf) { version = bytes "HTTP/1.1" } in
    read_version (bytes "HTTP/1.1") (10 ∷ headers_text r.headers (13 ∷ 10 ∷ r.body))
      (located r id q get_version) refl
      (refl, (refl, (refl, (refl, (refl, (refl, (refl, (refl, tt)))))))) refl
    ∙ feed-step get_crlf m 10 (headers_text r.headers (13 ∷ 10 ∷ r.body)) (reads false (at_line m))
        refl refl
    ∙ read_headers r.headers m (13 ∷ 10 ∷ r.body) l
    ∙ read_end (at_line (put_all r.headers m)) r.body refl
        (ap (λ (x : HttpMessage). x.content) (put_all_lem r.headers m))

-- parseStream takes a request apart into its method, path, query, version, headers and body, if its
-- parts hold none of the characters that end them and no value begins with a blank. It is complete behind the empty line where the
-- last Content-Length, as the int that atoi gives, is 0 or there is none, and else behind any part of the body.
pub parse_stream-text :
    (r : Request) (id : ℕ)
    → IsLegal r
    → parse_stream (text r) (new id) ≡ finished (headed r id) r.body
unfolding new feed
parse_stream-text r id l =
    let m : HttpMessage = record (located r id (query_of r.query) get_crlf) {
      version = bytes "HTTP/1.1";
    } in
    let fed : feed false (new id) (text r) ≡ finished (at_line (put_all r.headers m)) r.body =
      read_method r.method (47 ∷ (r.path ++ query_text r.query (32 ∷ behind r))) (new id) refl
        l.method_word
      ∙ read_target r r.query id l.path_word l.query_word
      ∙ read_behind r id (query_of r.query) l.lines in
    (parse_stream-feed (text r) (new id)).0
    ∙ ap (map_outcome (mark (text r)))
        (fed ∙ ap (λ x. finished (at_line x) r.body) (put_all_lem r.headers m))
    ∙ marked r.body
  where
    each :
        (b : List ℕ)
        → map_outcome (mark (text r)) (with_body (record (headed r id) { source_content = [] }) b)
          ≡ with_body (headed r id) b
    each [] = refl
    each (c ∷ cs) = refl

    marked :
        (b : List ℕ)
        → map_outcome (mark (text r)) (finished (record (headed r id) { source_content = [] }) b)
          ≡ finished (headed r id) b
    marked b = elim (Bool-cases (is_zero (headed r id).content_length)) [
      | inl z ↦ rw z refl
      | inr z ↦ rw z (each b)
    ]
