-- ===== src/Examples/Requests.antt =====
-- The HTTP parser at a request.
use tsm_proxy.Prelude.{ℕ, ◌≡◌, refl, ◌≢◌, false, some, List, [], ◌∷◌, ◌++◌, ◌==◌}
use tsm_proxy.Chars.{bytes, same_letters, atoi}
use tsm_proxy.Chars.Laws.{avoids, avoids_sound}
use tsm_proxy.Http.{
  ends_path, Header, HttpMessage, returned, incomplete, complete, new, parse_stream, round,
  out_of_fuel, get_path, get_content,
}
use tsm_proxy.Http.Feed.{feed}
use tsm_proxy.Http.Cuts.{mark, map_outcome, parse_stream-feed}
use tsm_proxy.Http.Calls.{path_of, and_then, parse_stream-append, parse_stream-slash}
use tsm_proxy.Http.Headers.{Request, text}
use tsm_proxy.Http.Requests.{IsLegal, headed, finished, parse_stream-text}

abbrev length_header : Header
length_header = record { name = bytes "Content-Length"; value = bytes "5" }

abbrev order : Request
order = record {
  method = bytes "POST";
  path = bytes "app";
  query = some (bytes "id=7");
  headers = length_header ∷ [];
  body = bytes "hello";
}

order-IsLegal : IsLegal order
unfolding avoids
order-IsLegal = record {
  method_word = avoids_sound (λ c. c == 32) (bytes "POST") refl;
  path_word = avoids_sound ends_path (bytes "app") refl;
  query_word = avoids_sound (λ c. c == 32) (bytes "id=7") refl;
  lines = (
    record {
      no_colon = avoids_sound (λ c. c == 58) (bytes "Content-Length") refl;
      name_cr = avoids_sound (λ c. c == 13) (bytes "Content-Length") refl;
      name_null = avoids_sound (λ c. c == 0) (bytes "Content-Length") refl;
      value_cr = avoids_sound (λ c. c == 13) (bytes "5") refl;
      value_null = avoids_sound (λ c. c == 0) (bytes "5") refl;
      no_blank = refl;
    },
    tt,
  );
}

parse_stream-text_example :
    parse_stream (text order) (new 1) ≡ finished (headed order 1) (bytes "hello")
parse_stream-text_example = parse_stream-text order 1 order-IsLegal

-- The body is read, and the length is 5.
order_complete :
    finished (headed order 1) (bytes "hello")
    ≡ returned complete (record (headed order 1) { state = get_content; content = bytes "hello" })
unfolding same_letters atoi
order_complete = refl

parse_stream-feed_example :
    (parse_stream (text order) (new 1)
      ≡ map_outcome (mark ([] ++ text order)) (feed false (new 1) (text order)))
    × (parse_stream (text order) (new 1) ≢ out_of_fuel)
unfolding new
parse_stream-feed_example = parse_stream-feed (text order) (new 1)

-- The first bytes of the request, and the message then.
abbrev first_bytes : List ℕ
first_bytes = bytes "POST /ap"

abbrev first_message : HttpMessage
first_message = record (new 1) {
  state = get_path;
  method = bytes "POST";
  path = bytes "ap";
  source_content = first_bytes;
}

first_parsed : parse_stream first_bytes (new 1) ≡ returned incomplete first_message
unfolding parse_stream new round
first_parsed = refl

parse_stream-append_example :
    parse_stream (first_bytes ++ bytes "p HTTP/1.1") (new 1)
    ≡ parse_stream (bytes "p HTTP/1.1") first_message
parse_stream-append_example =
    parse_stream-append first_bytes (bytes "p HTTP/1.1") (new 1) first_message first_parsed refl

parse_stream-slash_example :
    (path_of (parse_stream (bytes "GET /index") (new 1)) ≡ bytes "index")
    × (path_of (and_then (parse_stream (bytes "GET ") (new 1)) (bytes "/index")) ≡ bytes "/index")
unfolding avoids
parse_stream-slash_example =
    parse_stream-slash 1 (bytes "GET") (bytes "index")
      (avoids_sound (λ c. c == 32) (bytes "GET") refl) (avoids_sound ends_path (bytes "index") refl)
