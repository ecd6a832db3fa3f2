-- ===== src/Examples/Clients.antt =====
-- A request that one HTTP adapter sends and another takes.
use tsm_proxy.Prelude.{
  ℕ, ◌+◌, ◌≤◌, ◌≡◌, refl, ◌⊎◌, true, some, List, [], ◌∷◌, ◌++◌, ◌==◌, length, arith,
}
use tsm_proxy.Prelude.Int.{pos, negsuc}
use tsm_proxy.Chars.{bytes, same_letters}
use tsm_proxy.Chars.Laws.{avoids, avoids_sound}
use tsm_proxy.Http.{Header, HttpMessage, ends_path, returned, complete, new, parse_stream}
use tsm_proxy.Http.Client.{decimal, build_http_request, int_text, decimal_loop}
use tsm_proxy.Http.Requests.{IsLegal}
use tsm_proxy.Http.Built.{request_of, received, NoLength, others, parse_stream-build}
use tsm_proxy.Http.Argv.{
  build_dll_call_argv, build_async_app_argv, first_argv, flat, build_argv-Fits,
}
use tsm_proxy.Http.Dispatch.{Outside, process_async, process_http_message}
use tsm_proxy.Http.Services.{process_http_message-build}

abbrev outside : Outside
outside = record {
  service_key = λ path. [];
  load_script = λ path. (negsuc 0, bytes "none");
  dll_call = λ path argv. (true, []);
  html = λ title elems. title;
  file = λ name. [];
  max_argv = 20;
}

abbrev arguments : List (List ℕ)
arguments = bytes "-file out" ∷ bytes "Accept" ∷ bytes "text" ∷ []

request-IsLegal : IsLegal (request_of (bytes "h") (pos 8) (decimal 101) (bytes "hi") arguments)
unfolding avoids decimal_loop int_text others
request-IsLegal = record {
  method_word = avoids_sound (λ c. c == 32) (bytes "POST") refl;
  path_word = avoids_sound ends_path (bytes "101") refl;
  query_word = tt;
  lines = (
    record {
      no_colon = avoids_sound (λ c. c == 58) (bytes "Host") refl;
      name_cr = avoids_sound (λ c. c == 13) (bytes "Host") refl;
      name_null = avoids_sound (λ c. c == 0) (bytes "Host") refl;
      value_cr = avoids_sound (λ c. c == 13) (bytes "h:8") refl;
      value_null = avoids_sound (λ c. c == 0) (bytes "h:8") refl;
      no_blank = refl;
    },
    (
      record {
        no_colon = avoids_sound (λ c. c == 58) (bytes "Connection") refl;
        name_cr = avoids_sound (λ c. c == 13) (bytes "Connection") refl;
        name_null = avoids_sound (λ c. c == 0) (bytes "Connection") refl;
        value_cr = avoids_sound (λ c. c == 13) (bytes "keep-alive") refl;
        value_null = avoids_sound (λ c. c == 0) (bytes "keep-alive") refl;
        no_blank = refl;
      },
      (
        record {
          no_colon = avoids_sound (λ c. c == 58) (bytes "User-Agent") refl;
          name_cr = avoids_sound (λ c. c == 13) (bytes "User-Agent") refl;
          name_null = avoids_sound (λ c. c == 0) (bytes "User-Agent") refl;
          value_cr = avoids_sound (λ c. c == 13) (bytes "UniFrame") refl;
          value_null = avoids_sound (λ c. c == 0) (bytes "UniFrame") refl;
          no_blank = refl;
        },
        (
          record {
            no_colon = avoids_sound (λ c. c == 58) (bytes "Content-Length") refl;
            name_cr = avoids_sound (λ c. c == 13) (bytes "Content-Length") refl;
            name_null = avoids_sound (λ c. c == 0) (bytes "Content-Length") refl;
            value_cr = avoids_sound (λ c. c == 13) (bytes "2") refl;
            value_null = avoids_sound (λ c. c == 0) (bytes "2") refl;
            no_blank = refl;
          },
          (
            record {
              no_colon = avoids_sound (λ c. c == 58) (bytes "Accept") refl;
              name_cr = avoids_sound (λ c. c == 13) (bytes "Accept") refl;
              name_null = avoids_sound (λ c. c == 0) (bytes "Accept") refl;
              value_cr = avoids_sound (λ c. c == 13) (bytes "text") refl;
              value_null = avoids_sound (λ c. c == 0) (bytes "text") refl;
              no_blank = refl;
            },
            tt,
          ),
        ),
      ),
    ),
  );
}

no_length : NoLength (others arguments)
unfolding others same_letters
no_length = (refl, tt)

parse_stream-build_example :
    parse_stream
      (build_http_request (bytes "h") (pos 8) (decimal 101) (bytes "hi") arguments)
      (new 1)
    ≡ returned complete
        (received (request_of (bytes "h") (pos 8) (decimal 101) (bytes "hi") arguments) 1)
parse_stream-build_example =
    parse_stream-build (bytes "h") (pos 8) (decimal 101) (bytes "hi") arguments 1 request-IsLegal
      no_length (omega arith)

process_http_message-build_example :
    let m = received (request_of (bytes "h") (pos 8) (decimal 101) (bytes "hi") arguments) 1 in
    (parse_stream
        (build_http_request (bytes "h") (pos 8) (decimal 101) (bytes "hi") arguments)
        (new 1)
      ≡ returned complete m)
    × (process_http_message outside m 0 ≡ some (process_async outside (pos 101) m 0))
process_http_message-build_example =
    process_http_message-build outside (bytes "h") (pos 8) (bytes "hi") arguments 1 0 101
      request-IsLegal no_length (omega arith) (omega arith) (omega arith)

abbrev two_headers : HttpMessage
two_headers = record (new 1) {
  header_list =
      record { name = bytes "a"; value = bytes "1" }
      ∷ record { name = bytes "b"; value = bytes "2" }
      ∷ [];
}

build_argv-Fits_example :
    let argv = (build_dll_call_argv 6 two_headers 0).0 in
    (kept : List Header) × (lost : List Header) × (two_headers.header_list ≡ kept ++ lost)
    × (argv ≡ first_argv two_headers ++ flat kept)
    × (length argv ≤ 6)
    × (length (build_async_app_argv 6 two_headers 0).0 ≤ 6 + 2)
    × ((lost ≡ []) ⊎ (6 ≤ length argv + 1))
build_argv-Fits_example = build_argv-Fits 6 two_headers 0 (omega arith)
