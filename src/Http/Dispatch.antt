-- ===== src/Http/Dispatch.antt =====
-- proxy/psahttp/hookpsahttpimpl.C: what is done with a request that is complete.
use mathlib.Core.Option
use tsm_proxy.Prelude.{
  ℕ, ◌-◌, Bool, true, false, Option, none, some, List, [], ◌∷◌, ◌++◌, ltb, if◌then◌else◌, length,
  drop,
}
use tsm_proxy.Prelude.Int.{ℤ, pos, negsuc}
use tsm_proxy.Chars.{bytes, same, is_digit, atoi, before, c_string}
use tsm_proxy.Http.{HttpMessage}
use tsm_proxy.Cstr.Codes.{decode_bytes}
use tsm_proxy.Http.Argv.{build_dll_call_argv, build_async_app_argv}
use tsm_proxy.Http.Client.{is_empty}
use tsm_proxy.Http.Replies.{
  path_ext, gen_response_message, gen_error_message, gen_file_response_message,
  gen_test_response_message,
}

-- What the adapter asks for elsewhere: the map of services, a script that is loaded (the key of the
-- application, or an error text), the call of a library (whether it succeeds, and its page), CHtml,
-- the files, and MAX_MSG_ARGV_NUM.
pub record Outside : Type 0 where
  pub service_key : List ℕ → List ℕ
  pub load_script : List ℕ → ℤ × List ℕ
  pub dll_call : List ℕ → List (List ℕ) → Bool × List ℕ
  pub html : List ℕ → List (List ℕ × List ℕ) → List ℕ
  pub file : List ℕ → List ℕ
  pub max_argv : ℕ

-- A reply that is sent on the link, or a message to an application.
pub data Action : Type 0 where
  sends : List ℕ → Action
  asks : (app_key : ℤ) → List (List ℕ) → Action

abbrev ends_with : List ℕ → List ℕ → Bool
ends_with t s = same (drop (length s - length t) s) t

abbrev above_100 : ℤ → Option ℤ
above_100 (pos n) = if ltb 100 n then some (pos n) else none
above_100 (negsuc n) = none

abbrev is_negative : ℤ → Bool
is_negative (pos n) = false
is_negative (negsuc n) = true

abbrev starts_with_digit : List ℕ → Bool
starts_with_digit [] = false
starts_with_digit (c ∷ cs) = is_digit c

module _ (o : Outside) where
  -- None for -1.
  abbrev key_of : List ℕ → Option ℤ
  key_of key =
      if ends_with (bytes ".usl") key then above_100 (o.load_script key).0 else above_100 (atoi key)

  unfoldable pub check_async_app_key : List ℕ → Option ℤ
  unfolding same atoi
  check_async_app_key path =
      if starts_with_digit path then above_100 (atoi path) else key_of (o.service_key path)

  unfoldable pub process_async : ℤ → HttpMessage → ℕ → Action × ℕ
  unfolding build_async_app_argv
  process_async key m counter =
      let (argv, n) = build_async_app_argv (o.max_argv - 3) m counter in (asks key argv, n)

  abbrev dll_reply : HttpMessage → Bool × List ℕ → List ℕ
  dll_reply m (true, page) = gen_response_message m (bytes "text/html") page
  dll_reply m (false, page) = gen_error_message o.html m 400 page

  abbrev script_reply : HttpMessage → ℕ → ℤ × List ℕ → Action × ℕ
  script_reply m counter (key, err) =
      if is_negative key
      then (sends (gen_error_message o.html m 400 err), counter)
      else process_async key m counter

  -- With the extension of the path.
  unfoldable pub process_ext : HttpMessage → ℕ → List ℕ → Action × ℕ
  unfolding process_async gen_response_message gen_error_message gen_file_response_message
      build_dll_call_argv same before
  process_ext m counter ext =
      if same (c_string ext) (bytes "usl")
      then script_reply m counter (o.load_script (c_string m.path))
      else if same (c_string ext) (bytes "so")
      then (let (argv, n) = build_dll_call_argv 30 m counter in
          (sends (dll_reply m (o.dll_call (c_string m.path) argv)), n))
      else (sends (gen_file_response_message o.html o.file m), counter)

  abbrev without_key : HttpMessage → ℕ → Option (List ℕ) → Action × ℕ
  without_key m counter none =
      process_ext (record m { path = m.path ++ bytes ".so" }) counter (bytes "so")
  without_key m counter (some ext) = process_ext m counter ext

  abbrev with_key : HttpMessage → ℕ → Option ℤ → Action × ℕ
  with_key m counter (some key) = process_async key m counter
  with_key m counter none = without_key m counter (path_ext m.path)

  abbrev or_index : List ℕ → List ℕ
  or_index path = if is_empty path then bytes "index" else path

  -- With the path decoded.
  unfoldable pub process_decoded : HttpMessage → ℕ → Action × ℕ
  unfolding check_async_app_key process_async process_ext path_ext gen_test_response_message same
      before
  process_decoded m counter =
      let m1 : HttpMessage = record m { path = or_index m.path } in
      if same (c_string m.path) (bytes "psahttpselftest")
      then (sends (gen_test_response_message o.html m), counter)
      else with_key m1 counter (check_async_app_key (c_string m1.path))

  -- The counter of lost headers goes with it. None where uricDecode reads past the path.
  unfoldable pub process_http_message : HttpMessage → ℕ → Option (Action × ℕ)
  unfolding process_decoded decode_bytes
  process_http_message m counter =
      Option.map (λ path. process_decoded (record m { path = path }) counter)
        (decode_bytes 0 (c_string m.path))
