-- ===== src/Http.antt =====
-- proxy/psahttp/httpmessage.C: CHttpMessage, a request that is parsed while its bytes arrive.
pub mod Feed
pub mod Words
pub mod Rounds
pub mod Cuts
pub mod Calls
pub mod Headers
pub mod Requests
pub mod Client
pub mod Built
pub mod Argv
pub mod Replies
pub mod Dispatch
pub mod Services
use mathlib.Core.Option
use tsm_proxy.Prelude.{
  ℕ, zero, suc, ◌+◌, ◌*◌, Bool, true, false, ◌||◌, not, Option, none, some, List, [], ◌∷◌, ◌++◌,
  ◌==◌, if◌then◌else◌, length, drop,
}
use tsm_proxy.Prelude.Int.{ℤ, pos}
use tsm_proxy.Chars.{bytes, before, since, c_string, same, same_letters, atoi}

-- CHttpHeaderItem; the list headerList is a list here.
pub record Header : Type 0 where
  pub name : List ℕ
  pub value : List ℕ

-- http_Idle to http_GetContent.
pub data State : Type 0 where
  idle get_path get_query get_version get_crlf get_line_begin get_line : State
  get_double_crlf get_content : State

pub record HttpMessage : Type 0 where
  pub state : State
  pub method : List ℕ
  pub path : List ℕ
  pub query : List ℕ
  pub version : List ℕ
  pub cur_line : List ℕ
  pub header_list : List Header
  pub content_length : ℤ
  pub content_length_str : List ℕ
  pub content : List ℕ
  pub source_content : List ℕ
  pub is_request : Bool
  pub link_id : ℕ

-- `isRequest` is not set by the constructor; a call of parseStream sets it.
unfoldable pub new : ℕ → HttpMessage
new link_id = record {
  state = idle;
  method = [];
  path = [];
  query = [];
  version = [];
  cur_line = [];
  header_list = [];
  content_length = pos 0;
  content_length_str = [];
  content = [];
  source_content = [];
  is_request = true;
  link_id = link_id;
}

-- What parseStream returns: -1, 0 and 1.
pub data Status : Type 0 where
  failed incomplete complete : Status

-- A round of `while(p < end)`: `continue` with the pointer at the bytes given, or `return`. A line
-- without a colon makes addHeader write through a NULL pointer.
pub data Round : Type 0 where
  continues : HttpMessage → List ℕ → Round
  returns : Status → HttpMessage → Round
  faults : Round

pub data Outcome : Type 0 where
  returned : Status → HttpMessage → Outcome
  fault out_of_fuel : Outcome

abbrev is_zero : ℤ → Bool
is_zero (pos zero) = true
is_zero _ = false

-- The item goes to the end of headerList.
unfoldable pub put_header : Header → HttpMessage → HttpMessage
unfolding same_letters atoi
put_header item m =
    let is_length = same_letters item.name (bytes "Content-Length") in
    record m {
      content_length = if is_length then atoi item.value else m.content_length;
      content_length_str = if is_length then item.value else m.content_length_str;
      header_list = m.header_list ++ item ∷ [];
    }

-- With the part of the line in front of the colon, and the rest.
unfoldable pub header_of : List ℕ → List ℕ → Option Header
unfolding since
header_of name [] = none
header_of name (colon ∷ value) =
    some (record { name = name; value = since (λ c. not (c == 32)) value })

unfoldable pub add_header : List ℕ → HttpMessage → Option HttpMessage
unfolding header_of put_header before since
add_header line m =
    let s = c_string line in
    Option.map (λ item. put_header item m)
      (header_of (before (λ c. c == 58) s) (since (λ c. c == 58) s))

-- The `while` of a state reads up to a character that ends it; these go on from there. The byte at
-- `end` is 0, and none of them.
abbrev pub ends_path : ℕ → Bool
ends_path c = c == 32 || c == 63

unfoldable pub after_method : HttpMessage → List ℕ → Round
after_method m [] = returns incomplete m
after_method m (c ∷ rest) = continues (record m { state = get_path }) (drop 1 rest)

unfoldable pub after_path : HttpMessage → List ℕ → Round
after_path m [] = returns incomplete m
after_path m (c ∷ rest) =
    continues (record m { state = if c == 63 then get_query else get_version }) rest

unfoldable pub after_query : HttpMessage → List ℕ → Round
after_query m [] = returns incomplete m
after_query m (c ∷ rest) = continues (record m { state = get_version }) rest

abbrev pub is_version : List ℕ → Bool
is_version v = same (c_string v) (bytes "HTTP/1.0") || same (c_string v) (bytes "HTTP/1.1")

unfoldable pub after_version : HttpMessage → List ℕ → Round
unfolding same before
after_version m [] = returns incomplete m
after_version m (c ∷ rest) =
    if is_version m.version
    then continues (record m { state = get_crlf }) rest
    else returns failed m

-- Behind addHeader.
unfoldable pub next_line : Option HttpMessage → List ℕ → Round
next_line none rest = faults
next_line (some m) rest = continues (record m { state = get_crlf }) rest

unfoldable pub after_line : HttpMessage → List ℕ → Round
unfolding add_header next_line
after_line m [] = returns incomplete m
after_line m (c ∷ rest) = next_line (add_header m.cur_line m) rest

-- One round, at the bytes `c ∷ rest`.
unfoldable pub round : State → HttpMessage → ℕ → List ℕ → Round
unfolding before since after_method after_path after_query after_version after_line
round idle m c rest =
    after_method (record m { method = m.method ++ before (λ x. x == 32) (c ∷ rest) })
      (since (λ x. x == 32) (c ∷ rest))
round get_path m c rest =
    after_path (record m { path = m.path ++ before ends_path (c ∷ rest) })
      (since ends_path (c ∷ rest))
round get_query m c rest =
    after_query (record m { query = m.query ++ before (λ x. x == 32) (c ∷ rest) })
      (since (λ x. x == 32) (c ∷ rest))
round get_version m c rest =
    after_version (record m { version = m.version ++ before (λ x. x == 13) (c ∷ rest) })
      (since (λ x. x == 13) (c ∷ rest))
round get_crlf m c rest =
    if c == 10
    then continues (record m { cur_line = []; state = get_line_begin }) rest
    else returns failed m
round get_line_begin m c rest =
    if c == 13
    then continues (record m { state = get_double_crlf }) rest
    else continues (record m { state = get_line }) (c ∷ rest)
round get_double_crlf m c rest =
    if c == 10
    then (if is_zero m.content_length
        then returns complete m
        else continues (record m { state = get_content }) rest)
    else returns failed m
round get_line m c rest =
    after_line (record m { cur_line = m.cur_line ++ before (λ x. x == 13) (c ∷ rest) })
      (since (λ x. x == 13) (c ∷ rest))
round get_content m c rest = returns complete (record m { content = m.content ++ c ∷ rest })

abbrev pub proceed : (HttpMessage → List ℕ → Outcome) → Round → Outcome
proceed again (continues m p) = again m p
proceed again (returns s m) = returned s m
proceed again faults = fault

unfoldable pub parse_loop : ℕ → HttpMessage → List ℕ → Outcome
parse_loop zero m p = out_of_fuel
parse_loop (suc fuel) m [] = returned incomplete m
parse_loop (suc fuel) m (c ∷ rest) = proceed (λ m' p. parse_loop fuel m' p) (round m.state m c rest)

-- Two rounds for each byte, since http_GetLineBegin may read none, and one to see the end.
unfoldable pub parse_stream : List ℕ → HttpMessage → Outcome
unfolding parse_loop
parse_stream code m =
    parse_loop (2 * length code + 2)
      (record m { source_content = m.source_content ++ code; is_request = true }) code
