-- ===== src/Http/Calls.antt =====
-- parseStream on bytes that come in several calls.
use mathlib.Core.List.{append_assoc}
use tsm_proxy.Prelude.{
  ℕ, ◌≡◌, refl, ap, ◌∙◌, sym, Bool, true, false, Option, none, some, List, [], ◌∷◌, ◌++◌, ◌==◌,
  if◌then◌else◌,
}
use tsm_proxy.Chars.{since}
use tsm_proxy.Chars.Laws.{Avoids, before_all, since_all}
use tsm_proxy.Http.Words.{feed-path, read_method}
use tsm_proxy.Http.{
  HttpMessage, State, idle, get_path, get_query, get_version, get_crlf, get_line_begin, get_line,
  get_double_crlf, get_content, failed, incomplete, complete, Outcome, returned, fault, out_of_fuel,
  new, add_header, is_version, is_zero, ends_path, parse_stream,
}
use tsm_proxy.Http.Feed.{Move, reads, takes_rest, refuses, accepts, breaks, end_line, step, feed}
use tsm_proxy.Http.Cuts.{
  mark, map_outcome, feed-mark, skips, skips_move, feed-append, parse_stream-feed,
}

-- The last of the bytes is a space.
abbrev pub ends_in_space : List ℕ → Bool
ends_in_space [] = false
ends_in_space (c ∷ []) = c == 32
ends_in_space (c ∷ d ∷ p) = ends_in_space (d ∷ p)

abbrev flag : Move → Bool
flag (reads k m) = k
flag _ = false

if-same {ℓ} :
    {A : Type ℓ} (b : Bool) (x : A) (f : A → Bool) (y : A)
    → f x ≡ false
    → f y ≡ false
    → f (if b then x else y) ≡ false
if-same true x f y p q = p
if-same false x f y p q = q

-- Only a space makes the parser skip a byte.
flag-step : (s : State) (m : HttpMessage) (c : ℕ) → (c == 32) ≡ false → flag (step s m c) ≡ false
unfolding step
flag-step idle m c h = rw h refl
flag-step get_path m c h = if-same (ends_path c) _ flag _ refl refl
flag-step get_query m c h = rw h refl
flag-step get_version m c h =
    if-same (c == 13) _ flag _ (if-same (is_version m.version) _ flag _ refl refl) refl
flag-step get_crlf m c h = if-same (c == 10) _ flag _ refl refl
flag-step get_line_begin m c h = if-same (c == 13) _ flag _ refl refl
flag-step get_line m c h = if-same (c == 13) _ flag _ (each (add_header m.cur_line m)) refl
  where
    each : (o : Option HttpMessage) → flag (end_line o) ≡ false
    each none = refl
    each (some m') = refl
flag-step get_double_crlf m c h =
    if-same (c == 10) _ flag _ (if-same (is_zero m.content_length) _ flag _ refl refl) refl
flag-step get_content m c h = refl

abbrev Settled : Bool → List ℕ → Type 0
Settled true [] = ⊥
Settled true (c ∷ p) = ends_in_space (c ∷ p) ≡ false
Settled false p = ends_in_space p ≡ false

Settled-tail :
    (c : ℕ) (p : List ℕ) (k : Bool)
    → ends_in_space (c ∷ p) ≡ false
    → ((c == 32) ≡ false → k ≡ false)
    → Settled k p
Settled-tail c [] true e h = absurd (no (h e))
  where
    no : true ≡ false → ⊥
    no q = cc
Settled-tail c [] false e h = refl
Settled-tail c (d ∷ p) true e h = e
Settled-tail c (d ∷ p) false e h = e

settled_rest : (c : ℕ) (p : List ℕ) → ends_in_space (c ∷ p) ≡ false → ends_in_space p ≡ false
settled_rest c [] e = refl
settled_rest c (d ∷ p) e = e

skips-Settled : (k : Bool) (m : HttpMessage) (p : List ℕ) → Settled k p → skips k m p ≡ false
unfolding skips
skips-Settled true m [] h = absurd h
skips-Settled false m [] h = refl
skips-Settled true m (c ∷ p) h = skips-Settled false m p (settled_rest c p h)
skips-Settled false m (c ∷ p) h =
    each (λ k n. skips-Settled k n p) (step m.state m c) (flag-step m.state m c)
  where
    each :
        ((k : Bool) (n : HttpMessage) → Settled k p → skips k n p ≡ false)
        → (mv : Move) → ((c == 32) ≡ false → flag mv ≡ false)
        → skips_move (λ k n. skips k n p) mv ≡ false
    each ih (reads k n) f = ih k n (Settled-tail c p k h f)
    each ih takes_rest f = refl
    each ih (refuses n) f = refl
    each ih (accepts n) f = refl
    each ih breaks f = refl

-- The message under the mark that a call of parseStream leaves.
unmark :
    (x : List ℕ) (o : Outcome) (m' : HttpMessage)
    → map_outcome (mark x) o ≡ returned incomplete m'
    → (n : HttpMessage) × (o ≡ returned incomplete n) × (m' ≡ mark x n)
unmark x (returned incomplete n) m' h = (n, refl, cc)
unmark x (returned failed n) m' h = cc
unmark x (returned complete n) m' h = cc
unmark x fault m' h = cc
unmark x out_of_fuel m' h = cc

mark-mark :
    (x y : List ℕ) (o : Outcome)
    → map_outcome (mark x) (map_outcome (mark y) o) ≡ map_outcome (mark x) o
mark-mark x y (returned s m) = refl
mark-mark x y fault = refl
mark-mark x y out_of_fuel = refl

-- Bytes that come in two calls are parsed as in one, if the parser waits for more behind the first
-- call and the first bytes do not end in a space.
pub parse_stream-append :
    (a b : List ℕ) (m m' : HttpMessage)
    → parse_stream a m ≡ returned incomplete m'
    → ends_in_space a ≡ false
    → parse_stream (a ++ b) m ≡ parse_stream b m'
parse_stream-append a b m m' h e =
    let (n, one, same) =
      unmark (m.source_content ++ a) (feed false m a) m' (sym (parse_stream-feed a m).0 ∙ h) in
    let whole : feed false m (a ++ b) ≡ feed false n b =
      feed-append false m n a b one ∙ ap (λ k. feed k n b) (skips-Settled false m a e) in
    let marked : List ℕ → Outcome = λ x. map_outcome (mark x) (feed false n b) in
    (parse_stream-feed (a ++ b) m).0
    ∙ ap (map_outcome (mark (m.source_content ++ (a ++ b)))) whole
    ∙ ap marked (sym (append_assoc m.source_content a b))
    ∙ sym (mark-mark ((m.source_content ++ a) ++ b) (m.source_content ++ a) (feed false n b))
    ∙ ap (map_outcome (mark ((m.source_content ++ a) ++ b)))
        (sym (feed-mark false (m.source_content ++ a) n b))
    ∙ sym (parse_stream-feed b (mark (m.source_content ++ a) n)).0
    ∙ ap (parse_stream b) (sym same)

abbrev pub path_of : Outcome → List ℕ
path_of (returned s m) = m.path
path_of _ = []

-- The next call, where the one before asks for more.
abbrev pub and_then : Outcome → List ℕ → Outcome
and_then (returned incomplete m) b = parse_stream b m
and_then o b = o

path_of-mark : (x : List ℕ) (o : Outcome) → path_of (map_outcome (mark x) o) ≡ path_of o
path_of-mark x (returned s m) = refl
path_of-mark x fault = refl
path_of-mark x out_of_fuel = refl

open_path :
    (p : List ℕ) (m : HttpMessage)
    → m.state ≡ get_path
    → Avoids ends_path p
    → feed false m p ≡ returned incomplete (record m { path = m.path ++ p })
unfolding feed
open_path p m e n =
    feed-path p m e
    ∙ ap (λ x. feed false (record m { path = m.path ++ x }) (since ends_path p))
        (before_all ends_path p n)
    ∙ ap (feed false (record m { path = m.path ++ p })) (since_all ends_path p n)

-- Where the first call ends right behind the method, the `/` that is skipped in one call becomes part
-- of the path.
pub parse_stream-slash :
    (id : ℕ) (method p : List ℕ)
    → Avoids (λ c. c == 32) method
    → Avoids ends_path p
    → (path_of (parse_stream (method ++ 32 ∷ 47 ∷ p) (new id)) ≡ p)
      × (path_of (and_then (parse_stream (method ++ 32 ∷ []) (new id)) (47 ∷ p)) ≡ 47 ∷ p)
unfolding new feed
parse_stream-slash id method p nm np =
    let m : HttpMessage = record (new id) { method = method; state = get_path } in
    let waits : parse_stream (method ++ 32 ∷ []) (new id)
        ≡ returned incomplete (mark (method ++ 32 ∷ []) m) =
      (parse_stream-feed (method ++ 32 ∷ []) (new id)).0
      ∙ ap (map_outcome (mark (method ++ 32 ∷ []))) (read_method method [] (new id) refl nm) in
    (
      ap path_of (parse_stream-feed (method ++ 32 ∷ 47 ∷ p) (new id)).0
          ∙ path_of-mark (method ++ 32 ∷ 47 ∷ p) (feed false (new id) (method ++ 32 ∷ 47 ∷ p))
          ∙ ap path_of (read_method method (47 ∷ p) (new id) refl nm)
          ∙ ap path_of (open_path p m refl np),
      ap (λ o. path_of (and_then o (47 ∷ p))) waits
          ∙ ap path_of (parse_stream-feed (47 ∷ p) (mark (method ++ 32 ∷ []) m)).0
          ∙ path_of-mark ((method ++ 32 ∷ []) ++ 47 ∷ p)
              (feed false (mark (method ++ 32 ∷ []) m) (47 ∷ p))
          ∙ ap path_of (open_path (47 ∷ p) (mark (method ++ 32 ∷ []) m) refl (refl, np)),
    )
