-- ===== src/Http/Cuts.antt =====
-- parseStream against the byte machine, and bytes that come in several calls.
use mathlib.Core.Option
use tsm_proxy.Prelude.{
  ℕ, ◌+◌, ◌*◌, ◌<◌, ◌≡◌, refl, ap, ◌∙◌, sym, ◌≢◌, Bool, true, false, Option, none, some, List, [],
  ◌∷◌, ◌++◌, arith, ◌==◌, if◌then◌else◌, length,
}
use tsm_proxy.Http.{
  Header, HttpMessage, State, idle, get_path, get_query, get_version, get_crlf, get_line_begin,
  get_line, get_double_crlf, get_content, incomplete, Outcome, returned, fault, out_of_fuel,
  add_header, put_header, is_version, is_zero, ends_path, parse_stream,
}
use tsm_proxy.Http.Feed.{
  Move, reads, takes_rest, refuses, accepts, breaks, end_line, step, follow, feed,
}
use tsm_proxy.Http.Rounds.{weight, weight-le, parse_loop-feed}

-- What a call of parseStream writes before its loop.
abbrev pub mark : List ℕ → HttpMessage → HttpMessage
mark x m = record m { source_content = x; is_request = true }

abbrev pub map_outcome : (HttpMessage → HttpMessage) → Outcome → Outcome
map_outcome f (returned s m) = returned s (f m)
map_outcome f fault = fault
map_outcome f out_of_fuel = out_of_fuel

abbrev map_move : (HttpMessage → HttpMessage) → Move → Move
map_move f (reads k m) = reads k (f m)
map_move f takes_rest = takes_rest
map_move f (refuses m) = refuses (f m)
map_move f (accepts m) = accepts (f m)
map_move f breaks = breaks

if-map {ℓ κ} :
    {A : Type ℓ} {B : Type κ} (f : A → B) (b : Bool) (x y : A)
    → (if b then f x else f y) ≡ f (if b then x else y)
if-map f true x y = refl
if-map f false x y = refl

put_header-mark :
    (item : Header) (x : List ℕ) (m : HttpMessage)
    → put_header item (mark x m) ≡ mark x (put_header item m)
unfolding put_header
put_header-mark item x m = refl

add_header-mark :
    (line x : List ℕ) (m : HttpMessage)
    → add_header line (mark x m) ≡ Option.map (mark x) (add_header line m)
unfolding add_header
add_header-mark line x m = each _
  where
    each :
        (o : Option Header)
        → Option.map (λ item. put_header item (mark x m)) o
          ≡ Option.map (mark x) (Option.map (λ item. put_header item m) o)
    each none = refl
    each (some item) = ap some (put_header-mark item x m)

end_line-mark :
    (x : List ℕ) (o : Option HttpMessage)
    → end_line (Option.map (mark x) o) ≡ map_move (mark x) (end_line o)
unfolding end_line
end_line-mark x none = refl
end_line-mark x (some m) = refl

step-mark :
    (s : State) (x : List ℕ) (m : HttpMessage) (c : ℕ)
    → step s (mark x m) c ≡ map_move (mark x) (step s m c)
unfolding step
step-mark idle x m c = if-map (map_move (mark x)) (c == 32) _ _
step-mark get_path x m c = if-map (map_move (mark x)) (ends_path c) _ _
step-mark get_query x m c = if-map (map_move (mark x)) (c == 32) _ _
step-mark get_version x m c =
    ap
      (λ y.
        if c == 13 then y else reads false (record (mark x m) { version = m.version ++ c ∷ [] }))
      (if-map (map_move (mark x)) (is_version m.version)
        (reads false (record m { state = get_crlf })) (refuses m))
    ∙ if-map (map_move (mark x)) (c == 13) _ _
step-mark get_crlf x m c = if-map (map_move (mark x)) (c == 10) _ _
step-mark get_line_begin x m c = if-map (map_move (mark x)) (c == 13) _ _
step-mark get_line x m c =
    ap
      (λ y.
        if c == 13 then y else reads false (record (mark x m) { cur_line = m.cur_line ++ c ∷ [] }))
      (ap end_line (add_header-mark m.cur_line x m) ∙ end_line-mark x (add_header m.cur_line m))
    ∙ if-map (map_move (mark x)) (c == 13) _ _
step-mark get_double_crlf x m c =
    ap (λ y. if c == 10 then y else refuses (mark x m))
      (if-map (map_move (mark x)) (is_zero m.content_length) (accepts m)
        (reads false (record m { state = get_content })))
    ∙ if-map (map_move (mark x)) (c == 10) _ _
step-mark get_content x m c = refl

-- The bytes that were received and the flag play no part in the parsing.
pub feed-mark :
    (k : Bool) (x : List ℕ) (m : HttpMessage) (p : List ℕ)
    → feed k (mark x m) p ≡ map_outcome (mark x) (feed k m p)
unfolding feed
feed-mark true x m [] = refl
feed-mark false x m [] = refl
feed-mark true x m (c ∷ p) = feed-mark false x m p
feed-mark false x m (c ∷ p) =
    ap (follow (λ k m'. feed k m' p) (mark x m) (c ∷ p)) (step-mark m.state x m c)
    ∙ each (λ k m'. feed-mark k x m' p) (step m.state m c)
  where
    each :
        ((k : Bool) (m' : HttpMessage) → feed k (mark x m') p ≡ map_outcome (mark x) (feed k m' p))
        → (mv : Move)
        → follow (λ k m'. feed k m' p) (mark x m) (c ∷ p) (map_move (mark x) mv)
          ≡ map_outcome (mark x) (follow (λ k m'. feed k m' p) m (c ∷ p) mv)
    each ih (reads k m') = ih k m'
    each ih takes_rest = refl
    each ih (refuses m') = refl
    each ih (accepts m') = refl
    each ih breaks = refl

feed-ends : (k : Bool) (m : HttpMessage) (p : List ℕ) → feed k m p ≢ out_of_fuel
unfolding feed
feed-ends true m [] h = cc
feed-ends false m [] h = cc
feed-ends true m (c ∷ p) h = feed-ends false m p h
feed-ends false m (c ∷ p) h = each (λ k m'. feed-ends k m' p) (step m.state m c) h
  where
    each :
        ((k : Bool) (m' : HttpMessage) → feed k m' p ≢ out_of_fuel)
        → (mv : Move) → follow (λ k m'. feed k m' p) m (c ∷ p) mv ≢ out_of_fuel
    each ih (reads k m') e = ih k m' e
    each ih takes_rest e = cc
    each ih (refuses m') e = cc
    each ih (accepts m') e = cc
    each ih breaks e = cc

-- A call of parseStream ends, for any bytes and in any state, with what the byte machine makes of the
-- bytes; the bytes received are kept beside it.
pub parse_stream-feed :
    (code : List ℕ) (m : HttpMessage)
    → (parse_stream code m ≡ map_outcome (mark (m.source_content ++ code)) (feed false m code))
      × (parse_stream code m ≢ out_of_fuel)
unfolding parse_stream
parse_stream-feed code m =
    let same : parse_stream code m ≡ feed false (mark (m.source_content ++ code) m) code =
      parse_loop-feed (2 * length code + 2) (mark (m.source_content ++ code) m) code
        (short m.state) in
    (
      same ∙ feed-mark false (m.source_content ++ code) m code,
      (λ e. feed-ends false (mark (m.source_content ++ code) m) code (sym same ∙ e)),
    )
  where
    short : (s : State) → weight s code < 2 * length code + 2
    short s = omega (arith, weight-le s code)

abbrev pub skips_move : (Bool → HttpMessage → Bool) → Move → Bool
skips_move again (reads k m) = again k m
skips_move again _ = false

-- Whether the byte behind these is skipped.
unfoldable pub skips : Bool → HttpMessage → List ℕ → Bool
skips k m [] = k
skips true m (c ∷ p) = skips false m p
skips false m (c ∷ p) = skips_move (λ k m'. skips k m' p) (step m.state m c)

pub feed-append :
    (k : Bool) (m m' : HttpMessage) (a b : List ℕ)
    → feed k m a ≡ returned incomplete m'
    → feed k m (a ++ b) ≡ feed (skips k m a) m' b
unfolding feed skips
feed-append true m m' [] b h = let e : m ≡ m' = cc in rw e refl
feed-append false m m' [] b h = let e : m ≡ m' = cc in rw e refl
feed-append true m m' (c ∷ a) b h = feed-append false m m' a b h
feed-append false m m' (c ∷ a) b h = each (λ k n. feed-append k n m' a b) (step m.state m c) h
  where
    each :
        ((k : Bool) (n : HttpMessage)
          → feed k n a ≡ returned incomplete m'
          → feed k n (a ++ b) ≡ feed (skips k n a) m' b)
        → (mv : Move) → follow (λ k n. feed k n a) m (c ∷ a) mv ≡ returned incomplete m'
        → follow (λ k n. feed k n (a ++ b)) m (c ∷ (a ++ b)) mv
          ≡ feed (skips_move (λ k n. skips k n a) mv) m' b
    each ih (reads k n) e = ih k n e
    each ih takes_rest e = cc
    each ih (refuses n) e = cc
    each ih (accepts n) e = cc
    each ih breaks e = cc
