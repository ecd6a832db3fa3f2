-- ===== src/Http/Words.antt =====
-- The words of a request, read at once by the byte machine.
use mathlib.Core.List.{append-nil, append_assoc}
use tsm_proxy.Prelude.{
  ℕ, ◌≡◌, refl, ap, ◌∙◌, Bool, true, false, List, [], ◌∷◌, ◌++◌, ◌==◌, if◌then◌else◌,
}
use tsm_proxy.Chars.{before, since}
use tsm_proxy.Chars.Laws.{Avoids, before-append, since-append}
use tsm_proxy.Http.{
  HttpMessage, idle, get_path, get_query, get_version, get_crlf, get_line, ends_path, is_version,
}
use tsm_proxy.Http.Feed.{reads, step, feed, feed-step, feed-word}

pub feed-method :
    (p : List ℕ) (m : HttpMessage)
    → m.state ≡ idle
    → feed false m p
      ≡ feed false
          (record m { method = m.method ++ before (λ x. x == 32) p })
          (since (λ x. x == 32) p)
unfolding step
feed-method =
    feed-word idle (λ x. x == 32) (λ n w. record n { method = n.method ++ w }) (λ n w. refl)
      (λ n. ap (λ x. record n { method = x }) (append-nil n.method))
      (λ n x w. ap (λ y. record n { method = y }) (append_assoc n.method (x ∷ []) w))
      (λ n x h. rw h refl)

pub feed-path :
    (p : List ℕ) (m : HttpMessage)
    → m.state ≡ get_path
    → feed false m p
      ≡ feed false (record m { path = m.path ++ before ends_path p }) (since ends_path p)
unfolding step
feed-path =
    feed-word get_path ends_path (λ n w. record n { path = n.path ++ w }) (λ n w. refl)
      (λ n. ap (λ x. record n { path = x }) (append-nil n.path))
      (λ n x w. ap (λ y. record n { path = y }) (append_assoc n.path (x ∷ []) w))
      (λ n x h. rw h refl)

pub feed-query :
    (p : List ℕ) (m : HttpMessage)
    → m.state ≡ get_query
    → feed false m p
      ≡ feed false
          (record m { query = m.query ++ before (λ x. x == 32) p })
          (since (λ x. x == 32) p)
unfolding step
feed-query =
    feed-word get_query (λ x. x == 32) (λ n w. record n { query = n.query ++ w }) (λ n w. refl)
      (λ n. ap (λ x. record n { query = x }) (append-nil n.query))
      (λ n x w. ap (λ y. record n { query = y }) (append_assoc n.query (x ∷ []) w))
      (λ n x h. rw h refl)

pub feed-version :
    (p : List ℕ) (m : HttpMessage)
    → m.state ≡ get_version
    → feed false m p
      ≡ feed false
          (record m { version = m.version ++ before (λ x. x == 13) p })
          (since (λ x. x == 13) p)
unfolding step
feed-version =
    feed-word get_version (λ x. x == 13) (λ n w. record n { version = n.version ++ w })
      (λ n w. refl) (λ n. ap (λ x. record n { version = x }) (append-nil n.version))
      (λ n x w. ap (λ y. record n { version = y }) (append_assoc n.version (x ∷ []) w))
      (λ n x h. rw h refl)

pub feed-line :
    (p : List ℕ) (m : HttpMessage)
    → m.state ≡ get_line
    → feed false m p
      ≡ feed false
          (record m { cur_line = m.cur_line ++ before (λ x. x == 13) p })
          (since (λ x. x == 13) p)
unfolding step
feed-line =
    feed-word get_line (λ x. x == 13) (λ n w. record n { cur_line = n.cur_line ++ w }) (λ n w. refl)
      (λ n. ap (λ x. record n { cur_line = x }) (append-nil n.cur_line))
      (λ n x w. ap (λ y. record n { cur_line = y }) (append_assoc n.cur_line (x ∷ []) w))
      (λ n x h. rw h refl)

-- A word with the character behind it that ends it.
module _ (stop : ℕ → Bool) (w r : List ℕ) (c : ℕ) (ends : stop c ≡ true) (n : Avoids stop w) where
  pub cut {ℓ} :
      {A : Type ℓ} (f : List ℕ → List ℕ → A)
      → f (before stop (w ++ c ∷ r)) (since stop (w ++ c ∷ r)) ≡ f w (c ∷ r)
  cut f =
      ap (λ x. f x (since stop (w ++ c ∷ r))) (before-append stop c ends w r n)
      ∙ ap (f w) (since-append stop c ends w r n)

pub read_method :
    (w r : List ℕ) (m : HttpMessage)
    → m.state ≡ idle
    → Avoids (λ x. x == 32) w
    → feed false m (w ++ 32 ∷ r)
      ≡ feed true (record m { method = m.method ++ w; state = get_path }) r
unfolding step
read_method w r m e n =
    feed-method (w ++ 32 ∷ r) m e
    ∙ cut (λ x. x == 32) w r 32 refl n (λ x y. feed false (record m { method = m.method ++ x }) y)
    ∙ feed-step idle (record m { method = m.method ++ w }) 32 r
        (reads true (record m { method = m.method ++ w; state = get_path })) e refl

pub read_path :
    (w r : List ℕ) (c : ℕ) (m : HttpMessage)
    → m.state ≡ get_path
    → ends_path c ≡ true
    → Avoids ends_path w
    → feed false m (w ++ c ∷ r)
      ≡ feed false
          (record m { path = m.path ++ w; state = if c == 63 then get_query else get_version })
          r
unfolding step
read_path w r c m e h n =
    feed-path (w ++ c ∷ r) m e
    ∙ cut ends_path w r c h n (λ x y. feed false (record m { path = m.path ++ x }) y)
    ∙ feed-step get_path (record m { path = m.path ++ w }) c r
        (reads false
          (record m { path = m.path ++ w; state = if c == 63 then get_query else get_version }))
        e (rw h refl)

pub read_query :
    (w r : List ℕ) (m : HttpMessage)
    → m.state ≡ get_query
    → Avoids (λ x. x == 32) w
    → feed false m (w ++ 32 ∷ r)
      ≡ feed false (record m { query = m.query ++ w; state = get_version }) r
unfolding step
read_query w r m e n =
    feed-query (w ++ 32 ∷ r) m e
    ∙ cut (λ x. x == 32) w r 32 refl n (λ x y. feed false (record m { query = m.query ++ x }) y)
    ∙ feed-step get_query (record m { query = m.query ++ w }) 32 r
        (reads false (record m { query = m.query ++ w; state = get_version })) e refl

pub read_version :
    (w r : List ℕ) (m : HttpMessage)
    → m.state ≡ get_version
    → Avoids (λ x. x == 13) w
    → is_version (m.version ++ w) ≡ true
    → feed false m (w ++ 13 ∷ r)
      ≡ feed false (record m { version = m.version ++ w; state = get_crlf }) r
unfolding step
read_version w r m e n v =
    feed-version (w ++ 13 ∷ r) m e
    ∙ cut (λ x. x == 13) w r 13 refl n (λ x y. feed false (record m { version = m.version ++ x }) y)
    ∙ feed-step get_version (record m { version = m.version ++ w }) 13 r
        (reads false (record m { version = m.version ++ w; state = get_crlf })) e (rw v refl)
