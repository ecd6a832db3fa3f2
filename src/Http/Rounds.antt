-- ===== src/Http/Rounds.antt =====
-- parse_loop reads what the bytes one by one do.
use tsm_proxy.Prelude.{
  ℕ, zero, suc, ◌+◌, ◌*◌, ◌<◌, ◌≤◌, ◌≡◌, refl, ◌∙◌, sym, inl, inr, Bool, true, false, List, [], ◌∷◌,
  ◌++◌, arith, ◌==◌, if◌then◌else◌, length, drop, Bool-cases, Option-cases,
}
use tsm_proxy.Chars.Laws.{length-since, since-cons}
use tsm_proxy.Http.{
  HttpMessage, State, idle, get_path, get_query, get_version, get_crlf, get_line_begin, get_line,
  get_double_crlf, get_content, Round, Outcome, add_header, ends_path, is_version, is_zero,
  after_method, after_path, after_query, after_version, next_line, after_line, round, proceed,
  parse_loop,
}
use tsm_proxy.Http.Feed.{
  reads, takes_rest, refuses, accepts, breaks, end_line, step, feed, feed-drop, feed-step,
}
use tsm_proxy.Http.Words.{feed-method, feed-path, feed-query, feed-version, feed-line}

-- The rounds that the bytes may take.
abbrev pub weight : State → List ℕ → ℕ
weight get_line_begin p = 2 * length p + 1
weight _ p = 2 * length p

pub weight-le : (s : State) (p : List ℕ) → weight s p ≤ 2 * length p + 1
weight-le idle p = omega arith
weight-le get_path p = omega arith
weight-le get_query p = omega arith
weight-le get_version p = omega arith
weight-le get_crlf p = omega arith
weight-le get_line_begin p = omega arith
weight-le get_line p = omega arith
weight-le get_double_crlf p = omega arith
weight-le get_content p = omega arith

abbrev Starts : (ℕ → Bool) → List ℕ → Type 0
Starts stop q = (c : ℕ) (cs : List ℕ) → q ≡ c ∷ cs → stop c ≡ true

length-drop_one : (p : List ℕ) → length (drop 1 p) ≤ length p
length-drop_one [] = omega arith
length-drop_one (c ∷ p) = omega arith

module _ (fuel : ℕ)
    (again : (m : HttpMessage) (p : List ℕ)
      → weight m.state p < fuel
      → parse_loop fuel m p ≡ feed false m p) where
  -- The loop, after the rounds that the fuel is for.
  abbrev go : Round → Outcome
  go = proceed (λ m p. parse_loop fuel m p)

  after_method-feed :
      (m : HttpMessage) (q : List ℕ)
      → m.state ≡ idle
      → Starts (λ x. x == 32) q
      → 2 * length q < suc fuel
      → go (after_method m q) ≡ feed false m q
  unfolding after_method feed step
  after_method-feed m [] e h b = refl
  after_method-feed m (c ∷ r) e h b =
      again (record m { state = get_path }) (drop 1 r) (omega (arith, length-drop_one r))
      ∙ sym (feed-drop (record m { state = get_path }) r)
      ∙ sym (
          feed-step idle m c r (reads true (record m { state = get_path })) e
            (rw (h c r refl) refl))

  after_path-feed :
      (m : HttpMessage) (q : List ℕ)
      → m.state ≡ get_path
      → Starts ends_path q
      → 2 * length q < suc fuel
      → go (after_path m q) ≡ feed false m q
  unfolding after_path feed step
  after_path-feed m [] e h b = refl
  after_path-feed m (c ∷ r) e h b =
      let m' : HttpMessage = record m { state = if c == 63 then get_query else get_version } in
      again m' r (omega (arith, weight-le m'.state r))
      ∙ sym (feed-step get_path m c r (reads false m') e (rw (h c r refl) refl))

  after_query-feed :
      (m : HttpMessage) (q : List ℕ)
      → m.state ≡ get_query
      → Starts (λ x. x == 32) q
      → 2 * length q < suc fuel
      → go (after_query m q) ≡ feed false m q
  unfolding after_query feed step
  after_query-feed m [] e h b = refl
  after_query-feed m (c ∷ r) e h b =
      again (record m { state = get_version }) r (omega arith)
      ∙ sym (
          feed-step get_query m c r (reads false (record m { state = get_version })) e
            (rw (h c r refl) refl))

  after_version-feed :
      (m : HttpMessage) (q : List ℕ)
      → m.state ≡ get_version
      → Starts (λ x. x == 13) q
      → 2 * length q < suc fuel
      → go (after_version m q) ≡ feed false m q
  unfolding after_version feed step
  after_version-feed m [] e h b = refl
  after_version-feed m (c ∷ r) e h b = elim (Bool-cases (is_version m.version)) [
    | inl v ↦ rw v (
        again (record m { state = get_crlf }) r (omega arith)
        ∙ sym (
            feed-step get_version m c r (reads false (record m { state = get_crlf })) e
              (rw (h c r refl, v) refl)))
    | inr v ↦ rw v (sym (feed-step get_version m c r (refuses m) e (rw (h c r refl, v) refl)))
  ]

  after_line-feed :
      (m : HttpMessage) (q : List ℕ)
      → m.state ≡ get_line
      → Starts (λ x. x == 13) q
      → 2 * length q < suc fuel
      → go (after_line m q) ≡ feed false m q
  unfolding after_line next_line feed step end_line
  after_line-feed m [] e h b = refl
  after_line-feed m (c ∷ r) e h b = elim (Option-cases (add_header m.cur_line m)) [
    | inl v ↦ rw v (sym (feed-step get_line m c r breaks e (rw (h c r refl, v) refl)))
    | inr (m', v) ↦ rw v (
        again (record m' { state = get_crlf }) r (omega arith)
        ∙ sym (
            feed-step get_line m c r (reads false (record m' { state = get_crlf })) e
              (rw (h c r refl, v) refl)))
  ]

  -- A round and what follows it read what the bytes one by one do.
  round-feed :
      (s : State) (m : HttpMessage) (c : ℕ) (rest : List ℕ)
      → m.state ≡ s
      → weight s (c ∷ rest) < suc fuel
      → go (round s m c rest) ≡ feed false m (c ∷ rest)
  unfolding round step feed
  round-feed idle m c rest e b =
      after_method-feed _ _ e (since-cons (λ x. x == 32) (c ∷ rest))
        (omega (arith, length-since (λ x. x == 32) (c ∷ rest)))
      ∙ sym (feed-method (c ∷ rest) m e)
  round-feed get_path m c rest e b =
      after_path-feed _ _ e (since-cons ends_path (c ∷ rest))
        (omega (arith, length-since ends_path (c ∷ rest)))
      ∙ sym (feed-path (c ∷ rest) m e)
  round-feed get_query m c rest e b =
      after_query-feed _ _ e (since-cons (λ x. x == 32) (c ∷ rest))
        (omega (arith, length-since (λ x. x == 32) (c ∷ rest)))
      ∙ sym (feed-query (c ∷ rest) m e)
  round-feed get_version m c rest e b =
      after_version-feed _ _ e (since-cons (λ x. x == 13) (c ∷ rest))
        (omega (arith, length-since (λ x. x == 13) (c ∷ rest)))
      ∙ sym (feed-version (c ∷ rest) m e)
  round-feed get_crlf m c rest e b = elim (Bool-cases (c == 10)) [
    | inl h ↦ rw h (
        again (record m { cur_line = []; state = get_line_begin }) rest (omega arith)
        ∙ sym (
            feed-step get_crlf m c rest
              (reads false (record m { cur_line = []; state = get_line_begin })) e (rw h refl)))
    | inr h ↦ rw h (sym (feed-step get_crlf m c rest (refuses m) e (rw h refl)))
  ]
  round-feed get_line_begin m c rest e b = elim (Bool-cases (c == 13)) [
    | inl h ↦ rw h (
        again (record m { state = get_double_crlf }) rest (omega arith)
        ∙ sym (
            feed-step get_line_begin m c rest (reads false (record m { state = get_double_crlf })) e
              (rw h refl)))
    | inr h ↦ rw h (
        again (record m { state = get_line }) (c ∷ rest) (omega arith)
        ∙ feed-step get_line (record m { state = get_line }) c rest
            (reads false (record m { cur_line = m.cur_line ++ c ∷ []; state = get_line })) refl
            (rw h refl)
        ∙ sym (
            feed-step get_line_begin m c rest
              (reads false (record m { cur_line = m.cur_line ++ c ∷ []; state = get_line })) e
              (rw h refl)))
  ]
  round-feed get_line m c rest e b =
      after_line-feed _ _ e (since-cons (λ x. x == 13) (c ∷ rest))
        (omega (arith, length-since (λ x. x == 13) (c ∷ rest)))
      ∙ sym (feed-line (c ∷ rest) m e)
  round-feed get_double_crlf m c rest e b = elim (Bool-cases (c == 10)) [
    | inl h ↦ elim (Bool-cases (is_zero m.content_length)) [
      | inl z ↦ rw (h, z) (sym (feed-step get_double_crlf m c rest (accepts m) e (rw (h, z) refl)))
      | inr z ↦
          rw (h, z)
            (again (record m { state = get_content }) rest (omega arith)
              ∙ sym (
                  feed-step get_double_crlf m c rest
                    (reads false (record m { state = get_content })) e (rw (h, z) refl)))
    ]
    | inr h ↦ rw h (sym (feed-step get_double_crlf m c rest (refuses m) e (rw h refl)))
  ]
  round-feed get_content m c rest e b = sym (feed-step get_content m c rest takes_rest e refl)

pub parse_loop-feed :
    (fuel : ℕ) (m : HttpMessage) (p : List ℕ)
    → weight m.state p < fuel
    → parse_loop fuel m p ≡ feed false m p
unfolding parse_loop feed
parse_loop-feed zero m p b = absurd (omega arith)
parse_loop-feed (suc fuel) m [] b = refl
parse_loop-feed (suc fuel) m (c ∷ rest) b =
    round-feed fuel (parse_loop-feed fuel) m.state m c rest refl b
