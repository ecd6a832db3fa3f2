-- ===== src/Http/Feed.antt =====
-- The parser as a machine that reads one byte at a time.
use tsm_proxy.Prelude.{
  ℕ, ◌≡◌, refl, ap, ◌∙◌, sym, inl, inr, Bool, true, false, Option, none, some, List, [], ◌∷◌, ◌++◌,
  ◌==◌, if◌then◌else◌, drop, Bool-cases,
}
use tsm_proxy.Chars.{before, since}
use tsm_proxy.Http.{
  HttpMessage, State, idle, get_path, get_query, get_version, get_crlf, get_line_begin, get_line,
  get_double_crlf, get_content, failed, incomplete, complete, Outcome, returned, fault, add_header,
  ends_path, is_version, is_zero,
}

-- What one byte does: read on, with the flag that the next byte is skipped; take all that is left as
-- the content; or return.
pub data Move : Type 0 where
  reads : Bool → HttpMessage → Move
  takes_rest : Move
  refuses accepts : HttpMessage → Move
  breaks : Move

unfoldable pub end_line : Option HttpMessage → Move
end_line none = breaks
end_line (some m) = reads false (record m { state = get_crlf })

unfoldable pub step : State → HttpMessage → ℕ → Move
unfolding end_line
step idle m c =
    if c == 32
    then reads true (record m { state = get_path })
    else reads false (record m { method = m.method ++ c ∷ [] })
step get_path m c =
    if ends_path c
    then reads false (record m { state = if c == 63 then get_query else get_version })
    else reads false (record m { path = m.path ++ c ∷ [] })
step get_query m c =
    if c == 32
    then reads false (record m { state = get_version })
    else reads false (record m { query = m.query ++ c ∷ [] })
step get_version m c =
    if c == 13
    then (if is_version m.version then reads false (record m { state = get_crlf }) else refuses m)
    else reads false (record m { version = m.version ++ c ∷ [] })
step get_crlf m c =
    if c == 10 then reads false (record m { cur_line = []; state = get_line_begin }) else refuses m
step get_line_begin m c =
    if c == 13
    then reads false (record m { state = get_double_crlf })
    else reads false (record m { cur_line = m.cur_line ++ c ∷ []; state = get_line })
step get_line m c =
    if c == 13
    then end_line (add_header m.cur_line m)
    else reads false (record m { cur_line = m.cur_line ++ c ∷ [] })
step get_double_crlf m c =
    if c == 10
    then (if is_zero m.content_length
        then accepts m
        else reads false (record m { state = get_content }))
    else refuses m
step get_content m c = takes_rest

abbrev pub follow : (Bool → HttpMessage → Outcome) → HttpMessage → List ℕ → Move → Outcome
follow again m p (reads skip m') = again skip m'
follow again m p takes_rest = returned complete (record m { content = m.content ++ p })
follow again m p (refuses m') = returned failed m'
follow again m p (accepts m') = returned complete m'
follow again m p breaks = fault

-- The bytes one after the other; the flag tells that the first one is skipped.
unfoldable pub feed : Bool → HttpMessage → List ℕ → Outcome
unfolding step
feed skip m [] = returned incomplete m
feed true m (c ∷ rest) = feed false m rest
feed false m (c ∷ rest) = follow (λ skip m'. feed skip m' rest) m (c ∷ rest) (step m.state m c)

pub feed-drop : (m : HttpMessage) (p : List ℕ) → feed true m p ≡ feed false m (drop 1 p)
unfolding feed
feed-drop m [] = refl
feed-drop m (c ∷ rest) = refl

-- A state that collects a word byte by byte reads all of it.
module _ (s : State) (stop : ℕ → Bool) (word : HttpMessage → List ℕ → HttpMessage)
    (keep : (m : HttpMessage) (w : List ℕ) → (word m w).state ≡ m.state)
    (nothing : (m : HttpMessage) → word m [] ≡ m)
    (more : (m : HttpMessage) (c : ℕ) (w : List ℕ) → word (word m (c ∷ [])) w ≡ word m (c ∷ w))
    (one : (m : HttpMessage) (c : ℕ)
      → stop c ≡ false
      → step s m c ≡ reads false (word m (c ∷ []))) where
  pub feed-word :
      (p : List ℕ) (m : HttpMessage)
      → m.state ≡ s
      → feed false m p ≡ feed false (word m (before stop p)) (since stop p)
  unfolding feed before since
  feed-word [] m e = ap (λ m'. feed false m' []) (sym (nothing m))
  feed-word (c ∷ rest) m e = elim (Bool-cases (stop c)) [
    | inl h ↦ rw (h, nothing m) refl
    | inr h ↦
        let moved : step m.state m c ≡ reads false (word m (c ∷ [])) =
          ap (λ t. step t m c) e ∙ one m c h in
        ap (follow (λ skip m'. feed skip m' rest) m (c ∷ rest)) moved
        ∙ feed-word rest (word m (c ∷ [])) (keep m (c ∷ []) ∙ e)
        ∙ rw (h, more m c (before stop rest)) refl
  ]

-- What a byte does to the message, where its move is known.
pub feed-step :
    (s : State) (m : HttpMessage) (c : ℕ) (rest : List ℕ) (mv : Move)
    → m.state ≡ s
    → step s m c ≡ mv
    → feed false m (c ∷ rest) ≡ follow (λ skip m'. feed skip m' rest) m (c ∷ rest) mv
unfolding feed
feed-step s m c rest mv e h =
    ap (follow (λ skip m'. feed skip m' rest) m (c ∷ rest)) (ap (λ t. step t m c) e ∙ h)
