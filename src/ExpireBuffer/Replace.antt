-- ===== src/ExpireBuffer/Replace.antt =====
-- push on a full buffer that replaces its oldest record.
use tsm_proxy.Prelude.{
  ℕ, ◌+◌, ◌-◌, ◌<◌, ◌≡◌, refl, ap, ◌∙◌, sym, inl, inr, true, ◌&&◌, none, some, List, [], ◌∷◌, ◌++◌,
  arith, ◌==◌, ltb, if◌then◌else◌, length, length-append, Bool-cases, eq_of_==, subst,
}
use tsm_proxy.ExpireBuffer.{Entry, ExpireBuffer, lookup, find, pop_front, append, push}
use tsm_proxy.ExpireBuffer.Keys.{
  IsValid, Distinct, lookup_last, lookup_tail, append-Distinct, find_lem,
}

module _ {ℓ} {V : Type ℓ} where
  -- The buffer without its first record and with a new one at its end.
  abbrev replaced : (now key : ℕ) → V → List (Entry V) → ExpireBuffer V → ExpireBuffer V
  replaced now key v es b = record b {
    entries = es ++ record { key = key; value = v; refresh_time = now } ∷ [];
    count = b.count + 1 - 1;
  }

  push_full :
      (now key : ℕ) (v : V) (x : Entry V) (es : List (Entry V)) (b : ExpireBuffer V)
      → b.entries ≡ x ∷ es
      → lookup key b.entries ≡ none
      → b.destroy_old ≡ true
      → 0 < b.count
      → b.count ≡ b.count_max
      → push now key v b ≡ (replaced now key v es b, 2)
  unfolding push append pop_front
  push_full now key v x es b e absent d some_left c =
      let full : (ltb 0 b.count_max && ltb b.count_max (b.count + 1)) ≡ true = ground arith in
      let more : ltb 0 (b.count + 1) ≡ true = ground arith in rw (absent, d, full, more, e) refl

  replaced-IsValid :
      (now key : ℕ) (v : V) (x : Entry V) (es : List (Entry V)) (b : ExpireBuffer V)
      → IsValid b
      → b.entries ≡ x ∷ es
      → lookup key es ≡ none
      → IsValid (replaced now key v es b)
  replaced-IsValid now key v x es b w e absent = record {
    counted =
        let long : b.count ≡ length es + 1 = w.counted ∙ ap length e ∙ omega arith in
        omega (
          arith,
          long,
          length-append es (record { key = key; value = v; refresh_time = now } ∷ []),
        );
    distinct =
        append-Distinct es (record { key = key; value = v; refresh_time = now })
          (subst Distinct e w.distinct).1 absent;
    bounded = λ p. omega (arith, w.bounded p);
  }

  lookup_rest :
      (j : ℕ) (x : Entry V) (es : List (Entry V))
      → Distinct (x ∷ es)
      → lookup j es ≡ (if j == x.key then none else lookup j (x ∷ es))
  unfolding lookup
  lookup_rest j x es d = elim (Bool-cases (j == x.key)) [
    | inl e ↦ rw (e, eq_of_== j x.key e) d.0
    | inr e ↦ rw e refl
  ]

  -- On a full buffer that may replace, a push of a new key returns 2: find answers the new value at
  -- that key, nothing at the key of the oldest record, and what it did before at any other, and the
  -- buffer stays well formed.
  pub find-push_full :
      (j now key : ℕ) (v : V) (x : Entry V) (es : List (Entry V)) (b : ExpireBuffer V)
      → IsValid b
      → b.entries ≡ x ∷ es
      → find key b ≡ none
      → b.destroy_old ≡ true
      → b.count ≡ b.count_max
      → ((push now key v b).1 ≡ 2)
        × (find j (push now key v b).0
            ≡ (if j == key then some v else (if j == x.key then none else find j b)))
        × IsValid (push now key v b).0
  find-push_full j now key v x es b w e absent d c =
      let none_at : lookup key b.entries ≡ none = sym (find_lem key b w) ∙ absent in
      let none_after = (lookup_tail key x es (sym (ap (lookup key) e) ∙ none_at)).1 in
      let valid = replaced-IsValid now key v x es b w e none_after in
      let old : lookup j es ≡ (if j == x.key then none else find j b) =
        lookup_rest j x es (subst Distinct e w.distinct)
        ∙ ap (λ o. if j == x.key then none else o) (sym (ap (lookup j) e) ∙ sym (find_lem j b w)) in
      let long : 0 < b.count = omega (arith, w.counted ∙ ap length e) in
      rw (push_full now key v x es b e none_at d long c) (
        refl,
        find_lem j (replaced now key v es b) valid
            ∙ lookup_last j es (record { key = key; value = v; refresh_time = now }) none_after
            ∙ ap (λ o. if j == key then some v else o) old,
        valid,
      )
