-- ===== src/ExpireBuffer/Keys.antt =====
-- The buffer as a map: what find answers after push, pop and update, and what always holds.
use tsm_proxy.Prelude.{
  ℕ, ◌+◌, ◌≤◌, ◌<◌, ◌≡◌, refl, ap, ◌∙◌, sym, inl, inr, ◌⊎◌, Bool, true, false, ◌&&◌, not, Option,
  none, some, List, [], ◌∷◌, ◌++◌, arith, ◌==◌, leb, ltb, if◌then◌else◌, length, length-append,
  Bool-cases, Option-cases, eq_of_==, ==_sym,
}
use tsm_proxy.ExpireBuffer.{
  Entry, ExpireBuffer, lookup, without_key, is_some, find, take_out, pop, append, push,
}

module _ {ℓ} {V : Type ℓ} where
  abbrev pub Distinct : List (Entry V) → Type ℓ
  Distinct [] = Unit {ℓ}
  Distinct (e ∷ es) = (lookup e.key es ≡ none) × Distinct es

  -- m_count is the number of records, no key stands twice, and there are no more records than
  -- m_count_max, if that is not 0.
  pub record IsValid (b : ExpireBuffer V) : Type ℓ where
    pub counted : b.count ≡ length b.entries
    pub distinct : Distinct b.entries
    pub bounded : 0 < b.count_max → b.count ≤ b.count_max

  pub lookup_last :
      (j : ℕ) (es : List (Entry V)) (e : Entry V)
      → lookup e.key es ≡ none
      → lookup j (es ++ e ∷ []) ≡ (if j == e.key then some e.value else lookup j es)
  unfolding lookup
  lookup_last j [] e h = refl
  lookup_last j (x ∷ es) e h = ground (arith, lookup_last j es e)

  pub lookup_tail :
      (j : ℕ) (x : Entry V) (es : List (Entry V))
      → lookup j (x ∷ es) ≡ none
      → ((j == x.key) ≡ false) × (lookup j es ≡ none)
  unfolding lookup
  lookup_tail j x es h = elim (Bool-cases (j == x.key)) [
    | inl e ↦ absurd (no (rw e at h))
    | inr e ↦ (e, rw e at h)
  ]
    where
      no : ◌≡◌ {A = Option V} (some x.value) none → ⊥
      no p = cc

  pub append-Distinct :
      (es : List (Entry V)) (e : Entry V)
      → Distinct es
      → lookup e.key es ≡ none
      → Distinct (es ++ e ∷ [])
  append-Distinct [] e d h = (h, tt)
  append-Distinct (x ∷ es) e d h =
      let (other, absent) = lookup_tail e.key x es h in
      (
        lookup_last x.key es e absent ∙ rw (==_sym x.key e.key other) d.0,
        append-Distinct es e d.1 absent,
      )

  pub lookup-without :
      (j k : ℕ) (es : List (Entry V))
      → Distinct es
      → lookup j (without_key k es) ≡ (if j == k then none else lookup j es)
  unfolding lookup without_key
  lookup-without j k [] d = elim (Bool-cases (j == k)) [ inl e ↦ rw e refl | inr e ↦ rw e refl ]
  lookup-without j k (x ∷ es) d = elim (Bool-cases (k == x.key)) [
    | inl e ↦ elim (Bool-cases (j == k)) [
      | inl f ↦ rw (e, f, eq_of_== j k f, eq_of_== k x.key e) d.0
      | inr f ↦ let other : (j == x.key) ≡ false = ground arith in rw (e, f, other) refl
    ]
    | inr e ↦ elim (Bool-cases (j == k)) [
      | inl f ↦
          let other : (j == x.key) ≡ false = ground arith in
          rw (e, other, lookup-without j k es d.1, f) refl
      | inr f ↦ rw (e, lookup-without j k es d.1, f) refl
    ]
  ]

  pub without-Distinct : (k : ℕ) (es : List (Entry V)) → Distinct es → Distinct (without_key k es)
  unfolding without_key
  without-Distinct k [] d = tt
  without-Distinct k (x ∷ es) d = elim (Bool-cases (k == x.key)) [
    | inl e ↦ rw e d.1
    | inr e ↦
        rw e (lookup-without x.key k es d.1 ∙ fewer (x.key == k) es d.0, without-Distinct k es d.1)
  ]
    where
      fewer :
          (b : Bool) (ys : List (Entry V))
          → lookup x.key ys ≡ none
          → (if b then none else lookup x.key ys) ≡ none
      fewer true ys h = refl
      fewer false ys h = h

  pub length-without :
      (k : ℕ) (es : List (Entry V)) (v : V)
      → lookup k es ≡ some v
      → length (without_key k es) + 1 ≡ length es
  unfolding lookup without_key
  length-without k [] v h = cc
  length-without k (x ∷ es) v h = elim (Bool-cases (k == x.key)) [
    | inl e ↦ rw e (omega arith)
    | inr e ↦ rw e (omega (arith, length-without k es v (rw e at h)))
  ]

  pub find_lem : (k : ℕ) (b : ExpireBuffer V) → IsValid b → find k b ≡ lookup k b.entries
  unfolding find lookup
  find_lem k b w = elim (Bool-cases (b.count == 0)) [
    | inl e ↦ rw e (sym (empty b.entries (omega (arith, w.counted, eq_of_== b.count 0 e))))
    | inr e ↦ rw e refl
  ]
    where
      empty : (es : List (Entry V)) → length es ≡ 0 → lookup k es ≡ none
      empty [] h = refl
      empty (x ∷ es) h = absurd (omega arith)

  popped : (k : ℕ) (b : ExpireBuffer V) (o : Option V) → find k b ≡ o → pop k b ≡ take_out k b o
  unfolding pop
  popped k b o e = ap (take_out k b) e

  take_out-IsValid :
      (k : ℕ) (b : ExpireBuffer V) (v : V)
      → IsValid b
      → lookup k b.entries ≡ some v
      → IsValid (take_out k b (some v)).0
  unfolding take_out
  take_out-IsValid k b v w e = record {
    counted = omega (arith, w.counted, length-without k b.entries v e);
    distinct = without-Distinct k b.entries w.distinct;
    bounded = λ h. omega (arith, w.bounded h);
  }

  -- pop takes the record of its key out, and returns the value that find would return; the other
  -- keys keep theirs.
  pub find-pop :
      (j k : ℕ) (b : ExpireBuffer V)
      → IsValid b
      → (find j (pop k b).0 ≡ (if j == k then none else find j b))
        × ((pop k b).1 ≡ find k b)
        × IsValid (pop k b).0
  unfolding take_out
  find-pop j k b w = elim (Option-cases (find k b)) [
    | inl e ↦
        rw (popped k b none e, e)
          (
            elim (Bool-cases (j == k)) [
              | inl f ↦ rw (f, eq_of_== j k f, e) refl
              | inr f ↦ rw f refl
            ],
            refl,
            w,
          )
    | inr (v, e) ↦
        let here : lookup k b.entries ≡ some v = sym (find_lem k b w) ∙ e in
        let valid = take_out-IsValid k b v w here in
        rw (popped k b (some v) e, e)
          (
            find_lem j (take_out k b (some v)).0 valid
                ∙ lookup-without j k b.entries w.distinct
                ∙ ap (λ o. if j == k then none else o) (sym (find_lem j b w)),
            refl,
            valid,
          )
  ]

  append-IsValid :
      (now key : ℕ) (v : V) (b : ExpireBuffer V)
      → IsValid b
      → lookup key b.entries ≡ none
      → (0 < b.count_max → b.count < b.count_max)
      → IsValid (append now key v b)
  unfolding append
  append-IsValid now key v b w e h = record {
    counted = omega (
      arith,
      w.counted,
      length-append b.entries (record { key = key; value = v; refresh_time = now } ∷ []),
    );
    distinct =
        append-Distinct b.entries (record { key = key; value = v; refresh_time = now }) w.distinct
          e;
    bounded = λ p. omega (arith, h p);
  }

  -- The three results of push.
  abbrev full : ExpireBuffer V → Bool
  full b = ltb 0 b.count_max && ltb b.count_max (b.count + 1)

  lookup-append :
      (j now key : ℕ) (v : V) (b : ExpireBuffer V)
      → lookup key b.entries ≡ none
      → lookup j (append now key v b).entries ≡ (if j == key then some v else lookup j b.entries)
  unfolding append
  lookup-append j now key v b h =
      lookup_last j b.entries (record { key = key; value = v; refresh_time = now }) h

  -- A push that adds a record without taking one away has find answer the new value at its key and
  -- what it did before at any other; a push that adds none leaves the buffer as it is.
  pub find-push :
      (j now key : ℕ) (v : V) (b : ExpireBuffer V)
      → IsValid b
      → ((push now key v b).1 ≡ 1
          × (find j (push now key v b).0 ≡ (if j == key then some v else find j b))
          × IsValid (push now key v b).0)
        ⊎ (((push now key v b).1 ≡ 0 × ((push now key v b).0 ≡ b)) ⊎ ((push now key v b).1 ≡ 2))
  unfolding push
  find-push j now key v b w = elim (Bool-cases (is_some (lookup key b.entries))) [
    | inl e ↦ rw (e, push) (inr (inl (refl, refl)))
    | inr e ↦
        elim (Bool-cases (not b.destroy_old && (ltb 0 b.count_max && leb b.count_max b.count))) [
          | inl f ↦ rw (e, f, push) (inr (inl (refl, refl)))
          | inr f ↦ elim (Bool-cases (full b)) [
            | inl g ↦ rw (e, f, g, push) (inr (inr refl))
            | inr g ↦
                let absent = none_of (lookup key b.entries) e in
                let valid = append-IsValid now key v b w absent (λ p. ground arith) in
                rw (e, f, g, push)
                  (inl (
                    refl,
                    find_lem j (append now key v b) valid
                        ∙ lookup-append j now key v b absent
                        ∙ ap (λ o. if j == key then some v else o) (sym (find_lem j b w)),
                    valid,
                  ))
          ]
        ]
  ]
    where
      none_of : (o : Option V) → is_some o ≡ false → o ≡ none
      none_of none h = refl
      none_of (some x) h = cc
