-- ===== src/HashTable/Traversal.antt =====
-- A traversal by reset and getNext reads every entry once, in the order of the table.
use tsm_proxy.Prelude.{
  ℕ, zero, suc, ◌+◌, ◌<◌, ◌≡◌, refl, sym, ap, ◌∙◌, ◌⊎◌, inl, inr, Option, none, some, List, [], ◌∷◌,
  ◌++◌, arith, ◌==◌, if◌then◌else◌, length, get_or, drop, Bool-cases, eq_of_==, ==_refl,
}
use tsm_proxy.HashTable.Chains.{Chain, chain_get, Distinct}
use tsm_proxy.HashTable.Placed.{Placed, entries}
use tsm_proxy.HashTable.{
  HashTable, head_key, chain_next, first_chain, point_at, reset, search_next_entry, get_next,
}

module _ {ℓ} {V : Type ℓ} where
  -- `while (t.getNext(key, value))`, and the pairs that it reads.
  unfoldable pub visit : ℕ → HashTable V → Chain V
  visit zero t = []
  visit (suc fuel) t = elim (get_next t).1 [ none ↦ [] | some e ↦ e ∷ visit fuel (get_next t).0 ]

  suffix : ℕ → Chain V → Chain V
  suffix k [] = []
  suffix k ((j, v) ∷ c) = if k == j then (j, v) ∷ c else suffix k c

  suffix-get :
      (k : ℕ) (c : Chain V) (v : V) (r : Chain V)
      → suffix k c ≡ (k, v) ∷ r
      → (chain_get k c ≡ some v) × (chain_next k c ≡ head_key r)
  unfolding suffix chain_get chain_next
  suffix-get k [] v r h = cc
  suffix-get k ((j, w) ∷ c) v r h = ground (arith, suffix-get k c v r)

  -- The key of an inner entry occurs in no earlier one.
  suffix-absent :
      (k j : ℕ) (c : Chain V) (v w : V) (r : Chain V)
      → suffix k c ≡ (k, v) ∷ (j, w) ∷ r
      → chain_get j c ≡ none
      → ⊥
  unfolding suffix chain_get
  suffix-absent k j [] v w r h a = cc
  suffix-absent k j ((i, x) ∷ c) v w r h a = ground (arith, suffix-absent k j c v w r, ==_refl j)

  suffix-next :
      (k j : ℕ) (c : Chain V) (v w : V) (r : Chain V)
      → Distinct c
      → suffix k c ≡ (k, v) ∷ (j, w) ∷ r
      → suffix j c ≡ (j, w) ∷ r
  unfolding suffix chain_get
  suffix-next k j [] v w r d h = cc
  suffix-next k j ((i, x) ∷ c) v w r d h = elim (Bool-cases (k == i)) [
    | inl e ↦ ground (arith, ==_refl j)
    | inr e ↦ elim (Bool-cases (j == i)) [
      | inl same ↦ absurd (suffix-absent k j c v w r (rw e at h) (rw (eq_of_== j i same) d.0))
      | inr other ↦ rw other (suffix-next k j c v w r d.1 (rw e at h))
    ]
  ]

  -- What first_chain finds: the entries from there on are all the entries.
  abbrev Found : List (Chain V) → ℕ → Option (ℕ × ℕ) → Type ℓ
  Found bs i o =
      ((o ≡ none) × (entries bs ≡ []))
      ⊎ ((k : ℕ) × (v : V) × (c : Chain V) × (d : ℕ) × (o ≡ some (k, i + d))
          × (get_or bs d [] ≡ (k, v) ∷ c)
          × (entries bs ≡ (k, v) ∷ (c ++ entries (drop (suc d) bs))))

  first_chain-Found : (bs : List (Chain V)) (i : ℕ) → Found bs i (first_chain bs i)
  unfolding first_chain
  first_chain-Found [] i = inl (refl, refl)
  first_chain-Found ([] ∷ bs) i = elim (first_chain-Found bs (suc i)) [
    | inl (a, b) ↦ inl (a, b)
    | inr (k, v, c, d, a, b, e) ↦
        inr (k, v, c, suc d, a ∙ ap (λ m. some (k, m)) (omega arith), b, e)
  ]
  first_chain-Found (((k, v) ∷ c) ∷ bs) i =
      inr (k, v, c, 0, ap (λ m. some (k, m)) (omega arith), refl, refl)

  get_or-drop : (n d : ℕ) (bs : List (Chain V)) → get_or (drop n bs) d [] ≡ get_or bs (n + d) []
  get_or-drop zero d bs = let e : 0 + d ≡ d = omega arith in rw e
  get_or-drop (suc n) d [] = refl
  get_or-drop (suc n) d (c ∷ bs) =
      let e : suc n + d ≡ suc (n + d) = omega arith in rw e (get_or-drop n d bs)

  drop_nil : (n : ℕ) → drop {A = Chain V} n [] ≡ []
  drop_nil zero = refl
  drop_nil (suc n) = refl

  drop-drop : (n d : ℕ) (bs : List (Chain V)) → drop d (drop n bs) ≡ drop (n + d) bs
  drop-drop zero d bs = let e : 0 + d ≡ d = omega arith in rw e
  drop-drop (suc n) d [] = drop_nil d ∙ sym (drop_nil (suc n + d))
  drop-drop (suc n) d (c ∷ bs) =
      let e : suc n + d ≡ suc (n + d) = omega arith in rw e (drop-drop n d bs)

  -- The entries that a traversal has still to read.
  abbrev Remaining : HashTable V → Chain V → Type ℓ
  Remaining t xs =
      ((t.cur_entry ≡ none) × (xs ≡ []))
      ⊎ ((k : ℕ) × (v : V) × (c : Chain V) × (t.cur_entry ≡ some k)
          × (suffix k (get_or t.table t.cur_index []) ≡ (k, v) ∷ c)
          × (xs ≡ (k, v) ∷ (c ++ entries (drop (suc t.cur_index) t.table))))

  suffix_head : (k : ℕ) (v : V) (c : Chain V) → suffix k ((k, v) ∷ c) ≡ (k, v) ∷ c
  unfolding suffix
  suffix_head k v c = rw ==_refl

  -- After the scan from index n, the entries from there on remain.
  point_at-Remaining :
      (t : HashTable V) (n : ℕ) (o : Option (ℕ × ℕ))
      → Found (drop n t.table) n o
      → Remaining (point_at o t).0 (entries (drop n t.table))
  unfolding point_at
  point_at-Remaining t n o (inl (a, b)) = rw (a, point_at) (inl (refl, b))
  point_at-Remaining t n o (inr (k, v, c, d, a, b, e)) =
      let same : n + suc d ≡ suc (n + d) = omega arith in
      let behind : drop (n + suc d) t.table ≡ drop (suc (n + d)) t.table =
        ap (λ m. drop m t.table) same in
      let at : get_or t.table (n + d) [] ≡ (k, v) ∷ c = sym (get_or-drop n d t.table) ∙ b in
      rw (a, point_at)
        (inr (
          k,
          v,
          c,
          refl,
          ap (suffix k) at ∙ suffix_head k v c,
          e ∙ ap (λ bs. (k, v) ∷ (c ++ entries bs)) (drop-drop n (suc d) t.table ∙ behind),
        ))

  -- Behind the entry of k the rest c of its chain and the later chains remain.
  search_next_entry-Remaining :
      (t : HashTable V) (k : ℕ) (v : V) (c : Chain V)
      → Placed t.table
      → suffix k (get_or t.table t.cur_index []) ≡ (k, v) ∷ c
      → Remaining (search_next_entry k t).0 (c ++ entries (drop (suc t.cur_index) t.table))
  unfolding search_next_entry head_key
  search_next_entry-Remaining t k v [] p h =
      rw ((suffix-get k _ v [] h).1, search_next_entry)
        (point_at-Remaining t (suc t.cur_index) _
          (first_chain-Found (drop (suc t.cur_index) t.table) (suc t.cur_index)))
  search_next_entry-Remaining t k v ((j, w) ∷ c) p h =
      rw ((suffix-get k _ v ((j, w) ∷ c) h).1, search_next_entry)
        (inr (j, w, c, refl, suffix-next k j _ v w c (p.distinct t.cur_index) h, refl))

  search_next_entry_table : (k : ℕ) (t : HashTable V) → (search_next_entry k t).0.table ≡ t.table
  unfolding search_next_entry point_at
  search_next_entry_table k t = ground arith

  pub get_next-some :
      (t : HashTable V) (k : ℕ) (v : V)
      → t.cur_entry ≡ some k
      → chain_get k (get_or t.table t.cur_index []) ≡ some v
      → get_next t ≡ ((search_next_entry k t).0, some (k, v))
  unfolding get_next
  get_next-some t k v e h = ground arith

  pub get_next-none : (t : HashTable V) → t.cur_entry ≡ none → get_next t ≡ (t, none)
  unfolding get_next
  get_next-none t e = ground arith

  pub get_next_dangling :
      (t : HashTable V) (k : ℕ)
      → t.cur_entry ≡ some k
      → chain_get k (get_or t.table t.cur_index []) ≡ none
      → get_next t ≡ (t, none)
  unfolding get_next
  get_next_dangling t k e h = ground arith

  pub visit-some :
      (fuel : ℕ) (t u : HashTable V) (e : ℕ × V)
      → get_next t ≡ (u, some e)
      → visit (suc fuel) t ≡ e ∷ visit fuel u
  unfolding visit
  visit-some fuel t u e h =
      rw (h, visit) (ap (λ (p : HashTable V × Option (ℕ × V)). e ∷ visit fuel p.0) h)

  pub visit-none : (fuel : ℕ) (t u : HashTable V) → get_next t ≡ (u, none) → visit (suc fuel) t ≡ []
  unfolding visit
  visit-none fuel t u h = rw (h, visit)

  visit-Remaining :
      (fuel : ℕ) (t : HashTable V) (xs : Chain V)
      → Placed t.table
      → Remaining t xs
      → length xs < fuel
      → visit fuel t ≡ xs
  unfolding visit
  visit-Remaining zero t xs p r h = elim h [ ]
  visit-Remaining (suc fuel) t xs p (inl (e, n)) h = visit-none fuel t t (get_next-none t e) ∙ sym n
  visit-Remaining (suc fuel) t xs p (inr (k, v, c, e, s, n)) h =
      let shorter : suc (length (c ++ entries (drop (suc t.cur_index) t.table))) ≡ length xs =
        sym (ap length n) in
      visit-some fuel t _ (k, v) (get_next-some t k v e (suffix-get k _ v c s).0)
      ∙ ap (◌∷◌ (k, v)) (
          visit-Remaining fuel (search_next_entry k t).0 _ (rw (search_next_entry_table k t) p)
            (search_next_entry-Remaining t k v c p s) (omega arith))
      ∙ sym n

  pub reset_table :
      (t : HashTable V) → ((reset t).0.table ≡ t.table) × ((reset t).0.entry_count ≡ t.entry_count)
  unfolding reset point_at
  reset_table t = (ground arith, ground arith)

  pub get_next_table :
      (t : HashTable V)
      → ((get_next t).0.table ≡ t.table) × ((get_next t).0.entry_count ≡ t.entry_count)
  unfolding get_next search_next_entry point_at
  get_next_table t = (ground arith, ground arith)

  -- reset and then getNext until it fails reads each entry once, in the order of the table.
  pub visit-reset :
      (fuel : ℕ) (t : HashTable V)
      → Placed t.table
      → length (entries t.table) < fuel
      → visit fuel (reset t).0 ≡ entries t.table
  unfolding reset
  visit-reset fuel t p h =
      visit-Remaining fuel (reset t).0 (entries t.table) (rw (reset_table t).0 p)
        (point_at-Remaining t 0 (first_chain t.table 0) (first_chain-Found t.table 0)) h
