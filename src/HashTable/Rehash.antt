-- ===== src/HashTable/Rehash.antt =====
-- Rehashing: moving every entry to a longer table loses none and keeps the invariant.
use tsm_proxy.Prelude.{
  ℕ, zero, suc, ◌+◌, ◌%◌, ◌<◌, ◌≡◌, refl, sym, ap, ◌∙◌, inl, inr, Option, none, some, List, [], ◌∷◌,
  ◌++◌, arith, ◌==◌, leb, if◌then◌else◌, length, get_or, set, replicate, length-set, length-append,
  length-replicate, get_or-replicate, Bool-cases, eq_of_==, ==_refl, ==_sym,
}
use tsm_proxy.HashTable.Chains.{Chain, chain_get, Distinct, or_else, or_else-none}
use tsm_proxy.HashTable.Placed.{
  AllAt, Placed, entries, Placed-set, bucket-set, get-entries, Distinct-entries,
}
use tsm_proxy.HashTable.{
  HashTable, bucket, push_entry, move_chain, move_table, rehash, doubled, max_length, table_length,
}

doubled_pos : (n : ℕ) → 0 < n → 0 < doubled n
doubled_pos n h = ground arith

pub length-entries-replicate {ℓ} :
    (V : Type ℓ) (n : ℕ) → length (entries (replicate {A = Chain V} n [])) ≡ 0
length-entries-replicate V zero = refl
length-entries-replicate V (suc n) = length-entries-replicate V n

module _ {ℓ} {V : Type ℓ} where
  pub push_entry-get :
      (j k : ℕ) (v : V) (bs : List (Chain V))
      → 0 < length bs
      → chain_get j (bucket (push_entry k v bs) j)
        ≡ (if k == j then some v else chain_get j (bucket bs j))
  unfolding push_entry chain_get
  push_entry-get j k v bs h =
      ap (chain_get j) (bucket-set bs j k ((k, v) ∷ bucket bs k) h) ∙ elim (Bool-cases (k == j)) [
        | inl e ↦ rw (e, eq_of_== k j e, ==_refl (j % length bs), ==_refl j)
        | inr e ↦ rw e (elim (Bool-cases ((k % length bs) == (j % length bs))) [
          | inl same ↦
              rw (same, ==_sym j k e) (ap (λ i. chain_get j (get_or bs i [])) (eq_of_== _ _ same))
          | inr apart ↦ rw apart
        ])
      ]

  pub length-push_entry :
      (k : ℕ) (v : V) (bs : List (Chain V)) → length (push_entry k v bs) ≡ length bs
  unfolding push_entry
  length-push_entry k v bs = length-set bs (k % length bs) ((k, v) ∷ bucket bs k)

  pub push_entry-Placed :
      (k : ℕ) (v : V) (bs : List (Chain V))
      → Placed bs
      → chain_get k (bucket bs k) ≡ none
      → Placed (push_entry k v bs)
  unfolding push_entry
  push_entry-Placed k v bs p fresh =
      Placed-set bs (k % length bs) ((k, v) ∷ bucket bs k) p (omega (arith, p.nonempty))
        (refl, p.at_index (k % length bs)) (fresh, p.distinct (k % length bs))

  move_chain-append :
      (c d : Chain V) (bs : List (Chain V))
      → move_chain (c ++ d) bs ≡ move_chain d (move_chain c bs)
  unfolding move_chain
  move_chain-append [] d bs = refl
  move_chain-append ((k, v) ∷ c) d bs = move_chain-append c d (push_entry k v bs)

  -- The nested loops of rehash are one loop over all entries.
  move_table-entries :
      (old new : List (Chain V)) → move_table old new ≡ move_chain (entries old) new
  unfolding move_table move_chain
  move_table-entries [] new = refl
  move_table-entries (c ∷ bs) new =
      move_table-entries bs (move_chain c new) ∙ sym (move_chain-append c (entries bs) new)

  length-move_chain : (c : Chain V) (bs : List (Chain V)) → length (move_chain c bs) ≡ length bs
  unfolding move_chain
  length-move_chain [] bs = refl
  length-move_chain ((k, v) ∷ c) bs =
      length-move_chain c (push_entry k v bs) ∙ length-push_entry k v bs

  move_chain-get :
      (j : ℕ) (c : Chain V) (bs : List (Chain V))
      → 0 < length bs
      → Distinct c
      → chain_get j (bucket (move_chain c bs) j)
        ≡ or_else (chain_get j c) (chain_get j (bucket bs j))
  unfolding move_chain chain_get
  move_chain-get j [] bs h d = refl
  move_chain-get j ((k, v) ∷ c) bs h d =
      move_chain-get j c (push_entry k v bs) (rw (length-push_entry k v bs) h) d.1
      ∙ rw (push_entry-get j k v bs h) (elim (Bool-cases (j == k)) [
        | inl e ↦ rw (e, eq_of_== j k e, d.0) (ground arith)
        | inr e ↦ rw e (ground arith)
      ])

  move_chain-Placed :
      (c : Chain V) (bs : List (Chain V))
      → Placed bs
      → Distinct c
      → ((k : ℕ) (v : V) → chain_get k c ≡ some v → chain_get k (bucket bs k) ≡ none)
      → Placed (move_chain c bs)
  unfolding move_chain chain_get
  move_chain-Placed [] bs p d fresh = p
  move_chain-Placed ((k, v) ∷ c) bs p d fresh =
      move_chain-Placed c (push_entry k v bs)
        (push_entry-Placed k v bs p (fresh k v (ground arith))) d.1
        λ j w e. push_entry-get j k v bs p.nonempty ∙ elim (Bool-cases (k == j)) [
          | inl same ↦ absurd (absent-some d.0 (rw (← eq_of_== k j same) at e))
          | inr other ↦ rw other (fresh j w (ground arith))
        ]
    where
      absent-some : {o : Option V} {w : V} → o ≡ none → o ≡ some w → ⊥
      absent-some p q = cc

  empty_at : (n i : ℕ) (c : Chain V) → c ≡ [] → AllAt n i c × Distinct c
  empty_at n i c e = rw e (tt, tt)

  pub replicate-Placed : (n : ℕ) → 0 < n → Placed (replicate {A = Chain V} n [])
  replicate-Placed n h = record {
    nonempty = rw (length-replicate n) h;
    at_index = λ i. (empty_at _ i _ (get_or-replicate n i [])).0;
    distinct =
        λ i. (empty_at (length (replicate {A = Chain V} n [])) i _ (get_or-replicate n i [])).1;
  }

  pub empty_get : (n k : ℕ) → chain_get k (bucket (replicate {A = Chain V} n []) k) ≡ none
  unfolding chain_get
  empty_get n k = rw (get_or-replicate {A = Chain V} n)

  move_table-Placed :
      (bs : List (Chain V)) (n : ℕ) → Placed bs → 0 < n → Placed (move_table bs (replicate n []))
  move_table-Placed bs n p h = rw (move_table-entries bs) (
      move_chain-Placed (entries bs) (replicate n []) (replicate-Placed n h) (Distinct-entries bs p)
        (λ k v e. empty_get n k))

  move_table-get :
      (j : ℕ) (bs : List (Chain V)) (n : ℕ)
      → Placed bs
      → 0 < n
      → chain_get j (bucket (move_table bs (replicate n [])) j) ≡ chain_get j (bucket bs j)
  move_table-get j bs n p h = rw (move_table-entries bs) (
      move_chain-get j (entries bs) (replicate n []) (rw (length-replicate n) h)
        (Distinct-entries bs p)
      ∙ rw (empty_get n j, get-entries j bs p) (or_else-none (chain_get j (entries bs))))

  pub rehash-Placed : (t : HashTable V) → Placed t.table → Placed (rehash t).table
  unfolding rehash
  rehash-Placed t p = elim (Bool-cases (leb max_length (table_length t))) [
    | inl e ↦ rw e p
    | inr e ↦ rw e (move_table-Placed t.table _ p (doubled_pos _ p.nonempty))
  ]

  -- Rehashing changes no lookup.
  pub rehash-get :
      (j : ℕ) (t : HashTable V)
      → Placed t.table
      → chain_get j (bucket (rehash t).table j) ≡ chain_get j (bucket t.table j)
  unfolding rehash
  rehash-get j t p = elim (Bool-cases (leb max_length (table_length t))) [
    | inl e ↦ rw e
    | inr e ↦ rw e (move_table-get j t.table _ p (doubled_pos _ p.nonempty))
  ]

  pub length-entries-set :
      (bs : List (Chain V)) (i : ℕ) (c : Chain V)
      → i < length bs
      → length (entries (set bs i c)) + length (get_or bs i []) ≡ length (entries bs) + length c
  length-entries-set [] i c h = elim h [ ]
  length-entries-set (b ∷ bs) zero c h =
      omega (arith, length-append c (entries bs), length-append b (entries bs))
  length-entries-set (b ∷ bs) (suc i) c h = omega (
    arith,
    length-append b (entries (set bs i c)),
    length-append b (entries bs),
    length-entries-set bs i c (omega arith),
  )

  pub length-entries-push_entry :
      (k : ℕ) (v : V) (bs : List (Chain V))
      → 0 < length bs
      → length (entries (push_entry k v bs)) ≡ suc (length (entries bs))
  unfolding push_entry
  length-entries-push_entry k v bs h =
      omega (arith, length-entries-set bs (k % length bs) ((k, v) ∷ bucket bs k) (omega arith))

  length-entries-move_chain :
      (c : Chain V) (bs : List (Chain V))
      → 0 < length bs
      → length (entries (move_chain c bs)) ≡ length c + length (entries bs)
  unfolding move_chain
  length-entries-move_chain [] bs h = omega arith
  length-entries-move_chain ((k, v) ∷ c) bs h = omega (
    arith,
    length-entries-move_chain c (push_entry k v bs) (rw (length-push_entry k v bs) h),
    length-entries-push_entry k v bs h,
  )

  length-entries-move_table :
      (bs : List (Chain V)) (n : ℕ)
      → 0 < n
      → length (entries (move_table bs (replicate n []))) ≡ length (entries bs)
  length-entries-move_table bs n h = rw (move_table-entries bs) (
      omega (
        arith,
        length-entries-move_chain (entries bs) (replicate n []) (rw (length-replicate n) h),
        length-entries-replicate V n,
      ))

  pub length-entries-rehash :
      (t : HashTable V)
      → 0 < table_length t
      → length (entries (rehash t).table) ≡ length (entries t.table)
  unfolding rehash
  length-entries-rehash t h = elim (Bool-cases (leb max_length (table_length t))) [
    | inl e ↦ rw e
    | inr e ↦ rw e (length-entries-move_table t.table _ (doubled_pos _ h))
  ]
