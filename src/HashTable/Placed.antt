-- ===== src/HashTable/Placed.antt =====
-- The invariant of the table: every entry stands below the index of its key, and no key twice.
use tsm_proxy.Prelude.{
  ℕ, zero, suc, ◌+◌, ◌%◌, ◌<◌, ◌≡◌, refl, sym, ap, ◌∙◌, subst, ◌≢◌, inl, inr, Option, none, some,
  List, [], ◌∷◌, ◌++◌, arith, ◌==◌, if◌then◌else◌, length, get_or, set, length-set, get_or-set_self,
  get_or-set_ne, Bool-cases, eq_of_==, ne_of_==, ==_refl,
}
use tsm_proxy.HashTable.Chains.{
  Chain, chain_get, chain_set, chain_remove, Distinct, chain_get-append, or_else-none,
}
use tsm_proxy.HashTable.{bucket}

module _ {ℓ} {V : Type ℓ} where
  -- The keys of a chain below index i of a table of length n.
  abbrev pub AllAt : ℕ → ℕ → Chain V → Type 0
  AllAt n i [] = Unit {0}
  AllAt n i ((k, v) ∷ c) = (k % n ≡ i) × AllAt n i c

  pub record Placed (bs : List (Chain V)) : Type ℓ where
    pub nonempty : 0 < length bs
    pub at_index : (i : ℕ) → AllAt (length bs) i (get_or bs i [])
    pub distinct : (i : ℕ) → Distinct (get_or bs i [])

  -- The entries in the order of the table.
  abbrev pub entries : List (Chain V) → Chain V
  entries [] = []
  entries (c ∷ bs) = c ++ entries bs

  pub chain_get-AllAt : (n i k : ℕ) (c : Chain V) → AllAt n i c → k % n ≢ i → chain_get k c ≡ none
  unfolding chain_get
  chain_get-AllAt n i k [] a h = refl
  chain_get-AllAt n i k ((j, v) ∷ c) a h = elim (Bool-cases (k == j)) [
    | inl e ↦ absurd (h (ap (λ x. x % n) (eq_of_== k j e) ∙ a.0))
    | inr e ↦ rw e (chain_get-AllAt n i k c a.1 h)
  ]

  shifted :
      (n i : ℕ) (c : Chain V) (bs : List (Chain V))
      → ((j : ℕ) → AllAt n (i + j) (get_or (c ∷ bs) j []))
      → (j : ℕ) → AllAt n (suc i + j) (get_or bs j [])
  shifted n i c bs a j = subst (λ m. AllAt n m (get_or bs j [])) (omega arith) (a (suc j))

  absent_later :
      (n i k : ℕ) (bs : List (Chain V))
      → ((j : ℕ) → AllAt n (i + j) (get_or bs j []))
      → k % n < i
      → chain_get k (entries bs) ≡ none
  unfolding chain_get
  absent_later n i k [] a h = refl
  absent_later n i k (c ∷ bs) a h =
      chain_get-append k c (entries bs)
      ∙ rw (chain_get-AllAt n (i + 0) k c (a 0) (omega arith))
          (absent_later n (suc i) k bs (shifted n i c bs a) (omega arith))

  -- A key is found in the whole table exactly below its own index.
  pub chain_get-entries :
      (n i k : ℕ) (bs : List (Chain V))
      → ((j : ℕ) → AllAt n (i + j) (get_or bs j []))
      → (d : ℕ) → k % n ≡ i + d
      → chain_get k (entries bs) ≡ chain_get k (get_or bs d [])
  unfolding chain_get
  chain_get-entries n i k [] a d h = refl
  chain_get-entries n i k (c ∷ bs) a zero h =
      chain_get-append k c (entries bs)
      ∙ rw (absent_later n (suc i) k bs (shifted n i c bs a) (omega arith))
          (or_else-none (chain_get k c))
  chain_get-entries n i k (c ∷ bs) a (suc d) h =
      chain_get-append k c (entries bs)
      ∙ rw (chain_get-AllAt n (i + 0) k c (a 0) (omega arith))
          (chain_get-entries n (suc i) k bs (shifted n i c bs a) d (omega arith))

  -- The entries of the whole table have distinct keys.
  Distinct-append :
      (c d : Chain V)
      → Distinct c
      → Distinct d
      → ((k : ℕ) (v : V) → chain_get k c ≡ some v → chain_get k d ≡ none)
      → Distinct (c ++ d)
  unfolding chain_get
  Distinct-append [] d p q apart = q
  Distinct-append ((k, v) ∷ c) d p q apart = (
    chain_get-append k c d ∙ rw p.0 (apart k v (rw ==_refl)),
    Distinct-append c d p.1 q λ j w e. elim (Bool-cases (j == k)) [
      | inl same ↦ absurd (none-some (sym p.0 ∙ rw (eq_of_== j k same) at e))
      | inr other ↦ apart j w (rw other e)
    ],
  )
    where
      none-some : {w : V} → ◌≡◌ {A = Option V} none (some w) → ⊥
      none-some e = cc

  entries_apart :
      (n i : ℕ) (bs : List (Chain V))
      → ((j : ℕ) → AllAt n (i + j) (get_or bs j []))
      → ((j : ℕ) → Distinct (get_or bs j []))
      → Distinct (entries bs)
  entries_apart n i [] a d = tt
  entries_apart n i (c ∷ bs) a d =
      Distinct-append c (entries bs) (d 0)
        (entries_apart n (suc i) bs (shifted n i c bs a) (λ j. d (suc j)))
        λ k v e. elim (Bool-cases (k % n == i)) [
          | inl here ↦ absent_later n (suc i) k bs (shifted n i c bs a) (ground arith)
          | inr else_where ↦
              absurd (absent-some (chain_get-AllAt n (i + 0) k c (a 0) (ground arith)) e)
        ]
    where
      absent-some : {o : Option V} {w : V} → o ≡ none → o ≡ some w → ⊥
      absent-some p q = cc

  pub get-entries :
      (k : ℕ) (bs : List (Chain V))
      → Placed bs
      → chain_get k (bucket bs k) ≡ chain_get k (entries bs)
  get-entries k bs p = sym (
      chain_get-entries (length bs) 0 k bs
        (λ j. subst (λ m. AllAt (length bs) m (get_or bs j [])) (omega arith) (p.at_index j))
        (k % length bs) (omega arith))

  pub Distinct-entries : (bs : List (Chain V)) → Placed bs → Distinct (entries bs)
  Distinct-entries bs p =
      entries_apart (length bs) 0 bs
        (λ j. subst (λ m. AllAt (length bs) m (get_or bs j [])) (omega arith) (p.at_index j))
        p.distinct

  -- A table whose chain at one index is replaced by one that fits there.
  pub Placed-set :
      (bs : List (Chain V)) (i : ℕ) (c : Chain V)
      → Placed bs
      → i < length bs
      → AllAt (length bs) i c
      → Distinct c
      → Placed (set bs i c)
  Placed-set bs i c p h a d = record {
    nonempty = rw (length-set bs i c) p.nonempty;
    at_index = λ j. rw (length-set bs i c) (elim (Bool-cases (i == j)) [
      | inl e ↦
          subst (λ m. AllAt (length bs) m (get_or (set bs i c) m [])) (eq_of_== i j e)
            (rw (get_or-set_self bs i c [] h) a)
      | inr e ↦ rw (get_or-set_ne bs i j c [] (ne_of_== i j e)) (p.at_index j)
    ]);
    distinct = λ j. elim (Bool-cases (i == j)) [
      | inl e ↦
          subst (λ m. Distinct (get_or (set bs i c) m [])) (eq_of_== i j e)
            (rw (get_or-set_self bs i c [] h) d)
      | inr e ↦ rw (get_or-set_ne bs i j c [] (ne_of_== i j e)) (p.distinct j)
    ];
  }

  -- The chain below the index of j, after the chain of k was replaced.
  pub bucket-set :
      (bs : List (Chain V)) (j k : ℕ) (c : Chain V)
      → 0 < length bs
      → bucket (set bs (k % length bs) c) j
        ≡ (if (k % length bs) == (j % length bs) then c else bucket bs j)
  bucket-set bs j k c h =
      rw (length-set bs (k % length bs) c) (elim (Bool-cases ((k % length bs) == (j % length bs))) [
        | inl e ↦ rw (e, ← eq_of_== _ _ e) (get_or-set_self bs (k % length bs) c [] (omega arith))
        | inr e ↦ rw e (get_or-set_ne bs _ _ c [] (ne_of_== _ _ e))
      ])

  pub chain_set-AllAt :
      (n i k : ℕ) (v : V) (c : Chain V) → AllAt n i c → AllAt n i (chain_set k v c)
  unfolding chain_set
  chain_set-AllAt n i k v [] a = tt
  chain_set-AllAt n i k v ((j, x) ∷ c) a = ground (arith, chain_set-AllAt n i k v c)

  pub chain_remove-AllAt : (n i k : ℕ) (c : Chain V) → AllAt n i c → AllAt n i (chain_remove k c)
  unfolding chain_remove
  chain_remove-AllAt n i k [] a = tt
  chain_remove-AllAt n i k ((j, x) ∷ c) a = ground (arith, chain_remove-AllAt n i k c)
