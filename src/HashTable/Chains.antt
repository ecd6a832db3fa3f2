-- ===== src/HashTable/Chains.antt =====
-- The chain of entries below one index of the table (unihashtable.h, the `p = p->m_next` loops).
use tsm_proxy.Prelude.{
  ℕ, ◌+◌, ◌≡◌, refl, false, Option, none, some, List, [], ◌∷◌, ◌++◌, arith, ◌==◌, if◌then◌else◌,
  length,
}

abbrev pub Chain {ℓ} : Type ℓ → Type ℓ
Chain V = List (ℕ × V)

module _ {ℓ} {V : Type ℓ} where
  -- The search loop: the first entry whose key compares equal.
  unfoldable pub chain_get : ℕ → Chain V → Option V
  chain_get k [] = none
  chain_get k ((j, v) ∷ c) = if k == j then some v else chain_get k c

  -- `p->m_value = value` at the entry that the search loop found.
  unfoldable pub chain_set : ℕ → V → Chain V → Chain V
  chain_set k v [] = []
  chain_set k v ((j, w) ∷ c) = if k == j then (j, v) ∷ c else (j, w) ∷ chain_set k v c

  -- The entry that the search loop found, unlinked.
  unfoldable pub chain_remove : ℕ → Chain V → Chain V
  chain_remove k [] = []
  chain_remove k ((j, w) ∷ c) = if k == j then c else (j, w) ∷ chain_remove k c

  -- No key occurs twice.
  abbrev pub Distinct : Chain V → Type ℓ
  Distinct [] = Unit
  Distinct ((k, v) ∷ c) = (chain_get k c ≡ none) × Distinct c

  pub chain_get-set :
      (j k : ℕ) (v w : V) (c : Chain V)
      → chain_get k c ≡ some w
      → chain_get j (chain_set k v c) ≡ (if k == j then some v else chain_get j c)
  unfolding chain_get chain_set
  chain_get-set j k v w [] h = ground arith
  chain_get-set j k v w ((i, x) ∷ c) h = ground (arith, chain_get-set j k v w c)

  pub chain_get-remove_ne :
      (j k : ℕ) (c : Chain V) → (k == j) ≡ false → chain_get j (chain_remove k c) ≡ chain_get j c
  unfolding chain_get chain_remove
  chain_get-remove_ne j k [] h = refl
  chain_get-remove_ne j k ((i, x) ∷ c) h = ground (arith, chain_get-remove_ne j k c)

  pub chain_get-remove_self :
      (k : ℕ) (c : Chain V) → Distinct c → chain_get k (chain_remove k c) ≡ none
  unfolding chain_get chain_remove
  chain_get-remove_self k [] d = refl
  chain_get-remove_self k ((i, x) ∷ c) d = ground (arith, chain_get-remove_self k c)

  pub length-chain_set : (k : ℕ) (v : V) (c : Chain V) → length (chain_set k v c) ≡ length c
  unfolding chain_set
  length-chain_set k v [] = refl
  length-chain_set k v ((i, x) ∷ c) = ground (arith, length-chain_set k v c)

  pub length-chain_remove :
      (k : ℕ) (c : Chain V) {w : V}
      → chain_get k c ≡ some w
      → length (chain_remove k c) + 1 ≡ length c
  unfolding chain_get chain_remove
  length-chain_remove k [] h = ground arith
  length-chain_remove k ((i, x) ∷ c) {w} h = ground (arith, length-chain_remove k c {w = w})

  -- The first that is there.
  abbrev pub or_else : Option V → Option V → Option V
  or_else none o = o
  or_else (some v) o = some v

  pub or_else-none : (o : Option V) → or_else o none ≡ o
  or_else-none none = refl
  or_else-none (some v) = refl

  pub chain_get-append :
      (k : ℕ) (c d : Chain V) → chain_get k (c ++ d) ≡ or_else (chain_get k c) (chain_get k d)
  unfolding chain_get
  chain_get-append k [] d = refl
  chain_get-append k ((i, x) ∷ c) d = ground (arith, chain_get-append k c d)

  pub chain_get-set_none :
      (j k : ℕ) (v : V) (c : Chain V) → chain_get j c ≡ none → chain_get j (chain_set k v c) ≡ none
  unfolding chain_get chain_set
  chain_get-set_none j k v [] h = h
  chain_get-set_none j k v ((i, x) ∷ c) h = ground (arith, chain_get-set_none j k v c)

  pub chain_get-remove_none :
      (j k : ℕ) (c : Chain V) → chain_get j c ≡ none → chain_get j (chain_remove k c) ≡ none
  unfolding chain_get chain_remove
  chain_get-remove_none j k [] h = h
  chain_get-remove_none j k ((i, x) ∷ c) h = ground (arith, chain_get-remove_none j k c)

  pub chain_set-Distinct : (k : ℕ) (v : V) (c : Chain V) → Distinct c → Distinct (chain_set k v c)
  unfolding chain_set
  chain_set-Distinct k v [] d = tt
  chain_set-Distinct k v ((i, x) ∷ c) d =
      ground (arith, chain_set-Distinct k v c, chain_get-set_none i k v c)

  pub chain_remove-Distinct : (k : ℕ) (c : Chain V) → Distinct c → Distinct (chain_remove k c)
  unfolding chain_remove
  chain_remove-Distinct k [] d = tt
  chain_remove-Distinct k ((i, x) ∷ c) d =
      ground (arith, chain_remove-Distinct k c, chain_get-remove_none i k c)
