-- ===== src/HashTable/Removal.antt =====
-- The table as a finite map: what get answers after remove, clear and a write through a pointer.
use tsm_proxy.Prelude.{
  ℕ, ◌%◌, ◌<◌, ◌≡◌, refl, sym, ap, inl, inr, Option, none, some, List, [], ◌∷◌, arith, ◌==◌,
  if◌then◌else◌, length, Bool-cases, Option-cases, eq_of_==, replicate,
}
use tsm_proxy.HashTable.Chains.{
  Chain, chain_set, chain_remove, chain_get-set, chain_get-remove_ne, chain_get-remove_self,
  length-chain_set, length-chain_remove, chain_set-Distinct, chain_remove-Distinct,
}
use tsm_proxy.HashTable.Placed.{Placed-set, chain_set-AllAt, chain_remove-AllAt}
use tsm_proxy.HashTable.Rehash.{
  length-entries-set, replicate-Placed, empty_get, length-entries-replicate,
}
use tsm_proxy.HashTable.Laws.{IsValid, get-set-bucket}
use tsm_proxy.HashTable.{
  HashTable, bucket, init, clamp_length, clear, empty_chains, get, contains_key, is_found, remove,
  table_length, update,
}

clamp_length_pos : (n : ℕ) → 0 < clamp_length n
unfolding clamp_length
clamp_length_pos n = ground arith

abbrev pub map_some {ℓ} : {A : Type ℓ} → (A → A) → Option A → Option A
map_some f none = none
map_some f (some a) = some (f a)

module _ {ℓ} {V : Type ℓ} where
  -- After remove, get answers nothing at the key and what it did before at any other.
  pub get-remove :
      (j k : ℕ) (t : HashTable V)
      → IsValid t
      → get j (remove k t).0 ≡ (if k == j then none else get j t)
  unfolding remove
  get-remove j k t w = elim (Option-cases (get k t)) [
    | inl e ↦
        rw (e, remove)
          (elim (Bool-cases (k == j)) [
            | inl same ↦ rw (same, ← eq_of_== k j same) e
            | inr other ↦ rw other
          ])
    | inr (old, e) ↦
        rw (e, remove)
          (unfold get in
            get-set-bucket j k t (chain_remove k (bucket t.table k)) none w.placed.nonempty λ i.
              elim (Bool-cases (k == i)) [
                | inl same ↦
                    rw (same, ← eq_of_== k i same)
                      (chain_get-remove_self k (bucket t.table k)
                        (w.placed.distinct (k % table_length t)))
                | inr other ↦ rw other (chain_get-remove_ne i k (bucket t.table k) other)
              ])
  ]

  -- remove says whether the key was there.
  pub remove_result : (k : ℕ) (t : HashTable V) → (remove k t).1 ≡ contains_key k t
  unfolding remove contains_key get
  remove_result k t = ground arith

  pub contains_key-get : (k : ℕ) (t : HashTable V) → contains_key k t ≡ is_found (get k t)
  unfolding contains_key get
  contains_key-get k t = refl

  remove_found-IsValid :
      (k : ℕ) (old : V) (t : HashTable V) → IsValid t → get k t ≡ some old → IsValid (remove k t).0
  unfolding remove get
  remove_found-IsValid k old t w e =
      rw (e, remove)
        (record {
          placed =
              Placed-set t.table (k % table_length t) (chain_remove k (bucket t.table k)) w.placed
                (omega (arith, w.placed.nonempty))
                (chain_remove-AllAt _ _ k (bucket t.table k)
                  (w.placed.at_index (k % table_length t)))
                (chain_remove-Distinct k (bucket t.table k)
                  (w.placed.distinct (k % table_length t)));
          counted = omega (
            arith,
            w.counted,
            length-entries-set t.table (k % table_length t) (chain_remove k (bucket t.table k))
                (omega (arith, w.placed.nonempty)),
            length-chain_remove k (bucket t.table k) {w = old} e,
          );
        })

  pub remove-IsValid : (k : ℕ) (t : HashTable V) → IsValid t → IsValid (remove k t).0
  unfolding remove
  remove-IsValid k t w = elim (Option-cases (get k t)) [
    | inl e ↦ rw (e, remove) w
    | inr (old, e) ↦ remove_found-IsValid k old t w e
  ]

  -- A write through the pointer that get returned changes the value of that key only.
  pub get-update :
      (j k : ℕ) (f : V → V) (t : HashTable V)
      → IsValid t
      → get j (update k f t) ≡ (if k == j then map_some f (get k t) else get j t)
  unfolding update
  get-update j k f t w = elim (Option-cases (get k t)) [
    | inl e ↦
        rw (e, update)
          (elim (Bool-cases (k == j)) [
            | inl same ↦ rw (same, ← eq_of_== k j same) e
            | inr other ↦ rw other
          ])
    | inr (old, e) ↦
        rw (e, update)
          (unfold get in
            get-set-bucket j k t (chain_set k (f old) (bucket t.table k)) (some (f old))
              w.placed.nonempty (λ i. chain_get-set i k (f old) old (bucket t.table k) e))
  ]

  update_found-IsValid :
      (k : ℕ) (f : V → V) (old : V) (t : HashTable V)
      → IsValid t
      → get k t ≡ some old
      → IsValid (update k f t)
  unfolding update get
  update_found-IsValid k f old t w e =
      rw (e, update)
        (record {
          placed =
              Placed-set t.table (k % table_length t) (chain_set k (f old) (bucket t.table k))
                w.placed (omega (arith, w.placed.nonempty))
                (chain_set-AllAt _ _ k (f old) (bucket t.table k)
                  (w.placed.at_index (k % table_length t)))
                (chain_set-Distinct k (f old) (bucket t.table k)
                  (w.placed.distinct (k % table_length t)));
          counted = omega (
            arith,
            w.counted,
            length-entries-set t.table (k % table_length t) (chain_set k (f old) (bucket t.table k))
                (omega (arith, w.placed.nonempty)),
            length-chain_set k (f old) (bucket t.table k),
          );
        })

  pub update-IsValid : (k : ℕ) (f : V → V) (t : HashTable V) → IsValid t → IsValid (update k f t)
  unfolding update
  update-IsValid k f t w = elim (Option-cases (get k t)) [
    | inl e ↦ rw (e, update) w
    | inr (old, e) ↦ update_found-IsValid k f old t w e
  ]

  empty_chains-replicate : (bs : List (Chain V)) → empty_chains bs ≡ replicate (length bs) []
  unfolding empty_chains
  empty_chains-replicate [] = refl
  empty_chains-replicate (c ∷ bs) = ap (◌∷◌ []) (empty_chains-replicate bs)

  pub clear-IsValid : (t : HashTable V) → IsValid t → IsValid (clear t)
  unfolding clear
  clear-IsValid t w = rw (empty_chains-replicate t.table) (record {
    placed = replicate-Placed (table_length t) w.placed.nonempty;
    counted = sym (length-entries-replicate V (table_length t));
  })

  pub get-clear : (k : ℕ) (t : HashTable V) → get k (clear t) ≡ none
  unfolding clear get
  get-clear k t = rw (empty_chains-replicate t.table) (empty_get (table_length t) k)

pub init-IsValid {ℓ} : (V : Type ℓ) (n : ℕ) → IsValid (init {V = V} n)
unfolding init
init-IsValid V n = record {
  placed = replicate-Placed (clamp_length n) (clamp_length_pos n);
  counted = sym (length-entries-replicate V (clamp_length n));
}

pub get-init {ℓ} : (V : Type ℓ) (k n : ℕ) → get k (init {V = V} n) ≡ none
unfolding init get
get-init V k n = empty_get (clamp_length n) k
