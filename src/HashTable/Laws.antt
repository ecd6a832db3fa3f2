-- ===== src/HashTable/Laws.antt =====
-- The table as a finite map: what get answers after init and put, and the invariant.
use tsm_proxy.Prelude.{
  ℕ, ◌+◌, ◌%◌, ◌<◌, ◌≡◌, ap, ◌∙◌, inl, inr, Option, none, some, List, [], arith, ◌==◌, leb,
  if◌then◌else◌, length, get_or, set, Bool-cases, Option-cases, eq_of_==, ==_refl,
}
use tsm_proxy.HashTable.Chains.{
  Chain, chain_get, chain_set, chain_get-set, length-chain_set, chain_set-Distinct,
}
use tsm_proxy.HashTable.Placed.{Placed, entries, Placed-set, bucket-set, chain_set-AllAt}
use tsm_proxy.HashTable.Rehash.{
  push_entry-get, push_entry-Placed, rehash-Placed, rehash-get, length-entries-set,
  length-entries-push_entry, length-entries-rehash,
}
use tsm_proxy.HashTable.{HashTable, bucket, push_entry, rehash, get, put_new, put, table_length}

pub record IsValid {ℓ} {V : Type ℓ} (t : HashTable V) : Type ℓ where
  pub placed : Placed t.table
  pub counted : t.entry_count ≡ length (entries t.table)

pub value_or {ℓ} : {A : Type ℓ} → Option A → A → A
value_or none d = d
value_or (some a) d = a

module _ {ℓ} {V : Type ℓ} where
  -- The table that put_new pushes onto.
  grown : HashTable V → List (Chain V)
  grown t = if leb t.threshold (t.entry_count + 1) then (rehash t).table else t.table

  rehash_table :
      (t : HashTable V) (n m : ℕ) (o : Option ℕ) (i : ℕ)
      → (rehash (record t { entry_count = n; mod_count = m; cur_entry = o; cur_index = i })).table
        ≡ (rehash t).table
  unfolding rehash
  rehash_table t n m o i = ground arith

  put_new_table :
      (k : ℕ) (v : V) (t : HashTable V) → (put_new k v t).table ≡ push_entry k v (grown t)
  unfolding put_new grown
  put_new_table k v t = elim (Bool-cases (leb t.threshold (t.entry_count + 1))) [
    | inl e ↦ rw e (ap (push_entry k v) (rehash_table t _ _ _ _))
    | inr e ↦ rw e
  ]

  grown-Placed : (t : HashTable V) → Placed t.table → Placed (grown t)
  unfolding grown
  grown-Placed t p = elim (Bool-cases (leb t.threshold (t.entry_count + 1))) [
    | inl e ↦ rw e (rehash-Placed t p)
    | inr e ↦ rw e p
  ]

  grown-get :
      (j : ℕ) (t : HashTable V) → Placed t.table → chain_get j (bucket (grown t) j) ≡ get j t
  unfolding grown get
  grown-get j t p = elim (Bool-cases (leb t.threshold (t.entry_count + 1))) [
    | inl e ↦ rw e (rehash-get j t p)
    | inr e ↦ rw e
  ]

  length-entries-grown :
      (t : HashTable V) → Placed t.table → length (entries (grown t)) ≡ length (entries t.table)
  unfolding grown
  length-entries-grown t p = elim (Bool-cases (leb t.threshold (t.entry_count + 1))) [
    | inl e ↦ rw e (length-entries-rehash t p.nonempty)
    | inr e ↦ rw e
  ]

  put_new_count :
      (k : ℕ) (v : V) (t : HashTable V) → (put_new k v t).entry_count ≡ t.entry_count + 1
  unfolding put_new rehash
  put_new_count k v t = ground arith

  get-put_new :
      (j k : ℕ) (v : V) (t : HashTable V)
      → Placed t.table
      → get j (put_new k v t) ≡ (if k == j then some v else get j t)
  unfolding get
  get-put_new j k v t p = rw (put_new_table k v t) (
      push_entry-get j k v (grown t) (grown-Placed t p).nonempty
      ∙ ap (λ o. if k == j then some v else o) (grown-get j t p))

  put_new-IsValid :
      (k : ℕ) (v : V) (t : HashTable V) → IsValid t → get k t ≡ none → IsValid (put_new k v t)
  put_new-IsValid k v t w absent = record {
    placed = rw (put_new_table k v t) (
        push_entry-Placed k v (grown t) (grown-Placed t w.placed)
          (grown-get k t w.placed ∙ absent));
    counted = rw (put_new_table k v t) (
        put_new_count k v t
        ∙ omega (
          arith,
          w.counted,
          length-entries-grown t w.placed,
          length-entries-push_entry k v (grown t) (grown-Placed t w.placed).nonempty,
        ));
  }

  -- The chain of k replaced by one that differs from it only at k.
  pub get-set-bucket :
      (j k : ℕ) (t : HashTable V) (c : Chain V) (o : Option V)
      → 0 < table_length t
      → ((i : ℕ) → chain_get i c ≡ (if k == i then o else chain_get i (bucket t.table k)))
      → chain_get j (bucket (set t.table (k % table_length t) c) j)
        ≡ (if k == j then o else get j t)
  unfolding get
  get-set-bucket j k t c o h same =
      ap (chain_get j) (bucket-set t.table j k c h) ∙ elim (Bool-cases (k == j)) [
        | inl e ↦
            rw (eq_of_== k j e, ==_refl (j % table_length t), same j, eq_of_== k j e, ==_refl j)
        | inr e ↦ rw e (elim (Bool-cases ((k % table_length t) == (j % table_length t))) [
          | inl at ↦
              rw (at, same j, e) (ap (λ i. chain_get j (get_or t.table i [])) (eq_of_== _ _ at))
          | inr apart ↦ rw apart
        ])
      ]

  -- After put, get answers the new value at the key and what it did before at any other.
  pub get-put :
      (j k : ℕ) (v : V) (t : HashTable V)
      → IsValid t
      → get j (put k v t).0 ≡ (if k == j then some v else get j t)
  unfolding put
  get-put j k v t w = elim (Option-cases (get k t)) [
    | inl e ↦ rw (e, put) (get-put_new j k v t w.placed)
    | inr (old, e) ↦
        rw (e, put)
          (unfold get in
            get-set-bucket j k t (chain_set k v (bucket t.table k)) (some v) w.placed.nonempty
              (λ i. chain_get-set i k v old (bucket t.table k) e))
  ]

  -- put returns the value that it replaced, and the new one where the key was absent.
  pub put_result : (k : ℕ) (v : V) (t : HashTable V) → (put k v t).1 ≡ value_or (get k t) v
  unfolding put value_or
  put_result k v t = ground arith

  put_old-IsValid :
      (k : ℕ) (v old : V) (t : HashTable V) → IsValid t → get k t ≡ some old → IsValid (put k v t).0
  unfolding put get
  put_old-IsValid k v old t w e =
      rw (e, put)
        (record {
          placed =
              Placed-set t.table (k % table_length t) (chain_set k v (bucket t.table k)) w.placed
                (omega (arith, w.placed.nonempty))
                (chain_set-AllAt _ _ k v (bucket t.table k)
                  (w.placed.at_index (k % table_length t)))
                (chain_set-Distinct k v (bucket t.table k)
                  (w.placed.distinct (k % table_length t)));
          counted = omega (
            arith,
            w.counted,
            length-entries-set t.table (k % table_length t) (chain_set k v (bucket t.table k))
                (omega (arith, w.placed.nonempty)),
            length-chain_set k v (bucket t.table k),
          );
        })

  pub put-IsValid : (k : ℕ) (v : V) (t : HashTable V) → IsValid t → IsValid (put k v t).0
  unfolding put
  put-IsValid k v t w = elim (Option-cases (get k t)) [
    | inl e ↦ rw (e, put) (put_new-IsValid k v t w e)
    | inr (old, e) ↦ put_old-IsValid k v old t w e
  ]
