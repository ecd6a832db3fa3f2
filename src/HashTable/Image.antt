-- ===== src/HashTable/Image.antt =====
-- A table seen through a function of its values: traversals and writes that the function does not
-- see are those of the image.
use tsm_proxy.Prelude.{
  ℕ, zero, suc, ◌≡◌, refl, ap, ◌∙◌, sym, inl, inr, Bool, Option, none, some, List, [], ◌∷◌, ◌++◌,
  ◌%◌, arith, length, get_or, set, drop, Option-cases,
}
use tsm_proxy.HashTable.Chains.{Chain, chain_get, chain_set, Distinct}
use tsm_proxy.HashTable.Placed.{AllAt, Placed, entries}
use tsm_proxy.HashTable.Traversal.{get_next-some, get_next-none, get_next_dangling}
use tsm_proxy.HashTable.{
  HashTable, bucket, table_length, get, update, head_key, chain_next, first_chain, point_at, reset,
  follow, search_next_entry, get_next,
}

module _ {ℓ κ} {V : Type ℓ} {W : Type κ} (f : V → W) where
  unfoldable pub image_chain : Chain V → Chain W
  image_chain [] = []
  image_chain ((k, v) ∷ c) = (k, f v) ∷ image_chain c

  pub image_table : List (Chain V) → List (Chain W)
  image_table [] = []
  image_table (c ∷ bs) = image_chain c ∷ image_table bs

  abbrev pub image : HashTable V → HashTable W
  image t = record {
    table = image_table t.table;
    entry_count = t.entry_count;
    mod_count = t.mod_count;
    threshold = t.threshold;
    cur_entry = t.cur_entry;
    cur_index = t.cur_index;
  }

  abbrev pub map_value : Option V → Option W
  map_value none = none
  map_value (some v) = some (f v)

  abbrev pub map_entry : Option (ℕ × V) → Option (ℕ × W)
  map_entry none = none
  map_entry (some (k, v)) = some (k, f v)

  chain_get-image : (k : ℕ) (c : Chain V) → chain_get k (image_chain c) ≡ map_value (chain_get k c)
  unfolding chain_get image_chain
  chain_get-image k [] = refl
  chain_get-image k ((j, v) ∷ c) = ground (arith, chain_get-image k c)

  get_or-image :
      (bs : List (Chain V)) (i : ℕ) → get_or (image_table bs) i [] ≡ image_chain (get_or bs i [])
  unfolding image_table image_chain
  get_or-image [] i = refl
  get_or-image (c ∷ bs) zero = refl
  get_or-image (c ∷ bs) (suc i) = get_or-image bs i

  drop-image : (n : ℕ) (bs : List (Chain V)) → drop n (image_table bs) ≡ image_table (drop n bs)
  unfolding image_table
  drop-image zero bs = refl
  drop-image (suc n) [] = refl
  drop-image (suc n) (c ∷ bs) = drop-image n bs

  head_key-image : (c : Chain V) → head_key (image_chain c) ≡ head_key c
  unfolding head_key image_chain
  head_key-image [] = refl
  head_key-image ((k, v) ∷ c) = refl

  chain_next-image : (k : ℕ) (c : Chain V) → chain_next k (image_chain c) ≡ chain_next k c
  unfolding chain_next image_chain
  chain_next-image k [] = refl
  chain_next-image k ((j, v) ∷ c) = rw (head_key-image c, chain_next-image k c)

  first_chain-image :
      (bs : List (Chain V)) (i : ℕ) → first_chain (image_table bs) i ≡ first_chain bs i
  unfolding first_chain image_table image_chain
  first_chain-image [] i = refl
  first_chain-image ([] ∷ bs) i = first_chain-image bs (suc i)
  first_chain-image (((k, v) ∷ c) ∷ bs) i = refl

  point_at-image :
      (o : Option (ℕ × ℕ)) (t : HashTable V)
      → point_at o (image t) ≡ (image (point_at o t).0, (point_at o t).1)
  unfolding point_at
  point_at-image none t = refl
  point_at-image (some (k, i)) t = refl

  pub reset-image : (t : HashTable V) → (reset (image t)).0 ≡ image (reset t).0
  unfolding reset
  reset-image t =
      rw (first_chain-image t.table 0)
        (ap (λ (p : HashTable W × Bool). p.0) (point_at-image (first_chain t.table 0) t))

  follow-image : (o : Option ℕ) (t : HashTable V) → (follow o (image t)).0 ≡ image (follow o t).0
  unfolding follow
  follow-image (some j) t = refl
  follow-image none t =
      rw
        (
          drop-image (suc t.cur_index) t.table,
          first_chain-image (drop (suc t.cur_index) t.table) (suc t.cur_index),
        )
        (ap (λ (p : HashTable W × Bool). p.0)
          (point_at-image (first_chain (drop (suc t.cur_index) t.table) (suc t.cur_index)) t))

  search_next_entry-image :
      (k : ℕ) (t : HashTable V)
      → (search_next_entry k (image t)).0 ≡ image (search_next_entry k t).0
  unfolding search_next_entry
  search_next_entry-image k t =
      rw (get_or-image t.table t.cur_index, chain_next-image k (get_or t.table t.cur_index []))
        (follow-image (chain_next k (get_or t.table t.cur_index [])) t)

  -- A step of a traversal of the image is the image of the step.
  pub get_next-image :
      (t : HashTable V) → get_next (image t) ≡ (image (get_next t).0, map_entry (get_next t).1)
  get_next-image t = elim (Option-cases t.cur_entry) [
    | inl e ↦
        get_next-none (image t) e
        ∙ sym (
            ap (λ (p : HashTable V × Option (ℕ × V)). (image p.0, map_entry p.1))
              (get_next-none t e))
    | inr (k, e) ↦
        let here = get_or t.table t.cur_index [] in
        let seen : chain_get k (get_or (image t).table t.cur_index [])
            ≡ map_value (chain_get k here) =
          ap (chain_get k) (get_or-image t.table t.cur_index) ∙ chain_get-image k here in
        elim (Option-cases (chain_get k here)) [
          | inl gone ↦
              get_next_dangling (image t) k e (seen ∙ ap map_value gone)
              ∙ sym (
                  ap (λ (p : HashTable V × Option (ℕ × V)). (image p.0, map_entry p.1))
                    (get_next_dangling t k e gone))
          | inr (v, there) ↦
              get_next-some (image t) k (f v) e (seen ∙ ap map_value there)
              ∙ ap (λ (u : HashTable W). (u, some (k, f v))) (search_next_entry-image k t)
              ∙ sym (
                  ap (λ (p : HashTable V × Option (ℕ × V)). (image p.0, map_entry p.1))
                    (get_next-some t k v e there))
        ]
  ]

  image_chain-set :
      (k : ℕ) (v w : V) (c : Chain V)
      → chain_get k c ≡ some v
      → f w ≡ f v
      → image_chain (chain_set k w c) ≡ image_chain c
  unfolding image_chain chain_get chain_set
  image_chain-set k v w [] h e = refl
  image_chain-set k v w ((j, x) ∷ c) h e = ground (arith, image_chain-set k v w c)

  image_table-set :
      (bs : List (Chain V)) (i : ℕ) (c : Chain V)
      → image_chain c ≡ image_chain (get_or bs i [])
      → image_table (set bs i c) ≡ image_table bs
  unfolding image_table
  image_table-set [] i c h = refl
  image_table-set (b ∷ bs) zero c h = ap (λ x. x ∷ image_table bs) h
  image_table-set (b ∷ bs) (suc i) c h = ap (λ x. image_chain b ∷ x) (image_table-set bs i c h)

  pub image-update :
      (k : ℕ) (g : V → V) (t : HashTable V)
      → ((v : V) → f (g v) ≡ f v)
      → image (update k g t) ≡ image t
  unfolding update get
  image-update k g t same = elim (Option-cases (get k t)) [
    | inl e ↦ rw (e, update)
    | inr (v, e) ↦
        rw (e, update)
          (ap (λ bs. record (image t) { table = bs })
            (image_table-set t.table (k % table_length t) _
              (image_chain-set k v (g v) (bucket t.table k) e (same v))))
  ]

  pub image_chain-append : (c d : Chain V) → image_chain (c ++ d) ≡ image_chain c ++ image_chain d
  unfolding image_chain
  image_chain-append [] d = refl
  image_chain-append ((k, v) ∷ c) d = ap (λ x. (k, f v) ∷ x) (image_chain-append c d)

  pub entries-image : (bs : List (Chain V)) → entries (image_table bs) ≡ image_chain (entries bs)
  unfolding image_table image_chain
  entries-image [] = refl
  entries-image (c ∷ bs) =
      ap (λ x. image_chain c ++ x) (entries-image bs) ∙ sym (image_chain-append c (entries bs))

  length-image : (bs : List (Chain V)) → length (image_table bs) ≡ length bs
  unfolding image_table
  length-image [] = refl
  length-image (c ∷ bs) = ap suc (length-image bs)

  length-image_chain : (c : Chain V) → length (image_chain c) ≡ length c
  unfolding image_chain
  length-image_chain [] = refl
  length-image_chain ((k, v) ∷ c) = ap suc (length-image_chain c)

  AllAt-image : (n i : ℕ) (c : Chain V) → AllAt n i c → AllAt n i (image_chain c)
  unfolding image_chain
  AllAt-image n i [] a = tt
  AllAt-image n i ((k, v) ∷ c) a = (a.0, AllAt-image n i c a.1)

  Distinct-image : (c : Chain V) → Distinct c → Distinct (image_chain c)
  unfolding image_chain
  Distinct-image [] d = tt
  Distinct-image ((k, v) ∷ c) d = (chain_get-image k c ∙ ap map_value d.0, Distinct-image c d.1)

  pub image-Placed : (t : HashTable V) → Placed t.table → Placed (image t).table
  image-Placed t p = record {
    nonempty = rw (length-image t.table) p.nonempty;
    at_index = λ i.
        rw (get_or-image t.table i, length-image t.table)
          (AllAt-image (length t.table) i (get_or t.table i []) (p.at_index i));
    distinct =
        λ i. rw (get_or-image t.table i) (Distinct-image (get_or t.table i []) (p.distinct i));
  }

  pub image-entries-length :
      (t : HashTable V) → length (entries (image t).table) ≡ length (entries t.table)
  image-entries-length t = ap length (entries-image t.table) ∙ length-image_chain (entries t.table)
