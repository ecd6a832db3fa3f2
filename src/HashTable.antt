-- ===== src/HashTable.antt =====
-- xframe/include/comserv/unihashtable.h: CHashTable<UINT, TValue> with the default comparison, hash
-- (the key itself) and load factor 0.75, written 3 / 4. A chain lists its entries from the head.
-- `m_pcurEntry` is the key of the entry that it points at, which stands in the chain at
-- `m_uicurIndex`. The put sequence (seqHead, seqTail, seqCur) is left out.
pub mod Chains
pub mod Placed
pub mod Rehash
pub mod Laws
pub mod Removal
pub mod Traversal
pub mod Everywhere
pub mod Image
pub mod Calls
use tsm_proxy.Prelude.{
  ℕ, zero, suc, ◌+◌, ◌-◌, ◌*◌, ◌/◌, ◌%◌, ◌≡◌, refl, Bool, true, false, Option, none, some, List, [],
  ◌∷◌, ◌==◌, leb, ltb, if◌then◌else◌, length, get_or, set, drop, replicate,
}
use Chains.{Chain, chain_get, chain_set, chain_remove}

abbrev pub min_length : ℕ
min_length = 8

abbrev pub max_length : ℕ
max_length = 131072

pub record HashTable {ℓ} (V : Type ℓ) : Type ℓ where
  pub table : List (Chain V)
  pub entry_count : ℕ
  pub mod_count : ℕ
  pub threshold : ℕ
  pub cur_entry : Option ℕ
  pub cur_index : ℕ

-- The length that rehash gives the new table.
abbrev pub doubled : ℕ → ℕ
doubled n = if leb max_length (n * 2) then max_length else n * 2

unfoldable pub clamp_length : ℕ → ℕ
clamp_length n = if ltb n min_length then min_length else if ltb max_length n then max_length else n

module _ {ℓ} {V : Type ℓ} where
  abbrev pub table_length : HashTable V → ℕ
  table_length t = length t.table

  -- m_table[GET_HASH_INDEX(hash)]
  abbrev pub bucket : List (Chain V) → ℕ → Chain V
  bucket bs k = get_or bs (k % length bs) []

  unfoldable pub init : ℕ → HashTable V
  unfolding clamp_length
  init n = record {
    table = replicate (clamp_length n) [];
    entry_count = 0;
    mod_count = 0;
    threshold = clamp_length n * 3 / 4;
    cur_entry = none;
    cur_index = 0;
  }

  -- Every chain is emptied, and the length is kept.
  unfoldable pub empty_chains : List (Chain V) → List (Chain V)
  empty_chains [] = []
  empty_chains (c ∷ bs) = [] ∷ empty_chains bs

  unfoldable pub clear : HashTable V → HashTable V
  unfolding empty_chains
  clear t = record t {
    table = empty_chains t.table;
    entry_count = 0;
    mod_count = t.mod_count + 1;
    cur_entry = none;
    cur_index = 0;
  }

  unfoldable pub get : ℕ → HashTable V → Option V
  get k t = chain_get k (bucket t.table k)

  abbrev pub is_found : Option V → Bool
  is_found none = false
  is_found (some v) = true

  unfoldable pub contains_key : ℕ → HashTable V → Bool
  contains_key k t = is_found (chain_get k (bucket t.table k))

  -- A node put at the head of the chain of its index.
  unfoldable pub push_entry : ℕ → V → List (Chain V) → List (Chain V)
  push_entry k v bs = set bs (k % length bs) ((k, v) ∷ bucket bs k)

  -- The `while` loop of rehash: an old chain is popped from its head into the new table.
  unfoldable pub move_chain : Chain V → List (Chain V) → List (Chain V)
  move_chain [] new = new
  move_chain ((k, v) ∷ c) new = move_chain c (push_entry k v new)

  unfoldable pub move_table : List (Chain V) → List (Chain V) → List (Chain V)
  move_table [] new = new
  move_table (c ∷ bs) new = move_table bs (move_chain c new)

  unfoldable pub rehash : HashTable V → HashTable V
  rehash t = if leb max_length (table_length t) then t else record t {
    table = move_table t.table (replicate (doubled (table_length t)) []);
    threshold = doubled (table_length t) * 3 / 4;
    mod_count = t.mod_count + 1;
  }

  -- put_r for a key that no entry has.
  unfoldable pub put_new : ℕ → V → HashTable V → HashTable V
  put_new k v t =
      let counted = record t {
        entry_count = t.entry_count + 1;
        mod_count = t.mod_count + 1;
        cur_entry = none;
        cur_index = 0;
      } in
      let grown = if leb t.threshold (t.entry_count + 1) then rehash counted else counted in
      record grown { table = push_entry k v grown.table }

  -- The new table and the returned value: the old one of the key, or the one that was put.
  unfoldable pub put : ℕ → V → HashTable V → HashTable V × V
  put k v t = elim (get k t) [
    | none ↦ (put_new k v t, v)
    | some old ↦ (
      record t {
        table = set t.table (k % table_length t) (chain_set k v (bucket t.table k));
        mod_count = t.mod_count + 1;
      },
      old,
    )
  ]

  -- The key of the entry behind that of `k` in its chain.
  unfoldable pub head_key : Chain V → Option ℕ
  head_key [] = none
  head_key ((k, v) ∷ c) = some k

  unfoldable pub chain_next : ℕ → Chain V → Option ℕ
  unfolding head_key
  chain_next k [] = none
  chain_next k ((j, v) ∷ c) = if k == j then head_key c else chain_next k c

  -- The scan for an index with a chain: the key of its head, and the index.
  unfoldable pub first_chain : List (Chain V) → ℕ → Option (ℕ × ℕ)
  first_chain [] i = none
  first_chain ([] ∷ bs) i = first_chain bs (suc i)
  first_chain (((k, v) ∷ c) ∷ bs) i = some (k, i)

  unfoldable pub point_at : Option (ℕ × ℕ) → HashTable V → HashTable V × Bool
  point_at none t = (record t { cur_entry = none; cur_index = 0 }, false)
  point_at (some (k, i)) t = (record t { cur_entry = some k; cur_index = i }, true)

  unfoldable pub reset : HashTable V → HashTable V × Bool
  unfolding point_at
  reset t = point_at (first_chain t.table 0) t

  -- On to the entry behind in the chain, or to the next chain.
  unfoldable pub follow : Option ℕ → HashTable V → HashTable V × Bool
  unfolding point_at
  follow (some j) t = (record t { cur_entry = some j }, true)
  follow none t = point_at (first_chain (drop (suc t.cur_index) t.table) (suc t.cur_index)) t

  -- searchNextEntry, where m_pcurEntry is the entry of `k`.
  unfoldable pub search_next_entry : ℕ → HashTable V → HashTable V × Bool
  unfolding follow
  search_next_entry k t = follow (chain_next k (get_or t.table t.cur_index [])) t

  -- The value read is none where the source returns FALSE.
  unfoldable pub get_next : HashTable V → HashTable V × Option (ℕ × V)
  unfolding search_next_entry
  get_next t = elim t.cur_entry [
    | none ↦ (t, none)
    | some k ↦ elim (chain_get k (get_or t.table t.cur_index [])) [
      | none ↦ (t, none)
      | some v ↦ ((search_next_entry k t).0, some (k, v))
    ]
  ]

  -- The traversal moves on before the current entry is deleted.
  unfoldable pub step_past : ℕ → HashTable V → HashTable V
  unfolding search_next_entry
  step_past k t = elim t.cur_entry [
    | none ↦ t
    | some j ↦ if k == j then (search_next_entry k t).0 else t
  ]

  unfoldable pub remove : ℕ → HashTable V → HashTable V × Bool
  unfolding step_past
  remove k t = elim (get k t) [
    | none ↦ (t, false)
    | some v ↦
        let moved = step_past k t in
        (
          record moved {
            table = set t.table (k % table_length t) (chain_remove k (bucket t.table k));
            entry_count = t.entry_count - 1;
            mod_count = t.mod_count + 1;
          },
          true,
        )
  ]

  unfoldable pub size : HashTable V → ℕ
  size t = t.entry_count

  unfoldable pub is_empty : HashTable V → Bool
  is_empty t = t.entry_count == 0

  -- A write through the pointer that get returned for k, such as `item->count++`.
  unfoldable pub update : ℕ → (V → V) → HashTable V → HashTable V
  update k f t = elim (get k t) [
    | none ↦ t
    | some v ↦ record t {
      table = set t.table (k % table_length t) (chain_set k (f v) (bucket t.table k));
    }
  ]
