-- ===== src/Examples/Tables.antt =====
-- The hash table and the list, at concrete values.
use tsm_proxy.Prelude.{ℕ, ◌≡◌, refl, List, [], ◌∷◌, arith, length}
use tsm_proxy.HashTable
use tsm_proxy.HashTable.{
  HashTable, bucket, put, remove, rehash, init, get, reset, put_new, push_entry, step_past,
  search_next_entry, follow, point_at, first_chain, get_next, clamp_length, chain_next, head_key,
}
use tsm_proxy.HashTable.Chains.{chain_get, chain_set, chain_remove}
use tsm_proxy.HashTable.Placed.{entries}
use tsm_proxy.HashTable.Laws
use tsm_proxy.HashTable.Removal.{init-IsValid}
use tsm_proxy.HashTable.Calls.{Call, puts, removes, resets, gets_next, run, apply, map_run, get-run}
use tsm_proxy.Clist.{Clist, new}
use tsm_proxy.Clist
use tsm_proxy.Clist.Valid

-- Keys 1 and 9 share a chain of the eight that the table starts with.
abbrev calls : List (Call ℕ)
calls = puts 1 10 ∷ puts 9 90 ∷ puts 1 11 ∷ resets ∷ gets_next ∷ removes 9 ∷ puts 2 20 ∷ []

abbrev table : HashTable ℕ
table = run calls (init 0)

get-run_example :
    ((j : ℕ) → get j (run calls (init 0)) ≡ map_run calls (λ i. get i (init 0)) j)
    × HashTable.Laws.IsValid (run calls (init 0))
get-run_example = get-run calls (init 0) (init-IsValid ℕ 0)

table-IsValid : HashTable.Laws.IsValid table
table-IsValid = (get-run calls (init 0) (init-IsValid ℕ 0)).1

two_entries : length (entries table.table) ≡ 2
unfolding run apply put put_new push_entry rehash init remove step_past search_next_entry follow
    point_at reset first_chain get_next get clamp_length chain_get chain_set chain_remove chain_next
    head_key
two_entries = refl

abbrev numbers : Clist
numbers = record { items = 5 ∷ 3 ∷ 5 ∷ []; current = 1; m_count = 3 }

numbers-IsValid : Clist.Valid.IsValid numbers
numbers-IsValid = record { counted = refl; within = omega arith }

run-IsValid_example :
    Clist.Valid.IsValid
      (Clist.Valid.run (Clist.Valid.pushes_back 4 ∷ Clist.Valid.removes 5 ∷ []) numbers)
run-IsValid_example =
    Clist.Valid.run-IsValid (Clist.Valid.pushes_back 4 ∷ Clist.Valid.removes 5 ∷ []) numbers
      numbers-IsValid
