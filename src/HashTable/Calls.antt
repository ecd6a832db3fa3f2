-- ===== src/HashTable/Calls.antt =====
-- The table as an implementation of a finite map: any sequence of calls answers as the map does.
use tsm_proxy.Prelude.{
  ℕ, ◌≡◌, refl, ap, ◌∙◌, Option, none, some, List, [], ◌∷◌, ◌==◌, if◌then◌else◌,
}
use tsm_proxy.HashTable.{HashTable, bucket, init, clear, get, put, remove, reset, get_next}
use tsm_proxy.HashTable.Chains.{Chain, chain_get}
use tsm_proxy.HashTable.Laws.{IsValid, get-put, put-IsValid}
use tsm_proxy.HashTable.Removal.{
  get-remove, remove-IsValid, clear-IsValid, get-clear, init-IsValid, get-init,
}
use tsm_proxy.HashTable.Traversal.{reset_table, get_next_table}

-- The calls that change a table.
pub data Call {ℓ} (V : Type ℓ) : Type ℓ where
  inits : ℕ → Call V
  clears resets gets_next : Call V
  puts : ℕ → V → Call V
  removes : ℕ → Call V

module _ {ℓ} {V : Type ℓ} where
  unfoldable pub apply : Call V → HashTable V → HashTable V
  apply (inits n) t = init n
  apply clears t = clear t
  apply resets t = (reset t).0
  apply gets_next t = (get_next t).0
  apply (puts k v) t = (put k v t).0
  apply (removes k) t = (remove k t).0

  unfoldable pub run : List (Call V) → HashTable V → HashTable V
  unfolding apply
  run [] t = t
  run (c ∷ cs) t = run cs (apply c t)

  -- What each call does to the map.
  abbrev pub map_step : Call V → (ℕ → Option V) → ℕ → Option V
  map_step (inits n) m j = none
  map_step clears m j = none
  map_step resets m j = m j
  map_step gets_next m j = m j
  map_step (puts k v) m j = if k == j then some v else m j
  map_step (removes k) m j = if k == j then none else m j

  abbrev pub map_run : List (Call V) → (ℕ → Option V) → ℕ → Option V
  map_run [] m j = m j
  map_run (c ∷ cs) m j = map_run cs (map_step c m) j

  get_same : (j : ℕ) (t u : HashTable V) → u.table ≡ t.table → get j u ≡ get j t
  unfolding get
  get_same j t u e = ap (λ (bs : List (Chain V)). chain_get j (bucket bs j)) e

  kept :
      (t u : HashTable V)
      → (u.table ≡ t.table) × (u.entry_count ≡ t.entry_count)
      → IsValid t
      → IsValid u
  kept t u (a, b) w = record { placed = rw a w.placed; counted = rw a (b ∙ w.counted) }

  apply-IsValid : (c : Call V) (t : HashTable V) → IsValid t → IsValid (apply c t)
  unfolding apply
  apply-IsValid (inits n) t w = init-IsValid V n
  apply-IsValid clears t w = clear-IsValid t w
  apply-IsValid resets t w = kept t (reset t).0 (reset_table t) w
  apply-IsValid gets_next t w = kept t (get_next t).0 (get_next_table t) w
  apply-IsValid (puts k v) t w = put-IsValid k v t w
  apply-IsValid (removes k) t w = remove-IsValid k t w

  get-apply :
      (c : Call V) (t : HashTable V) (j : ℕ)
      → IsValid t
      → get j (apply c t) ≡ map_step c (λ i. get i t) j
  unfolding apply
  get-apply (inits n) t j w = get-init V j n
  get-apply clears t j w = get-clear j t
  get-apply resets t j w = get_same j t (reset t).0 (reset_table t).0
  get-apply gets_next t j w = get_same j t (get_next t).0 (get_next_table t).0
  get-apply (puts k v) t j w = get-put j k v t w
  get-apply (removes k) t j w = get-remove j k t w

  map_run-same :
      (cs : List (Call V)) (m n : ℕ → Option V) (j : ℕ)
      → ((i : ℕ) → m i ≡ n i)
      → map_run cs m j ≡ map_run cs n j
  map_run-same [] m n j e = e j
  map_run-same (c ∷ cs) m n j e = map_run-same cs (map_step c m) (map_step c n) j (step c)
    where
      step : (d : Call V) (i : ℕ) → map_step d m i ≡ map_step d n i
      step (inits k) i = refl
      step clears i = refl
      step resets i = e i
      step gets_next i = e i
      step (puts k v) i = rw (e i) refl
      step (removes k) i = rw (e i) refl

  -- After any calls, the growth of the table, the chains and the traversals included, get answers
  -- what the map answers after the same calls, and the table is well formed.
  pub get-run :
      (cs : List (Call V)) (t : HashTable V)
      → IsValid t
      → ((j : ℕ) → get j (run cs t) ≡ map_run cs (λ i. get i t) j) × IsValid (run cs t)
  unfolding run
  get-run [] t w = ((λ j. refl), w)
  get-run (c ∷ cs) t w =
      let (answers, valid) = get-run cs (apply c t) (apply-IsValid c t w) in
      (
        (λ j. answers j ∙ map_run-same cs _ (map_step c (λ i. get i t)) j (λ i. get-apply c t i w)),
        valid,
      )
