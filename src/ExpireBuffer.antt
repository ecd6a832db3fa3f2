-- ===== src/ExpireBuffer.antt =====
-- xframe/include/comserv/cexpirebuffer.h: CExpireBuffer<TKey, TValue>, records from the one refreshed
-- the longest ago (m_pHead) to the last (m_pTail). A key is the number of a string: only the
-- equality of keys is used. m_map finds the node of a key, here a search in the list. The cursor
-- m_pCurrent with front, back, next and prev is left out. `now` is what time(0) returns, 0 as a time
-- argument stands for it.
pub mod Keys
pub mod Expiry
pub mod Replace
pub mod Refresh
pub mod Values
use tsm_proxy.Prelude.{
  ℕ, zero, suc, ◌+◌, ◌-◌, Bool, true, false, ◌&&◌, not, Option, none, some, List, [], ◌∷◌, ◌++◌,
  ◌==◌, leb, ltb, if◌then◌else◌, length, drop,
}

pub record Entry {ℓ} (V : Type ℓ) : Type ℓ where
  pub key : ℕ
  pub value : V
  pub refresh_time : ℕ

pub record ExpireBuffer {ℓ} (V : Type ℓ) : Type ℓ where
  pub entries : List (Entry V)
  pub count : ℕ
  pub count_max : ℕ
  pub destroy_old : Bool
  pub living_time : ℕ

abbrev pub time_or : ℕ → ℕ → ℕ
time_or now t = if t == 0 then now else t

module _ {ℓ} {V : Type ℓ} where
  unfoldable pub new : (count_max : ℕ) (destroy_old : Bool) (living_time : ℕ) → ExpireBuffer V
  new count_max destroy_old living_time = record {
    entries = [];
    count = 0;
    count_max = count_max;
    destroy_old = destroy_old;
    living_time = living_time;
  }

  -- `m_map.find(key)`
  unfoldable pub lookup : ℕ → List (Entry V) → Option V
  lookup k [] = none
  lookup k (e ∷ es) = let rest = lookup k es in if k == e.key then some e.value else rest

  unfoldable pub without_key : ℕ → List (Entry V) → List (Entry V)
  without_key k [] = []
  without_key k (e ∷ es) = let rest = without_key k es in if k == e.key then es else e ∷ rest

  abbrev pub is_some : Option V → Bool
  is_some none = false
  is_some (some v) = true

  unfoldable pub find : ℕ → ExpireBuffer V → Option V
  find k b = if b.count == 0 then none else lookup k b.entries

  unfoldable pub pop_front : ExpireBuffer V → ExpireBuffer V × Bool
  pop_front b =
      if ltb 0 b.count
      then (record b { entries = drop 1 b.entries; count = b.count - 1 }, true)
      else (b, false)

  -- Behind the search of pop: the value that was there.
  unfoldable pub take_out : ℕ → ExpireBuffer V → Option V → ExpireBuffer V × Option V
  take_out k b none = (b, none)
  take_out k b (some v) =
      (record b { entries = without_key k b.entries; count = b.count - 1 }, some v)

  unfoldable pub pop : ℕ → ExpireBuffer V → ExpireBuffer V × Option V
  unfolding find take_out
  pop k b = take_out k b (find k b)

  unfoldable pub append : (now key : ℕ) → V → ExpireBuffer V → ExpireBuffer V
  append now key v b = record b {
    entries = b.entries ++ record { key = key; value = v; refresh_time = now } ∷ [];
    count = b.count + 1;
  }

  -- 0: not added, 1: added, 2: added in place of the oldest.
  unfoldable pub push : (now key : ℕ) → V → ExpireBuffer V → ExpireBuffer V × ℕ
  unfolding append pop_front
  push now key v b =
      if is_some (lookup key b.entries)
      then (b, 0)
      else if not b.destroy_old && (ltb 0 b.count_max && leb b.count_max b.count)
      then (b, 0)
      else if ltb 0 b.count_max && ltb b.count_max (b.count + 1)
      then ((pop_front (append now key v b)).0, 2)
      else (append now key v b, 1)

  -- The test of pop_front_old, on the head.
  unfoldable pub is_old : ℕ → ℕ → List (Entry V) → Bool
  is_old living time [] = false
  is_old living time (e ∷ es) = ltb (living + e.refresh_time) time

  unfoldable pub pop_front_old : (now currenttime : ℕ) → ExpireBuffer V → ExpireBuffer V × Bool
  unfolding is_old pop_front
  pop_front_old now currenttime b =
      if ltb 0 b.count && is_old b.living_time (time_or now currenttime) b.entries
      then pop_front b
      else (b, false)

  -- One round of pop_old: the loop goes on where pop_front_old took a record away.
  unfoldable pub next_round :
      (ExpireBuffer V → ExpireBuffer V × ℕ) → ℕ → ExpireBuffer V × Bool → ExpireBuffer V × ℕ
  next_round again n (b, true) = again b
  next_round again n (b, false) = (b, n)

  -- `while(pop_front_old(currenttime)) count++;`, at most once for each record.
  unfoldable pub pop_old_loop : ℕ → (now currenttime : ℕ) → ExpireBuffer V → ℕ → ExpireBuffer V × ℕ
  unfolding pop_front_old next_round
  pop_old_loop zero now currenttime b n = (b, n)
  pop_old_loop (suc fuel) now currenttime b n =
      next_round (λ u. pop_old_loop fuel now currenttime u (n + 1)) n
        (pop_front_old now currenttime b)

  unfoldable pub pop_old : (now currenttime : ℕ) → ExpireBuffer V → ExpireBuffer V × ℕ
  unfolding pop_old_loop
  pop_old now currenttime b = pop_old_loop b.count now currenttime b 0

  -- Behind the search of update: the node is moved to the tail.
  unfoldable pub refresh :
      (now key refreshtime : ℕ) → ExpireBuffer V → Option V → ExpireBuffer V × Bool
  refresh now key refreshtime b none = (b, false)
  refresh now key refreshtime b (some v) = (
    record b {
      entries =
          without_key key b.entries
          ++ record { key = key; value = v; refresh_time = time_or now refreshtime } ∷ [];
    },
    true,
  )

  unfoldable pub update : (now key refreshtime : ℕ) → ExpireBuffer V → ExpireBuffer V × Bool
  unfolding refresh
  update now key refreshtime b = refresh now key refreshtime b (lookup key b.entries)

  -- The write of a new value through `operator[]`.
  unfoldable pub set_value : ℕ → (V → V) → List (Entry V) → List (Entry V)
  set_value k f [] = []
  set_value k f (e ∷ es) =
      let rest = set_value k f es in
      if k == e.key then record e { value = f e.value } ∷ es else e ∷ rest
