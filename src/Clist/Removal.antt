-- ===== src/Clist/Removal.antt =====
-- remove(value) and clear(): what is left of the items, and the number of removed nodes.
use mathlib.Core.List.{append-nil}
use tsm_proxy.Prelude.{
  ℕ, zero, suc, ◌+◌, ◌-◌, ◌≤◌, ◌<◌, ◌≡◌, refl, ap, ◌∙◌, sym, inl, inr, true, false, List, [], ◌∷◌,
  ◌++◌, arith, ◌==◌, if◌then◌else◌, length, take, drop, Bool-cases,
}
use tsm_proxy.Clist.{
  Clist, reset, pop_current, pop_front, pop_back, seek, contain, remove, remove_loop,
}
use tsm_proxy.Clist.Valid.{IsValid, contain-IsValid, pop_current-IsValid, reset-IsValid}

-- The items other than v, and the number of v among the items.
abbrev pub without : ℕ → List ℕ → List ℕ
without v [] = []
without v (x ∷ xs) = if x == v then without v xs else x ∷ without v xs

abbrev pub count_of : ℕ → List ℕ → ℕ
count_of v [] = 0
count_of v (x ∷ xs) = if x == v then suc (count_of v xs) else count_of v xs

-- One round of the loop: it stops where v does not occur, and else takes the first v away.
erase_first : ℕ → List ℕ → List ℕ
erase_first v [] = []
erase_first v (x ∷ xs) = if x == v then xs else x ∷ erase_first v xs

seek_found :
    (v : ℕ) (xs : List ℕ) (i : ℕ)
    → (seek v xs i).1 ≡ true
    → (d : ℕ) × ((seek v xs i).0 ≡ i + d)
      × (d < length xs)
      × (take d xs ++ drop (suc d) xs ≡ erase_first v xs)
      × (count_of v xs ≡ suc (count_of v (erase_first v xs)))
      × (without v xs ≡ without v (erase_first v xs))
unfolding seek erase_first
seek_found v [] i h = cc
seek_found v (x ∷ xs) i h = elim (Bool-cases (x == v)) [
  | inl e ↦ (0, ground arith, omega arith, ground arith, ground arith, ground arith)
  | inr e ↦
      let (d, a, b, c, n, w) = seek_found v xs (i + 1) (rw e at h) in
      (suc d, ground arith, omega arith, ground arith, ground arith, ground arith)
]

seek_missing :
    (v : ℕ) (xs : List ℕ) (i : ℕ)
    → (seek v xs i).1 ≡ false
    → (count_of v xs ≡ 0) × (without v xs ≡ xs)
unfolding seek
seek_missing v [] i h = (refl, refl)
seek_missing v (x ∷ xs) i h = ground (arith, seek_missing v xs (i + 1))

take_drop_last : (xs : List ℕ) (i : ℕ) → i + 1 ≡ length xs → drop (suc i) xs ≡ []
take_drop_last [] i h = refl
take_drop_last (x ∷ []) zero h = refl
take_drop_last (x ∷ y ∷ xs) zero h = absurd (omega arith)
take_drop_last (x ∷ []) (suc i) h = absurd (omega arith)
take_drop_last (x ∷ y ∷ xs) (suc i) h = take_drop_last (y ∷ xs) i (omega arith)

take_last :
    (xs : List ℕ) (i n : ℕ) → i + 1 ≡ length xs → n ≡ i → take n xs ≡ take i xs ++ drop (suc i) xs
take_last xs i n h e = rw (take_drop_last xs i h, append-nil) (ap (λ m. take m xs) e)

-- pop_current takes away the node at the cursor and no other.
pub pop_current_items :
    (l : Clist)
    → IsValid l
    → l.current < length l.items
    → (pop_current l).items ≡ take l.current l.items ++ drop (suc l.current) l.items
unfolding pop_current pop_front pop_back
pop_current_items l w h =
    ground (arith, take_last l.items l.current (length l.items - 1), w.counted)

reset_current : (l : Clist) → (reset l).current ≡ 0
unfolding reset
reset_current l = refl

reset_items : (l : Clist) → (reset l).items ≡ l.items
unfolding reset
reset_items l = refl

-- A round from the first node on takes the first match away.
round_items :
    (v : ℕ) (l : Clist)
    → IsValid l
    → (contain v (reset l)).1 ≡ true
    → ((pop_current (contain v (reset l)).0).items ≡ erase_first v l.items)
      × (count_of v l.items ≡ suc (count_of v (erase_first v l.items)))
      × (without v l.items ≡ without v (erase_first v l.items))
unfolding contain reset
round_items v l w h =
    let (d, a, b, c, n, o) = seek_found v l.items 0 h in
    let place : (seek v l.items 0).0 ≡ d = omega (arith, a) in
    (
      pop_current_items (record l { current = (seek v l.items 0).0 })
            (record { counted = w.counted; within = omega (arith, w.within) })
            (omega (arith, place))
          ∙ rw place c,
      n,
      o,
    )

round_stops :
    (v : ℕ) (l : Clist)
    → (contain v (reset l)).1 ≡ false
    → ((contain v (reset l)).0.items ≡ l.items)
      × (count_of v l.items ≡ 0)
      × (without v l.items ≡ l.items)
unfolding contain reset
round_stops v l h = let (n, o) = seek_missing v l.items 0 h in (refl, n, o)

remove_loop_lem :
    (fuel v : ℕ) (l : Clist) (i : ℕ)
    → IsValid l
    → count_of v l.items < fuel
    → ((remove_loop fuel v (reset l) i).0.items ≡ without v l.items)
      × ((remove_loop fuel v (reset l) i).1 ≡ i + count_of v l.items)
unfolding remove_loop
remove_loop_lem zero v l i w h = absurd (omega arith)
remove_loop_lem (suc fuel) v l i w h = elim (Bool-cases (contain v (reset l)).1) [
  | inl e ↦
      let (a, n, o) = round_items v l w e in
      let kept = pop_current-IsValid _ (contain-IsValid v _ (reset-IsValid l w)) in
      let fewer : count_of v (pop_current (contain v (reset l)).0).items < fuel =
        rw a (omega (arith, n)) in
      let (p, q) =
        remove_loop_lem fuel v (pop_current (contain v (reset l)).0) (i + 1) kept fewer in
      rw e (p ∙ ap (without v) a ∙ sym o, q ∙ rw a (omega (arith, n)))
  | inr e ↦ let (a, n, o) = round_stops v l e in rw e (a ∙ sym o, omega (arith, n))
]

count_of-le : (v : ℕ) (xs : List ℕ) → count_of v xs ≤ length xs
count_of-le v [] = omega arith
count_of-le v (x ∷ xs) = ground (arith, count_of-le v xs)

-- remove(value) takes every node with the value away, keeps the others in order, and returns how
-- many it took.
pub remove-without :
    (v : ℕ) (l : Clist)
    → IsValid l
    → ((remove v l).0.items ≡ without v l.items) × ((remove v l).1 ≡ count_of v l.items)
unfolding remove
remove-without v l w =
    let (a, b) =
      remove_loop_lem (length l.items + 1) v l 0 w (omega (arith, count_of-le v l.items)) in
    (a, b ∙ omega arith)
