-- ===== src/Clist/Valid.antt =====
-- The invariant of CList: the counter counts the nodes, and the cursor is on a node or the sentinel.
use tsm_proxy.Prelude.{
  ℕ, zero, suc, ◌+◌, ◌-◌, ◌≤◌, ◌<◌, ◌≡◌, refl, inl, inr, List, [], ◌∷◌, ◌++◌, arith, length, take,
  drop, length-append, length-set, length-take, length-drop, Bool-cases,
}
use tsm_proxy.Clist.{
  Clist, new, front, back, next, prev, reset, addr, get, set_at, push_front, push_back, pop_front,
  pop_back, pop_current, seek, contain, remove, remove_loop, clear, clear_loop, insert, insert_sort,
  sort_place,
}

pub record IsValid (l : Clist) : Type 0 where
  pub counted : l.m_count ≡ length l.items
  pub within : l.current ≤ length l.items

-- The calls that change a list.
pub data Call : Type 0 where
  fronts backs nexts prevs resets pops_front pops_back pops_current clears : Call
  gets pushes_front pushes_back contains removes inserts : ℕ → Call
  sets sorts : ℕ → ℕ → Call

abbrev pub apply : Call → Clist → Clist
apply fronts l = (front l).0
apply backs l = (back l).0
apply nexts l = (next l).0
apply prevs l = (prev l).0
apply resets l = reset l
apply pops_front l = pop_front l
apply pops_back l = pop_back l
apply pops_current l = pop_current l
apply clears l = clear l
apply (gets pos) l = (get pos l).0
apply (pushes_front v) l = push_front v l
apply (pushes_back v) l = push_back v l
apply (contains v) l = (contain v l).0
apply (removes v) l = (remove v l).0
apply (inserts v) l = insert v l
apply (sets pos v) l = (set_at pos v l).0
apply (sorts v mode) l = insert_sort v mode l

pub new-IsValid : IsValid new
unfolding new
new-IsValid = record { counted = refl; within = omega arith }

length-without :
    (i : ℕ) (xs : List ℕ) → i < length xs → length (take i xs ++ drop (suc i) xs) + 1 ≡ length xs
length-without i xs h =
    omega
      (arith, length-append (take i xs) (drop (suc i) xs), length-take i xs, length-drop (suc i) xs)

length-with :
    (i v : ℕ) (xs : List ℕ) → i ≤ length xs → length (take i xs ++ v ∷ drop i xs) ≡ length xs + 1
length-with i v xs h =
    omega (arith, length-append (take i xs) (v ∷ drop i xs), length-take i xs, length-drop i xs)

pub pop_current-IsValid : (l : Clist) → IsValid l → IsValid (pop_current l)
unfolding pop_current
pop_current-IsValid l w = ground (
  arith,
  length-without l.current l.items,
  length-take (length l.items - 1) l.items,
  length-drop 1 l.items,
)

seek_bounds :
    (v : ℕ) (xs : List ℕ) (i : ℕ) → (i ≤ (seek v xs i).0) × ((seek v xs i).0 ≤ i + length xs)
unfolding seek
seek_bounds v [] i = omega arith
seek_bounds v (x ∷ xs) i = ground (arith, seek_bounds v xs (i + 1))

pub contain-IsValid : (v : ℕ) (l : Clist) → IsValid l → IsValid (contain v l).0
unfolding contain
contain-IsValid v l w = record {
  counted = w.counted;
  within = omega (
    arith,
    w.within,
    seek_bounds v (drop l.current l.items) l.current,
    length-drop l.current l.items,
  );
}

pub reset-IsValid : (l : Clist) → IsValid l → IsValid (reset l)
unfolding reset
reset-IsValid l w = record { counted = w.counted; within = omega arith }

remove_loop-IsValid :
    (fuel v : ℕ) (l : Clist) (i : ℕ) → IsValid l → IsValid (remove_loop fuel v l i).0
unfolding remove_loop
remove_loop-IsValid zero v l i w = w
remove_loop-IsValid (suc fuel) v l i w = elim (Bool-cases (contain v l).1) [
  | inl e ↦ rw e (
      remove_loop-IsValid fuel v _ (i + 1)
        (reset-IsValid _ (pop_current-IsValid _ (contain-IsValid v l w))))
  | inr e ↦ rw e (contain-IsValid v l w)
]

pub pop_front-IsValid : (l : Clist) → IsValid l → IsValid (pop_front l)
unfolding pop_front
pop_front-IsValid l w = ground (arith, length-drop 1 l.items)

pop_back-IsValid : (l : Clist) → IsValid l → IsValid (pop_back l)
unfolding pop_back
pop_back-IsValid l w = ground (arith, length-take (length l.items - 1) l.items)

clear_loop-IsValid : (fuel : ℕ) (l : Clist) → IsValid l → IsValid (clear_loop fuel l)
unfolding clear_loop
clear_loop-IsValid zero l w = w
clear_loop-IsValid (suc fuel) l w =
    ground (arith, clear_loop-IsValid fuel (pop_front l), pop_front-IsValid l w)

push_front-IsValid : (v : ℕ) (l : Clist) → IsValid l → IsValid (push_front v l)
unfolding push_front
push_front-IsValid v l w = ground arith

push_back-IsValid : (v : ℕ) (l : Clist) → IsValid l → IsValid (push_back v l)
unfolding push_back
push_back-IsValid v l w = ground (arith, length-append l.items (v ∷ []))

insert-IsValid : (v : ℕ) (l : Clist) → IsValid l → IsValid (insert v l)
unfolding insert
insert-IsValid v l w =
    ground (arith, length-append l.items (v ∷ []), length-with (suc l.current) v l.items)

pub sort_place_bound :
    (v mode : ℕ) (xs : List ℕ) (i : ℕ)
    → (i ≤ sort_place v mode xs i) × (sort_place v mode xs i ≤ i + length xs)
unfolding sort_place
sort_place_bound v mode [] i = omega arith
sort_place_bound v mode (x ∷ xs) i = ground (arith, sort_place_bound v mode xs (i + 1))

insert_sort-IsValid : (v mode : ℕ) (l : Clist) → IsValid l → IsValid (insert_sort v mode l)
unfolding insert_sort
insert_sort-IsValid v mode l w =
    let place = sort_place v mode l.items 0 in
    ground (
      arith,
      length-append l.items (v ∷ []),
      length-with (sort_place v mode l.items 0) v l.items,
      sort_place_bound v mode l.items 0,
    )

move-IsValid :
    (l : Clist)
    → IsValid l
    → IsValid (front l).0 × IsValid (back l).0 × IsValid (next l).0 × IsValid (prev l).0
unfolding front back next prev
move-IsValid l w = ground arith

get-IsValid : (pos : ℕ) (l : Clist) → IsValid l → IsValid (get pos l).0
unfolding get addr
get-IsValid pos l w = ground arith

set_at-IsValid : (pos v : ℕ) (l : Clist) → IsValid l → IsValid (set_at pos v l).0
unfolding set_at addr
set_at-IsValid pos v l w = ground (arith, length-set l.items pos v)

-- Every call that changes a list keeps the counter equal to the number of nodes and the cursor on
-- a node or on the sentinel.
pub apply-IsValid : (c : Call) (l : Clist) → IsValid l → IsValid (apply c l)
unfolding clear remove
apply-IsValid fronts l w = (move-IsValid l w).0
apply-IsValid backs l w = (move-IsValid l w).1
apply-IsValid nexts l w = (move-IsValid l w).2
apply-IsValid prevs l w = (move-IsValid l w).3
apply-IsValid resets l w = reset-IsValid l w
apply-IsValid pops_front l w = pop_front-IsValid l w
apply-IsValid pops_back l w = pop_back-IsValid l w
apply-IsValid pops_current l w = pop_current-IsValid l w
apply-IsValid clears l w = clear_loop-IsValid (l.m_count + 1) l w
apply-IsValid (gets pos) l w = get-IsValid pos l w
apply-IsValid (pushes_front v) l w = push_front-IsValid v l w
apply-IsValid (pushes_back v) l w = push_back-IsValid v l w
apply-IsValid (contains v) l w = contain-IsValid v l w
apply-IsValid (removes v) l w =
    remove_loop-IsValid (length l.items + 1) v (reset l) 0 (reset-IsValid l w)
apply-IsValid (inserts v) l w = insert-IsValid v l w
apply-IsValid (sets pos v) l w = set_at-IsValid pos v l w
apply-IsValid (sorts v mode) l w = insert_sort-IsValid v mode l w

-- Any run of calls from a new list.
unfoldable pub run : List Call → Clist → Clist
run [] l = l
run (c ∷ cs) l = run cs (apply c l)

pub run-IsValid : (cs : List Call) (l : Clist) → IsValid l → IsValid (run cs l)
unfolding run
run-IsValid [] l w = w
run-IsValid (c ∷ cs) l w = run-IsValid cs (apply c l) (apply-IsValid c l w)
