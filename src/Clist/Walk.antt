-- ===== src/Clist/Walk.antt =====
-- front, next and get as a walk over the items.
use tsm_proxy.Prelude.{
  ℕ, zero, suc, ◌+◌, ◌≤◌, ◌≡◌, refl, ap, ◌∙◌, sym, subst, Bool, true, false, none, some, List, [],
  ◌∷◌, arith, ◌==◌, ltb, if◌then◌else◌, length, get_elem?, drop, ==_refl, ==_ne,
}
use tsm_proxy.Clist.{Clist, fetch, front, next, reset, addr, get}
use tsm_proxy.Clist.Valid.{IsValid, apply-IsValid, nexts}

module _ {ℓ} {A : Type ℓ} where
  pub drop_cons :
      (i : ℕ) (xs : List A) (y : A) (ys : List A)
      → drop i xs ≡ y ∷ ys
      → (get_elem? xs i ≡ some y) × (drop (suc i) xs ≡ ys) × (length xs ≡ i + suc (length ys))
  drop_cons zero [] y ys h = cc
  drop_cons zero (x ∷ xs) y ys h = ground arith
  drop_cons (suc i) [] y ys h = cc
  drop_cons (suc i) (x ∷ xs) y ys h = ground (arith, drop_cons i xs y ys)

-- At a node that is not the last, next moves to the node behind it and reads it.
pub next-some :
    (l : Clist) (x y : ℕ) (ys : List ℕ)
    → drop l.current l.items ≡ x ∷ y ∷ ys
    → fetch (next l) ≡ (record l { current = l.current + 1 }, some y)
unfolding next
next-some l x y ys h =
    let (a, b, c) = drop_cons l.current l.items x (y ∷ ys) h in
    let (d, e, f) = drop_cons (suc l.current) l.items y ys b in
    let off : (l.current == length l.items) ≡ false = ==_ne _ _ (omega (arith, c)) in
    let inner : (l.current + 1 == length l.items) ≡ false = ==_ne _ _ (omega (arith, c)) in
    let place : l.current + 1 ≡ suc l.current = omega arith in
    rw (off, next, inner) (ap (λ o. (record l { current = l.current + 1 }, o)) (rw place d))

-- At the last node next fails and leaves the cursor.
pub next_last : (l : Clist) (x : ℕ) → drop l.current l.items ≡ x ∷ [] → fetch (next l) ≡ (l, none)
unfolding next
next_last l x h =
    let (a, b, c) = drop_cons l.current l.items x [] h in
    let off : (l.current == length l.items) ≡ false = ==_ne _ _ (omega (arith, c)) in
    let inner : (l.current + 1 == length l.items) ≡ true =
      ap (λ n. n == length l.items) (omega (arith, c)) ∙ ==_refl (length l.items) in
    rw (off, next, inner)

pub front-none : (l : Clist) → l.items ≡ [] → fetch (front l) ≡ (l, none)
unfolding front
front-none l h = ground arith

pub front-some :
    (l : Clist) (x : ℕ) (xs : List ℕ)
    → IsValid l
    → l.items ≡ x ∷ xs
    → fetch (front l) ≡ (record l { current = 0 }, some x)
unfolding front
front-some l x xs w h = ground arith

pub get_elem?_out : (xs : List ℕ) (i : ℕ) → length xs ≤ i → get_elem? xs i ≡ none
get_elem?_out [] i h = refl
get_elem?_out (x ∷ xs) zero h = absurd (omega arith)
get_elem?_out (x ∷ xs) (suc i) h = get_elem?_out xs i (omega arith)

-- get moves the cursor to the position and reads the item there; past the end it does nothing.
pub get_lem :
    (pos : ℕ) (l : Clist)
    → IsValid l
    → get pos l ≡ (
        if ltb pos (length l.items)
        then (record l { current = pos }, get_elem? l.items pos)
        else (l, none))
unfolding get addr
get_lem pos l w = ground arith

fetch_list : (r : Clist × Bool) → (fetch r).0 ≡ r.0
fetch_list (l, true) = refl
fetch_list (l, false) = refl

next_items : (l : Clist) → (next l).0.items ≡ l.items
unfolding next
next_items l = ground arith

pub next_keeps :
    (l : Clist) → IsValid l → ((fetch (next l)).0.items ≡ l.items) × IsValid (fetch (next l)).0
next_keeps l w = (
  ap (λ (k : Clist). k.items) (fetch_list (next l)) ∙ next_items l,
  subst IsValid (sym (fetch_list (next l))) (apply-IsValid nexts l w),
)

pub reset_items : (l : Clist) → (reset l).items ≡ l.items
unfolding reset
reset_items l = refl
