-- ===== src/TaskSelector/Instances.antt =====
-- The loops over the instances of a task are folds over its list.
use tsm_proxy.Prelude.{
  ℕ, suc, ◌+◌, ◌-◌, ◌<◌, ◌≡◌, refl, ap, ◌∙◌, sym, false, List, [], ◌∷◌, arith, ◌==◌, if◌then◌else◌,
  length, drop, ==_ne,
}
use tsm_proxy.Clist.{Clist, fetch}
use tsm_proxy.Clist
use tsm_proxy.Clist.Valid
use tsm_proxy.Clist.Walk.{next-some, next_last, front-none, front-some, drop_cons}
use tsm_proxy.TaskSelector.{Selector, TaskState, instance_loop, for_instances, proceed}

-- Instance ids are not 0.
abbrev pub NonZero : List ℕ → Type 0
NonZero [] = Unit {0}
NonZero (x ∷ xs) = (0 < x) × NonZero xs

unfoldable pub run_all : (ℕ → Selector → Selector) → List ℕ → Selector → Selector
run_all body [] s = s
run_all body (x ∷ xs) s = run_all body xs (body x s)

module _ (body : ℕ → Selector → Selector) where
  instance_loop-run_all :
      (x : ℕ) (xs : List ℕ) (l : Clist) (s : Selector)
      → drop l.current l.items ≡ x ∷ xs
      → NonZero (x ∷ xs)
      → instance_loop body (suc (length xs)) x l s
        ≡ (record l { current = length l.items - 1 }, run_all body (x ∷ xs) s)
  unfolding instance_loop proceed run_all
  instance_loop-run_all x [] l s h n =
      let (a, b, c) = drop_cons l.current l.items x [] h in
      let here : l.current ≡ length l.items - 1 = omega (arith, c) in
      let id_set : (x == 0) ≡ false = ==_ne x 0 (omega (arith, n.0)) in
      rw (id_set, next_last l x h) (ap (λ i. (record l { current = i }, body x s)) here)
  instance_loop-run_all x (y ∷ ys) l s h n =
      let (a, b, c) = drop_cons l.current l.items x (y ∷ ys) h in
      let id_set : (x == 0) ≡ false = ==_ne x 0 (omega (arith, n.0)) in
      let place : suc l.current ≡ l.current + 1 = omega arith in
      rw (id_set, next-some l x y ys h)
        (instance_loop-run_all y ys (record l { current = l.current + 1 }) (body x s)
          (ap (λ i. drop i l.items) (sym place) ∙ b) n.1)

  by_items :
      (xs : List ℕ) (l : Clist) (s : Selector)
      → l.items ≡ xs
      → Clist.Valid.IsValid l
      → NonZero xs
      → proceed (instance_loop body (length xs)) (fetch (Clist.front l)) s ≡ (
        record l { current = if length xs == 0 then l.current else length xs - 1 },
        run_all body xs s,
      )
  unfolding proceed run_all
  by_items [] l s e w n = rw (front-none l e)
  by_items (x ∷ xs) l s e w n =
      let size : length l.items ≡ suc (length xs) = ap length e in
      rw (front-some l x xs w e) (
        instance_loop-run_all x xs (record l { current = 0 }) s e n
        ∙ ap (λ i. (record l { current = i - 1 }, run_all body (x ∷ xs) s)) size
        ∙ ap
            (λ b. (
              record l { current = if b then l.current else suc (length xs) - 1 },
              run_all body (x ∷ xs) s,
            ))
            (sym (==_ne (suc (length xs)) 0 (omega arith))))

  -- The body runs once for each instance, in the order of the list.
  pub for_instances-run_all :
      (ts : TaskState) (s : Selector)
      → Clist.Valid.IsValid ts.inst
      → NonZero ts.inst.items
      → ((for_instances body ts s).1 ≡ run_all body ts.inst.items s)
        × ((for_instances body ts s).0.items ≡ ts.inst.items)
        × Clist.Valid.IsValid (for_instances body ts s).0
  unfolding for_instances
  for_instances-run_all ts s w n =
      rw (by_items ts.inst.items ts.inst s refl w n)
        (refl, refl, record { counted = w.counted; within = ground (arith, w.within) })
