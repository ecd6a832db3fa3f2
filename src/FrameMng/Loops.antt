-- ===== src/FrameMng/Loops.antt =====
-- The loops over mInstList (xframe/framemng.C), as a visit of every TTask.
use tsm_proxy.Prelude.{
  ℕ, zero, suc, ◌+◌, ◌≤◌, ◌≡◌, refl, ap, ◌∙◌, sym, Option, none, some, List, [], ◌∷◌, ◌++◌, arith,
  length, length-append, get_elem?, drop,
}
use tsm_proxy.Clist.{Clist, fetch, next, reset}
use tsm_proxy.Clist.Walk.{next-some, next_last, drop_cons}
use tsm_proxy.FrameMng.{FrameMng, TaskEntry, task_loop, for_tasks, change}
use mathlib.Core.List.{append_assoc}

abbrev pub cursor_at : Clist → FrameMng → FrameMng
cursor_at l m = record m { inst_list = l }

-- A body that neither reads nor moves the cursor.
abbrev pub Commutes : (ℕ → FrameMng → FrameMng) → Type 0
Commutes body = (i : ℕ) (l : Clist) (m : FrameMng) → body i (cursor_at l m) ≡ cursor_at l (body i m)

unfoldable pub visit : (ℕ → FrameMng → FrameMng) → List ℕ → FrameMng → FrameMng
visit body [] m = m
visit body (i ∷ is) m = visit body is (body i m)

visit-cursor_at :
    (body : ℕ → FrameMng → FrameMng)
    → Commutes body
    → (is : List ℕ) (l : Clist) (m : FrameMng)
    → visit body is (cursor_at l m) ≡ cursor_at l (visit body is m)
unfolding visit
visit-cursor_at body c [] l m = refl
visit-cursor_at body c (i ∷ is) l m =
    ap (visit body is) (c i l m) ∙ visit-cursor_at body c is l (body i m)

task_loop-none :
    (fuel : ℕ) (body : ℕ → FrameMng → FrameMng) (m : FrameMng) → task_loop fuel body none m ≡ m
unfolding task_loop
task_loop-none zero body m = refl
task_loop-none (suc fuel) body m = refl

task_loop-visit :
    (body : ℕ → FrameMng → FrameMng)
    → Commutes body
    → (fuel i : ℕ) (is : List ℕ) (m : FrameMng)
    → drop m.inst_list.current m.inst_list.items ≡ i ∷ is
    → length (i ∷ is) ≤ fuel
    → (l : Clist) × (l.items ≡ m.inst_list.items)
      × (task_loop fuel body (some i) m ≡ cursor_at l (visit body (i ∷ is) m))
unfolding task_loop visit
task_loop-visit body c zero i is m h e = absurd (omega arith)
task_loop-visit body c (suc fuel) i [] m h e =
    let kept : (body i m).inst_list ≡ m.inst_list =
      ap (λ (x : FrameMng). x.inst_list) (c i m.inst_list m) in
    let step : fetch (next (body i m).inst_list) ≡ (m.inst_list, none) =
      ap (λ x. fetch (next x)) kept ∙ next_last m.inst_list i h in
    (
      m.inst_list,
      refl,
      ap (λ (r : Clist × Option ℕ). task_loop fuel body r.1 (cursor_at r.0 (body i m))) step
          ∙ task_loop-none fuel body (cursor_at m.inst_list (body i m)),
    )
task_loop-visit body c (suc fuel) i (j ∷ is) m h e =
    let kept : (body i m).inst_list ≡ m.inst_list =
      ap (λ (x : FrameMng). x.inst_list) (c i m.inst_list m) in
    let l1 : Clist = record m.inst_list { current = m.inst_list.current + 1 } in
    let step : fetch (next (body i m).inst_list) ≡ (l1, some j) =
      ap (λ x. fetch (next x)) kept ∙ next-some m.inst_list i j is h in
    let behind : drop (m.inst_list.current + 1) m.inst_list.items ≡ j ∷ is =
      ap (λ n. drop n m.inst_list.items) {y = suc m.inst_list.current} (omega arith)
      ∙ (drop_cons m.inst_list.current m.inst_list.items i (j ∷ is) h).1 in
    let (l, same, done) =
      task_loop-visit body c fuel j is (cursor_at l1 (body i m)) behind (omega arith) in
    (
      l,
      same,
      ap (λ (r : Clist × Option ℕ). task_loop fuel body r.1 (cursor_at r.0 (body i m))) step
          ∙ done
          ∙ ap (cursor_at l) (visit-cursor_at body c (j ∷ is) l1 (body i m)),
    )

-- A loop runs its body for every item of the list, in order, and leaves the items.
pub for_tasks-visit :
    (body : ℕ → FrameMng → FrameMng)
    → Commutes body
    → (m : FrameMng)
    → (l : Clist) × (l.items ≡ m.inst_list.items)
      × (for_tasks body m ≡ cursor_at l (visit body m.inst_list.items m))
unfolding for_tasks reset visit
for_tasks-visit body c m = from m.inst_list.items refl
  where
    from :
        (is : List ℕ)
        → is ≡ m.inst_list.items
        → (l : Clist) × (l.items ≡ m.inst_list.items)
          × (for_tasks body m ≡ cursor_at l (visit body is m))
    from [] h = (
      reset m.inst_list,
      refl,
      ap
            (λ (xs : List ℕ).
              task_loop (length xs) body (get_elem? xs 0) (cursor_at (reset m.inst_list) m))
            (sym h)
          ∙ task_loop-none 0 body (cursor_at (reset m.inst_list) m),
    )
    from (i ∷ is) h =
        let start = cursor_at (reset m.inst_list) m in
        let (l, same, done) =
          task_loop-visit body c (length (i ∷ is)) i is start (sym h) (omega arith) in
        (
          l,
          same,
          ap (λ (xs : List ℕ). task_loop (length xs) body (get_elem? xs 0) start) (sym h)
              ∙ done
              ∙ ap (cursor_at l) (visit-cursor_at body c (i ∷ is) (reset m.inst_list) m),
        )

-- The numbers from i on.
abbrev pub places : ℕ → ℕ → List ℕ
places i zero = []
places i (suc n) = i ∷ places (suc i) n

change-append :
    (f : TaskEntry → TaskEntry) (ts : List TaskEntry) (t : TaskEntry) (us : List TaskEntry)
    → change (length ts) f (ts ++ t ∷ us) ≡ ts ++ f t ∷ us
unfolding change
change-append f [] t us = refl
change-append f (s ∷ ts) t us = ap (λ x. s ∷ x) (change-append f ts t us)

get_elem?-append :
    (ts : List TaskEntry) (t : TaskEntry) (us : List TaskEntry)
    → get_elem? (ts ++ t ∷ us) (length ts) ≡ some t
get_elem?-append [] t us = refl
get_elem?-append (s ∷ ts) t us = get_elem?-append ts t us

-- What is done to one TTask, from the last transaction id on.
abbrev pub Step : Type 0
Step = ℕ → TaskEntry → ℕ × TaskEntry

unfoldable pub each_task : Step → ℕ → List TaskEntry → ℕ × List TaskEntry
each_task f k [] = (k, [])
each_task f k (t ∷ ts) = let (k', t') = f k t in let (n, us) = each_task f k' ts in (n, t' ∷ us)

-- A body that does the step to the TTask at its place.
abbrev pub Acts : (ℕ → FrameMng → FrameMng) → Step → Type 0
Acts body f =
    (i : ℕ) (t : TaskEntry) (m : FrameMng)
    → get_elem? m.tasks i ≡ some t
    → body i m ≡ record m {
      trans_id = (f m.trans_id t).0;
      tasks = change i (λ e. (f m.trans_id t).1) m.tasks;
    }

pub visit-each_task :
    (body : ℕ → FrameMng → FrameMng) (f : Step)
    → Acts body f
    → (ts us : List TaskEntry) (m : FrameMng) → m.tasks ≡ ts ++ us
    → visit body (places (length ts) (length us)) m ≡ record m {
      trans_id = (each_task f m.trans_id us).0;
      tasks = ts ++ (each_task f m.trans_id us).1;
    }
unfolding visit each_task
visit-each_task body f a ts [] m h = ap (λ x. record m { tasks = x }) h
visit-each_task body f a ts (u ∷ us) m h =
    let t' = (f m.trans_id u).1 in
    let here = a (length ts) u m (ap (λ x. get_elem? x (length ts)) h ∙ get_elem?-append ts u us) in
    let written : change (length ts) (λ e. t') m.tasks ≡ (ts ++ t' ∷ []) ++ us =
      ap (change (length ts) (λ e. t')) h
      ∙ change-append (λ e. t') ts u us
      ∙ sym (append_assoc ts (t' ∷ []) us) in
    let m' : FrameMng = record m { trans_id = (f m.trans_id u).0; tasks = (ts ++ t' ∷ []) ++ us } in
    let long : length (ts ++ t' ∷ []) ≡ suc (length ts) =
      length-append ts (t' ∷ []) ∙ omega arith in
    ap (visit body (places (suc (length ts)) (length us)))
      (here ∙ ap (λ x. record m { trans_id = (f m.trans_id u).0; tasks = x }) written)
    ∙ ap (λ n. visit body (places n (length us)) m') (sym long)
    ∙ visit-each_task body f a (ts ++ t' ∷ []) us m' refl
    ∙ ap (λ x. record m { trans_id = (each_task f m.trans_id (u ∷ us)).0; tasks = x })
        (append_assoc ts (t' ∷ []) _)
