-- ===== src/TaskSelector/Multicast.antt =====
-- multicastMsgToTask: the instances that get a copy, and who owns the message afterwards.
use tsm_proxy.Prelude.{
  ℕ, suc, ◌+◌, ◌≡◌, refl, ap, ◌∙◌, sym, inl, inr, true, false, Option, none, some, List, [], ◌∷◌,
  ◌++◌, arith, ◌==◌, ltb, length, drop, Bool-cases, Option-cases, eq_of_==,
}
use mathlib.Core.Path.{fun_ext}
use mathlib.Core.List.{append-nil, append_assoc}
use tsm_proxy.HashTable.{HashTable, is_found}
use tsm_proxy.HashTable
use tsm_proxy.HashTable.Laws
use tsm_proxy.HashTable.Removal.{get-update, update-IsValid, contains_key-get, map_some}
use tsm_proxy.Clist.{Clist, fetch}
use tsm_proxy.Clist
use tsm_proxy.Clist.Walk.{next-some, next_last, drop_cons}
use tsm_proxy.TaskSelector.{
  UniNetMsg, Item, TaskState, Selector, Effect, queue_copy, release, exists, proceed,
}
use tsm_proxy.TaskSelector.Dispatch.{count_msg, copy_to, multicast_loop, multicast_msg_to_task}
use tsm_proxy.TaskSelector.Invariant.{Inv}
use tsm_proxy.TaskSelector.Instances.{NonZero}

-- The task object of an instance.
abbrev pub tu_of? : Option Item → Option ℕ
tu_of? none = none
tu_of? (some item) = some item.tu

pub tu_at : HashTable Item → ℕ → Option ℕ
tu_at items i = tu_of? (HashTable.get i items)

abbrev copy_if : UniNetMsg → Option ℕ → List Effect → List Effect
copy_if msg none es = es
copy_if msg (some tu) es = queue_copy tu msg ∷ es

-- A copy for each id of the list that is registered.
unfoldable pub copies : UniNetMsg → (ℕ → Option ℕ) → List ℕ → List Effect
copies msg tu [] = []
copies msg tu (i ∷ ids) = copy_if msg (tu i) (copies msg tu ids)

-- Counting a message changes no task object.
pub tu_at-count_msg :
    (i : ℕ) (items : HashTable Item)
    → HashTable.Laws.IsValid items
    → tu_at (HashTable.update i count_msg items) ≡ tu_at items
unfolding tu_at
tu_at-count_msg i items w = fun_ext λ j.
    ap tu_of? (get-update j i count_msg items w) ∙ elim (Bool-cases (i == j)) [
      | inl e ↦ rw (e, ← eq_of_== i j e) (same (HashTable.get i items))
      | inr e ↦ rw e
    ]
  where
    same : (o : Option Item) → tu_of? (map_some count_msg o) ≡ tu_of? o
    same none = refl
    same (some item) = refl

copy_to_lem :
    (msg : UniNetMsg) (i : ℕ) (s : Selector)
    → HashTable.Laws.IsValid s.inst_list
    → ((copy_to msg i s).log ≡ s.log ++ copy_if msg (tu_at s.inst_list i) [])
      × (tu_at (copy_to msg i s).inst_list ≡ tu_at s.inst_list)
      × HashTable.Laws.IsValid (copy_to msg i s).inst_list
unfolding copy_to tu_at
copy_to_lem msg i s w = elim (Option-cases (HashTable.get i s.inst_list)) [
  | inl e ↦ rw (e, copy_to) (sym (append-nil s.log), refl, w)
  | inr (item, e) ↦
      rw (e, copy_to)
        (
          refl,
          unfold tu_at in tu_at-count_msg i s.inst_list w,
          update-IsValid i count_msg s.inst_list w,
        )
]

multicast_loop_lem :
    (msg : UniNetMsg) (x : ℕ) (xs : List ℕ) (l : Clist) (s : Selector)
    → drop l.current l.items ≡ x ∷ xs
    → NonZero xs
    → HashTable.Laws.IsValid s.inst_list
    → (multicast_loop msg (suc (length xs)) l s).1.log ≡ s.log ++ copies msg (tu_at s.inst_list) xs
unfolding multicast_loop copies proceed
multicast_loop_lem msg x [] l s h n w = rw (next_last l x h) (sym (append-nil s.log))
multicast_loop_lem msg x (y ∷ ys) l s h n w =
    let (a, b, c) = drop_cons l.current l.items x (y ∷ ys) h in
    let place : suc l.current ≡ l.current + 1 = omega arith in
    let id_set : ltb 0 y ≡ true = ground (arith, n.0) in
    let (logged, tus, kept) = copy_to_lem msg y s w in
    rw (next-some l x y ys h, id_set)
      (multicast_loop_lem msg y ys (record l { current = l.current + 1 }) (copy_to msg y s)
          (ap (λ i. drop i l.items) (sym place) ∙ b) n.1 kept
        ∙ rw (logged, tus)
            (append_assoc s.log (copy_if msg (tu_at s.inst_list y) [])
                (copies msg (tu_at s.inst_list) ys)
              ∙ ap (λ es. s.log ++ es) (joined (tu_at s.inst_list y))))
  where
    joined :
        (o : Option ℕ)
        → copy_if msg o [] ++ copies msg (tu_at s.inst_list) ys
          ≡ copy_if msg o (copies msg (tu_at s.inst_list) ys)
    joined none = refl
    joined (some tu) = refl

by_list :
    (msg : UniNetMsg) (l : Clist) (s : Selector) (ids : List ℕ)
    → l.items ≡ ids
    → NonZero ids
    → HashTable.Laws.IsValid s.inst_list
    → (multicast_loop msg (length ids) (Clist.reset l) s).1.log
      ≡ s.log ++ copies msg (tu_at s.inst_list) (drop 1 ids)
unfolding multicast_loop Clist.reset copies
by_list msg l s [] e n w = sym (append-nil s.log)
by_list msg l s (x ∷ xs) e n w = multicast_loop_lem msg x xs (record l { current = 0 }) s e n.1 w

-- A multicast to a registered task queues a copy for each registered instance of the task except
-- the first of its list, in order, and then deletes the message.
pub multicast-log :
    (msg : UniNetMsg) (s : Selector) (ts : TaskState)
    → Inv s
    → HashTable.get msg.log_addr s.task_list ≡ some ts
    → ((multicast_msg_to_task msg s).1 ≡ true)
      × ((multicast_msg_to_task msg s).0.log
          ≡ (s.log ++ copies msg (tu_at s.inst_list) (drop 1 ts.inst.items)) ++ release msg ∷ [])
unfolding multicast_msg_to_task exists
multicast-log msg s ts v e =
    let there : HashTable.contains_key msg.log_addr s.task_list ≡ true =
      contains_key-get msg.log_addr s.task_list ∙ ap is_found e in
    rw (there, e, multicast_msg_to_task)
      (
        refl,
        ap (λ es. es ++ release msg ∷ [])
            (by_list msg ts.inst s ts.inst.items refl (v.lists msg.log_addr ts e).1 v.insts),
      )

-- A multicast to a task that is not registered deletes the message and reports failure.
pub multicast_unregistered :
    (msg : UniNetMsg) (s : Selector)
    → exists msg.log_addr s ≡ false
    → ((multicast_msg_to_task msg s).1 ≡ false)
      × ((multicast_msg_to_task msg s).0.log ≡ s.log ++ release msg ∷ [])
unfolding multicast_msg_to_task
multicast_unregistered msg s h = rw (h, multicast_msg_to_task) (refl, refl)
