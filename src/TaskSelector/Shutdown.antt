-- ===== src/TaskSelector/Shutdown.antt =====
-- shutdownTask: no instance of the task gets a new dialog.
use tsm_proxy.Prelude.{
  ℕ, ◌<◌, ◌≡◌, refl, ap, ◌∙◌, sym, subst, ◌⊎◌, inl, inr, Bool, true, false, Option, none, some,
  List, [], ◌∷◌, ◌++◌, ◌==◌, length, Bool-cases, ==_refl,
}
use mathlib.Core.List.{append-nil}
use tsm_proxy.HashTable.{HashTable}
use tsm_proxy.HashTable
use tsm_proxy.HashTable.Laws
use tsm_proxy.HashTable.Removal.{get-update, update-IsValid, map_some}
use tsm_proxy.Clist.{Clist}
use tsm_proxy.TaskSelector.{
  UniNetMsg, Item, TaskState, Selector, shutdown_inst, shutdown_task, for_instances,
}
use tsm_proxy.TaskSelector.Dispatch.{send_msg_to_task, usable}
use tsm_proxy.TaskSelector.Invariant.{Inv, shutdown_task-Inv}
use tsm_proxy.TaskSelector.Instances.{run_all, for_instances-run_all}
use tsm_proxy.TaskSelector.RoundRobin.{ring, first_usable, bound}
use tsm_proxy.TaskSelector.Choice.{Listed, Listed-ring}
use tsm_proxy.TaskSelector.Sending.{send-ring, is_some, delivery}

-- An instance that a search does not choose.
abbrev Closed : ℕ → Selector → Type 0
Closed j s = usable (HashTable.get j s.inst_list) ≡ false

-- What shutdown_inst leaves of the other parts of the state.
abbrev Same : Selector → Selector → Type 0
Same s u = (u.task_list ≡ s.task_list) × (u.log ≡ s.log) × HashTable.Laws.IsValid u.inst_list

abbrev mark : Item → Item
mark it = record it { shutting_down = true }

usable-mark : (o : Option Item) → usable (map_some mark o) ≡ false
usable-mark none = refl
usable-mark (some item) = refl

shutdown_inst-Same :
    (k : ℕ) (s : Selector) → HashTable.Laws.IsValid s.inst_list → Same s (shutdown_inst k s)
unfolding shutdown_inst
shutdown_inst-Same k s w = (refl, refl, update-IsValid k mark s.inst_list w)

shutdown_inst-Closed :
    (j k : ℕ) (s : Selector)
    → HashTable.Laws.IsValid s.inst_list
    → (k == j) ≡ true ⊎ Closed j s
    → Closed j (shutdown_inst k s)
unfolding shutdown_inst
shutdown_inst-Closed j k s w h =
    ap usable (get-update j k mark s.inst_list w) ∙ elim (Bool-cases (k == j)) [
      | inl e ↦ rw e (usable-mark (HashTable.get k s.inst_list))
      | inr e ↦ rw e (elim h [ inl same ↦ absurd (no (sym same ∙ e)) | inr closed ↦ closed ])
    ]
  where
    no : ◌≡◌ {A = Bool} true false → ⊥
    no p = cc

run_all-Closed :
    (j : ℕ) (xs : List ℕ) (s : Selector)
    → HashTable.Laws.IsValid s.inst_list
    → (Closed j s ⊎ Listed j xs)
    → Closed j (run_all shutdown_inst xs s)
unfolding run_all
run_all-Closed j [] s w (inl h) = h
run_all-Closed j [] s w (inr h) = absurd h
run_all-Closed j (x ∷ xs) s w (inl h) =
    run_all-Closed j xs (shutdown_inst x s) (shutdown_inst-Same x s w).2
      (inl (shutdown_inst-Closed j x s w (inr h)))
run_all-Closed j (x ∷ xs) s w (inr (inl e)) =
    run_all-Closed j xs (shutdown_inst x s) (shutdown_inst-Same x s w).2
      (inl (shutdown_inst-Closed j x s w (inl (rw e (==_refl x)))))
run_all-Closed j (x ∷ xs) s w (inr (inr l)) =
    run_all-Closed j xs (shutdown_inst x s) (shutdown_inst-Same x s w).2 (inr l)

run_all-Same :
    (xs : List ℕ) (s : Selector)
    → HashTable.Laws.IsValid s.inst_list
    → Same s (run_all shutdown_inst xs s)
unfolding run_all
run_all-Same [] s w = (refl, refl, w)
run_all-Same (x ∷ xs) s w =
    let (tasks, log, valid) = shutdown_inst-Same x s w in
    let (tasks', log', valid') = run_all-Same xs (shutdown_inst x s) valid in
    (tasks' ∙ tasks, log' ∙ log, valid')

nobody_lem :
    (items : HashTable Item) (ids : List ℕ)
    → ((j : ℕ) → Listed j ids → usable (HashTable.get j items) ≡ false)
    → first_usable items ids ≡ none
nobody_lem items [] h = refl
nobody_lem items (i ∷ ids) h = rw (h i (inl refl)) (nobody_lem items ids (λ j l. h j (inr l)))

-- The state of the task behind shutdown_task, and of its instances.
after_shutdown :
    (taskid : ℕ) (s : Selector) (ts : TaskState)
    → Inv s
    → HashTable.get taskid s.task_list ≡ some ts
    → ((l : Clist) × (l.items ≡ ts.inst.items)
        × (HashTable.get taskid (shutdown_task taskid s).task_list ≡ some (record ts { inst = l })))
      × ((shutdown_task taskid s).log ≡ s.log)
      × ((j : ℕ) → Listed j ts.inst.items → Closed j (shutdown_task taskid s))
unfolding shutdown_task
after_shutdown taskid s ts v e =
    let (w, n) = v.lists taskid ts e in
    let (same, items, kept) = for_instances-run_all shutdown_inst ts s w n in
    let (tasks, log, valid) = run_all-Same ts.inst.items s v.insts in
    let l = (for_instances shutdown_inst ts s).0 in
    let u = (for_instances shutdown_inst ts s).1 in
    let u_tasks : u.task_list ≡ s.task_list = ap (λ (x : Selector). x.task_list) same ∙ tasks in
    let stored : HashTable.get taskid
          (HashTable.update taskid (λ t. record t { inst = l }) u.task_list)
        ≡ some (record ts { inst = l }) =
      ap
        (λ t.
          HashTable.get taskid
            (HashTable.update taskid (λ (y : TaskState). record y { inst = l }) t))
        u_tasks
      ∙ get-update taskid taskid (λ t. record t { inst = l }) s.task_list v.tasks
      ∙ rw (==_refl taskid, e) refl in
    rw (e, shutdown_task)
      (
        (l, items, stored),
        ap (λ (x : Selector). x.log) same ∙ log,
        (λ j h.
            ap (λ (x : Selector). usable (HashTable.get j x.inst_list)) same
            ∙ run_all-Closed j ts.inst.items s v.insts (inr h)),
      )

-- After shutdownTask a message for the task without an instance id is refused and stays with the
-- caller, as every instance of the task is shutting down.
pub shutdown-refuse :
    (msg : UniNetMsg) (s : Selector) (ts : TaskState)
    → Inv s
    → 0 < msg.log_addr
    → msg.task_inst_id ≡ 0
    → HashTable.get msg.log_addr s.task_list ≡ some ts
    → length ts.inst.items < bound
    → ts.instpos < bound
    → ((send_msg_to_task msg (shutdown_task msg.log_addr s)).1 ≡ false)
      × ((send_msg_to_task msg (shutdown_task msg.log_addr s)).0.log ≡ s.log)
shutdown-refuse msg s ts v p z e small h =
    let ((l, items, stored), log, closed) = after_shutdown msg.log_addr s ts v e in
    let u = shutdown_task msg.log_addr s in
    let (done, sent) =
      send-ring msg u (record ts { inst = l }) (shutdown_task-Inv msg.log_addr s v) p z stored
        (rw items small) h in
    let nobody : first_usable u.inst_list (ring ts.instpos l.items) ≡ none =
      nobody_lem u.inst_list (ring ts.instpos l.items)
        (λ j m. closed j (subst (Listed j) items ((Listed-ring j ts.instpos l.items).1 m))) in
    (
      done ∙ ap is_some nobody,
      sent ∙ ap (λ o. u.log ++ delivery u.inst_list msg o) nobody ∙ append-nil u.log ∙ log,
    )
