-- ===== src/TaskSelector/Invariant.antt =====
-- What holds of the selector between two calls, and that every call keeps it.
use tsm_proxy.Prelude.{
  ℕ, ◌<◌, ◌≡◌, ◌∙◌, sym, inl, inr, ◌&&◌, Option, none, some, List, [], ◌∷◌, ◌++◌, arith, ltb,
  Bool-cases, Option-cases,
}
use tsm_proxy.Prelude.Int.{ℤ}
use tsm_proxy.HashTable.{HashTable}
use tsm_proxy.HashTable
use tsm_proxy.HashTable.Laws
use tsm_proxy.HashTable.Laws.{put-IsValid}
use tsm_proxy.HashTable.Removal.{
  remove-IsValid, update-IsValid, clear-IsValid, init-IsValid, get-init,
}
use tsm_proxy.HashTable.Everywhere.{
  Everywhere, put-Everywhere, update-Everywhere, remove-Everywhere, clear-Everywhere,
}
use tsm_proxy.Clist.{Clist}
use tsm_proxy.Clist
use tsm_proxy.Clist.Valid
use tsm_proxy.Clist.Valid.{apply-IsValid, pushes_back, removes, new-IsValid}
use tsm_proxy.Clist.Removal.{without, remove-without}
use tsm_proxy.TaskSelector.{
  Selector, TaskState, Item, new, init, register_task, add_instance, shutdown_inst, shutdown_task,
  unregister_inst, unregister_task, forget_inst, for_instances,
}
use tsm_proxy.TaskSelector.Instances.{NonZero, run_all, for_instances-run_all}

-- The list of a task is well formed and holds no instance id 0.
abbrev pub TaskIsValid : TaskState → Type 0
TaskIsValid ts = Clist.Valid.IsValid ts.inst × NonZero ts.inst.items

pub record Inv (s : Selector) : Type 0 where
  pub insts : HashTable.Laws.IsValid s.inst_list
  pub tasks : HashTable.Laws.IsValid s.task_list
  pub lists : Everywhere TaskIsValid s.task_list

NonZero-push : (xs : List ℕ) (x : ℕ) → NonZero xs → 0 < x → NonZero (xs ++ x ∷ [])
NonZero-push [] x n h = (h, tt)
NonZero-push (y ∷ xs) x n h = (n.0, NonZero-push xs x n.1 h)

NonZero-without : (x : ℕ) (xs : List ℕ) → NonZero xs → NonZero (without x xs)
NonZero-without x [] n = tt
NonZero-without x (y ∷ xs) n = ground (arith, NonZero-without x xs)

push_back-TaskIsValid :
    (instid : ℕ) (ts : TaskState)
    → 0 < instid
    → TaskIsValid ts
    → TaskIsValid (record ts { inst = Clist.push_back instid ts.inst })
unfolding Clist.push_back
push_back-TaskIsValid instid ts h (w, n) =
    (apply-IsValid (pushes_back instid) ts.inst w, NonZero-push ts.inst.items instid n h)

remove-TaskIsValid :
    (instid : ℕ) (ts : TaskState)
    → TaskIsValid ts
    → TaskIsValid (record ts { inst = (Clist.remove instid ts.inst).0 })
remove-TaskIsValid instid ts (w, n) = (
  apply-IsValid (removes instid) ts.inst w,
  rw (remove-without instid ts.inst w).0 (NonZero-without instid ts.inst.items n),
)

pub new-Inv : (garbage : ℤ) → Inv (new garbage)
unfolding new
new-Inv garbage = record {
  insts = init-IsValid Item 16;
  tasks = init-IsValid TaskState 16;
  lists = λ k ts e. absurd (no (sym (get-init TaskState k 16) ∙ e));
}
  where
    no : {ts : TaskState} → ◌≡◌ {A = Option TaskState} none (some ts) → ⊥
    no p = cc

pub init-Inv : (s : Selector) → Inv s → Inv (init s)
unfolding init
init-Inv s v = record {
  insts = v.insts;
  tasks = clear-IsValid s.task_list v.tasks;
  lists = clear-Everywhere TaskIsValid s.task_list;
}

add_instance-Inv :
    (taskid instid : ℕ) (s : Selector) → 0 < instid → Inv s → Inv (add_instance taskid instid s)
unfolding add_instance Clist.new
add_instance-Inv taskid instid s h v =
    elim (Bool-cases (HashTable.contains_key taskid s.task_list)) [
      | inl e ↦ rw e (record {
        insts = v.insts;
        tasks = update-IsValid taskid _ s.task_list v.tasks;
        lists =
            update-Everywhere TaskIsValid taskid _ s.task_list v.tasks
              (λ ts. push_back-TaskIsValid instid ts h) v.lists;
      })
      | inr e ↦ rw e (record {
        insts = v.insts;
        tasks = put-IsValid taskid _ s.task_list v.tasks;
        lists =
            put-Everywhere TaskIsValid taskid _ s.task_list v.tasks
              (push_back-TaskIsValid instid
                (record { taskid = taskid; instpos = 0; inst = Clist.new }) h (new-IsValid, tt))
              v.lists;
      })
    ]

pub register_task-Inv :
    (garbage taskid instid tu : ℕ) (s : Selector)
    → Inv s
    → Inv (register_task garbage taskid instid tu s).0
unfolding register_task
register_task-Inv garbage taskid instid tu s v = elim (Bool-cases (ltb 0 taskid && ltb 0 instid)) [
  | inl e ↦
      let w = add_instance-Inv taskid instid s (ground arith) v in
      rw e (record { insts = put-IsValid instid _ _ w.insts; tasks = w.tasks; lists = w.lists })
  | inr e ↦ rw e v
]

pub shutdown_inst-Inv : (instid : ℕ) (s : Selector) → Inv s → Inv (shutdown_inst instid s)
unfolding shutdown_inst
shutdown_inst-Inv instid s v = record {
  insts = update-IsValid instid _ s.inst_list v.insts;
  tasks = v.tasks;
  lists = v.lists;
}

forget_inst-Inv : (instid : ℕ) (s : Selector) → Inv s → Inv (forget_inst instid s)
unfolding forget_inst
forget_inst-Inv instid s v = record {
  insts = remove-IsValid instid s.inst_list v.insts;
  tasks = v.tasks;
  lists = v.lists;
}

-- A fold keeps what its body keeps.
pub run_all-keeps {κ} :
    (P : Selector → Type κ) (body : ℕ → Selector → Selector)
    → ((x : ℕ) (s : Selector) → P s → P (body x s))
    → (xs : List ℕ) (s : Selector) → P s
    → P (run_all body xs s)
unfolding run_all
run_all-keeps P body step [] s p = p
run_all-keeps P body step (x ∷ xs) s p = run_all-keeps P body step xs (body x s) (step x s p)

for_instances-Inv :
    (body : ℕ → Selector → Selector) (ts : TaskState) (s : Selector)
    → ((x : ℕ) (u : Selector) → Inv u → Inv (body x u))
    → TaskIsValid ts
    → Inv s
    → Inv (for_instances body ts s).1
for_instances-Inv body ts s step w v =
    let (same, items, kept) = for_instances-run_all body ts s w.0 w.1 in
    rw same (run_all-keeps Inv body step ts.inst.items s v)

pub shutdown_task-Inv : (taskid : ℕ) (s : Selector) → Inv s → Inv (shutdown_task taskid s)
unfolding shutdown_task
shutdown_task-Inv taskid s v = elim (Option-cases (HashTable.get taskid s.task_list)) [
  | inl e ↦ rw (e, shutdown_task) v
  | inr (ts, e) ↦
      let w = v.lists taskid ts e in
      let (same, items, kept) = for_instances-run_all shutdown_inst ts s w.0 w.1 in
      let u = for_instances-Inv shutdown_inst ts s shutdown_inst-Inv w v in
      rw (e, shutdown_task)
        (record {
          insts = u.insts;
          tasks = update-IsValid taskid _ _ u.tasks;
          lists =
              update-Everywhere TaskIsValid taskid _ _ u.tasks (λ t p. (kept, rw items w.1))
                u.lists;
        })
]

pub unregister_inst-Inv : (instid : ℕ) (s : Selector) → Inv s → Inv (unregister_inst instid s)
unfolding unregister_inst
unregister_inst-Inv instid s v = elim (Option-cases (HashTable.get instid s.inst_list)) [
  | inl e ↦ rw (e, unregister_inst) v
  | inr (item, e) ↦
      rw (e, unregister_inst)
        (record {
          insts = remove-IsValid instid s.inst_list v.insts;
          tasks = update-IsValid item.taskid _ s.task_list v.tasks;
          lists =
              update-Everywhere TaskIsValid item.taskid _ s.task_list v.tasks
                (remove-TaskIsValid instid) v.lists;
        })
]

pub unregister_task-Inv : (taskid : ℕ) (s : Selector) → Inv s → Inv (unregister_task taskid s)
unfolding unregister_task
unregister_task-Inv taskid s v = elim (Option-cases (HashTable.get taskid s.task_list)) [
  | inl e ↦ rw (e, unregister_task) v
  | inr (ts, e) ↦
      let u = for_instances-Inv forget_inst ts s forget_inst-Inv (v.lists taskid ts e) v in
      rw (e, unregister_task)
        (record {
          insts = u.insts;
          tasks = remove-IsValid taskid _ u.tasks;
          lists = remove-Everywhere TaskIsValid taskid _ u.tasks u.lists;
        })
]
