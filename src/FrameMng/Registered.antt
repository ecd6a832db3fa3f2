-- ===== src/FrameMng/Registered.antt =====
-- What a registration of an instance leaves in the selector (xframe/kernel/taskselector.C).
use tsm_proxy.Prelude.{
  ℕ, ◌<◌, ◌≡◌, refl, ap, ◌∙◌, sym, subst, inl, inr, ◌≢◌, true, false, ◌&&◌, some, [], ◌∷◌, ◌==◌,
  ltb, ==_refl, Option-cases, Bool-cases, arith, ==_ne, eq_of_==,
}
use tsm_proxy.HashTable.{HashTable, is_found}
use tsm_proxy.HashTable
use tsm_proxy.HashTable.Laws
use tsm_proxy.HashTable.Laws.{get-put}
use tsm_proxy.HashTable.Removal.{contains_key-get, get-update}
use tsm_proxy.TaskSelector.{Selector, Item, TaskState, exists, add_instance, register_task}
use tsm_proxy.TaskSelector.Invariant.{Inv}
use tsm_proxy.TaskSelector.Registry.{add_instance_insts, get-put_self}
use tsm_proxy.TaskSelector.Choice.{Listed, Listed-append_left, Listed-append_right}
use tsm_proxy.Clist.{push_back}
use tsm_proxy.Clist
use tsm_proxy.FrameMng.{TaskEntry, ProcRsc, new_entry}

-- The task is in the selector, with the instance in its list.
abbrev pub ListedIn : (taskid instid : ℕ) → Selector → Type 0
ListedIn taskid instid s =
    (ts : TaskState) × (HashTable.get taskid s.task_list ≡ some ts) × Listed instid ts.inst.items

-- The instance is in the selector with its object and its task, and in the list of its task.
abbrev pub Registered : TaskEntry → Selector → Type 0
Registered t s =
    (item : Item) × (HashTable.get t.inst_id s.inst_list ≡ some item)
    × (item.tu ≡ t.inst_id)
    × (item.taskid ≡ t.task_id)
    × ListedIn t.task_id t.inst_id s

pub ListedIn-exists :
    (taskid instid : ℕ) (s : Selector) → ListedIn taskid instid s → exists taskid s ≡ true
unfolding exists
ListedIn-exists taskid instid s (ts, e, l) = contains_key-get taskid s.task_list ∙ ap is_found e

abbrev with_instance : ℕ → TaskState → TaskState
with_instance instid ts = record ts { inst = push_back instid ts.inst }

-- The list of the task that an instance is added to.
add_instance-ListedIn :
    (taskid instid : ℕ) (s : Selector)
    → Inv s
    → ListedIn taskid instid (add_instance taskid instid s)
unfolding add_instance push_back Clist.new
add_instance-ListedIn taskid instid s v =
    let found = contains_key-get taskid s.task_list in
    elim (Option-cases (HashTable.get taskid s.task_list)) [
      | inl e ↦ rw (found ∙ ap is_found e) (_, get-put_self taskid _ s.task_list v.tasks, inl refl)
      | inr (ts, e) ↦ rw (found ∙ ap is_found e) (
        with_instance instid ts,
        get-update taskid taskid (with_instance instid) s.task_list v.tasks
            ∙ rw (==_refl taskid, e) refl,
        Listed-append_right instid ts.inst.items (instid ∷ []) (inl refl),
      )
    ]

-- A registration keeps the tasks that are there, with what their lists hold.
add_instance-ListedIn_other :
    (j i taskid instid : ℕ) (s : Selector)
    → Inv s
    → ListedIn j i s
    → ListedIn j i (add_instance taskid instid s)
unfolding add_instance push_back
add_instance-ListedIn_other j i taskid instid s v (ts, e, l) =
    let found = contains_key-get taskid s.task_list in
    elim (Bool-cases (taskid == j)) [
      | inl same ↦
          let here : HashTable.get taskid s.task_list ≡ some ts =
            ap (λ k. HashTable.get k s.task_list) (eq_of_== taskid j same) ∙ e in
          rw (found ∙ ap is_found here) (
            with_instance instid ts,
            get-update j taskid (with_instance instid) s.task_list v.tasks ∙ rw (same, here) refl,
            Listed-append_left i ts.inst.items (instid ∷ []) l,
          )
      | inr other ↦ elim (Bool-cases (HashTable.contains_key taskid s.task_list)) [
        | inl f ↦ rw f (ts, get-update j taskid _ s.task_list v.tasks ∙ rw other e, l)
        | inr f ↦ rw f (ts, get-put j taskid _ s.task_list v.tasks ∙ rw other e, l)
      ]
    ]

pub register_task-Registered :
    (garbage inst : ℕ) (proc : ProcRsc) (s : Selector)
    → Inv s
    → 0 < proc.task_id
    → 0 < inst
    → Registered (new_entry proc inst) (register_task garbage proc.task_id inst inst s).0
unfolding register_task exists
register_task-Registered garbage inst proc s v p q =
    let ids : (ltb 0 proc.task_id && ltb 0 inst) ≡ true = ground arith in
    let s' = add_instance proc.task_id inst s in
    rw ids (
      _,
      get-put_self inst _ s'.inst_list
          (subst HashTable.Laws.IsValid (sym (add_instance_insts proc.task_id inst s)) v.insts),
      refl,
      refl,
      add_instance-ListedIn proc.task_id inst s v,
    )

pub register_task-Registered_other :
    (garbage taskid inst : ℕ) (t : TaskEntry) (s : Selector)
    → Inv s
    → inst ≢ t.inst_id
    → Registered t s
    → Registered t (register_task garbage taskid inst inst s).0
unfolding register_task exists
register_task-Registered_other garbage taskid inst t s v ne (item, a, b, d, c) =
    elim (Bool-cases (ltb 0 taskid && ltb 0 inst)) [
      | inr e ↦ rw e (item, a, b, d, c)
      | inl e ↦
          let s' = add_instance taskid inst s in
          let whole = add_instance_insts taskid inst s in
          let other : (inst == t.inst_id) ≡ false = ==_ne inst t.inst_id ne in
          rw e (
            item,
            get-put t.inst_id inst _ s'.inst_list (subst HashTable.Laws.IsValid (sym whole) v.insts)
                ∙ rw other (ap (HashTable.get t.inst_id) whole ∙ a),
            b,
            d,
            add_instance-ListedIn_other t.task_id t.inst_id taskid inst s v c,
          )
    ]
