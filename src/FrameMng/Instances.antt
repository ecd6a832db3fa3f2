-- ===== src/FrameMng/Instances.antt =====
-- The instances that Init makes (xframe/framemng.C), and the selector they are registered with.
use mathlib.Core.List.{append-nil, append_assoc}
use tsm_proxy.Prelude.{
  ℕ, zero, suc, ◌+◌, ◌<◌, ◌≤◌, ◌≡◌, refl, ap, ◌∙◌, sym, subst, inl, inr, Bool, true, false, Option,
  none, some, List, [], ◌∷◌, ◌++◌, ltb, if◌then◌else◌, length, get_elem?, Bool-cases, Option-cases,
  u32, arith,
}
use tsm_proxy.HashTable.{HashTable, is_found}
use tsm_proxy.HashTable
use tsm_proxy.Clist.{Clist, push_back}
use tsm_proxy.Clist
use tsm_proxy.TaskSelector.{UniNetMsg, hand_over, exists}
use tsm_proxy.TaskSelector.Dispatch.{send_msg_to_task}
use tsm_proxy.TaskSelector.Sending.{send-instance}
use tsm_proxy.FrameMng.{
  FrameMng, TaskEntry, ProcRsc, new_entry, threads, keep_list, instance_loop, init_proc, init_procs,
  init,
}
use tsm_proxy.FrameMng
use tsm_proxy.FrameMng.Registered.{ListedIn-exists}
use tsm_proxy.FrameMng.Making.{Made, add_instance-Made}

positive :
    (k obj : ℕ) (t : HashTable ℕ) → HashTable.get k t ≡ some obj → HashTable.get 0 t ≡ none → 0 < k
positive zero obj t e z = cc
positive (suc k) obj t e z = omega arith

module _ (clones : ℕ → ℕ → Bool) where
  -- The instances of a process of so many threads, with the ids behind `made`: one for each clone that
  -- succeeds.
  unfoldable pub planned_for : ℕ → ProcRsc → (obj made : ℕ) → List TaskEntry
  planned_for zero proc obj made = []
  planned_for (suc n) proc obj made = elim (clones obj made) [
    | true ↦ new_entry proc (made + 1) ∷ planned_for n proc obj (made + 1)
    | false ↦ planned_for n proc obj made
  ]

  abbrev pub planned_of : ProcRsc → Option ℕ → ℕ → List TaskEntry
  planned_of proc none made = []
  planned_of proc (some obj) made = planned_for (threads proc.thread_num) proc obj made

  -- The instances of all processes, in order; a process without a task object has none.
  unfoldable pub planned : List ProcRsc → HashTable ℕ → ℕ → List TaskEntry
  planned [] objs made = []
  planned (p ∷ ps) objs made =
      let own = planned_of p (HashTable.get p.task_id objs) made in
      own ++ planned ps objs (made + length own)

module _ (garbage : ℕ) (clones : ℕ → ℕ → Bool) where
  -- What Made says, and that the instances es, n at most, were made since.
  abbrev Grown : ℕ → List TaskEntry → FrameMng → FrameMng → Type 0
  Grown n es m m' =
      Made m'
      × (m'.tasks ≡ m.tasks ++ es)
      × (m'.max_inst ≡ m.max_inst + length es)
      × (length es ≤ n)
      × (m'.task_obj ≡ m.task_obj)

  add_instance_tasks :
      (proc : ProcRsc) (m : FrameMng) (tlist : Clist)
      → m.max_inst + 1 < 4294967296
      → (FrameMng.add_instance garbage proc (m, tlist)).0.tasks
        ≡ m.tasks ++ new_entry proc (m.max_inst + 1) ∷ []
  unfolding FrameMng.add_instance
  add_instance_tasks proc m tlist b =
      let id : u32 (m.max_inst + 1) ≡ m.max_inst + 1 = omega (arith, b) in
      ap (λ i. m.tasks ++ new_entry proc i ∷ []) id

  instance_loop-Grown :
      (n : ℕ) (proc : ProcRsc) (obj : ℕ) (m : FrameMng) (tlist : Clist)
      → 0 < proc.task_id
      → m.max_inst + n < 4294967296
      → Made m
      → Grown n
          (planned_for clones n proc obj m.max_inst)
          m
          (instance_loop garbage clones n proc obj (m, tlist)).0
  unfolding instance_loop planned_for
  instance_loop-Grown zero proc obj m tlist p b v =
      (v, sym (append-nil m.tasks), omega arith, omega arith, refl)
  instance_loop-Grown (suc n) proc obj m tlist p b v = elim (Bool-cases (clones obj m.max_inst)) [
    | inl e ↦
        let s = FrameMng.add_instance garbage proc (m, tlist) in
        let (w, next) = add_instance-Made garbage proc m tlist p (omega (arith, b)) v in
        let (x, made, counted, few, z) =
          subst
            (λ k.
              Grown n (planned_for clones n proc obj k) s.0
                (instance_loop garbage clones n proc obj s).0)
            next (instance_loop-Grown n proc obj s.0 s.1 p (omega (arith, b, next)) w) in
        rw (e, instance_loop, planned_for)
          (
            x,
            made
                ∙ ap (λ ts. ts ++ planned_for clones n proc obj (m.max_inst + 1))
                    (add_instance_tasks proc m tlist (omega (arith, b)))
                ∙ append_assoc m.tasks (new_entry proc (m.max_inst + 1) ∷ [])
                    (planned_for clones n proc obj (m.max_inst + 1)),
            omega (arith, counted, next),
            omega (arith, few),
            z ∙ (unfold FrameMng.add_instance in refl),
          )
    | inr e ↦
        let (x, made, counted, few, z) =
          instance_loop-Grown n proc obj m tlist p (omega (arith, b)) v in
        rw (e, instance_loop, planned_for) (x, made, counted, omega (arith, few), z)
  ]

  keep_list-Made :
      (taskid : ℕ) (m : FrameMng) (l : Clist)
      → Made m
      → Made (keep_list garbage clones taskid (m, l))
  keep_list-Made taskid m l v = record {
    numbered = v.numbered;
    listed = v.listed;
    selector_inv = v.selector_inv;
    registered = v.registered;
  }

  init_proc-Grown :
      (proc : ProcRsc) (m : FrameMng)
      → HashTable.get 0 m.task_obj ≡ none
      → m.max_inst + threads proc.thread_num < 4294967296
      → Made m
      → Grown
          (threads proc.thread_num)
          (planned_of clones proc (HashTable.get proc.task_id m.task_obj) m.max_inst)
          m
          (init_proc garbage clones proc m)
  unfolding init_proc
  init_proc-Grown proc m z b v = elim (Option-cases (HashTable.get proc.task_id m.task_obj)) [
    | inl e ↦ rw (init_proc, e) (v, sym (append-nil m.tasks), omega arith, omega arith, refl)
    | inr (obj, e) ↦
        let some_id : 0 < proc.task_id = positive proc.task_id obj m.task_obj e z in
        let s = instance_loop garbage clones (threads proc.thread_num) proc obj (m, Clist.new) in
        let (w, made, counted, few, same) =
          instance_loop-Grown (threads proc.thread_num) proc obj m Clist.new some_id b v in
        rw (init_proc, e) (keep_list-Made proc.task_id s.0 s.1 w, made, counted, few, same)
  ]

  -- The threads of all processes.
  abbrev pub total : List ProcRsc → ℕ
  total [] = 0
  total (p ∷ ps) = threads p.thread_num + total ps

  init_procs-Made :
      (ps : List ProcRsc) (m : FrameMng)
      → HashTable.get 0 m.task_obj ≡ none
      → m.max_inst + total ps < 4294967296
      → Made m
      → Made (init_procs garbage clones ps m)
        × ((init_procs garbage clones ps m).tasks
            ≡ m.tasks ++ planned clones ps m.task_obj m.max_inst)
  unfolding init_procs planned
  init_procs-Made [] m z b v = (v, sym (append-nil m.tasks))
  init_procs-Made (p ∷ ps) m z b v =
      let own = planned_of clones p (HashTable.get p.task_id m.task_obj) m.max_inst in
      let (w, made, counted, few, same) = init_proc-Grown p m z (omega (arith, b)) v in
      let m' = init_proc garbage clones p m in
      let (u, rest) =
        init_procs-Made ps m' (ap (HashTable.get 0) same ∙ z) (omega (arith, b, counted, few)) w in
      (
        u,
        rest
            ∙ ap (λ ts. ts ++ planned clones ps m'.task_obj m'.max_inst) made
            ∙ append_assoc m.tasks own (planned clones ps m'.task_obj m'.max_inst)
            ∙ ap (λ (x : HashTable ℕ × ℕ). m.tasks ++ (own ++ planned clones ps x.0 x.1))
                {x = (m'.task_obj, m'.max_inst)} {y = (m.task_obj, m.max_inst + length own)}
                (pair same counted),
      )
    where
      pair :
          {h h' : HashTable ℕ} {i i' : ℕ}
          → h ≡ h'
          → i ≡ i'
          → ◌≡◌ {A = HashTable ℕ × ℕ} (h, i) (h', i')
      pair p q = cc

  -- Init makes one instance for each thread of each process whose task has an object, where the clone
  -- succeeds, in that order and behind those that are there, if no task has the id 0 and the ids do not
  -- wrap. Where it held before, it holds of all instances that their ids count from 1 on in order, and
  -- that each is listed once in mInstList, is in the selector with its object and its task, and is in
  -- the list that the selector has of that task.
  pub init-Made :
      (app_id host_id : ℕ) (ps : List ProcRsc) (m : FrameMng)
      → HashTable.get 0 m.task_obj ≡ none
      → m.max_inst + total ps < 4294967296
      → Made m
      → Made (init garbage clones app_id host_id ps m)
        × ((init garbage clones app_id host_id ps m).tasks
            ≡ m.tasks ++ planned clones ps m.task_obj m.max_inst)
  unfolding init
  init-Made app_id host_id ps m z b v =
      init_procs-Made ps (record m { app_id = if ltb 0 app_id then app_id else host_id }) z b
        (record {
          numbered = v.numbered;
          listed = v.listed;
          selector_inv = v.selector_inv;
          registered = v.registered;
        })

-- A message with the ids of an instance that Init made, of a task whose id is not 0, is handed to the
-- object of that instance.
pub send-Made :
    (m : FrameMng) (i : ℕ) (t : TaskEntry) (msg : UniNetMsg)
    → Made m
    → get_elem? m.tasks i ≡ some t
    → 0 < t.task_id
    → msg.log_addr ≡ t.task_id
    → msg.task_inst_id ≡ t.inst_id
    → ((send_msg_to_task msg m.framectrl.selector).1 ≡ true)
      × ((send_msg_to_task msg m.framectrl.selector).0.log
          ≡ m.framectrl.selector.log ++ hand_over (suc i) msg ∷ [])
send-Made m i t msg v h p a b =
    let (n, (item, found, tu, of, there)) = v.registered i t h in
    let s = m.framectrl.selector in
    let sent =
      send-instance msg s item (omega (arith, a, p)) (omega (arith, b, n))
        (ap (λ k. exists k s) a ∙ ListedIn-exists t.task_id t.inst_id s there)
        (ap (λ k. HashTable.get k s.inst_list) b ∙ found) in
    (sent.0, sent.1 ∙ ap (λ k. s.log ++ hand_over k msg ∷ []) (tu ∙ n))
