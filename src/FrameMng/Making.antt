-- ===== src/FrameMng/Making.antt =====
-- What holds of the instances that Init has made so far (xframe/framemng.C), and that one more keeps it.
use tsm_proxy.Prelude.{
  ℕ, zero, suc, ◌+◌, ◌<◌, ◌≡◌, refl, ap, ◌∙◌, sym, subst, inl, inr, Option, none, some, List, [],
  ◌∷◌, ◌++◌, ltb, length, length-append, get_elem?, Bool-cases, u32, arith,
}
use tsm_proxy.Clist.{Clist, push_back}
use tsm_proxy.Clist
use tsm_proxy.TaskSelector.{register_task}
use tsm_proxy.TaskSelector.Invariant.{Inv, register_task-Inv}
use tsm_proxy.FrameCtrl.{FrameCtrl, Msg}
use tsm_proxy.Timer.{TimerQueue}
use tsm_proxy.FrameMng.{
  FrameMng, TaskEntry, ProcRsc, new_entry, threads, keep_list, instance_loop, init_proc, init_procs,
  init,
}
use tsm_proxy.FrameMng
use tsm_proxy.FrameMng.Loops.{places}
use tsm_proxy.FrameMng.Starts.{IsListed}
use tsm_proxy.FrameMng.Registered.{
  Registered, register_task-Registered, register_task-Registered_other,
}

-- What Init keeps: the instances have the ids from 1 on in the order in which they are made, each is
-- listed and registered, and the selector is well formed.
pub record Made (m : FrameMng) : Type 0 where
  pub numbered : m.max_inst ≡ length m.tasks
  pub listed : IsListed m
  pub selector_inv : Inv m.framectrl.selector
  pub registered :
      (i : ℕ) (t : TaskEntry)
      → get_elem? m.tasks i ≡ some t
      → (t.inst_id ≡ suc i) × Registered t m.framectrl.selector

-- The constructor makes no instance.
pub new-Made : (f : FrameCtrl) (q : TimerQueue Msg) → Inv f.selector → Made (FrameMng.new f q)
unfolding FrameMng.new Clist.new
new-Made f q v = record {
  numbered = refl;
  listed = refl;
  selector_inv = v;
  registered = λ i t h. absurd (no t h);
}
  where
    no : (t : TaskEntry) → ◌≡◌ {A = Option TaskEntry} none (some t) → ⊥
    no t h = cc

pub register_task-Made :
    (taskid : ℕ) (o : Option ℕ) (m : FrameMng) → Made m → Made (FrameMng.register_task taskid o m)
unfolding FrameMng.register_task
register_task-Made taskid none m v = v
register_task-Made taskid (some obj) m v = elim (Bool-cases (ltb 0 taskid)) [
  | inl e ↦ rw e (record {
    numbered = v.numbered;
    listed = v.listed;
    selector_inv = v.selector_inv;
    registered = v.registered;
  })
  | inr e ↦ rw e v
]

places-suc : (i n : ℕ) → places i (suc n) ≡ places i n ++ (i + n) ∷ []
places-suc i zero = ap (λ x. x ∷ []) (omega arith)
places-suc i (suc n) =
    ap (λ x. i ∷ x) (places-suc (suc i) n ∙ ap (λ x. places (suc i) n ++ x ∷ []) (omega arith))

-- What stands at a place of a list with one more item.
data AtPlace (xs : List TaskEntry) (y : TaskEntry) (i : ℕ) (t : TaskEntry) : Type 0 where
  within : i < length xs → get_elem? xs i ≡ some t → AtPlace xs y i t
  at_end : i ≡ length xs → y ≡ t → AtPlace xs y i t

later :
    (x : TaskEntry) (xs : List TaskEntry) (y : TaskEntry) (i : ℕ) (t : TaskEntry)
    → AtPlace xs y i t
    → AtPlace (x ∷ xs) y (suc i) t
later x xs y i t (within p h) = within (omega (arith, p)) h
later x xs y i t (at_end p h) = at_end (ap suc p) h

get_elem?-AtPlace :
    (xs : List TaskEntry) (y : TaskEntry) (i : ℕ) (t : TaskEntry)
    → get_elem? (xs ++ y ∷ []) i ≡ some t
    → AtPlace xs y i t
get_elem?-AtPlace [] y zero t h = at_end refl cc
get_elem?-AtPlace [] y (suc i) t h = cc
get_elem?-AtPlace (x ∷ xs) y zero t h = within (omega arith) h
get_elem?-AtPlace (x ∷ xs) y (suc i) t h = later x xs y i t (get_elem?-AtPlace xs y i t h)

AtPlace-Registered :
    (garbage : ℕ) (proc : ProcRsc) (m : FrameMng)
    → 0 < proc.task_id
    → m.max_inst + 1 < 4294967296
    → Made m
    → (i : ℕ) (t : TaskEntry) → AtPlace m.tasks (new_entry proc (u32 (m.max_inst + 1))) i t
    → (t.inst_id ≡ suc i)
      × Registered t
          (register_task garbage proc.task_id
            (u32 (m.max_inst + 1))
            (u32 (m.max_inst + 1))
            m.framectrl.selector).0
AtPlace-Registered garbage proc m p b v i t (within q h) =
    let (n, r) = v.registered i t h in
    let id : u32 (m.max_inst + 1) ≡ m.max_inst + 1 = omega (arith, b) in
    (
      n,
      register_task-Registered_other garbage proc.task_id (u32 (m.max_inst + 1)) t
          m.framectrl.selector v.selector_inv (λ e. omega (arith, e, n, id, q, v.numbered)) r,
    )
AtPlace-Registered garbage proc m p b v i t (at_end q h) =
    let inst = u32 (m.max_inst + 1) in
    let id : inst ≡ m.max_inst + 1 = omega (arith, b) in
    let s = m.framectrl.selector in
    subst
      (λ u. (u.inst_id ≡ suc i) × Registered u (register_task garbage proc.task_id inst inst s).0) h
      (
        id ∙ omega (arith, q, v.numbered),
        register_task-Registered garbage inst proc s v.selector_inv p (omega (arith, id)),
      )

pub add_instance-Made :
    (garbage : ℕ) (proc : ProcRsc) (m : FrameMng) (tlist : Clist)
    → 0 < proc.task_id
    → m.max_inst + 1 < 4294967296
    → Made m
    → Made (FrameMng.add_instance garbage proc (m, tlist)).0
      × ((FrameMng.add_instance garbage proc (m, tlist)).0.max_inst ≡ m.max_inst + 1)
unfolding FrameMng.add_instance push_back
add_instance-Made garbage proc m tlist p b v =
    let inst = u32 (m.max_inst + 1) in
    let id : inst ≡ m.max_inst + 1 = omega (arith, b) in
    let s = m.framectrl.selector in
    (
      record {
        numbered = id ∙ omega (arith, v.numbered, length-append m.tasks (new_entry proc inst ∷ []));
        listed =
            ap (λ is. is ++ length m.tasks ∷ []) v.listed
            ∙ sym (
                places-suc 0 (length m.tasks)
                ∙ ap (λ x. places 0 (length m.tasks) ++ x ∷ []) {y = length m.tasks} (omega arith))
            ∙ ap (places 0) {x = suc (length m.tasks)}
                (omega (arith, length-append m.tasks (new_entry proc inst ∷ [])));
        selector_inv = register_task-Inv garbage proc.task_id inst inst s v.selector_inv;
        registered = λ i t h.
            AtPlace-Registered garbage proc m p b v i t
              (get_elem?-AtPlace m.tasks (new_entry proc inst) i t h);
      },
      id,
    )
