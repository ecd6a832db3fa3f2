-- ===== src/TaskSelector/Steps.antt =====
-- Every call of the selector keeps its invariant.
use tsm_proxy.Prelude.{
  ℕ, zero, suc, ◌+◌, ◌≡◌, ◌∙◌, inl, inr, ◌&&◌, Option, none, some, List, [], ◌∷◌, ◌==◌, ltb,
  if◌then◌else◌, length, Bool-cases, Option-cases,
}
use tsm_proxy.HashTable.{HashTable}
use tsm_proxy.HashTable
use tsm_proxy.HashTable.Laws
use tsm_proxy.HashTable.Removal.{update-IsValid}
use tsm_proxy.HashTable.Everywhere.{update-Everywhere}
use tsm_proxy.HashTable.Traversal.{reset_table, get_next_table}
use tsm_proxy.Clist.{Clist, fetch}
use tsm_proxy.Clist
use tsm_proxy.Clist.Valid
use tsm_proxy.Clist.Walk.{next_keeps, reset_items}
use tsm_proxy.TaskSelector.{
  UniNetMsg, Selector, TaskState, Item, init, register_task, shutdown_inst, shutdown_task,
  unregister_inst, unregister_task, emit, release, exists, dialog_broadcast, dialog_multicast,
  proceed,
}
use tsm_proxy.TaskSelector.Dispatch.{
  get_task, deliver, send_msg_to_task, copy_to, count_msg, multicast_loop, multicast_msg_to_task,
  broadcast_step, broadcast_loop, broadcast_msg_to_task, round_robin,
}
use tsm_proxy.TaskSelector.Dispatch
use tsm_proxy.TaskSelector.Invariant.{
  Inv, TaskIsValid, init-Inv, register_task-Inv, shutdown_inst-Inv, shutdown_task-Inv,
  unregister_inst-Inv, unregister_task-Inv,
}
use tsm_proxy.TaskSelector.RoundRobin.{round_robin-KeepsList}

-- The invariant reads only the two tables.
inst_list-Inv :
    (items : HashTable Item) (s : Selector)
    → HashTable.Laws.IsValid items
    → Inv s
    → Inv (record s { inst_list = items })
inst_list-Inv items s w v = record { insts = w; tasks = v.tasks; lists = v.lists }

store-Inv :
    (taskid : ℕ) (f : TaskState → TaskState) (s : Selector)
    → ((t : TaskState) → TaskIsValid t → TaskIsValid (f t))
    → Inv s
    → Inv (record s { task_list = HashTable.update taskid f s.task_list })
store-Inv taskid f s step v = record {
  insts = v.insts;
  tasks = update-IsValid taskid f s.task_list v.tasks;
  lists = update-Everywhere TaskIsValid taskid f s.task_list v.tasks step v.lists;
}

get_task-Inv : (taskid instid : ℕ) (s : Selector) → Inv s → Inv (get_task taskid instid s).0
unfolding get_task
get_task-Inv taskid instid s v =
    elim (Bool-cases
      (ltb 0 taskid && (ltb 0 instid && HashTable.contains_key instid s.inst_list))) [
        | inl e ↦ rw e v
        | inr e ↦ elim (Bool-cases (ltb 0 taskid && instid == 0)) [
          | inr g ↦ rw (e, g) v
          | inl g ↦ elim (Option-cases (HashTable.get taskid s.task_list)) [
            | inl h ↦ rw (e, g, h, get_task) v
            | inr (ts, h) ↦
                let (items, kept) = round_robin-KeepsList s.inst_list ts (v.lists taskid ts h).0 in
                rw (e, g, h, get_task)
                  (store-Inv taskid _ s (λ t p. (kept, rw items (v.lists taskid ts h).1)) v)
          ]
        ]
      ]

deliver-Inv : (instid : ℕ) (msg : UniNetMsg) (s : Selector) → Inv s → Inv (deliver instid msg s)
unfolding deliver
deliver-Inv instid msg s v = record {
  insts = update-IsValid instid count_msg s.inst_list v.insts;
  tasks = v.tasks;
  lists = v.lists;
}

send-Inv : (msg : UniNetMsg) (s : Selector) → Inv s → Inv (send_msg_to_task msg s).0
unfolding send_msg_to_task
send-Inv msg s v = elim (Bool-cases (exists msg.log_addr s)) [
  | inr e ↦ rw (e, send_msg_to_task) v
  | inl e ↦
      let w = get_task-Inv msg.log_addr msg.task_inst_id s v in
      elim (Option-cases (get_task msg.log_addr msg.task_inst_id s).1) [
        | inl h ↦ rw (e, h, send_msg_to_task) w
        | inr (i, h) ↦ rw (e, h, send_msg_to_task) (deliver-Inv i msg _ w)
      ]
]

copy_to-Inv : (msg : UniNetMsg) (instid : ℕ) (s : Selector) → Inv s → Inv (copy_to msg instid s)
unfolding copy_to
copy_to-Inv msg instid s v = elim (Option-cases (HashTable.get instid s.inst_list)) [
  | inl e ↦ rw (e, copy_to) v
  | inr (item, e) ↦
      rw (e, copy_to)
        (record {
          insts = update-IsValid instid count_msg s.inst_list v.insts;
          tasks = v.tasks;
          lists = v.lists;
        })
]

-- The list that the loop of a multicast leaves has the same ids.
abbrev LoopKeeps : List ℕ → Clist × Selector → Type 0
LoopKeeps ids r = (r.0.items ≡ ids) × Clist.Valid.IsValid r.0 × Inv r.1

proceed-Keeps :
    (again : ℕ → Clist → Selector → Clist × Selector) (s : Selector) (ids : List ℕ)
    → Inv s
    → ((j : ℕ) (l : Clist) → l.items ≡ ids → Clist.Valid.IsValid l → LoopKeeps ids (again j l s))
    → (r : Clist × Option ℕ) → r.0.items ≡ ids
    → Clist.Valid.IsValid r.0
    → LoopKeeps ids (proceed again r s)
unfolding proceed
proceed-Keeps again s ids v step (l, none) p q = (p, q, v)
proceed-Keeps again s ids v step (l, some j) p q = step j l p q

copy_if-Inv :
    (msg : UniNetMsg) (j : ℕ) (s : Selector) → Inv s → Inv (if ltb 0 j then copy_to msg j s else s)
copy_if-Inv msg j s v = elim (Bool-cases (ltb 0 j)) [
  | inl g ↦ rw g (copy_to-Inv msg j s v)
  | inr g ↦ rw g v
]

multicast_loop-Inv :
    (msg : UniNetMsg) (fuel : ℕ) (l : Clist) (s : Selector) (ids : List ℕ)
    → l.items ≡ ids
    → Clist.Valid.IsValid l
    → Inv s
    → LoopKeeps ids (multicast_loop msg fuel l s)
unfolding multicast_loop
multicast_loop-Inv msg zero l s ids e w v = (e, w, v)
multicast_loop-Inv msg (suc fuel) l s ids e w v =
    let (same, kept) = next_keeps l w in
    proceed-Keeps (λ j l' s'. multicast_loop msg fuel l' (if ltb 0 j then copy_to msg j s' else s'))
      s ids v (λ j l' p q. multicast_loop-Inv msg fuel l' _ ids p q (copy_if-Inv msg j s v))
      (fetch (Clist.next l)) (same ∙ e) kept

emit-Inv : (msg : UniNetMsg) (s : Selector) → Inv s → Inv (emit (release msg) s)
emit-Inv msg s v = record { insts = v.insts; tasks = v.tasks; lists = v.lists }

multicast-Inv : (msg : UniNetMsg) (s : Selector) → Inv s → Inv (multicast_msg_to_task msg s).0
unfolding multicast_msg_to_task
multicast-Inv msg s v = elim (Bool-cases (exists msg.log_addr s)) [
  | inr e ↦ rw (e, multicast_msg_to_task) (emit-Inv msg s v)
  | inl e ↦ elim (Option-cases (HashTable.get msg.log_addr s.task_list)) [
    | inl h ↦ rw (e, h, multicast_msg_to_task) (emit-Inv msg s v)
    | inr (ts, h) ↦
        let (w, n) = v.lists msg.log_addr ts h in
        let (items, kept, u) =
          multicast_loop-Inv msg (length ts.inst.items) (Clist.reset ts.inst) s ts.inst.items
            (reset_items ts.inst) (Clist.Valid.apply-IsValid Clist.Valid.resets ts.inst w) v in
        let stored = store-Inv msg.log_addr _ _ (λ t p. (kept, rw items n)) u in
        rw (e, h, multicast_msg_to_task)
          (record { insts = stored.insts; tasks = stored.tasks; lists = stored.lists })
  ]
]

broadcast_step-Inv :
    (msg : UniNetMsg) (again : Selector → Selector) (s : Selector)
    → ((u : Selector) → Inv u → Inv (again u))
    → Inv s
    → (r : HashTable Item × Option (ℕ × Item)) → HashTable.Laws.IsValid r.0
    → Inv (broadcast_step msg again s r)
unfolding broadcast_step
broadcast_step-Inv msg again s step v (t, none) w = inst_list-Inv t s w v
broadcast_step-Inv msg again s step v (t, some (k, item)) w =
    step _ (record { insts = update-IsValid k count_msg t w; tasks = v.tasks; lists = v.lists })

broadcast_loop-Inv :
    (msg : UniNetMsg) (fuel : ℕ) (s : Selector) → Inv s → Inv (broadcast_loop msg fuel s)
unfolding broadcast_loop
broadcast_loop-Inv msg zero s v = v
broadcast_loop-Inv msg (suc fuel) s v =
    let (table, count) = get_next_table s.inst_list in
    broadcast_step-Inv msg (broadcast_loop msg fuel) s (broadcast_loop-Inv msg fuel) v
      (HashTable.get_next s.inst_list)
      (record { placed = rw table v.insts.placed; counted = rw table (count ∙ v.insts.counted) })

broadcast-Inv : (msg : UniNetMsg) (s : Selector) → Inv s → Inv (broadcast_msg_to_task msg s).0
unfolding broadcast_msg_to_task
broadcast-Inv msg s v =
    let (table, count) = reset_table s.inst_list in
    let w : HashTable.Laws.IsValid (HashTable.reset s.inst_list).0 = record {
      placed = rw table v.insts.placed;
      counted = rw table (count ∙ v.insts.counted);
    } in
    let u = broadcast_loop-Inv msg (HashTable.size s.inst_list + 1) _ (inst_list-Inv _ s w v) in
    record { insts = u.insts; tasks = u.tasks; lists = u.lists }

add-Inv : (msg : UniNetMsg) (s : Selector) → Inv s → Inv (Dispatch.add msg s).0
unfolding Dispatch.add
add-Inv msg s v = elim (Bool-cases (msg.msg_type == dialog_broadcast)) [
  | inl e ↦ rw (e, Dispatch.add) (broadcast-Inv msg s v)
  | inr e ↦ elim (Bool-cases (msg.msg_type == dialog_multicast)) [
    | inl g ↦ rw (e, g, Dispatch.add) (multicast-Inv msg s v)
    | inr g ↦ rw (e, g, Dispatch.add) (send-Inv msg s v)
  ]
]

-- The calls that change a selector.
pub data Call : Type 0 where
  inits : Call
  registers : (garbage taskid instid tu : ℕ) → Call
  unregisters_task unregisters_inst shuts_task shuts_inst : ℕ → Call
  adds : UniNetMsg → Call

unfoldable pub apply : Call → Selector → Selector
apply inits s = init s
apply (registers garbage taskid instid tu) s = (register_task garbage taskid instid tu s).0
apply (unregisters_task taskid) s = unregister_task taskid s
apply (unregisters_inst instid) s = unregister_inst instid s
apply (shuts_task taskid) s = shutdown_task taskid s
apply (shuts_inst instid) s = shutdown_inst instid s
apply (adds msg) s = (Dispatch.add msg s).0

unfoldable pub run : List Call → Selector → Selector
unfolding apply
run [] s = s
run (c ∷ cs) s = run cs (apply c s)

apply-Inv : (c : Call) (s : Selector) → Inv s → Inv (apply c s)
unfolding apply
apply-Inv inits s v = init-Inv s v
apply-Inv (registers garbage taskid instid tu) s v = register_task-Inv garbage taskid instid tu s v
apply-Inv (unregisters_task taskid) s v = unregister_task-Inv taskid s v
apply-Inv (unregisters_inst instid) s v = unregister_inst-Inv instid s v
apply-Inv (shuts_task taskid) s v = shutdown_task-Inv taskid s v
apply-Inv (shuts_inst instid) s v = shutdown_inst-Inv instid s v
apply-Inv (adds msg) s v = add-Inv msg s v

-- Whatever calls are made, the two tables stay well formed and every task's list of instances stays a
-- well-formed list of ids other than 0.
pub run-Inv : (cs : List Call) (s : Selector) → Inv s → Inv (run cs s)
unfolding run
run-Inv [] s v = v
run-Inv (c ∷ cs) s v = run-Inv cs (apply c s) (apply-Inv c s v)
