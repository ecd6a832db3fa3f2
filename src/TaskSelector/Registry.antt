-- ===== src/TaskSelector/Registry.antt =====
-- Registration, shutdown and unregistration, as the messages that follow see them.
use tsm_proxy.Prelude.{
  ℕ, ◌<◌, ◌≡◌, refl, ap, ◌∙◌, sym, inl, inr, true, false, ◌&&◌, Option, none, some, [], ◌∷◌, ◌++◌,
  arith, ◌==◌, ltb, length, Bool-cases, Option-cases, ==_refl,
}
use mathlib.Core.List.{append-nil}
use tsm_proxy.Prelude.Int.{incr}
use tsm_proxy.HashTable.{HashTable, is_found}
use tsm_proxy.HashTable
use tsm_proxy.HashTable.Laws
use tsm_proxy.HashTable.Laws.{get-put, put-IsValid}
use tsm_proxy.HashTable.Removal.{get-remove, get-update, contains_key-get, map_some}
use tsm_proxy.Clist.{Clist}
use tsm_proxy.Clist
use tsm_proxy.TaskSelector.{
  UniNetMsg, Item, TaskState, Selector, hand_over, exists, register_task, add_instance,
  unregister_inst,
}
use tsm_proxy.TaskSelector.Dispatch.{get_task, send_msg_to_task, tu_of, usable}
use tsm_proxy.TaskSelector.Invariant.{Inv}
use tsm_proxy.TaskSelector.RoundRobin.{ring, bound}
use tsm_proxy.TaskSelector.Choice.{Listed, Listed-ring, first_usable_sound, first_usable_complete}
use tsm_proxy.TaskSelector.Sending.{send-ring, send-instance, send_log, is_some, delivery}

-- A message for a task with a listed instance that is registered and not shutting down is handed
-- over once, to such an instance, wherever the last choice was.
pub send-reaches :
    (msg : UniNetMsg) (s : Selector) (ts : TaskState) (i : ℕ)
    → Inv s
    → 0 < msg.log_addr
    → msg.task_inst_id ≡ 0
    → HashTable.get msg.log_addr s.task_list ≡ some ts
    → length ts.inst.items < bound
    → ts.instpos < bound
    → Listed i ts.inst.items
    → usable (HashTable.get i s.inst_list) ≡ true
    → ((send_msg_to_task msg s).1 ≡ true)
      × ((j : ℕ) × Listed j ts.inst.items
          × (usable (HashTable.get j s.inst_list) ≡ true)
          × ((send_msg_to_task msg s).0.log
              ≡ s.log ++ hand_over (tu_of (HashTable.get j s.inst_list)) msg ∷ []))
send-reaches msg s ts i v pos whole e small h l u =
    let (done, log) = send-ring msg s ts v pos whole e small h in
    let (j, chosen) =
      first_usable_complete s.inst_list (ring ts.instpos ts.inst.items) i
        ((Listed-ring i ts.instpos ts.inst.items).0 l) u in
    let (listed, good) = first_usable_sound s.inst_list (ring ts.instpos ts.inst.items) j chosen in
    (
      done ∙ ap is_some chosen,
      (
        j,
        (Listed-ring j ts.instpos ts.inst.items).1 listed,
        good,
        log ∙ ap (λ o. s.log ++ delivery s.inst_list msg o) chosen,
      ),
    )

abbrev added : (garbage taskid instid tu : ℕ) → Item
added garbage taskid instid tu = record {
  instid = instid;
  taskid = taskid;
  tu = tu;
  count = garbage;
  shutting_down = false;
}

pub add_instance_insts :
    (taskid instid : ℕ) (s : Selector) → (add_instance taskid instid s).inst_list ≡ s.inst_list
unfolding add_instance
add_instance_insts taskid instid s = ground arith

add_instance_log : (taskid instid : ℕ) (s : Selector) → (add_instance taskid instid s).log ≡ s.log
unfolding add_instance
add_instance_log taskid instid s = ground arith

pub get-put_self {ℓ} :
    {V : Type ℓ} (k : ℕ) (x : V) (t : HashTable V)
    → HashTable.Laws.IsValid t
    → HashTable.get k (HashTable.put k x t).0 ≡ some x
get-put_self k x t w = get-put k k x t w ∙ rw ==_refl refl

pub found-update {ℓ} :
    {V : Type ℓ} (k : ℕ) (f : V → V) (t : HashTable V)
    → HashTable.Laws.IsValid t
    → HashTable.contains_key k (HashTable.update k f t) ≡ HashTable.contains_key k t
found-update {V = V} k f t w =
    let updated : HashTable.get k (HashTable.update k f t) ≡ map_some f (HashTable.get k t) =
      get-update k k f t w ∙ rw ==_refl refl in
    contains_key-get k (HashTable.update k f t)
    ∙ ap is_found updated
    ∙ same (HashTable.get k t)
    ∙ sym (contains_key-get k t)
  where
    same : (o : Option V) → is_found (map_some f o) ≡ is_found o
    same none = refl
    same (some x) = refl

pub add_instance-exists :
    (taskid instid : ℕ) (s : Selector) → Inv s → exists taskid (add_instance taskid instid s) ≡ true
unfolding exists add_instance
add_instance-exists taskid instid s v =
    elim (Bool-cases (HashTable.contains_key taskid s.task_list)) [
      | inl e ↦ rw e (found-update taskid _ s.task_list v.tasks ∙ e)
      | inr e ↦
          let entry : TaskState = record {
            taskid = taskid;
            instpos = 0;
            inst = Clist.push_back instid Clist.new;
          } in
          rw e (
            contains_key-get taskid (HashTable.put taskid entry s.task_list).0
            ∙ ap is_found (get-put_self taskid entry s.task_list v.tasks))
    ]

-- A registration of a task and an instance succeeds exactly where neither id is 0, and a message
-- with these two ids is then handed to the task object that was registered, also where an instance
-- of this id was registered before.
pub register-deliver :
    (garbage taskid instid tu : ℕ) (msg : UniNetMsg) (s : Selector)
    → Inv s
    → 0 < taskid
    → 0 < instid
    → msg.log_addr ≡ taskid
    → msg.task_inst_id ≡ instid
    → ((register_task garbage taskid instid tu s).1 ≡ true)
      × ((send_msg_to_task msg (register_task garbage taskid instid tu s).0).1 ≡ true)
      × ((send_msg_to_task msg (register_task garbage taskid instid tu s).0).0.log
          ≡ s.log ++ hand_over tu msg ∷ [])
unfolding register_task exists
register-deliver garbage taskid instid tu msg s v p q a b =
    let ids : (ltb 0 taskid && ltb 0 instid) ≡ true = ground arith in
    let here = add_instance-exists taskid instid s v in
    let s' = add_instance taskid instid s in
    let item = added garbage taskid instid tu in
    let stored =
      get-put_self instid item s'.inst_list (rw (add_instance_insts taskid instid s) v.insts) in
    let target : Selector = record s' {
      inst_list = (HashTable.put instid item s'.inst_list).0;
      registered_inst_amount = incr s'.registered_inst_amount;
    } in
    let (done, log) =
      send-instance msg target item (omega (arith, a, p)) (omega (arith, b, q))
        (ap (λ i. exists i target) a ∙ here)
        (ap (λ i. HashTable.get i target.inst_list) b ∙ stored) in
    rw (ids, register_task)
      (refl, done, log ∙ ap (λ es. es ++ hand_over tu msg ∷ []) (add_instance_log taskid instid s))

send_unregistered :
    (msg : UniNetMsg) (s : Selector)
    → exists msg.log_addr s ≡ false
    → ((send_msg_to_task msg s).1 ≡ false) × ((send_msg_to_task msg s).0.log ≡ s.log)
unfolding send_msg_to_task
send_unregistered msg s h = rw (h, send_msg_to_task) (refl, refl)

-- A search that finds no instance leaves the message with the caller.
send_refused :
    (msg : UniNetMsg) (s : Selector)
    → (get_task msg.log_addr msg.task_inst_id s).1 ≡ none
    → ((send_msg_to_task msg s).1 ≡ false) × ((send_msg_to_task msg s).0.log ≡ s.log)
send_refused msg s e = elim (Bool-cases (exists msg.log_addr s)) [
  | inl h ↦ let (done, log) = send_log msg s none h e in (done, log ∙ append-nil s.log)
  | inr h ↦ send_unregistered msg s h
]

get_task_gone :
    (taskid instid : ℕ) (s : Selector)
    → 0 < instid
    → HashTable.contains_key instid s.inst_list ≡ false
    → (get_task taskid instid s).1 ≡ none
unfolding get_task
get_task_gone taskid instid s p e =
    let set : (instid == 0) ≡ false = ground arith in
    let given : ltb 0 instid ≡ true = ground arith in
    elim (Bool-cases (ltb 0 taskid)) [
      | inl t ↦ rw (t, given, e, set, get_task) refl
      | inr t ↦ rw (t, get_task) refl
    ]

unregistered :
    (instid : ℕ) (s : Selector)
    → Inv s
    → (HashTable.contains_key instid (unregister_inst instid s).inst_list ≡ false)
      × ((unregister_inst instid s).log ≡ s.log)
unfolding unregister_inst
unregistered instid s v = elim (Option-cases (HashTable.get instid s.inst_list)) [
  | inl e ↦ rw (e, unregister_inst) (contains_key-get instid s.inst_list ∙ ap is_found e, refl)
  | inr (item, e) ↦
      let gone : HashTable.get instid (HashTable.remove instid s.inst_list).0 ≡ none =
        get-remove instid instid s.inst_list v.insts ∙ rw ==_refl refl in
      rw (e, unregister_inst)
        (contains_key-get instid (HashTable.remove instid s.inst_list).0 ∙ ap is_found gone, refl)
]

-- After an instance is unregistered, a message with its id is refused and stays with the caller.
pub unregister-refuse :
    (instid : ℕ) (msg : UniNetMsg) (s : Selector)
    → Inv s
    → 0 < instid
    → msg.task_inst_id ≡ instid
    → ((send_msg_to_task msg (unregister_inst instid s)).1 ≡ false)
      × ((send_msg_to_task msg (unregister_inst instid s)).0.log ≡ s.log)
unregister-refuse instid msg s v p e =
    let (gone, log) = unregistered instid s v in
    let (done, same) = send_refused msg (unregister_inst instid s) (
      ap (λ i. (get_task msg.log_addr i (unregister_inst instid s)).1) e
      ∙ get_task_gone msg.log_addr instid (unregister_inst instid s) p gone) in
    (done, same ∙ log)
