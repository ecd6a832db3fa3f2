-- ===== src/TaskSelector/Dispatch.antt =====
-- xframe/kernel/taskselector.C: getTask, add, sendMsgToTask, multicastMsgToTask, broadcastMsgToTask.
use tsm_proxy.Prelude.{
  ℕ, zero, suc, ◌+◌, Bool, true, false, ◌&&◌, not, Option, none, some, [], ◌∷◌, ◌++◌, ◌==◌, leb,
  ltb, if◌then◌else◌, length, u32,
}
use tsm_proxy.Prelude.Int.{incr}
use tsm_proxy.HashTable.{HashTable}
use tsm_proxy.HashTable
use tsm_proxy.Clist.{Clist, fetch}
use tsm_proxy.Clist
use tsm_proxy.TaskSelector.{
  UniNetMsg, Item, TaskState, Selector, hand_over, queue_copy, release, emit, exists,
  dialog_broadcast, dialog_multicast, proceed,
}

-- `ts->instpos++; if(ts->instpos>=ts->inst->count()) ts->instpos=0;`
unfoldable pub advance : ℕ → ℕ → ℕ
advance count pos = if leb count (u32 (pos + 1)) then 0 else u32 (pos + 1)

-- `item` of an instance that is registered and not marked by shutdown.
abbrev pub usable : Option Item → Bool
usable none = false
usable (some item) = not item.shutting_down

-- One round of the loop: the task state with its place moved on, and the instance there.
abbrev pub look : TaskState → TaskState × Option ℕ
look ts =
    let pos = advance (Clist.count ts.inst) ts.instpos in
    let (l, found) = Clist.get pos ts.inst in (record ts { instpos = pos; inst = l }, found)

-- The body of the loop: `return item`, or the next round.
unfoldable pub choose :
    HashTable Item
    → (TaskState → TaskState × Option ℕ)
    → TaskState × Option ℕ
    → TaskState × Option ℕ
choose items again (ts, none) = again ts
choose items again (ts, some instid) =
    if usable (HashTable.get instid items) then (ts, some instid) else again ts

-- The `for` loop of getTask, with the rounds left.
unfoldable pub round_robin : HashTable Item → ℕ → TaskState → TaskState × Option ℕ
unfolding advance choose
round_robin items zero ts = (ts, none)
round_robin items (suc rounds) ts = choose items (round_robin items rounds) (look ts)

-- getTask: the key of the item that is returned, and the state with the task's place moved on.
unfoldable pub get_task : ℕ → ℕ → Selector → Selector × Option ℕ
unfolding round_robin
get_task taskid instid s =
    if ltb 0 taskid && (ltb 0 instid && HashTable.contains_key instid s.inst_list)
    then (s, some instid)
    else if ltb 0 taskid && instid == 0
    then elim (HashTable.get taskid s.task_list) [
      | none ↦ (s, none)
      | some ts ↦
          let (ts', found) = round_robin s.inst_list (Clist.count ts.inst) ts in
          (record s { task_list = HashTable.update taskid (λ _. ts') s.task_list }, found)
    ]
    else (s, none)

-- `item->count++`
abbrev pub count_msg : Item → Item
count_msg item = record item { count = u32 (item.count + 1) }

abbrev pub tu_of : Option Item → ℕ
tu_of none = 0
tu_of (some item) = item.tu

-- `item->tu->add(msg); item->count++; sendMsgToTaskCount++;`
unfoldable pub deliver : ℕ → UniNetMsg → Selector → Selector
deliver instid msg s = record s {
  inst_list = HashTable.update instid count_msg s.inst_list;
  send_msg_to_task_count = incr s.send_msg_to_task_count;
  log = s.log ++ hand_over (tu_of (HashTable.get instid s.inst_list)) msg ∷ [];
}

unfoldable pub send_msg_to_task : UniNetMsg → Selector → Selector × Bool
unfolding deliver
send_msg_to_task msg s =
    if not (exists msg.log_addr s)
    then (s, false)
    else let (s', found) = get_task msg.log_addr msg.task_inst_id s in
      elim found [ none ↦ (s', false) | some instid ↦ (deliver instid msg s', true) ]

-- `item->tu->add(newMsg); item->count++;` for the instance, if it is registered.
unfoldable pub copy_to : UniNetMsg → ℕ → Selector → Selector
copy_to msg instid s = elim (HashTable.get instid s.inst_list) [
  | none ↦ s
  | some item ↦ record s {
    inst_list = HashTable.update instid count_msg s.inst_list;
    log = s.log ++ queue_copy item.tu msg ∷ [];
  }
]

-- `while(ts->inst->next(instid))`. Each round moves the cursor on.
unfoldable pub multicast_loop : UniNetMsg → ℕ → Clist → Selector → Clist × Selector
unfolding copy_to proceed
multicast_loop msg zero l s = (l, s)
multicast_loop msg (suc fuel) l s =
    proceed (λ j l' s'. multicast_loop msg fuel l' (if ltb 0 j then copy_to msg j s' else s'))
      (fetch (Clist.next l)) s

unfoldable pub multicast_msg_to_task : UniNetMsg → Selector → Selector × Bool
unfolding multicast_loop
multicast_msg_to_task msg s =
    if not (exists msg.log_addr s)
    then (emit (release msg) s, false)
    else elim (HashTable.get msg.log_addr s.task_list) [
      | none ↦ (emit (release msg) s, true)
      | some ts ↦
          let (l, s') = multicast_loop msg (length ts.inst.items) (Clist.reset ts.inst) s in
          (
            emit (release msg) (record s' {
              task_list = HashTable.update msg.log_addr (λ t. record t { inst = l }) s'.task_list;
              multicast_msg_count = incr s'.multicast_msg_count;
            }),
            true,
          )
    ]

-- The body of the broadcast loop: `item->tu->add(newMsg); item->count++;`, or its end. The write
-- through the item leaves the traversal where it is.
unfoldable pub broadcast_step :
    UniNetMsg → (Selector → Selector) → Selector → HashTable Item × Option (ℕ × Item) → Selector
broadcast_step msg again s (t, none) = record s { inst_list = t }
broadcast_step msg again s (t, some (k, item)) = again (record s {
  inst_list = HashTable.update k count_msg t;
  log = s.log ++ queue_copy item.tu msg ∷ [];
})

-- `while(mInstList.getNext(item))`
unfoldable pub broadcast_loop : UniNetMsg → ℕ → Selector → Selector
unfolding broadcast_step
broadcast_loop msg zero s = s
broadcast_loop msg (suc fuel) s =
    broadcast_step msg (broadcast_loop msg fuel) s (HashTable.get_next s.inst_list)

unfoldable pub broadcast_msg_to_task : UniNetMsg → Selector → Selector × Bool
unfolding broadcast_loop
broadcast_msg_to_task msg s =
    let started = record s { inst_list = (HashTable.reset s.inst_list).0 } in
    let s' = broadcast_loop msg (HashTable.size s.inst_list + 1) started in
    (emit (release msg) (record s' { broadcast_msg_count = incr s'.broadcast_msg_count }), true)

unfoldable pub add : UniNetMsg → Selector → Selector × Bool
unfolding broadcast_msg_to_task multicast_msg_to_task send_msg_to_task
add msg s =
    if msg.msg_type == dialog_broadcast
    then broadcast_msg_to_task msg s
    else if msg.msg_type == dialog_multicast
    then multicast_msg_to_task msg s
    else send_msg_to_task msg s
