-- ===== src/TaskSelector.antt =====
-- xframe/kernel/taskselector.C and xframe/include/kernel/taskselector.h: TTaskSelector.
-- mInstList and mTaskList hold pointers; the object is kept in the table, and a write through a
-- pointer is `update` at its key, since each object is reached from one entry only. A task object is
-- the number `tu`. `log` lists what happens to messages, in order.
pub mod Dispatch
pub mod Instances
pub mod Invariant
pub mod RoundRobin
pub mod Choice
pub mod Sending
pub mod Multicast
pub mod Broadcast
pub mod Steps
pub mod Registry
pub mod Shutdown
use tsm_proxy.Prelude.{
  ℕ, zero, suc, ◌+◌, ◌≡◌, Bool, true, false, ◌&&◌, ◌||◌, not, Option, none, some, List, [], ◌∷◌,
  ◌++◌, ◌==◌, leb, ltb, if◌then◌else◌, length, u32,
}
use tsm_proxy.Prelude.Int.{ℤ, pos, incr, decr}
use tsm_proxy.HashTable.{HashTable}
use tsm_proxy.HashTable
use tsm_proxy.Clist.{Clist, fetch}
use tsm_proxy.Clist

-- The parts of a TUniNetMsg that the selector reads, and the number of the object.
pub record UniNetMsg : Type 0 where
  pub ident : ℕ
  pub msg_type : ℕ
  pub log_addr : ℕ
  pub task_inst_id : ℕ

abbrev pub dialog_broadcast : ℕ
dialog_broadcast = 3

abbrev pub dialog_multicast : ℕ
dialog_multicast = 4

pub record Item : Type 0 where
  pub instid : ℕ
  pub taskid : ℕ
  pub tu : ℕ
  pub count : ℕ
  pub shutting_down : Bool

pub record TaskState : Type 0 where
  pub taskid : ℕ
  pub instpos : ℕ
  pub inst : Clist

-- `tu->add(msg)`, `tu->add(msg->clone())` and `delete msg`.
pub data Effect : Type 0 where
  hand_over queue_copy : ℕ → UniNetMsg → Effect
  release : UniNetMsg → Effect

pub record Selector : Type 0 where
  pub inst_list : HashTable Item
  pub task_list : HashTable TaskState
  pub active_task_counter : ℤ
  pub registered_task_amount : ℤ
  pub registered_inst_amount : ℤ
  pub send_msg_to_task_count : ℤ
  pub multicast_msg_count : ℤ
  pub broadcast_msg_count : ℤ
  pub log : List Effect

abbrev pub emit : Effect → Selector → Selector
emit e s = record s { log = s.log ++ e ∷ [] }

-- The constructor, which leaves the counters as it finds them: `garbage` is what the memory held.
unfoldable pub new : (garbage : ℤ) → Selector
new garbage = record {
  inst_list = HashTable.init 16;
  task_list = HashTable.init 16;
  active_task_counter = garbage;
  registered_task_amount = garbage;
  registered_inst_amount = garbage;
  send_msg_to_task_count = garbage;
  multicast_msg_count = garbage;
  broadcast_msg_count = garbage;
  log = [];
}

unfoldable pub init : Selector → Selector
init s = record s {
  task_list = HashTable.clear s.task_list;
  active_task_counter = pos 0;
  registered_task_amount = pos 0;
  registered_inst_amount = pos 0;
  send_msg_to_task_count = pos 0;
  multicast_msg_count = pos 0;
  broadcast_msg_count = pos 0;
}

unfoldable pub exists : ℕ → Selector → Bool
exists taskid s = HashTable.contains_key taskid s.task_list

-- The branch of registerTask for a task that is not there, and the one for a task that is.
unfoldable pub add_instance : ℕ → ℕ → Selector → Selector
add_instance taskid instid s =
    if not (HashTable.contains_key taskid s.task_list)
    then record s {
      task_list =
          (HashTable.put taskid
            (record { taskid = taskid; instpos = 0; inst = Clist.push_back instid Clist.new })
            s.task_list).0;
      registered_task_amount = incr s.registered_task_amount;
    }
    else record s {
      task_list =
          HashTable.update taskid (λ ts. record ts { inst = Clist.push_back instid ts.inst })
            s.task_list;
    }

-- Item's constructor leaves `count` as it finds it: `garbage` is what the memory held.
unfoldable pub register_task : (garbage taskid instid tu : ℕ) → Selector → Selector × Bool
unfolding add_instance
register_task garbage taskid instid tu s =
    if ltb 0 taskid && ltb 0 instid
    then (
      let s' = add_instance taskid instid s in
          record s' {
            inst_list =
                (HashTable.put instid
                  (record {
                    instid = instid;
                    taskid = taskid;
                    tu = tu;
                    count = garbage;
                    shutting_down = false;
                  })
                  s'.inst_list).0;
            registered_inst_amount = incr s'.registered_inst_amount;
          },
      true,
    )
    else (s, false)

unfoldable pub shutdown_inst : ℕ → Selector → Selector
shutdown_inst instid s = record s {
  inst_list = HashTable.update instid (λ it. record it { shutting_down = true }) s.inst_list;
}

-- What a loop over a list does after a call that moves the cursor: it goes on with the value that
-- the call read, and stops where the call failed.
unfoldable pub proceed :
    (ℕ → Clist → Selector → Clist × Selector) → Clist × Option ℕ → Selector → Clist × Selector
proceed again (l, none) s = (l, s)
proceed again (l, some j) s = again j l s

-- `while(instid) { body; if(!next(instid)) instid=0; }` over the instances of a task.
unfoldable pub instance_loop :
    (ℕ → Selector → Selector) → ℕ → ℕ → Clist → Selector → Clist × Selector
unfolding proceed
instance_loop body zero instid l s = (l, s)
instance_loop body (suc fuel) instid l s =
    if instid == 0
    then (l, s)
    else proceed (instance_loop body fuel) (fetch (Clist.next l)) (body instid s)

-- `if(front(instid))` and the loop; each round moves the cursor on, so that there are at most as
-- many rounds as instances.
unfoldable pub for_instances : (ℕ → Selector → Selector) → TaskState → Selector → Clist × Selector
unfolding instance_loop proceed
for_instances body ts s =
    proceed (instance_loop body (length ts.inst.items)) (fetch (Clist.front ts.inst)) s

-- The list of a task as a loop left it.
abbrev store_list : ℕ → Clist → Selector → Selector
store_list taskid l s = record s {
  task_list = HashTable.update taskid (λ ts. record ts { inst = l }) s.task_list;
}

unfoldable pub shutdown_task : ℕ → Selector → Selector
unfolding for_instances shutdown_inst
shutdown_task taskid s = elim (HashTable.get taskid s.task_list) [
  | none ↦ s
  | some ts ↦ let (l, s') = for_instances shutdown_inst ts s in store_list taskid l s'
]

unfoldable pub unregister_inst : ℕ → Selector → Selector
unregister_inst instid s = elim (HashTable.get instid s.inst_list) [
  | none ↦ s
  | some item ↦ record s {
    task_list =
        HashTable.update item.taskid (λ ts. record ts { inst = (Clist.remove instid ts.inst).0 })
          s.task_list;
    inst_list = (HashTable.remove instid s.inst_list).0;
    registered_inst_amount = decr s.registered_inst_amount;
  }
]

unfoldable pub forget_inst : ℕ → Selector → Selector
forget_inst instid s = record s {
  inst_list = (HashTable.remove instid s.inst_list).0;
  registered_inst_amount = decr s.registered_inst_amount;
}

unfoldable pub unregister_task : ℕ → Selector → Selector
unfolding for_instances forget_inst
unregister_task taskid s = elim (HashTable.get taskid s.task_list) [
  | none ↦ s
  | some ts ↦
      let (l, s') = for_instances forget_inst ts s in
      record s' {
        task_list = (HashTable.remove taskid s'.task_list).0;
        registered_task_amount = decr s'.registered_task_amount;
      }
]
