-- ===== src/Examples/Selectors.antt =====
-- The theorems on the selector, on task 7 with three instances.
use tsm_proxy.Prelude.{ℕ, ◌≡◌, refl, ap, inl, inr, true, false, some, [], ◌∷◌, ◌++◌, arith}
use tsm_proxy.Prelude.Int.{pos}
use tsm_proxy.HashTable.{HashTable, clamp_length}
use tsm_proxy.HashTable.Chains.{chain_get, chain_set}
use tsm_proxy.HashTable
use tsm_proxy.HashTable.Placed.{entries}
use tsm_proxy.Clist
use tsm_proxy.Clist.{Clist}
use tsm_proxy.Clist.Valid
use tsm_proxy.TaskSelector.{
  Item, TaskState, hand_over, release, new, exists, register_task, add_instance, shutdown_task,
}
use tsm_proxy.TaskSelector.Dispatch.{
  send_msg_to_task, multicast_msg_to_task, broadcast_msg_to_task, usable, tu_of,
}
use tsm_proxy.TaskSelector.Invariant.{Inv, new-Inv}
use tsm_proxy.TaskSelector.RoundRobin.{ring, first_usable}
use tsm_proxy.TaskSelector.Sending.{send-ring, is_some, delivery, exists_some}
use tsm_proxy.TaskSelector.Choice.{Listed}
use tsm_proxy.TaskSelector.Registry.{send-reaches}
use tsm_proxy.TaskSelector.Shutdown.{shutdown-refuse}
use tsm_proxy.TaskSelector.Multicast.{copies, tu_at, multicast-log}
use tsm_proxy.TaskSelector.Broadcast.{copies_for, broadcast-log}
use tsm_proxy.TaskSelector.Steps.{run, apply, run-Inv}
use tsm_proxy.Examples.{calls, selector, selector-Inv, message}

abbrev task_7 : TaskState
task_7 = record {
  taskid = 7;
  instpos = 0;
  inst = record { items = 1 ∷ 2 ∷ 3 ∷ []; current = 2; m_count = 3 };
}

has_task : HashTable.get 7 selector.task_list ≡ some task_7
unfolding run apply new register_task add_instance HashTable.get HashTable.put HashTable.put_new
    HashTable.update HashTable.init HashTable.contains_key HashTable.push_entry HashTable.rehash
    clamp_length chain_get chain_set Clist.new Clist.push_back
has_task = refl

abbrev item_2 : Item
item_2 = record { instid = 2; taskid = 7; tu = 102; count = 0; shutting_down = false }

has_item : HashTable.get 2 selector.inst_list ≡ some item_2
unfolding run apply new register_task add_instance HashTable.get HashTable.put HashTable.put_new
    HashTable.update HashTable.init HashTable.contains_key HashTable.push_entry HashTable.rehash
    clamp_length chain_get chain_set Clist.new Clist.push_back
has_item = refl

usable_2 : usable (HashTable.get 2 selector.inst_list) ≡ true
usable_2 = ap usable has_item

exists_7 : exists 7 selector ≡ true
exists_7 = exists_some 7 selector task_7 has_task

run-Inv_example : Inv (run calls (new (pos 0)))
run-Inv_example = run-Inv calls (new (pos 0)) (new-Inv (pos 0))

send-ring_example :
    ((send_msg_to_task (message 0 7 0) selector).1
      ≡ is_some (first_usable selector.inst_list (ring 0 (1 ∷ 2 ∷ 3 ∷ []))))
    × ((send_msg_to_task (message 0 7 0) selector).0.log
        ≡ selector.log
          ++ delivery selector.inst_list
              (message 0 7 0)
              (first_usable selector.inst_list (ring 0 (1 ∷ 2 ∷ 3 ∷ []))))
send-ring_example =
    send-ring (message 0 7 0) selector task_7 selector-Inv (omega arith) refl has_task (omega arith)
      (omega arith)

send-reaches_example :
    ((send_msg_to_task (message 0 7 0) selector).1 ≡ true)
    × ((j : ℕ) × Listed j (1 ∷ 2 ∷ 3 ∷ [])
        × (usable (HashTable.get j selector.inst_list) ≡ true)
        × ((send_msg_to_task (message 0 7 0) selector).0.log
            ≡ selector.log
              ++ hand_over (tu_of (HashTable.get j selector.inst_list)) (message 0 7 0) ∷ []))
send-reaches_example =
    send-reaches (message 0 7 0) selector task_7 2 selector-Inv (omega arith) refl has_task
      (omega arith) (omega arith) (inr (inl refl)) usable_2

multicast-log_example :
    ((multicast_msg_to_task (message 4 7 0) selector).1 ≡ true)
    × ((multicast_msg_to_task (message 4 7 0) selector).0.log
        ≡ (selector.log ++ copies (message 4 7 0) (tu_at selector.inst_list) (2 ∷ 3 ∷ []))
          ++ release (message 4 7 0) ∷ [])
multicast-log_example = multicast-log (message 4 7 0) selector task_7 selector-Inv has_task

broadcast-log_example :
    ((broadcast_msg_to_task (message 3 0 0) selector).1 ≡ true)
    × ((broadcast_msg_to_task (message 3 0 0) selector).0.log
        ≡ (selector.log ++ copies_for (message 3 0 0) (entries selector.inst_list.table))
          ++ release (message 3 0 0) ∷ [])
broadcast-log_example = broadcast-log (message 3 0 0) selector selector-Inv.insts

task_7-IsValid : Clist.Valid.IsValid task_7.inst
task_7-IsValid = record { counted = refl; within = omega arith }

shutdown-refuse_example :
    ((send_msg_to_task (message 0 7 0) (shutdown_task 7 selector)).1 ≡ false)
    × ((send_msg_to_task (message 0 7 0) (shutdown_task 7 selector)).0.log ≡ selector.log)
shutdown-refuse_example =
    shutdown-refuse (message 0 7 0) selector task_7 selector-Inv (omega arith) refl has_task
      (omega arith) (omega arith)
