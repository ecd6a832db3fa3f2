-- ===== src/TaskSelector/Sending.antt =====
-- sendMsgToTask and multicastMsgToTask: who gets a message, and who owns it afterwards.
use tsm_proxy.Prelude.{
  ℕ, ◌<◌, ◌≡◌, refl, ap, ◌∙◌, sym, Bool, true, false, Option, none, some, List, [], ◌∷◌, ◌++◌,
  arith, ltb, length,
}
use mathlib.Core.List.{append-nil}
use tsm_proxy.HashTable.{HashTable, is_found}
use tsm_proxy.HashTable
use tsm_proxy.HashTable.Removal.{contains_key-get}
use tsm_proxy.TaskSelector.{UniNetMsg, Item, TaskState, Selector, Effect, hand_over, exists}
use tsm_proxy.TaskSelector.Dispatch.{get_task, tu_of, send_msg_to_task}
use tsm_proxy.TaskSelector.Invariant.{Inv}
use tsm_proxy.TaskSelector.RoundRobin.{first_usable, ring, round_robin-ring, bound}

abbrev pub is_some : Option ℕ → Bool
is_some none = false
is_some (some i) = true

-- What is logged where a search for an instance ends.
abbrev pub delivery : HashTable Item → UniNetMsg → Option ℕ → List Effect
delivery items msg none = []
delivery items msg (some i) = hand_over (tu_of (HashTable.get i items)) msg ∷ []

get_task_insts :
    (taskid instid : ℕ) (s : Selector) → (get_task taskid instid s).0.inst_list ≡ s.inst_list
unfolding get_task
get_task_insts taskid instid s = ground arith

get_task_log : (taskid instid : ℕ) (s : Selector) → (get_task taskid instid s).0.log ≡ s.log
unfolding get_task
get_task_log taskid instid s = ground arith

-- A message to a registered task is handed over once, to the instance that getTask found, or else
-- the call fails and nothing is logged.
pub send_log :
    (msg : UniNetMsg) (s : Selector) (found : Option ℕ)
    → exists msg.log_addr s ≡ true
    → (get_task msg.log_addr msg.task_inst_id s).1 ≡ found
    → ((send_msg_to_task msg s).1 ≡ is_some found)
      × ((send_msg_to_task msg s).0.log ≡ s.log ++ delivery s.inst_list msg found)
unfolding send_msg_to_task
send_log msg s none h e =
    rw (h, e, send_msg_to_task)
      (refl, get_task_log msg.log_addr msg.task_inst_id s ∙ sym (append-nil s.log))
send_log msg s (some i) h e =
    rw (h, e, send_msg_to_task)
      (
        refl,
        ap
              (λ xs.
                xs
                ++ hand_over
                    (tu_of (HashTable.get i (get_task msg.log_addr msg.task_inst_id s).0.inst_list))
                    msg
                  ∷ [])
              (get_task_log msg.log_addr msg.task_inst_id s)
            ∙ ap (λ t. s.log ++ hand_over (tu_of (HashTable.get i t)) msg ∷ [])
                (get_task_insts msg.log_addr msg.task_inst_id s),
      )

get_task-ring :
    (taskid : ℕ) (s : Selector) (ts : TaskState)
    → Inv s
    → 0 < taskid
    → HashTable.get taskid s.task_list ≡ some ts
    → length ts.inst.items < bound
    → ts.instpos < bound
    → (get_task taskid 0 s).1 ≡ first_usable s.inst_list (ring ts.instpos ts.inst.items)
unfolding get_task
get_task-ring taskid s ts v pos e small h =
    let given : ltb 0 taskid ≡ true = ground arith in
    rw (given, e, get_task) (round_robin-ring s.inst_list ts (v.lists taskid ts e).0 small h).0

pub exists_some :
    (taskid : ℕ) (s : Selector) (ts : TaskState)
    → HashTable.get taskid s.task_list ≡ some ts
    → exists taskid s ≡ true
unfolding exists
exists_some taskid s ts e = contains_key-get taskid s.task_list ∙ ap is_found e

-- A message for a task, without an instance id, goes to the first instance on the ring behind the
-- last choice that is registered and not shutting down, and the call succeeds if there is one.
pub send-ring :
    (msg : UniNetMsg) (s : Selector) (ts : TaskState)
    → Inv s
    → 0 < msg.log_addr
    → msg.task_inst_id ≡ 0
    → HashTable.get msg.log_addr s.task_list ≡ some ts
    → length ts.inst.items < bound
    → ts.instpos < bound
    → ((send_msg_to_task msg s).1
        ≡ is_some (first_usable s.inst_list (ring ts.instpos ts.inst.items)))
      × ((send_msg_to_task msg s).0.log
          ≡ s.log
            ++ delivery s.inst_list msg (first_usable s.inst_list (ring ts.instpos ts.inst.items)))
send-ring msg s ts v pos whole e small h = send_log msg s _ (exists_some msg.log_addr s ts e) (
    ap (λ i. (get_task msg.log_addr i s).1) whole ∙ get_task-ring msg.log_addr s ts v pos e small h)

-- A message with the id of a registered instance goes to that instance, also while it shuts down
-- and whatever task it belongs to, as long as the task of the message is registered.
pub send-instance :
    (msg : UniNetMsg) (s : Selector) (item : Item)
    → 0 < msg.log_addr
    → 0 < msg.task_inst_id
    → exists msg.log_addr s ≡ true
    → HashTable.get msg.task_inst_id s.inst_list ≡ some item
    → ((send_msg_to_task msg s).1 ≡ true)
      × ((send_msg_to_task msg s).0.log ≡ s.log ++ hand_over item.tu msg ∷ [])
unfolding get_task
send-instance msg s item p q h e =
    let task_set : ltb 0 msg.log_addr ≡ true = ground arith in
    let inst_set : ltb 0 msg.task_inst_id ≡ true = ground arith in
    let there : HashTable.contains_key msg.task_inst_id s.inst_list ≡ true =
      contains_key-get msg.task_inst_id s.inst_list ∙ ap is_found e in
    let (done, logged) =
      send_log msg s (some msg.task_inst_id) h (rw (task_set, inst_set, there, get_task)) in
    (done, logged ∙ ap (λ o. s.log ++ hand_over (tu_of o) msg ∷ []) e)
