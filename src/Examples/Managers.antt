-- ===== src/Examples/Managers.antt =====
-- The manager with one task of two threads.
use tsm_proxy.Prelude.{
  ℕ, ◌+◌, ◌<◌, ◌≡◌, refl, ◌≢◌, true, false, none, some, [], ◌∷◌, ◌++◌, arith, get_elem?,
}
use tsm_proxy.Prelude.Int.{pos, negsuc}
use tsm_proxy.HashTable.{HashTable}
use tsm_proxy.HashTable
use tsm_proxy.Fifo.{Fifo}
use tsm_proxy.Fifo
use tsm_proxy.Timer.{TimerQueue}
use tsm_proxy.TaskSelector.{hand_over, new}
use tsm_proxy.TaskSelector.Dispatch.{send_msg_to_task}
use tsm_proxy.TaskSelector.Invariant.{new-Inv}
use tsm_proxy.FrameCtrl.{FrameCtrl, Msg, app_init}
use tsm_proxy.FrameCtrl
use tsm_proxy.FrameMng.{
  FrameMng, TaskEntry, ProcRsc, Command, register_task, init, init_procs, init_proc, instance_loop,
  start, handle_command, event_of, next_trans,
}
use tsm_proxy.FrameMng
use tsm_proxy.FrameMng.Loops.{each_task}
use tsm_proxy.FrameMng.Making.{Made, new-Made, register_task-Made}
use tsm_proxy.FrameMng.Instances.{planned, init-Made, send-Made}
use tsm_proxy.FrameMng.Starts.{IsListed, started, start-started, handle_command-unselected}
use tsm_proxy.Examples.{message}

abbrev timers : TimerQueue Msg
timers = record {
  timers = [];
  timer_key = 0;
  timer_stoped = HashTable.init 0;
  fifo = Fifo.new;
  deleted = [];
}

abbrev frame_ctrl : FrameCtrl
frame_ctrl = record {
  fifo = Fifo.new;
  post_fifo = Fifo.new;
  selector = new (pos 0);
  shutdown = true;
  loop_count = 0;
  uninetmsg_count_s = 0;
  uninetmsg_count_f = 0;
  deleted = [];
}

-- The object 9 is the one of task 5.
abbrev manager : FrameMng
manager = register_task 5 (some 9) (FrameMng.new frame_ctrl timers)

abbrev process : ProcRsc
process = record { task_id = 5; task_name = []; thread_num = pos 2 }

manager-Made : Made manager
manager-Made =
    register_task-Made 5 (some 9) (FrameMng.new frame_ctrl timers)
      (new-Made frame_ctrl timers (new-Inv (pos 0)))

no_task_0 : HashTable.get 0 manager.task_obj ≡ none
unfolding register_task FrameMng.new HashTable.init HashTable.clear HashTable.put HashTable.get
    tsm_proxy.HashTable.Chains.chain_get HashTable.put_new HashTable.push_entry
no_task_0 = refl

abbrev made : FrameMng
made = init 0 (λ obj n. true) 0 1 (process ∷ []) manager

small : manager.max_inst + 2 < 4294967296
unfolding register_task FrameMng.new
small = omega arith

made-Made : Made made
made-Made = (init-Made 0 (λ obj n. true) 0 1 (process ∷ []) manager no_task_0 small manager-Made).0

init-Made_example :
    Made made
    × (made.tasks
        ≡ manager.tasks ++ planned (λ obj n. true) (process ∷ []) manager.task_obj manager.max_inst)
init-Made_example =
    init-Made 0 (λ obj n. true) 0 1 (process ∷ []) manager no_task_0 small manager-Made

-- The second instance.
abbrev second : TaskEntry
second = record { inst_id = 2; task_id = 5; task_name = []; fifo = Fifo.new; running = false }

second_there : get_elem? made.tasks 1 ≡ some second
unfolding init init_procs init_proc instance_loop FrameMng.add_instance register_task FrameMng.new
    HashTable.init HashTable.clear HashTable.put HashTable.get tsm_proxy.HashTable.Chains.chain_get
    HashTable.put_new HashTable.push_entry
second_there = refl

send-Made_example :
    ((send_msg_to_task (message 0 5 2) made.framectrl.selector).1 ≡ true)
    × ((send_msg_to_task (message 0 5 2) made.framectrl.selector).0.log
        ≡ made.framectrl.selector.log ++ hand_over 2 (message 0 5 2) ∷ [])
send-Made_example =
    send-Made made 1 second (message 0 5 2) made-Made second_there (omega arith) refl refl

start-started_example :
    ((start made).kernal_running ≡ true)
    × ((start made).framectrl
        ≡ (FrameCtrl.add (event_of app_init (next_trans made) []) made.framectrl).0)
    × ((start made).tasks ≡ (each_task started (next_trans made) made.tasks).1)
    × ((start made).trans_id ≡ (each_task started (next_trans made) made.tasks).0)
    × IsListed (start made)
start-started_example = start-started made made-Made.listed

abbrev watch : Command
watch = record { kind = 1; task_id = pos 5; inst_id = negsuc 0; cmd = 97 ∷ [] }

-- A manager with one instance that is given directly.
abbrev single : FrameMng
single = record (FrameMng.new frame_ctrl timers) {
  tasks = second ∷ [];
  inst_list = record { items = 0 ∷ []; current = 0; m_count = 1 };
}

handle_command-unselected_example :
    ((handle_command watch single).tasks ≡ single.tasks)
    × ((handle_command watch single).trans_id ≡ single.trans_id)
handle_command-unselected_example =
    handle_command-unselected watch single refl refl refl (apart, tt)
  where
    apart : ◌≢◌ {A = ℕ} 2 4294967295
    apart h = omega (arith, h)
