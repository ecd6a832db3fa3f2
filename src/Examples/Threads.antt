-- ===== src/Examples/Threads.antt =====
-- The fifo, the timers, the frame control and a task, at concrete values.
use tsm_proxy.Prelude.{
  ℕ, ◌+◌, ◌<◌, ◌≡◌, refl, inl, inr, Bool, true, false, some, [], ◌∷◌, ◌++◌, arith, ◌==◌,
  if◌then◌else◌, length,
}
use tsm_proxy.Prelude.Int.{pos}
use tsm_proxy.HashTable.{HashTable}
use tsm_proxy.HashTable
use tsm_proxy.HashTable.Removal.{init-IsValid}
use tsm_proxy.Fifo
use tsm_proxy.Fifo.{Fifo, Taken, get_next, aborted, add, clear}
use tsm_proxy.Fifo.Order
use tsm_proxy.Fifo.Order.{get_next-Kept, Kept, waited, get_next-add-clear}
use tsm_proxy.Timer.{Timer, TimerQueue, TimeOutMsg, process}
use tsm_proxy.Timer
use tsm_proxy.Timer.Order.{due, pending}
use tsm_proxy.Timer.Fires.{messages, live, process-due}
use tsm_proxy.Timer.Keys
use tsm_proxy.Timer.Keys.{Call, adds, stops, apply, apply-Inv, running-stop}
use tsm_proxy.TaskSelector.{exists, new, release}
use tsm_proxy.FrameCtrl.{
  FrameCtrl, Msg, uni, event, Tuple, time_out, main_loop, handle_uni, handle_event, kernal_tuple,
  new_event, app_shutdown,
}
use tsm_proxy.FrameCtrl.Owner.{given, main_loop-once, handle_uni-twice, handle_event-answer}
use tsm_proxy.Task.{Task, Hooks, ends, never_ends, handle, invalid_tuple}
use tsm_proxy.Task
use tsm_proxy.Task.Turns.{process-front, process-blocks, fired_queue}
use tsm_proxy.Examples.{selector, selector-Inv, message}

abbrev sender : Tuple
sender = record { task_type = 4; task_id = 7; inst_id = 1 }

-- A fifo of the numbers 1 and 2; 3 arrives while a call waits.
abbrev numbers : Fifo ℕ
numbers = record { queue = 1 ∷ 2 ∷ []; size = 2 }

get_next-Kept_example :
    Kept
      ((1 ∷ 2 ∷ []) ++ waited ((3 ∷ []) ∷ []) (1 ∷ 2 ∷ []))
      (get_next 1000 ((3 ∷ []) ∷ []) numbers)
get_next-Kept_example =
    get_next-Kept 1000 ((3 ∷ []) ∷ []) numbers (record { counted = refl; small = omega arith })
      (omega arith)

get_next-add-clear_example : (get_next 1000 [] (add 4 (clear numbers).0)).1 ≡ aborted
get_next-add-clear_example = get_next-add-clear 1000 [] 4 numbers

abbrev no_timers : TimerQueue Msg
no_timers = record {
  timers = [];
  timer_key = 0;
  timer_stoped = HashTable.init 0;
  fifo = record { queue = []; size = 0 };
  deleted = [];
}

no_timers-Inv : Timer.Keys.Inv no_timers
no_timers-Inv = record { sorted = tt; distinct = tt; used = tt; states = init-IsValid Bool 0 }

abbrev wrap : TimeOutMsg → Msg
wrap = time_out invalid_tuple

apply-Inv_example : Timer.Keys.Inv (apply wrap (adds 100 1 50 0) no_timers)
apply-Inv_example = apply-Inv wrap (adds 100 1 50 0) no_timers no_timers-Inv (omega arith)

-- A timer of key 1 that expires at 150.
abbrev one_timer : TimerQueue Msg
one_timer = apply wrap (adds 100 1 50 0) no_timers

one_timer-Inv : Timer.Keys.Inv one_timer
one_timer-Inv = apply-Inv wrap (adds 100 1 50 0) no_timers no_timers-Inv (omega arith)

process-due_example :
    ((process wrap 150 150 one_timer).0.fifo.queue
      ≡ one_timer.fifo.queue
        ++ messages wrap (live one_timer.timer_stoped (due 150 one_timer.timers)))
    × ((process wrap 150 150 one_timer).0.timers ≡ pending 150 one_timer.timers)
process-due_example =
    process-due wrap 150 150 one_timer one_timer-Inv.sorted one_timer-Inv.distinct
      one_timer-Inv.states

-- The frame control with a message for instance 2 of task 7.
abbrev frame : FrameCtrl
frame = record {
  fifo = record { queue = uni sender (7, 0, 1) (message 0 7 2) ∷ []; size = 1 };
  post_fifo = record { queue = []; size = 0 };
  selector = selector;
  shutdown = true;
  loop_count = 0;
  uninetmsg_count_s = 0;
  uninetmsg_count_f = 0;
  deleted = [];
}

main_loop-once_example :
    (g : FrameCtrl) × (main_loop [] frame ≡ some (g, true))
    × (given g.selector.log ≡ given selector.log + 1)
    × (g.fifo.queue ≡ [])
main_loop-once_example =
    main_loop-once [] sender (7, 0, 1) (message 0 7 2) [] frame
      (record { counted = refl; small = omega arith }) selector-Inv refl refl

handle_event-answer_example :
    ((handle_event sender (new_event app_shutdown 5) frame).0.post_fifo.queue
      ≡ [] ++ event kernal_tuple (new_event app_shutdown 5) ∷ [])
    × ((handle_event sender (new_event app_shutdown 5) frame).0.deleted ≡ [])
    × ((handle_event sender (new_event app_shutdown 5) frame).1 ≡ true)
    × ((handle_event sender (new_event app_shutdown 5) frame).0.selector ≡ selector)
    × ((handle_event sender (new_event app_shutdown 5) frame).0.shutdown
        ≡ (if app_shutdown == app_shutdown then true else true))
unfolding new_event
handle_event-answer_example =
    handle_event-answer sender (new_event app_shutdown 5) frame (inr (inr (inr (inl refl))))

-- A selector without tasks refuses a multicast.
abbrev empty_frame : FrameCtrl
empty_frame = record frame { selector = new (pos 0) }

no_task : exists 7 empty_frame.selector ≡ false
unfolding exists new HashTable.contains_key HashTable.init HashTable.clamp_length
    HashTable.Chains.chain_get
no_task = refl

handle_uni-twice_example :
    (handle_uni (message 4 7 0) empty_frame).0.selector.log
    ≡ empty_frame.selector.log ++ release (message 4 7 0) ∷ release (message 4 7 0) ∷ []
handle_uni-twice_example = handle_uni-twice (message 4 7 0) empty_frame refl no_task

abbrev hooks : Hooks ℕ
hooks = record {
  proc_msg = λ m t. record t { app = t.app + m.ident };
  on_time_out = λ key para t. record t { app = t.app + key };
  pre_task_start = λ t. (t, true);
  pre_task_shutdown = λ t. (t, false);
  reload_task_env = λ cmd t. (t, true);
  get_statues = λ cmd t. (t, cmd);
}

abbrev task : Task ℕ
task = record {
  app = 0;
  object_type = 4;
  task_id = 7;
  host_id = 0;
  inst_id = 1;
  msg_proc_count = 0;
  timer_proc_count = 0;
  inner_proc_count = 0;
  timers = one_timer;
  tme = [];
  frame_ctrl = frame;
  deleted = [];
}

task_fifo : Fifo.Order.IsValid task.timers.fifo
unfolding apply Timer.add
task_fifo = record { counted = refl; small = omega arith }

abbrev timer_1 : Timer
timer_1 = record { expires = 150; key = 1; mark = 1; delay = 50; para = 0 }

abbrev fired : Msg
fired = wrap (record { timer_mark = 1; timer_key = 1; timer_delay = 50; timer_para = 0 })

-- At 150 the timer is due, and its message is the only one.
fired_150 : fired_queue 150 task ≡ fired ∷ []
unfolding apply Timer.add Timer.next_key Timer.make_timer Timer.push Timer.time_out live messages
    HashTable.get HashTable.put HashTable.put_new HashTable.push_entry HashTable.rehash
    HashTable.init HashTable.clamp_length HashTable.Chains.chain_get HashTable.Chains.chain_set
fired_150 = refl

short : length task.timers.fifo.queue + length task.timers.timers < 18446744073709551616
unfolding apply Timer.add Timer.push
short = omega arith

process-front_example :
    Task.process hooks 150 150 [] task
    ≡ ends (
        handle hooks fired (record task {
          timers = record (process wrap 150 150 one_timer).0 {
            fifo = record { queue = []; size = 0 };
          };
        }))
process-front_example =
    process-front hooks 150 150 [] fired [] task one_timer-Inv task_fifo short fired_150

-- At 100 the wait is 50 ms.
wait_50 : (process wrap 100 100 task.timers).1 ≡ 50
unfolding process Timer.process_loop Timer.ms_till_next_timer apply Timer.add Timer.next_key
    Timer.make_timer Timer.push
wait_50 = refl

no_message : length (process wrap 100 100 task.timers).0.fifo.queue ≡ 0
unfolding process Timer.process_loop apply Timer.add Timer.next_key Timer.make_timer Timer.push
no_message = refl

-- The timer falls due between 149 and 150.
nothing_149 : fired_queue 149 task ≡ []
unfolding apply Timer.add Timer.next_key Timer.make_timer Timer.push live messages
nothing_149 = refl

pending_149 : pending 149 task.timers.timers ≡ timer_1 ∷ []
unfolding apply Timer.add Timer.next_key Timer.make_timer Timer.push
pending_149 = refl

process-blocks_example : Task.process hooks 149 150 [] task ≡ never_ends
process-blocks_example =
    process-blocks hooks 149 150 task one_timer-Inv nothing_149 timer_1 [] pending_149 (omega arith)
