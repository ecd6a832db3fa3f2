-- ===== src/FrameMng.antt =====
-- xframe/framemng.C and xframe/include/framemng.h: TFRAMEManager, which makes the instances of the
-- tasks, starts them, and passes on the commands that come in over its socket. The log and the socket
-- calls are left out; `replies` lists what is sent.
pub mod Loops
pub mod Registered
pub mod Making
pub mod Instances
pub mod Starts
use tsm_proxy.Prelude.{
  ℕ, zero, suc, ◌+◌, ◌-◌, Bool, true, false, ◌&&◌, ◌||◌, Option, none, some, List, [], ◌∷◌, ◌++◌,
  ◌==◌, ltb, if◌then◌else◌, length, get_elem?, u32,
}
use tsm_proxy.Prelude.Int.{ℤ, pos, negsuc}
use tsm_proxy.HashTable.{HashTable}
use tsm_proxy.HashTable
use tsm_proxy.Clist.{Clist, fetch}
use tsm_proxy.Clist
use tsm_proxy.Fifo.{Fifo, Taken, blocked, timed_out, aborted, taken}
use tsm_proxy.Fifo
use tsm_proxy.Timer.{TimerQueue}
use tsm_proxy.Timer
use tsm_proxy.TaskSelector
use tsm_proxy.FrameCtrl.{
  Tuple, EventMsg, Msg, event, time_out, FrameCtrl, app_init, reload, statues,
}
use tsm_proxy.FrameCtrl
use tsm_proxy.Task.{at_most, invalid_tuple}

-- TProcRsc, what the manager reads of it.
pub record ProcRsc : Type 0 where
  pub task_id : ℕ
  pub task_name : List ℕ
  pub thread_num : ℤ

-- TTask. The task object and its thread are its queue and whether the thread runs.
pub record TaskEntry : Type 0 where
  pub inst_id : ℕ
  pub task_id : ℕ
  pub task_name : List ℕ
  pub fifo : Fifo Msg
  pub running : Bool

pub record Command : Type 0 where
  pub kind : ℕ
  pub task_id : ℤ
  pub inst_id : ℤ
  pub cmd : List ℕ

-- What the watching tool is sent: whether a task reloaded, with its ids, or the text of its state.
pub data Reply : Type 0 where
  reloaded : Bool → ℕ → ℕ → Reply
  status_text : List ℕ → Reply

-- `tasks` holds the TTasks in the order in which they are made; a TTask* in a list is the place there.
-- The queue of the manager is the one that its timers write to. In the source the kernal posts to that
-- queue too: `framectrl.post_fifo` and the fifo of `timers` are one object there and two here, and what
-- the kernal posts is not joined to what `turn` reads.
pub record FrameMng : Type 0 where
  pub max_inst : ℕ
  pub trans_id : ℕ
  pub app_id : ℕ
  pub task_obj : HashTable ℕ
  pub tasks : List TaskEntry
  pub inst_list : Clist
  pub task_list : HashTable Clist
  pub framectrl : FrameCtrl
  pub kernal_running : Bool
  pub timers : TimerQueue Msg
  pub replies : List Reply

-- The constructor, with the frame control and the timer queue that it makes. The lists are empty.
unfoldable pub new : FrameCtrl → TimerQueue Msg → FrameMng
new f q = record {
  max_inst = 0;
  trans_id = 0;
  app_id = 0;
  task_obj = HashTable.clear (HashTable.init 16);
  tasks = [];
  inst_list = Clist.new;
  task_list = HashTable.clear (HashTable.init 16);
  framectrl = f;
  kernal_running = false;
  timers = q;
  replies = [];
}

-- NULL is none.
unfoldable pub register_task : (taskid : ℕ) → Option ℕ → FrameMng → FrameMng
register_task taskid none m = m
register_task taskid (some obj) m =
    if ltb 0 taskid then record m { task_obj = (HashTable.put taskid obj m.task_obj).0 } else m

abbrev pub new_entry : ProcRsc → ℕ → TaskEntry
new_entry proc inst = record {
  inst_id = inst;
  task_id = proc.task_id;
  task_name = proc.task_name;
  fifo = Fifo.new;
  running = false;
}

-- A clone that is not NULL, with the list of its task. The number of the task object is its instance
-- id; `garbage` is what the selector's entry is left with.
unfoldable pub add_instance : (garbage : ℕ) → ProcRsc → FrameMng × Clist → FrameMng × Clist
add_instance garbage proc (m, tlist) =
    let inst = u32 (m.max_inst + 1) in
    let place = length m.tasks in
    (
      record m {
        max_inst = inst;
        tasks = m.tasks ++ new_entry proc inst ∷ [];
        inst_list = Clist.push_back place m.inst_list;
        framectrl = record m.framectrl {
          selector =
              (TaskSelector.register_task garbage proc.task_id inst inst m.framectrl.selector).0;
        };
      },
      Clist.push_back place tlist,
    )

abbrev pub threads : ℤ → ℕ
threads (pos n) = n
threads (negsuc n) = 0

-- Whether the clone of an object succeeds is told by the number of instances made before.
module _ (garbage : ℕ) (clones : ℕ → ℕ → Bool) where
  unfoldable pub instance_loop : ℕ → ProcRsc → ℕ → FrameMng × Clist → FrameMng × Clist
  unfolding add_instance
  instance_loop zero proc obj s = s
  instance_loop (suc n) proc obj s =
      instance_loop n proc obj (if clones obj s.0.max_inst then add_instance garbage proc s else s)

  abbrev pub keep_list : ℕ → FrameMng × Clist → FrameMng
  keep_list taskid (m, tlist) = record m { task_list = (HashTable.put taskid tlist m.task_list).0 }

  unfoldable pub init_proc : ProcRsc → FrameMng → FrameMng
  unfolding instance_loop
  init_proc proc m = elim (HashTable.get proc.task_id m.task_obj) [
    | none ↦ m
    | some obj ↦
        keep_list proc.task_id (instance_loop (threads proc.thread_num) proc obj (m, Clist.new))
  ]

  unfoldable pub init_procs : List ProcRsc → FrameMng → FrameMng
  unfolding init_proc
  init_procs [] m = m
  init_procs (p ∷ ps) m = init_procs ps (init_proc p m)

  -- Init, with the host id and the processes that the environment gives.
  unfoldable pub init : (app_id host_id : ℕ) → List ProcRsc → FrameMng → FrameMng
  unfolding init_procs
  init app_id host_id procs m =
      init_procs procs (record m { app_id = if ltb 0 app_id then app_id else host_id })

-- A loop over mInstList from its cursor on, with the task there. It ends behind the last one.
unfoldable pub task_loop : ℕ → (ℕ → FrameMng → FrameMng) → Option ℕ → FrameMng → FrameMng
task_loop zero body o m = m
task_loop (suc fuel) body none m = m
task_loop (suc fuel) body (some i) m =
    let m1 = body i m in
    let (l, o) = fetch (Clist.next m1.inst_list) in
    task_loop fuel body o (record m1 { inst_list = l })

unfoldable pub for_tasks : (ℕ → FrameMng → FrameMng) → FrameMng → FrameMng
unfolding task_loop
for_tasks body m =
    let l = Clist.reset m.inst_list in
    task_loop (length l.items) body (Clist.value l) (record m { inst_list = l })

-- A write through a TTask*.
unfoldable pub change : ℕ → (TaskEntry → TaskEntry) → List TaskEntry → List TaskEntry
change i f [] = []
change zero f (t ∷ ts) = f t ∷ ts
change (suc i) f (t ∷ ts) = t ∷ change i f ts

-- The events of the manager; its tuple is 0.
abbrev pub event_of : (id transid : ℕ) → List ℕ → Msg
event_of id transid info =
    event invalid_tuple
      (record { event_id = id; trans_id = transid; status = 0; event_info = info })

abbrev pub next_trans : FrameMng → ℕ
next_trans m = u32 (m.trans_id + 1)

unfoldable pub start_kernal : FrameMng → FrameMng
start_kernal m = record m {
  trans_id = next_trans m;
  framectrl = (FrameCtrl.add (event_of app_init (next_trans m) []) m.framectrl).0;
  kernal_running = true;
}

unfoldable pub start_task : ℕ → FrameMng → FrameMng
unfolding change
start_task i m = record m {
  trans_id = next_trans m;
  tasks =
      change i
        (λ t. record t {
          fifo = Fifo.add (event_of app_init (next_trans m) []) t.fifo;
          running = true;
        })
        m.tasks;
}

-- Run up to its main loop.
unfoldable pub start : FrameMng → FrameMng
unfolding start_kernal start_task for_tasks
start m = for_tasks start_task (start_kernal m)

-- An int compared with a UINT.
abbrev pub unsigned : ℤ → ℕ
unsigned (pos n) = n
unsigned (negsuc n) = 4294967295 - n

abbrev pub is_minus_one : ℤ → Bool
is_minus_one (negsuc zero) = true
is_minus_one _ = false

unfoldable pub selects : Command → TaskEntry → Bool
selects c t =
    is_minus_one c.task_id
    || ((t.task_id == unsigned c.task_id && t.inst_id == 4294967295)
        || (t.task_id == unsigned c.task_id && t.inst_id == unsigned c.inst_id))

unfoldable pub command_event : Command → ℕ → Msg
command_event c transid = event_of (if c.kind == 0 then reload else statues) transid c.cmd

unfoldable pub send_to : Command → ℕ → Option TaskEntry → FrameMng → FrameMng
unfolding change selects command_event
send_to c i none m = m
send_to c i (some t) m =
    if selects c t
    then record m {
      trans_id = next_trans m;
      tasks =
          change i (λ e. record e { fifo = Fifo.add (command_event c (next_trans m)) e.fifo })
            m.tasks;
    }
    else m

unfoldable pub send_command : Command → ℕ → FrameMng → FrameMng
unfolding send_to
send_command c i m = send_to c i (get_elem? m.tasks i) m

unfoldable pub handle_command : Command → FrameMng → FrameMng
unfolding send_command for_tasks
handle_command c m = for_tasks (send_command c) m

abbrev pub reply : Reply → FrameMng → FrameMng
reply r m = record m { replies = m.replies ++ r ∷ [] }

-- The answers of the tasks.
unfoldable pub on_event : Tuple → EventMsg → FrameMng → FrameMng
on_event sender e m =
    if e.event_id == reload
    then reply (reloaded (e.status == 1) sender.task_id sender.inst_id) m
    else if e.event_id == statues
    then reply (status_text e.event_info) m
    else m

unfoldable pub take : Msg → FrameMng → FrameMng
unfolding on_event
take (event sender e) m = on_event sender e m
take _ m = m

abbrev pub receive : Option Command → FrameMng → FrameMng
receive none m = m
receive (some c) m = handle_command c m

-- What follows getNext; none where it does not return.
unfoldable pub after_wait : Taken Msg → Option Command → FrameMng → Option FrameMng
unfolding take handle_command
after_wait blocked c m = none
after_wait aborted c m = none
after_wait timed_out c m = some (receive c m)
after_wait (taken msg) c m = some (receive c (take msg m))

-- A round of the main loop, with what arrives during the waits of getNext and the command that the
-- socket holds.
unfoldable pub turn :
    (now later : ℕ) → List (List Msg) → Option Command → FrameMng → Option FrameMng
unfolding after_wait
turn now later waits c m =
    let (q, step) = Timer.process (time_out invalid_tuple) now later m.timers in
    let (fifo, got) = Fifo.get_next (at_most 1000 step) waits q.fifo in
    after_wait got c (record m { timers = record q { fifo = fifo } })
