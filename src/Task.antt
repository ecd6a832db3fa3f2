-- ===== src/Task.antt =====
-- xframe/task/abstracttask.C and xframe/include/task/abstracttask.h: TAbstractTask, the thread of an
-- application. The virtual functions that an application overrides are the fields of a Hooks; the
-- state of the application is a type S, and what they send they append to `calls`. Not modelled: the
-- loading of the environment and the database, and the text of a status (a parameter).
pub mod Turns
use tsm_proxy.Prelude.{
  ℕ, zero, suc, ◌+◌, ◌≡◌, Bool, true, false, Option, none, some, List, [], ◌∷◌, ◌++◌, ◌==◌, leb,
  ltb, if◌then◌else◌, get_elem?, u32,
}
use tsm_proxy.Fifo.{Fifo, Taken, blocked, timed_out, aborted, taken}
use tsm_proxy.Fifo
use tsm_proxy.Timer.{TimeOutMsg, TimerQueue}
use tsm_proxy.Timer
use tsm_proxy.TaskSelector.{UniNetMsg}
use tsm_proxy.FrameCtrl.{
  FrameCtrl, Tuple, EventMsg, Msg, uni, time_out, event, other, sent_by, heartbeat, app_init,
  statues, reload, app_shutdown,
}
use tsm_proxy.FrameCtrl

-- TTimeMarkExt: an entry of mTME.
pub record TimeMark : Type 0 where
  pub timer_id : ℕ
  pub timer_delay : ℕ

-- `deleted` lists what the auto_ptr of process deletes.
pub record Task (S : Type 0) : Type 0 where
  pub app : S
  pub object_type : ℕ
  pub task_id : ℕ
  pub host_id : ℕ
  pub inst_id : ℕ
  pub msg_proc_count : ℕ
  pub timer_proc_count : ℕ
  pub inner_proc_count : ℕ
  pub timers : TimerQueue Msg
  pub tme : List TimeMark
  pub frame_ctrl : FrameCtrl
  pub deleted : List Msg

-- How a call of process comes out: it returns, it waits for ever, or an assertion fails in it.
pub data Turn (S : Type 0) : Type 0 where
  ends : Task S → Turn S
  never_ends : Turn S
  asserts : Turn S

abbrev pub tuple_of : {S : Type 0} → Task S → Tuple
tuple_of t = record { task_type = t.object_type; task_id = t.task_id; inst_id = t.inst_id }

module _ {S : Type 0} where
  -- The header of the message is filled in, and it goes to the fifo of the frame control.
  unfoldable pub send_msg : UniNetMsg → Task S → Task S
  send_msg m t = record t {
    frame_ctrl =
        (FrameCtrl.add (uni (tuple_of t) (t.task_id, t.host_id, t.inst_id) m) t.frame_ctrl).0;
  }

  unfoldable pub post : Msg → Task S → Task S × Bool
  unfolding sent_by
  post m t =
      let (f, done) = FrameCtrl.post_to (some (sent_by (tuple_of t) m)) t.frame_ctrl in
      (record t { frame_ctrl = f }, done)

  -- setTimer with a delay, at the time `now`.
  unfoldable pub set_timer_delay : (now mark delay para : ℕ) → Task S → Task S × ℕ
  set_timer_delay now mark delay para t =
      let (q, key) = Timer.add now mark delay para t.timers in (record t { timers = q }, key)

  -- setTimer with the delay of the configuration; mTME has 32 entries.
  unfoldable pub set_timer : (now mark para : ℕ) → Task S → Task S × ℕ
  unfolding set_timer_delay
  set_timer now mark para t =
      if ltb mark 32
      then elim (get_elem? t.tme mark) [
        | none ↦ (t, 0)
        | some e ↦ set_timer_delay now e.timer_id e.timer_delay para t
      ]
      else (t, 0)

  unfoldable pub del_timer : ℕ → Task S → Task S × Bool
  del_timer key t = (record t { timers = Timer.remove key t.timers }, true)

  -- The event that a handler answers with; `new TEventMsg` sets its fields to 0 first.
  unfoldable pub answer : (id transid status : ℕ) → List ℕ → Task S → Task S
  unfolding post
  answer id transid status info t =
      (post
        (event (record { task_type = 0; task_id = 0; inst_id = 0 })
          (record { event_id = id; trans_id = transid; status = status; event_info = info }))
        t).0

-- procMsg, onTimeOut, preTaskStart, preTaskShutdown, reloadTaskEnv with what onReload does before
-- it, and getStatues with the text that onStatues builds.
pub record Hooks (S : Type 0) : Type 0 where
  pub proc_msg : UniNetMsg → Task S → Task S
  pub on_time_out : (key para : ℕ) → Task S → Task S
  pub pre_task_start : Task S → Task S × Bool
  pub pre_task_shutdown : Task S → Task S × Bool
  pub reload_task_env : List ℕ → Task S → Task S × Bool
  pub get_statues : List ℕ → Task S → Task S × List ℕ

abbrev status_of : Bool → ℕ
status_of true = 1
status_of false = 0

abbrev delete_msg : {S : Type 0} → Msg → Task S → Task S
delete_msg m t = record t { deleted = t.deleted ++ m ∷ [] }

abbrev pub at_most : ℕ → ℕ → ℕ
at_most n step = if ltb n step then n else step

abbrev pub invalid_tuple : Tuple
invalid_tuple = record { task_type = 0; task_id = 0; inst_id = 0 }

module _ {S : Type 0} (hooks : Hooks S) where
  unfoldable pub on_start : ℕ → Task S → Task S
  unfolding answer
  on_start transid t =
      let (t', done) = hooks.pre_task_start t in answer app_init transid (status_of done) [] t'

  unfoldable pub on_shutdown : ℕ → Task S → Task S
  unfolding answer
  on_shutdown transid t =
      let (t', done) = hooks.pre_task_shutdown t in
      answer app_shutdown transid (status_of done) [] t'

  unfoldable pub on_reload : ℕ → List ℕ → Task S → Task S
  unfolding answer
  on_reload transid cmd t =
      let (t', done) = hooks.reload_task_env cmd t in answer reload transid (status_of done) [] t'

  unfoldable pub on_heart_beat : ℕ → Task S → Task S
  unfolding answer
  on_heart_beat transid t = answer heartbeat transid 1 [] t

  unfoldable pub on_statues : ℕ → List ℕ → Task S → Task S
  unfolding answer
  on_statues transid cmd t =
      let (t', info) = hooks.get_statues cmd t in answer statues transid 1 info t'

  unfoldable pub handle_event : EventMsg → Task S → Task S
  unfolding on_start on_shutdown on_reload on_heart_beat on_statues
  handle_event e t =
      if e.event_id == app_init
      then on_start e.trans_id t
      else if e.event_id == heartbeat
      then on_heart_beat e.trans_id t
      else if e.event_id == reload
      then on_reload e.trans_id e.event_info t
      else if e.event_id == app_shutdown
      then on_shutdown e.trans_id t
      else if e.event_id == statues
      then on_statues e.trans_id e.event_info t
      else t

  -- What process does with the message that it took. A TUniNetMsg belongs to procMsg, which deletes
  -- it; the auto_ptr of process deletes any other.
  unfoldable pub handle : Msg → Task S → Task S
  unfolding handle_event
  handle (uni s origin m) t =
      let t' = hooks.proc_msg m t in
      record t' {
        msg_proc_count = u32 (t'.msg_proc_count + 1);
        deleted = t'.deleted ++ uni s origin m ∷ [];
      }
  handle (time_out s m) t =
      let t' = hooks.on_time_out m.timer_key m.timer_para t in
      delete_msg (time_out s m) (record t' { timer_proc_count = u32 (t'.timer_proc_count + 1) })
  handle (event s e) t =
      let t' = handle_event e t in
      delete_msg (event s e) (record t' { inner_proc_count = u32 (t'.inner_proc_count + 1) })
  handle (other s) t = delete_msg (other s) t

  unfoldable pub handle_taken : Taken Msg → Task S → Turn S
  unfolding handle
  handle_taken (taken m) t = ends (handle m t)
  handle_taken timed_out t = ends t
  handle_taken blocked t = never_ends
  handle_taken aborted t = asserts

  -- process: the timers that are due at `now`, then one message, with a wait up to the next timer as
  -- the clock gives it at `later`.
  unfoldable pub process : (now later : ℕ) → List (List Msg) → Task S → Turn S
  unfolding handle_taken
  process now later waits t =
      let (q, step) = Timer.process (time_out invalid_tuple) now later t.timers in
      let (fifo, got) = Fifo.get_next (at_most 1000 step) waits q.fifo in
      handle_taken got (record t { timers = record q { fifo = fifo } })
