-- ===== src/FrameCtrl.antt =====
-- xframe/kernel/framectrl.C and xframe/include/kernel/framectrl.h: TFRAMEControl, the thread that
-- takes messages from its fifo and gives them to the selector or handles them itself.
pub mod Owner
use tsm_proxy.Prelude.{
  ℕ, zero, suc, ◌+◌, ◌≡◌, Bool, true, false, Option, none, some, List, [], ◌∷◌, ◌++◌, ◌==◌,
  if◌then◌else◌, u32,
}
use tsm_proxy.Fifo.{Fifo, Taken, blocked, timed_out, aborted, taken}
use tsm_proxy.Fifo
use tsm_proxy.Timer.{TimeOutMsg}
use tsm_proxy.TaskSelector.{UniNetMsg, Selector, Effect, release, emit}
use tsm_proxy.TaskSelector.Dispatch

-- STuple
pub record Tuple : Type 0 where
  pub task_type : ℕ
  pub task_id : ℕ
  pub inst_id : ℕ

-- TEventMsg; `event_info` is a string that is only passed on.
pub record EventMsg : Type 0 where
  pub event_id : ℕ
  pub trans_id : ℕ
  pub status : ℕ
  pub event_info : List ℕ

-- TMsg with its sender, and the classes that the casts of the source tell apart. `origin` is oAddr:
-- the logical, the physical and the instance address.
pub data Msg : Type 0 where
  uni : Tuple → (origin : ℕ × ℕ × ℕ) → UniNetMsg → Msg
  time_out : Tuple → TimeOutMsg → Msg
  event : Tuple → EventMsg → Msg
  other : Tuple → Msg

abbrev pub heartbeat : ℕ
heartbeat = 11

abbrev pub app_init : ℕ
app_init = 12

abbrev pub statues : ℕ
statues = 14

abbrev pub reload : ℕ
reload = 15

abbrev pub app_shutdown : ℕ
app_shutdown = 16

-- `deleted` lists the messages other than TUniNetMsgs that mainLoop deletes; those are in the log of
-- the selector.
pub record FrameCtrl : Type 0 where
  pub fifo : Fifo Msg
  pub post_fifo : Fifo Msg
  pub selector : Selector
  pub shutdown : Bool
  pub loop_count : ℕ
  pub uninetmsg_count_s : ℕ
  pub uninetmsg_count_f : ℕ
  pub deleted : List Msg

unfoldable pub new_event : (id transid : ℕ) → EventMsg
new_event id transid = record { event_id = id; trans_id = transid; status = 1; event_info = [] }

-- `sender` is overwritten.
unfoldable pub sent_by : Tuple → Msg → Msg
sent_by s (uni old origin m) = uni s origin m
sent_by s (time_out old m) = time_out s m
sent_by s (event old m) = event s m
sent_by s (other old) = other s

abbrev pub kernal_tuple : Tuple
kernal_tuple = record { task_type = 3; task_id = 1; inst_id = 0 }

unfoldable pub add : Msg → FrameCtrl → FrameCtrl × Bool
add m f = (record f { fifo = Fifo.add m f.fifo }, true)

-- `none` is a NULL pointer.
unfoldable pub post_to : Option Msg → FrameCtrl → FrameCtrl × Bool
post_to none f = (f, false)
post_to (some m) f = (record f { post_fifo = Fifo.add m f.post_fifo }, true)

unfoldable pub post : Option Msg → FrameCtrl → FrameCtrl × Bool
unfolding sent_by
post none f = (f, false)
post (some m) f = (record f { post_fifo = Fifo.add (sent_by kernal_tuple m) f.post_fifo }, true)

-- onInit. `new` returns an object, so that the line behind the test, `shutdown=FALSE`, is not run.
unfoldable pub on_init : ℕ → FrameCtrl → FrameCtrl × Bool
unfolding new_event post
on_init transid f =
    post
      (some
        (event (record { task_type = 0; task_id = 0; inst_id = 0 }) (new_event app_init transid)))
      f

unfoldable pub on_heart_beat : ℕ → FrameCtrl → FrameCtrl × Bool
unfolding new_event post
on_heart_beat transid f =
    post
      (some
        (event (record { task_type = 0; task_id = 0; inst_id = 0 }) (new_event heartbeat transid)))
      f

unfoldable pub on_reload : ℕ → FrameCtrl → FrameCtrl × Bool
unfolding new_event post
on_reload transid f =
    post
      (some (event (record { task_type = 0; task_id = 0; inst_id = 0 }) (new_event reload transid)))
      f

unfoldable pub on_shutdown : ℕ → FrameCtrl → FrameCtrl × Bool
unfolding new_event post
on_shutdown transid f =
    post
      (some (
        event (record { task_type = 0; task_id = 0; inst_id = 0 })
          (new_event app_shutdown transid)))
      (record f { shutdown = true })

unfoldable pub on_statues : ℕ → FrameCtrl → FrameCtrl × Bool
unfolding new_event post
on_statues transid f =
    post
      (some
        (event (record { task_type = 0; task_id = 0; inst_id = 0 }) (new_event statues transid)))
      f

-- The branch for a TUniNetMsg: what the selector did, then the counters and `delete pUniNetMsg`.
unfoldable pub count_uni : UniNetMsg → FrameCtrl → Selector × Bool → FrameCtrl
count_uni m f (s, true) = record f {
  selector = s;
  uninetmsg_count_s = u32 (f.uninetmsg_count_s + 1);
}
count_uni m f (s, false) = record f {
  selector = emit (release m) s;
  uninetmsg_count_f = u32 (f.uninetmsg_count_f + 1);
}

unfoldable pub handle_uni : UniNetMsg → FrameCtrl → FrameCtrl × Bool
unfolding count_uni
handle_uni m f = (count_uni m f (Dispatch.add m f.selector), true)

-- The `switch`: a known event is handled and returns, and only an unknown one is deleted.
unfoldable pub handle_event : Tuple → EventMsg → FrameCtrl → FrameCtrl × Bool
unfolding on_init on_heart_beat on_reload on_shutdown on_statues
handle_event t e f =
    if e.event_id == app_init
    then on_init e.trans_id f
    else if e.event_id == heartbeat
    then on_heart_beat e.trans_id f
    else if e.event_id == reload
    then on_reload e.trans_id f
    else if e.event_id == app_shutdown
    then on_shutdown e.trans_id f
    else if e.event_id == statues
    then on_statues e.trans_id f
    else (record f { deleted = f.deleted ++ event t e ∷ [] }, true)

-- What mainLoop does with what getNext returned. `none` stands for a failed assertion.
unfoldable pub dispatch : Taken Msg → FrameCtrl → Option (FrameCtrl × Bool)
unfolding handle_uni handle_event
dispatch (taken (uni t o m)) f = some (handle_uni m f)
dispatch (taken (event t e)) f = some (handle_event t e f)
dispatch (taken (time_out t m)) f =
    some (record f { deleted = f.deleted ++ time_out t m ∷ [] }, true)
dispatch (taken (other t)) f = some (record f { deleted = f.deleted ++ other t ∷ [] }, true)
dispatch timed_out f = some (f, true)
dispatch blocked f = none
dispatch aborted f = none

-- mainLoop, which waits at most a second; `waits` is what arrives during the waits of getNext.
unfoldable pub main_loop : List (List Msg) → FrameCtrl → Option (FrameCtrl × Bool)
unfolding dispatch
main_loop waits f =
    let (fifo, got) = Fifo.get_next 1000 waits f.fifo in
    dispatch got (record f { loop_count = u32 (f.loop_count + 1); fifo = fifo })
