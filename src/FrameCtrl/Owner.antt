-- ===== src/FrameCtrl/Owner.antt =====
-- Who owns a message after mainLoop, and what an event does.
use mathlib.Core.List.{append_assoc}
use tsm_proxy.Prelude.{
  ℕ, ◌+◌, ◌≡◌, refl, ap, ◌∙◌, sym, inl, inr, Bool, true, false, not, ◌&&◌, length, Option, none,
  some, List, [], ◌∷◌, ◌++◌, arith, ◌==◌, if◌then◌else◌, u32, Bool-cases, Option-cases,
}
use tsm_proxy.Fifo.{Fifo, Taken, taken}
use tsm_proxy.Fifo
use tsm_proxy.Fifo.Order
use tsm_proxy.Fifo.Order.{get_next_lem}
use tsm_proxy.HashTable.{HashTable, is_found}
use tsm_proxy.HashTable.Removal.{contains_key-get}
use tsm_proxy.HashTable
use tsm_proxy.HashTable.Placed.{entries}
use tsm_proxy.TaskSelector.{
  UniNetMsg, Item, TaskState, Selector, Effect, hand_over, queue_copy, release, exists,
  dialog_broadcast, dialog_multicast,
}
use tsm_proxy.TaskSelector.Dispatch
use tsm_proxy.TaskSelector.Invariant.{Inv}
use tsm_proxy.TaskSelector.Sending.{send_log, is_some, delivery}
use tsm_proxy.TaskSelector.Multicast.{copies, tu_at, multicast-log, multicast_unregistered}
use tsm_proxy.TaskSelector.Broadcast.{copies_for, broadcast-log}
use tsm_proxy.TaskSelector.Choice.{Listed}
use tsm_proxy.FrameCtrl.{
  FrameCtrl, Msg, uni, event, Tuple, handle_uni, count_uni, dispatch, main_loop, handle_event,
  app_init, heartbeat, reload, app_shutdown, statues, on_init, on_heart_beat, on_reload,
  on_shutdown, on_statues, post, sent_by, new_event, EventMsg, kernal_tuple,
}

-- How often the log gives the message itself away or deletes it.
abbrev pub gives : Effect → ℕ
gives (hand_over tu m) = 1
gives (queue_copy tu m) = 0
gives (release m) = 1

abbrev pub given : List Effect → ℕ
given [] = 0
given (e ∷ es) = gives e + given es

given-append : (xs ys : List Effect) → given (xs ++ ys) ≡ given xs + given ys
given-append [] ys = omega arith
given-append (x ∷ xs) ys = omega (arith, given-append xs ys)

given-copies : (msg : UniNetMsg) (tu : ℕ → Option ℕ) (ids : List ℕ) → given (copies msg tu ids) ≡ 0
unfolding copies
given-copies msg tu [] = refl
given-copies msg tu (i ∷ ids) = elim (Option-cases (tu i)) [
  | inl e ↦ rw e (given-copies msg tu ids)
  | inr (t, e) ↦ rw e (omega (arith, given-copies msg tu ids))
]

given-copies_for : (msg : UniNetMsg) (c : List (ℕ × Item)) → given (copies_for msg c) ≡ 0
given-copies_for msg [] = refl
given-copies_for msg ((k, item) ∷ c) = omega (arith, given-copies_for msg c)

given-delivery :
    (items : HashTable Item) (msg : UniNetMsg) (o : Option ℕ)
    → given (delivery items msg o) ≡ (if is_some o then 1 else 0)
given-delivery items msg none = refl
given-delivery items msg (some i) = refl

-- A failed call of the selector has mainLoop delete the message.
abbrev failed : Bool → ℕ
failed true = 0
failed false = 1

given-count_uni :
    (m : UniNetMsg) (f : FrameCtrl) (p : Selector × Bool)
    → given (count_uni m f p).selector.log ≡ given p.0.log + failed p.1
unfolding count_uni
given-count_uni m f (s, true) = omega arith
given-count_uni m f (s, false) = given-append s.log (release m ∷ [])

count_uni_refused :
    (m : UniNetMsg) (f : FrameCtrl) (p : Selector × Bool)
    → p.1 ≡ false
    → (count_uni m f p).selector.log ≡ p.0.log ++ release m ∷ []
unfolding count_uni
count_uni_refused m f (s, true) h = cc
count_uni_refused m f (s, false) h = refl

count_uni_fifo :
    (m : UniNetMsg) (f : FrameCtrl) (p : Selector × Bool)
    → (count_uni m f p).fifo.queue ≡ f.fifo.queue
unfolding count_uni
count_uni_fifo m f (s, true) = refl
count_uni_fifo m f (s, false) = refl

exists_get :
    (taskid : ℕ) (s : Selector)
    → exists taskid s ≡ true
    → (ts : TaskState) × (HashTable.get taskid s.task_list ≡ some ts)
unfolding exists
exists_get taskid s h = elim (Option-cases (HashTable.get taskid s.task_list)) [
  | inl e ↦ absurd (no (sym h ∙ contains_key-get taskid s.task_list ∙ ap is_found e))
  | inr found ↦ found
]
  where
    no : ◌≡◌ {A = Bool} true false → ⊥
    no p = cc

module _ (m : UniNetMsg) (s : Selector) where
  abbrev Given : Selector × Bool → ℕ → Type 0
  Given p n = given p.0.log + failed p.1 ≡ given s.log + n

  -- A log with entries that give nothing, and then the release.
  released :
      (p : Selector × Bool) (es : List Effect)
      → p.1 ≡ true
      → p.0.log ≡ (s.log ++ es) ++ release m ∷ []
      → given es ≡ 0
      → Given p 1
  released p es ok log zero_given = rw ok (
      omega (
        arith,
        ap given log,
        given-append (s.log ++ es) (release m ∷ []),
        given-append s.log es,
        zero_given,
      ))

  send-Given : Given (Dispatch.send_msg_to_task m s) 1
  unfolding Dispatch.send_msg_to_task
  send-Given = elim (Bool-cases (exists m.log_addr s)) [
    | inl e ↦
        let found = (Dispatch.get_task m.log_addr m.task_inst_id s).1 in
        let (ok, log) = send_log m s found e refl in
        let total = ap given log ∙ given-append s.log (delivery s.inst_list m found) in
        let one : given (delivery s.inst_list m found) + failed (is_some found) ≡ 1 =
          delivered found in
        omega (arith, total, ap failed ok, one)
    | inr e ↦ rw (e, Dispatch.send_msg_to_task) refl
  ]
    where
      delivered : (o : Option ℕ) → given (delivery s.inst_list m o) + failed (is_some o) ≡ 1
      delivered none = refl
      delivered (some i) = refl

  multicast-Given :
      Inv s → exists m.log_addr s ≡ true → Given (Dispatch.multicast_msg_to_task m s) 1
  multicast-Given v e =
      let (ts, here) = exists_get m.log_addr s e in
      let (ok, log) = multicast-log m s ts v here in
      released (Dispatch.multicast_msg_to_task m s) _ ok log (given-copies m (tu_at s.inst_list) _)

  broadcast-Given : Inv s → Given (Dispatch.broadcast_msg_to_task m s) 1
  broadcast-Given v =
      let (ok, log) = broadcast-log m s v.insts in
      released (Dispatch.broadcast_msg_to_task m s) _ ok log
        (given-copies_for m (entries s.inst_list.table))

-- mainLoop gives each TUniNetMsg away exactly once, to one task object or to `delete`, unless it is
-- a multicast to a task that is not registered.
pub handle_uni-once :
    (m : UniNetMsg) (f : FrameCtrl)
    → Inv f.selector
    → ((m.msg_type == dialog_multicast) && not (exists m.log_addr f.selector)) ≡ false
    → given (handle_uni m f).0.selector.log ≡ given f.selector.log + 1
unfolding handle_uni Dispatch.add
handle_uni-once m f v h =
    given-count_uni m f (Dispatch.add m f.selector)
    ∙ elim (Bool-cases (m.msg_type == dialog_broadcast)) [
      | inl e ↦ rw e (broadcast-Given m f.selector v)
      | inr e ↦ rw e (elim (Bool-cases (m.msg_type == dialog_multicast)) [
        | inl g ↦
            rw g
              (multicast-Given m f.selector v (is_there (exists m.log_addr f.selector) (rw g at h)))
        | inr g ↦ rw g (send-Given m f.selector)
      ])
    ]
  where
    is_there : (b : Bool) → (true && not b) ≡ false → b ≡ true
    is_there true p = refl
    is_there false p = cc

-- A multicast to a task that is not registered is deleted twice, by the selector and by mainLoop, and
-- given to no task object.
pub handle_uni-twice :
    (m : UniNetMsg) (f : FrameCtrl)
    → m.msg_type ≡ dialog_multicast
    → exists m.log_addr f.selector ≡ false
    → (handle_uni m f).0.selector.log ≡ f.selector.log ++ release m ∷ release m ∷ []
unfolding handle_uni Dispatch.add
handle_uni-twice m f g h =
    let other : (m.msg_type == dialog_broadcast) ≡ false = ground (arith, g) in
    let this : (m.msg_type == dialog_multicast) ≡ true = ground (arith, g) in
    let (refused, log) = multicast_unregistered m f.selector h in
    rw (other, this)
      (count_uni_refused m f (Dispatch.multicast_msg_to_task m f.selector) refused
        ∙ ap (λ l. l ++ release m ∷ []) log
        ∙ append_assoc f.selector.log (release m ∷ []) (release m ∷ []))

-- An event of the kernel is answered to the frame manager by an event of the same id and
-- transaction, sent by the kernel, and the event itself is not deleted.
pub handle_event-answer :
    (t : Tuple) (e : EventMsg) (f : FrameCtrl)
    → Listed e.event_id (app_init ∷ heartbeat ∷ reload ∷ app_shutdown ∷ statues ∷ [])
    → ((handle_event t e f).0.post_fifo.queue
        ≡ f.post_fifo.queue ++ event kernal_tuple (new_event e.event_id e.trans_id) ∷ [])
      × ((handle_event t e f).0.deleted ≡ f.deleted)
      × ((handle_event t e f).1 ≡ true)
      × ((handle_event t e f).0.selector ≡ f.selector)
      × ((handle_event t e f).0.shutdown
          ≡ (if e.event_id == app_shutdown then true else f.shutdown))
unfolding handle_event on_init on_heart_beat on_reload on_shutdown on_statues post sent_by Fifo.add
handle_event-answer t e f (inl h) = rw h (refl, refl, refl, refl, refl)
handle_event-answer t e f (inr (inl h)) = rw h (refl, refl, refl, refl, refl)
handle_event-answer t e f (inr (inr (inl h))) = rw h (refl, refl, refl, refl, refl)
handle_event-answer t e f (inr (inr (inr (inl h)))) = rw h (refl, refl, refl, refl, refl)
handle_event-answer t e f (inr (inr (inr (inr (inl h))))) = rw h (refl, refl, refl, refl, refl)
handle_event-answer t e f (inr (inr (inr (inr (inr h))))) = absurd h

-- One turn of the loop with a message in the fifo handles the message at its front, and takes it out.
pub main_loop-front :
    (waits : List (List Msg)) (m : Msg) (queue : List Msg) (f : FrameCtrl)
    → Fifo.Order.IsValid f.fifo
    → f.fifo.queue ≡ m ∷ queue
    → main_loop waits f
      ≡ dispatch (taken m) (record f {
        loop_count = u32 (f.loop_count + 1);
        fifo = record { queue = queue; size = length queue };
      })
unfolding main_loop
main_loop-front waits m queue f w e =
    ap
      (λ (r : Fifo Msg × Taken Msg).
        dispatch r.1 (record f { loop_count = u32 (f.loop_count + 1); fifo = r.0 }))
      (get_next_lem 1000 waits m queue f.fifo w e)

-- A turn of the loop with a TUniNetMsg at the front of the fifo comes to an end, takes the message out
-- and gives it away exactly once, unless it is a multicast to a task that is not registered.
pub main_loop-once :
    (waits : List (List Msg)) (t : Tuple) (origin : ℕ × ℕ × ℕ) (m : UniNetMsg) (queue : List Msg)
    (f : FrameCtrl)
    → Fifo.Order.IsValid f.fifo
    → Inv f.selector
    → f.fifo.queue ≡ uni t origin m ∷ queue
    → ((m.msg_type == dialog_multicast) && not (exists m.log_addr f.selector)) ≡ false
    → (g : FrameCtrl) × (main_loop waits f ≡ some (g, true))
      × (given g.selector.log ≡ given f.selector.log + 1)
      × (g.fifo.queue ≡ queue)
unfolding handle_uni dispatch
main_loop-once waits t origin m queue f w v e h =
    let taken_out : FrameCtrl = record f {
      loop_count = u32 (f.loop_count + 1);
      fifo = record { queue = queue; size = length queue };
    } in
    (
      (handle_uni m taken_out).0,
      main_loop-front waits (uni t origin m) queue f w e,
      handle_uni-once m taken_out v h,
      count_uni_fifo m taken_out (Dispatch.add m f.selector),
    )
