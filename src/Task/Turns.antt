-- ===== src/Task/Turns.antt =====
-- One turn of a task's loop: which message it handles, and whether it comes to an end.
use tsm_proxy.Prelude.{
  ℕ, ◌+◌, ◌≤◌, ◌<◌, ◌≡◌, refl, ap, ◌∙◌, ◌≢◌, List, [], ◌∷◌, ◌++◌, arith, length,
}
use tsm_proxy.Fifo.{Fifo, Taken, blocked, timed_out, aborted, taken, get_next}
use tsm_proxy.Fifo
use tsm_proxy.Fifo.Order
use tsm_proxy.Fifo.Order.{get_next_lem, get_next-Kept, get_next_ends, get_next_empty, joined}
use tsm_proxy.Timer.{Timer, TimerQueue, next_key, ms_till_next_timer}
use tsm_proxy.Timer
use tsm_proxy.Timer.Order.{due, pending}
use tsm_proxy.Timer.Fires.{messages, live, process-due, process-fifo}
use tsm_proxy.Timer.Keys
use tsm_proxy.Timer.Keys.{next_key-positive}
use tsm_proxy.FrameCtrl.{Msg, time_out}
use tsm_proxy.Task.{
  Task, Hooks, ends, never_ends, process, handle, handle_taken, at_most, invalid_tuple,
}

limited : (step : ℕ) → step ≢ 0 → at_most 1000 step ≢ 0
limited step n = ground (arith, n)

no_wait :
    {M : Type 0} (later : ℕ) (q : TimerQueue M) (first : Timer) (rest : List Timer)
    → q.timers ≡ first ∷ rest
    → first.expires ≤ later
    → ms_till_next_timer later q ≡ 0
unfolding ms_till_next_timer
no_wait later q first rest e h = rw (e, ms_till_next_timer) (ground arith)

-- The queue of the task once the due timers have put their messages in.
abbrev pub fired_queue : {S : Type 0} → ℕ → Task S → List Msg
fired_queue now t =
    t.timers.fifo.queue
    ++ messages (time_out invalid_tuple) (live t.timers.timer_stoped (due now t.timers.timers))

module _ {S : Type 0} (hooks : Hooks S) where
  -- A turn first lets every due timer that was not deleted put its message behind the queue, then
  -- handles the message that is at the front, whatever the timers say about waiting.
  pub process-front :
      (now later : ℕ) (waits : List (List Msg)) (m : Msg) (queue : List Msg) (t : Task S)
      → Timer.Keys.Inv t.timers
      → Fifo.Order.IsValid t.timers.fifo
      → length t.timers.fifo.queue + length t.timers.timers < 18446744073709551616
      → fired_queue now t ≡ m ∷ queue
      → process hooks now later waits t
        ≡ ends (
            handle hooks m (record t {
              timers = record (Timer.process (time_out invalid_tuple) now later t.timers).0 {
                fifo = record { queue = queue; size = length queue };
              };
            }))
  unfolding process handle_taken
  process-front now later waits m queue t v w h e =
      let r = Timer.process (time_out invalid_tuple) now later t.timers in
      let fired =
        (process-due (time_out invalid_tuple) now later t.timers v.sorted v.distinct v.states).0 in
      ap
        (λ (p : Fifo Msg × Taken Msg).
          handle_taken hooks p.1 (record t { timers = record r.0 { fifo = p.0 } }))
        (get_next_lem (at_most 1000 r.1) waits m queue r.0.fifo
          (process-fifo (time_out invalid_tuple) now later t.timers w h) (fired ∙ e))

  returns :
      (out : Taken Msg) (t : Task S)
      → out ≢ blocked
      → out ≢ aborted
      → (u : Task S) × (handle_taken hooks out t ≡ ends u)
  unfolding handle_taken
  returns (taken m) t a b = (handle hooks m t, refl)
  returns timed_out t a b = (t, refl)
  returns blocked t a b = absurd (a refl)
  returns aborted t a b = absurd (b refl)

  -- A turn comes to an end, also when no message arrives, if the wait that the timers give is not 0.
  pub process-returns :
      (now later : ℕ) (waits : List (List Msg)) (t : Task S)
      → Fifo.Order.IsValid t.timers.fifo
      → length t.timers.fifo.queue + length t.timers.timers < 18446744073709551616
      → length (Timer.process (time_out invalid_tuple) now later t.timers).0.fifo.queue
          + length (joined waits)
        < 18446744073709551616
      → (Timer.process (time_out invalid_tuple) now later t.timers).1 ≢ 0
      → (u : Task S) × (process hooks now later waits t ≡ ends u)
  unfolding process
  process-returns now later waits t w h g n =
      let r = Timer.process (time_out invalid_tuple) now later t.timers in
      let kept =
        get_next-Kept (at_most 1000 r.1) waits r.0.fifo
          (process-fifo (time_out invalid_tuple) now later t.timers w h) g in
      returns (get_next (at_most 1000 r.1) waits r.0.fifo).1 _
        (get_next_ends (at_most 1000 r.1) waits r.0.fifo (limited r.1 n)) kept.no_abort

  -- A turn with an empty queue never ends if no message arrives and the wait that the timers give is 0,
  -- as it is where the first timer falls due between the two readings of the clock.
  pub process-blocks :
      (now later : ℕ) (t : Task S)
      → Timer.Keys.Inv t.timers
      → fired_queue now t ≡ []
      → (first : Timer) (rest : List Timer) → pending now t.timers.timers ≡ first ∷ rest
      → first.expires ≤ later
      → process hooks now later [] t ≡ never_ends
  unfolding process handle_taken Timer.process Timer.ms_till_next_timer
  process-blocks now later t v e first rest top late =
      let r = Timer.process (time_out invalid_tuple) now later t.timers in
      let (fired, left) =
        process-due (time_out invalid_tuple) now later t.timers v.sorted v.distinct v.states in
      let zero_step : r.1 ≡ 0 = no_wait later r.0 first rest (left ∙ top) late in
      ap
        (λ (o : Taken Msg).
          handle_taken hooks o (record t {
            timers = record r.0 { fifo = (get_next (at_most 1000 r.1) [] r.0.fifo).0 };
          }))
        (get_next_empty (at_most 1000 r.1) r.0.fifo (rw zero_step refl) (fired ∙ e))
