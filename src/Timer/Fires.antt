-- ===== src/Timer/Fires.antt =====
-- process: which timers time out, which keys are forgotten and which timers stay.
use tsm_proxy.Prelude.{
  ℕ, ◌+◌, ◌≤◌, ◌<◌, ◌≡◌, refl, ap, ◌∙◌, sym, inl, inr, ◌≢◌, Bool, true, false, Option, none, some,
  List, [], ◌∷◌, ◌++◌, arith, ◌==◌, ltb, if◌then◌else◌, length, length-append, Bool-cases,
  Option-cases, ==_ne, ==_refl,
}
use mathlib.Core.List.{append-nil, append_assoc}
use tsm_proxy.HashTable.{HashTable}
use tsm_proxy.HashTable
use tsm_proxy.HashTable.Laws
use tsm_proxy.HashTable.Laws.{get-put, put-IsValid}
use tsm_proxy.HashTable.Removal.{get-remove, remove-IsValid}
use tsm_proxy.Fifo.{Fifo}
use tsm_proxy.Fifo
use tsm_proxy.Fifo.Order
use tsm_proxy.Fifo.Order.{add-IsValid}
use tsm_proxy.Timer.{
  Timer, TimerQueue, TimeOutMsg, time_out, fire, process_timer, process_loop, process,
}
use tsm_proxy.Timer.Order.{Sorted, due, pending, due_none, pending_all}

-- The loop handles the due timers in order and keeps the others.
abbrev pub handle_all : {M : Type 0} → (TimeOutMsg → M) → List Timer → TimerQueue M → TimerQueue M
handle_all wrap [] q = q
handle_all wrap (t ∷ ts) q = handle_all wrap ts (process_timer wrap t q)

abbrev pub running : Option Bool → Bool
running (some true) = true
running (some false) = false
running none = false

-- The timers whose key is in the table and not stopped.
unfoldable pub live : HashTable Bool → List Timer → List Timer
live states [] = []
live states (t ∷ ts) =
    let rest = live states ts in if running (HashTable.get t.key states) then t ∷ rest else rest

-- The key of no timer, and timers with different keys.
abbrev pub NoKey : ℕ → List Timer → Type 0
NoKey k [] = Unit {0}
NoKey k (t ∷ ts) = (t.key ≢ k) × NoKey k ts

abbrev pub Distinct : List Timer → Type 0
Distinct [] = Unit {0}
Distinct (t ∷ ts) = NoKey t.key ts × Distinct ts

-- Two tables with the same state for every key but one have the same live timers without that key.
live_same :
    (k : ℕ) (states new : HashTable Bool) (ts : List Timer)
    → ((j : ℕ) → j ≢ k → HashTable.get j new ≡ HashTable.get j states)
    → NoKey k ts
    → live new ts ≡ live states ts
unfolding live
live_same k states new [] h n = refl
live_same k states new (t ∷ ts) h n = rw (h t.key n.0, live_same k states new ts h n.1)

-- A due timer leaves its key out of the table.
abbrev Forgets : ℕ → HashTable Bool → HashTable Bool → Type 0
Forgets k states new =
    (HashTable.get k new ≡ none)
    × ((j : ℕ) → j ≢ k → HashTable.get j new ≡ HashTable.get j states)
    × HashTable.Laws.IsValid new

removed-Forgets :
    (k : ℕ) (states : HashTable Bool)
    → HashTable.Laws.IsValid states
    → Forgets k states (HashTable.remove k states).0
removed-Forgets k states w = (
  get-remove k k states w ∙ rw ==_refl,
  (λ j n. get-remove j k states w ∙ rw (==_ne k j (λ e. n (sym e)))),
  remove-IsValid k states w,
)

module _ {M : Type 0} (wrap : TimeOutMsg → M) where
  with_timers : List Timer → TimerQueue M → TimerQueue M
  with_timers ts q = record q { timers = ts }

  process_loop-due :
      (now : ℕ) (ts : List Timer) (q : TimerQueue M)
      → Sorted ts
      → process_loop wrap now ts q ≡ with_timers (pending now ts) (handle_all wrap (due now ts) q)
  unfolding process_loop with_timers
  process_loop-due now [] q w = refl
  process_loop-due now (t ∷ ts) q w = elim (Bool-cases (ltb now t.expires)) [
    | inl e ↦ rw (
      e,
      due_none now t.expires ts (ground arith) w.0,
      pending_all now t.expires ts (ground arith) w.0,
    )
    | inr e ↦ rw e (process_loop-due now ts (process_timer wrap t q) w.1)
  ]

  unfoldable pub messages : List Timer → List M
  messages [] = []
  messages (t ∷ ts) = wrap (time_out t) ∷ messages ts

  process_timer-Forgets :
      (t : Timer) (q : TimerQueue M)
      → HashTable.Laws.IsValid q.timer_stoped
      → Forgets t.key q.timer_stoped (process_timer wrap t q).timer_stoped
  unfolding process_timer fire
  process_timer-Forgets t q w = elim (Option-cases (HashTable.get t.key q.timer_stoped)) [
    | inl e ↦ elim (Bool-cases (t.para == 0)) [
      | inl z ↦ rw (e, z) (e, (λ j n. refl), w)
      | inr z ↦ rw (e, z) (e, (λ j n. refl), w)
    ]
    | inr (true, e) ↦ rw e (removed-Forgets t.key q.timer_stoped w)
    | inr (false, e) ↦ rw e (removed-Forgets t.key q.timer_stoped w)
  ]

  process_timer_queue :
      (t : Timer) (q : TimerQueue M)
      → (process_timer wrap t q).fifo.queue
        ≡ q.fifo.queue
          ++ messages (if running (HashTable.get t.key q.timer_stoped) then t ∷ [] else [])
  unfolding process_timer fire messages Fifo.add
  process_timer_queue t q = elim (Option-cases (HashTable.get t.key q.timer_stoped)) [
    | inl e ↦ elim (Bool-cases (t.para == 0)) [
      | inl z ↦ rw (e, z) (sym (append-nil q.fifo.queue))
      | inr z ↦ rw (e, z) (sym (append-nil q.fifo.queue))
    ]
    | inr (true, e) ↦ rw e refl
    | inr (false, e) ↦ rw e (sym (append-nil q.fifo.queue))
  ]

  messages-cons :
      (b : Bool) (t : Timer) (ts : List Timer)
      → messages (if b then t ∷ [] else []) ++ messages ts ≡ messages (if b then t ∷ ts else ts)
  unfolding messages
  messages-cons true t ts = refl
  messages-cons false t ts = refl

  handle_all_queue :
      (ts : List Timer) (q : TimerQueue M)
      → HashTable.Laws.IsValid q.timer_stoped
      → Distinct ts
      → (handle_all wrap ts q).fifo.queue ≡ q.fifo.queue ++ messages (live q.timer_stoped ts)
  unfolding live messages
  handle_all_queue [] q w d = sym (append-nil q.fifo.queue)
  handle_all_queue (t ∷ ts) q w d =
      let (gone, same, valid) = process_timer-Forgets t q w in
      let here = if running (HashTable.get t.key q.timer_stoped) then t ∷ [] else [] in
      handle_all_queue ts (process_timer wrap t q) valid d.1
      ∙ ap (λ xs. xs ++ messages (live (process_timer wrap t q).timer_stoped ts))
          (process_timer_queue t q)
      ∙ append_assoc q.fifo.queue (messages here) _
      ∙ ap (λ xs. q.fifo.queue ++ (messages here ++ messages xs))
          (live_same t.key q.timer_stoped _ ts same d.0)
      ∙ ap (λ xs. q.fifo.queue ++ xs)
          (messages-cons (running (HashTable.get t.key q.timer_stoped)) t (live q.timer_stoped ts))

  NoKey-due : (k now : ℕ) (ts : List Timer) → NoKey k ts → NoKey k (due now ts)
  NoKey-due k now [] n = tt
  NoKey-due k now (t ∷ ts) n = elim (Bool-cases (ltb now t.expires)) [
    | inl e ↦ rw e (NoKey-due k now ts n.1)
    | inr e ↦ rw e (n.0, NoKey-due k now ts n.1)
  ]

  Distinct-due : (now : ℕ) (ts : List Timer) → Distinct ts → Distinct (due now ts)
  Distinct-due now [] d = tt
  Distinct-due now (t ∷ ts) d = elim (Bool-cases (ltb now t.expires)) [
    | inl e ↦ rw e (Distinct-due now ts d.1)
    | inr e ↦ rw e (NoKey-due t.key now ts d.0, Distinct-due now ts d.1)
  ]

  -- process puts one message into the fifo for each timer that is due and neither stopped nor
  -- removed, in the order of their times, and keeps exactly the timers that are not due.
  pub process-due :
      (now later : ℕ) (q : TimerQueue M)
      → Sorted q.timers
      → Distinct q.timers
      → HashTable.Laws.IsValid q.timer_stoped
      → ((process wrap now later q).0.fifo.queue
          ≡ q.fifo.queue ++ messages (live q.timer_stoped (due now q.timers)))
        × ((process wrap now later q).0.timers ≡ pending now q.timers)
  unfolding process with_timers
  process-due now later q s d w =
      rw (process_loop-due now q.timers q s)
        (handle_all_queue (due now q.timers) q w (Distinct-due now q.timers d), refl)

  process_timer-fifo :
      (t : Timer) (q : TimerQueue M)
      → Fifo.Order.IsValid q.fifo
      → length q.fifo.queue + 1 < 18446744073709551616
      → Fifo.Order.IsValid (process_timer wrap t q).fifo
        × (length (process_timer wrap t q).fifo.queue ≤ length q.fifo.queue + 1)
  unfolding process_timer fire Fifo.add
  process_timer-fifo t q w h = elim (Option-cases (HashTable.get t.key q.timer_stoped)) [
    | inl e ↦ elim (Bool-cases (t.para == 0)) [
      | inl z ↦ rw (e, z) (w, omega arith)
      | inr z ↦ rw (e, z) (w, omega arith)
    ]
    | inr (true, e) ↦ rw e (
      (unfold Fifo.add in add-IsValid (wrap (time_out t)) q.fifo w h),
      omega (arith, length-append q.fifo.queue (wrap (time_out t) ∷ [])),
    )
    | inr (false, e) ↦ rw e (w, omega arith)
  ]

  process_loop-fifo :
      (now : ℕ) (ts : List Timer) (q : TimerQueue M)
      → Fifo.Order.IsValid q.fifo
      → length q.fifo.queue + length ts < 18446744073709551616
      → Fifo.Order.IsValid (process_loop wrap now ts q).fifo
  unfolding process_loop
  process_loop-fifo now [] q w h = w
  process_loop-fifo now (t ∷ ts) q w h = elim (Bool-cases (ltb now t.expires)) [
    | inl e ↦ rw e w
    | inr e ↦
        let (valid, grown) = process_timer-fifo t q w (omega arith) in
        rw e (process_loop-fifo now ts (process_timer wrap t q) valid (omega (arith, grown)))
  ]

  pub process-fifo :
      (now later : ℕ) (q : TimerQueue M)
      → Fifo.Order.IsValid q.fifo
      → length q.fifo.queue + length q.timers < 18446744073709551616
      → Fifo.Order.IsValid (process wrap now later q).0.fifo
  unfolding process
  process-fifo now later q w h = process_loop-fifo now q.timers q w h
