-- ===== src/Timer.antt =====
-- xframe/kernel/timer.C, xframe/kernel/timerqueue.C and xframe/include/kernel/timerqueue.h: the
-- timers of a task. The priority queue is the list of its timers by their time, the front first;
-- std::priority_queue leaves the order of equal times open, here the older one is first. `para` is
-- the address of a timer's parameter, 0 for NULL.
pub mod Order
pub mod Fires
pub mod Keys
use tsm_proxy.Prelude.{
  ℕ, zero, suc, ◌+◌, ◌-◌, ◌≡◌, Bool, true, false, Option, none, some, List, [], ◌∷◌, ◌++◌, ◌==◌,
  leb, ltb, if◌then◌else◌, length, u32, u64,
}
use tsm_proxy.HashTable.{HashTable}
use tsm_proxy.HashTable
use tsm_proxy.Fifo.{Fifo}
use tsm_proxy.Fifo

pub record Timer : Type 0 where
  pub expires : ℕ
  pub key : ℕ
  pub mark : ℕ
  pub delay : ℕ
  pub para : ℕ

-- TTimeOutMsg
pub record TimeOutMsg : Type 0 where
  pub timer_mark : ℕ
  pub timer_key : ℕ
  pub timer_delay : ℕ
  pub timer_para : ℕ

-- `M` is the type of the messages of the fifo; `deleted` lists the parameters that were deleted.
pub record TimerQueue (M : Type 0) : Type 0 where
  pub timers : List Timer
  pub timer_key : ℕ
  pub timer_stoped : HashTable Bool
  pub fifo : Fifo M
  pub deleted : List ℕ

unfoldable pub make_timer : (now mark key delay para : ℕ) → Timer
make_timer now mark key delay para = record {
  expires = u64 (delay + now);
  key = key;
  mark = mark;
  delay = delay;
  para = para;
}

-- `mTimers.push(timer)`
unfoldable pub push : Timer → List Timer → List Timer
push t [] = t ∷ []
push t (u ∷ ts) = let rest = push t ts in if ltb t.expires u.expires then t ∷ u ∷ ts else u ∷ rest

unfoldable pub next_key : ℕ → ℕ
next_key key = if u32 (key + 1) == 0 then 1 else u32 (key + 1)

unfoldable pub time_out : Timer → TimeOutMsg
time_out t = record {
  timer_mark = t.mark;
  timer_key = t.key;
  timer_delay = t.delay;
  timer_para = t.para;
}

module _ {M : Type 0} where
  -- The new queue, and the key that add returns.
  unfoldable pub add : (now mark delay para : ℕ) → TimerQueue M → TimerQueue M × ℕ
  unfolding next_key make_timer push
  add now mark delay para q =
      let key = next_key q.timer_key in
      (
        record q {
          timer_key = key;
          timers = push (make_timer now mark key delay para) q.timers;
          timer_stoped = (HashTable.put key true q.timer_stoped).0;
        },
        key,
      )

  -- What stop does with the state that `mTimerStoped.get` found, or where it found none.
  unfoldable pub mark_stopped : ℕ → Option Bool → TimerQueue M → TimerQueue M
  mark_stopped key none q = q
  mark_stopped key (some false) q = q
  mark_stopped key (some true) q = record q {
    timer_stoped = (HashTable.put key false q.timer_stoped).0;
  }

  unfoldable pub stop : ℕ → TimerQueue M → TimerQueue M
  unfolding mark_stopped
  stop key q = mark_stopped key (HashTable.get key q.timer_stoped) q

  unfoldable pub remove : ℕ → TimerQueue M → TimerQueue M
  remove key q = record q { timer_stoped = (HashTable.remove key q.timer_stoped).0 }

  -- What the entry of the key says: running, stopped, or removed.
  unfoldable pub fire : (TimeOutMsg → M) → Timer → Option Bool → TimerQueue M → TimerQueue M
  unfolding time_out
  fire wrap t none q = if t.para == 0 then q else record q { deleted = q.deleted ++ t.para ∷ [] }
  fire wrap t (some false) q = record q { timer_stoped = (HashTable.remove t.key q.timer_stoped).0 }
  fire wrap t (some true) q = record q {
    fifo = Fifo.add (wrap (time_out t)) q.fifo;
    timer_stoped = (HashTable.remove t.key q.timer_stoped).0;
  }

  unfoldable pub process_timer : (TimeOutMsg → M) → Timer → TimerQueue M → TimerQueue M
  unfolding fire
  process_timer wrap t q = fire wrap t (HashTable.get t.key q.timer_stoped) q

  -- `while (!mTimers.empty() && !(mTimers.top().getWhen() > now))`, over the timers from the top.
  unfoldable pub process_loop : (TimeOutMsg → M) → ℕ → List Timer → TimerQueue M → TimerQueue M
  unfolding process_timer
  process_loop wrap now [] q = record q { timers = [] }
  process_loop wrap now (t ∷ ts) q =
      let later = process_loop wrap now ts (process_timer wrap t q) in
      if ltb now t.expires then record q { timers = t ∷ ts } else later

  unfoldable pub ms_till_next_timer : ℕ → TimerQueue M → ℕ
  ms_till_next_timer now q = elim q.timers [
    | [] ↦ 1000
    | t ∷ ts ↦
        if ltb t.expires now
        then 0
        else if ltb 2147483647 (t.expires - now)
        then 1000
        else t.expires - now
  ]

  -- process(), where the clock is read once for the loop and once more behind it.
  unfoldable pub process : (TimeOutMsg → M) → (now later : ℕ) → TimerQueue M → TimerQueue M × ℕ
  unfolding process_loop ms_till_next_timer
  process wrap now later q =
      let q' = process_loop wrap now q.timers q in (q', ms_till_next_timer later q')
