-- ===== src/Timer/Keys.antt =====
-- The keys of the timers: what holds between calls, and what stop and remove do to a key.
use tsm_proxy.Prelude.{
  ℕ, ◌+◌, ◌≤◌, ◌<◌, ◌≡◌, refl, ap, ◌∙◌, sym, inl, inr, ◌≢◌, true, false, List, [], ◌∷◌, arith, ◌==◌,
  ltb, if◌then◌else◌, Bool-cases, Option-cases, eq_of_==,
}
use tsm_proxy.HashTable.{HashTable}
use tsm_proxy.HashTable
use tsm_proxy.HashTable.Laws
use tsm_proxy.HashTable.Laws.{get-put, put-IsValid}
use tsm_proxy.HashTable.Removal.{get-remove, remove-IsValid}
use tsm_proxy.Timer.{
  Timer, TimerQueue, TimeOutMsg, push, add, next_key, stop, mark_stopped, remove, fire,
  process_timer, process_loop, process, make_timer,
}
use tsm_proxy.Timer.Order.{Sorted, push-Sorted}
use tsm_proxy.Timer.Fires.{NoKey, Distinct, running}

-- Every key is at most k.
abbrev pub KeysTo : ℕ → List Timer → Type 0
KeysTo k [] = Unit {0}
KeysTo k (t ∷ ts) = (t.key ≤ k) × KeysTo k ts

pub record Inv {M : Type 0} (q : TimerQueue M) : Type 0 where
  pub sorted : Sorted q.timers
  pub distinct : Distinct q.timers
  pub used : KeysTo q.timer_key q.timers
  pub states : HashTable.Laws.IsValid q.timer_stoped

KeysTo-NoKey : (k n : ℕ) (ts : List Timer) → k < n → KeysTo k ts → NoKey n ts
KeysTo-NoKey k n [] h a = tt
KeysTo-NoKey k n (t ∷ ts) h a = ((λ e. omega (arith, a.0, e)), KeysTo-NoKey k n ts h a.1)

push-NoKey : (k : ℕ) (t : Timer) (ts : List Timer) → t.key ≢ k → NoKey k ts → NoKey k (push t ts)
unfolding push
push-NoKey k t [] n a = (n, tt)
push-NoKey k t (u ∷ ts) n a = elim (Bool-cases (ltb t.expires u.expires)) [
  | inl e ↦ rw e (n, a)
  | inr e ↦ rw e (a.0, push-NoKey k t ts n a.1)
]

push-Distinct : (t : Timer) (ts : List Timer) → NoKey t.key ts → Distinct ts → Distinct (push t ts)
unfolding push
push-Distinct t [] n d = (tt, tt)
push-Distinct t (u ∷ ts) n d = elim (Bool-cases (ltb t.expires u.expires)) [
  | inl e ↦ rw e (n, d)
  | inr e ↦ rw e (push-NoKey u.key t ts (λ p. n.0 (sym p)) d.0, push-Distinct t ts n.1 d.1)
]

push-KeysTo :
    (k n : ℕ) (t : Timer) (ts : List Timer) → k ≤ n → t.key ≤ n → KeysTo k ts → KeysTo n (push t ts)
unfolding push
push-KeysTo k n t [] h g a = (g, tt)
push-KeysTo k n t (u ∷ ts) h g a = elim (Bool-cases (ltb t.expires u.expires)) [
  | inl e ↦ rw e (g, (omega (arith, a.0), widen ts a.1))
  | inr e ↦ rw e (omega (arith, a.0), push-KeysTo k n t ts h g a.1)
]
  where
    widen : (us : List Timer) → KeysTo k us → KeysTo n us
    widen [] b = tt
    widen (v ∷ us) b = (omega (arith, b.0), widen us b.1)

-- A key is never 0, which setTimer keeps for a failure.
pub next_key-positive : (k : ℕ) → 0 < next_key k
unfolding next_key
next_key-positive k = ground arith

next_key_lem : (k : ℕ) → k + 1 < 4294967296 → next_key k ≡ k + 1
unfolding next_key
next_key_lem k h = ground arith

-- The calls of a timer queue.
pub data Call : Type 0 where
  adds : (now mark delay para : ℕ) → Call
  stops removes : ℕ → Call
  processes : (now later : ℕ) → Call

module _ {M : Type 0} where
  add-Inv :
      (now mark delay para : ℕ) (q : TimerQueue M)
      → Inv q
      → q.timer_key + 1 < 4294967296
      → Inv (add now mark delay para q).0
  unfolding add make_timer
  add-Inv now mark delay para q v h =
      let key : next_key q.timer_key ≡ q.timer_key + 1 = next_key_lem q.timer_key h in
      record {
        sorted = push-Sorted _ q.timers v.sorted;
        distinct =
            push-Distinct _ q.timers
              (KeysTo-NoKey q.timer_key (next_key q.timer_key) q.timers (omega (arith, key)) v.used)
              v.distinct;
        used =
            push-KeysTo q.timer_key (next_key q.timer_key) _ q.timers (omega (arith, key))
              (omega arith) v.used;
        states = put-IsValid _ true q.timer_stoped v.states;
      }

  stop-Inv : (key : ℕ) (q : TimerQueue M) → Inv q → Inv (stop key q)
  unfolding stop mark_stopped
  stop-Inv key q v = elim (Option-cases (HashTable.get key q.timer_stoped)) [
    | inl e ↦ rw e v
    | inr (false, e) ↦ rw e v
    | inr (true, e) ↦ rw e (record {
      sorted = v.sorted;
      distinct = v.distinct;
      used = v.used;
      states = put-IsValid key false q.timer_stoped v.states;
    })
  ]

  remove-Inv : (key : ℕ) (q : TimerQueue M) → Inv q → Inv (remove key q)
  unfolding remove
  remove-Inv key q v = record {
    sorted = v.sorted;
    distinct = v.distinct;
    used = v.used;
    states = remove-IsValid key q.timer_stoped v.states;
  }

  process_timer-states :
      (wrap : TimeOutMsg → M) (t : Timer) (q : TimerQueue M)
      → HashTable.Laws.IsValid q.timer_stoped
      → HashTable.Laws.IsValid (process_timer wrap t q).timer_stoped
        × ((process_timer wrap t q).timer_key ≡ q.timer_key)
  unfolding process_timer fire
  process_timer-states wrap t q w = elim (Option-cases (HashTable.get t.key q.timer_stoped)) [
    | inl e ↦ elim (Bool-cases (t.para == 0)) [
      | inl z ↦ rw (e, z) (w, refl)
      | inr z ↦ rw (e, z) (w, refl)
    ]
    | inr (true, e) ↦ rw e (remove-IsValid t.key q.timer_stoped w, refl)
    | inr (false, e) ↦ rw e (remove-IsValid t.key q.timer_stoped w, refl)
  ]

  process_loop-Inv :
      (wrap : TimeOutMsg → M) (now : ℕ) (ts : List Timer) (q : TimerQueue M)
      → Sorted ts
      → Distinct ts
      → KeysTo q.timer_key ts
      → HashTable.Laws.IsValid q.timer_stoped
      → Inv (process_loop wrap now ts q)
  unfolding process_loop
  process_loop-Inv wrap now [] q s d k w = record {
    sorted = tt;
    distinct = tt;
    used = tt;
    states = w;
  }
  process_loop-Inv wrap now (t ∷ ts) q s d k w = elim (Bool-cases (ltb now t.expires)) [
    | inl e ↦ rw e (record { sorted = s; distinct = d; used = k; states = w })
    | inr e ↦
        let (valid, same) = process_timer-states wrap t q w in
        rw e (process_loop-Inv wrap now ts (process_timer wrap t q) s.1 d.1 (rw same k.1) valid)
  ]

  process-Inv :
      (wrap : TimeOutMsg → M) (now later : ℕ) (q : TimerQueue M)
      → Inv q
      → Inv (process wrap now later q).0
  unfolding process
  process-Inv wrap now later q v =
      process_loop-Inv wrap now q.timers q v.sorted v.distinct v.used v.states

  unfoldable pub apply : (TimeOutMsg → M) → Call → TimerQueue M → TimerQueue M
  apply wrap (adds now mark delay para) q = (add now mark delay para q).0
  apply wrap (stops key) q = stop key q
  apply wrap (removes key) q = remove key q
  apply wrap (processes now later) q = (process wrap now later q).0

  -- Until the key counter wraps, every call keeps the timers sorted by time, their keys different and
  -- counted, and the table of states well formed.
  pub apply-Inv :
      (wrap : TimeOutMsg → M) (c : Call) (q : TimerQueue M)
      → Inv q
      → q.timer_key + 1 < 4294967296
      → Inv (apply wrap c q)
  unfolding apply
  apply-Inv wrap (adds now mark delay para) q v h = add-Inv now mark delay para q v h
  apply-Inv wrap (stops key) q v h = stop-Inv key q v
  apply-Inv wrap (removes key) q v h = remove-Inv key q v
  apply-Inv wrap (processes now later) q v h = process-Inv wrap now later q v

  -- A key that was stopped or removed does not run, and the other keys are as before.
  pub running-stop :
      (k j : ℕ) (q : TimerQueue M)
      → HashTable.Laws.IsValid q.timer_stoped
      → (running (HashTable.get j (stop k q).timer_stoped)
          ≡ (if k == j then false else running (HashTable.get j q.timer_stoped)))
        × (running (HashTable.get j (remove k q).timer_stoped)
            ≡ (if k == j then false else running (HashTable.get j q.timer_stoped)))
  unfolding stop remove mark_stopped
  running-stop k j q w =
      let removed : running (HashTable.get j (HashTable.remove k q.timer_stoped).0)
          ≡ (if k == j then false else running (HashTable.get j q.timer_stoped)) =
        ap running (get-remove j k q.timer_stoped w)
        ∙ elim (Bool-cases (k == j)) [ inl e ↦ rw e refl | inr e ↦ rw e refl ] in
      let idle : running (HashTable.get k q.timer_stoped) ≡ false
          → running (HashTable.get j q.timer_stoped)
            ≡ (if k == j then false else running (HashTable.get j q.timer_stoped)) =
        λ off. elim (Bool-cases (k == j)) [
          | inl e ↦
              rw e (ap (λ i. running (HashTable.get i q.timer_stoped)) (sym (eq_of_== k j e)) ∙ off)
          | inr e ↦ rw e refl
        ] in
      elim (Option-cases (HashTable.get k q.timer_stoped)) [
        | inl e ↦ rw (e, mark_stopped) (idle (ap running e), removed)
        | inr (false, e) ↦ rw (e, mark_stopped) (idle (ap running e), removed)
        | inr (true, e) ↦
            rw (e, mark_stopped)
              (
                ap running (get-put j k false q.timer_stoped w)
                    ∙ elim (Bool-cases (k == j)) [ inl f ↦ rw f refl | inr f ↦ rw f refl ],
                removed,
              )
      ]
