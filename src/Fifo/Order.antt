-- ===== src/Fifo/Order.antt =====
-- Fifo<Msg> as a queue: messages come out in the order in which they went in.
use tsm_proxy.Prelude.{
  ℕ, suc, ◌+◌, ◌-◌, ◌<◌, ◌≡◌, refl, ap, ◌∙◌, sym, subst, inl, inr, true, false, List, [], ◌∷◌, ◌++◌,
  arith, ◌==◌, length, length-append, Bool-cases, ==_ne,
}
use mathlib.Core.List.{append-nil, append_assoc}
use tsm_proxy.Fifo.{
  Fifo, Taken, blocked, timed_out, aborted, taken, add, add_all, pop_front, wait, get_next, clear,
}

module _ {ℓ} {M : Type ℓ} where
  -- mSize is the length of the queue.
  pub record IsValid (f : Fifo M) : Type 0 where
    pub counted : f.size ≡ length f.queue
    pub small : f.size < 18446744073709551616

  pub add_all_queue : (ms : List M) (f : Fifo M) → (add_all ms f).queue ≡ f.queue ++ ms
  unfolding add_all add
  add_all_queue [] f = sym (append-nil f.queue)
  add_all_queue (m ∷ ms) f = add_all_queue ms (add m f) ∙ append_assoc f.queue (m ∷ []) ms

  pub add-IsValid :
      (m : M) (f : Fifo M)
      → IsValid f
      → length f.queue + 1 < 18446744073709551616
      → IsValid (add m f)
  unfolding add
  add-IsValid m f w h = record {
    counted = omega (arith, length-append f.queue (m ∷ []), w.counted);
    small = omega arith;
  }

  add_all-IsValid :
      (ms : List M) (f : Fifo M)
      → IsValid f
      → length f.queue + length ms < 18446744073709551616
      → IsValid (add_all ms f)
  unfolding add_all add
  add_all-IsValid [] f w h = w
  add_all-IsValid (m ∷ ms) f w h =
      add_all-IsValid ms (add m f) (unfold add in add-IsValid m f w (omega arith))
        (omega (arith, length-append f.queue (m ∷ [])))

  -- What a getNext took, as a list.
  abbrev pub took : Taken M → List M
  took (taken m) = m ∷ []
  took blocked = []
  took timed_out = []
  took aborted = []

  -- What other threads added during the waits that the call made.
  unfoldable pub waited : List (List M) → List M → List M
  waited waits (m ∷ queue) = []
  waited [] [] = []
  waited (added ∷ waits) [] = added ++ waited waits added

  abbrev pub joined : List (List M) → List M
  joined [] = []
  joined (ms ∷ waits) = ms ++ joined waits

  -- The parts of what a call of getNext keeps.
  pub record Kept (arrived : List M) (r : Fifo M × Taken M) : Type ℓ where
    pub in_order : took r.1 ++ r.0.queue ≡ arrived
    pub valid : IsValid r.0
    pub no_abort : r.1 ≡ aborted → ⊥

  pop_front-Kept :
      (m : M) (queue : List M) (size : ℕ)
      → size ≡ suc (length queue)
      → size < 18446744073709551616
      → Kept (m ∷ queue) (pop_front m queue size)
  unfolding pop_front
  pop_front-Kept m queue size e h =
      let held : (size == 0) ≡ false = ground arith in
      rw held (record {
        in_order = refl;
        valid = record { counted = omega arith; small = omega arith };
        no_abort = λ p. cc;
      })

  wait-Kept :
      (out : Taken M) (waits : List (List M)) (queue : List M) (size : ℕ)
      → took out ≡ []
      → (out ≡ aborted → ⊥)
      → size ≡ length queue
      → length queue + length (joined waits) < 18446744073709551616
      → Kept (queue ++ waited waits queue) (wait out waits queue size)
  unfolding wait waited
  wait-Kept out waits (m ∷ queue) size o n e h =
      rw (append-nil queue) (pop_front-Kept m queue size e (omega arith))
  wait-Kept out [] [] size o n e h = record {
    in_order = rw o;
    valid = record { counted = e; small = omega arith };
    no_abort = n;
  }
  wait-Kept out (added ∷ waits) [] size o n e h =
      let start : Fifo M = record { queue = []; size = size } in
      let total = length-append added (joined waits) in
      let w =
        add_all-IsValid added start (record { counted = e; small = omega arith })
          (omega (arith, total)) in
      let same : (add_all added start).queue ≡ added = add_all_queue added start in
      let f = add_all added start in
      subst (λ (q : List M). Kept (q ++ waited waits q) (wait out waits f.queue f.size)) same
        (wait-Kept out waits f.queue f.size o n w.counted (omega (arith, total, ap length same)))

  -- A getNext takes the message that has been in the queue the longest, or returns without one, and
  -- the queue then holds what is left of the messages that were in it and that arrived meanwhile, in
  -- the order in which they were added. The assertion on the size does not fail.
  pub get_next-Kept :
      (ms : ℕ) (waits : List (List M)) (f : Fifo M)
      → IsValid f
      → length f.queue + length (joined waits) < 18446744073709551616
      → Kept (f.queue ++ waited waits f.queue) (get_next ms waits f)
  unfolding get_next
  get_next-Kept ms waits f w h = elim (Bool-cases (ms == 0)) [
    | inl e ↦ rw e (wait-Kept blocked waits f.queue f.size refl (λ p. cc) w.counted h)
    | inr e ↦ rw e (wait-Kept timed_out waits f.queue f.size refl (λ p. cc) w.counted h)
  ]

  -- A getNext of a queue with a message returns the front at once, whatever the time limit, and
  -- leaves the rest.
  pub get_next_lem :
      (ms : ℕ) (waits : List (List M)) (m : M) (queue : List M) (f : Fifo M)
      → IsValid f
      → f.queue ≡ m ∷ queue
      → get_next ms waits f ≡ (record { queue = queue; size = length queue }, taken m)
  unfolding get_next wait pop_front
  get_next_lem ms waits m queue f w e =
      let held : (f.size == 0) ≡ false = ground (arith, w.counted, ap length e) in
      let less : f.size - 1 ≡ length queue = omega (arith, w.counted, ap length e) in
      rw (e, held, less) refl

  wait_ends :
      (out : Taken M) (waits : List (List M)) (queue : List M) (size : ℕ)
      → (out ≡ blocked → ⊥)
      → (wait out waits queue size).1 ≡ blocked
      → ⊥
  unfolding wait pop_front
  wait_ends out waits (m ∷ queue) size n e = elim (Bool-cases (size == 0)) [
    | inl z ↦ cc
    | inr z ↦ cc
  ]
  wait_ends out [] [] size n e = n e
  wait_ends out (added ∷ waits) [] size n e =
      let f = add_all added (record { queue = []; size = size }) in
      wait_ends out waits f.queue f.size n e

  -- A getNext with a time limit comes to an end.
  pub get_next_ends :
      (ms : ℕ) (waits : List (List M)) (f : Fifo M)
      → (ms ≡ 0 → ⊥)
      → (get_next ms waits f).1 ≡ blocked
      → ⊥
  unfolding get_next
  get_next_ends ms waits f n =
      let limited : (ms == 0) ≡ false = ==_ne ms 0 n in
      rw limited (wait_ends timed_out waits f.queue f.size (λ p. cc))

  pub get_next_empty :
      (ms : ℕ) (f : Fifo M) → ms ≡ 0 → f.queue ≡ [] → (get_next ms [] f).1 ≡ blocked
  unfolding get_next wait
  get_next_empty ms f e h =
      let unlimited : (ms == 0) ≡ true = ground (arith, e) in rw (unlimited, h) refl

  -- After clear, the size is so large that the next add wraps it to 0: the getNext that follows fails
  -- its assertion, whatever was in the queue.
  pub get_next-add-clear :
      (ms : ℕ) (waits : List (List M)) (m : M) (f : Fifo M)
      → (get_next ms waits (add m (clear f).0)).1 ≡ aborted
  unfolding get_next wait pop_front add clear
  get_next-add-clear ms waits m f = refl
