-- ===== src/Fifo.antt =====
-- xframe/include/comserv/fifo.h and xframe/comserv/fifoabstract.C: Fifo<Msg>, the queue of messages
-- between threads. A call holds mMutex from its start to its end, except while it waits: a waiting
-- getNext is given the list of what other threads did during each wait.
pub mod Order
use tsm_proxy.Prelude.{
  ℕ, zero, suc, ◌+◌, ◌-◌, ◌≡◌, Bool, true, false, List, [], ◌∷◌, ◌++◌, ◌==◌, if◌then◌else◌, length,
  u32, u64,
}

-- What getNext does: it waits for ever, returns 0, fails `assert(mSize != 0)`, or returns a message.
pub data Taken {ℓ} (M : Type ℓ) : Type ℓ where
  blocked timed_out aborted : Taken M
  taken : M → Taken M

pub record Fifo {ℓ} (M : Type ℓ) : Type ℓ where
  pub queue : List M
  pub size : ℕ

module _ {ℓ} {M : Type ℓ} where
  abbrev pub new : Fifo M
  new = record { queue = []; size = 0 }

  unfoldable pub add : M → Fifo M → Fifo M
  add m f = record { queue = f.queue ++ m ∷ []; size = u64 (f.size + 1) }

  unfoldable pub add_all : List M → Fifo M → Fifo M
  add_all [] f = f
  add_all (m ∷ ms) f = add_all ms (add m f)

  -- Behind the wait: the front is popped, the assertion checked and the size reduced.
  unfoldable pub pop_front : M → List M → ℕ → Fifo M × Taken M
  pop_front m queue size =
      if size == 0
      then (record { queue = queue; size = size }, aborted)
      else (record { queue = queue; size = size - 1 }, taken m)

  -- `while (mFifo.empty()) wait`. Each wait gives what was added when it was signalled; after the
  -- last one the call ends with `out`.
  unfoldable pub wait : Taken M → List (List M) → List M → ℕ → Fifo M × Taken M
  unfolding pop_front add_all
  wait out waits (m ∷ queue) size = pop_front m queue size
  wait out [] [] size = (record { queue = []; size = size }, out)
  wait out (added ∷ waits) [] size =
      let f = add_all added (record { queue = []; size = size }) in wait out waits f.queue f.size

  -- getNext(ms): 0 ms means no limit, so that the call never returns 0.
  unfoldable pub get_next : ℕ → List (List M) → Fifo M → Fifo M × Taken M
  unfolding wait
  get_next ms waits f = wait (if ms == 0 then blocked else timed_out) waits f.queue f.size

  -- The messages are deleted, and the size is set to `0UL - 1`.
  unfoldable pub clear : Fifo M → Fifo M × List M
  clear f = (record { queue = []; size = 18446744073709551615 }, f.queue)

  -- size(), which returns an `unsigned int`.
  unfoldable pub size_of : Fifo M → ℕ
  size_of f = u32 f.size

  unfoldable pub empty : Fifo M → Bool
  empty f = f.size == 0
