-- ===== src/Timer/Order.antt =====
-- The order of the timers of a queue, and which of them are due.
use tsm_proxy.Prelude.{
  ℕ, ◌≤◌, ◌<◌, ◌≡◌, refl, ap, inl, inr, true, List, [], ◌∷◌, arith, ltb, if◌then◌else◌, Bool-cases,
}
use tsm_proxy.Timer.{Timer, push}

-- The queue's order: no timer is behind a later one.
abbrev pub AllFrom : ℕ → List Timer → Type 0
AllFrom n [] = Unit {0}
AllFrom n (t ∷ ts) = (n ≤ t.expires) × AllFrom n ts

abbrev pub Sorted : List Timer → Type 0
Sorted [] = Unit {0}
Sorted (t ∷ ts) = AllFrom t.expires ts × Sorted ts

AllFrom-le : (m n : ℕ) (ts : List Timer) → m ≤ n → AllFrom n ts → AllFrom m ts
AllFrom-le m n [] h a = tt
AllFrom-le m n (t ∷ ts) h a = (omega (arith, a.0), AllFrom-le m n ts h a.1)

push-AllFrom :
    (n : ℕ) (t : Timer) (ts : List Timer) → n ≤ t.expires → AllFrom n ts → AllFrom n (push t ts)
unfolding push
push-AllFrom n t [] h a = (h, tt)
push-AllFrom n t (u ∷ ts) h a = elim (Bool-cases (ltb t.expires u.expires)) [
  | inl e ↦ rw e (h, a)
  | inr e ↦ rw e (a.0, push-AllFrom n t ts h a.1)
]

pub push-Sorted : (t : Timer) (ts : List Timer) → Sorted ts → Sorted (push t ts)
unfolding push
push-Sorted t [] w = (tt, tt)
push-Sorted t (u ∷ ts) w = elim (Bool-cases (ltb t.expires u.expires)) [
  | inl e ↦ rw e ((ground arith, AllFrom-le t.expires u.expires ts (ground arith) w.0), w)
  | inr e ↦ rw e (push-AllFrom u.expires t ts (ground arith) w.0, push-Sorted t ts w.1)
]

-- The timers that are due, and the others, of the list as it stands.
abbrev pub due : ℕ → List Timer → List Timer
due now [] = []
due now (t ∷ ts) = if ltb now t.expires then due now ts else t ∷ due now ts

abbrev pub pending : ℕ → List Timer → List Timer
pending now [] = []
pending now (t ∷ ts) = if ltb now t.expires then t ∷ pending now ts else pending now ts

pub due_none : (now n : ℕ) (ts : List Timer) → now < n → AllFrom n ts → due now ts ≡ []
due_none now n [] h a = refl
due_none now n (t ∷ ts) h a =
    let late : ltb now t.expires ≡ true = ground (arith, a.0) in rw late (due_none now n ts h a.1)

pub pending_all : (now n : ℕ) (ts : List Timer) → now < n → AllFrom n ts → pending now ts ≡ ts
pending_all now n [] h a = refl
pending_all now n (t ∷ ts) h a =
    let late : ltb now t.expires ≡ true = ground (arith, a.0) in
    rw late (ap (◌∷◌ t) (pending_all now n ts h a.1))
