-- ===== src/ExpireBuffer/Expiry.antt =====
-- pop_front_old and pop_old: which records expire.
use tsm_proxy.Prelude.{
  ℕ, suc, ◌+◌, ◌-◌, ◌<◌, ◌≡◌, refl, ap, ◌∙◌, sym, inl, inr, true, false, List, [], ◌∷◌, arith, ltb,
  if◌then◌else◌, length, Bool-cases,
}
use tsm_proxy.ExpireBuffer.{
  Entry, ExpireBuffer, pop_front, time_or, is_old, pop_front_old, pop_old, pop_old_loop, next_round,
}
use tsm_proxy.ExpireBuffer.Keys.{IsValid}

module _ {ℓ} {V : Type ℓ} where
  -- The records from the first one on that is not older than the living time.
  abbrev pub from_fresh : ℕ → ℕ → List (Entry V) → List (Entry V)
  from_fresh living time [] = []
  from_fresh living time (e ∷ es) =
      if ltb (living + e.refresh_time) time then from_fresh living time es else e ∷ es

  abbrev pub expired : ℕ → ℕ → List (Entry V) → ℕ
  expired living time [] = 0
  expired living time (e ∷ es) =
      if ltb (living + e.refresh_time) time then suc (expired living time es) else 0

  pop_front_old-old :
      (now currenttime : ℕ) (x : Entry V) (es : List (Entry V)) (b : ExpireBuffer V)
      → b.entries ≡ x ∷ es
      → 0 < b.count
      → ltb (b.living_time + x.refresh_time) (time_or now currenttime) ≡ true
      → pop_front_old now currenttime b ≡ (record b { entries = es; count = b.count - 1 }, true)
  unfolding pop_front_old pop_front is_old
  pop_front_old-old now currenttime x es b e c h =
      let some_left : ltb 0 b.count ≡ true = ground (arith, c) in rw (some_left, e, h) refl

  pop_front_old-fresh :
      (now currenttime : ℕ) (b : ExpireBuffer V)
      → is_old b.living_time (time_or now currenttime) b.entries ≡ false
      → pop_front_old now currenttime b ≡ (b, false)
  unfolding pop_front_old
  pop_front_old-fresh now currenttime b h = elim (Bool-cases (ltb 0 b.count)) [
    | inl e ↦ rw (e, h) refl
    | inr e ↦ rw e refl
  ]

  pop_old_loop_lem :
      (es : List (Entry V)) (now currenttime n : ℕ) (b : ExpireBuffer V)
      → b.entries ≡ es
      → b.count ≡ length es
      → ((pop_old_loop (length es) now currenttime b n).0.entries
          ≡ from_fresh b.living_time (time_or now currenttime) es)
        × ((pop_old_loop (length es) now currenttime b n).1
            ≡ n + expired b.living_time (time_or now currenttime) es)
        × ((pop_old_loop (length es) now currenttime b n).0.count
            ≡ length (from_fresh b.living_time (time_or now currenttime) es))
  unfolding pop_old_loop next_round is_old
  pop_old_loop_lem [] now currenttime n b e c = (e, omega arith, c)
  pop_old_loop_lem (x ∷ es) now currenttime n b e c =
      elim (Bool-cases (ltb (b.living_time + x.refresh_time) (time_or now currenttime))) [
        | inl old ↦
            let (a, k, m) =
              pop_old_loop_lem es now currenttime (n + 1)
                (record b { entries = es; count = b.count - 1 }) refl (omega (arith, c)) in
            rw (pop_front_old-old now currenttime x es b e (omega (arith, c)) old, old)
              (a, omega (arith, k), m)
        | inr fresh ↦
            let seen : is_old b.living_time (time_or now currenttime) b.entries ≡ false =
              ap (is_old b.living_time (time_or now currenttime)) e ∙ fresh in
            rw (pop_front_old-fresh now currenttime b seen, fresh) (e, omega arith, c)
      ]

  -- pop_old takes away the records at the front that were refreshed longer ago than the living time, up
  -- to the first one that was not, and returns how many it took.
  pub pop_old_lem :
      (now currenttime : ℕ) (b : ExpireBuffer V)
      → IsValid b
      → ((pop_old now currenttime b).0.entries
          ≡ from_fresh b.living_time (time_or now currenttime) b.entries)
        × ((pop_old now currenttime b).1
            ≡ expired b.living_time (time_or now currenttime) b.entries)
        × ((pop_old now currenttime b).0.count ≡ length (pop_old now currenttime b).0.entries)
  unfolding pop_old
  pop_old_lem now currenttime b w =
      let (a, k, m) = pop_old_loop_lem b.entries now currenttime 0 b refl w.counted in
      let same = ap (λ c. pop_old_loop c now currenttime b 0) w.counted in
      let listed = ap (λ (r : ExpireBuffer V × ℕ). r.0.entries) same ∙ a in
      (
        listed,
        ap (λ (r : ExpireBuffer V × ℕ). r.1) same ∙ k ∙ omega arith,
        ap (λ (r : ExpireBuffer V × ℕ). r.0.count) same ∙ m ∙ ap length (sym listed),
      )
