-- ===== src/Overflow/Limits.antt =====
-- How many calls a second lets in, and which limit each stage of the slow start has.
use tsm_proxy.Prelude.{
  ℕ, zero, suc, ◌+◌, ◌-◌, ◌≤◌, ◌<◌, ◌≡◌, refl, ap, ◌∙◌, sym, inl, inr, ◌⊎◌, Bool, true, false, ◌&&◌,
  arith, ◌==◌, leb, ltb, Bool-cases, leb→le,
}
use tsm_proxy.Overflow.{
  Overflow, same_second, stage, after_one, after_two, next_stage, note_max, new_second,
  check_overflow,
}

abbrev pub one_if : Bool → ℕ
one_if true = 1
one_if false = 0

-- How many of n checks at the same time let a call in.
unfoldable pub let_in : ℕ → ℕ → Overflow → ℕ
let_in zero now o = 0
let_in (suc n) now o = one_if (check_overflow now o).1 + let_in n now (check_overflow now o).0

-- What a check in the same second does to the count.
pub record Step (o : Overflow) (r : Overflow × Bool) : Type 0 where
  pub counted : r.0.cur_caps ≡ o.cur_caps + 1
  pub second : r.0.pre_time ≡ o.pre_time
  pub limits : (r.0.pd_limition ≡ o.pd_limition) × (r.0.caps_limition ≡ o.caps_limition)
  pub closed : o.flow_control ≡ true → (r.1 ≡ false) × (r.0.flow_control ≡ true)
  pub below : r.1 ≡ true → o.cur_caps + 1 < o.pd_limition
  pub full : o.pd_limition ≤ o.cur_caps + 1 → r.0.flow_control ≡ true

check-Step :
    (now : ℕ) (o : Overflow)
    → now ≡ o.pre_time
    → 0 < o.caps_limition
    → Step o (check_overflow now o)
unfolding check_overflow same_second
check-Step now o e h =
    let here : (now == o.pre_time) ≡ true = ground (arith, e) in
    let limited : leb o.caps_limition 0 ≡ false = ground arith in
    elim (Bool-cases o.flow_control) [
      | inl f ↦
          rw (here, limited, f, check_overflow)
            (record {
              counted = refl;
              second = refl;
              limits = (refl, refl);
              closed = λ p. (refl, refl);
              below = λ p. cc;
              full = λ p. refl;
            })
      | inr f ↦
          elim (Bool-cases
            (leb o.cur_limition (o.cur_caps + 1) && ltb (o.cur_caps + 1) o.pd_limition)) [
              | inl m ↦
                  rw (here, limited, f, m, check_overflow)
                    (record {
                      counted = refl;
                      second = refl;
                      limits = (refl, refl);
                      closed = λ p. cc;
                      below = λ p. ground arith;
                      full = λ p. ground arith;
                    })
              | inr m ↦ elim (Bool-cases (leb o.pd_limition (o.cur_caps + 1))) [
                | inl x ↦
                    rw (here, limited, f, m, x, check_overflow)
                      (record {
                        counted = refl;
                        second = refl;
                        limits = (refl, refl);
                        closed = λ p. cc;
                        below = λ p. cc;
                        full = λ p. refl;
                      })
                | inr x ↦
                    rw (here, limited, f, m, x, check_overflow)
                      (record {
                        counted = refl;
                        second = refl;
                        limits = (refl, refl);
                        closed = λ p. cc;
                        below = λ p. ground arith;
                        full = λ p. ground arith;
                      })
              ]
            ]
    ]

-- Once the limit closed a second it stays closed.
let_in-closed :
    (n now : ℕ) (o : Overflow)
    → now ≡ o.pre_time
    → 0 < o.caps_limition
    → o.flow_control ≡ true
    → let_in n now o ≡ 0
unfolding let_in
let_in-closed zero now o e h f = refl
let_in-closed (suc n) now o e h f =
    let w = check-Step now o e h in
    let (shut, kept) = w.closed f in
    omega (
      arith,
      ap one_if shut,
      let_in-closed n now (check_overflow now o).0 (e ∙ sym w.second) (omega (arith, w.limits.1))
          kept,
    )

-- Where there is a limit, which is caps_limition above 0, the checks in the second of the last check,
-- however many they are, let in fewer calls than the hard limit leaves room for.
pub let_in-limit :
    (n now : ℕ) (o : Overflow)
    → now ≡ o.pre_time
    → 0 < o.caps_limition
    → let_in n now o ≤ o.pd_limition - 1 - o.cur_caps
unfolding let_in
let_in-limit zero now o e h = omega arith
let_in-limit (suc n) now o e h =
    let w = check-Step now o e h in
    let later = (check_overflow now o).0 in
    let positive : 0 < later.caps_limition = omega (arith, w.limits.1) in
    let rest = let_in-limit n now later (e ∙ sym w.second) positive in
    elim (Bool-cases (leb o.pd_limition (o.cur_caps + 1))) [
      | inl full ↦
          let closed =
            let_in-closed n now later (e ∙ sym w.second) positive (w.full (leb→le _ _ full)) in
          elim (Bool-cases (check_overflow now o).1) [
            | inl let_it ↦ absurd (omega (arith, w.below let_it, leb→le _ _ full))
            | inr shut ↦ omega (arith, ap one_if shut, closed)
          ]
      | inr room ↦ elim (Bool-cases (check_overflow now o).1) [
        | inl let_it ↦ omega (arith, ap one_if let_it, rest, w.counted, w.limits.0, w.below let_it)
        | inr shut ↦ omega (arith, ap one_if shut, rest, w.counted, w.limits.0)
      ]
    ]

-- The limit of each stage.
abbrev pub StageIsValid : Overflow → Type 0
StageIsValid o =
    ((o.pd ≡ 0) × (o.cur_limition ≡ o.caps_limition))
    ⊎ (((o.pd ≡ 1) × (o.cur_limition ≡ o.start1_limition))
        ⊎ ((o.pd ≡ 2) × (o.cur_limition ≡ o.start2_limition)))

after_one-Stage : (o : Overflow) → StageIsValid o → StageIsValid (after_one o)
unfolding after_one stage
after_one-Stage o w = elim (Bool-cases o.flow_control) [
  | inl f ↦ rw (f, after_one) (inr (inl (refl, refl)))
  | inr f ↦ elim (Bool-cases (o.pd == 1)) [
    | inl p ↦ rw (f, p, after_one) (inr (inr (refl, refl)))
    | inr p ↦ elim (Bool-cases (o.pd == 2)) [
      | inl q ↦ rw (f, p, q, after_one) (inl (refl, refl))
      | inr q ↦ rw (f, p, q, after_one) w
    ]
  ]
]

after_two-Stage : (o : Overflow) → StageIsValid o → StageIsValid (after_two o)
unfolding after_two stage
after_two-Stage o w = elim (Bool-cases o.flow_control) [
  | inl f ↦ rw (f, after_two) (inr (inr (refl, refl)))
  | inr f ↦ elim (Bool-cases (o.pd == 0)) [
    | inl p ↦ rw (f, p, after_two) w
    | inr p ↦ rw (f, p, after_two) (inl (refl, refl))
  ]
]

next_stage-Stage :
    (pre now : ℕ) (o : Overflow) → StageIsValid o → StageIsValid (next_stage pre now o)
unfolding next_stage stage
next_stage-Stage pre now o w = elim (Bool-cases (now == pre + 1)) [
  | inl a ↦ rw (a, next_stage) (after_one-Stage o w)
  | inr a ↦ elim (Bool-cases (now == pre + 2)) [
    | inl b ↦ rw (a, b, next_stage) (after_two-Stage o w)
    | inr b ↦ elim (Bool-cases (ltb (pre + 2) now)) [
      | inl c ↦ rw (a, b, c, next_stage) (inl (refl, refl))
      | inr c ↦ rw (a, b, c, next_stage) w
    ]
  ]
]

note_max-Stage : (o : Overflow) → StageIsValid o → StageIsValid (note_max o)
unfolding note_max
note_max-Stage o w = elim (Bool-cases (ltb o.max_caps o.cur_caps)) [
  | inl e ↦ rw (e, note_max) w
  | inr e ↦ rw (e, note_max) w
]

same_second-Stage : (o : Overflow) → StageIsValid o → StageIsValid (same_second o).0
unfolding same_second
same_second-Stage o w = elim (Bool-cases (leb o.caps_limition 0)) [
  | inl a ↦ rw (a, same_second) w
  | inr a ↦ elim (Bool-cases o.flow_control) [
    | inl f ↦ rw (a, f, same_second) w
    | inr f ↦ elim (Bool-cases (leb o.cur_limition o.cur_caps && ltb o.cur_caps o.pd_limition)) [
      | inl m ↦ rw (a, f, m, same_second) w
      | inr m ↦ elim (Bool-cases (leb o.pd_limition o.cur_caps)) [
        | inl x ↦ rw (a, f, m, x, same_second) w
        | inr x ↦ rw (a, f, m, x, same_second) w
      ]
    ]
  ]
]

-- Every check keeps the soft limit the one of its stage: the configured one in stage 0, the first
-- and the second of the slow start in stages 1 and 2. There is no other stage.
pub check_overflow-Stage :
    (now : ℕ) (o : Overflow) → StageIsValid o → StageIsValid (check_overflow now o).0
unfolding check_overflow new_second
check_overflow-Stage now o w = elim (Bool-cases (now == o.pre_time)) [
  | inl e ↦ rw (e, check_overflow) (same_second-Stage _ w)
  | inr e ↦
      rw (e, check_overflow)
        (let noted = note_max (record o { cur_time = now; cur_caps = o.cur_caps + 1 }) in
          next_stage-Stage o.pre_time now (record noted { cur_caps = 1; pre_time = now })
            (note_max-Stage (record o { cur_time = now; cur_caps = o.cur_caps + 1 }) w))
]
