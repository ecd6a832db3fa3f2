-- ===== src/TaskSelector/RoundRobin.antt =====
-- getTask chooses, in the order of the ring from the place after the last choice, the first
-- instance that is registered and not marked by shutdown.
use tsm_proxy.Prelude.{
  ℕ, zero, suc, ◌+◌, ◌-◌, ◌≤◌, ◌<◌, ◌≡◌, refl, ap, ◌∙◌, inl, inr, true, false, Option, none, some,
  List, [], ◌∷◌, ◌++◌, arith, leb, ltb, if◌then◌else◌, length, get_elem?, take, drop, Bool-cases,
}
use tsm_proxy.HashTable.{HashTable}
use tsm_proxy.HashTable
use tsm_proxy.Clist.{Clist}
use tsm_proxy.Clist
use tsm_proxy.Clist.Valid
use tsm_proxy.Clist.Walk.{get_lem}
use tsm_proxy.TaskSelector.{Item, TaskState}
use tsm_proxy.TaskSelector.Dispatch.{advance, usable, look, choose, round_robin}

-- The ids of a list from the place after pos on, round to pos itself.
unfoldable pub ring : ℕ → List ℕ → List ℕ
ring pos ids = if leb (length ids) (pos + 1) then ids else drop (pos + 1) ids ++ take (pos + 1) ids

-- The first id with a usable item.
abbrev pub first_usable : HashTable Item → List ℕ → Option ℕ
first_usable items [] = none
first_usable items (i ∷ ids) =
    if usable (HashTable.get i items) then some i else first_usable items ids

-- The ids at the places that a number of rounds looks at, the first of them at place pos.
push_some : Option ℕ → List ℕ → List ℕ
push_some none ids = ids
push_some (some i) ids = i ∷ ids

pub looked_at : ℕ → ℕ → List ℕ → List ℕ
unfolding push_some
looked_at zero pos ids = []
looked_at (suc rounds) pos ids =
    push_some (get_elem? ids pos) (looked_at rounds (advance (length ids) pos) ids)

abbrev pub bound : ℕ
bound = 4294967296

advance_lem :
    (n pos : ℕ) → n < bound → pos < bound → advance n pos ≡ (if leb n (pos + 1) then 0 else pos + 1)
unfolding advance
advance_lem n pos h k = ground arith

advance-lt : (n pos : ℕ) → 0 < n → advance n pos < n
unfolding advance
advance-lt n pos h = ground arith

look_lem :
    (ts : TaskState) (pos : ℕ)
    → Clist.Valid.IsValid ts.inst
    → advance (Clist.count ts.inst) ts.instpos ≡ pos
    → pos < length ts.inst.items
    → look ts ≡ (
      record ts { instpos = pos; inst = record ts.inst { current = pos } },
      get_elem? ts.inst.items pos,
    )
look_lem ts pos w e h =
    let inside : ltb pos (length ts.inst.items) ≡ true = ground arith in
    let got : Clist.get pos ts.inst
        ≡ (record ts.inst { current = pos }, get_elem? ts.inst.items pos) =
      get_lem pos ts.inst w ∙ rw inside in
    rw e (ap (λ (r : Clist × Option ℕ). (record ts { instpos = pos; inst = r.0 }, r.1)) got)

count_lem : (l : Clist) → Clist.Valid.IsValid l → Clist.count l ≡ length l.items
unfolding Clist.count
count_lem l w = w.counted

-- A list of at least one instance has one at a place inside.
get_elem?_in : (xs : List ℕ) (i : ℕ) → i < length xs → (x : ℕ) × (get_elem? xs i ≡ some x)
get_elem?_in [] i h = absurd (omega arith)
get_elem?_in (x ∷ xs) zero h = (x, refl)
get_elem?_in (x ∷ xs) (suc i) h = get_elem?_in xs i (omega arith)

-- What a search leaves of the task: its list, well formed.
abbrev pub KeepsList : TaskState → TaskState → Type 0
KeepsList old new = (new.inst.items ≡ old.inst.items) × Clist.Valid.IsValid new.inst

round_robin-looked_at :
    (items : HashTable Item) (rounds : ℕ) (ts : TaskState)
    → Clist.Valid.IsValid ts.inst
    → 0 < length ts.inst.items
    → ((round_robin items rounds ts).1
        ≡ first_usable items
            (looked_at rounds (advance (length ts.inst.items) ts.instpos) ts.inst.items))
      × KeepsList ts (round_robin items rounds ts).0
unfolding round_robin looked_at choose
round_robin-looked_at items zero ts w h = (refl, (refl, w))
round_robin-looked_at items (suc rounds) ts w h =
    let pos = advance (length ts.inst.items) ts.instpos in
    let at =
      look_lem ts pos w (ap (λ m. advance m ts.instpos) (count_lem ts.inst w))
        (advance-lt (length ts.inst.items) ts.instpos h) in
    let (x, here) =
      get_elem?_in ts.inst.items pos (advance-lt (length ts.inst.items) ts.instpos h) in
    let kept : Clist.Valid.IsValid (record ts.inst { current = pos }) = record {
      counted = w.counted;
      within = omega (arith, advance-lt (length ts.inst.items) ts.instpos h);
    } in
    let rest =
      round_robin-looked_at items rounds
        (record ts { instpos = pos; inst = record ts.inst { current = pos } }) kept h in
    rw (at, here)
      (elim (Bool-cases (usable (HashTable.get x items))) [
        | inl e ↦ rw e (refl, (refl, kept))
        | inr e ↦ rw e rest
      ])

drop_in : (xs : List ℕ) (i x : ℕ) → get_elem? xs i ≡ some x → drop i xs ≡ x ∷ drop (suc i) xs
drop_in [] i x h = cc
drop_in (y ∷ xs) zero x h = ground arith
drop_in (y ∷ xs) (suc i) x h = drop_in xs i x h

drop_all : (xs : List ℕ) (n : ℕ) → length xs ≤ n → drop n xs ≡ []
drop_all [] zero h = refl
drop_all [] (suc n) h = refl
drop_all (x ∷ xs) zero h = absurd (omega arith)
drop_all (x ∷ xs) (suc n) h = drop_all xs n (omega arith)

take_all : (xs : List ℕ) → take (length xs) xs ≡ xs
take_all [] = refl
take_all (x ∷ xs) = ap (◌∷◌ x) (take_all xs)

module _ (ids : List ℕ) (small : length ids < bound) where
  -- Before the end of the list, the rounds look at consecutive places.
  looked_at-take :
      (rounds pos : ℕ)
      → pos + rounds ≤ length ids
      → looked_at rounds pos ids ≡ take rounds (drop pos ids)
  unfolding looked_at
  looked_at-take zero pos h = refl
  looked_at-take (suc zero) pos h =
      let (x, here) = get_elem?_in ids pos (omega arith) in rw (here, drop_in ids pos x here)
  looked_at-take (suc (suc rounds)) pos h =
      let (x, here) = get_elem?_in ids pos (omega arith) in
      let inner : leb (length ids) (pos + 1) ≡ false = ground arith in
      let onward : advance (length ids) pos ≡ suc pos =
        advance_lem (length ids) pos small (omega arith) ∙ rw inner (omega arith) in
      rw (here, drop_in ids pos x here, onward)
        (ap (◌∷◌ x) (looked_at-take (suc rounds) (suc pos) (omega arith)))

  -- The rounds that reach the end of the list go on at its front.
  looked_at-wrap :
      (before after pos : ℕ)
      → pos + suc before ≡ length ids
      → looked_at (suc before + after) pos ids ≡ drop pos ids ++ looked_at after 0 ids
  unfolding looked_at
  looked_at-wrap zero after pos h =
      let (x, here) = get_elem?_in ids pos (omega arith) in
      let last : leb (length ids) (pos + 1) ≡ true = ground arith in
      let onward : advance (length ids) pos ≡ 0 =
        advance_lem (length ids) pos small (omega arith) ∙ rw last in
      let one : suc zero + after ≡ suc after = omega arith in
      let end : drop (suc pos) ids ≡ [] = drop_all ids (suc pos) (omega arith) in
      rw (one, here, drop_in ids pos x here, onward, end)
  looked_at-wrap (suc before) after pos h =
      let (x, here) = get_elem?_in ids pos (omega arith) in
      let inner : leb (length ids) (pos + 1) ≡ false = ground arith in
      let onward : advance (length ids) pos ≡ suc pos =
        advance_lem (length ids) pos small (omega arith) ∙ rw inner (omega arith) in
      let more : suc (suc before) + after ≡ suc (suc before + after) = omega arith in
      rw (more, here, drop_in ids pos x here, onward)
        (ap (◌∷◌ x) (looked_at-wrap before after (suc pos) (omega arith)))

  -- As many rounds as there are instances look at each once, in the order of the ring.
  pub looked_at-ring :
      (pos : ℕ)
      → pos < bound
      → 0 < length ids
      → looked_at (length ids) (advance (length ids) pos) ids ≡ ring pos ids
  unfolding ring
  looked_at-ring pos h k = elim (Bool-cases (leb (length ids) (pos + 1))) [
    | inl e ↦
        let onward : advance (length ids) pos ≡ 0 = advance_lem (length ids) pos small h ∙ rw e in
        rw (e, onward) (looked_at-take (length ids) 0 (omega arith) ∙ take_all ids)
    | inr e ↦
        let onward : advance (length ids) pos ≡ pos + 1 =
          advance_lem (length ids) pos small h ∙ rw e in
        let inner : pos + 1 < length ids = ground arith in
        let parts : length ids ≡ suc (length ids - (pos + 1) - 1) + (pos + 1) = omega arith in
        rw (e, onward)
          (ap (λ m. looked_at m (pos + 1) ids) parts
            ∙ looked_at-wrap (length ids - (pos + 1) - 1) (pos + 1) (pos + 1) (omega arith)
            ∙ ap (λ ys. drop (pos + 1) ids ++ ys) (looked_at-take (pos + 1) 0 (omega arith)))
  ]

ring_nil : (pos : ℕ) (ids : List ℕ) → ids ≡ [] → ring pos ids ≡ []
unfolding ring
ring_nil pos ids e = rw e (ground arith)

nil_of_length : (ids : List ℕ) → length ids ≡ 0 → ids ≡ []
nil_of_length [] h = refl
nil_of_length (x ∷ ids) h = absurd (omega arith)

-- The loop of getTask, run for as many rounds as there are instances.
pub round_robin-ring :
    (items : HashTable Item) (ts : TaskState)
    → Clist.Valid.IsValid ts.inst
    → length ts.inst.items < bound
    → ts.instpos < bound
    → ((round_robin items (Clist.count ts.inst) ts).1
        ≡ first_usable items (ring ts.instpos ts.inst.items))
      × KeepsList ts (round_robin items (Clist.count ts.inst) ts).0
unfolding round_robin
round_robin-ring items ts w small h =
    rw (count_lem ts.inst w) (elim (Bool-cases (ltb 0 (length ts.inst.items))) [
      | inl e ↦
          rw (← looked_at-ring ts.inst.items small ts.instpos h (ground arith))
            (round_robin-looked_at items (length ts.inst.items) ts w (ground arith))
      | inr e ↦
          let none_left : length ts.inst.items ≡ 0 = ground arith in
          rw (none_left, ring_nil ts.instpos ts.inst.items (nil_of_length ts.inst.items none_left))
            (refl, (refl, w))
    ])

-- The loop leaves the ids of the list as they are.
pub round_robin-KeepsList :
    (items : HashTable Item) (ts : TaskState)
    → Clist.Valid.IsValid ts.inst
    → KeepsList ts (round_robin items (Clist.count ts.inst) ts).0
unfolding round_robin
round_robin-KeepsList items ts w =
    rw (count_lem ts.inst w) (elim (Bool-cases (ltb 0 (length ts.inst.items))) [
      | inl e ↦ (round_robin-looked_at items (length ts.inst.items) ts w (ground arith)).1
      | inr e ↦ let none_left : length ts.inst.items ≡ 0 = ground arith in rw none_left (refl, w)
    ])
