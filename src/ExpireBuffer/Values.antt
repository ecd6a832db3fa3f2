-- ===== src/ExpireBuffer/Values.antt =====
-- xframe/include/comserv/cexpirebuffer.h: the calls of CExpireBuffer that hand over or replace values,
-- and those at its end.
use tsm_proxy.Prelude.{
  ℕ, ◌+◌, ◌-◌, ◌≡◌, refl, ap, ◌∙◌, sym, inl, inr, Bool, true, false, ◌&&◌, Option, none, some, List,
  [], ◌∷◌, ◌++◌, arith, ◌==◌, leb, ltb, if◌then◌else◌, length, length-append, take,
  take-append_front, Bool-cases, Option-cases, ==_refl,
}
use tsm_proxy.ExpireBuffer.{
  Entry, ExpireBuffer, lookup, is_some, without_key, find, pop_front, pop_front_old, append, push,
}
use tsm_proxy.ExpireBuffer.Keys.{
  IsValid, lookup_last, append-Distinct, lookup-without, without-Distinct, length-without, find_lem,
}

module _ {ℓ} {V : Type ℓ} where
  abbrev pub first : List (Entry V) → Option (Entry V)
  first [] = none
  first (e ∷ es) = some e

  abbrev pub last : List (Entry V) → Option (Entry V)
  last [] = none
  last (e ∷ es) = let rest = last es in if is_empty es then some e else rest
    where
      is_empty : List (Entry V) → Bool
      is_empty [] = true
      is_empty (x ∷ xs) = false

  unfoldable pub pop_back : ExpireBuffer V → ExpireBuffer V × Bool
  pop_back b =
      if ltb 0 b.count
      then (record b { entries = take (length b.entries - 1) b.entries; count = b.count - 1 }, true)
      else (b, false)

  -- The calls that hand the record over too, where there is one.
  unfoldable pub pop_front_entry : ExpireBuffer V → ExpireBuffer V × Option (Entry V)
  unfolding pop_front
  pop_front_entry b = if ltb 0 b.count then ((pop_front b).0, first b.entries) else (b, none)

  unfoldable pub pop_back_entry : ExpireBuffer V → ExpireBuffer V × Option (Entry V)
  unfolding pop_back
  pop_back_entry b = if ltb 0 b.count then ((pop_back b).0, last b.entries) else (b, none)

  -- The record at the front is handed over also where it is not old and stays.
  unfoldable pub pop_front_old_entry :
      (now currenttime : ℕ) → ExpireBuffer V → (ExpireBuffer V × Bool) × Option (Entry V)
  unfolding pop_front_old
  pop_front_old_entry now currenttime b =
      if ltb 0 b.count
      then (pop_front_old now currenttime b, first b.entries)
      else ((b, false), none)

  -- The oldest record is kept aside, and handed over where the push took it away.
  unfoldable pub push_old :
      (now key : ℕ) → V → ExpireBuffer V → (ExpireBuffer V × ℕ) × Option (Entry V)
  unfolding push
  push_old now key v b =
      let r = push now key v b in
      (
        r,
        if r.1 == 2 && (ltb 0 b.count_max && leb b.count_max b.count)
            then first b.entries
            else none,
      )

  -- Behind the search of update: the node gets the value and the time, and moves to the tail.
  unfoldable pub renew : (now key : ℕ) → V → ExpireBuffer V → Option V → ExpireBuffer V × Option V
  renew now key v b none = (b, none)
  renew now key v b (some old) = (
    record b {
      entries =
          without_key key b.entries ++ record { key = key; value = v; refresh_time = now } ∷ [];
    },
    some old,
  )

  unfoldable pub update_value : (now key : ℕ) → V → ExpireBuffer V → ExpireBuffer V × Option V
  unfolding renew
  update_value now key v b = renew now key v b (lookup key b.entries)

  abbrev renewed : (now key : ℕ) → V → Entry V
  renewed now key v = record { key = key; value = v; refresh_time = now }

  absent_without :
      (key : ℕ) (b : ExpireBuffer V) → IsValid b → lookup key (without_key key b.entries) ≡ none
  absent_without key b w = lookup-without key key b.entries w.distinct ∙ rw ==_refl refl

  renew-IsValid :
      (now key : ℕ) (v old : V) (b : ExpireBuffer V)
      → IsValid b
      → lookup key b.entries ≡ some old
      → IsValid (renew now key v b (some old)).0
  unfolding renew
  renew-IsValid now key v old b w here = record {
    counted = omega (
      arith,
      w.counted,
      length-without key b.entries old here,
      length-append (without_key key b.entries) (renewed now key v ∷ []),
    );
    distinct =
        append-Distinct (without_key key b.entries) (renewed now key v)
          (without-Distinct key b.entries w.distinct) (absent_without key b w);
    bounded = w.bounded;
  }

  lookup-renew :
      (j now key : ℕ) (v old : V) (b : ExpireBuffer V)
      → IsValid b
      → lookup j (renew now key v b (some old)).0.entries
        ≡ (if j == key then some v else lookup j b.entries)
  unfolding renew
  lookup-renew j now key v old b w =
      lookup_last j (without_key key b.entries) (renewed now key v) (absent_without key b w)
      ∙ elim (Bool-cases (j == key)) [
        | inl e ↦ rw e refl
        | inr e ↦ rw (e, lookup-without j key b.entries w.distinct, e) refl
      ]

  -- update with a value answers the old value where the key is there, and then find answers the new
  -- one at that key and what it did before at the others; else nothing changes.
  pub find-update_value :
      (j now key : ℕ) (v : V) (b : ExpireBuffer V)
      → IsValid b
      → ((update_value now key v b).1 ≡ find key b)
        × (find j (update_value now key v b).0
            ≡ (if j == key && is_some (find key b) then some v else find j b))
        × IsValid (update_value now key v b).0
  unfolding update_value renew
  find-update_value j now key v b w = elim (Option-cases (lookup key b.entries)) [
    | inl e ↦ rw (e, find_lem key b w, e) (refl, unsplit (j == key), w)
    | inr (old, e) ↦
        let valid = renew-IsValid now key v old b w e in
        rw (e, find_lem key b w, e)
          (
            refl,
            find_lem j (renew now key v b (some old)).0 valid
                ∙ lookup-renew j now key v old b w
                ∙ pick (j == key) (sym (find_lem j b w)),
            valid,
          )
  ]
    where
      unsplit : (c : Bool) → find j b ≡ (if c && false then some v else find j b)
      unsplit true = refl
      unsplit false = refl

      pick :
          (c : Bool)
          → lookup j b.entries ≡ find j b
          → (if c then some v else lookup j b.entries) ≡ (if c && true then some v else find j b)
      pick true h = refl
      pick false h = h

  -- pop_back takes away what a push just added.
  pub pop_back-append :
      (now key : ℕ) (v : V) (b : ExpireBuffer V) → pop_back (append now key v b) ≡ (b, true)
  unfolding pop_back append
  pop_back-append now key v b =
      let e = renewed now key v in
      let some_left : ltb 0 (b.count + 1) ≡ true = ground arith in
      let long : length (b.entries ++ e ∷ []) - 1 ≡ length b.entries =
        omega (arith, length-append b.entries (e ∷ [])) in
      let less : b.count + 1 - 1 ≡ b.count = omega arith in
      rw (some_left, long, less)
        (ap (λ es. (record b { entries = es }, true)) (take-append_front b.entries (e ∷ [])))
