-- ===== src/Base64/Characters.antt =====
-- What Decode does with one character of Encode's output.
use tsm_proxy.Prelude.{
  ℕ, zero, suc, ◌+◌, ◌*◌, ◌%◌, ◌≤◌, ◌<◌, ◌≡◌, refl, ap, ◌∙◌, sym, inl, inr, Bool, true, false, ◌&&◌,
  some, List, ◌∷◌, arith, ◌==◌, ltb, Bool-cases, eq_of_==,
}
use tsm_proxy.Base64.{code, value, Decoder, write_group, take_value, step, and_then, decode_loop}

-- The codes below n all have their own values.
inverse_below : ℕ → Bool
unfolding code value
inverse_below zero = true
inverse_below (suc n) = let rest = inverse_below n in (value (code n) == n) && rest

inverse_64 : inverse_below 64 ≡ true
unfolding inverse_below
inverse_64 = refl

both : (a b : Bool) → (a && b) ≡ true → (a ≡ true) × (b ≡ true)
both true b p = (refl, p)
both false b p = absurd (no p)
  where
    no : ◌≡◌ {A = Bool} false true → ⊥
    no q = cc

inverse_lem : (n v : ℕ) → inverse_below n ≡ true → v < n → value (code v) ≡ v
unfolding inverse_below
inverse_lem zero v e h = absurd (omega arith)
inverse_lem (suc n) v e h =
    let (at_n, below) = both (value (code n) == n) (inverse_below n) e in
    elim (Bool-cases (v == n)) [
      | inl same ↦
          let p = eq_of_== v n same in ap (λ m. value (code m)) p ∙ eq_of_== _ _ at_n ∙ sym p
      | inr other ↦ inverse_lem n v below (ground arith)
    ]

value-code : (v : ℕ) → v < 64 → value (code v) ≡ v
value-code v h = inverse_lem 64 v inverse_64 h

-- A character that does not complete its group.
unfoldable pub shift : ℕ → Decoder → Decoder
shift v d = record d { t = (d.t * 64 + v) % 18446744073709551616; y = d.y + 1 }

-- A `=` is a value of 0 that takes a byte from the group.
abbrev pub fewer : Decoder → Decoder
fewer d = record d { g = (d.g + 18446744073709551615) % 18446744073709551616 }

module _ (capacity : ℕ) where
  step-code : (v : ℕ) (d : Decoder) → v < 64 → step capacity (code v) d ≡ take_value capacity v d
  unfolding step
  step-code v d h =
      let known : (v == 255) ≡ false = ground arith in
      let letter : (v == 254) ≡ false = ground arith in rw (value-code v h, known, letter) refl

  take_value-shift :
      (v : ℕ) (d : Decoder) → (d.y + 1 == 4) ≡ false → take_value capacity v d ≡ some (shift v d)
  unfolding take_value shift
  take_value-shift v d e = rw e refl

  take_value-write :
      (v : ℕ) (d : Decoder)
      → (d.y + 1 == 4) ≡ true
      → d.z + d.g ≤ capacity
      → take_value capacity v d ≡ some (write_group ((d.t * 64 + v) % 18446744073709551616) d)
  unfolding take_value
  take_value-write v d e h =
      let room : ltb capacity ((d.z + d.g) % 18446744073709551616) ≡ false = ground (arith, h) in
      rw (e, room) refl

  next :
      (c : ℕ) (cs : List ℕ) (d u : Decoder)
      → step capacity c d ≡ some u
      → decode_loop capacity (c ∷ cs) d ≡ decode_loop capacity cs u
  unfolding decode_loop and_then
  next c cs d u e = ap (λ o. and_then o (decode_loop capacity cs)) e

  pub eat :
      (v : ℕ) (cs : List ℕ) (d : Decoder)
      → v < 64
      → (d.y + 1 == 4) ≡ false
      → decode_loop capacity (code v ∷ cs) d ≡ decode_loop capacity cs (shift v d)
  eat v cs d h e = next (code v) cs d (shift v d) (step-code v d h ∙ take_value-shift v d e)

  pub eat_last :
      (v : ℕ) (cs : List ℕ) (d : Decoder)
      → v < 64
      → (d.y + 1 == 4) ≡ true
      → d.z + d.g ≤ capacity
      → decode_loop capacity (code v ∷ cs) d
        ≡ decode_loop capacity cs (write_group ((d.t * 64 + v) % 18446744073709551616) d)
  eat_last v cs d h e r = next (code v) cs d _ (step-code v d h ∙ take_value-write v d e r)

  step_pad : (d : Decoder) → step capacity 61 d ≡ take_value capacity 0 (fewer d)
  unfolding step value
  step_pad d = refl

  pub pad :
      (cs : List ℕ) (d : Decoder)
      → (d.y + 1 == 4) ≡ false
      → decode_loop capacity (61 ∷ cs) d ≡ decode_loop capacity cs (shift 0 (fewer d))
  pad cs d e = next 61 cs d (shift 0 (fewer d)) (step_pad d ∙ take_value-shift 0 (fewer d) e)

  pub pad_last :
      (cs : List ℕ) (d : Decoder)
      → (d.y + 1 == 4) ≡ true
      → d.z + (fewer d).g ≤ capacity
      → decode_loop capacity (61 ∷ cs) d
        ≡ decode_loop capacity cs (write_group (d.t * 64 % 18446744073709551616) (fewer d))
  pad_last cs d e r =
      next 61 cs d _ (step_pad d ∙ take_value-write 0 (fewer d) e r)
      ∙ ap (λ t. decode_loop capacity cs (write_group (t % 18446744073709551616) (fewer d)))
          (omega arith)
