-- ===== src/ExpireBuffer/Refresh.antt =====
-- update: a record that is refreshed moves to the end.
use tsm_proxy.Prelude.{
  ℕ, ◌≡◌, refl, ◌∙◌, sym, inl, inr, none, some, [], ◌∷◌, arith, ◌==◌, length-append, Bool-cases,
  Option-cases, eq_of_==, ==_refl,
}
use tsm_proxy.ExpireBuffer.{
  Entry, ExpireBuffer, lookup, is_some, without_key, time_or, find, refresh, update,
}
use tsm_proxy.ExpireBuffer.Keys.{
  IsValid, lookup_last, append-Distinct, lookup-without, without-Distinct, length-without, find_lem,
}

module _ {ℓ} {V : Type ℓ} where
  -- The record that update puts at the end.
  abbrev moved : (now key t : ℕ) → V → Entry V
  moved now key t v = record { key = key; value = v; refresh_time = time_or now t }

  absent_then :
      (key : ℕ) (b : ExpireBuffer V) → IsValid b → lookup key (without_key key b.entries) ≡ none
  absent_then key b w = lookup-without key key b.entries w.distinct ∙ rw ==_refl refl

  refresh-IsValid :
      (now key t : ℕ) (v : V) (b : ExpireBuffer V)
      → IsValid b
      → lookup key b.entries ≡ some v
      → IsValid (refresh now key t b (some v)).0
  unfolding refresh
  refresh-IsValid now key t v b w here = record {
    counted = omega (
      arith,
      w.counted,
      length-without key b.entries v here,
      length-append (without_key key b.entries) (moved now key t v ∷ []),
    );
    distinct =
        append-Distinct (without_key key b.entries) (moved now key t v)
          (without-Distinct key b.entries w.distinct) (absent_then key b w);
    bounded = w.bounded;
  }

  lookup-refresh :
      (j now key t : ℕ) (v : V) (b : ExpireBuffer V)
      → IsValid b
      → lookup key b.entries ≡ some v
      → lookup j (refresh now key t b (some v)).0.entries ≡ lookup j b.entries
  unfolding refresh
  lookup-refresh j now key t v b w here =
      lookup_last j (without_key key b.entries) (moved now key t v) (absent_then key b w)
      ∙ elim (Bool-cases (j == key)) [
        | inl e ↦ rw (e, eq_of_== j key e, here) refl
        | inr e ↦ rw (e, lookup-without j key b.entries w.distinct, e) refl
      ]

  -- update keeps what find answers at every key and the invariant, and succeeds where the key is
  -- there.
  pub find-update :
      (j now key t : ℕ) (b : ExpireBuffer V)
      → IsValid b
      → (find j (update now key t b).0 ≡ find j b)
        × ((update now key t b).1 ≡ is_some (find key b))
        × IsValid (update now key t b).0
  unfolding update refresh
  find-update j now key t b w = elim (Option-cases (lookup key b.entries)) [
    | inl e ↦ rw (e, find_lem key b w, e) (refl, refl, w)
    | inr (v, e) ↦
        let valid = refresh-IsValid now key t v b w e in
        rw (e, find_lem key b w, e)
          (
            find_lem j (refresh now key t b (some v)).0 valid
                ∙ lookup-refresh j now key t v b w e
                ∙ sym (find_lem j b w),
            refl,
            valid,
          )
  ]
