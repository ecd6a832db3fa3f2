-- ===== src/HashTable/Everywhere.antt =====
-- A property of every value of a table, through put, update, remove and clear.
use tsm_proxy.Prelude.{
  ℕ, ◌≡◌, sym, ◌∙◌, inl, inr, Option, none, some, ◌==◌, if◌then◌else◌, Bool-cases, Option-cases,
}
use mathlib.Core.Path.{subst}
use tsm_proxy.HashTable.{HashTable, clear, get, put, remove, update}
use tsm_proxy.HashTable.Laws.{IsValid, get-put}
use tsm_proxy.HashTable.Removal.{get-remove, get-update, get-clear, map_some}

module _ {ℓ} {V : Type ℓ} where
  some_inj : {a b : V} → ◌≡◌ {A = Option V} (some a) (some b) → a ≡ b
  some_inj h = cc

  none-some : {v : V} → ◌≡◌ {A = Option V} none (some v) → ⊥
  none-some h = cc

module _ {ℓ κ} {V : Type ℓ} (P : V → Type κ) where
  abbrev pub Everywhere : HashTable V → Type (ℓ ⊔ κ)
  Everywhere t = (k : ℕ) (v : V) → get k t ≡ some v → P v

  pub put-Everywhere :
      (k : ℕ) (v : V) (t : HashTable V) → IsValid t → P v → Everywhere t → Everywhere (put k v t).0
  put-Everywhere k v t w p all j x e =
      let found : (if k == j then some v else get j t) ≡ some x = sym (get-put j k v t w) ∙ e in
      elim (Bool-cases (k == j)) [
        | inl same ↦ subst P (some_inj (rw same at found)) p
        | inr other ↦ all j x (rw other at found)
      ]

  pub update-Everywhere :
      (k : ℕ) (f : V → V) (t : HashTable V)
      → IsValid t
      → ((v : V) → P v → P (f v))
      → Everywhere t
      → Everywhere (update k f t)
  update-Everywhere k f t w step all j x e =
      let found : (if k == j then map_some f (get k t) else get j t) ≡ some x =
        sym (get-update j k f t w) ∙ e in
      elim (Bool-cases (k == j)) [
        | inl same ↦ elim (Option-cases (get k t)) [
          | inl missing ↦ absurd (none-some (rw (same, missing) at found))
          | inr (v, here) ↦ subst P (some_inj (rw (same, here) at found)) (step v (all k v here))
        ]
        | inr other ↦ all j x (rw other at found)
      ]

  pub remove-Everywhere :
      (k : ℕ) (t : HashTable V) → IsValid t → Everywhere t → Everywhere (remove k t).0
  remove-Everywhere k t w all j x e =
      let found : (if k == j then none else get j t) ≡ some x = sym (get-remove j k t w) ∙ e in
      elim (Bool-cases (k == j)) [
        | inl same ↦ absurd (none-some (rw same at found))
        | inr other ↦ all j x (rw other at found)
      ]

  pub clear-Everywhere : (t : HashTable V) → Everywhere (clear t)
  clear-Everywhere t j x e = absurd (none-some (sym (get-clear j t) ∙ e))
