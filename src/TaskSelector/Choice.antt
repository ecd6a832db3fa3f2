-- ===== src/TaskSelector/Choice.antt =====
-- The instances that getTask can choose, and that it chooses one of them.
use tsm_proxy.Prelude.{
  ℕ, ◌+◌, ◌≡◌, ◌∙◌, sym, inl, inr, Bool, true, false, Option, some, List, [], ◌∷◌, ◌++◌, leb,
  length, take, drop, Bool-cases, subst, ◌↔◌, ◌⊎◌, take-append-drop,
}
use tsm_proxy.HashTable.{HashTable}
use tsm_proxy.HashTable
use tsm_proxy.TaskSelector.{Item}
use tsm_proxy.TaskSelector.Dispatch.{usable}
use tsm_proxy.TaskSelector.RoundRobin.{ring, first_usable}

-- An id of the list is one of the ring, and the other way round.
abbrev pub Listed : ℕ → List ℕ → Type 0
Listed i [] = ⊥
Listed i (j ∷ ids) = (i ≡ j) ⊎ Listed i ids

pub Listed-append_left : (i : ℕ) (xs ys : List ℕ) → Listed i xs → Listed i (xs ++ ys)
Listed-append_left i [] ys h = absurd h
Listed-append_left i (x ∷ xs) ys (inl e) = inl e
Listed-append_left i (x ∷ xs) ys (inr h) = inr (Listed-append_left i xs ys h)

pub Listed-append_right : (i : ℕ) (xs ys : List ℕ) → Listed i ys → Listed i (xs ++ ys)
Listed-append_right i [] ys h = h
Listed-append_right i (x ∷ xs) ys h = inr (Listed-append_right i xs ys h)

Listed-append_cases : (i : ℕ) (xs ys : List ℕ) → Listed i (xs ++ ys) → Listed i xs ⊎ Listed i ys
Listed-append_cases i [] ys h = inr h
Listed-append_cases i (x ∷ xs) ys (inl e) = inl (inl e)
Listed-append_cases i (x ∷ xs) ys (inr h) = elim (Listed-append_cases i xs ys h) [
  | inl a ↦ inl (inr a)
  | inr b ↦ inr b
]

Listed-swap : (i : ℕ) (xs ys : List ℕ) → Listed i (xs ++ ys) → Listed i (ys ++ xs)
Listed-swap i xs ys h = elim (Listed-append_cases i xs ys h) [
  | inl a ↦ Listed-append_right i ys xs a
  | inr b ↦ Listed-append_left i ys xs b
]

pub Listed-ring : (i pos : ℕ) (ids : List ℕ) → Listed i ids ↔ Listed i (ring pos ids)
unfolding ring
Listed-ring i pos ids = elim (Bool-cases (leb (length ids) (pos + 1))) [
  | inl e ↦ rw e ((λ h. h), (λ h. h))
  | inr e ↦ rw e (
    (λ h.
        Listed-swap i (take (pos + 1) ids) (drop (pos + 1) ids)
          (subst (Listed i) (sym (take-append-drop (pos + 1) ids)) h)),
    (λ h.
        subst (Listed i) (take-append-drop (pos + 1) ids)
          (Listed-swap i (drop (pos + 1) ids) (take (pos + 1) ids) h)),
  )
]

-- The chosen id is a listed one with a usable item, and there is a choice if any listed id has one.
pub first_usable_sound :
    (items : HashTable Item) (ids : List ℕ) (i : ℕ)
    → first_usable items ids ≡ some i
    → Listed i ids × (usable (HashTable.get i items) ≡ true)
first_usable_sound items [] i h = cc
first_usable_sound items (j ∷ ids) i h = elim (Bool-cases (usable (HashTable.get j items))) [
  | inl e ↦ let same : j ≡ i = some_inj (rw e at h) in (inl (sym same), rw (← same) e)
  | inr e ↦ let (a, b) = first_usable_sound items ids i (rw e at h) in (inr a, b)
]
  where
    some_inj : {a b : ℕ} → ◌≡◌ {A = Option ℕ} (some a) (some b) → a ≡ b
    some_inj p = cc

pub first_usable_complete :
    (items : HashTable Item) (ids : List ℕ) (i : ℕ)
    → Listed i ids
    → usable (HashTable.get i items) ≡ true
    → (j : ℕ) × (first_usable items ids ≡ some j)
first_usable_complete items [] i h u = absurd h
first_usable_complete items (j ∷ ids) i h u = elim (Bool-cases (usable (HashTable.get j items))) [
  | inl e ↦ (j, rw e)
  | inr e ↦ elim h [
    | inl same ↦ absurd (false-true (sym e ∙ rw (← same) u))
    | inr later ↦ let (k, p) = first_usable_complete items ids i later u in (k, rw e p)
  ]
]
  where
    false-true : ◌≡◌ {A = Bool} false true → ⊥
    false-true p = cc
