-- ===== src/Chars/Laws.antt =====
-- Laws of the searches in strings.
use tsm_proxy.Prelude.{
  ℕ, ◌≤◌, ◌≡◌, refl, ap, ◌∙◌, sym, inl, inr, Bool, true, false, List, [], ◌∷◌, ◌++◌, arith,
  if◌then◌else◌, length, Bool-cases,
}
use tsm_proxy.Chars.{before, since}

-- No character passes the test.
abbrev pub Avoids : (ℕ → Bool) → List ℕ → Type 0
Avoids stop [] = Unit {0}
Avoids stop (c ∷ cs) = (stop c ≡ false) × Avoids stop cs

pub before-append-since : (stop : ℕ → Bool) (s : List ℕ) → before stop s ++ since stop s ≡ s
unfolding before since
before-append-since stop [] = refl
before-append-since stop (c ∷ cs) = elim (Bool-cases (stop c)) [
  | inl e ↦ rw e refl
  | inr e ↦ rw (e, before-append-since stop cs) refl
]

pub before-Avoids : (stop : ℕ → Bool) (s : List ℕ) → Avoids stop (before stop s)
unfolding before
before-Avoids stop [] = tt
before-Avoids stop (c ∷ cs) = elim (Bool-cases (stop c)) [
  | inl e ↦ rw e tt
  | inr e ↦ rw e (e, before-Avoids stop cs)
]

pub length-since : (stop : ℕ → Bool) (s : List ℕ) → length (since stop s) ≤ length s
unfolding since
length-since stop [] = omega arith
length-since stop (c ∷ cs) = elim (Bool-cases (stop c)) [
  | inl e ↦ rw e (omega arith)
  | inr e ↦ rw e (omega (arith, length-since stop cs))
]

-- The rest begins with a character that passes the test.
pub since-cons :
    (stop : ℕ → Bool) (s : List ℕ) (c : ℕ) (cs : List ℕ) → since stop s ≡ c ∷ cs → stop c ≡ true
unfolding since
since-cons stop [] c cs h = cc
since-cons stop (x ∷ xs) c cs h = elim (Bool-cases (stop x)) [
  | inl e ↦ let first : x ≡ c = cc (rw e at h) in sym (ap stop first) ∙ e
  | inr e ↦ since-cons stop xs c cs (rw e at h)
]

module _ (stop : ℕ → Bool) (c : ℕ) (h : stop c ≡ true) where
  pub before-append : (w r : List ℕ) → Avoids stop w → before stop (w ++ c ∷ r) ≡ w
  unfolding before
  before-append [] r n = rw h refl
  before-append (x ∷ w) r n = rw (n.0, before-append w r n.1) refl

  pub since-append : (w r : List ℕ) → Avoids stop w → since stop (w ++ c ∷ r) ≡ c ∷ r
  unfolding since
  since-append [] r n = rw h refl
  since-append (x ∷ w) r n = rw (n.0, since-append w r n.1) refl

-- Where no character passes, all of the string is before.
pub before_all : (stop : ℕ → Bool) (s : List ℕ) → Avoids stop s → before stop s ≡ s
unfolding before
before_all stop [] n = refl
before_all stop (c ∷ cs) n = rw (n.0, before_all stop cs n.1) refl

pub since_all : (stop : ℕ → Bool) (s : List ℕ) → Avoids stop s → since stop s ≡ []
unfolding since
since_all stop [] n = refl
since_all stop (c ∷ cs) n = rw (n.0, since_all stop cs n.1) refl

unfoldable pub avoids : (ℕ → Bool) → List ℕ → Bool
avoids stop [] = true
avoids stop (c ∷ cs) = if stop c then false else avoids stop cs

pub avoids_sound : (stop : ℕ → Bool) (s : List ℕ) → avoids stop s ≡ true → Avoids stop s
unfolding avoids
avoids_sound stop [] h = tt
avoids_sound stop (c ∷ cs) h = elim (Bool-cases (stop c)) [
  | inl e ↦ absurd (clash (rw e at h))
  | inr e ↦ (e, avoids_sound stop cs (rw e at h))
]
  where
    clash : false ≡ true → ⊥
    clash q = cc
