-- ===== src/Register/Direct.antt =====
-- CS_DIRECTREGISTER, for a user whose dialog holds the password.
use tsm_proxy.Prelude.{
  ℕ, ◌≡◌, refl, inl, inr, ◌⊎◌, Bool, true, false, ◌&&◌, not, Option, none, some, List, ◌∷◌,
  if◌then◌else◌, Bool-cases,
}
use tsm_proxy.Chars.{same}
use tsm_proxy.Register.{
  Reg, reg_succ, reg_query, unreg_succ, Contact, Credentials, RegDialog, Query, rows_of, Database,
  Registered, cs_auth, is_positive, reads_back,
}
use tsm_proxy.Register.Service.{answer_with, answer_back, direct, cs_direct_register}

module _ (db : Database) (now : ℕ) (md5 : List ℕ → List ℕ) (stack : List ℕ) where
  -- A new registration, which has another nonce, or the removal that the registered client asks for.
  abbrev pub changes : Option Contact → Credentials → RegDialog → Bool
  changes none c d = false
  changes (some k) c d =
      if is_positive k.expires then not (same c.nonce d.nonce) else same c.nonce d.nonce

  abbrev pub writes : Option Contact → Option Credentials → RegDialog → Bool
  writes k none d = false
  writes k (some c) d = cs_auth md5 stack d.password (some c) && changes k c d

  abbrev pub OnlyReads : List ℕ → RegDialog → List Query → Registered → Type 0
  OnlyReads num d log r = ((r.log ≡ log) ⊎ (r.log ≡ rows_of num ∷ log)) × (r.dialog ≡ d)

  answer_back-OnlyReads :
      (num : List ℕ) (k : Option Contact) (d : RegDialog) (result : Reg) (log : List Query)
      → OnlyReads num d log (answer_back db now md5 stack num k d (result, log))
  unfolding answer_back answer_with
  answer_back-OnlyReads num k d result log = elim (Bool-cases (reads_back result)) [
    | inl e ↦ rw e (inr refl, refl)
    | inr e ↦ rw e (inl refl, refl)
  ]

  direct-OnlyReads :
      (num : List ℕ) (k : Option Contact) (c : Credentials) (d : RegDialog) (log : List Query)
      → changes k c d ≡ false
      → OnlyReads num d log (direct db now md5 stack num k c d log)
  unfolding direct
  direct-OnlyReads num none c d log h = answer_back-OnlyReads num none d reg_query log
  direct-OnlyReads num (some k) c d log h = elim (Bool-cases (is_positive k.expires)) [
    | inl e ↦ elim (Bool-cases (same c.nonce d.nonce)) [
      | inl f ↦ rw (e, f) (answer_back-OnlyReads num (some k) d reg_succ log)
      | inr f ↦ absurd (clash (rw (e, f) at h))
    ]
    | inr e ↦ elim (Bool-cases (same c.nonce d.nonce)) [
      | inl f ↦ absurd (clash (rw (e, f) at h))
      | inr f ↦ rw (e, f) (answer_back-OnlyReads num (some k) d unreg_succ log)
    ]
  ]
    where
      clash : true ≡ false → ⊥
      clash q = cc

  -- A request that is not authenticated, that refreshes a registration, or that removes it with
  -- another nonce, changes neither the database nor the dialog.
  pub cs_direct_register-OnlyReads :
      (num : List ℕ) (k : Option Contact) (cred : Option Credentials) (d : RegDialog)
      (log : List Query)
      → writes k cred d ≡ false
      → OnlyReads num d log (cs_direct_register db now md5 stack num k cred d log)
  unfolding cs_direct_register
  cs_direct_register-OnlyReads num k none d log h = (inl refl, refl)
  cs_direct_register-OnlyReads num k (some c) d log h =
      elim (Bool-cases (cs_auth md5 stack d.password (some c))) [
        | inl e ↦ rw e (direct-OnlyReads num k c d log (rw e at h))
        | inr e ↦ rw e (inl refl, refl)
      ]
