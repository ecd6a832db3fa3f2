-- ===== src/Register/Access.antt =====
-- Who may change a registration.
use tsm_proxy.Prelude.{
  ℕ, ◌≡◌, refl, ◌∙◌, subst, inl, inr, Bool, true, false, ◌&&◌, Option, none, some, List, ◌∷◌, ◌==◌,
  if◌then◌else◌, Bool-cases,
}
use tsm_proxy.Chars.{same}
use tsm_proxy.Register.{
  Reg, not_exist, need_auth, auth_fail, reg_succ, reg_fail, add_new_reg, User, Contact, Credentials,
  RegDialog, Query, user_of, rows_of, delete_user, insert_row, Database, Row, Registered, cs_auth,
  cs_query_user, cs_reg_user, reads_back, read_row, action, is_positive,
}
use tsm_proxy.Register.Service.{with_row, read_back, act, authenticate, register_user, cs_register}

-- The results of a request that is turned away.
abbrev pub Denied : Reg → Type 0
Denied not_exist = Unit {0}
Denied need_auth = Unit {0}
Denied auth_fail = Unit {0}
Denied _ = ⊥

module _ (db : Database) (now : ℕ) (md5 : List ℕ → List ℕ) (stack : List ℕ) where
  abbrev pub proves : User → Option Credentials → Bool
  proves u none = false
  proves u (some c) = c.valid && cs_auth md5 stack u.password (some c)

  -- The user is known, and needs no authentication or has the credentials for it.
  abbrev pub admitted : Option User → Option Credentials → Bool
  admitted none cred = false
  admitted (some u) cred = if u.authorization == 0 then true else proves u cred

  abbrev pub TurnedAway : RegDialog → List Query → Registered → Type 0
  TurnedAway d log r =
      (r.log ≡ log) × (r.dialog ≡ d) × (r.answer.contact ≡ none) × Denied r.answer.result

  authenticate-TurnedAway :
      (u : User) (num : List ℕ) (contact : Option Contact) (cred : Option Credentials)
      (d : RegDialog) (log : List Query)
      → proves u cred ≡ false
      → TurnedAway d log (authenticate db now md5 stack u num contact cred d log)
  unfolding authenticate
  authenticate-TurnedAway u num contact none d log h = (refl, refl, refl, tt)
  authenticate-TurnedAway u num contact (some c) d log h = elim (Bool-cases c.valid) [
    | inr e ↦ rw e (refl, refl, refl, tt)
    | inl e ↦ rw (e, (rw e at h)) (refl, refl, refl, tt)
  ]

  -- A request that is not admitted is turned away: the database is only asked for the user, and the
  -- dialog stays as it was.
  pub cs_register-TurnedAway :
      (num : List ℕ) (contact : Option Contact) (cred : Option Credentials) (d : RegDialog)
      (log : List Query)
      → admitted (cs_query_user db now num log).0 cred ≡ false
      → TurnedAway d (user_of num ∷ log) (cs_register db now md5 stack num contact cred d log)
  unfolding cs_register cs_query_user register_user
  cs_register-TurnedAway num contact cred d log h = each (cs_query_user db now num log).0 h
    where
      each :
          (u : Option User)
          → admitted u cred ≡ false
          → TurnedAway d
              (user_of num ∷ log)
              (register_user db now md5 stack u num contact cred d (user_of num ∷ log))
      each none h = (refl, refl, refl, tt)
      each (some u) h = elim (Bool-cases (u.authorization == 0)) [
        | inl e ↦ absurd (clash (rw e at h))
        | inr e ↦
            rw e (authenticate-TurnedAway u num contact cred d (user_of num ∷ log) (rw e at h))
      ]
        where
          clash : true ≡ false → ⊥
          clash q = cc

  -- What a request that is admitted comes to: the result and the statements of its action, and the row
  -- read back where the result tells so.
  abbrev pub Carried : List ℕ → Reg × List Query → Registered → Type 0
  Carried num (result, log) r =
      (r.answer.result ≡ result) × (r.log ≡ (if reads_back result then rows_of num ∷ log else log))

  read_back-Carried :
      (num : List ℕ) (contact : Option Contact) (auth : Bool) (d : RegDialog)
      (did : Reg × List Query)
      → Carried num did (read_back db now num contact auth d did)
        × ((read_back db now num contact auth d did).dialog.is_auth ≡ d.is_auth)
  unfolding read_back with_row
  read_back-Carried num contact auth d (result, log) = elim (Bool-cases (reads_back result)) [
    | inr e ↦ rw e ((refl, refl), refl)
    | inl e ↦ rw e (each (read_row db now num log))
  ]
    where
      each :
          (o : Option Row)
          → (((with_row db now num contact auth d result (rows_of num ∷ log) o).answer.result
                ≡ result)
              × ((with_row db now num contact auth d result (rows_of num ∷ log) o).log
                  ≡ rows_of num ∷ log))
            × ((with_row db now num contact auth d result (rows_of num ∷ log) o).dialog.is_auth
                ≡ d.is_auth)
      each none = ((refl, refl), refl)
      each (some r) = ((refl, refl), refl)

  register_user-Carried :
      (o : Option User) (num : List ℕ) (contact : Option Contact) (cred : Option Credentials)
      (d : RegDialog) (log : List Query)
      → admitted o cred ≡ true
      → Carried num
          (act db now (action contact) num contact log)
          (register_user db now md5 stack o num contact cred d log)
        × ((register_user db now md5 stack o num contact cred d log).dialog.is_auth ≡ true)
  unfolding register_user authenticate
  register_user-Carried none num contact cred d log h = cc
  register_user-Carried (some u) num contact cred d log h =
      elim (Bool-cases (u.authorization == 0)) [
        | inl e ↦ rw e (
            read_back-Carried num contact false (record d { is_auth = true })
              (act db now (action contact) num contact log))
        | inr e ↦ rw e (each cred (rw e at h))
      ]
    where
      each :
          (cred : Option Credentials)
          → proves u cred ≡ true
          → Carried num
              (act db now (action contact) num contact log)
              (authenticate db now md5 stack u num contact cred d log)
            × ((authenticate db now md5 stack u num contact cred d log).dialog.is_auth ≡ true)
      each none h = cc
      each (some c) h = elim (Bool-cases c.valid) [
        | inr v ↦ absurd (clash (rw v at h))
        | inl v ↦
            rw (v, (rw v at h))
              (read_back-Carried num contact true
                (record d { username = u.user_no; password = u.password; is_auth = true })
                (act db now (action contact) num contact log))
      ]
        where
          clash : false ≡ true → ⊥
          clash q = cc

  -- An admitted request to register deletes the rows of the user, inserts one with the contact, and
  -- answers REGSUCC exactly where the insertion succeeds; then it reads the row back.
  pub cs_register-insert :
      (num : List ℕ) (c : Contact) (cred : Option Credentials) (d : RegDialog) (log : List Query)
      → admitted (cs_query_user db now num log).0 cred ≡ true
      → is_positive c.expires ≡ true
      → let r = cs_register db now md5 stack num (some c) cred d log in
        let deleted = delete_user num ∷ user_of num ∷ log in
        let q = insert_row num c now in
        let done = db.exec deleted q in
        (r.answer.result ≡ (if done then reg_succ else reg_fail))
        × (r.log ≡ (if done then rows_of num ∷ q ∷ deleted else q ∷ deleted))
        × (r.dialog.is_auth ≡ true)
  unfolding cs_register cs_query_user act cs_reg_user
  cs_register-insert num c cred d log h e =
      let deleted = delete_user num ∷ user_of num ∷ log in
      let ((same, logged), auth) =
        register_user-Carried (cs_query_user db now num log).0 num (some c) cred d
          (user_of num ∷ log) h in
      let chosen : action (some c) ≡ add_new_reg = rw e refl in
      let carried : Carried num (cs_reg_user db now num (some c) (user_of num ∷ log))
          (cs_register db now md5 stack num (some c) cred d log) =
        subst
          (λ a.
            Carried num (act db now a num (some c) (user_of num ∷ log))
              (cs_register db now md5 stack num (some c) cred d log))
          chosen (same, logged) in
      elim (Bool-cases (db.exec deleted (insert_row num c now))) [
        | inl g ↦ rw g (carried.0 ∙ rw g refl, carried.1 ∙ rw g refl, auth)
        | inr g ↦ rw g (carried.0 ∙ rw g refl, carried.1 ∙ rw g refl, auth)
      ]
