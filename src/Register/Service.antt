-- ===== src/Register/Service.antt =====
-- CS_REGISTER and CS_DIRECTREGISTER.
use tsm_proxy.Prelude.{
  ℕ, ◌==◌, Bool, true, false, not, Option, none, some, List, ◌∷◌, if◌then◌else◌, take,
}
use tsm_proxy.Chars.{same}
use tsm_proxy.Register.{
  Reg, not_exist, need_auth, auth_fail, reg_succ, reg_query, unreg_succ, RegAction, query_reg,
  add_new_reg, refresh_reg, del_reg, User, Contact, FoundContact, Credentials, RegDialog, Query,
  rows_of, Row, Database, Registered, cs_auth, cs_query_user, cs_reg_user, cs_un_reg_user,
  reads_back, read_row, row_contact, action, refused, is_positive,
}

module _ (db : Database) (now : ℕ) where
  -- CS_REGISTER reads the row back into the answer and the dialog.
  unfoldable pub with_row :
      List ℕ → Option Contact → Bool → RegDialog → Reg → List Query → Option Row → Registered
  unfolding row_contact
  with_row num contact auth d result log none = record {
    answer = record { result = result; contact = none };
    is_authorization = auth;
    dialog = d;
    log = log;
  }
  with_row num contact auth d result log (some r) = record {
    answer = record {
      result = result;
      contact = some (row_contact db now result contact (some r.beyond) r);
    };
    is_authorization = auth;
    dialog = record d {
      ip_addr = take 32 r.ip_addr;
      port = r.port;
      nonce = r.nonce;
      transport = r.beyond;
    };
    log = log;
  }

  unfoldable pub read_back :
      List ℕ → Option Contact → Bool → RegDialog → Reg × List Query → Registered
  unfolding with_row read_row
  read_back num contact auth d (result, log) =
      if reads_back result
      then with_row num contact auth d result (rows_of num ∷ log) (read_row db now num log)
      else with_row num contact auth d result log none

  -- The `switch`. CS_REGISTER sets no REFREASHREG.
  unfoldable pub act : RegAction → List ℕ → Option Contact → List Query → Reg × List Query
  unfolding cs_reg_user cs_un_reg_user
  act query_reg num contact log = (reg_query, log)
  act add_new_reg num contact log = cs_reg_user db now num contact log
  act refresh_reg num contact log = (reg_succ, log)
  act del_reg num contact log = cs_un_reg_user db now num contact log

  module _ (md5 : List ℕ → List ℕ) (stack : List ℕ) where
    -- A user that needs it is authenticated, with the password of the database.
    unfoldable pub authenticate :
        User → List ℕ → Option Contact → Option Credentials → RegDialog → List Query → Registered
    unfolding cs_auth read_back act
    authenticate u num contact none d log = refused need_auth true d log
    authenticate u num contact (some c) d log =
        if not c.valid
        then refused need_auth true d log
        else if not (cs_auth md5 stack u.password (some c))
        then refused auth_fail true d log
        else read_back num contact true
            (record d { username = u.user_no; password = u.password; is_auth = true })
            (act (action contact) num contact log)

    unfoldable pub register_user :
        Option User
        → List ℕ
        → Option Contact
        → Option Credentials
        → RegDialog
        → List Query
        → Registered
    unfolding authenticate read_back act
    register_user none num contact cred d log = refused not_exist false d log
    register_user (some u) num contact cred d log =
        if u.authorization == 0
        then read_back num contact false (record d { is_auth = true })
            (act (action contact) num contact log)
        else authenticate u num contact cred d log

    unfoldable pub cs_register :
        List ℕ → Option Contact → Option Credentials → RegDialog → List Query → Registered
    unfolding cs_query_user register_user
    cs_register num contact cred d log =
        let (u, log1) = cs_query_user db now num log in register_user u num contact cred d log1

    -- CS_DIRECTREGISTER reads the row back into the answer alone, and not the transport.
    unfoldable pub answer_with :
        Option Contact → RegDialog → Reg → List Query → Option Row → Registered
    unfolding row_contact
    answer_with contact d result log row = record {
      answer = record {
        result = result;
        contact = elim row as (λ o. Option FoundContact) [
          | none ↦ none
          | some r ↦ some (row_contact db now result contact none r)
        ];
      };
      is_authorization = d.is_auth;
      dialog = d;
      log = log;
    }

    unfoldable pub answer_back : List ℕ → Option Contact → RegDialog → Reg × List Query → Registered
    unfolding answer_with read_row
    answer_back num contact d (result, log) =
        if reads_back result
        then answer_with contact d result (rows_of num ∷ log) (read_row db now num log)
        else answer_with contact d result log none

    -- Behind the authentication: a request with the nonce of the dialog is of the registered client.
    unfoldable pub direct :
        List ℕ → Option Contact → Credentials → RegDialog → List Query → Registered
    unfolding answer_back cs_reg_user cs_un_reg_user same
    direct num none c d log = answer_back num none d (reg_query, log)
    direct num (some contact) c d log =
        if is_positive contact.expires
        then (if same c.nonce d.nonce
            then answer_back num (some contact) d (reg_succ, log)
            else answer_back num (some contact) (record d { nonce = c.nonce; regtime = now })
                (cs_reg_user db now num (some contact) log))
        else if same c.nonce d.nonce
        then answer_back num (some contact) d (cs_un_reg_user db now num (some contact) log)
        else answer_back num (some contact) d (unreg_succ, log)

    unfoldable pub cs_direct_register :
        List ℕ → Option Contact → Option Credentials → RegDialog → List Query → Registered
    unfolding cs_auth direct
    cs_direct_register num contact none d log = refused auth_fail d.is_auth d log
    cs_direct_register num contact (some c) d log =
        if cs_auth md5 stack d.password (some c)
        then direct num contact c d log
        else refused auth_fail d.is_auth d log
