-- ===== src/Examples/Registers.antt =====
-- The registration service, with a database that holds one user and with a function in place of MD5.
use tsm_proxy.Prelude.{
  ℕ, ◌≡◌, refl, ◌↔◌, true, false, none, some, List, [], ◌∷◌, replicate, take, length, arith,
}
use tsm_proxy.Prelude.Int.{pos}
use tsm_proxy.Chars.{bytes, same}
use tsm_proxy.Register.{
  register, Contact, Credentials, RegDialog, user_of, rows_of, delete_user, insert_row, Database,
  reg_succ, cs_auth, cs_query_user, cvt_hex, AuthFits, method_name,
}
use tsm_proxy.Register.Service.{cs_register, cs_direct_register}
use tsm_proxy.Register.Access.{admitted, TurnedAway, cs_register-TurnedAway, cs_register-insert}
use tsm_proxy.Register.Direct.{writes, OnlyReads, cs_direct_register-OnlyReads}
use tsm_proxy.Register.Digest.{rfc_response, cs_auth-rfc_response}

abbrev digest : List ℕ → List ℕ
digest t = replicate 16 7

length-digest : (t : List ℕ) → length (digest t) ≡ 16
length-digest t = refl

abbrev password : List ℕ
password = replicate 32 97

-- Every statement succeeds, and every user is there; the number tells whether they authenticate.
abbrev database : ℕ → Database
database authorization = record {
  exec = λ log q. true;
  users = λ log q. record { password = password; authorization = authorization } ∷ [];
  rows = λ log q. [];
}

abbrev credentials : Credentials
credentials = record {
  nonce = bytes "n1";
  qop = bytes "auth";
  nonce_count = bytes "1";
  cnonce = bytes "c";
  response = bytes "wrong";
  uri = bytes "sip:a";
  msg_type = register;
  valid = true;
}

abbrev contact : Contact
contact = record {
  all_contacts = false;
  host = bytes "10.0.0.1";
  port = 5060;
  expires = pos 60;
  nonce = bytes "n1";
  sourceid = 1;
  transport = 0;
}

abbrev dialog : RegDialog
dialog = record {
  username = [];
  password = password;
  nonce = bytes "n1";
  ip_addr = [];
  regtime = 0;
  port = 0;
  is_auth = true;
  transport = 0;
}

wrong_response :
    admitted
      (database 1)
      9
      digest
      []
      (cs_query_user (database 1) 9 (bytes "alice") []).0
      (some credentials)
    ≡ false
unfolding cs_query_user cs_auth
wrong_response = refl

cs_register-TurnedAway_example :
    TurnedAway (database 1) 9 digest [] dialog (user_of (bytes "alice") ∷ []) (
      cs_register
        (database 1)
        9
        digest
        []
        (bytes "alice")
        (some contact)
        (some credentials)
        dialog
        [])
cs_register-TurnedAway_example =
    cs_register-TurnedAway (database 1) 9 digest [] (bytes "alice") (some contact)
      (some credentials) dialog [] wrong_response

free_user :
    admitted (database 0) 9 digest [] (cs_query_user (database 0) 9 (bytes "bob") []).0 none ≡ true
unfolding cs_query_user
free_user = refl

cs_register-insert_example :
    let r = cs_register (database 0) 9 digest [] (bytes "bob") (some contact) none dialog [] in
    (r.answer.result ≡ reg_succ)
    × (r.log
        ≡ rows_of (bytes "bob")
          ∷ insert_row (bytes "bob") contact 9
          ∷ delete_user (bytes "bob")
          ∷ user_of (bytes "bob")
          ∷ [])
    × (r.dialog.is_auth ≡ true)
cs_register-insert_example =
    cs_register-insert (database 0) 9 digest [] (bytes "bob") contact none dialog [] free_user refl

-- A refresh with the right response.
abbrev answered : Credentials
answered = record credentials { response = rfc_response digest password credentials }

no_change : writes (database 0) 9 digest [] (some contact) (some answered) dialog ≡ false
unfolding cs_auth cvt_hex
no_change = refl

cs_direct_register-OnlyReads_example : OnlyReads (database 0) 9 digest [] (bytes "bob") dialog [] (
    cs_direct_register
      (database 0)
      9
      digest
      []
      (bytes "bob")
      (some contact)
      (some answered)
      dialog
      [])
cs_direct_register-OnlyReads_example =
    cs_direct_register-OnlyReads (database 0) 9 digest [] (bytes "bob") (some contact)
      (some answered) dialog [] no_change

answered_fits : AuthFits answered
unfolding method_name same
answered_fits = (omega arith, omega arith)

cs_auth-rfc_response_example :
    (cs_auth digest [] password (some answered) ≡ true)
    ↔ (take 32 answered.response ≡ rfc_response digest password answered)
cs_auth-rfc_response_example =
    cs_auth-rfc_response digest length-digest [] password refl answered answered_fits
