-- ===== src/Register.antt =====
-- proxy/registertask/RegisterCS.C: CRegCallService, which registers the contacts of SIP users. The
-- database is a parameter: it is asked with the statements executed before, the last one first. MD5 of
-- OpenSSL is one too. SQL is not text here, but the statement that the text stands for.
pub mod Service
pub mod Digest
pub mod Access
pub mod Direct
use tsm_proxy.Prelude.{
  ℕ, zero, suc, ◌+◌, ◌-◌, ◌/◌, ◌%◌, Bool, true, false, ◌&&◌, not, Option, none, some, List, [], ◌∷◌,
  ◌++◌, ◌==◌, leb, ltb, if◌then◌else◌, length, take, ◌≤◌,
}
use tsm_proxy.Prelude.Int.{ℤ, pos, negsuc}
use tsm_proxy.Chars.{bytes, same, c_string, before}

-- REG
pub data Reg : Type 0 where
  not_exist not_reg need_auth reg_succ reg_fail reg_query auth_succ auth_fail : Reg
  over_load unreg_succ unreg_fail : Reg

-- REGACTION
pub data RegAction : Type 0 where
  query_reg add_new_reg refresh_reg del_reg : RegAction

-- SUSER
pub record User : Type 0 where
  pub user_no : List ℕ
  pub password : List ℕ
  pub authorization : ℕ

-- SSIPContact
pub record Contact : Type 0 where
  pub all_contacts : Bool
  pub host : List ℕ
  pub port : ℕ
  pub expires : ℤ
  pub nonce : List ℕ
  pub sourceid : ℕ
  pub transport : ℕ

-- The methods of the SIP stack that the digest names, and all others.
pub data MethodType : Type 0 where
  invite ack options bye cancel register subscribe publish message : MethodType
  other_method : MethodType

-- CSIPCredentials.
pub record Credentials : Type 0 where
  pub nonce : List ℕ
  pub qop : List ℕ
  pub nonce_count : List ℕ
  pub cnonce : List ℕ
  pub response : List ℕ
  pub uri : List ℕ
  pub msg_type : MethodType
  pub valid : Bool

-- CSIPRegDialogInfo, the fields that the service writes.
pub record RegDialog : Type 0 where
  pub username : List ℕ
  pub password : List ℕ
  pub nonce : List ℕ
  pub ip_addr : List ℕ
  pub regtime : ℕ
  pub port : ℕ
  pub is_auth : Bool
  pub transport : ℕ

-- The statements. A row is inserted with the contact and the time.
pub data Query : Type 0 where
  user_of rows_of delete_user : List ℕ → Query
  delete_contact : List ℕ → List ℕ → ℕ → Query
  insert_row : List ℕ → Contact → ℕ → Query
  update_row : List ℕ → List ℕ → ℕ → ℕ → Query
  touch_row : List ℕ → ℕ → Query

-- A row of user. A text that is empty would leave that of the row before it; no text is empty here.
pub record UserRow : Type 0 where
  pub password : List ℕ
  pub authorization : ℕ

-- A row of registeruser. `beyond` is what is read at the fifth of the four fields that CS_REGISTER
-- selects, since a comma is missing between the last two columns. The address is not empty.
pub record Row : Type 0 where
  pub ip_addr : List ℕ
  pub port : ℕ
  pub unregistertime : ℕ
  pub nonce : List ℕ
  pub beyond : ℕ

-- What the database does with a statement, after those of a list: success, and the rows.
pub record Database : Type 0 where
  pub exec : List Query → Query → Bool
  pub users : List Query → Query → List UserRow
  pub rows : List Query → Query → List Row

-- What is set of the contact of an SREGISTER, where a row was found.
pub record FoundContact : Type 0 where
  pub host : List ℕ
  pub port : ℕ
  pub expires : ℤ
  pub nonce : List ℕ
  pub transport : Option ℕ

-- SREGISTER
pub record RegisterResult : Type 0 where
  pub result : Reg
  pub contact : Option FoundContact

pub record Registered : Type 0 where
  pub answer : RegisterResult
  pub is_authorization : Bool
  pub dialog : RegDialog
  pub log : List Query

-- `CvtHex`
abbrev pub hex : ℕ → ℕ
hex j = if leb j 9 then j + 48 else j + 87

unfoldable pub cvt_hex : List ℕ → List ℕ
cvt_hex [] = []
cvt_hex (b ∷ bs) = hex (b / 16) ∷ hex (b % 16) ∷ cvt_hex bs

unfoldable pub method_name : MethodType → List ℕ
method_name invite = bytes "INVITE"
method_name ack = bytes "ACK"
method_name options = bytes "OPTIONS"
method_name bye = bytes "BYE"
method_name cancel = bytes "CANCEL"
method_name register = bytes "REGISTER"
method_name subscribe = bytes "SUBSCRIBE"
method_name publish = bytes "PUBLISH"
method_name message = bytes "MESSAGE"
method_name other_method = []

-- The bytes that the nonce count, the client's nonce and the quality of protection add.
abbrev pub quality : Credentials → List ℕ
quality c =
    if same c.qop (bytes "auth")
    then c.nonce_count ++ 58 ∷ (c.cnonce ++ 58 ∷ (c.qop ++ 58 ∷ []))
    else []

-- What the buffers of cs_Auth have room for: ucInputDigestA2 for the text that DigestCalcHA2 writes,
-- tmpDegistBuf for the text of the response with the 0 behind it. Nothing checks that; a longer text is
-- written past the end of the buffer, of which the functions below say nothing.
abbrev pub AuthFits : Credentials → Type 0
AuthFits c =
    (length (method_name c.msg_type) + 1 + length c.uri ≤ 257)
    × (32 + 1 + length c.nonce + 1 + length (quality c) + 32 + 1 ≤ 512)

module _ (md5 : List ℕ → List ℕ) where
  -- `GetDigest(text, length, 1)`
  unfoldable pub get_digest : List ℕ → List ℕ
  unfolding cvt_hex
  get_digest text = cvt_hex (md5 text)

  -- For a text that fits, as AuthFits says.
  unfoldable pub digest_calc_ha2 : Credentials → List ℕ
  unfolding get_digest method_name
  digest_calc_ha2 c = get_digest (method_name c.msg_type ++ 58 ∷ c.uri)

  -- The password counts as the 32 digits of H(A1); where it is shorter, the bytes of the buffer that
  -- follow it count too. For a text that fits, as AuthFits says.
  unfoldable pub auth_input : List ℕ → List ℕ → Credentials → List ℕ
  unfolding digest_calc_ha2 same
  auth_input stack password c =
      take 32 (password ++ stack)
      ++ 58 ∷ (c.nonce ++ 58 ∷ (quality c ++ take 32 (digest_calc_ha2 c)))

  unfoldable pub cs_auth : List ℕ → List ℕ → Option Credentials → Bool
  unfolding auth_input get_digest same
  cs_auth stack password none = false
  cs_auth stack password (some c) =
      same (take 32 (get_digest (auth_input stack password c))) (take 32 c.response)

-- The last of the rows counts. A CVarChar32 holds 32 bytes.
abbrev pub last_user : List ℕ → List UserRow → Option User
last_user num [] = none
last_user num (r ∷ rs) = elim (last_user num rs) [
  | none ↦ some (record {
    user_no = take 32 num;
    password = take 32 r.password;
    authorization = r.authorization;
  })
  | some u ↦ some u
]

abbrev pub some_rows : List Row → Bool
some_rows [] = false
some_rows (r ∷ rs) = true

abbrev pub has_nonce : List ℕ → List Row → Bool
has_nonce nonce [] = false
has_nonce nonce (r ∷ rs) = if same r.nonce nonce then true else has_nonce nonce rs

-- The results after which the registration is read back.
abbrev pub reads_back : Reg → Bool
reads_back reg_succ = true
reads_back reg_query = true
reads_back unreg_succ = true
reads_back _ = false

abbrev pub is_query : Reg → Bool
is_query reg_query = true
is_query _ = false

abbrev pub last_row : List Row → Option Row
last_row [] = none
last_row (r ∷ rs) = elim (last_row rs) [ none ↦ some r | some s ↦ some s ]

abbrev pub is_positive : ℤ → Bool
is_positive (pos (suc n)) = true
is_positive _ = false

abbrev pub action : Option Contact → RegAction
action none = query_reg
action (some c) = if is_positive c.expires then add_new_reg else del_reg

abbrev pub refused : Reg → Bool → RegDialog → List Query → Registered
refused result auth d log = record {
  answer = record { result = result; contact = none };
  is_authorization = auth;
  dialog = d;
  log = log;
}

module _ (db : Database) (now : ℕ) where
  unfoldable pub cs_query_user : List ℕ → List Query → Option User × List Query
  cs_query_user num log =
      let q = user_of num in
      (if db.exec log q then last_user num (db.users log q) else none, q ∷ log)

  unfoldable pub cs_reg_user : List ℕ → Option Contact → List Query → Reg × List Query
  cs_reg_user num none log = (reg_fail, log)
  cs_reg_user num (some c) log =
      let log1 = delete_user num ∷ log in
      let q = insert_row num c now in (if db.exec log1 q then reg_succ else reg_fail, q ∷ log1)

  unfoldable pub cs_refresh_user : List ℕ → Option Contact → List Query → Reg × List Query
  cs_refresh_user num none log = (reg_fail, log)
  cs_refresh_user num (some c) log =
      let q = update_row num c.host c.port now in
      (if db.exec log q then reg_succ else reg_fail, q ∷ log)

  unfoldable pub cs_un_reg_user : List ℕ → Option Contact → List Query → Reg × List Query
  cs_un_reg_user num none log = (reg_fail, log)
  cs_un_reg_user num (some c) log =
      if c.all_contacts
      then (if db.exec log (delete_user num) then unreg_succ else unreg_fail, delete_user num ∷ log)
      else (
        if db.exec log (delete_contact num c.host c.port) then unreg_succ else reg_fail,
        delete_contact num c.host c.port ∷ log,
      )

  unfoldable pub cs_update_dialog_to_db : RegDialog → List Query → Bool × List Query
  cs_update_dialog_to_db d log = let q = touch_row d.username now in (db.exec log q, q ∷ log)

  unfoldable pub cs_check_active_user : List ℕ → List Query → Bool × List Query
  cs_check_active_user num log =
      let q = rows_of num in (db.exec log q && some_rows (db.rows log q), q ∷ log)

  unfoldable pub cs_check_nonce : List ℕ → List ℕ → List Query → Bool × List Query
  unfolding same
  cs_check_nonce num nonce log =
      let q = rows_of num in (db.exec log q && has_nonce nonce (db.rows log q), q ∷ log)

  -- `unregistertime - time(0)`
  abbrev pub time_left : ℕ → ℤ
  time_left t = if leb now t then pos (t - now) else negsuc (now - t - 1)

  unfoldable pub row_contact : Reg → Option Contact → Option ℕ → Row → FoundContact
  row_contact result contact transport r = record {
    host = take 32 r.ip_addr;
    port = r.port;
    expires =
        if is_query result
        then time_left r.unregistertime
        else elim contact as (λ o. ℤ) [ none ↦ pos 0 | some c ↦ c.expires ];
    nonce = r.nonce;
    transport = transport;
  }

  -- The rows of a user, where the statement succeeds.
  unfoldable pub read_row : List ℕ → List Query → Option Row
  read_row num log =
      if db.exec log (rows_of num) then last_row (db.rows log (rows_of num)) else none
