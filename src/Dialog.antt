-- ===== src/Dialog.antt =====
-- proxy/psasip/sipdialogmng.C and proxy/psasip/sipdialogmng.h: CSIPPsaDialog, the table of the dialogs
-- of the SIP adapter. A dialog has an id on each side; mDialogMap_F holds it under the one, and
-- mDialogMap_B holds the one under the other. An id is the number of a string.
pub mod Sides
pub mod Refresh
use tsm_proxy.Prelude.{ℕ, Bool, true, false, ◌&&◌, not, Option, none, some, ◌==◌, if◌then◌else◌}
use tsm_proxy.ExpireBuffer.{ExpireBuffer, is_some, set_value}
use tsm_proxy.ExpireBuffer

-- CSIPPsaDialogInfo; an address is a number here.
pub record DialogInfo : Type 0 where
  pub dialog_id_f : ℕ
  pub dialog_id_b : ℕ
  pub addr : ℕ

pub record Dialogs : Type 0 where
  pub map_f : ExpireBuffer DialogInfo
  pub map_b : ExpireBuffer ℕ

-- The constructor, which hands the living time to setDestroyPolicy and the policy to setLivingTime.
unfoldable pub new : (max_count : ℕ) (destroy_old : Bool) (living_time : ℕ) → Dialogs
new max_count destroy_old living_time = record {
  map_f = ExpireBuffer.new max_count (not (living_time == 0)) (if destroy_old then 1 else 0);
  map_b = ExpireBuffer.new max_count (not (living_time == 0)) (if destroy_old then 1 else 0);
}

-- The id on the first side, of either id.
unfoldable pub first_id : ℕ → Option ℕ → ℕ
first_id id none = id
first_id id (some did) = did

unfoldable pub query : ℕ → Dialogs → Option DialogInfo
unfolding first_id
query id d = ExpireBuffer.find (first_id id (ExpireBuffer.find id d.map_b)) d.map_f

unfoldable pub exist : ℕ → Dialogs → Bool
exist id d =
    if is_some (ExpireBuffer.find id d.map_b) then true else is_some (ExpireBuffer.find id d.map_f)

unfoldable pub insert : (now id_f id_b addr : ℕ) → Dialogs → Dialogs × Bool
insert now id_f id_b addr d =
    let (f, error1) =
      ExpireBuffer.push now id_f (record { dialog_id_f = id_f; dialog_id_b = id_b; addr = addr })
        d.map_f in
    let (b, error2) = ExpireBuffer.push now id_b id_f d.map_b in
    (record { map_f = f; map_b = b }, not (error1 == 0) && not (error2 == 0))

-- What remove does with what `mDialogMap_F.pop(dialogid, dialoginfo)` gave, and behind that with what
-- `mDialogMap_B.pop(dialogid, did)` gave.
unfoldable pub remove_back : ExpireBuffer DialogInfo → ExpireBuffer ℕ × Option ℕ → Dialogs
remove_back f (b, none) = record { map_f = f; map_b = b }
remove_back f (b, some did) = record { map_f = (ExpireBuffer.pop did f).0; map_b = b }

unfoldable pub remove_front :
    ℕ → ExpireBuffer DialogInfo × Option DialogInfo → ExpireBuffer ℕ → Dialogs
unfolding remove_back
remove_front id (f, some info) b = record {
  map_f = f;
  map_b = (ExpireBuffer.pop info.dialog_id_b b).0;
}
remove_front id (f, none) b = remove_back f (ExpireBuffer.pop id b)

unfoldable pub remove : ℕ → Dialogs → Dialogs
unfolding remove_front
remove id d = remove_front id (ExpireBuffer.pop id d.map_f) d.map_b

abbrev set_addr : ℕ → ExpireBuffer DialogInfo → ℕ → ExpireBuffer DialogInfo
set_addr id f addr = record f {
  entries = set_value id (λ info. record info { addr = addr }) f.entries;
}

unfoldable pub update_addr : (id addr : ℕ) → Dialogs → Dialogs × Bool
unfolding first_id
update_addr id addr d =
    if is_some (ExpireBuffer.find id d.map_f)
    then (record d { map_f = set_addr id d.map_f addr }, true)
    else if is_some (ExpireBuffer.find id d.map_b)
    then (
      record d { map_f = set_addr (first_id id (ExpireBuffer.find id d.map_b)) d.map_f addr },
      true,
    )
    else (d, false)

unfoldable pub update_expire : (now id currenttime : ℕ) → Dialogs → Dialogs × Bool
update_expire now id currenttime d = elim (ExpireBuffer.find id d.map_f) [
  | some info ↦ (
    record {
      map_f = (ExpireBuffer.update now id currenttime d.map_f).0;
      map_b = (ExpireBuffer.update now info.dialog_id_b currenttime d.map_b).0;
    },
    true,
  )
  | none ↦ elim (ExpireBuffer.find id d.map_b) [
    | some did ↦ (
      record {
        map_f = (ExpireBuffer.update now did currenttime d.map_f).0;
        map_b = (ExpireBuffer.update now id currenttime d.map_b).0;
      },
      true,
    )
    | none ↦ (d, false)
  ]
]

unfoldable pub size : Dialogs → ℕ
size d = d.map_f.count

unfoldable pub clean_expire : (now currenttime : ℕ) → Dialogs → Dialogs × ℕ
clean_expire now currenttime d =
    let (b, n) = ExpireBuffer.pop_old now currenttime d.map_b in
    let (f, m) = ExpireBuffer.pop_old now currenttime d.map_f in
    (record { map_f = f; map_b = b }, m)
