-- ===== src/Varchar.antt =====
-- xframe/comserv/comtypedef_vchar.C: CVarChar8 to CVarChar256, strings with a length in one byte. They
-- differ in how many bytes they take, `limit`: 8, 16, 32, 64, 128 and 255. A string is the list of its
-- m_ucVarCharLen bytes, and the byte behind them is NULL.
pub mod Codec
use tsm_proxy.Prelude.{
  ℕ, zero, suc, ◌+◌, Bool, true, false, ◌&&◌, Option, none, some, List, [], ◌∷◌, ◌++◌, ◌==◌, ltb,
  leb, if◌then◌else◌, length, take, drop, set, get_or,
}
use tsm_proxy.Prelude.Int.{ℤ, pos, negsuc}
use tsm_proxy.Chars.{c_string, before, same}

-- What decode makes of a buffer: the string, where the pointer is then, and the result.
pub record Decoded : Type 0 where
  pub content : List ℕ
  pub rest : List ℕ
  pub result : ℕ

unfoldable pub size : List ℕ → ℕ
size v = 1 + length v

-- `encode` appends the length and the bytes.
unfoldable pub encode : List ℕ → List ℕ
encode v = length v ∷ v

-- The byte at the end is NULL; behind it 0 is answered.
unfoldable pub get_var_char_content : ℤ → List ℕ → ℕ
get_var_char_content (pos n) v = get_or v n 0
get_var_char_content (negsuc n) v = 0

unfoldable pub equal : List ℕ → List ℕ → Bool
unfolding same
equal v w = length v == length w && same v w

module _ (limit : ℕ) where
  -- With a buffer, or NULL, and a length; nothing changes where the length is 0.
  unfoldable pub set_var_char_content : Option (List ℕ) → ℕ → List ℕ → List ℕ
  set_var_char_content none len v = v
  set_var_char_content (some buf) len v =
      if ltb 0 len then take (if ltb limit len then limit else len) buf else v

  unfoldable pub set_text : Option (List ℕ) → List ℕ → List ℕ
  unfolding set_var_char_content before
  set_text none v = v
  set_text (some buf) v = set_var_char_content (some (c_string buf)) (length (c_string buf)) v

  -- A length above the limit makes the string empty, and the pointer stays behind the length. None
  -- where the buffer ends too early.
  unfoldable pub decode : List ℕ → Option Decoded
  unfolding size
  decode [] = none
  decode (n ∷ buf) =
      if ltb limit n
      then some (record { content = []; rest = buf; result = 0 })
      else if ltb (length buf) n
      then none
      else some (record { content = take n buf; rest = drop n buf; result = 1 + n })
