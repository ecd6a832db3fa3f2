-- ===== src/Examples/Codecs.antt =====
-- Base64 and the limit on calls, at concrete values.
use tsm_proxy.Prelude.{◌-◌, ◌*◌, ◌/◌, ◌≤◌, ◌≡◌, refl, some, [], ◌∷◌, arith}
use tsm_proxy.Base64.{encode, decode}
use tsm_proxy.Base64.Roundtrip.{decode-encode}
use tsm_proxy.Overflow.{Overflow, Percents, new, check_overflow}
use tsm_proxy.Overflow.Limits.{let_in, let_in-limit}

-- "Man", "Ma" and "M" encode to "TWFu", "TWE=" and "TQ==".
encode_man : encode (77 ∷ 97 ∷ 110 ∷ []) ≡ 84 ∷ 87 ∷ 70 ∷ 117 ∷ []
unfolding encode
encode_man = refl

encode_m : encode (77 ∷ []) ≡ 84 ∷ 81 ∷ 61 ∷ 61 ∷ []
unfolding encode
encode_m = refl

decode-encode_example :
    decode (encode (77 ∷ 97 ∷ 110 ∷ 255 ∷ 0 ∷ [])) 5 ≡ some (77 ∷ 97 ∷ 110 ∷ 255 ∷ 0 ∷ [])
decode-encode_example =
    decode-encode (77 ∷ 97 ∷ 110 ∷ 255 ∷ 0 ∷ []) 5
      (omega arith, (omega arith, (omega arith, (omega arith, (omega arith, tt))))) (omega arith)

-- A limit of 10 calls a second, with the percentages of the source.
abbrev percents : Percents
percents = record {
  limition = λ n. n * 12 / 10;
  slowstart1 = λ n. n * 3 / 10;
  slowstart2 = λ n. n * 6 / 10;
}

abbrev start : Overflow
start = new percents 100 10

let_in-limit_example : let_in 20 100 (new percents 100 10) ≤ 12 - 1 - 0
unfolding new
let_in-limit_example = let_in-limit 20 100 (new percents 100 10) refl (omega arith)

-- The eleventh call of a second is let in by turns, and from the twelfth on none is.
let_in_20 : let_in 20 100 (new percents 100 10) ≡ 10
unfolding let_in check_overflow new
let_in_20 = refl
