-- ===== src/Examples/Strings.antt =====
-- The strings at concrete texts.
use mathlib.Core.Option
use tsm_proxy.Prelude.{◌≡◌, refl, some, List, [], ◌∷◌, ◌==◌, arith}
use tsm_proxy.Chars.{bytes, c_string}
use tsm_proxy.Chars.Laws.{avoids, avoids_sound}
use tsm_proxy.Cstr.{CStr, new, n_cat, room, resize, cut, cut_at, replace, from_text}
use tsm_proxy.Cstr
use tsm_proxy.Cstr.Valid.{from_text-IsValid}
use tsm_proxy.Cstr.Valid
use tsm_proxy.Cstr.Calls.{Call, run_calls, cats_text, uric_encodes, run_calls-IsValid}
use tsm_proxy.Cstr.Texts.{Replaced, replace-Replaced}
use tsm_proxy.Cstr.Codes.{uric_encode, uric_decode}
use tsm_proxy.Cstr.Codes.Uric.{uric_decode-encode}

abbrev greeting : CStr
greeting = record { buffer = bytes "a=b c"; capacity = 31 }

abbrev calls : List Call
calls = cats_text (bytes " and so on, and so on, and so on, and so on") ∷ uric_encodes ∷ []

abbrev grown : CStr
grown = record {
  buffer = bytes "a%3Db+c+and+so+on,+and+so+on,+and+so+on,+and+so+on";
  capacity = 63;
}

grown_run : run_calls calls greeting ≡ some grown
unfolding run_calls
grown_run = refl

run_calls-IsValid_example : Cstr.Valid.IsValid grown
run_calls-IsValid_example = run_calls-IsValid calls greeting grown (omega arith) grown_run

replace-Replaced_example :
    (d : CStr) × (replace (bytes "b") (bytes "xy") greeting ≡ some d)
    × Replaced (bytes "b") (bytes "xy") (c_string (bytes "a=b c")) d.buffer
unfolding avoids
replace-Replaced_example =
    replace-Replaced (bytes "b") (bytes "xy") greeting (omega arith)
      (avoids_sound (λ c. c == 0) (bytes "b") refl) (avoids_sound (λ c. c == 0) (bytes "xy") refl)

uric_decode-encode_example :
    Option.map (λ (t : CStr). t.buffer) (uric_decode (uric_encode greeting))
    ≡ some (c_string (bytes "a=b c"))
uric_decode-encode_example = uric_decode-encode greeting
