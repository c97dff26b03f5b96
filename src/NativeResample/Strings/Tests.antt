-- ===== src/NativeResample/Strings/Tests.antt =====
-- Runs of the string helpers of app/src/main/cpp/native-resample.cpp.
use my_toolbox.Base.{
  ℕ, ◌≡◌, refl, Option, some, List, [], ◌∷◌, true, done, ◌>>=◌, replicate, length-replicate, arith,
}
use my_toolbox.JavaArray.{store_at}
use my_toolbox.NativeResample.Strings.{
  strlen, strcpy, on_block, char_cat, jstring2char, to_chars, read_jchars,
  malloc_char_from_char_arr, new_char_arr_from_char_len, new_char_arr_from_char,
}
use my_toolbox.NativeResample.Strings.Copies.{Grants, char_cat-terminated}

-- Blocks of old bytes.
abbrev dirty : ℕ → Option (List ℕ)
dirty n = some (replicate n 170)

jstring2char-hi : jstring2char dirty (104 ∷ 105 ∷ []) ≡ done (104 ∷ 105 ∷ 0 ∷ [])
unfolding jstring2char strcpy strlen on_block store_at
jstring2char-hi = refl

-- A character above 255 loses its high byte, and a signed char gives it another one.
char_arr-lossy :
    (malloc_char_from_char_arr dirty (some (1279 ∷ [])) >>= λ rets.
    new_char_arr_from_char true rets)
    ≡ done (some (65535 ∷ []))
unfolding malloc_char_from_char_arr to_chars on_block store_at new_char_arr_from_char
    new_char_arr_from_char_len read_jchars strlen
char_arr-lossy = refl

dirty-Grants : Grants dirty
dirty-Grants n = (replicate n 170, refl, length-replicate n 170)

char_cat-terminated_example :
    (jstring2char dirty (104 ∷ []) ≡ done (104 ∷ 0 ∷ []))
    × (char_cat dirty (104 ∷ []) (105 ∷ 0 ∷ []) ≡ done (104 ∷ 105 ∷ 0 ∷ []))
char_cat-terminated_example =
    char_cat-terminated dirty dirty-Grants (104 ∷ []) (105 ∷ []) (omega arith, tt) (omega arith, tt)
