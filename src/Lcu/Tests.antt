-- ===== src/Lcu/Tests.antt =====
-- On toolbox/src/main/cpp/lcu/mem/strings.h: its macros at concrete strings.
use my_toolbox.Base.{◌≡◌, true, [], ◌∷◌, arith, done}
use my_toolbox.Lcu.Strings.{
  Ctype, IsLawful, upper, lower, string2upper, string2lower, string_transform-cased,
}

abbrev c_locale : Ctype
c_locale = record { toupper = upper; tolower = lower }

c_locale-IsLawful : IsLawful c_locale
c_locale-IsLawful = record {
  toupper_letter = λ c low high. ground arith;
  toupper_low = λ c h. ground arith;
  toupper_high = λ c h small. ground arith;
  tolower_letter = λ c low high. ground arith;
  tolower_low = λ c h. ground arith;
  tolower_high = λ c h small. ground arith;
}

-- "hZ9", and a byte behind the zero.
string_transform-cased_example :
    (string2upper true c_locale (104 ∷ 90 ∷ 57 ∷ 0 ∷ 97 ∷ []) ≡ done (72 ∷ 90 ∷ 57 ∷ 0 ∷ 97 ∷ []))
    × (string2lower true c_locale (104 ∷ 90 ∷ 57 ∷ 0 ∷ 97 ∷ [])
        ≡ done (104 ∷ 122 ∷ 57 ∷ 0 ∷ 97 ∷ []))
string_transform-cased_example =
    string_transform-cased c_locale c_locale-IsLawful true (104 ∷ 90 ∷ 57 ∷ []) (97 ∷ [])
      ((omega arith, omega arith, (omega arith, omega arith, (omega arith, omega arith, tt))))
