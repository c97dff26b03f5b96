-- ===== src/NativeLib/Tests.antt =====
-- A run of app/src/main/cpp/native-lib.cpp.
use my_toolbox.Base.{◌≡◌, [], ◌∷◌, true, false, done, arith}
use my_toolbox.NativeLib.{Process, set_loggable, string_bytes_from_jni}
use my_toolbox.NativeLib.Strings.{string_bytes_from_jni-set_loggable}

abbrev quiet : Process
quiet = record { show_log = false; logged = 4; lent = 1 }

string_bytes_from_jni-set_loggable_example :
    string_bytes_from_jni (104 ∷ 105 ∷ []) (set_loggable true quiet)
    ≡ done (104 ∷ 105 ∷ [], record { show_log = true; logged = 7; lent = 1 })
string_bytes_from_jni-set_loggable_example =
    string_bytes_from_jni-set_loggable (104 ∷ 105 ∷ []) true quiet (omega arith) (omega arith)
