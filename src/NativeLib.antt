-- ===== src/NativeLib.antt =====
-- app/src/main/cpp/native-lib.cpp: the strings of the demo library, and its switch for the log. A Java
-- string is given by the bytes of GetStringUTFChars, without the zero behind them.
pub mod Strings
mod Tests
use my_toolbox.Base.{
  ℕ, ◌+◌, ◌-◌, ℤ, pos, negsuc, as_int, Option, none, some, List, [], ◌∷◌, ◌++◌, Bool, leb,
  if◌then◌else◌, Run, done, fault, ◌>>=◌, length, take, replicate, splice,
}
use my_toolbox.Log.{codes}
use my_toolbox.JavaArray.{store_at}
use my_toolbox.NativeResample.Strings.{strlen, terminated}

-- `g_ShowLog`, how many lines have been logged, and the strings of the JVM that are lent out.
pub record Process : Type 0 where
  pub show_log : Bool
  pub logged : ℕ
  pub lent : ℕ

-- LOGD and ALOGV: one line, if the switch is on.
unfoldable pub log_line : Process → Process
log_line p = record p { logged = if p.show_log then p.logged + 1 else p.logged }

-- LOGE: one line, whatever the switch.
unfoldable pub error_line : Process → Process
error_line p = record p { logged = p.logged + 1 }

-- stringFromJNI: a Java string, which the JVM may fail to make.
unfoldable pub string_from_jni : (granted : Bool) → Option (List ℕ)
string_from_jni granted = if granted then some (codes "Hello from C++") else none

-- main, with its result
unfoldable pub main : Process → ℤ × Process
main p = (pos 0, log_line p)

-- daemon_init, with its result
unfoldable pub daemon_init : (token : ℤ) → Process → ℤ × Process
daemon_init token p = (pos 0, error_line p)

unfoldable pub set_loggable : Bool → Process → Process
set_loggable is_loggable p = log_line (record p { show_log = is_loggable })

-- NewByteArray; a negative length makes it throw, and the call of SetByteArrayRegion behind it is
-- then made with an exception pending.
unfoldable pub new_byte_array : (len : ℤ) → Run (List ℕ)
new_byte_array (pos n) = done (replicate n 0)
new_byte_array (negsuc n) = fault

-- SetByteArrayRegion with the bytes behind a pointer; it fails if the region does not fit the array.
unfoldable pub set_region : (len : ℤ) → List ℕ → List ℕ → Run (List ℕ)
set_region (negsuc n) mem array = fault
set_region (pos len) mem array =
    if leb len (length mem)
    then (if leb len (length array) then done (splice 0 (take len mem) array) else fault)
    else fault

-- stringBytesFromJni: the array, and the process after it.
unfoldable pub string_bytes_from_jni : List ℕ → Process → Run (List ℕ × Process)
string_bytes_from_jni content p =
    let entered = log_line p in
    let borrowed = record entered { lent = entered.lent + 1 } in
    strlen (terminated content) >>= λ len.
    let told = log_line borrowed in
    new_byte_array (as_int len) >>= λ array.
    set_region (as_int len) (terminated content) array >>= λ bytes.
    done (bytes, record told { lent = told.lent - 1 })
