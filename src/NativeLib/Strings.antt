-- ===== src/NativeLib/Strings.antt =====
-- What Java gets of a string from app/src/main/cpp/native-lib.cpp.
use my_toolbox.Base.{
  ℕ, ◌+◌, ◌^◌, ◌≡◌, ap, ◌≤◌, ◌<◌, pos, as_int_small, List, [], ◌∷◌, append-nil, Bool, true, false,
  if◌then◌else◌, done, length, length-append, length-replicate, take-length-append, replicate,
  le→leb, arith,
}
use my_toolbox.NativeResample.Strings.{terminated}
use my_toolbox.NativeResample.Strings.Copies.{IsText, strlen-text, drop_all}
use my_toolbox.NativeLib.{
  Process, log_line, set_loggable, new_byte_array, set_region, string_bytes_from_jni,
}

set_region-whole :
    (bytes : List ℕ)
    → set_region (pos (length bytes)) (terminated bytes) (replicate (length bytes) 0) ≡ done bytes
unfolding set_region
set_region-whole bytes =
    let zeros : List ℕ = replicate (length bytes) 0 in
    let size : length zeros ≡ length bytes = length-replicate (length bytes) 0 in
    let big : length bytes ≤ length (terminated bytes) =
      omega (arith, length-append bytes (0 ∷ [])) in
    let fits : length bytes ≤ length zeros = omega (arith, size) in
    rw (le→leb _ _ big, le→leb _ _ fits, take-length-append bytes (0 ∷ []))
      (ap done (rw (drop_all (0 + length bytes) zeros (omega (arith, size))) (append-nil bytes)))

-- stringBytesFromJni after setLoggable gives the bytes of a string without a zero, of less than
-- 2 ^ 31 bytes, gives the borrowed string back, and logs two lines, and setLoggable one, exactly if
-- the switch is on.
pub string_bytes_from_jni-set_loggable :
    (content : List ℕ) (is_loggable : Bool) (p : Process)
    → IsText content
    → length content < 2 ^ 31
    → string_bytes_from_jni content (set_loggable is_loggable p)
      ≡ done (
        content,
        record {
          show_log = is_loggable;
          logged = p.logged + (if is_loggable then 3 else 0);
          lent = p.lent;
        },
      )
unfolding string_bytes_from_jni new_byte_array set_loggable log_line
string_bytes_from_jni-set_loggable content true p text small =
    rw (strlen-text content [] text, as_int_small (length content) small, set_region-whole content)
      (ground arith)
string_bytes_from_jni-set_loggable content false p text small =
    rw (strlen-text content [] text, as_int_small (length content) small, set_region-whole content)
      (ground arith)
