-- ===== src/CommonMacro.antt =====
-- toolbox/src/main/cpp/lcu/common_macro.h: the handles that Java keeps for pointers, assertions,
-- random

pub mod Handles
pub mod Random
pub mod Asserts
pub mod Values
pub mod Enums
mod Tests
use my_toolbox.Base.{
  ℕ, suc, ◌≡◌, ◌+◌, ◌-◌, ◌%◌, ◌^◌, ◌<◌, ltb, leb, ◌==◌, Bool, true, false, not, ◌||◌, Option, none,
  some, ℤ, pos, negsuc, List, [], ◌∷◌, ◌++◌, map, Run, done, fault, ◌>>=◌, if◌then◌else◌, is_int32,
  add, sub,
}
use my_toolbox.Log.{Text, Tag, Arg, string_arg, int_arg, Output, android_log_error, codes}

-- The size of a pointer, `intptr_t` and `uintptr_t`.
pub data Platform : Type 0 where
  bits32 : Platform
  bits64 : Platform

abbrev pub addresses : Platform → ℕ
addresses bits32 = 2 ^ 32
addresses bits64 = 2 ^ 64

-- `(intptr_t) (p)`, in two's complement.
unfoldable pub as_intptr : Platform → ℕ → ℤ
as_intptr f p = if ltb (p + p) (addresses f) then pos p else negsuc ((addresses f - 1) - p)

-- `(void *) ((intptr_t) (i))`, in two's complement.
unfoldable pub as_ptr : Platform → ℤ → ℕ
as_ptr f (pos n) = n % addresses f
as_ptr f (negsuc n) = (addresses f - 1) - n % addresses f

-- PTR_TO_LONG64: the conversion to `long long` keeps the value.
unfoldable pub ptr_to_long64 : Platform → ℕ → ℤ
ptr_to_long64 f p = as_intptr f p

-- LONG64_TO_PTR
unfoldable pub long64_to_ptr : Platform → ℤ → ℕ
long64_to_ptr f i = as_ptr f i

-- The `int` that an operation gives, which must not overflow.
unfoldable pub checked_int : ℤ → Run ℤ
checked_int x = if is_int32 x then done x else fault

-- `r % d` for an `r` that is not negative: the sign of `d` does not matter.
unfoldable pub remainder : ℕ → ℤ → Run ℤ
remainder r (pos n) = if n == 0 then fault else done (pos (r % n))
remainder r (negsuc n) = done (pos (r % suc n))

-- RANDOM(a, b) where `rand()` gives `r`.
unfoldable pub random : (r : ℕ) (a b : ℤ) → Run ℤ
random r a b = checked_int (sub b a) >>= λ d. remainder r d >>= λ m. checked_int (add m a)

-- What the build defines: NDEBUG, _DEBUG, and the system.
pub record Target : Type 0 where
  pub ndebug : Bool
  pub debug : Bool
  pub android : Bool
  pub windows : Bool

-- The condition over the variants of ASSERT.
unfoldable pub is_release : Target → Bool
is_release t = t.ndebug || not t.debug

-- Where the program goes on, or what is left when it has been aborted.
pub data Outcome (W : Type 0) : Type 0 where
  continues : W → Outcome W
  aborted : W → Outcome W

-- The functions of the C library: `fflush(stdout)`, what `assert` does before it aborts, and what
-- `_ASSERT_EXPR` of Windows makes of a failure, where a person may choose to go on.
pub record Library (W : Type 0) : Type 0 where
  pub output : Output W
  pub flush : W → W
  pub assert_message : W → W
  pub assert_expr : W → Outcome W

-- An assertion in a program: its condition, which may change the state, and what `#expr`,
-- `__func__`, `__FILE__` and `__LINE__` say of it.
pub record Assertion (W : Type 0) : Type 0 where
  pub expr : W → Bool × W
  pub text : Text
  pub func : Text
  pub file : Text
  pub line : ℕ

module _ {W : Type 0} (t : Target) (lib : Library W) where
  -- EMERGENCY_LOG
  unfoldable pub emergency_log : Text → List Arg → W → W
  emergency_log fmt args w =
      let told =
        if t.android
        then lib.output.android_log_print android_log_error (some (codes "DEBUG")) fmt args w
        else w in
      lib.flush (lib.output.printf (codes "[DEBUG] " ++ (fmt ++ codes "\n")) args told)

  -- What the release variant of ASSERT_ABORT does where the condition fails.
  unfoldable pub assert_abort_failed : Assertion W → W → Outcome W
  assert_abort_failed a w =
      let args : List Arg =
        string_arg (some a.text)
        ∷ string_arg (some a.func)
        ∷ string_arg (some a.file)
        ∷ int_arg (pos a.line)
        ∷ [] in
      aborted (emergency_log (codes "API check '%s' failed at '%s' (%s:%d)") args w)

  -- A failure in a build for debugging.
  unfoldable pub assert_failed : W → Outcome W
  assert_failed w = if t.windows then lib.assert_expr w else aborted (lib.assert_message w)

  -- ASSERT
  unfoldable pub assert : Assertion W → W → Outcome W
  assert a w =
      let r = a.expr w in
      if is_release t
      then continues (r.1)
      else (if r.0 then continues (r.1) else assert_failed (r.1))

  -- ASSERT_ABORT
  unfoldable pub assert_abort : Assertion W → W → Outcome W
  assert_abort a w =
      let r = a.expr w in
      if r.0
      then continues (r.1)
      else (if is_release t then assert_abort_failed a (r.1) else assert_failed (r.1))
