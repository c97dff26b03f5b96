-- ===== src/CommonMacro/Tests.antt =====
-- Runs of the macros of toolbox/src/main/cpp/lcu/common_macro.h.
use my_toolbox.Base.{
  ℕ, suc, ◌+◌, ◌≡◌, refl, ◌↔◌, ◌^◌, ltb, true, false, some, List, [], ◌∷◌, pos, negsuc, done,
  if◌then◌else◌, arith,
}
use my_toolbox.Log.{codes}
use my_toolbox.CommonMacro.{
  bits64, ptr_to_long64, long64_to_ptr, checked_int, remainder, random, Target, is_release,
  continues, Library, Assertion,
}
use my_toolbox.CommonMacro.Handles.{IsInt64, long64_to_ptr-ptr_to_long64}
use my_toolbox.CommonMacro.Asserts.{
  survived, is_strict, conditions, effects, assert_aborts, asserts, assert_aborts-asserts,
}

-- A pointer into the upper half of the addresses.
abbrev high_address : ℕ
high_address = 2 ^ 63 + 4096

long64_to_ptr-ptr_to_long64_example :
    (long64_to_ptr bits64 (ptr_to_long64 bits64 high_address) ≡ high_address)
    × (IsInt64 (ptr_to_long64 bits64 high_address)
        × ((ptr_to_long64 bits64 high_address ≡ pos 0) ↔ (high_address ≡ 0)))
long64_to_ptr-ptr_to_long64_example = long64_to_ptr-ptr_to_long64 bits64 high_address (omega arith)

random_value : random 17 (negsuc 2) (pos 4) ≡ done (pos 0)
unfolding random checked_int remainder
random_value = refl

abbrev release : Target
release = record { ndebug = true; debug = false; android = true; windows = false }

-- The state counts the conditions that were evaluated and the messages.
abbrev counting : Library (ℕ × ℕ)
counting = record {
  output = record {
    printf = λ fmt args w. (w.0, suc (w.1));
    android_log_print = λ prio tag fmt args w. (w.0, suc (w.1));
  };
  flush = λ w. w;
  assert_message = λ w. (w.0, suc (w.1));
  assert_expr = λ w. continues w;
}

-- A condition that holds while fewer than two have been evaluated.
abbrev early : Assertion (ℕ × ℕ)
early = record {
  expr = λ w. (ltb (w.0) 2, (suc (w.0), w.1));
  text = codes "n++ < 2";
  func = codes "f";
  file = codes "f.c";
  line = 7;
}

abbrev thrice : List (Assertion (ℕ × ℕ))
thrice = early ∷ early ∷ early ∷ []

assert_aborts-asserts_example :
    (survived (assert_aborts release counting thrice (0, 0)) ≡ conditions thrice (0, 0))
    × (survived (asserts release counting thrice (0, 0))
        ≡ (if is_release release then some (effects thrice (0, 0)) else conditions thrice (0, 0)))
unfolding is_strict is_release
assert_aborts-asserts_example = assert_aborts-asserts release counting thrice (0, 0) refl
