-- ===== src/Log.antt =====
-- toolbox/src/main/cpp/lcu/log: the logging macros. This file has what the headers share, of
-- log/logger_data.h and log/logger.h: the levels, the statements that a program writes, and the
-- build's macros. A macro family such as LOGV to LOGE is one function with the letter as an
-- argument.
pub mod Facade
pub mod Slog
pub mod Xlog
pub mod Backend
pub mod Own
pub mod Disable
pub mod Shown
pub mod Level
pub mod Filter
mod Tests
use Prim.Native.Char.{code}
use Prim.Native.String.{String}
use my_toolbox.Base.{
  ℕ, ◌==◌, List, [], ◌∷◌, ◌++◌, map, Bool, true, not, Option, none, some, ℤ, to_u32, if◌then◌else◌,
}

-- The characters of a string literal.
abbrev pub codes : String → List ℕ
codes String.[] = []
codes (String.◌∷◌ c s) = code c ∷ codes s

-- A C string.
abbrev pub Text : Type 0
Text = List ℕ

-- A pointer to a string, `none` for NULL.
abbrev pub Tag : Type 0
Tag = Option Text

pub data LogLevel : Type 0 where
  log_level_off : LogLevel
  log_level_verbose : LogLevel
  log_level_debug : LogLevel
  log_level_info : LogLevel
  log_level_warn : LogLevel
  log_level_error : LogLevel
  log_level_unknown : LogLevel

-- The value of the enumerator.
unfoldable pub rank : LogLevel → ℕ
rank log_level_off = 0
rank log_level_verbose = 1
rank log_level_debug = 2
rank log_level_info = 3
rank log_level_warn = 4
rank log_level_error = 5
rank log_level_unknown = 6

-- The `LogLevel` that an `int` is converted to: the enumeration is an `unsigned int` to GCC and
-- Clang.
abbrev pub as_level : ℤ → ℕ
as_level n = to_u32 n

-- The last letter of a macro's name.
pub data Letter : Type 0 where
  letter_v : Letter
  letter_d : Letter
  letter_i : Letter
  letter_w : Letter
  letter_e : Letter

-- The level of a macro with the letter.
unfoldable pub level : Letter → LogLevel
level letter_v = log_level_verbose
level letter_d = log_level_debug
level letter_i = log_level_info
level letter_w = log_level_warn
level letter_e = log_level_error

-- An argument of a format: a string or an `int`.
pub data Arg : Type 0 where
  string_arg : Tag → Arg
  int_arg : ℤ → Arg

-- The priorities of <android/log.h> that the macros name.
pub data AndroidPriority : Type 0 where
  android_log_verbose : AndroidPriority
  android_log_debug : AndroidPriority
  android_log_info : AndroidPriority
  android_log_warn : AndroidPriority
  android_log_error : AndroidPriority

-- `__func__` and `__LINE__` where a macro is used.
pub record Site : Type 0 where
  pub func : Text
  pub line : ℕ

-- A use of a logging macro.
pub data Statement : Type 0 where
  global_init : Statement
  global_cleanup : Statement
  set_level : ℤ → Statement
  to_file : Tag → Statement
  to_std : Statement
  tlog : Letter → Tag → Text → List Arg → Statement
  tlog_trace : Letter → Tag → Site → Text → List Arg → Statement
  log : Letter → Text → List Arg → Statement
  log_trace : Letter → Site → Text → List Arg → Statement
  tlog_hex : Letter → Tag → Text → ℕ → Statement
  log_hex : Letter → Text → ℕ → Statement

-- `defined(M) && 0 != M` for a macro `M`, which has the value `none` where it is not defined.
abbrev pub is_on : Option ℕ → Bool
is_on none = not true
is_on (some n) = not (n == 0)

-- What the build defines. `log_suffix` stands for _LOG_SUFFIX, the two that follow it for
-- _LCU_LOGGER_UNSUPPORT_STDOUT_REDIRECT and _LCU_LOGGER_UNSUPPORT_PRINTF_REDIRECT.
pub record Build : Type 0 where
  pub android : Bool
  pub log_suffix : Option Text
  pub unsupport_stdout_redirect : Option ℕ
  pub unsupport_printf_redirect : Option ℕ
  pub xlog_off : Option ℕ

unfoldable pub suffix : Build → Text
suffix b = elim b.log_suffix [ none ↦ codes "\n" | some t ↦ t ]

-- The functions of the C library and of Android that print.
pub record Output (W : Type 0) : Type 0 where
  pub printf : Text → List Arg → W → W
  pub android_log_print : AndroidPriority → Tag → Text → List Arg → W → W

-- _LOG_TAG, from LOG_TAG_PREFIX, LOG_TAG and LOG_TAG_SUFFIX, where the first and the last may be
-- undefined.
unfoldable pub logger_tag : Option Text → Text → Option Text → Text
logger_tag before tag after = given before ++ (tag ++ given after)
  where
    given : Option Text → Text
    given none = []
    given (some t) = t
