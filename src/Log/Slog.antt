-- ===== src/Log/Slog.antt =====
-- toolbox/src/main/cpp/lcu/log/slog.h: the simple logger, whose macros test the level themselves.
-- The functions that the header declares are a parameter.
use my_toolbox.Base.{
  ℕ, ◌==◌, ◌≡◌, ◌≤◌, Bool, not, ◌&&◌, leb, Option, none, some, ℤ, pos, List, ◌∷◌, ◌++◌,
  if◌then◌else◌,
}
use my_toolbox.Log.{
  Letter, letter_v, letter_d, letter_i, letter_w, letter_e, log_level_error, Arg, string_arg,
  int_arg, Site, Tag, Text, codes, AndroidPriority, android_log_verbose, android_log_debug,
  android_log_info, android_log_warn, android_log_error, Build, suffix, Output, is_on, rank, level,
  as_level, Statement, global_init, global_cleanup, set_level, to_file, to_std, tlog, tlog_trace,
  log, log_trace, tlog_hex, log_hex,
}

-- The prebuilt functions, and `_g_slog_min_level`.
pub record SlogLib (W : Type 0) : Type 0 where
  pub g_min_level : W → ℕ
  pub set_min_level : ℕ → W → W
  pub get_min_level : W → ℕ
  pub stdout2file : Tag → W → W
  pub back2stdout : W → W
  pub internal_hex_print : ℕ → Tag → Text → ℕ → W → W

-- What the names of the header say: the variable holds the level that is set, where it is
-- one from LOG_LEVEL_OFF to LOG_LEVEL_ERROR, and nothing else changes it.
pub record SlogLaws {W : Type 0} (out : Output W) (lib : SlogLib W) : Type 0 where
  pub level-set :
      (n : ℕ) (w : W) → n ≤ rank log_level_error → lib.g_min_level (lib.set_min_level n w) ≡ n
  pub level-stdout2file :
      (path : Tag) (w : W) → lib.g_min_level (lib.stdout2file path w) ≡ lib.g_min_level w
  pub level-back2stdout : (w : W) → lib.g_min_level (lib.back2stdout w) ≡ lib.g_min_level w
  pub level-hex :
      (lvl : ℕ) (tag : Tag) (chars : Text) (n : ℕ) (w : W)
      → lib.g_min_level (lib.internal_hex_print lvl tag chars n w) ≡ lib.g_min_level w
  pub level-printf :
      (fmt : Text) (args : List Arg) (w : W)
      → lib.g_min_level (out.printf fmt args w) ≡ lib.g_min_level w
  pub level-android :
      (prio : AndroidPriority) (tag : Tag) (fmt : Text) (args : List Arg) (w : W)
      → lib.g_min_level (out.android_log_print prio tag fmt args w) ≡ lib.g_min_level w

-- The test in every macro.
unfoldable pub is_logged : (min_level : ℕ) → Letter → Bool
is_logged min_level l = not (min_level == 0) && leb min_level (rank (level l))

unfoldable pub priority : Letter → AndroidPriority
priority letter_v = android_log_verbose
priority letter_d = android_log_debug
priority letter_i = android_log_info
priority letter_w = android_log_warn
priority letter_e = android_log_error

-- The format in front of a message on a console.
unfoldable pub console_head : Letter → Text
console_head letter_v = codes "[V/%s] "
console_head letter_d = codes "[D/%s] "
console_head letter_i = codes "[I/%s] "
console_head letter_w = codes "[W/%s] "
console_head letter_e = codes "[E/%s] "

unfoldable pub console_trace_head : Letter → Text
console_trace_head letter_v = codes "[V/%s](%s:%d) "
console_trace_head letter_d = codes "[D/%s](%s:%d) "
console_trace_head letter_i = codes "[I/%s](%s:%d) "
console_trace_head letter_w = codes "[W/%s](%s:%d) "
console_trace_head letter_e = codes "[E/%s](%s:%d) "

module _ {W : Type 0} (b : Build) (out : Output W) (lib : SlogLib W) where
  -- What a macro prints if its test holds.
  unfoldable pub slog_print : Letter → Tag → Text → List Arg → W → W
  slog_print l tag fmt args w =
      if b.android
      then out.android_log_print (priority l) tag fmt args w
      else out.printf (console_head l ++ (fmt ++ suffix b)) (string_arg tag ∷ args) w

  unfoldable pub slog_print_trace : Letter → Tag → Text → ℕ → Text → List Arg → W → W
  slog_print_trace l tag func line fmt args w =
      if b.android
      then out.android_log_print (priority l) tag (codes "(%s:%d) " ++ fmt)
          (string_arg (some func) ∷ int_arg (pos line) ∷ args) w
      else out.printf (console_trace_head l ++ (fmt ++ suffix b))
          (string_arg tag ∷ string_arg (some func) ∷ int_arg (pos line) ∷ args) w

  -- _SLOGV_IMPL to _SLOGE_IMPL
  unfoldable pub slog_x_impl : Letter → Tag → Text → List Arg → W → W
  slog_x_impl l tag fmt args w =
      if is_logged (lib.g_min_level w) l then slog_print l tag fmt args w else w

  -- _SLOGV_TRACE_IMPL to _SLOGE_TRACE_IMPL
  unfoldable pub slog_x_trace_impl : Letter → Tag → Text → ℕ → Text → List Arg → W → W
  slog_x_trace_impl l tag func line fmt args w =
      if is_logged (lib.g_min_level w) l then slog_print_trace l tag func line fmt args w else w

  unfoldable pub slog_set_min_level : ℤ → W → W
  slog_set_min_level min_level w = lib.set_min_level (as_level min_level) w

  unfoldable pub slog_get_min_level : W → ℕ
  slog_get_min_level w = lib.get_min_level w

  unfoldable pub slog_std2file : Tag → W → W
  slog_std2file file_path w =
      if is_on b.unsupport_stdout_redirect then w else lib.stdout2file file_path w

  unfoldable pub slog_back2std : W → W
  slog_back2std w = if is_on b.unsupport_stdout_redirect then w else lib.back2stdout w

  -- SLOGV to SLOGE
  unfoldable pub slog_x : Letter → Tag → Text → List Arg → W → W
  slog_x l tag fmt args w = slog_x_impl l tag fmt args w

  -- SLOGV_TRACE to SLOGE_TRACE
  unfoldable pub slog_x_trace : Letter → Tag → Site → Text → List Arg → W → W
  slog_x_trace l tag site fmt args w = slog_x_trace_impl l tag site.func site.line fmt args w

  -- SLOGV_HEX to SLOGE_HEX
  unfoldable pub slog_x_hex : Letter → Tag → Text → ℕ → W → W
  slog_x_hex l tag chars chars_count w =
      if is_logged (lib.g_min_level w) l
      then lib.internal_hex_print (rank (level l)) tag chars chars_count w
      else w

-- LOG_TAG and _LOG_TAG where a file that includes this header alone defines the first or neither.
unfoldable pub slog_tag : Option Text → Text
slog_tag none = codes "SLOG"
slog_tag (some tag) = tag

-- The macros of a file that includes this header alone; `log_tag` is its `_LOG_TAG`.
module _ {W : Type 0} (b : Build) (out : Output W) (lib : SlogLib W) (log_tag : Text) where
  unfoldable pub own_log : Letter → Text → List Arg → W → W
  own_log l fmt args w = slog_x b out lib l (some log_tag) fmt args w

  unfoldable pub own_log_trace : Letter → Site → Text → List Arg → W → W
  own_log_trace l site fmt args w = slog_x_trace b out lib l (some log_tag) site fmt args w

  unfoldable pub own_log_hex : Letter → Text → ℕ → W → W
  own_log_hex l chars n w = slog_x_hex b out lib l (some log_tag) chars n w

  unfoldable pub own_tlog : Letter → Tag → Text → List Arg → W → W
  own_tlog l tag fmt args w = slog_x b out lib l tag fmt args w

  unfoldable pub own_tlog_trace : Letter → Tag → Site → Text → List Arg → W → W
  own_tlog_trace l tag site fmt args w = slog_x_trace b out lib l tag site fmt args w

  unfoldable pub own_tlog_hex : Letter → Tag → Text → ℕ → W → W
  own_tlog_hex l tag chars n w = slog_x_hex b out lib l tag chars n w

  -- A statement in such a file, `none` where the header has no macro of that name.
  unfoldable pub own_statement : Statement → W → Option W
  own_statement global_init w = none
  own_statement global_cleanup w = none
  own_statement (set_level n) w = none
  own_statement (to_file path) w = none
  own_statement to_std w = none
  own_statement (tlog l tag fmt args) w = some (own_tlog l tag fmt args w)
  own_statement (tlog_trace l tag site fmt args) w = some (own_tlog_trace l tag site fmt args w)
  own_statement (log l fmt args) w = some (own_log l fmt args w)
  own_statement (log_trace l site fmt args) w = some (own_log_trace l site fmt args w)
  own_statement (tlog_hex l tag chars n) w = some (own_tlog_hex l tag chars n w)
  own_statement (log_hex l chars n) w = some (own_log_hex l chars n w)
