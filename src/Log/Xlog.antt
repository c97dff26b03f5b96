-- ===== src/Log/Xlog.antt =====
-- toolbox/src/main/cpp/lcu/log/xlog.h: the other logger, whose functions test the level. They are a
-- parameter, with what the header documents of them.
use my_toolbox.Base.{ℕ, Option, none, some, ℤ, List, if◌then◌else◌}
use my_toolbox.Log.{
  Letter, Arg, Site, Tag, Text, Build, is_on, rank, level, Statement, global_init, global_cleanup,
  set_level, to_file, to_std, tlog, tlog_trace, log, log_trace, tlog_hex, log_hex,
}

pub data LogTarget : Type 0 where
  log_target_none : LogTarget
  log_target_android : LogTarget
  log_target_console : LogTarget
  log_target_user_callback : LogTarget

unfoldable pub target_bits : LogTarget → ℕ
target_bits log_target_none = 0
target_bits log_target_android = 2
target_bits log_target_console = 4
target_bits log_target_user_callback = 8

pub data LogFormat : Type 0 where
  log_format_raw : LogFormat
  log_format_with_timestamp : LogFormat
  log_format_with_tag_level : LogFormat
  log_format_with_tid : LogFormat

unfoldable pub format_bits : LogFormat → ℕ
format_bits log_format_raw = 0
format_bits log_format_with_timestamp = 2
format_bits log_format_with_tag_level = 4
format_bits log_format_with_tid = 8

pub data LogFlushMode : Type 0 where
  log_flush_mode_auto : LogFlushMode
  log_flush_mode_every : LogFlushMode

-- What is called with the level, the text, and its size with the terminator.
abbrev pub UserCallback : Type 0 → Type 0
UserCallback W = ℕ → Text → ℕ → W → W

-- The prebuilt functions. Levels, targets and formats are the numbers of their enumerators.
pub record XlogLib (W : Type 0) : Type 0 where
  pub global_init : W → ℤ × W
  pub global_cleanup : W → ℤ × W
  pub stdout2file : Tag → W → W
  pub back2stdout : W → W
  pub auto_level_up : ℕ → W → W
  pub set_default_tag : Tag → W → W
  pub set_timezone : ℤ → W → W
  pub set_min_level : ℕ → W → W
  pub get_min_level : W → ℕ
  pub set_user_callback : Option (UserCallback W) → W → W
  pub set_target : ℤ → W → W
  pub get_target : W → ℤ
  pub set_format : ℤ → W → W
  pub get_format : W → ℤ
  pub set_flush_mode : LogFlushMode → W → W
  pub get_flush_mode : W → LogFlushMode
  pub internal_print : ℕ → Tag → Tag → ℕ → Text → List Arg → W → W
  pub internal_hex_print : ℕ → Tag → Text → ℕ → W → W

module _ {W : Type 0} (lib : XlogLib W) where
  -- The macros of a file that includes this header alone, where LCU_XLOG_OFF is off.
  unfoldable pub own_tlog : Letter → Tag → Text → List Arg → W → W
  own_tlog l tag fmt args w = lib.internal_print (rank (level l)) tag none 0 fmt args w

  unfoldable pub own_tlog_trace : Letter → Tag → Site → Text → List Arg → W → W
  own_tlog_trace l tag site fmt args w =
      lib.internal_print (rank (level l)) tag (some site.func) site.line fmt args w

  unfoldable pub own_tlog_hex : Letter → Tag → Text → ℕ → W → W
  own_tlog_hex l tag chars chars_count w =
      lib.internal_hex_print (rank (level l)) tag chars chars_count w

  -- `log_tag` is `_LOG_TAG`, NULL where the file defines neither it nor LOG_TAG.
  unfoldable pub own_log : (log_tag : Tag) → Letter → Text → List Arg → W → W
  own_log log_tag l fmt args w = own_tlog l log_tag fmt args w

  unfoldable pub own_log_trace : (log_tag : Tag) → Letter → Site → Text → List Arg → W → W
  own_log_trace log_tag l site fmt args w = own_tlog_trace l log_tag site fmt args w

  unfoldable pub own_log_hex : (log_tag : Tag) → Letter → Text → ℕ → W → W
  own_log_hex log_tag l chars chars_count w = own_tlog_hex l log_tag chars chars_count w

  unfoldable pub own_std2file : Build → Tag → W → W
  own_std2file b file_path w =
      if is_on b.unsupport_printf_redirect then w else lib.stdout2file file_path w

  unfoldable pub own_back2std : Build → W → W
  own_back2std b w = if is_on b.unsupport_printf_redirect then w else lib.back2stdout w

  -- A statement in such a file, `none` where the header has no macro for it, or one that does not
  -- compile: with LCU_XLOG_OFF, LOG_BACK2STD() is the name of a macro without its parentheses.
  unfoldable pub own_statement : Build → (log_tag : Tag) → Statement → W → Option W
  own_statement b log_tag global_init w = none
  own_statement b log_tag global_cleanup w = none
  own_statement b log_tag (set_level n) w = none
  own_statement b log_tag (to_file path) w =
      some (if is_on b.xlog_off then w else own_std2file b path w)
  own_statement b log_tag to_std w = if is_on b.xlog_off then none else some (own_back2std b w)
  own_statement b log_tag (tlog l tag fmt args) w =
      some (if is_on b.xlog_off then w else own_tlog l tag fmt args w)
  own_statement b log_tag (tlog_trace l tag site fmt args) w =
      some (if is_on b.xlog_off then w else own_tlog_trace l tag site fmt args w)
  own_statement b log_tag (log l fmt args) w =
      some (if is_on b.xlog_off then w else own_log log_tag l fmt args w)
  own_statement b log_tag (log_trace l site fmt args) w =
      some (if is_on b.xlog_off then w else own_log_trace log_tag l site fmt args w)
  own_statement b log_tag (tlog_hex l tag chars n) w =
      some (if is_on b.xlog_off then w else own_tlog_hex l tag chars n w)
  own_statement b log_tag (log_hex l chars n) w =
      some (if is_on b.xlog_off then w else own_log_hex log_tag l chars n w)
