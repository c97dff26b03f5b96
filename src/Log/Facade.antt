-- ===== src/Log/Facade.antt =====
-- toolbox/src/main/cpp/lcu/log/logger_facade.h: the macros of a program, over the `_LOG_XXX_IMPL`
-- macros that a logger defines.
use my_toolbox.Base.{ℕ, ◌==◌, Bool, true, not, Option, none, some, ℤ, List, [], ◌∷◌, if◌then◌else◌}
use my_toolbox.Log.{
  Letter, Arg, Site, Tag, Text, Statement, global_init, global_cleanup, set_level, to_file, to_std,
  tlog, tlog_trace, log, log_trace, tlog_hex, log_hex,
}

-- What a logger defines, as changes of the program's state. `params` is cast to `void` by every
-- logger, and so left out.
pub record Impl (W : Type 0) : Type 0 where
  pub init : W → W
  pub deinit : W → W
  pub set_min_level : ℤ → W → W
  pub get_min_level : W → ℕ
  pub std2file : Tag → W → W
  pub back2std : W → W
  pub print : Letter → Tag → Text → List Arg → W → W
  pub print_trace : Letter → Tag → Text → ℕ → Text → List Arg → W → W
  pub print_hex : Letter → Tag → Text → ℕ → W → W

-- The condition over the macros: `_LCU_LOGGER_DISABLE` is `none` where it is not defined.
unfoldable pub is_compiled : Option ℕ → Bool
is_compiled none = true
is_compiled (some n) = not (n == 0)

module _ {W : Type 0} (impl : Impl W) (log_tag : Text) where
  unfoldable pub log_global_init : W → W
  log_global_init w = impl.init w

  unfoldable pub log_global_cleanup : W → W
  log_global_cleanup w = impl.deinit w

  unfoldable pub log_set_min_level : ℤ → W → W
  log_set_min_level min_level w = impl.set_min_level min_level w

  unfoldable pub log_get_min_level : W → ℕ
  log_get_min_level w = impl.get_min_level w

  unfoldable pub log_std2file : Tag → W → W
  log_std2file file_path w = impl.std2file file_path w

  unfoldable pub log_back2std : W → W
  log_back2std w = impl.back2std w

  -- TLOGV to TLOGE
  unfoldable pub tlog_x : Letter → Tag → Text → List Arg → W → W
  tlog_x l tag fmt args w = impl.print l tag fmt args w

  -- TLOGV_TRACE to TLOGE_TRACE
  unfoldable pub tlog_x_trace : Letter → Tag → Site → Text → List Arg → W → W
  tlog_x_trace l tag site fmt args w = impl.print_trace l tag site.func site.line fmt args w

  -- LOGV to LOGE
  unfoldable pub log_x : Letter → Text → List Arg → W → W
  log_x l fmt args w = tlog_x l (some log_tag) fmt args w

  -- LOGV_TRACE to LOGE_TRACE
  unfoldable pub log_x_trace : Letter → Site → Text → List Arg → W → W
  log_x_trace l site fmt args w = tlog_x_trace l (some log_tag) site fmt args w

  -- TLOGV_HEX to TLOGE_HEX
  unfoldable pub tlog_x_hex : Letter → Tag → Text → ℕ → W → W
  tlog_x_hex l tag chars chars_count w = impl.print_hex l tag chars chars_count w

  -- LOGV_HEX to LOGE_HEX
  unfoldable pub log_x_hex : Letter → Text → ℕ → W → W
  log_x_hex l chars chars_count w = tlog_x_hex l (some log_tag) chars chars_count w

  -- A statement where the macros log.
  unfoldable pub enabled : Statement → W → W
  enabled global_init w = log_global_init w
  enabled global_cleanup w = log_global_cleanup w
  enabled (set_level n) w = log_set_min_level n w
  enabled (to_file path) w = log_std2file path w
  enabled to_std w = log_back2std w
  enabled (tlog l tag fmt args) w = tlog_x l tag fmt args w
  enabled (tlog_trace l tag site fmt args) w = tlog_x_trace l tag site fmt args w
  enabled (log l fmt args) w = log_x l fmt args w
  enabled (log_trace l site fmt args) w = log_x_trace l site fmt args w
  enabled (tlog_hex l tag chars n) w = tlog_x_hex l tag chars n w
  enabled (log_hex l chars n) w = log_x_hex l chars n w

  -- A statement where every macro is _LOG_NOTHING.
  unfoldable pub nothing : Statement → W → W
  nothing s w = w

  unfoldable pub statement : (disable : Option ℕ) → Statement → W → W
  statement disable s w = if is_compiled disable then enabled s w else nothing s w

  -- The statements of a program, one after the other.
  unfoldable pub run : (disable : Option ℕ) → List Statement → W → W
  run disable [] w = w
  run disable (s ∷ rest) w = run disable rest (statement disable s w)
