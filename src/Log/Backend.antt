-- ===== src/Log/Backend.antt =====
-- toolbox/src/main/cpp/lcu/log/logger_facade_slog.h and logger_facade_xlog.h: the two loggers as
-- implementations of the facade; and the choice between them in log/logger.h.
use my_toolbox.Base.{ℕ, ◌==◌, ◌||◌, Option, none, some, List, ℤ, lt_nat, gt_nat, if◌then◌else◌}
use my_toolbox.Log.{
  Build, Output, Letter, Tag, Text, Arg, is_on, rank, level, as_level, log_level_off,
  log_level_unknown,
}
use my_toolbox.Log.Facade.{Impl}
use my_toolbox.Log.Slog.{
  SlogLib, slog_set_min_level, slog_get_min_level, slog_std2file, slog_back2std, slog_x,
  slog_x_trace_impl, slog_x_hex,
}
use my_toolbox.Log.Xlog.{XlogLib}

unfoldable pub slog_impl : {W : Type 0} → Build → Output W → SlogLib W → Impl W
slog_impl b out lib = record {
  init = λ w. w;
  deinit = λ w. w;
  set_min_level = slog_set_min_level b out lib;
  get_min_level = slog_get_min_level b out lib;
  std2file = slog_std2file b out lib;
  back2std = slog_back2std b out lib;
  print = slog_x b out lib;
  print_trace = slog_x_trace_impl b out lib;
  print_hex = slog_x_hex b out lib;
}

module _ {W : Type 0} (b : Build) (lib : XlogLib W) where
  -- _LOG_SET_MIN_LEVEL_IMPL
  unfoldable pub xlog_set_min_level : ℤ → W → W
  xlog_set_min_level min_level w =
      if lt_nat min_level (rank log_level_off) || gt_nat min_level (rank log_level_unknown)
      then w
      else lib.set_min_level (as_level min_level) w

  -- _LOG_STD2FILE_IMPL
  unfoldable pub xlog_std2file : Tag → W → W
  xlog_std2file file_path w =
      if is_on b.unsupport_stdout_redirect then w else lib.stdout2file file_path w

  -- _LOG_BACK2STD_IMPL
  unfoldable pub xlog_back2std : W → W
  xlog_back2std w = if is_on b.unsupport_stdout_redirect then w else lib.back2stdout w

  -- _LOGV_TRACE_IMPL to _LOGE_TRACE_IMPL, where `func_name` may be NULL
  unfoldable pub xlog_x_trace_impl : Letter → Tag → Tag → ℕ → Text → List Arg → W → W
  xlog_x_trace_impl l tag func_name line_num fmt args w =
      lib.internal_print (rank (level l)) tag func_name line_num fmt args w

  -- _LOGV_IMPL to _LOGE_IMPL
  unfoldable pub xlog_x_impl : Letter → Tag → Text → List Arg → W → W
  xlog_x_impl l tag fmt args w = xlog_x_trace_impl l tag none 0 fmt args w

  -- _LOGV_HEX_IMPL to _LOGE_HEX_IMPL
  unfoldable pub xlog_x_hex_impl : Letter → Tag → Text → ℕ → W → W
  xlog_x_hex_impl l tag chars chars_count w =
      lib.internal_hex_print (rank (level l)) tag chars chars_count w

  unfoldable pub xlog_impl : Impl W
  xlog_impl = record {
    init = λ w. (lib.global_init w).1;
    deinit = λ w. (lib.global_cleanup w).1;
    set_min_level = xlog_set_min_level;
    get_min_level = lib.get_min_level;
    std2file = xlog_std2file;
    back2std = xlog_back2std;
    print = xlog_x_impl;
    print_trace = λ l tag func line fmt args w. xlog_x_trace_impl l tag (some func) line fmt args w;
    print_hex = xlog_x_hex_impl;
  }

pub data Choice : Type 0 where
  use_slog : Choice
  use_xlog : Choice

-- LCU_LOGGER_SELECTOR, `none` where the build does not define it; the answer `none` is the #error.
unfoldable pub selected : Option ℕ → Option Choice
selected none = some use_xlog
selected (some n) = if n == 1 then some use_slog else (if n == 0 then some use_xlog else none)

unfoldable pub chosen_impl :
    {W : Type 0} → Build → Output W → SlogLib W → XlogLib W → Choice → Impl W
chosen_impl b out slog xlog use_slog = slog_impl b out slog
chosen_impl b out slog xlog use_xlog = xlog_impl b xlog
