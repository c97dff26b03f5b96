-- ===== src/Log/Tests.antt =====
-- Runs of the logging macros of toolbox/src/main/cpp/lcu/log, over loggers that keep a level and
-- what is output.
use my_toolbox.Base.{ℕ, ◌≡◌, refl, false, pos, List, [], ◌∷◌, none, some, arith}
use my_toolbox.Log.{
  letter_v, letter_d, letter_w, letter_e, Text, codes, Statement, set_level, log, log_trace,
  log_hex, Build, Output, suffix, rank, level,
}
use my_toolbox.Log.Facade.{
  enabled, run, statement, is_compiled, log_x_hex, tlog_x_hex, log_x_trace, tlog_x_trace,
  log_set_min_level, log_x, tlog_x,
}
use my_toolbox.Log.Slog
use my_toolbox.Log.Slog.{SlogLib, SlogLaws, is_logged}
use my_toolbox.Log.Backend.{slog_impl}
use my_toolbox.Log.Shown.{IsNamed, AreNamed, kept}
use my_toolbox.Log.Filter.{printing, run-kept}

-- The level, and the formats that were output.
record Screen : Type 0 where
  min_level : ℕ
  lines : List Text

shows : Text → Screen → Screen
shows t w = record w { lines = t ∷ w.lines }

abbrev on_screen : Output Screen
on_screen = record {
  printf = λ fmt args w. record w { lines = fmt ∷ w.lines };
  android_log_print = λ prio tag fmt args w. record w { lines = fmt ∷ w.lines };
}

abbrev slog : SlogLib Screen
slog = record {
  g_min_level = λ w. w.min_level;
  set_min_level = λ n w. record w { min_level = n };
  get_min_level = λ w. w.min_level;
  stdout2file = λ path w. w;
  back2stdout = λ w. w;
  internal_hex_print = λ lvl tag chars n w. record w { lines = chars ∷ w.lines };
}

slaws : SlogLaws on_screen slog
slaws = record {
  level-set = λ n w named. refl;
  level-stdout2file = λ path w. refl;
  level-back2stdout = λ w. refl;
  level-hex = λ lvl tag chars n w. refl;
  level-printf = λ fmt args w. refl;
  level-android = λ prio tag fmt args w. refl;
}

abbrev desk : Build
desk = record {
  android = false;
  log_suffix = none;
  unsupport_stdout_redirect = none;
  unsupport_printf_redirect = some 0;
  xlog_off = none;
}

abbrev start : Screen
start = record { min_level = 3; lines = [] }

abbrev program : List Statement
program =
    log letter_d (codes "a") []
    ∷ log letter_w (codes "b") []
    ∷ set_level (pos 1)
    ∷ log_trace letter_v (record { func = codes "f"; line = 7 }) (codes "c") []
    ∷ log_hex letter_e (codes "d") 1
    ∷ []

-- The output of the program, the last line first.
abbrev output : List Text
output = codes "d" ∷ codes "[V/%s](%s:%d) c\n" ∷ codes "[W/%s] b\n" ∷ []

screen_shows : (run (slog_impl desk on_screen slog) (codes "T") none program start).lines ≡ output
unfolding run statement is_compiled enabled log_x_hex tlog_x_hex slog_impl Slog.slog_x_hex is_logged
    log_x_trace tlog_x_trace Slog.slog_x_trace_impl log_set_min_level Slog.slog_set_min_level rank
    level Slog.slog_print_trace log_x tlog_x Slog.console_head Slog.console_trace_head
    Slog.slog_print Slog.slog_x Slog.slog_x_impl suffix
screen_shows = refl

run-kept_example :
    run (slog_impl desk on_screen slog) (codes "T") none program start
    ≡ run (printing desk on_screen slog) (codes "T") none (kept 3 program) start
unfolding AreNamed IsNamed rank
run-kept_example =
    run-kept desk on_screen slog slaws (codes "T") program start
      (tt, (tt, (omega arith, (tt, (tt, tt)))))
