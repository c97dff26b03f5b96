-- ===== src/Log/Filter.antt =====
-- What a program prints through toolbox/src/main/cpp/lcu/log/logger_facade_slog.h.
use my_toolbox.Base.{◌≡◌, refl, ap, ◌∙◌, inl, inr, Bool-cases, List, [], ◌∷◌, none, if◌then◌else◌}
use my_toolbox.Log.{
  Text, Statement, global_init, global_cleanup, set_level, to_file, to_std, tlog, tlog_trace, log,
  log_trace, tlog_hex, log_hex, Build, Output, rank, level,
}
use my_toolbox.Log.Facade.{
  Impl, enabled, run, statement, is_compiled, log_global_init, log_global_cleanup,
  log_set_min_level, log_std2file, log_back2std, tlog_x, tlog_x_trace, log_x, log_x_trace,
  tlog_x_hex, log_x_hex,
}
use my_toolbox.Log.Slog.{
  SlogLib, SlogLaws, slog_print, slog_print_trace, slog_x, slog_x_impl, slog_x_trace_impl,
  slog_x_hex,
}
use my_toolbox.Log.Backend.{slog_impl}
use my_toolbox.Log.Shown.{is_logged-shown, AreNamed, has_effect, next_level, kept}
use my_toolbox.Log.Level.{level-enabled}

module _ {W : Type 0} (b : Build) (out : Output W) (lib : SlogLib W) where
  -- The logger without any test: every message is printed.
  unfoldable pub printing : Impl W
  printing = record (slog_impl b out lib) {
    print = slog_print b out lib;
    print_trace = slog_print_trace b out lib;
    print_hex = λ l tag chars n w. lib.internal_hex_print (rank (level l)) tag chars n w;
  }

  enabled-has_effect :
      (log_tag : Text) (s : Statement) (w : W)
      → enabled (slog_impl b out lib) log_tag s w
        ≡ (if has_effect (lib.g_min_level w) s then enabled printing log_tag s w else w)
  unfolding has_effect enabled tlog_x tlog_x_trace log_x log_x_trace tlog_x_hex log_x_hex slog_impl
      printing slog_x slog_x_impl slog_x_trace_impl slog_x_hex log_global_init log_global_cleanup
      log_set_min_level log_std2file log_back2std
  enabled-has_effect log_tag global_init w = refl
  enabled-has_effect log_tag global_cleanup w = refl
  enabled-has_effect log_tag (set_level n) w = refl
  enabled-has_effect log_tag (to_file path) w = refl
  enabled-has_effect log_tag to_std w = refl
  enabled-has_effect log_tag (tlog l tag fmt args) w =
      rw (is_logged-shown (lib.g_min_level w) l) refl
  enabled-has_effect log_tag (tlog_trace l tag site fmt args) w =
      rw (is_logged-shown (lib.g_min_level w) l) refl
  enabled-has_effect log_tag (log l fmt args) w = rw (is_logged-shown (lib.g_min_level w) l) refl
  enabled-has_effect log_tag (log_trace l site fmt args) w =
      rw (is_logged-shown (lib.g_min_level w) l) refl
  enabled-has_effect log_tag (tlog_hex l tag chars n) w =
      rw (is_logged-shown (lib.g_min_level w) l) refl
  enabled-has_effect log_tag (log_hex l chars n) w = rw (is_logged-shown (lib.g_min_level w) l) refl

module _ {W : Type 0} (b : Build) (out : Output W) (lib : SlogLib W) (laws : SlogLaws out lib) where
  -- A program over the simple logger that sets no other levels than LOG_LEVEL_OFF to
  -- LOG_LEVEL_ERROR does what it does without the statements whose letter is not shown at the level
  -- that holds there, with every other message printed: at LOG_LEVEL_OFF no message is, at the next
  -- level all are, and each level after it hides one more letter. The level is the one at the start
  -- until a statement sets another. The functions of the library keep to what the header says.
  pub run-kept :
      (log_tag : Text) (stmts : List Statement) (w : W)
      → AreNamed stmts
      → run (slog_impl b out lib) log_tag none stmts w
        ≡ run (printing b out lib) log_tag none (kept (lib.g_min_level w) stmts) w
  unfolding AreNamed run statement is_compiled kept
  run-kept log_tag [] w named = refl
  run-kept log_tag (s ∷ rest) w named =
      let after = enabled (slog_impl b out lib) log_tag s w in
      let later = kept (next_level (lib.g_min_level w) s) rest in
      let ih : run (slog_impl b out lib) log_tag none rest after
          ≡ run (printing b out lib) log_tag none later after =
        rw (← level-enabled b out lib laws log_tag s w named.0)
          (run-kept log_tag rest after named.1) in
      let step = enabled-has_effect b out lib log_tag s w in
      elim (Bool-cases (has_effect (lib.g_min_level w) s)) [
        | inl on ↦
            rw on (ih ∙ ap (run (printing b out lib) log_tag none later) (step ∙ (rw on refl)))
        | inr off ↦
            rw off (ih ∙ ap (run (printing b out lib) log_tag none later) (step ∙ (rw off refl)))
      ]
