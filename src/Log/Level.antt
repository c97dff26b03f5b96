-- ===== src/Log/Level.antt =====
-- The level of toolbox/src/main/cpp/lcu/log/slog.h after each macro.
use my_toolbox.Base.{
  ℕ, ◌≡◌, refl, inl, inr, Bool, true, false, Bool-cases, List, some, if◌then◌else◌,
}
use my_toolbox.Log.{
  Letter, Tag, Arg, Text, Statement, global_init, global_cleanup, set_level, to_file, to_std, tlog,
  tlog_trace, log, log_trace, tlog_hex, log_hex, Build, Output, as_level, is_on,
}
use my_toolbox.Log.Facade.{
  enabled, log_global_init, log_global_cleanup, log_set_min_level, log_std2file, log_back2std,
  tlog_x, tlog_x_trace, log_x, log_x_trace, tlog_x_hex, log_x_hex,
}
use my_toolbox.Log.Slog.{
  SlogLib, SlogLaws, is_logged, slog_print, slog_print_trace, slog_x, slog_x_impl,
  slog_x_trace_impl, slog_x_hex, slog_set_min_level, slog_std2file, slog_back2std,
}
use my_toolbox.Log.Backend.{slog_impl}
use my_toolbox.Log.Shown.{IsNamed, next_level}

-- A test in front of a change that keeps a number keeps it.
if-keeps : {W : Type 0} (f : W → ℕ) (c : Bool) (x w : W) → f x ≡ f w → f (if c then x else w) ≡ f w
if-keeps f true x w e = e
if-keeps f false x w e = refl

module _ {W : Type 0} (b : Build) (out : Output W) (lib : SlogLib W) (laws : SlogLaws out lib) where
  level-slog_print :
      (l : Letter) (tag : Tag) (fmt : Text) (args : List Arg) (w : W)
      → lib.g_min_level (slog_print b out lib l tag fmt args w) ≡ lib.g_min_level w
  unfolding slog_print
  level-slog_print l tag fmt args w = elim (Bool-cases b.android) [
    | inl on ↦ rw on (laws.level-android _ tag fmt args w)
    | inr off ↦ rw off (laws.level-printf _ _ w)
  ]

  level-slog_print_trace :
      (l : Letter) (tag : Tag) (func : Text) (line : ℕ) (fmt : Text) (args : List Arg) (w : W)
      → lib.g_min_level (slog_print_trace b out lib l tag func line fmt args w) ≡ lib.g_min_level w
  unfolding slog_print_trace
  level-slog_print_trace l tag func line fmt args w = elim (Bool-cases b.android) [
    | inl on ↦ rw on (laws.level-android _ tag _ _ w)
    | inr off ↦ rw off (laws.level-printf _ _ w)
  ]

  level-tlog :
      (l : Letter) (tag : Tag) (fmt : Text) (args : List Arg) (w : W)
      → lib.g_min_level (slog_x b out lib l tag fmt args w) ≡ lib.g_min_level w
  unfolding slog_x slog_x_impl
  level-tlog l tag fmt args w =
      if-keeps lib.g_min_level (is_logged (lib.g_min_level w) l) _ w
        (level-slog_print l tag fmt args w)

  level-tlog_trace :
      (l : Letter) (tag : Tag) (func : Text) (line : ℕ) (fmt : Text) (args : List Arg) (w : W)
      → lib.g_min_level (slog_x_trace_impl b out lib l tag func line fmt args w) ≡ lib.g_min_level w
  unfolding slog_x_trace_impl
  level-tlog_trace l tag func line fmt args w =
      if-keeps lib.g_min_level (is_logged (lib.g_min_level w) l) _ w
        (level-slog_print_trace l tag func line fmt args w)

  level-tlog_hex :
      (l : Letter) (tag : Tag) (chars : Text) (n : ℕ) (w : W)
      → lib.g_min_level (slog_x_hex b out lib l tag chars n w) ≡ lib.g_min_level w
  unfolding slog_x_hex
  level-tlog_hex l tag chars n w =
      if-keeps lib.g_min_level (is_logged (lib.g_min_level w) l) _ w
        (laws.level-hex _ tag chars n w)

  if-back :
      (c : Bool) (x w : W)
      → lib.g_min_level x ≡ lib.g_min_level w
      → lib.g_min_level (if c then w else x) ≡ lib.g_min_level w
  if-back true x w e = refl
  if-back false x w e = e

  pub level-enabled :
      (log_tag : Text) (s : Statement) (w : W)
      → IsNamed s
      → lib.g_min_level (enabled (slog_impl b out lib) log_tag s w)
        ≡ next_level (lib.g_min_level w) s
  unfolding IsNamed next_level enabled tlog_x tlog_x_trace log_x log_x_trace tlog_x_hex log_x_hex
      slog_impl log_global_init log_global_cleanup log_set_min_level log_std2file log_back2std
      slog_set_min_level slog_std2file slog_back2std
  level-enabled log_tag global_init w named = refl
  level-enabled log_tag global_cleanup w named = refl
  level-enabled log_tag (set_level n) w named = laws.level-set (as_level n) w named
  level-enabled log_tag (to_file path) w named =
      if-back (is_on b.unsupport_stdout_redirect) _ w (laws.level-stdout2file path w)
  level-enabled log_tag to_std w named =
      if-back (is_on b.unsupport_stdout_redirect) _ w (laws.level-back2stdout w)
  level-enabled log_tag (tlog l tag fmt args) w named = level-tlog l tag fmt args w
  level-enabled log_tag (tlog_trace l tag site fmt args) w named =
      level-tlog_trace l tag site.func site.line fmt args w
  level-enabled log_tag (log l fmt args) w named = level-tlog l (some log_tag) fmt args w
  level-enabled log_tag (log_trace l site fmt args) w named =
      level-tlog_trace l (some log_tag) site.func site.line fmt args w
  level-enabled log_tag (tlog_hex l tag chars n) w named = level-tlog_hex l tag chars n w
  level-enabled log_tag (log_hex l chars n) w named = level-tlog_hex l (some log_tag) chars n w
