-- ===== src/Log/Own.antt =====
-- The macros of a program that includes toolbox/src/main/cpp/lcu/log/slog.h or xlog.h alone,
-- against those that it gets from log/logger.h.
use my_toolbox.Base.{◌≡◌, refl, Bool, true, false, ◌||◌, none, some, if◌then◌else◌}
use my_toolbox.Log.{
  Text, Statement, global_init, global_cleanup, set_level, to_file, to_std, tlog, tlog_trace, log,
  log_trace, tlog_hex, log_hex, Build, Output, is_on,
}
use my_toolbox.Log.Facade.{
  enabled, log_std2file, log_back2std, tlog_x, tlog_x_trace, log_x, log_x_trace, tlog_x_hex,
  log_x_hex,
}
use my_toolbox.Log.Slog
use my_toolbox.Log.Slog.{SlogLib}
use my_toolbox.Log.Xlog
use my_toolbox.Log.Xlog.{XlogLib}
use my_toolbox.Log.Backend.{
  slog_impl, xlog_impl, xlog_std2file, xlog_back2std, xlog_x_impl, xlog_x_trace_impl,
  xlog_x_hex_impl,
}

-- The macros that print.
unfoldable pub is_message : Statement → Bool
is_message global_init = false
is_message global_cleanup = false
is_message (set_level n) = false
is_message (to_file path) = false
is_message to_std = false
is_message (tlog l tag fmt args) = true
is_message (tlog_trace l tag site fmt args) = true
is_message (log l fmt args) = true
is_message (log_trace l site fmt args) = true
is_message (tlog_hex l tag chars n) = true
is_message (log_hex l chars n) = true

-- LOG_STD2FILE and LOG_BACK2STD
unfoldable pub is_redirect : Statement → Bool
is_redirect (to_file path) = true
is_redirect to_std = true
is_redirect s = false

own_slog :
    {W : Type 0} (b : Build) (out : Output W) (lib : SlogLib W) (log_tag : Text) (s : Statement)
    (w : W)
    → Slog.own_statement b out lib log_tag s w
      ≡ (if is_message s then some (enabled (slog_impl b out lib) log_tag s w) else none)
unfolding is_message Slog.own_statement Slog.own_log Slog.own_log_trace Slog.own_log_hex
    Slog.own_tlog Slog.own_tlog_trace Slog.own_tlog_hex Slog.slog_x_trace enabled tlog_x
    tlog_x_trace log_x log_x_trace tlog_x_hex log_x_hex slog_impl
own_slog b out lib log_tag global_init w = refl
own_slog b out lib log_tag global_cleanup w = refl
own_slog b out lib log_tag (set_level n) w = refl
own_slog b out lib log_tag (to_file path) w = refl
own_slog b out lib log_tag to_std w = refl
own_slog b out lib log_tag (tlog l tag fmt args) w = refl
own_slog b out lib log_tag (tlog_trace l tag site fmt args) w = refl
own_slog b out lib log_tag (log l fmt args) w = refl
own_slog b out lib log_tag (log_trace l site fmt args) w = refl
own_slog b out lib log_tag (tlog_hex l tag chars n) w = refl
own_slog b out lib log_tag (log_hex l chars n) w = refl

own_xlog :
    {W : Type 0} (b : Build) (lib : XlogLib W) (log_tag : Text) (s : Statement) (w : W)
    → is_on b.xlog_off ≡ false
    → is_on b.unsupport_printf_redirect ≡ is_on b.unsupport_stdout_redirect
    → Xlog.own_statement lib b (some log_tag) s w ≡ (
        if is_message s || is_redirect s
        then some (enabled (xlog_impl b lib) log_tag s w)
        else none)
unfolding is_message is_redirect Xlog.own_statement Xlog.own_log Xlog.own_log_trace Xlog.own_log_hex
    Xlog.own_tlog Xlog.own_tlog_trace Xlog.own_tlog_hex Xlog.own_std2file Xlog.own_back2std enabled
    log_std2file log_back2std tlog_x tlog_x_trace log_x log_x_trace tlog_x_hex log_x_hex xlog_impl
    xlog_std2file xlog_back2std xlog_x_impl xlog_x_trace_impl xlog_x_hex_impl
own_xlog b lib log_tag global_init w on same = refl
own_xlog b lib log_tag global_cleanup w on same = refl
own_xlog b lib log_tag (set_level n) w on same = refl
own_xlog b lib log_tag (to_file path) w on same = rw (on, same) refl
own_xlog b lib log_tag to_std w on same = rw (on, same) refl
own_xlog b lib log_tag (tlog l tag fmt args) w on same = rw on refl
own_xlog b lib log_tag (tlog_trace l tag site fmt args) w on same = rw on refl
own_xlog b lib log_tag (log l fmt args) w on same = rw on refl
own_xlog b lib log_tag (log_trace l site fmt args) w on same = rw on refl
own_xlog b lib log_tag (tlog_hex l tag chars n) w on same = rw on refl
own_xlog b lib log_tag (log_hex l chars n) w on same = rw on refl

-- A file that includes slog.h or xlog.h alone gets the same logging as through logger.h: slog.h
-- has its own macro for exactly the statements that print, xlog.h also for the two that redirect
-- the output, and each does what the facade over that logger does, with the same tag. For xlog.h,
-- LCU_XLOG_OFF is off and the two macros that say whether the output can be redirected agree.
own_statement-enabled :
    {W : Type 0} (b : Build) (out : Output W) (slog : SlogLib W) (xlog : XlogLib W) (log_tag : Text)
    (s : Statement) (w : W)
    → is_on b.xlog_off ≡ false
    → is_on b.unsupport_printf_redirect ≡ is_on b.unsupport_stdout_redirect
    → (Slog.own_statement b out slog log_tag s w
        ≡ (if is_message s then some (enabled (slog_impl b out slog) log_tag s w) else none))
      × (Xlog.own_statement xlog b (some log_tag) s w ≡ (
          if is_message s || is_redirect s
          then some (enabled (xlog_impl b xlog) log_tag s w)
          else none))
own_statement-enabled b out slog xlog log_tag s w on same =
    (own_slog b out slog log_tag s w, own_xlog b xlog log_tag s w on same)
