-- ===== src/JniToolbox/Tests.antt =====
-- The life of the library of toolbox/src/main/cpp/jni_toolbox.c over a logger that keeps the
-- formats.
use my_toolbox.Base.{◌≡◌, refl, List, [], ◌∷◌, pos}
use my_toolbox.Log.{Text, codes}
use my_toolbox.Log.Facade.{Impl, log_x, tlog_x}
use my_toolbox.JniToolbox.{LcuLib, jni_on_load, jni_on_unload}

abbrev lines : Impl (List Text)
lines = record {
  init = λ w. w;
  deinit = λ w. w;
  set_min_level = λ n w. w;
  get_min_level = λ w. 1;
  std2file = λ path w. w;
  back2std = λ w. w;
  print = λ l tag fmt args w. fmt ∷ w;
  print_trace = λ l tag func line fmt args w. fmt ∷ w;
  print_hex = λ l tag chars n w. chars ∷ w;
}

abbrev lcu : LcuLib (List Text)
lcu = record {
  get_version = λ w. codes "1.8.0";
  global_init = λ w. (pos 0, codes "init" ∷ w);
  global_cleanup = λ w. (pos 0, codes "cleanup" ∷ w);
}

-- The last event first.
abbrev events : List Text
events =
    codes "cleanup"
    ∷ codes "JNI_OnUnload called"
    ∷ codes "JNI_OnLoad called. lcu init=%d, ver=%s"
    ∷ codes "init"
    ∷ []

library_events : jni_on_unload lines lcu ((jni_on_load lines lcu (pos 65542) []).1) ≡ events
unfolding jni_on_load jni_on_unload log_x tlog_x
library_events = refl
