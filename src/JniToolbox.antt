-- ===== src/JniToolbox.antt =====
-- toolbox/src/main/cpp/jni_toolbox.c: what the JVM calls when it loads and unloads the library,
-- over toolbox/src/main/cpp/lcu/lcu.h.
mod Tests
use my_toolbox.Base.{ℤ, List, [], ◌∷◌, none, some}
use my_toolbox.Log.{Text, Arg, string_arg, int_arg, letter_i, logger_tag, codes}
use my_toolbox.Log.Facade.{Impl, log_x}

-- The prebuilt functions of lcu.h.
pub record LcuLib (W : Type 0) : Type 0 where
  pub get_version : W → Text
  pub global_init : W → ℤ × W
  pub global_cleanup : W → ℤ × W

-- LOG_TAG of the file, with neither a prefix nor a suffix.
abbrev pub tag : Text
tag = logger_tag none (codes "JNI_Toolbox") none

module _ {W : Type 0} (impl : Impl W) (lcu : LcuLib W) where
  -- JNI_OnLoad; `jni_version_1_6` is the constant of <jni.h>.
  unfoldable pub jni_on_load : (jni_version_1_6 : ℤ) → W → ℤ × W
  jni_on_load jni_version_1_6 w =
      let (ret, ready) = lcu.global_init w in
      let args : List Arg = int_arg ret ∷ string_arg (some (lcu.get_version ready)) ∷ [] in
      (
        jni_version_1_6,
        log_x impl tag letter_i (codes "JNI_OnLoad called. lcu init=%d, ver=%s") args ready,
      )

  -- JNI_OnUnload
  unfoldable pub jni_on_unload : W → W
  jni_on_unload w =
      (lcu.global_cleanup (log_x impl tag letter_i (codes "JNI_OnUnload called") [] w)).1
