-- ===== src/IoHelper/Tests.antt =====
-- Runs of toolbox/src/main/cpp/jni_io_helper.c on a system with two directories.
use my_toolbox.Base.{
  ℕ, ◌≡◌, refl, some, List, [], ◌∷◌, false, ◌==◌, if◌then◌else◌, ℤ, pos, negsuc, ◌⊎◌, arith, length,
}
use my_toolbox.IoHelper.{
  System, is_success, IsLawful, Process, release, change, native_chdir, c_string, native_get_cwd,
}
use my_toolbox.IoHelper.Directory.{IsChanged, native_chdir-IsChanged}

-- Paths of one byte can be entered.
abbrev enter : List ℕ → List ℕ → ℤ × List ℕ
enter path fs = if length path == 1 then (pos 0, path) else (negsuc 0, fs)

abbrev system : System
system = record {
  Fs = List ℕ;
  access = λ path fs. pos 0;
  chdir = enter;
  getcwd = λ fs size. some fs;
}

enter-failed : (path fs : List ℕ) → is_success (enter path fs).0 ≡ false → (enter path fs).1 ≡ fs
enter-failed path fs h = ground arith

system-IsLawful : IsLawful system
system-IsLawful = record { chdir_failed = enter-failed }

abbrev at_home : Process system
at_home = record { fs = 104 ∷ []; lent = 2 }

get_cwd-chdir :
    native_get_cwd system (native_chdir system (some (some (46 ∷ []))) at_home).1 ≡ 46 ∷ []
unfolding native_chdir release change native_get_cwd c_string
get_cwd-chdir = refl

native_chdir-IsChanged_example :
    ((native_chdir system (some (some (46 ∷ []))) at_home).1.lent ≡ 2)
    × ((((native_chdir system (some (some (46 ∷ []))) at_home).0 ≡ pos 0)
          × IsChanged system
              (some (some (46 ∷ [])))
              at_home
              (native_chdir system (some (some (46 ∷ []))) at_home).1)
        ⊎ (((native_chdir system (some (some (46 ∷ []))) at_home).0 ≡ negsuc 0)
            × ((native_chdir system (some (some (46 ∷ []))) at_home).1 ≡ at_home)))
native_chdir-IsChanged_example =
    native_chdir-IsChanged system system-IsLawful (some (some (46 ∷ []))) at_home
