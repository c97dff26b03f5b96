-- ===== src/IoHelper/Directory.antt =====
-- What toolbox/src/main/cpp/jni_io_helper.c does to the working directory.
use my_toolbox.Base.{
  ℕ, ◌≡◌, refl, Option, none, some, List, true, pos, negsuc, arith, ◌⊎◌, inl, inr, Bool-cases,
}
use my_toolbox.IoHelper.{System, is_success, IsLawful, Process, release, change, native_chdir}

module _ (S : System) where
  -- The directory has changed as chdir of the system changes it.
  pub record IsChanged (path : Option (Option (List ℕ))) (p p' : Process S) : Type 0 where
    pub name : List ℕ
    pub given : path ≡ some (some name)
    pub accessible : is_success (S.access name p.fs) ≡ true
    pub changed : is_success (S.chdir name p.fs).0 ≡ true
    pub fs : p'.fs ≡ (S.chdir name p.fs).1

module _ (S : System) (L : IsLawful S) where
  change-cases :
      (name : List ℕ) (p : Process S)
      → (((native_chdir S (some (some name)) p).0 ≡ pos 0)
          × IsChanged S (some (some name)) p (native_chdir S (some (some name)) p).1)
        ⊎ (((native_chdir S (some (some name)) p).0 ≡ negsuc 0)
            × ((native_chdir S (some (some name)) p).1 ≡ p))
  unfolding native_chdir release change
  change-cases name p = elim (Bool-cases (is_success (S.access name p.fs))) [
    | inr blocked ↦ inr (rw blocked (refl, ground arith))
    | inl accessible ↦ elim (Bool-cases (is_success (S.chdir name p.fs).0)) [
      | inl changed ↦ inl (
        rw (accessible, changed) refl,
        record {
          name = name;
          given = refl;
          accessible = accessible;
          changed = changed;
          fs = rw (accessible, changed) refl;
        },
      )
      | inr failed ↦
          inr (rw (accessible, failed) refl, ground (arith, L.chdir_failed name p.fs failed))
    ]
  ]

  -- nativeChdir returns 0 and has changed the directory to an accessible path, or it returns -1 and
  -- nothing of the process has changed. Either way the borrowed string is given back.
  pub native_chdir-IsChanged :
      (path : Option (Option (List ℕ))) (p : Process S)
      → ((native_chdir S path p).1.lent ≡ p.lent)
        × ((((native_chdir S path p).0 ≡ pos 0) × IsChanged S path p (native_chdir S path p).1)
            ⊎ (((native_chdir S path p).0 ≡ negsuc 0) × ((native_chdir S path p).1 ≡ p)))
  unfolding native_chdir release change
  native_chdir-IsChanged none p = (refl, inr (refl, refl))
  native_chdir-IsChanged (some none) p = (refl, inr (refl, refl))
  native_chdir-IsChanged (some (some name)) p = (ground arith, change-cases name p)
