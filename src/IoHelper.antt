-- ===== src/IoHelper.antt =====
-- toolbox/src/main/cpp/jni_io_helper.c: the working directory for Java. The file system is a
-- parameter; the strings that the JVM has lent out are counted.
mod Tests
pub mod Directory
use my_toolbox.Base.{
  ℕ, ◌≡◌, ◌+◌, ◌-◌, Option, none, some, List, [], ◌∷◌, Bool, true, false, not, ◌==◌, if◌then◌else◌,
  ℤ, pos, negsuc, replicate,
}

-- The calls of the system. `getcwd path size` is the name, and `none` is NULL.
pub record System : Type 1 where
  pub Fs : Type 0
  pub access : List ℕ → Fs → ℤ
  pub chdir : List ℕ → Fs → ℤ × Fs
  pub getcwd : Fs → (size : ℕ) → Option (List ℕ)

abbrev pub is_success : ℤ → Bool
is_success (pos n) = n == 0
is_success (negsuc n) = false

-- A failing chdir changes nothing.
pub record IsLawful (S : System) : Type 0 where
  pub chdir_failed :
      (path : List ℕ) (fs : S.Fs)
      → is_success (S.chdir path fs).0 ≡ false
      → (S.chdir path fs).1 ≡ fs

module _ (S : System) where
  pub record Process : Type 0 where
    pub fs : S.Fs
    pub lent : ℕ

  -- ReleaseStringUTFChars at the end of nativeChdir.
  unfoldable pub release : ℤ × Process → ℤ × Process
  release (ret, p) = (ret, record p { lent = p.lent - 1 })

  -- The block of nativeChdir behind the string.
  unfoldable pub change : List ℕ → Process → ℤ × Process
  change path p =
      if not (is_success (S.access path p.fs))
      then (negsuc 0, p)
      else let (code, fs) = S.chdir path p.fs in
        if not (is_success code)
        then (negsuc 0, record p { fs = fs })
        else (pos 0, record p { fs = fs })

  -- nativeChdir: `path_obj` is `none` if it is null, and inside it `none` if GetStringUTFChars
  -- fails.
  unfoldable pub native_chdir : Option (Option (List ℕ)) → Process → ℤ × Process
  native_chdir none p = (negsuc 0, p)
  native_chdir (some none) p = (negsuc 0, p)
  native_chdir (some (some path)) p = release (change path (record p { lent = p.lent + 1 }))

  -- The bytes in front of the first zero.
  unfoldable pub c_string : List ℕ → List ℕ
  c_string [] = []
  c_string (x ∷ xs) = if x == 0 then [] else x ∷ c_string xs

  -- nativeGetCwd: the bytes of the Java string. A failing getcwd leaves the cleared buffer.
  unfoldable pub native_get_cwd : Process → List ℕ
  native_get_cwd p = elim (S.getcwd p.fs 256) [
    | none ↦ c_string (replicate 256 0)
    | some name ↦ c_string name
  ]
