-- ===== src/AutoCoverBufferJni/Answers.antt =====
-- What Java sees of a write in toolbox/src/main/cpp/jni_auto_cover_buffer.c.
use my_toolbox.Base.{
  ℕ, ◌+◌, ◌^◌, ◌≡◌, refl, ◌≤◌, ◌<◌, ◌⊎◌, Option, some, List, done, pos, to_u32, length, drop, arith,
}
use my_toolbox.JavaArray.{load_at-drop}
use my_toolbox.Lcu.AutoCover.{AutoCover, IsLawful, IsErrorCode, IsCount}
use my_toolbox.AutoCoverBufferJni.{Result, write}

module _ (A : AutoCover) where
  module _ (L : IsLawful A) where
    u32 : (n : ℕ) → n < 2 ^ 31 → to_u32 (pos n) ≡ n
    u32 n h = omega arith

    -- A write of a part of the array ends without a fault, leaves the array, and returns a number
    -- of bytes, `len` at most, or the library's error code.
    pub write-IsCount :
        (handle : Option A.Buffer) (array : List ℕ) (offset len : ℕ)
        → len < 2 ^ 31
        → offset + len ≤ length array
        → (r : Result A) × (write A handle (some array) (pos offset) (pos len) ≡ done r)
          × (r.array ≡ array)
          × (IsCount len r.ret ⊎ IsErrorCode r.ret)
    unfolding write
    write-IsCount handle array offset len small inside = (
      record {
        ret = (A.write handle (drop offset array) len).0;
        buffer = (A.write handle (drop offset array) len).1;
        array = array;
      },
      simp (u32 len small, load_at-drop offset len array inside),
      refl,
      L.write_answer handle (drop offset array) len,
    )
