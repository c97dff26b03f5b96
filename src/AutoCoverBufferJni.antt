-- ===== src/AutoCoverBufferJni.antt =====
-- toolbox/src/main/cpp/jni_auto_cover_buffer.c: the auto cover buffer for Java. A Java array is a
-- list of bytes, and `none` is null, as a handle too.
pub mod Answers
pub mod Tests
use my_toolbox.Base.{
  ℕ, Option, none, some, List, if◌then◌else◌, Run, done, fault, ◌>>=◌, ℤ, pos, negsuc, lt_nat,
  to_u32,
}
use my_toolbox.JavaArray.{store_at, load_at}
use my_toolbox.Lcu.AutoCover.{AutoCover}

module _ (A : AutoCover) where
  -- A result, the handle's buffer and the array as Java sees them after a call.
  pub record Result : Type 0 where
    pub ret : ℤ
    pub buffer : Option A.Buffer
    pub array : List ℕ

  -- create: the result, and what `handle_holder[0]` is then, from what it was.
  unfoldable pub create : ℤ → Option A.Buffer → ℤ × Option A.Buffer
  create buffer_size holder =
      if lt_nat buffer_size 2 then (negsuc 0, holder) else (pos 0, A.create (to_u32 buffer_size))

  unfoldable pub available_read : Option A.Buffer → ℤ → ℤ
  available_read handle read_pos = A.available_read handle (to_u32 read_pos)

  unfoldable pub read : Option A.Buffer → ℤ → Option (List ℕ) → ℤ → ℤ → Run Result
  read handle read_pos none offset len = fault
  read handle read_pos (some array) offset len =
      let (ret, bytes) = A.read handle (to_u32 read_pos) (to_u32 len) in
      store_at offset bytes array >>= λ array'.
      done (record { ret = ret; buffer = handle; array = array' })

  -- The library may read `len` bytes behind the pointer.
  unfoldable pub write : Option A.Buffer → Option (List ℕ) → ℤ → ℤ → Run Result
  write handle none offset len = fault
  write handle (some array) offset len = load_at offset (to_u32 len) array >>= λ source.
      let (ret, handle') = A.write handle source (to_u32 len) in
      done (record { ret = ret; buffer = handle'; array = array })

  -- destroy: the result, and what `handle_holder[0]` is then.
  unfoldable pub destroy : Option A.Buffer → ℤ × Option A.Buffer
  destroy holder = (pos 0, none)
