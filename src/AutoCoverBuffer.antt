-- ===== src/AutoCoverBuffer.antt =====
-- toolbox/src/main/java/com/threshold/toolbox/AutoCoverBuffer.java: the class through which Java
-- uses toolbox/src/main/cpp/jni_auto_cover_buffer.c.
pub mod Position
mod Tests
use my_toolbox.Base.{
  ℕ, ◌+◌, ◌^◌, ◌%◌, ◌==◌, Option, none, some, List, ℤ, pos, negsuc, lt_nat, gt_nat, to_u32, of_u32,
  if◌then◌else◌, Run, done, ◌>>=◌, length,
}
use my_toolbox.Lcu.AutoCover.{AutoCover}
use my_toolbox.AutoCoverBufferJni.{Result}
use my_toolbox.AutoCoverBufferJni

-- The sum of two values of the Java `int`.
abbrev pub add_int : ℤ → ℤ → ℤ
add_int x y = of_u32 ((to_u32 x + to_u32 y) % 2 ^ 32)

module _ (A : AutoCover) where
  -- `mNativeHandle`, `none` for 0, and `mWritePos`.
  pub record AutoCoverBuffer : Type 0 where
    pub native_handle : Option A.Buffer
    pub write_pos : ℤ

  -- The constructor: the object, or `none` if it throws.
  unfoldable pub new_auto_cover_buffer : ℤ → Option AutoCoverBuffer
  new_auto_cover_buffer buffer_size =
      if lt_nat buffer_size 2
      then none
      else (let (ret, handle) = AutoCoverBufferJni.create A buffer_size none in
          elim ret [
            | pos n ↦
                if n == 0
                then elim handle [
                  | none ↦ none
                  | some b ↦ some (record { native_handle = some b; write_pos = pos 0 })
                ]
                else none
            | negsuc _ ↦ none
          ])

  unfoldable pub available_read_len : AutoCoverBuffer → ℤ → ℤ
  available_read_len o read_pos = AutoCoverBufferJni.available_read A o.native_handle read_pos

  -- What a write leaves of the object: the handle's buffer, and the position.
  unfoldable pub written : AutoCoverBuffer → Result A → ℤ × AutoCoverBuffer
  written o r = (
    r.ret,
    record {
      native_handle = r.buffer;
      write_pos = if gt_nat r.ret 0 then add_int o.write_pos r.ret else o.write_pos;
    },
  )

  unfoldable pub write : AutoCoverBuffer → Option (List ℕ) → ℤ → ℤ → Run (ℤ × AutoCoverBuffer)
  write o bytes offset len =
      AutoCoverBufferJni.write A o.native_handle bytes offset len >>= λ r. done (written o r)

  -- write of a whole array, not null.
  unfoldable pub write_all : AutoCoverBuffer → List ℕ → Run (ℤ × AutoCoverBuffer)
  unfolding write
  write_all o bytes = write o (some bytes) (pos 0) (pos (length bytes))

  unfoldable pub read : AutoCoverBuffer → ℤ → Option (List ℕ) → ℤ → ℤ → Run (Result A)
  read o read_pos buffer offset len =
      AutoCoverBufferJni.read A o.native_handle read_pos buffer offset len

  -- read into a whole array, not null.
  unfoldable pub read_all : AutoCoverBuffer → ℤ → List ℕ → Run (Result A)
  unfolding read
  read_all o read_pos buffer = read o read_pos (some buffer) (pos 0) (pos (length buffer))

  -- close
  unfoldable pub close : AutoCoverBuffer → AutoCoverBuffer
  close o = elim (o.native_handle) [ none ↦ o | some _ ↦ record o { native_handle = none } ]
