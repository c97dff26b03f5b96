-- ===== src/RingBuffer.antt =====
-- toolbox/src/main/java/com/threshold/toolbox/RingBuffer.java: the class through which Java uses
-- toolbox/src/main/cpp/jni_ring_buffer.c. An object is its `mNativeHandle`: the buffer that it
-- leads to, `none` for 0. The documentation forbids a call on it then, which is a fault here.
pub mod Session
mod Tests
use my_toolbox.Base.{
  ℕ, ◌==◌, Bool, Option, none, some, List, [], ℤ, pos, negsuc, lt_nat, if◌then◌else◌, Run, done,
  fault, ◌>>=◌, length,
}
use my_toolbox.Lcu.Ring.{Ring}
use my_toolbox.RingBufferJni.{Result}
use my_toolbox.RingBufferJni

module _ (R : Ring) where
  -- `mNativeHandle` in a call of RingBufferJni.
  abbrev pub with_handle {ℓ} : {X : Type ℓ} → Option R.Buffer → (R.Buffer → Run X) → Run X
  with_handle none f = fault
  with_handle (some b) f = f b

  -- The constructor: the object, or `none` if it throws.
  unfoldable pub new_ring_buffer : ℤ → Option R.Buffer
  new_ring_buffer buffer_size =
      if lt_nat buffer_size 2
      then none
      else (let (ret, handle) = RingBufferJni.create R buffer_size none in
          elim ret [ pos n ↦ if n == 0 then handle else none | negsuc _ ↦ none ])

  unfoldable pub available_read_len : Option R.Buffer → Run ℤ
  available_read_len handle = with_handle handle (λ b. done (RingBufferJni.available_read R b))

  unfoldable pub available_write_len : Option R.Buffer → Run ℤ
  available_write_len handle = with_handle handle (λ b. done (RingBufferJni.available_write R b))

  unfoldable pub is_empty : Option R.Buffer → Run Bool
  unfolding available_read_len
  is_empty handle = available_read_len handle >>= λ n. done (lt_nat n 1)

  unfoldable pub is_full : Option R.Buffer → Run Bool
  unfolding available_write_len
  is_full handle = available_write_len handle >>= λ n. done (lt_nat n 1)

  unfoldable pub write : Option R.Buffer → Option (List ℕ) → ℤ → ℤ → Run (Result R)
  write handle bytes offset len = with_handle handle (λ b. RingBufferJni.write R b bytes offset len)

  -- write of a whole array, not null.
  unfoldable pub write_all : Option R.Buffer → List ℕ → Run (Result R)
  unfolding write
  write_all handle bytes = write handle (some bytes) (pos 0) (pos (length bytes))

  unfoldable pub read : Option R.Buffer → Option (List ℕ) → ℤ → ℤ → Run (Result R)
  read handle buffer offset len = with_handle handle (λ b. RingBufferJni.read R b buffer offset len)

  -- read into a whole array, not null.
  unfoldable pub read_all : Option R.Buffer → List ℕ → Run (Result R)
  unfolding read
  read_all handle buffer = read handle (some buffer) (pos 0) (pos (length buffer))

  unfoldable pub discard : Option R.Buffer → ℤ → Run (ℤ × R.Buffer)
  discard handle len = with_handle handle (λ b. done (RingBufferJni.discard R b len))

  unfoldable pub peek : Option R.Buffer → Option (List ℕ) → ℤ → ℤ → Run (Result R)
  peek handle buffer offset len = with_handle handle (λ b. RingBufferJni.peek R b buffer offset len)

  -- peek into a whole array, not null: it calls `read`.
  unfoldable pub peek_all : Option R.Buffer → List ℕ → Run (Result R)
  unfolding read
  peek_all handle buffer = read handle (some buffer) (pos 0) (pos (length buffer))

  unfoldable pub clear : Option R.Buffer → Run R.Buffer
  clear handle = with_handle handle (λ b. done (RingBufferJni.clear R b).1)

  -- close: what `mNativeHandle` is then.
  unfoldable pub close : Option R.Buffer → Option R.Buffer
  close none = none
  close (some b) = none
