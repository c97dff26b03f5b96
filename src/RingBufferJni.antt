-- ===== src/RingBufferJni.antt =====
-- toolbox/src/main/cpp/jni_ring_buffer.c: the ring buffer for Java. A Java array is a list of
-- bytes, and `none` is null. A function returns its result, the handle and the array as Java sees
-- it after.
pub mod Fifo
pub mod Refinement
pub mod Tests
use my_toolbox.Base.{
  ℕ, ◌+◌, ◌≡◌, min, Option, none, some, List, [], ◌∷◌, Bool, true, false, leb, if◌then◌else◌, Run,
  done, fault, ◌>>=◌, ℤ, pos, negsuc, lt_nat, to_u32, of_u32, length, drop, splice, ◌&&◌,
}
use my_toolbox.JavaArray.{store_at, load_at}
use my_toolbox.Lcu.Ring.{Ring}

module _ (R : Ring) where
  pub record Result : Type 0 where
    pub ret : ℤ
    pub buffer : R.Buffer
    pub array : List ℕ

  -- create: the result, and what `handle_holder[0]` is then, from what it was.
  unfoldable pub create : ℤ → Option R.Buffer → ℤ × Option R.Buffer
  create buffer_size holder =
      if lt_nat buffer_size 2 then (negsuc 0, holder) else (pos 0, R.create (to_u32 buffer_size))

  unfoldable pub available_read : R.Buffer → ℤ
  available_read b = of_u32 (R.available_read b)

  unfoldable pub available_write : R.Buffer → ℤ
  available_write b = of_u32 (R.available_write b)

  unfoldable pub discard : R.Buffer → ℤ → ℤ × R.Buffer
  discard b len = let (b', n) = R.discard b (to_u32 len) in (of_u32 n, b')

  unfoldable pub peek : R.Buffer → Option (List ℕ) → ℤ → ℤ → Run Result
  peek b none offset len = fault
  peek b (some array) offset len =
      let bytes = R.peek b (to_u32 len) in
      store_at offset bytes array >>= λ array'.
      done (record { ret = of_u32 (length bytes); buffer = b; array = array' })

  unfoldable pub read : R.Buffer → Option (List ℕ) → ℤ → ℤ → Run Result
  read b none offset len = fault
  read b (some array) offset len =
      let (b', bytes) = R.read b (to_u32 len) in
      store_at offset bytes array >>= λ array'.
      done (record { ret = of_u32 (length bytes); buffer = b'; array = array' })

  unfoldable pub write : R.Buffer → Option (List ℕ) → ℤ → ℤ → Run Result
  write b none offset len = fault
  write b (some array) offset len =
      load_at offset (min (to_u32 len) (R.available_write b)) array >>= λ source.
      let (b', n) = R.write b source (to_u32 len) in
      done (record { ret = of_u32 n; buffer = b'; array = array })

  unfoldable pub clear : R.Buffer → ℤ × R.Buffer
  clear b = (pos 0, R.clear b)

  -- destroy: the result, and what `handle_holder[0]` is then.
  unfoldable pub destroy : Option R.Buffer → ℤ × Option R.Buffer
  destroy holder = (pos 0, none)
