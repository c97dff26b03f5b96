-- ===== src/NativeResample/Buffers.antt =====
-- On app/src/main/cpp/native-resample.cpp.
-- What NativeResampleJni gives back to Java, and the life of its static buffer.
use my_toolbox.Base.{ℕ, ◌+◌, ◌≡◌, List, [], ◌∷◌, Bool, if◌then◌else◌, arith}
use my_toolbox.NativeResample.Jni.{Buffer, init_buffer, deinit}

-- A call of init, with the answer of `malloc`, or of deinit.
pub data BufferCall : Type 0 where
  init_call : Bool → BufferCall
  deinit_call : BufferCall

pub run : List BufferCall → Buffer → Buffer
run [] b = b
run (init_call granted ∷ calls) b = run calls (init_buffer granted b).1
run (deinit_call ∷ calls) b = run calls (deinit b).1

-- Whatever calls of init and deinit follow one another, from a state in which the process holds
-- the block of `pOutCharBuffer` exactly if the pointer is not null, such a state is reached
-- again: no call leaks the block or frees it twice.
pub run-blocks :
    (calls : List BufferCall) (b : Buffer) (base : ℕ)
    → b.blocks ≡ base + (if b.out then 1 else 0)
    → (run calls b).blocks ≡ base + (if (run calls b).out then 1 else 0)
unfolding run init_buffer deinit
run-blocks [] b base h = h
run-blocks (init_call granted ∷ calls) b base h =
    run-blocks calls (init_buffer granted b).1 base (ground arith)
run-blocks (deinit_call ∷ calls) b base h = run-blocks calls (deinit b).1 base (ground arith)
