-- ===== src/RingBufferJni/Tests.antt =====
-- On toolbox/src/main/cpp/jni_ring_buffer.c.
-- A ring buffer that meets the header's documentation, and the theorems over it at concrete data.
use my_toolbox.Base.{
  ℕ, ◌-◌, ◌≡◌, refl, min, some, List, [], ◌∷◌, ◌++◌, pos, negsuc, arith, done, fault, length, take,
  drop,
}
use my_toolbox.Lcu.Ring.{Ring, IsLawful}
use my_toolbox.RingBufferJni.{read}
use my_toolbox.RingBufferJni.Fifo.{Call, write_call, read_call, discard_call, serve, serve_all}
use my_toolbox.RingBufferJni.Refinement.{session, session-serve_all, read-negative, view}

abbrev pub queue : Ring
queue = record {
  Buffer = record { room : ℕ; bytes : List ℕ };
  create = λ n. some (record { room = n; bytes = [] });
  available_read = λ b. length b.bytes;
  available_write = λ b. b.room - length b.bytes;
  read = λ b n. (record { room = b.room; bytes = drop n b.bytes }, take n b.bytes);
  peek = λ b n. take n b.bytes;
  discard = λ b n. (record { room = b.room; bytes = drop n b.bytes }, min n (length b.bytes));
  write = λ b source n. (
    record { room = b.room; bytes = b.bytes ++ take (min n (b.room - length b.bytes)) source },
    min n (b.room - length b.bytes),
  );
  clear = λ b. record { room = b.room; bytes = [] };
  contents = λ b. b.bytes;
  capacity = λ b. b.room;
}

pub queue-IsLawful : IsLawful queue
queue-IsLawful = record {
  available_read = λ b. refl;
  available_write = λ b. refl;
  read_bytes = λ b n. refl;
  read_rest = λ b n. refl;
  read_capacity = λ b n. refl;
  peek_bytes = λ b n. refl;
  discard_count = λ b n. refl;
  discard_rest = λ b n. refl;
  discard_capacity = λ b n. refl;
  write_count = λ b source n. refl;
  write_bytes = λ b source n. refl;
  write_capacity = λ b source n. refl;
  clear_bytes = λ b. refl;
  clear_capacity = λ b. refl;
}

abbrev pub half_full : queue.Buffer
half_full = record { room = 4; bytes = 1 ∷ 2 ∷ [] }

abbrev calls : List Call
calls =
    write_call (7 ∷ 8 ∷ 9 ∷ 10 ∷ []) 1 3 ∷ read_call (0 ∷ 0 ∷ 0 ∷ 0 ∷ []) 1 3 ∷ discard_call 9 ∷ []

-- Of three bytes two fit; then three are read, and the last is dropped.
calls_seen :
    (serve_all calls (view queue half_full)).0
    ≡ record { ret = pos 2; array = 7 ∷ 8 ∷ 9 ∷ 10 ∷ [] }
      ∷ record { ret = pos 3; array = 0 ∷ 1 ∷ 2 ∷ 8 ∷ [] }
      ∷ record { ret = pos 1; array = [] }
      ∷ []
unfolding serve_all serve
calls_seen = refl

session-serve_all_example :
    (b' : queue.Buffer) × (session queue calls half_full
      ≡ done ((serve_all calls (view queue half_full)).0, b'))
    × (view queue b' ≡ (serve_all calls (view queue half_full)).1)
session-serve_all_example = session-serve_all queue queue-IsLawful calls half_full (omega arith)

read-negative_example : read queue half_full (some (0 ∷ 0 ∷ [])) (pos 1) (negsuc 0) ≡ fault
read-negative_example =
    read-negative queue queue-IsLawful half_full (0 ∷ 0 ∷ []) 1 0 (omega arith) (omega arith)
      (omega arith) (omega arith)
