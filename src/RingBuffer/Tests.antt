-- ===== src/RingBuffer/Tests.antt =====
-- On toolbox/src/main/java/com/threshold/toolbox/RingBuffer.java.
-- The theorems about a RingBuffer at concrete data.
use my_toolbox.Base.{◌≡◌, refl, ◌↔◌, Bool, true, some, List, [], ◌∷◌, map, pos, arith, done}
use my_toolbox.RingBufferJni.{Result}
use my_toolbox.RingBufferJni.Fifo.{serve, serve_all}
use my_toolbox.RingBufferJni.Refinement.{view}
use my_toolbox.RingBufferJni.Tests.{queue, queue-IsLawful, half_full}
use my_toolbox.RingBuffer.{is_empty, is_full, read_all, write_all, peek, peek_all}
use my_toolbox.RingBuffer.Session.{
  Method, writes, reads, peeks, peeks_part, as_call, program, program-serve_all, peek_all-removes,
  is_empty-read_all,
}

abbrev methods : List Method
methods =
    writes (7 ∷ 8 ∷ 9 ∷ [])
    ∷ peeks_part (0 ∷ 0 ∷ 0 ∷ []) 1 2
    ∷ peeks (0 ∷ 0 ∷ [])
    ∷ reads (0 ∷ 0 ∷ 0 ∷ [])
    ∷ []

-- The second peek takes two bytes out, so that two are left to read.
methods_seen :
    (serve_all (map as_call methods) (view queue half_full)).0
    ≡ record { ret = pos 2; array = 7 ∷ 8 ∷ 9 ∷ [] }
      ∷ record { ret = pos 2; array = 0 ∷ 1 ∷ 2 ∷ [] }
      ∷ record { ret = pos 2; array = 1 ∷ 2 ∷ [] }
      ∷ record { ret = pos 2; array = 7 ∷ 8 ∷ 0 ∷ [] }
      ∷ []
unfolding serve_all serve
methods_seen = refl

program-serve_all_example :
    (b' : queue.Buffer) × (program queue methods (some half_full)
      ≡ done ((serve_all (map as_call methods) (view queue half_full)).0, some b'))
    × (view queue b' ≡ (serve_all (map as_call methods) (view queue half_full)).1)
program-serve_all_example =
    program-serve_all queue queue-IsLawful methods half_full
      (omega arith, ((omega arith, omega arith), (omega arith, (omega arith, tt))))

peek_all-removes_example :
    (r r' : Result queue) × (peek_all queue (some half_full) (0 ∷ []) ≡ done r)
    × (peek queue (some half_full) (some (0 ∷ [])) (pos 0) (pos 1) ≡ done r')
    × (r.ret ≡ r'.ret)
    × (r.array ≡ r'.array)
    × (r'.buffer.bytes ≡ 1 ∷ 2 ∷ [])
    × (r.buffer.bytes ≡ 2 ∷ [])
peek_all-removes_example = peek_all-removes queue queue-IsLawful half_full (0 ∷ []) (omega arith)

is_empty-read_all_example :
    (empty full : Bool) × (r w : Result queue) × (is_empty queue (some half_full) ≡ done empty)
    × (is_full queue (some half_full) ≡ done full)
    × (read_all queue (some half_full) (0 ∷ []) ≡ done r)
    × (write_all queue (some half_full) (0 ∷ []) ≡ done w)
    × ((empty ≡ true) ↔ (r.ret ≡ pos 0))
    × ((full ≡ true) ↔ (w.ret ≡ pos 0))
is_empty-read_all_example =
    is_empty-read_all queue queue-IsLawful half_full (0 ∷ []) (omega arith) (omega arith)
      (omega arith) (omega arith)
