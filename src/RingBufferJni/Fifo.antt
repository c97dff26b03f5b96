-- ===== src/RingBufferJni/Fifo.antt =====
-- What toolbox/src/main/cpp/jni_ring_buffer.c promises to Java: a bounded queue of bytes, and the
-- calls on it.
use my_toolbox.Base.{
  ℕ, ◌+◌, ◌-◌, ◌^◌, ◌≤◌, ◌<◌, min, List, [], ◌∷◌, ◌++◌, ℤ, pos, length, take, drop, splice,
}

-- A queue of bytes with room for `capacity` of them.
pub record Fifo : Type 0 where
  pub capacity : ℕ
  pub bytes : List ℕ

-- A call of Java with an offset and a length that are not negative.
pub data Call : Type 0 where
  write_call : (array : List ℕ) (offset len : ℕ) → Call
  read_call : (array : List ℕ) (offset len : ℕ) → Call
  peek_call : (array : List ℕ) (offset len : ℕ) → Call
  discard_call : (len : ℕ) → Call
  clear_call : Call

-- What Java sees of a call: its result and its array.
pub record Seen : Type 0 where
  pub ret : ℤ
  pub array : List ℕ

-- The call on the queue of bytes.
unfoldable pub serve : Call → Fifo → Seen × Fifo
serve (write_call array offset len) q =
    let n = min len (q.capacity - length q.bytes) in
    (
      record { ret = pos n; array = array },
      record q { bytes = q.bytes ++ take n (drop offset array) },
    )
serve (read_call array offset len) q =
    let got = take len q.bytes in
    (
      record { ret = pos (length got); array = splice offset got array },
      record q { bytes = drop len q.bytes },
    )
serve (peek_call array offset len) q =
    let got = take len q.bytes in
    (record { ret = pos (length got); array = splice offset got array }, q)
serve (discard_call len) q = (
  record { ret = pos (min len (length q.bytes)); array = [] },
  record q { bytes = drop len q.bytes },
)
serve clear_call q = (record { ret = pos 0; array = [] }, record q { bytes = [] })

-- The part of the array that a call names lies in the array, and lengths fit an `int`.
abbrev pub IsInside : Call → Type 0
IsInside (write_call array offset len) = (offset + len ≤ length array) × (len < 2 ^ 31)
IsInside (read_call array offset len) = (offset + len ≤ length array) × (len < 2 ^ 31)
IsInside (peek_call array offset len) = (offset + len ≤ length array) × (len < 2 ^ 31)
IsInside (discard_call len) = len < 2 ^ 31
IsInside clear_call = Unit

-- The calls one after the other, with what Java sees of each.
unfoldable pub serve_all : List Call → Fifo → List Seen × Fifo
serve_all [] q = ([], q)
serve_all (c ∷ cs) q =
    let (seen, q') = serve c q in let (rest, q'') = serve_all cs q' in (seen ∷ rest, q'')

abbrev pub AllInside : List Call → Type 0
AllInside [] = Unit
AllInside (c ∷ cs) = IsInside c × AllInside cs
