-- ===== src/RingBufferJni/Refinement.antt =====
-- On toolbox/src/main/cpp/jni_ring_buffer.c.
-- The functions for Java implement a bounded queue of bytes.
use my_toolbox.Base.{
  ℕ, ◌+◌, ◌^◌, ◌≡◌, refl, ◌≤◌, ◌<◌, min, some, List, [], ◌∷◌, le→leb, Run, done, fault, ◌>>=◌, pos,
  negsuc, to_u32, of_u32, length, take, drop, splice, length-take, length-drop, take_all, arith,
}
use my_toolbox.Lcu.Ring.{Ring, IsLawful}
use my_toolbox.JavaArray.{load_at, store_at-splice, store_at-fault}
use my_toolbox.RingBufferJni.{Result, read, peek, write, discard, clear}
use my_toolbox.RingBufferJni.Fifo.{
  Fifo, Call, write_call, read_call, peek_call, discard_call, clear_call, Seen, serve, serve_all,
  IsInside, AllInside,
}

of_u32-small : (n : ℕ) → n < 2 ^ 31 → of_u32 n ≡ pos n
of_u32-small n h = ground arith

module _ (R : Ring) where
  -- The call on the ring buffer.
  unfoldable pub invoke : Call → R.Buffer → Run (Result R)
  invoke (write_call array offset len) b = write R b (some array) (pos offset) (pos len)
  invoke (read_call array offset len) b = read R b (some array) (pos offset) (pos len)
  invoke (peek_call array offset len) b = peek R b (some array) (pos offset) (pos len)
  invoke (discard_call len) b =
      let (n, b') = discard R b (pos len) in done (record { ret = n; buffer = b'; array = [] })
  invoke clear_call b =
      let (n, b') = clear R b in done (record { ret = n; buffer = b'; array = [] })

  -- The same calls on the ring buffer.
  unfoldable pub session : List Call → R.Buffer → Run (List Seen × R.Buffer)
  session [] b = done ([], b)
  session (c ∷ cs) b = invoke c b >>= λ r. session cs r.buffer >>= λ (seen, b').
      done (record { ret = r.ret; array = r.array } ∷ seen, b')

  abbrev pub view : R.Buffer → Fifo
  view b = record { capacity = R.capacity b; bytes = R.contents b }

  module _ (L : IsLawful R) where
    small_take :
        (len : ℕ) (xs : List ℕ)
        → len < 2 ^ 31
        → of_u32 (length (take len xs)) ≡ pos (length (take len xs))
    small_take len xs h = of_u32-small _ (omega (arith, length-take len xs))

    room_take :
        (offset len : ℕ) (array xs : List ℕ)
        → offset + len ≤ length array
        → offset + length (take len xs) ≤ length array
    room_take offset len array xs h = omega (arith, length-take len xs)

    abbrev Serves : Call → R.Buffer → Type 0
    Serves c b =
        (r : Result R) × (invoke c b ≡ done r)
        × (r.ret ≡ (serve c (view b)).0.ret)
        × (r.array ≡ (serve c (view b)).0.array)
        × (view r.buffer ≡ (serve c (view b)).1)

    write-Serves :
        (array : List ℕ) (offset len : ℕ) (b : R.Buffer)
        → offset + len ≤ length array
        → len < 2 ^ 31
        → Serves (write_call array offset len) b
    unfolding invoke serve write load_at
    write-Serves array offset len b inside small =
        let u : to_u32 (pos len) ≡ len = omega arith in
        let after = R.write b (drop offset array) len in
        let readable : min len (R.available_write b) ≤ length (drop offset array) =
          omega (arith, length-drop offset array) in
        (
          record { ret = of_u32 after.1; buffer = after.0; array = array },
          simp (u, le→leb _ _ readable),
          simp (L.write_count, L.available_write) (of_u32-small _ (omega arith)),
          refl,
          simp (L.write_bytes, L.write_capacity, L.available_write),
        )

    read-Serves :
        (array : List ℕ) (offset len : ℕ) (b : R.Buffer)
        → offset + len ≤ length array
        → len < 2 ^ 31
        → Serves (read_call array offset len) b
    unfolding invoke serve read
    read-Serves array offset len b inside small =
        let u : to_u32 (pos len) ≡ len = omega arith in
        let got = take len (R.contents b) in
        (
          record {
            ret = of_u32 (length got);
            buffer = (R.read b len).0;
            array = splice offset got array;
          },
          simp (
            u,
            L.read_bytes,
            store_at-splice offset got array (room_take offset len array _ inside),
          ),
          small_take len (R.contents b) small,
          refl,
          simp (L.read_rest, L.read_capacity),
        )

    peek-Serves :
        (array : List ℕ) (offset len : ℕ) (b : R.Buffer)
        → offset + len ≤ length array
        → len < 2 ^ 31
        → Serves (peek_call array offset len) b
    unfolding invoke serve peek
    peek-Serves array offset len b inside small =
        let u : to_u32 (pos len) ≡ len = omega arith in
        let got = take len (R.contents b) in
        (
          record { ret = of_u32 (length got); buffer = b; array = splice offset got array },
          simp (
            u,
            L.peek_bytes,
            store_at-splice offset got array (room_take offset len array _ inside),
          ),
          small_take len (R.contents b) small,
          refl,
          refl,
        )

    discard-Serves : (len : ℕ) (b : R.Buffer) → len < 2 ^ 31 → Serves (discard_call len) b
    unfolding invoke serve discard
    discard-Serves len b small =
        let u : to_u32 (pos len) ≡ len = omega arith in
        (
          record { ret = of_u32 (R.discard b len).1; buffer = (R.discard b len).0; array = [] },
          simp u,
          simp L.discard_count (of_u32-small _ (omega arith)),
          refl,
          simp (L.discard_rest, L.discard_capacity),
        )

    -- Each call inside its array returns what the queue of bytes returns, leaves the array as the
    -- queue leaves it, and a buffer that is the queue after the call.
    pub invoke-serve :
        (c : Call) (b : R.Buffer)
        → IsInside c
        → (r : Result R) × (invoke c b ≡ done r)
          × (r.ret ≡ (serve c (view b)).0.ret)
          × (r.array ≡ (serve c (view b)).0.array)
          × (view r.buffer ≡ (serve c (view b)).1)
    unfolding invoke serve clear
    invoke-serve (write_call array offset len) b h = write-Serves array offset len b h.0 h.1
    invoke-serve (read_call array offset len) b h = read-Serves array offset len b h.0 h.1
    invoke-serve (peek_call array offset len) b h = peek-Serves array offset len b h.0 h.1
    invoke-serve (discard_call len) b h = discard-Serves len b h
    invoke-serve clear_call b h = (
      record { ret = pos 0; buffer = R.clear b; array = [] },
      refl,
      refl,
      refl,
      simp (L.clear_bytes, L.clear_capacity),
    )

    session-cons :
        (c : Call) (cs : List Call) (b : R.Buffer) (r : Result R) (s : Seen) (seen : List Seen)
        (b' : R.Buffer)
        → invoke c b ≡ done r
        → session cs r.buffer ≡ done (seen, b')
        → r.ret ≡ s.ret
        → r.array ≡ s.array
        → session (c ∷ cs) b ≡ done (s ∷ seen, b')
    unfolding session
    session-cons c cs b r s seen b' runs rest ret array = rw (runs, rest, ret, array) refl

    -- Any sequence of reads, peeks, writes, discards and clears from Java, each inside its array,
    -- runs to its end, and Java sees what it would see of a bounded queue of bytes.
    pub session-serve_all :
        (cs : List Call) (b : R.Buffer)
        → AllInside cs
        → (b' : R.Buffer) × (session cs b ≡ done ((serve_all cs (view b)).0, b'))
          × (view b' ≡ (serve_all cs (view b)).1)
    unfolding session serve_all
    session-serve_all [] b h = (b, refl, refl)
    session-serve_all (c ∷ cs) b h =
        let (r, runs, ret, array, after) = invoke-serve c b h.0 in
        let (b', rest, last) = session-serve_all cs r.buffer h.1 in
        (
          b',
          session-cons c cs b r (serve c (view b)).0 _ b' runs (rw after at rest) ret array,
          rw after at last,
        )

    -- A negative length asks for everything: if the bytes that the ring buffer holds do not fit the
    -- array behind the offset, read writes past the array's end.
    pub read-negative :
        (b : R.Buffer) (array : List ℕ) (offset k : ℕ)
        → k < 2 ^ 31
        → 0 < length (R.contents b)
        → length (R.contents b) ≤ 2 ^ 31
        → length array < offset + length (R.contents b)
        → read R b (some array) (pos offset) (negsuc k) ≡ fault
    unfolding read
    read-negative b array offset k range some_bytes fits small = simp (
      L.read_bytes,
      take_all (to_u32 (negsuc k)) (R.contents b) (omega arith),
      store_at-fault offset (R.contents b) array some_bytes small,
    )
