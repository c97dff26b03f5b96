-- ===== src/RingBuffer/Session.antt =====
-- On toolbox/src/main/java/com/threshold/toolbox/RingBuffer.java.
-- What a program sees of a RingBuffer whose methods it calls with whole arrays.
use my_toolbox.Base.{
  ℕ, ◌+◌, ◌-◌, ◌≡◌, refl, sym, ◌∙◌, ap, ◌<◌, ◌≤◌, ◌^◌, ◌↔◌, Bool, true, Option, some, List, [], ◌∷◌,
  map, ℤ, pos, lt_nat, arith, Run, done, ◌>>=◌, length, length-take, drop, of_u32, min,
}
use my_toolbox.Lcu.Ring.{Ring, IsLawful}
use my_toolbox.RingBufferJni.{Result}
use my_toolbox.RingBufferJni
use my_toolbox.RingBufferJni.Fifo.{
  Fifo, Call, write_call, read_call, peek_call, discard_call, clear_call, Seen, serve, serve_all,
  IsInside,
}
use my_toolbox.RingBufferJni.Refinement.{invoke, view, invoke-serve}
use my_toolbox.RingBuffer.{
  available_read_len, available_write_len, is_empty, is_full, write_all, read_all, peek_all, peek,
  discard, clear,
}

-- A method call with whole arrays.
pub data Method : Type 0 where
  writes : List ℕ → Method
  reads : List ℕ → Method
  peeks : List ℕ → Method
  peeks_part : (buffer : List ℕ) (offset len : ℕ) → Method
  discards : ℕ → Method
  clears : Method

-- What the method is on a queue of bytes: peek into a whole array takes the bytes out.
abbrev pub as_call : Method → Call
as_call (writes bytes) = write_call bytes 0 (length bytes)
as_call (reads buffer) = read_call buffer 0 (length buffer)
as_call (peeks buffer) = read_call buffer 0 (length buffer)
as_call (peeks_part buffer offset len) = peek_call buffer offset len
as_call (discards len) = discard_call len
as_call clears = clear_call

-- The bounds that Java keeps: the length of an array is an `int`, and a part lies in its array.
abbrev pub IsMethod : Method → Type 0
IsMethod (writes bytes) = length bytes < 2 ^ 31
IsMethod (reads buffer) = length buffer < 2 ^ 31
IsMethod (peeks buffer) = length buffer < 2 ^ 31
IsMethod (peeks_part buffer offset len) = (offset + len ≤ length buffer) × (len < 2 ^ 31)
IsMethod (discards len) = len < 2 ^ 31
IsMethod clears = Unit

abbrev pub AreMethods : List Method → Type 0
AreMethods [] = Unit
AreMethods (m ∷ ms) = IsMethod m × AreMethods ms

-- The test of a number of bytes that is not moved, where `k` bytes are asked for.
none-asked :
    (available n k : ℕ) (ret : ℤ)
    → available ≡ n
    → n < 2 ^ 31
    → 0 < k
    → ret ≡ pos (min k n)
    → (lt_nat (of_u32 available) 1 ≡ true) ↔ (ret ≡ pos 0)
none-asked available n k ret same small some_bytes e =
    (λ t. ground arith, λ z. let least : min k n ≡ 0 = ground (arith, e, z) in ground (arith, same))

module _ (R : Ring) where
  pub method : Method → Option R.Buffer → Run (Result R)
  method (writes bytes) handle = write_all R handle bytes
  method (reads buffer) handle = read_all R handle buffer
  method (peeks buffer) handle = peek_all R handle buffer
  method (peeks_part buffer offset len) handle = peek R handle (some buffer) (pos offset) (pos len)
  method (discards len) handle =
      discard R handle (pos len) >>= λ (n, b). done (record { ret = n; buffer = b; array = [] })
  method clears handle =
      clear R handle >>= λ b. done (record { ret = pos 0; buffer = b; array = [] })

  -- The calls one after the other, with what the program sees of each.
  pub program : List Method → Option R.Buffer → Run (List Seen × Option R.Buffer)
  unfolding method
  program [] handle = done ([], handle)
  program (m ∷ ms) handle = method m handle >>= λ r.
      program ms (some r.buffer) >>= λ (seen, handle').
      done (record { ret = r.ret; array = r.array } ∷ seen, handle')

  method-invoke : (m : Method) (b : R.Buffer) → method m (some b) ≡ invoke R (as_call m) b
  unfolding method invoke write_all read_all peek_all peek discard clear RingBufferJni.clear
  method-invoke (writes bytes) b = refl
  method-invoke (reads buffer) b = refl
  method-invoke (peeks buffer) b = refl
  method-invoke (peeks_part buffer offset len) b = refl
  method-invoke (discards len) b = refl
  method-invoke clears b = refl

  as_call-IsInside : (m : Method) → IsMethod m → IsInside (as_call m)
  as_call-IsInside (writes bytes) h = (omega arith, h)
  as_call-IsInside (reads buffer) h = (omega arith, h)
  as_call-IsInside (peeks buffer) h = (omega arith, h)
  as_call-IsInside (peeks_part buffer offset len) h = h
  as_call-IsInside (discards len) h = h
  as_call-IsInside clears h = tt

  program-cons :
      (m : Method) (ms : List Method) (b : R.Buffer) (r : Result R) (s : Seen) (seen : List Seen)
      (b' : R.Buffer)
      → method m (some b) ≡ done r
      → program ms (some r.buffer) ≡ done (seen, some b')
      → r.ret ≡ s.ret
      → r.array ≡ s.array
      → program (m ∷ ms) (some b) ≡ done (s ∷ seen, some b')
  unfolding program
  program-cons m ms b r s seen b' runs rest ret array = rw (runs, rest, ret, array) refl

  module _ (L : IsLawful R) where
    -- Any program that calls the methods of a RingBuffer with whole arrays, or with parts inside
    -- an array to peek at, runs to its end without a fault, and sees what it would see of a bounded
    -- queue of bytes on which peek(byte[]) takes the bytes out as read(byte[]) does.
    pub program-serve_all :
        (ms : List Method) (b : R.Buffer)
        → AreMethods ms
        → (b' : R.Buffer) × (program ms (some b)
            ≡ done ((serve_all (map as_call ms) (view R b)).0, some b'))
          × (view R b' ≡ (serve_all (map as_call ms) (view R b)).1)
    unfolding program serve_all
    program-serve_all [] b h = (b, refl, refl)
    program-serve_all (m ∷ ms) b h =
        let (r, runs, ret, array, after) =
          invoke-serve R L (as_call m) b (as_call-IsInside m h.0) in
        let (b', rest, last) = program-serve_all ms r.buffer h.1 in
        (
          b',
          program-cons m ms b r (serve (as_call m) (view R b)).0 _ b' (method-invoke m b ∙ runs)
              (rw after at rest) ret array,
          rw after at last,
        )

    -- peek(byte[]) gives the same as the peek of the whole array by its offset and length, but it
    -- takes the bytes out of the ring buffer, where the other leaves them.
    pub peek_all-removes :
        (b : R.Buffer) (buffer : List ℕ)
        → length buffer < 2 ^ 31
        → (r r' : Result R) × (peek_all R (some b) buffer ≡ done r)
          × (peek R (some b) (some buffer) (pos 0) (pos (length buffer)) ≡ done r')
          × (r.ret ≡ r'.ret)
          × (r.array ≡ r'.array)
          × (R.contents r'.buffer ≡ R.contents b)
          × (R.contents r.buffer ≡ drop (length buffer) (R.contents b))
    unfolding serve peek_all method
    peek_all-removes b buffer small =
        let inside : IsInside (read_call buffer 0 (length buffer)) = (omega arith, small) in
        let (r, runs, ret, array, after) =
          invoke-serve R L (read_call buffer 0 (length buffer)) b inside in
        let (r', runs', ret', array', after') =
          invoke-serve R L (peek_call buffer 0 (length buffer)) b inside in
        let bytes : Fifo → List ℕ = λ q. q.bytes in
        (
          r,
          r',
          method-invoke (peeks buffer) b ∙ runs,
          method-invoke (peeks_part buffer 0 (length buffer)) b ∙ runs',
          ret ∙ sym ret',
          array ∙ sym array',
          ap bytes after',
          ap bytes after,
        )

    -- On a ring buffer of less than 2 ^ 31 bytes, isEmpty says whether read(byte[]) would give
    -- nothing to an array that is not empty, and isFull whether write(byte[]) would take nothing
    -- from it.
    pub is_empty-read_all :
        (b : R.Buffer) (array : List ℕ)
        → 0 < length array
        → length array < 2 ^ 31
        → R.capacity b < 2 ^ 31
        → length (R.contents b) ≤ R.capacity b
        → (empty full : Bool) × (r w : Result R) × (is_empty R (some b) ≡ done empty)
          × (is_full R (some b) ≡ done full)
          × (read_all R (some b) array ≡ done r)
          × (write_all R (some b) array ≡ done w)
          × ((empty ≡ true) ↔ (r.ret ≡ pos 0))
          × ((full ≡ true) ↔ (w.ret ≡ pos 0))
    unfolding is_empty is_full available_read_len available_write_len RingBufferJni.available_read
        RingBufferJni.available_write serve read_all write_all method
    is_empty-read_all b array some_bytes small room fits =
        let inside : IsInside (read_call array 0 (length array)) = (omega arith, small) in
        let (r, runs, ret, got, after) =
          invoke-serve R L (read_call array 0 (length array)) b inside in
        let (w, runs', ret', got', after') =
          invoke-serve R L (write_call array 0 (length array)) b inside in
        (
          _,
          _,
          r,
          w,
          refl,
          refl,
          method-invoke (reads array) b ∙ runs,
          method-invoke (writes array) b ∙ runs',
          none-asked (R.available_read b) (length (R.contents b)) (length array) r.ret
              (L.available_read b) (omega arith) some_bytes
              (ret ∙ ap pos (length-take (length array) (R.contents b))),
          none-asked (R.available_write b) (R.capacity b - length (R.contents b)) (length array)
              w.ret (L.available_write b) (omega arith) some_bytes ret',
        )
