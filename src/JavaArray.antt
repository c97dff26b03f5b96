-- ===== src/JavaArray.antt =====
-- The bytes of a Java array behind a pointer, as toolbox/src/main/cpp/jni_ring_buffer.c and
-- toolbox/src/main/cpp/jni_auto_cover_buffer.c hand them to the library.
use native.Mathlib.Nat.{add-zero}
use my_toolbox.Base.{
  ℕ, ◌+◌, ◌≡◌, sym, ap, ◌≤◌, ◌<◌, List, [], ◌∷◌, leb, le→leb, if◌then◌else◌, Run, done, fault, ℤ,
  pos, negsuc, length, length-drop, drop, splice, take-append-drop, arith,
}

-- What the library's `memcpy` to `data + offset` leaves in the array.
unfoldable pub store_at : ℤ → List ℕ → List ℕ → Run (List ℕ)
store_at offset [] array = done array
store_at (negsuc _) (x ∷ bytes) array = fault
store_at (pos i) (x ∷ bytes) array =
    if leb (i + length (x ∷ bytes)) (length array) then done (splice i (x ∷ bytes) array) else fault

-- The bytes behind `data + offset`, of which the library reads `n`.
unfoldable pub load_at : ℤ → ℕ → List ℕ → Run (List ℕ)
load_at (negsuc _) n array = if leb n 0 then done [] else fault
load_at (pos i) n array = if leb n (length (drop i array)) then done (drop i array) else fault

splice-nil : (i : ℕ) (xs : List ℕ) → splice i [] xs ≡ xs
splice-nil i xs = rw add-zero (take-append-drop i xs)

pub store_at-splice :
    (offset : ℕ) (bytes array : List ℕ)
    → offset + length bytes ≤ length array
    → store_at (pos offset) bytes array ≡ done (splice offset bytes array)
unfolding store_at
store_at-splice offset [] array h = ap done (sym (splice-nil offset array))
store_at-splice offset (x ∷ bytes) array h = rw (le→leb _ _ h)

pub store_at-fault :
    (offset : ℕ) (bytes array : List ℕ)
    → 0 < length bytes
    → length array < offset + length bytes
    → store_at (pos offset) bytes array ≡ fault
unfolding store_at
store_at-fault offset [] array some_bytes h = absurd (omega arith)
store_at-fault offset (x ∷ bytes) array some_bytes h = ground arith

pub load_at-drop :
    (offset n : ℕ) (array : List ℕ)
    → offset + n ≤ length array
    → load_at (pos offset) n array ≡ done (drop offset array)
unfolding load_at
load_at-drop offset n array h =
    rw (le→leb n (length (drop offset array)) (omega (arith, length-drop offset array)))
