-- ===== src/NativeResample/Jni.antt =====
-- The JNI functions of app/src/main/cpp/native-resample.cpp over the static buffer
-- `pOutCharBuffer`, and the helpers that copy Java arrays.
use my_toolbox.Base.{
  ℕ, ◌+◌, ◌*◌, ◌/◌, ◌%◌, ◌-◌, ◌^◌, Option, none, some, List, [], ◌∷◌, ◌++◌, Bool, true, false, not,
  leb, ◌==◌, ◌||◌, if◌then◌else◌, Run, done, fault, ◌>>=◌, ℤ, pos, negsuc, length, take,
}
use my_toolbox.NativeResample.{Format, Resampled, resample}

-- The two bytes of each 16-bit word, the low one first.
unfoldable pub shorts : List ℕ → List ℕ
shorts [] = []
shorts (lo ∷ []) = []
shorts (lo ∷ hi ∷ bytes) = (lo + 256 * hi) ∷ shorts bytes

-- The bytes of the words, each of `width f` bytes.
unfoldable pub word_bytes : Format → List ℕ → List ℕ
word_bytes f [] = []
word_bytes f (w ∷ ws) =
    (w % 256 ∷ w / 256 % 256 ∷ [])
    ++ ((if f.out_bit == 32 then w / 65536 % 256 ∷ w / 16777216 % 256 ∷ [] else [])
        ++ word_bytes f ws)

-- Is `pOutCharBuffer` there, and how many blocks of `malloc` does the process hold?
pub record Buffer : Type 0 where
  pub out : Bool
  pub blocks : ℕ

-- `malloc(8192 * 2)`
abbrev pub out_size : ℕ
out_size = 16384

unfoldable pub init_buffer : Bool → Buffer → ℤ × Buffer
init_buffer granted b =
    if b.out
    then (negsuc 0, b)
    else (pos 0, record { out = granted; blocks = if granted then b.blocks + 1 else b.blocks })

unfoldable pub deinit : Buffer → ℤ × Buffer
deinit b =
    if not b.out then (negsuc 0, b) else (pos 0, record { out = false; blocks = b.blocks - 1 })

-- malloc_charFromByteArr with a length: a copy of the first `len` bytes. `none` is null; the
-- fault is a failed `malloc`, or a length beyond the array.
unfoldable pub malloc_char_from_byte_arr : Bool → Option (List ℕ) → ℕ → Run (Option (List ℕ))
malloc_char_from_byte_arr granted none len = done none
malloc_char_from_byte_arr granted (some bytes) len =
    if leb len (length bytes)
    then (if granted then done (some (take len bytes)) else fault)
    else fault

-- new_byteArrFromVoid: the array of the words that lie in the buffer.
unfoldable pub new_byte_arr_from_void : Format → Bool → Resampled → Option (List ℕ)
new_byte_arr_from_void f false r = none
new_byte_arr_from_void f true r = some (take r.bytes (word_bytes f r.words))

-- The parameters as Java gives them; the buffer's size is that of `pOutCharBuffer`.
abbrev pub with_buffer : Format → Bool → Format
with_buffer f out = record f { capacity = if out then out_size else 0 }

-- `outSize`, which nothing reads; it must fit an `int`.
abbrev pub out_bytes : Format → ℕ → ℕ
out_bytes f len = len * (f.out_rate / f.in_rate) * (f.out_channels / f.in_channels)

-- resample of NativeResampleJni. A null array faults in `GetByteArrayElements`, a rate or a
-- number of channels of 0 in the quotients for `outSize`.
unfoldable pub native_resample :
    Bool → Format → Option (List ℕ) → ℕ → Buffer → Run (Option (List ℕ))
native_resample granted f none len b = fault
native_resample granted f (some bytes) len b =
    malloc_char_from_byte_arr granted (some bytes) len >>= λ copy.
    if f.in_rate == 0 || (f.in_channels == 0 || leb (2 ^ 31) (out_bytes f len))
    then fault
    else elim copy [
      | none ↦ fault
      | some chars ↦ resample (with_buffer f b.out) (shorts chars) >>= λ r.
          done (new_byte_arr_from_void (with_buffer f b.out) b.out r)
    ]
