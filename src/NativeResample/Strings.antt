-- ===== src/NativeResample/Strings.antt =====
-- The helpers of app/src/main/cpp/native-resample.cpp that copy strings and arrays between Java
-- and the C heap. A Java string is given by the bytes of GetStringUTFChars, without the zero
-- behind them; `malloc` is a parameter that gives a block with some content, or `none`.
pub mod Copies
mod Tests
use my_toolbox.Base.{
  ℕ, zero, suc, ◌+◌, ◌%◌, Option, none, some, List, [], ◌∷◌, ◌++◌, Bool, true, false, ltb, leb,
  ◌==◌, if◌then◌else◌, Run, done, fault, ◌>>=◌, ℤ, as_int, pos, negsuc, length, take,
}
use my_toolbox.JavaArray.{store_at}

unfoldable pub strlen : List ℕ → Run ℕ
strlen [] = fault
strlen (x ∷ xs) = let rest = strlen xs >>= λ n. done (suc n) in if x == 0 then done 0 else rest

unfoldable pub strcpy : List ℕ → List ℕ → Run (List ℕ)
strcpy dest src = strlen src >>= λ n. store_at (pos 0) (take (n + 1) src) dest

unfoldable pub strcat : List ℕ → List ℕ → Run (List ℕ)
strcat dest src = strlen dest >>= λ n. strlen src >>= λ k. store_at (pos n) (take (k + 1) src) dest

-- A C string in memory.
abbrev pub terminated : List ℕ → List ℕ
terminated chars = chars ++ 0 ∷ []

-- (char) of a jchar, and (jchar) of a char, which is signed or not by the platform.
abbrev pub to_char : ℕ → ℕ
to_char c = c % 256

abbrev pub to_jchar : Bool → ℕ → ℕ
to_jchar signed c = if signed then (if ltb c 128 then c else c + 65280) else c

unfoldable pub to_chars : List ℕ → List ℕ
to_chars [] = []
to_chars (c ∷ cs) = to_char c ∷ to_chars cs

-- The first `n` chars of the memory as jchars.
unfoldable pub read_jchars : Bool → (n : ℕ) → List ℕ → Run (List ℕ)
read_jchars signed zero mem = done []
read_jchars signed (suc n) [] = fault
read_jchars signed (suc n) (c ∷ mem) =
    read_jchars signed n mem >>= λ cs. done (to_jchar signed c ∷ cs)

-- A block of `malloc`, written to at once; writing to NULL faults.
unfoldable pub on_block : Option (List ℕ) → (List ℕ → Run (List ℕ)) → Run (List ℕ)
on_block none write = fault
on_block (some block) write = write block

module _ (malloc : ℕ → Option (List ℕ)) where
  -- char_cat: `str2` is the memory behind the pointer.
  unfoldable pub char_cat : (str1 str2 : List ℕ) → Run (List ℕ)
  char_cat str1 str2 = strlen (terminated str1) >>= λ n. strlen str2 >>= λ k.
      on_block (malloc (n + k + 1))
        (λ block. strcpy block (terminated str1) >>= λ buffer. strcat buffer str2)

  unfoldable pub jstring2char : List ℕ → Run (List ℕ)
  jstring2char jstr = strlen (terminated jstr) >>= λ n.
      on_block (malloc (n + 1)) (λ block. strcpy block (terminated jstr))

  -- malloc_charFromByteArr without a length: the array's bytes and a zero.
  unfoldable pub malloc_char_from_whole_arr : Option (List ℕ) → Run (Option (List ℕ))
  malloc_char_from_whole_arr none = done none
  malloc_char_from_whole_arr (some bytes) =
      on_block (malloc (length bytes + 1)) (λ block.
        store_at (pos 0) bytes block >>= λ rets. store_at (pos (length bytes)) (0 ∷ []) rets)
      >>= λ rets. done (some rets)

  unfoldable pub malloc_void_from_byte_arr : Option (List ℕ) → Run (Option (List ℕ))
  malloc_void_from_byte_arr none = done none
  malloc_void_from_byte_arr (some bytes) =
      on_block (malloc (length bytes)) (λ block. store_at (pos 0) bytes block) >>= λ rets.
      done (some rets)

  unfoldable pub malloc_char_from_char_arr : Option (List ℕ) → Run (Option (List ℕ))
  malloc_char_from_char_arr none = done none
  malloc_char_from_char_arr (some jchars) =
      on_block (malloc (length jchars + 1)) (λ block.
        store_at (pos 0) (to_chars jchars) block >>= λ rets.
        store_at (pos (length jchars)) (0 ∷ []) rets)
      >>= λ rets. done (some rets)

unfoldable pub new_char_arr_from_char_len : Bool → Option (List ℕ) → ℤ → Run (Option (List ℕ))
new_char_arr_from_char_len signed none len = done none
new_char_arr_from_char_len signed (some value) (negsuc n) = done none
new_char_arr_from_char_len signed (some value) (pos n) =
    if leb n 0 then done none else (read_jchars signed n value >>= λ cs. done (some cs))

unfoldable pub new_char_arr_from_char : Bool → Option (List ℕ) → Run (Option (List ℕ))
new_char_arr_from_char signed none = done none
new_char_arr_from_char signed (some value) =
    strlen value >>= λ len. new_char_arr_from_char_len signed (some value) (as_int len)
