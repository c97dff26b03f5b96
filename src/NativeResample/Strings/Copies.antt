-- ===== src/NativeResample/Strings/Copies.antt =====
-- What the string and array helpers of app/src/main/cpp/native-resample.cpp build.
use my_toolbox.Base.{
  ℕ, zero, suc, ◌+◌, ◌≡◌, refl, sym, ◌∙◌, ap, ◌≤◌, ◌<◌, Option, some, List, [], ◌∷◌, ◌++◌,
  append_assoc, append-nil, done, ◌>>=◌, pos, length, length-append, length-drop, take, drop,
  take-append_of_length, arith,
}
use my_toolbox.JavaArray.{store_at, store_at-splice}
use my_toolbox.NativeResample.Strings.{
  strlen, strcpy, strcat, terminated, on_block, char_cat, jstring2char, malloc_char_from_whole_arr,
  malloc_void_from_byte_arr,
}

-- No byte of a string is 0.
abbrev pub IsText : List ℕ → Type 0
IsText [] = Unit
IsText (x ∷ xs) = (0 < x) × IsText xs

-- `malloc` succeeds, and its block has the size that was asked for.
abbrev pub Grants : (ℕ → Option (List ℕ)) → Type 0
Grants malloc = (n : ℕ) → (block : List ℕ) × (malloc n ≡ some block) × (length block ≡ n)

pub drop_all : (n : ℕ) (xs : List ℕ) → length xs ≤ n → drop n xs ≡ []
drop_all zero [] h = refl
drop_all zero (x ∷ xs) h = absurd (omega arith)
drop_all (suc n) [] h = refl
drop_all (suc n) (x ∷ xs) h = drop_all n xs (omega arith)

drop-append_add : (k : ℕ) (xs ys : List ℕ) → drop (length xs + k) (xs ++ ys) ≡ drop k ys
drop-append_add k [] ys = ap (λ n. drop n ys) (omega arith)
drop-append_add k (x ∷ xs) ys =
    let e : length (x ∷ xs) + k ≡ suc (length xs + k) = omega arith in
    rw e (drop-append_add k xs ys)

-- A write behind the first part of a block.
store_at-append :
    (pre bytes rest : List ℕ)
    → length bytes ≤ length rest
    → store_at (pos (length pre)) bytes (pre ++ rest)
      ≡ done (pre ++ (bytes ++ drop (length bytes) rest))
store_at-append pre bytes rest h =
    store_at-splice (length pre) bytes (pre ++ rest) (omega (arith, length-append pre rest))
    ∙ rw (take-append_of_length (length pre) pre rest refl, drop-append_add (length bytes) pre rest)
        refl

-- A write that fills the rest of a block.
store_at-fills :
    (pre bytes rest : List ℕ)
    → length bytes ≡ length rest
    → store_at (pos (length pre)) bytes (pre ++ rest) ≡ done (pre ++ bytes)
store_at-fills pre bytes rest h =
    store_at-append pre bytes rest (omega arith)
    ∙ ap done (rw (drop_all (length bytes) rest (omega arith), append-nil))

pub strlen-text : (s rest : List ℕ) → IsText s → strlen (s ++ 0 ∷ rest) ≡ done (length s)
unfolding strlen
strlen-text [] rest h = refl
strlen-text (x ∷ s) rest h = rw (strlen-text s rest h.1) (ground arith)

take-terminated : (s rest : List ℕ) → take (length s + 1) (s ++ 0 ∷ rest) ≡ terminated s
take-terminated [] rest = refl
take-terminated (x ∷ s) rest =
    let e : length (x ∷ s) + 1 ≡ suc (length s + 1) = omega arith in
    rw e (ap (λ r. x ∷ r) (take-terminated s rest))

length-terminated : (s : List ℕ) → length (terminated s) ≡ length s + 1
length-terminated s = length-append s (0 ∷ [])

strcpy-terminated :
    (s block : List ℕ)
    → IsText s
    → length s + 1 ≤ length block
    → strcpy block (terminated s) ≡ done (s ++ 0 ∷ drop (length s + 1) block)
unfolding strcpy
strcpy-terminated s block text room =
    rw (strlen-text s [] text, take-terminated s [])
      (store_at-append [] (terminated s) block (omega (arith, length-terminated s))
        ∙ ap done (
            append_assoc s (0 ∷ []) (drop (length (terminated s)) block)
            ∙ ap (λ n. s ++ 0 ∷ drop n block) (length-terminated s)))

strcat-terminated :
    (s t rest : List ℕ)
    → IsText s
    → IsText t
    → length rest ≡ length t
    → strcat (s ++ 0 ∷ rest) (terminated t) ≡ done (s ++ terminated t)
unfolding strcat
strcat-terminated s t rest text text' size =
    rw (strlen-text s rest text, strlen-text t [] text', take-terminated t [])
      (store_at-fills s (terminated t) (0 ∷ rest) (omega (arith, length-terminated t)))

-- Every jchar is one that a char can hold, signed or not, and none is 0.
abbrev pub IsAscii : List ℕ → Type 0
IsAscii [] = Unit
IsAscii (c ∷ cs) = (0 < c) × (c < 128) × IsAscii cs

built :
    (bytes block : List ℕ)
    → length block ≡ length bytes + 1
    → (store_at (pos 0) bytes block >>= λ rets. store_at (pos (length bytes)) (0 ∷ []) rets)
      ≡ done (terminated bytes)
built bytes block size = rw (store_at-append [] bytes block (omega arith)) (
    store_at-fills bytes (0 ∷ []) (drop (length bytes) block)
      (omega (arith, length-drop (length bytes) block)))

module _ (malloc : ℕ → Option (List ℕ)) (grants : Grants malloc) where
  jstring2char-terminated : (s : List ℕ) → IsText s → jstring2char malloc s ≡ done (terminated s)
  unfolding jstring2char on_block
  jstring2char-terminated s text =
      let (block, e, size) = grants (length s + 1) in
      rw (strlen-text s [] text, e)
        (strcpy-terminated s block text (omega arith)
          ∙ ap (λ d. done (s ++ 0 ∷ d)) (drop_all (length s + 1) block (omega arith)))

  -- jstring2char gives a C string with the bytes of the Java string, and char_cat one with the
  -- bytes of the one string after those of the other, where `malloc` succeeds and no string holds
  -- a zero.
  pub char_cat-terminated :
      (s t : List ℕ)
      → IsText s
      → IsText t
      → (jstring2char malloc s ≡ done (terminated s))
        × (char_cat malloc s (terminated t) ≡ done (terminated (s ++ t)))
  unfolding char_cat on_block
  char_cat-terminated s t text text' =
      let (block, e, size) = grants (length s + length t + 1) in
      (
        jstring2char-terminated s text,
        rw
            (
              strlen-text s [] text,
              strlen-text t [] text',
              e,
              strcpy-terminated s block text (omega arith),
            )
            (strcat-terminated s t (drop (length s + 1) block) text text'
                (omega (arith, length-drop (length s + 1) block))
              ∙ ap done (sym (append_assoc s t (0 ∷ [])))),
      )

  -- A byte array is copied to a C string with all its bytes, zeros included, by the one helper,
  -- and to a block with its bytes by the other.
  byte_arr-copies :
      (bytes : List ℕ)
      → (malloc_char_from_whole_arr malloc (some bytes) ≡ done (some (terminated bytes)))
        × (malloc_void_from_byte_arr malloc (some bytes) ≡ done (some bytes))
  unfolding malloc_char_from_whole_arr malloc_void_from_byte_arr on_block
  byte_arr-copies bytes =
      let (block, e, size) = grants (length bytes + 1) in
      let (exact, e', size') = grants (length bytes) in
      (rw (e, built bytes block size), rw (e', store_at-fills [] bytes exact (sym size')))
