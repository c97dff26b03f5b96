-- ===== src/AutoCoverBuffer/Position.antt =====
-- On toolbox/src/main/java/com/threshold/toolbox/AutoCoverBuffer.java.
-- What the write position counts.
use my_toolbox.Base.{
  ℕ, zero, suc, ◌+◌, ◌^◌, ◌%◌, ◌≡◌, refl, ◌∙◌, ap, ◌⊎◌, inl, inr, ◌<◌, some, List, [], ◌∷◌, map, ℤ,
  pos, negsuc, pos_part, gt_nat, lt→ltb, to_u32, to_u32-lt, of_u32, if◌then◌else◌, arith, Run, done,
  ◌>>=◌, length,
}
use my_toolbox.Lcu.AutoCover.{AutoCover, IsLawful, IsErrorCode, IsCount}
use my_toolbox.AutoCoverBufferJni.{Result}
use my_toolbox.AutoCoverBufferJni
use my_toolbox.AutoCoverBufferJni.Answers.{write-IsCount}
use my_toolbox.AutoCoverBuffer.{AutoCoverBuffer, add_int, written, write_all}

abbrev pub sum : List ℕ → ℕ
sum [] = 0
sum (n ∷ ns) = n + sum ns

-- The lengths of these arrays, and the results of their writes, one by one: a number of bytes that
-- is no more than the array has, or an error code.
pub data Answers : List (List ℕ) → List ℤ → Type 0 where
  no_write : Answers [] []
  one_write :
      (array : List ℕ) (arrays : List (List ℕ)) (ret : ℤ) (rets : List ℤ)
      → IsCount (length array) ret ⊎ IsErrorCode ret
      → Answers arrays rets
      → Answers (array ∷ arrays) (ret ∷ rets)

-- The arrays of Java have less than 2 ^ 31 elements.
abbrev pub AreArrays : List (List ℕ) → Type 0
AreArrays [] = Unit
AreArrays (array ∷ arrays) = (length array < 2 ^ 31) × AreArrays arrays

to_u32-of_u32 : (n : ℕ) → n < 2 ^ 32 → to_u32 (of_u32 n) ≡ n
to_u32-of_u32 n h = ground arith

-- The position behind a write that gave `ret`.
moved :
    (x ret : ℤ) (n : ℕ)
    → n < 2 ^ 31
    → IsCount n ret ⊎ IsErrorCode ret
    → to_u32 (if gt_nat ret 0 then add_int x ret else x) ≡ (to_u32 x + pos_part ret) % 2 ^ 32
moved x (pos zero) n small answer = omega (arith, to_u32-lt x)
moved x (pos (suc k)) n small (inl (c, e, le)) =
    let same : suc k ≡ c = ground arith in
    let small_k : suc k % 2 ^ 32 ≡ suc k = omega arith in
    rw (lt→ltb 0 (suc k) (omega arith)) (
      to_u32-of_u32 ((to_u32 x + suc k % 2 ^ 32) % 2 ^ 32) (omega arith)
      ∙ ap (λ m. (to_u32 x + m) % 2 ^ 32) small_k)
moved x (pos (suc k)) n small (inr (c, e, le)) = absurd (ground arith)
moved x (negsuc k) n small answer = omega (arith, to_u32-lt x)

module _ (A : AutoCover) where
  -- The arrays written one after the other, with the results.
  pub write_each : List (List ℕ) → AutoCoverBuffer A → Run (List ℤ × AutoCoverBuffer A)
  write_each [] o = done ([], o)
  write_each (array ∷ arrays) o = write_all A o array >>= λ (ret, o').
      write_each arrays o' >>= λ (rets, o''). done (ret ∷ rets, o'')

  written-write_pos :
      (o : AutoCoverBuffer A) (r : Result A) (n : ℕ)
      → n < 2 ^ 31
      → IsCount n r.ret ⊎ IsErrorCode r.ret
      → to_u32 (written A o r).1.write_pos ≡ (to_u32 o.write_pos + pos_part r.ret) % 2 ^ 32
  unfolding written
  written-write_pos o r n small answer = moved o.write_pos r.ret n small answer

  write_all-written :
      (o : AutoCoverBuffer A) (array : List ℕ) (r : Result A)
      → AutoCoverBufferJni.write A o.native_handle (some array) (pos 0) (pos (length array))
        ≡ done r
      → write_all A o array ≡ done (r.ret, (written A o r).1)
  unfolding write_all written
  write_all-written o array r runs = ap (λ m. m >>= λ x. done (written A o x)) runs

  -- One write of a whole array.
  write_all-moved :
      (L : IsLawful A) (o : AutoCoverBuffer A) (array : List ℕ)
      → length array < 2 ^ 31
      → (ret : ℤ) × (o' : AutoCoverBuffer A) × (write_all A o array ≡ done (ret, o'))
        × (IsCount (length array) ret ⊎ IsErrorCode ret)
        × (to_u32 o'.write_pos ≡ (to_u32 o.write_pos + pos_part ret) % 2 ^ 32)
  write_all-moved L o array small =
      let (r, runs, same, answer) =
        write-IsCount A L o.native_handle array 0 (length array) small (omega arith) in
      (
        r.ret,
        (written A o r).1,
        write_all-written o array r runs,
        answer,
        written-write_pos o r (length array) small answer,
      )

  each-cons :
      (o o' o'' : AutoCoverBuffer A) (array : List ℕ) (arrays : List (List ℕ)) (ret : ℤ)
      (rets : List ℤ)
      → write_all A o array ≡ done (ret, o')
      → write_each arrays o' ≡ done (rets, o'')
      → write_each (array ∷ arrays) o ≡ done (ret ∷ rets, o'')
  unfolding write_each
  each-cons o o' o'' array arrays ret rets runs rest = rw (runs, rest) refl

  module _ (L : IsLawful A) where
    -- Whole arrays that are written one after the other: each write ends without a fault and gives
    -- a number of bytes, no more than the array has, or an error code. getWritePos has then moved
    -- by the number of all the bytes together, modulo 2 ^ 32.
    pub write_each-write_pos :
        (arrays : List (List ℕ)) (o : AutoCoverBuffer A)
        → AreArrays arrays
        → (rets : List ℤ) × (o' : AutoCoverBuffer A) × (write_each arrays o ≡ done (rets, o'))
          × Answers arrays rets
          × (to_u32 o'.write_pos ≡ (to_u32 o.write_pos + sum (map pos_part rets)) % 2 ^ 32)
    unfolding write_each
    write_each-write_pos [] o small = ([], o, refl, no_write, omega (arith, to_u32-lt o.write_pos))
    write_each-write_pos (array ∷ arrays) o (small, rest) =
        let (ret, o', runs, answer, at_first) = write_all-moved L o array small in
        let (rets, o'', runs', answers, at_last) = write_each-write_pos arrays o' rest in
        (
          ret ∷ rets,
          o'',
          each-cons o o' o'' array arrays ret rets runs runs',
          one_write array arrays ret rets answer answers,
          omega (arith, at_first, at_last),
        )
