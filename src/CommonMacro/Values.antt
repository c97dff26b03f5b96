-- ===== src/CommonMacro/Values.antt =====
-- The macros of toolbox/src/main/cpp/lcu/common_macro.h that evaluate an argument more than once,
-- and those that release what a variable points to.
use my_toolbox.Base.{
  ℕ, ◌≡◌, refl, Bool, true, false, Option, none, some, ℤ, pos, negsuc, ltb, lt_nat, neg, Run, done,
  ◌>>=◌, if◌then◌else◌, arith,
}
use my_toolbox.CommonMacro.{checked_int}

-- An argument: an expression that may change the state.
abbrev pub Expression : Type 0 → Type 0
Expression W = W → Run (ℤ × W)

-- `x > y`
abbrev pub is_above : ℤ → ℤ → Bool
is_above (pos m) (pos n) = ltb n m
is_above (pos m) (negsuc n) = true
is_above (negsuc m) (pos n) = false
is_above (negsuc m) (negsuc n) = ltb m n

module _ {W : Type 0} where
  -- Both arguments; C does not say which comes first.
  unfoldable pub both : (left_first : Bool) → Expression W → Expression W → W → Run ((ℤ × ℤ) × W)
  both true a b w = a w >>= λ (x, w1). b w1 >>= λ (y, w2). done ((x, y), w2)
  both false a b w = b w >>= λ (y, w1). a w1 >>= λ (x, w2). done ((x, y), w2)

  -- __max(a, b)
  unfoldable pub max_macro : (left_first : Bool) → Expression W → Expression W → Expression W
  max_macro left_first a b w =
      both left_first a b w >>= λ ((x, y), w1). if is_above x y then a w1 else b w1

  -- __min(a, b)
  unfoldable pub min_macro : (left_first : Bool) → Expression W → Expression W → Expression W
  min_macro left_first a b w =
      both left_first a b w >>= λ ((x, y), w1). if is_above y x then a w1 else b w1

  -- __abs(x), on an `int`
  unfoldable pub abs_macro : Expression W → Expression W
  abs_macro a w = a w >>= λ (x, w1).
      if lt_nat x 0 then (a w1 >>= λ (y, w2). checked_int (neg y) >>= λ z. done (z, w2)) else a w1

  -- FREE(ptr), and fclose(fp) likewise: the variable, and the state after it. `release` is the
  -- function of the C library.
  unfoldable pub free_macro : (release : ℕ → W → W) → Option ℕ → W → Option ℕ × W
  free_macro release none w = (none, w)
  free_macro release (some p) w = (none, release p w)

  -- An expression that neither changes the state nor fails.
  abbrev value : ℤ → Expression W
  value x w = done (x, w)

  max_macro-value :
      (left_first : Bool) (x y : ℤ) (w : W)
      → max_macro left_first (value x) (value y) w ≡ done (if is_above x y then x else y, w)
  unfolding max_macro both
  max_macro-value true x y w = ground arith
  max_macro-value false x y w = ground arith

  min_macro-value :
      (left_first : Bool) (x y : ℤ) (w : W)
      → min_macro left_first (value x) (value y) w ≡ done (if is_above y x then x else y, w)
  unfolding min_macro both
  min_macro-value true x y w = ground arith
  min_macro-value false x y w = ground arith

  -- A second FREE releases nothing.
  free_macro-twice :
      (release : ℕ → W → W) (p : Option ℕ) (w : W)
      → free_macro release (free_macro release p w).0 (free_macro release p w).1
        ≡ free_macro release p w
  unfolding free_macro
  free_macro-twice release none w = refl
  free_macro-twice release (some p) w = refl
