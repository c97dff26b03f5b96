-- ===== src/CommonMacro/Random.antt =====
-- The random numbers of toolbox/src/main/cpp/lcu/common_macro.h.
use my_toolbox.Base.{
  ℕ, zero, suc, ◌%◌, ◌≡◌, ap, ◌<◌, true, ℤ, pos, negsuc, pos_part, refl, ◌+◌, ◌-◌, IsInt32,
  is_int32, Below, AtMost, add, sub, done, arith,
}
use native.Mathlib.Nat.{mod-lt}
use my_toolbox.CommonMacro.{checked_int, remainder, random}

is_int32-IsInt32 : (x : ℤ) → IsInt32 x → is_int32 x ≡ true
is_int32-IsInt32 (pos n) h = ground arith
is_int32-IsInt32 (negsuc n) h = ground arith

remainder-pos : (r d : ℕ) → 0 < d → remainder r (pos d) ≡ done (pos (r % d))
unfolding remainder
remainder-pos r d h = ground arith

-- The distance between two numbers.
sub-Below : (a b : ℤ) → Below a b → (d : ℕ) × ((0 < d) × (sub b a ≡ pos d))
sub-Below (pos zero) (pos b) h = (b, (omega arith, ap pos (omega arith)))
sub-Below (pos (suc a)) (pos b) h = (b - suc a, (omega arith, ground arith))
sub-Below (pos a) (negsuc b) h = absurd (omega arith)
sub-Below (negsuc a) (pos b) h = (b + suc a, (omega arith, refl))
sub-Below (negsuc a) (negsuc b) h = (suc a - suc b, (omega arith, ground arith))

-- A number below the distance, from the first of the two on.
add-within :
    (a b : ℤ) (d k : ℕ)
    → Below a b
    → sub b a ≡ pos d
    → k < d
    → AtMost a (add (pos k) a) × Below (add (pos k) a) b
add-within (pos zero) (pos b) d k h e less = let same = ap pos_part e in ground arith
add-within (pos (suc a)) (pos b) d k h e less = let same = ap pos_part e in ground arith
add-within (pos a) (negsuc b) d k h e less = absurd (omega arith)
add-within (negsuc a) (pos b) d k h e less = let same = ap pos_part e in ground arith
add-within (negsuc a) (negsuc b) d k h e less = let same = ap pos_part e in ground arith

IsInt32-within : (a b v : ℤ) → IsInt32 a → IsInt32 b → AtMost a v → Below v b → IsInt32 v
IsInt32-within (pos a) (pos b) (pos v) ha hb l u = omega arith
IsInt32-within (pos a) (pos b) (negsuc v) ha hb l u = absurd (omega arith)
IsInt32-within (pos a) (negsuc b) (pos v) ha hb l u = absurd (omega arith)
IsInt32-within (pos a) (negsuc b) (negsuc v) ha hb l u = absurd (omega arith)
IsInt32-within (negsuc a) (pos b) (pos v) ha hb l u = omega arith
IsInt32-within (negsuc a) (pos b) (negsuc v) ha hb l u = omega arith
IsInt32-within (negsuc a) (negsuc b) (pos v) ha hb l u = absurd (omega arith)
IsInt32-within (negsuc a) (negsuc b) (negsuc v) ha hb l u = omega arith

-- RANDOM(a, b) of two `int`s with a < b whose difference is an `int` gives an `int` from a up to
-- but not including b, whatever `rand` gives.
random-within :
    (r : ℕ) (a b : ℤ)
    → IsInt32 a
    → IsInt32 b
    → Below a b
    → IsInt32 (sub b a)
    → (v : ℤ) × ((random r a b ≡ done v) × (AtMost a v × Below v b))
unfolding random checked_int
random-within r a b ha hb h hd =
    let (d, (above, e)) = sub-Below a b h in
    let less : r % d < d = mod-lt r above in
    let within = add-within a b d (r % d) h e less in
    let fits = IsInt32-within a b (add (pos (r % d)) a) ha hb (within.0) (within.1) in
    (
      add (pos (r % d)) a,
      (
        rw
            (
              is_int32-IsInt32 (sub b a) hd,
              e,
              remainder-pos r d above,
              is_int32-IsInt32 (add (pos (r % d)) a) fits,
            )
            refl,
        within,
      ),
    )
