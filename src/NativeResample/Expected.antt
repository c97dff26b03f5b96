-- ===== src/NativeResample/Expected.antt =====
-- What resample of app/src/main/cpp/native-resample.cpp is to write: which input frame each
-- output frame is.
use my_toolbox.Base.{
  ℕ, zero, suc, ◌+◌, ◌-◌, ◌*◌, ◌/◌, ◌≡◌, refl, ◌∙◌, ap, ◌≤◌, ◌<◌, List, [], ◌∷◌, ◌++◌, append_assoc,
  length, length-append, get_or, arith,
}
use native.Mathlib.Nat.{
  add-zero, zero-add, suc-add, div-lt_iff_lt-mul, le-div_iff_mul-le, div-eq_of_lt-le,
}
use my_toolbox.NativeResample.{Format, word}

module _ (f : Format) (input : List ℕ) where
  open f use {in_channels, in_rate, out_rate, out_channels, out_bit, capacity}

  -- The output words for the channels from `ch` on, taken at the input index `i`.
  unfoldable pub frame : (i k ch : ℕ) → List ℕ
  frame i zero ch = []
  frame i (suc k) ch =
      word f (get_or input (i + ch * in_channels / out_channels) 0) ∷ frame i k (ch + 1)

  pub length-frame : (i k ch : ℕ) → length (frame i k ch) ≡ k
  unfolding frame
  length-frame i zero ch = refl
  length-frame i (suc k) ch = ap suc (length-frame i k (ch + 1))

  -- The output frames from the `k`-th on, `n` of them. The `k`-th is a copy of the input frame with
  -- the number ((k + 1) * in_rate - 1) / out_rate.
  unfoldable pub expected : (k n : ℕ) → List ℕ
  unfolding frame
  expected k zero = []
  expected k (suc n) =
      frame (((k + 1) * in_rate - 1) / out_rate * in_channels) out_channels 0 ++ expected (k + 1) n

  pub length-expected : (k n : ℕ) → length (expected k n) ≡ n * out_channels
  unfolding expected
  length-expected k zero = omega arith
  length-expected k (suc n) = omega (
    arith,
    length-append (frame (((k + 1) * in_rate - 1) / out_rate * in_channels) out_channels 0)
        (expected (k + 1) n),
    length-frame (((k + 1) * in_rate - 1) / out_rate * in_channels) out_channels 0,
    length-expected (k + 1) n,
  )

  pub channel-lt :
      (ch : ℕ) → ch < out_channels → 0 < in_channels → ch * in_channels / out_channels < in_channels
  channel-lt ch h pos = grind arith

  -- The input frame `s` is the source of the output frames between the two rounded products.
  pub source-eq :
      (s j : ℕ)
      → 0 < in_rate
      → s * out_rate / in_rate ≤ j
      → j < (s + 1) * out_rate / in_rate
      → ((j + 1) * in_rate - 1) / out_rate ≡ s
  source-eq s j pos lo hi =
      let below : s * out_rate < (j + 1) * in_rate = (div-lt_iff_lt-mul pos).0 (omega arith) in
      let above : (j + 1) * in_rate ≤ (s + 1) * out_rate =
        (le-div_iff_mul-le pos).0 (omega arith) in
      div-eq_of_lt-le out_rate (omega arith) (omega arith)

  pub expected-append :
      (o a b c : ℕ) → c ≡ o + a → expected o a ++ expected c b ≡ expected o (a + b)
  unfolding expected
  expected-append o zero b c e = rw (e, add-zero, zero-add)
  expected-append o (suc a) b c e =
      let one = frame (((o + 1) * in_rate - 1) / out_rate * in_channels) out_channels 0 in
      rw suc-add (
        append_assoc one (expected (o + 1) a) (expected c b)
        ∙ ap (λ r. one ++ r) (expected-append (o + 1) a b c (omega arith)))
