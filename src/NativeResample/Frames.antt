-- ===== src/NativeResample/Frames.antt =====
-- On app/src/main/cpp/native-resample.cpp.
-- resample writes the frames that are expected, and no access leaves a buffer.
use my_toolbox.Base.{
  ℕ, zero, suc, ◌+◌, ◌-◌, ◌*◌, ◌/◌, ◌^◌, ◌≡◌, ◌∙◌, ap, ◌≤◌, ◌<◌, ◌⊎◌, ◌||◌, max, List, [], ◌++◌,
  append-nil, append_assoc, false, ◌==◌, leb, Run, done, ◌>>=◌, length, length-append, arith,
}
use native.Mathlib.Nat.{zero-add, zero-mul, zero-div, sub-zero}
use my_toolbox.NativeResample.{Format, width, repeats, frames, resample}
use my_toolbox.NativeResample.Repeats.{fewer, mul_mono, repeats-expected}
use my_toolbox.NativeResample.Expected.{expected, length-expected, expected-append}

split_room : (l l' d e g c : ℕ) → l' ≡ l + d * c → d + e ≡ g → l' + e * c ≤ l + g * c
split_room l l' d e g c h k = rw (← k) (omega arith)

module _ (f : Format) (input : List ℕ) where
  open f use {in_channels, in_rate, out_rate, out_channels, out_bit, capacity}

  module _ (bit : (out_bit ≡ 16) ⊎ (out_bit ≡ 32)) (some_in : 0 < in_channels)
      (small_in : length input < 2 ^ 31) (products : out_channels * in_channels ≤ 2 ^ 31)
      (small_out : capacity < 2 ^ 31) where
    -- The number of output frames that the first `s` input frames make.
    abbrev made : ℕ → ℕ
    made s = s * out_rate / in_rate

    made_mono : (s t : ℕ) → s ≤ t → 0 < in_rate → made s ≤ made t
    made_mono s t h pos = grind arith

    frames-step :
        (fuel s o : ℕ) (out : List ℕ)
        → s * in_channels < length input
        → (s + 1) * out_rate < 2 ^ 31
        → 0 < in_rate
        → s * in_channels + in_channels ≤ length input
        → frames f input (suc fuel) (s * in_channels) s o out ≡ (
            repeats f input (s * in_channels) (made (s + 1) - o) out
            >>= frames f input fuel (s * in_channels + in_channels) (s + 1) (max o (made (s + 1))))
    unfolding frames
    frames-step fuel s o out inside range pos whole =
        let step : s * in_channels + in_channels < 2 ^ 31 = omega (arith, small_in) in ground arith

    frames-end :
        (fuel s o : ℕ) (out : List ℕ)
        → length input ≡ s * in_channels
        → frames f input (suc fuel) (s * in_channels) s o out ≡ done out
    unfolding frames
    frames-end fuel s o out size = ground arith

    -- The state in which a round leaves the loop is that in which the next begins.
    next_round :
        (fuel s o o' : ℕ) (out : List ℕ) {r : Run (List ℕ)}
        → o ≤ o'
        → frames f input fuel ((s + 1) * in_channels) (s + 1) o' out ≡ r
        → frames f input fuel (s * in_channels + in_channels) (s + 1) (max o o') out ≡ r
    next_round fuel s o o' out h e =
        let top : max o o' ≡ o' = omega arith in
        let index : s * in_channels + in_channels ≡ (s + 1) * in_channels = omega arith in
        rw (top, index) e

    frames-expected :
        (total n s fuel : ℕ) (out : List ℕ)
        → s + n ≡ total
        → n < fuel
        → length input ≡ total * in_channels
        → 0 < in_rate
        → total * out_rate < 2 ^ 31
        → width f * (length out + (made total - made s) * out_channels) ≤ capacity
        → frames f input fuel (s * in_channels) s (made s) out
          ≡ done (out ++ expected f input (made s) (made total - made s))
    unfolding expected
    frames-expected total n s zero out e fuel size pos range room = absurd (omega arith)
    frames-expected total zero s (suc fuel) out e enough size pos range room =
        let same : s ≡ total = omega arith in
        let none_left : made total - made s ≡ 0 = rw same (omega arith) in
        rw (frames-end fuel s (made s) out (rw same size), none_left, append-nil)
    frames-expected total (suc n) s (suc fuel) out e enough size pos range room =
        let d = made (s + 1) - made s in
        let up = made_mono s (s + 1) (omega arith) pos in
        let top = made_mono (s + 1) total (omega arith) pos in
        let out' = out ++ expected f input (made s) d in
        let grown : length out' ≡ length out + d * out_channels =
          length-append out (expected f input (made s) d)
          ∙ ap (λ k. length out + k) (length-expected f input (made s) d) in
        let here : s * in_channels + in_channels ≤ length input =
          rw size (omega (arith, mul_mono (s + 1) total in_channels (omega arith))) in
        let small : (s + 1) * out_rate < 2 ^ 31 =
          omega (arith, mul_mono (s + 1) total out_rate (omega arith)) in
        let fits : width f * (length out + d * out_channels) ≤ capacity =
          fewer (width f)
            (omega (arith, mul_mono d (made total - made s) out_channels (omega arith))) room in
        rw
          (
            frames-step fuel s (made s) out (omega arith) small pos here,
            repeats-expected f input bit some_in small_in products small_out s d (made s) out pos
                (omega arith) (omega arith) here fits,
          )
          (next_round fuel s (made s) (made (s + 1)) out' up (
            frames-expected total n (s + 1) fuel out' (omega arith) (omega arith) size pos range (
              fewer (width f)
                (split_room (length out) (length out') d (made total - made (s + 1))
                  (made total - made s) out_channels grown (omega arith))
                room)
            ∙ ap done (
                append_assoc out (expected f input (made s) d) _
                ∙ ap (λ r. out ++ r)
                    (expected-append f input (made s) d (made total - made (s + 1)) (made (s + 1))
                        (omega arith)
                      ∙ ap (expected f input (made s)) (omega arith)))))

-- The start of the loop, where the two products with 0 are 0.
from_zero :
    (f : Format) (input : List ℕ) (fuel i o n : ℕ)
    → i ≡ 0
    → o ≡ 0
    → frames f input fuel i 0 o [] ≡ done (expected f input o (n - o))
    → frames f input fuel 0 0 0 [] ≡ done (expected f input 0 n)
from_zero f input fuel i o n ei eo h =
    let none_made : n - 0 ≡ n = omega arith in rw (ei, eo, none_made) at h

-- resample of whole frames, to 16 or 32 bits, ends without a fault if the rates are not 0, the
-- length of the input, the positions and the size of the output buffer fit an `int`, the product of
-- the numbers of channels is at most 2 ^ 31, and the output fits its buffer. It writes total * out_rate / in_rate
-- frames; the `k`-th of them is a copy of the input frame with the number ((k + 1) * in_rate - 1)
-- / out_rate, its channels spread over the output channels. It returns the number of bytes that
-- it wrote.
pub resample-expected :
    (f : Format) (input : List ℕ) (total : ℕ)
    → (f.out_bit ≡ 16) ⊎ (f.out_bit ≡ 32)
    → 0 < f.in_channels
    → 0 < f.in_rate
    → 0 < f.out_rate
    → length input ≡ total * f.in_channels
    → total * f.out_rate < 2 ^ 31
    → length input < 2 ^ 31
    → f.out_channels * f.in_channels ≤ 2 ^ 31
    → f.capacity < 2 ^ 31
    → width f * (total * f.out_rate / f.in_rate * f.out_channels) ≤ f.capacity
    → let n = total * f.out_rate / f.in_rate in
      resample f input
      ≡ done (record { words = expected f input 0 n; bytes = n * f.out_channels * width f })
unfolding resample
resample-expected f input total bit some_in pos out_pos size range small_in products small_out
      room =
    let n = total * f.out_rate / f.in_rate in
    let start : 0 * f.out_rate / f.in_rate ≡ 0 = rw zero-mul (zero-div f.in_rate) in
    let fits : width f * (0 + (n - 0 * f.out_rate / f.in_rate) * f.out_channels) ≤ f.capacity =
      rw (start, sub-zero, zero-add) room in
    let enough : total < length input + 1 =
      rw size (omega (arith, mul_mono 1 f.in_channels total some_in)) in
    let runs =
      from_zero f input (length input + 1) (0 * f.in_channels) (0 * f.out_rate / f.in_rate) n
        (zero-mul f.in_channels) start
        (frames-expected f input bit some_in small_in products small_out total total 0
          (length input + 1) [] (omega arith) enough size pos range fits) in
    let rates : (f.in_rate == 0 || f.out_rate == 0) ≡ false = ground arith in
    let count : length (expected f input 0 n) * width f < 2 ^ 31 =
      rw (length-expected f input 0 n) (omega (arith, room, small_out)) in
    let fits_int : leb (2 ^ 31) (length (expected f input 0 n) * width f) ≡ false =
      ground (arith, count) in
    rw (runs, rates, fits_int, length-expected)
