-- ===== src/NativeResample/Repeats.antt =====
-- On app/src/main/cpp/native-resample.cpp.
-- What resample writes for one input frame.
use my_toolbox.Base.{
  ℕ, zero, suc, ◌+◌, ◌*◌, ◌/◌, ◌^◌, ◌≡◌, refl, sym, ◌∙◌, ap, ◌≤◌, ◌<◌, ◌⊎◌, ◌||◌, some, List, [],
  ◌∷◌, ◌++◌, append-nil, append_assoc, true, ◌==◌, lt→ltb, done, ◌>>=◌, length, length-append,
  get_elem?, get_or, arith,
}
use my_toolbox.NativeResample.{Format, width, word, put, channels, repeats}
use my_toolbox.NativeResample.Expected.{frame, expected, channel-lt, source-eq, length-frame}

get_elem?-get_or : (xs : List ℕ) (i : ℕ) → i < length xs → get_elem? xs i ≡ some (get_or xs i 0)
get_elem?-get_or [] i h = absurd (omega arith)
get_elem?-get_or (x ∷ xs) zero h = refl
get_elem?-get_or (x ∷ xs) (suc i) h = get_elem?-get_or xs i (omega arith)

-- Fewer words take no more room.
pub fewer : (w : ℕ) {a b c : ℕ} → a ≤ b → w * b ≤ c → w * a ≤ c
fewer w h room = grind arith

-- Where the words fit a block, their number does.
count_fits : (w n c : ℕ) → 0 < w → w * n ≤ c → n ≤ c
count_fits w n c h room = grind arith

pub mul_mono : (a b c : ℕ) → a ≤ b → a * c ≤ b * c
mul_mono a b c h = grind arith

module _ (f : Format) (input : List ℕ) where
  open f use {in_channels, in_rate, out_rate, out_channels, out_bit, capacity}

  module _ (bit : (out_bit ≡ 16) ⊎ (out_bit ≡ 32)) (some_in : 0 < in_channels)
      (small_in : length input < 2 ^ 31) (products : out_channels * in_channels ≤ 2 ^ 31)
      (small_out : capacity < 2 ^ 31) where
    width-positive : 0 < width f
    width-positive = ground arith

    small_count : (n : ℕ) → width f * n ≤ capacity → n < 2 ^ 31
    small_count n room = omega (arith, count_fits (width f) n capacity width-positive room)

    put-word :
        (out : List ℕ) (i : ℕ)
        → i < length input
        → width f * (length out + 1) ≤ capacity
        → put f out (get_elem? input i) ≡ done (out ++ word f (get_or input i 0) ∷ [])
    unfolding put
    put-word out i h room =
        let count = small_count (length out + 1) room in ground (arith, get_elem?-get_or input i h)

    small_product : (ch : ℕ) → ch < out_channels → ch * in_channels < 2 ^ 31
    small_product ch h =
        omega (arith, some_in, mul_mono (ch + 1) out_channels in_channels (omega arith))

    channels-step :
        (i k ch : ℕ) (out : List ℕ)
        → ch < out_channels
        → i + in_channels ≤ length input
        → channels f input i (suc k) ch out ≡ (
            put f out (get_elem? input (i + ch * in_channels / out_channels))
            >>= channels f input i k (ch + 1))
    unfolding channels
    channels-step i k ch out h whole =
        let product = small_product ch h in
        let inside = channel-lt f input ch h some_in in
        let width_set : (out_bit == 16 || out_bit == 32) ≡ true = ground arith in
        rw
          (
            width_set,
            lt→ltb (ch * in_channels) (2 ^ 31) product,
            lt→ltb (i + ch * in_channels / out_channels) (2 ^ 31) (omega arith),
          )
          refl

    channels-frame :
        (i k ch : ℕ) (out : List ℕ)
        → ch + k ≡ out_channels
        → i + in_channels ≤ length input
        → width f * (length out + k) ≤ capacity
        → channels f input i k ch out ≡ done (out ++ frame f input i k ch)
    unfolding channels frame
    channels-frame i zero ch out e h room = ap done (sym (append-nil out))
    channels-frame i (suc k) ch out e h room =
        let j = i + ch * in_channels / out_channels in
        let w = word f (get_or input j 0) in
        let size : length (out ++ w ∷ []) ≡ length out + 1 = length-append out (w ∷ []) in
        let inside : j < length input =
          omega (arith, channel-lt f input ch (omega arith) some_in) in
        rw
          (
            channels-step i k ch out (omega arith) h,
            put-word out j inside (fewer (width f) (omega arith) room),
          )
          (channels-frame i k (ch + 1) (out ++ w ∷ []) (omega arith) h
              (fewer (width f) (omega arith) room)
            ∙ ap done (append_assoc out (w ∷ []) (frame f input i k (ch + 1))))

    pub repeats-expected :
        (s k o : ℕ) (out : List ℕ)
        → 0 < in_rate
        → s * out_rate / in_rate ≤ o
        → o + k ≤ (s + 1) * out_rate / in_rate
        → s * in_channels + in_channels ≤ length input
        → width f * (length out + k * out_channels) ≤ capacity
        → repeats f input (s * in_channels) k out ≡ done (out ++ expected f input o k)
    unfolding repeats expected
    repeats-expected s zero o out pos lo hi h room = ap done (sym (append-nil out))
    repeats-expected s (suc k) o out pos lo hi h room =
        let one = frame f input (s * in_channels) out_channels 0 in
        let size : length (out ++ one) ≡ length out + out_channels =
          length-append out one
          ∙ ap (λ n. length out + n) (length-frame f input (s * in_channels) out_channels 0) in
        rw
          (
            source-eq f input s o pos lo (omega arith),
            channels-frame (s * in_channels) out_channels 0 out (omega arith) h
                (fewer (width f) (omega arith) room),
          )
          (repeats-expected s k (o + 1) (out ++ one) pos (omega arith) (omega arith) h
              (fewer (width f) (omega arith) room)
            ∙ ap done (append_assoc out one (expected f input (o + 1) k)))
