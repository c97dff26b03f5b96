-- ===== src/NativeResample.antt =====
-- app/src/main/cpp/native-resample.cpp: the resampler and its buffer. Numbers of channels, rates
-- and lengths are not negative; samples are the bit patterns of 16-bit words.
pub mod Expected
pub mod Repeats
pub mod Frames
pub mod Strings
pub mod Jni
pub mod Buffers
mod Tests
use my_toolbox.Base.{
  ℕ, zero, suc, ◌+◌, ◌*◌, ◌/◌, ◌^◌, ◌-◌, ◌&&◌, ◌||◌, not, max, Option, none, some, List, [], ◌∷◌,
  ◌++◌, Bool, true, false, ltb, leb, ◌==◌, if◌then◌else◌, Run, done, fault, ◌>>=◌, length,
  get_elem?,
}

-- The parameters of resample, but for the two buffers. `capacity` is the size of `outBuf` in bytes.
pub record Format : Type 0 where
  pub in_channels : ℕ
  pub in_rate : ℕ
  pub out_rate : ℕ
  pub out_channels : ℕ
  pub out_bit : ℕ
  pub capacity : ℕ

-- The size of an output word in the return value, and in the pointer arithmetic of the writes.
abbrev pub width : Format → ℕ
width f = if f.out_bit == 32 then 4 else 2

-- The word that is written for a sample: the sample, or the sample shifted left by 16.
abbrev pub word : Format → ℕ → ℕ
word f s = if f.out_bit == 32 then s * 2 ^ 16 else s

-- `outBuf[o++] = …`, where `out` is what has been written so far; `o` is an `int`. Other widths than 16 and 32 write
-- nothing; the sample is not read then.
unfoldable pub put : Format → List ℕ → Option ℕ → Run (List ℕ)
put f out sample =
    if f.out_bit == 16 || f.out_bit == 32
    then elim sample [
      | none ↦ fault
      | some s ↦
          if ltb (length out + 1) (2 ^ 31) && leb (width f * (length out + 1)) f.capacity
          then done (out ++ word f s ∷ [])
          else fault
    ]
    else done out

-- The loop over `ch`, with `k` channels left, at the input index `i`. The product
-- `ch * inChannels` and the index must fit an `int`; other widths than 16 and 32 compute neither.
unfoldable pub channels : Format → List ℕ → ℕ → (k ch : ℕ) → List ℕ → Run (List ℕ)
channels f input i zero ch out = done out
channels f input i (suc k) ch out =
    let rest =
      put f out (get_elem? input (i + ch * f.in_channels / f.out_channels))
      >>= channels f input i k (ch + 1) in
    if not (f.out_bit == 16 || f.out_bit == 32)
    then rest
    else if ltb (ch * f.in_channels) (2 ^ 31)
        && ltb (i + ch * f.in_channels / f.out_channels) (2 ^ 31)
    then rest
    else fault

-- The loop over `outOffset`, with `k` output frames left before `t`.
unfoldable pub repeats : Format → List ℕ → ℕ → (k : ℕ) → List ℕ → Run (List ℕ)
repeats f input i zero out = done out
repeats f input i (suc k) out = channels f input i f.out_channels 0 out >>= repeats f input i k

-- The loop over `i`. `in_offset * out_rate` and `i` behind the step must fit an `int`. Without fuel it does not end.
unfoldable pub frames : Format → List ℕ → (fuel i in_offset out_offset : ℕ) → List ℕ → Run (List ℕ)
frames f input zero i in_offset out_offset out = fault
frames f input (suc fuel) i in_offset out_offset out =
    let t = (in_offset + 1) * f.out_rate / f.in_rate in
    let rest =
      repeats f input i (t - out_offset) out
      >>= frames f input fuel (i + f.in_channels) (in_offset + 1) (max out_offset t) in
    if ltb i (length input)
    then (if ltb ((in_offset + 1) * f.out_rate) (2 ^ 31)
          && ltb 0 f.in_rate
          && ltb (i + f.in_channels) (2 ^ 31)
        then rest
        else fault)
    else done out

-- What resample writes and what it returns: the number of bytes.
pub record Resampled : Type 0 where
  pub words : List ℕ
  pub bytes : ℕ

-- The remainders after the loop divide by the two rates; the product `o * sizeof` must fit an `int`.
unfoldable pub resample : Format → List ℕ → Run Resampled
resample f input = frames f input (length input + 1) 0 0 0 [] >>= λ out.
    if f.in_rate == 0 || f.out_rate == 0
    then fault
    else if leb (2 ^ 31) (length out * width f)
    then fault
    else done (record { words = out; bytes = length out * width f })
