-- ===== src/NativeResample/Tests.antt =====
-- Runs of app/src/main/cpp/native-resample.cpp on a short sound.
use my_toolbox.Base.{ℕ, ◌+◌, ◌≡◌, refl, inl, [], ◌∷◌, true, if◌then◌else◌, done, fault, arith}
use my_toolbox.NativeResample.{Format, put, channels, repeats, frames, resample}
use my_toolbox.NativeResample.Expected.{expected}
use my_toolbox.NativeResample.Frames.{resample-expected}
use my_toolbox.NativeResample.Jni.{Buffer}
use my_toolbox.NativeResample.Buffers.{init_call, deinit_call, run, run-blocks}

-- Mono at 8000 Hz to stereo at 16000 Hz.
abbrev up : ℕ → Format
up capacity = record {
  in_channels = 1;
  in_rate = 8000;
  out_rate = 16000;
  out_channels = 2;
  out_bit = 16;
  capacity = capacity;
}

-- Stereo at 16000 Hz to mono at 8000 Hz.
abbrev down : Format
down = record {
  in_channels = 2;
  in_rate = 16000;
  out_rate = 8000;
  out_channels = 1;
  out_bit = 32;
  capacity = 8;
}

resample-up :
    resample (up 24) (5 ∷ 6 ∷ [])
    ≡ done (record { words = 5 ∷ 5 ∷ 5 ∷ 5 ∷ 6 ∷ 6 ∷ 6 ∷ 6 ∷ []; bytes = 16 })
unfolding resample frames repeats channels put
resample-up = refl

resample-down :
    resample down (1 ∷ 2 ∷ 3 ∷ 4 ∷ []) ≡ done (record { words = 196608 ∷ []; bytes = 4 })
unfolding resample frames repeats channels put
resample-down = refl

resample-small_buffer : resample (up 8) (5 ∷ 6 ∷ []) ≡ fault
unfolding resample frames repeats channels put
resample-small_buffer = refl

-- 2 ^ 20 input channels: at the output channel 2048 the product does not fit an `int`.
abbrev wide : Format
wide = record (up 16384) { in_channels = 1048576; out_channels = 4096 }

channels-overflow : channels wide (5 ∷ []) 0 1 2048 [] ≡ fault
unfolding channels put
channels-overflow = refl

resample-expected_example :
    resample (up 24) (5 ∷ 6 ∷ [])
    ≡ done (record { words = expected (up 24) (5 ∷ 6 ∷ []) 0 4; bytes = 16 })
resample-expected_example =
    resample-expected (up 24) (5 ∷ 6 ∷ []) 2 (inl refl) (omega arith) (omega arith) (omega arith)
      (omega arith) (omega arith) (omega arith) (omega arith) (omega arith) (omega arith)

abbrev held : Buffer
held = record { out = true; blocks = 1 }

run-blocks_example :
    (run (init_call true ∷ init_call true ∷ deinit_call ∷ deinit_call ∷ []) held).blocks
    ≡ 0
      + (if (run (init_call true ∷ init_call true ∷ deinit_call ∷ deinit_call ∷ []) held).out
          then 1
          else 0)
run-blocks_example =
    run-blocks (init_call true ∷ init_call true ∷ deinit_call ∷ deinit_call ∷ []) held 0 refl
