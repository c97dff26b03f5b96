-- ===== src/AutoCoverBuffer/Tests.antt =====
-- On toolbox/src/main/java/com/threshold/toolbox/AutoCoverBuffer.java.
-- The theorems about an AutoCoverBuffer at concrete data.
use my_toolbox.Base.{
  ◌≡◌, ◌+◌, ◌^◌, ◌%◌, some, List, [], ◌∷◌, map, ℤ, negsuc, pos_part, to_u32, arith, done,
}
use my_toolbox.AutoCoverBufferJni.Tests.{log, log-IsLawful}
use my_toolbox.AutoCoverBuffer.{AutoCoverBuffer}
use my_toolbox.AutoCoverBuffer.Position.{Answers, sum, write_each, write_each-write_pos}

-- Two bytes below the end of the positions.
abbrev late : AutoCoverBuffer log
late = record { native_handle = some (3 ∷ []); write_pos = negsuc 1 }

write_each-write_pos_example :
    (rets : List ℤ) × (o' : AutoCoverBuffer log) × (write_each log
        ((5 ∷ 6 ∷ []) ∷ (7 ∷ []) ∷ [])
        late
      ≡ done (rets, o'))
    × Answers ((5 ∷ 6 ∷ []) ∷ (7 ∷ []) ∷ []) rets
    × (to_u32 o'.write_pos ≡ (4294967294 + sum (map pos_part rets)) % 2 ^ 32)
write_each-write_pos_example =
    write_each-write_pos log log-IsLawful ((5 ∷ 6 ∷ []) ∷ (7 ∷ []) ∷ []) late
      (omega arith, (omega arith, tt))
