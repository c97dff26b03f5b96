-- ===== src/Assets/Tests.antt =====
-- Runs of toolbox/src/main/cpp/jni_assets.c.
use my_toolbox.Base.{ℕ, ◌≡◌, Option, none, some, List, [], ◌∷◌, true, done, ℤ, pos, arith}
use my_toolbox.Assets.{Held, get_res_size}
use my_toolbox.Assets.Balance.{size_of, answer, get_res_size-answer}

abbrev nothing_held : Held
nothing_held = record { strings = 0; arrays = 0; assets = 0 }

-- Each asset is as long as the first byte of its path.
abbrev open_named : List ℕ → Option ℤ
open_named [] = none
open_named (x ∷ xs) = some (pos x)

get_res_size-answer_example :
    get_res_size open_named true (some (some (9 ∷ []))) (some (pos 0 ∷ [])) nothing_held
    ≡ done (record { ret = pos 0; holder = some (pos 9 ∷ []); held = nothing_held })
unfolding size_of answer
get_res_size-answer_example =
    get_res_size-answer open_named true (some (some (9 ∷ []))) (pos 0 ∷ []) nothing_held
      (omega arith)
