-- ===== src/MsgQueueJni/Tests/Misuse.antt =====
-- On toolbox/src/main/cpp/jni_msg_queue_handler.c.
-- The theorems about the calls of pushMsg that send nothing or that fault, at concrete data.
use my_toolbox.Base.{◌≡◌, refl, false, true, none, some, [], ◌∷◌, pos, negsuc, arith, done, fault}
use my_toolbox.MsgQueueJni.{World, cleared}
use my_toolbox.MsgQueueJni.Push.{Args, push_msg}
use my_toolbox.MsgQueueJni.Push.Refusal.{push_msg-no_memory, push_msg-stale}
use my_toolbox.MsgQueueJni.Tests.{Bounded, put, bounded, opened, roomy, busy, call}

push_msg-no_memory_example : push_msg bounded false busy call (some (opened roomy)) ≡ fault
push_msg-no_memory_example =
    push_msg-no_memory bounded busy call (opened roomy) (11 ∷ 12 ∷ 13 ∷ 14 ∷ 15 ∷ 16 ∷ []) 5 refl
      refl refl (omega arith) (omega arith) (omega arith)

-- A null array with a length of three.
abbrev hollow : Args
hollow = record call { obj = none; obj_len = pos 3 }

push_msg-stale_example :
    (w' : World Bounded) × (push_msg bounded true busy hollow (some (opened roomy))
      ≡ done (pos 0, some w'))
    × (w'.ctx.obj
        ≡ some
            (put roomy (record {
              what = pos 5;
              arg1 = negsuc 0;
              arg2 = pos 6;
              obj_len = pos 3;
              obj = 0 ∷ 0 ∷ 0 ∷ [];
            })).0)
push_msg-stale_example =
    push_msg-stale bounded true busy hollow (opened roomy) roomy (cleared 4) 3 refl refl refl refl
      refl (omega arith) refl
