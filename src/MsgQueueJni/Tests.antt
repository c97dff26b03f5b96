-- ===== src/MsgQueueJni/Tests.antt =====
-- On toolbox/src/main/cpp/jni_msg_queue_handler.c.
-- A queue that meets the header's documentation, a run of pushMsg over it, and the theorems about
-- pushMsg at concrete data.
pub mod Life
mod Misuse
mod Whole
mod Race
use my_toolbox.Base.{
  ℕ, ◌+◌, ◌<◌, ◌≤◌, ◌≡◌, ◌≢◌, refl, Bool, true, false, Option, none, some, List, [], ◌∷◌, ◌++◌, ℤ,
  pos, negsuc, arith, ltb, leb, if◌then◌else◌, Run, done, fault, length, drop, take,
  take-append-drop, zero, suc,
}
use my_toolbox.Lcu.Handler.{
  Handler, IsLawful, Message, Code, success, full, code_value, ready_to_go, about_to_stop,
}
use my_toolbox.MsgQueueJni.{
  Resources, Context, World, recreate_msg, pri_recreate_jobj_cache, cleared,
}
use my_toolbox.MsgQueueJni.Valid.{HasBuffer, HasCache}
use my_toolbox.MsgQueueJni.Push.{
  Args, push_msg, push_live, send, push_retrying, rounds, push_in, message_of, stage, assemble,
  grow, copy_obj, exceeds,
}
use my_toolbox.MsgQueueJni.Push.Delivery.{IsReady, Delivered, push_msg-Delivered, push_msg-attempt}
use my_toolbox.MsgQueueJni.Push.Staging.{requested}
use my_toolbox.MsgQueueJni.Push.Retry.{Consumes, queue_at, code_at}

-- A queue with room for `room` messages.
pub record Bounded : Type 0 where
  pub room : ℕ
  pub items : List Message

abbrev pub put : Bounded → Message → Bounded × Code
put q m =
    if ltb (length q.items) q.room
    then (record q { items = q.items ++ m ∷ [] }, success)
    else (q, full)

abbrev pub bounded : Handler
bounded = record {
  Queue = Bounded;
  create = λ n. some (record { room = n; items = [] });
  push = put;
  pending = λ q. q.items;
}

pub bounded-IsLawful : IsLawful bounded
bounded-IsLawful = record {
  pending-create = λ n q e. ground arith;
  pending-push = λ q m e. ground arith;
  pending-push_failed = λ q m e. ground arith;
}

abbrev pub note : ℕ → Message
note n = record { what = pos n; arg1 = pos 0; arg2 = pos 0; obj_len = pos 0; obj = [] }

abbrev pub process : Resources
process = record { blocks = 10; globals = 20; handlers = 2; attached = 1 }

-- An open context with a buffer of four bytes and a cache of two.
abbrev pub opened : Bounded → World Bounded
opened q = record {
  ctx = record {
    obj = some q;
    flag_exit = false;
    cb_data = record {
      jvm = some 1;
      env = some 7;
      attached_thread = true;
      m_cls = some 2;
      m_method_id = some 3;
      m_obj = some 4;
    };
    cache = record { obj_capacity = 2; j_obj = some (0 ∷ 0 ∷ []) };
    msg = record { in_obj_capacity = 4; in_msg = some (cleared 4) };
  };
  res = record { blocks = 12; globals = 22; handlers = 3; attached = 2 };
}

abbrev pub roomy : Bounded
roomy = record { room = 3; items = note 1 ∷ [] }

abbrev pub packed : Bounded
packed = record { room = 1; items = note 1 ∷ [] }

abbrev pub call : Args
call = record {
  what = pos 5;
  arg1 = negsuc 0;
  arg2 = pos 6;
  obj = some (11 ∷ 12 ∷ 13 ∷ 14 ∷ 15 ∷ 16 ∷ []);
  obj_len = pos 5;
}

abbrev pub sleepy : ℕ → Bounded → Bounded
sleepy k q = q

-- The queue's thread takes a message while pushMsg sleeps.
abbrev pub busy : ℕ → Bounded → Bounded
busy k q = record q { items = drop 1 q.items }

pub busy-Consumes : Consumes bounded busy
busy-Consumes k q = (take 1 q.items, take-append-drop 1 q.items)

pub opened-IsReady :
    (wait : ℕ → Bounded → Bounded) (q : Bounded)
    → IsReady bounded wait call 5 (opened q) q (cleared 4)
opened-IsReady wait q = record {
  open_ctx = refl;
  queue = refl;
  buffer = record { holds = refl; fits = refl };
  obj_len = refl;
  sized = refl;
  owned = omega arith;
}

-- The buffer grows, and the message goes in behind the old one.
push_msg_runs :
    push_msg bounded true busy call (some (opened packed))
    ≡ done (
      pos 0,
      some (record (opened packed) {
        ctx = record ((opened packed).ctx) {
          obj = some (record { room = 1; items = requested call 5 ∷ [] });
          msg = record {
            in_obj_capacity = 10;
            in_msg = some (record {
              what = pos 5;
              arg1 = negsuc 0;
              arg2 = pos 6;
              obj_len = pos 5;
              obj = 11 ∷ 12 ∷ 13 ∷ 14 ∷ 15 ∷ 0 ∷ 0 ∷ 0 ∷ 0 ∷ 0 ∷ [];
            });
          };
        };
      }),
    )
unfolding push_msg push_live send push_retrying rounds stage assemble
push_msg_runs = refl

push_msg-Delivered_example :
    (code : Code) × (w' : World Bounded) × (push_msg bounded true busy call (some (opened roomy))
      ≡ done (code_value code, some w'))
    × Delivered bounded busy call 5 (opened roomy) roomy code w'
push_msg-Delivered_example =
    push_msg-Delivered bounded busy call 5 (opened roomy) roomy (cleared 4) bounded-IsLawful
      busy-Consumes (opened-IsReady busy roomy)

packed_first : (j : ℕ) → j < 1 → code_at bounded busy (requested call 5) 4 packed j ≡ full
unfolding queue_at
packed_first zero lt = refl
packed_first (suc j) lt = absurd (omega arith)

push_msg-attempt_example :
    (w' : World Bounded) × (push_msg bounded true busy call (some (opened packed))
      ≡ done (pos 0, some w'))
    × (w'.ctx.obj ≡ some (record { room = 1; items = requested call 5 ∷ [] }))
unfolding queue_at
push_msg-attempt_example =
    push_msg-attempt bounded busy call 5 (opened packed) packed (cleared 4)
      (opened-IsReady busy packed) 1 (omega arith) packed_first (λ p. cc)
