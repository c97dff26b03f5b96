-- ===== src/MsgQueueJni/Tests/Whole.antt =====
-- On toolbox/src/main/cpp/jni_msg_queue_handler.c.
-- A context from init to destroy, and a message from pushMsg to the callback.
use my_toolbox.Base.{
  ℕ, zero, suc, ℤ, not, ◌≡◌, refl, true, false, none, some, Option, List, [], ◌∷◌, ◌++◌, pos,
  negsuc, arith, done, replicate,
}
use my_toolbox.Lcu.Handler.{Message, Code, code_value}
use my_toolbox.MsgQueueJni.{World, cleared, recreate_msg, pri_recreate_jobj_cache}
use my_toolbox.MsgQueueJni.Release.{IsReleased}
use my_toolbox.MsgQueueJni.Init.{
  init, init_context, finish, check_param, create_queue, prepare, destroy,
}
use my_toolbox.MsgQueueJni.Push.{push_msg, push_live, send, push_retrying, rounds, stage, assemble}
use my_toolbox.MsgQueueJni.Push.Staging.{payload, requested}
use my_toolbox.MsgQueueJni.Push.Retry.{Log}
use my_toolbox.MsgQueueJni.Thread.{
  Call, Handled, handle_queue_msg, load_obj, fetch, grow_cache, fill_cache, call_user,
}
use my_toolbox.MsgQueueJni.EndToEnd.{destroy-init, handle_queue_msg-push_msg}
use my_toolbox.MsgQueueJni.Order.{Traffic, start, pushed, Keeps}
use my_toolbox.MsgQueueJni.Drain.{drain, Serves, AllSound, AllReceived, heard, all_zero}
use my_toolbox.MsgQueueJni.Drained.{drain-Traffic}
use my_toolbox.MsgQueueJni.Commute.{push_live-handle_queue_msg}
use my_toolbox.MsgQueueJni.Tests.{
  Bounded, bounded, bounded-IsLawful, process, opened, packed, call, sleepy, busy, busy-Consumes,
  opened-IsReady,
}
use my_toolbox.MsgQueueJni.Tests.Life.{answers, stop, stop_runs}

-- What init makes of the process.
abbrev made : World Bounded
made = record {
  ctx = record {
    obj = some (record { room = 4096; items = [] });
    flag_exit = false;
    cb_data = record {
      jvm = some 1;
      env = none;
      attached_thread = false;
      m_cls = some 2;
      m_method_id = some 3;
      m_obj = some 4;
    };
    cache = record { obj_capacity = 512; j_obj = some (replicate 512 0) };
    msg = record { in_obj_capacity = 1024; in_msg = some (cleared 1024) };
  };
  res = record { blocks = 12; globals = 22; handlers = 3; attached = 1 };
}

init-made :
    init bounded true true answers process
    ≡ done (record { ret = pos 0; handle = some made.ctx; res = made.res })
unfolding init init_context finish check_param create_queue prepare pri_recreate_jobj_cache
    recreate_msg
init-made = refl

destroy-init_example :
    (left : World Bounded) × (destroy bounded true stop (some (stop made))
      ≡ record { ret = pos 0; handle = none; left = some left })
    × IsReleased process left
destroy-init_example =
    destroy-init bounded answers process made (stop made) stop init-made (stop_runs made) stop_runs

handle_queue_msg-push_msg_example :
    (code : Code) × (w' : World Bounded) × (queue : Bounded) × (h : Handled Bounded) × (c : Call)
    × (push_msg bounded true busy call (some (opened packed)) ≡ done (code_value code, some w'))
    × (w'.ctx.obj ≡ some queue)
    × Log bounded (requested call 5) packed queue code
    × (handle_queue_msg true (pos 0) (requested call 5) w' ≡ done h)
    × (h.call ≡ some c)
    × (c.what ≡ pos 5)
    × (c.arg1 ≡ negsuc 0)
    × (c.arg2 ≡ pos 6)
    × (c.obj_len ≡ pos 5)
    × (payload c.obj 5 ≡ 11 ∷ 12 ∷ 13 ∷ 14 ∷ 15 ∷ [])
handle_queue_msg-push_msg_example =
    handle_queue_msg-push_msg bounded busy call 5 (opened packed) packed (cleared 4) (0 ∷ 0 ∷ []) 7
      (pos 0) bounded-IsLawful busy-Consumes (opened-IsReady busy packed)
      (record { holds = refl; fits = refl }) refl (omega arith)

abbrev open_queue : Bounded
open_queue = record { room = 3; items = [] }

no_wait : (k : ℕ) (q : Bounded) → (taken : List Message) × (taken ++ q.items ≡ q.items)
no_wait k q = ([], refl)

-- The context after the call, and after the callback.
abbrev pushed_world : World Bounded
pushed_world = record (opened open_queue) {
  ctx = record ((opened open_queue).ctx) {
    obj = some (record { room = 3; items = requested call 5 ∷ [] });
    msg = record {
      in_obj_capacity = 10;
      in_msg = some (record {
        what = pos 5;
        arg1 = negsuc 0;
        arg2 = pos 6;
        obj_len = pos 5;
        obj = 11 ∷ 12 ∷ 13 ∷ 14 ∷ 15 ∷ 0 ∷ 0 ∷ 0 ∷ 0 ∷ 0 ∷ [];
      });
    };
  };
}

pushed_runs :
    push_msg bounded true sleepy call (some (opened open_queue)) ≡ done (pos 0, some pushed_world)
unfolding push_msg push_live send push_retrying rounds stage assemble
pushed_runs = refl

abbrev grown : List ℕ
grown = 11 ∷ 12 ∷ 13 ∷ 14 ∷ 15 ∷ 0 ∷ 0 ∷ 0 ∷ 0 ∷ 0 ∷ []

open_queue-Keeps : Keeps bounded [] (opened open_queue)
open_queue-Keeps = record {
  queue = open_queue;
  holds = refl;
  gone = [];
  order = refl;
  open_ctx = refl;
  buffer = (cleared 4, record { holds = refl; fits = refl });
  owned = omega arith;
}

pushed_traffic : Traffic bounded (opened open_queue) (requested call 5 ∷ []) pushed_world
pushed_traffic = pushed sleepy call 5 (pos 0) start no_wait refl refl pushed_runs

open_queue-Serves : Serves (opened open_queue)
open_queue-Serves = record {
  open_ctx = refl;
  env = 7;
  has_env = refl;
  array = 0 ∷ 0 ∷ [];
  cache = record { holds = refl; fits = refl };
}

-- The callback answers 0 twice, and then 1.
abbrev weary : ℕ → ℤ
weary zero = pos 0
weary (suc zero) = pos 0
weary (suc (suc n)) = pos 1

drain-Traffic_example :
    (q : Bounded) × ((gone : List Message) × ((calls : List (Option Call)) × ((last : World Bounded)
          × ((pushed_world.ctx.obj ≡ some q)
              × ((gone ++ q.items ≡ requested call 5 ∷ [])
                  × ((drain weary 0 q.items pushed_world ≡ done (calls, last))
                      × (AllReceived (heard weary 0 q.items) calls
                          × (last.ctx.flag_exit ≡ not (all_zero weary 0 q.items)))))))))
unfolding AllSound
drain-Traffic_example =
    drain-Traffic bounded weary bounded-IsLawful open_queue-Keeps open_queue-Serves pushed_traffic
      (record { size = 5; header = refl; small = omega arith; bytes = refl }, tt)

push_live_runs : push_live bounded true sleepy call (opened open_queue) ≡ done (pos 0, pushed_world)
unfolding push_live send push_retrying rounds stage assemble
push_live_runs = refl

-- The callback for a message on the context before the call.
abbrev served : Handled Bounded
served = record {
  ret = pos 0;
  world = record (opened open_queue) {
    ctx = record ((opened open_queue).ctx) {
      cache = record { obj_capacity = 10; j_obj = some grown };
    };
  };
  call =
      some
        (record { what = pos 5; arg1 = negsuc 0; arg2 = pos 6; obj = some grown; obj_len = pos 5 });
}

served_runs : handle_queue_msg true (pos 0) (requested call 5) (opened open_queue) ≡ done served
unfolding handle_queue_msg load_obj fetch grow_cache fill_cache call_user
served_runs = refl

push_live-handle_queue_msg_example :
    (last : World Bounded) × ((push_live bounded true sleepy call served.world ≡ done (pos 0, last))
      × (handle_queue_msg true (pos 0) (requested call 5) pushed_world
          ≡ done (record served { world = last })))
push_live-handle_queue_msg_example =
    push_live-handle_queue_msg bounded true true sleepy call (requested call 5) (opened open_queue)
      pushed_world (pos 0) served push_live_runs served_runs
