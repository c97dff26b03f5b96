-- ===== src/MsgQueueJni/Tests/Life.antt =====
-- On toolbox/src/main/cpp/jni_msg_queue_handler.c.
-- The theorems about init, destroy, the callback and the runs between them, at concrete data.
use my_toolbox.Base.{ℕ, ◌≡◌, refl, true, none, some, List, [], ◌∷◌, pos, negsuc, arith, done, fault}
use my_toolbox.Lcu.Handler.{Message, about_to_stop}
use my_toolbox.MsgQueueJni.{World, recreate_msg, pri_recreate_jobj_cache}
use my_toolbox.MsgQueueJni.Valid.{HasCache}
use my_toolbox.MsgQueueJni.Thread.{Vm, Call, Handled, on_status_changed, on_stop, handle_queue_msg}
use my_toolbox.MsgQueueJni.Owns.{Owns}
use my_toolbox.MsgQueueJni.Lifecycle.{Reach, here, next, status}
use my_toolbox.MsgQueueJni.Init.{
  Answers, InitResult, init, init_context, check_param, prepare, create_queue,
}
use my_toolbox.MsgQueueJni.Opening.{IsOpened, init-IsOpened}
use my_toolbox.MsgQueueJni.Refused.{too_small, init-refused}
use my_toolbox.MsgQueueJni.Callback.{Receives, handle_queue_msg-Receives}
use my_toolbox.MsgQueueJni.Tests.{Bounded, bounded, opened, roomy, process}

-- The JVM detaches the thread.
abbrev pub vm : Vm
vm = record { get_env = none; attach = none; detach = true }

pub opened-Owns : (q : Bounded) → Owns process (opened q)
opened-Owns q = omega arith

pub stop : World Bounded → World Bounded
stop = on_stop vm

pub stop_runs : (v : World Bounded) → Reach bounded v (stop v)
unfolding stop on_status_changed
stop_runs v = next here (status about_to_stop vm refl)

abbrev pub answers : Answers
answers = record {
  context_granted = true;
  msg_granted = true;
  array_granted = true;
  jvm = 1;
  m_cls = 2;
  protocol_ver = some (pos 0);
  has_buf_size = true;
  has_cb_field = true;
  buf_size = pos 4096;
  init_param = 4;
  has_cb_name = true;
  method = some 3;
}

init-IsOpened_example :
    (w : World Bounded) × (init bounded true true answers process
      ≡ done (record { ret = pos 0; handle = some w.ctx; res = w.res }))
    × IsOpened bounded answers process (record { room = 4096; items = [] }) w
init-IsOpened_example =
    init-IsOpened bounded answers process 4096 3 (record { room = 4096; items = [] })
      (record {
        context_granted = refl;
        protocol_ver = refl;
        has_buf_size = refl;
        has_cb_field = refl;
        buf_size = refl;
        large = omega arith;
        has_cb_name = refl;
        method = refl;
        created = refl;
      })

-- `bufSize` is too small.
abbrev small_queue : Answers
small_queue = record answers { buf_size = pos 63 }

init-refused_example :
    (r : InitResult bounded) × (init bounded true true small_queue process ≡ done r)
    × (r.ret ≡ negsuc 0)
    × (r.handle ≡ none)
    × (r.res.blocks ≡ 11)
    × (r.res.globals ≡ 20)
    × (r.res.handlers ≡ 2)
init-refused_example =
    init-refused bounded small_queue process refl
      (too_small (record { protocol_ver = refl; has_buf_size = refl; has_cb_field = refl }) refl)

-- The callback's name is not that of a method: the message on it reads a string that is released.
init-nameless : init bounded true true (record answers { method = none }) process ≡ fault
unfolding init init_context check_param create_queue prepare pri_recreate_jobj_cache recreate_msg
init-nameless = refl

abbrev pub letter : Message
letter = record {
  what = pos 5;
  arg1 = negsuc 0;
  arg2 = pos 6;
  obj_len = pos 3;
  obj = 11 ∷ 12 ∷ 13 ∷ [];
}

handle_queue_msg-Receives_example :
    (h : Handled Bounded) × (c : Call) × (a' : List ℕ) × (handle_queue_msg true
        (negsuc 4)
        letter
        (opened roomy)
      ≡ done h)
    × (h.call ≡ some c)
    × Receives letter 3 c
    × (h.ret ≡ negsuc 4)
    × (h.world.ctx.flag_exit ≡ true)
    × HasCache h.world.ctx.cache a'
handle_queue_msg-Receives_example =
    handle_queue_msg-Receives (negsuc 4) letter 3 (opened roomy) (0 ∷ 0 ∷ []) 7 refl refl
      (record { holds = refl; fits = refl }) refl (omega arith) refl
