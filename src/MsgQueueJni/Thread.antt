-- ===== src/MsgQueueJni/Thread.antt =====
-- What the queue's own thread runs in toolbox/src/main/cpp/jni_msg_queue_handler.c:
-- pri_on_msg_q_handler_status_changed and handle_queue_msg.
use my_toolbox.Base.{
  ℕ, ◌+◌, ◌-◌, ◌*◌, ◌^◌, ◌&&◌, Bool, true, false, Option, none, some, List, ℤ, pos, negsuc, ltb,
  leb, ◌==◌, if◌then◌else◌, Run, done, fault, ◌>>=◌, splice, take, length,
}
use my_toolbox.Lcu.Handler.{Message, Status, ready_to_go, about_to_stop, other}
use my_toolbox.MsgQueueJni.{World, set_cb_data, set_cache, set_exit, pri_recreate_jobj_cache}

-- The JVM's answers: `GetEnv` with the environment of the thread if it is attached already,
-- `AttachCurrentThread` with one if it succeeds, and whether `DetachCurrentThread` does.
pub record Vm : Type 0 where
  pub get_env : Option ℕ
  pub attach : Option ℕ
  pub detach : Bool

-- What Java receives: the arguments of the callback, with the array as it stands at the call.
pub record Call : Type 0 where
  pub what : ℤ
  pub arg1 : ℤ
  pub arg2 : ℤ
  pub obj : Option (List ℕ)
  pub obj_len : ℤ

pub record Handled (Queue : Type 0) : Type 0 where
  pub ret : ℤ
  pub world : World Queue
  pub call : Option Call

module _ {Queue : Type 0} where
  abbrev pub set_env : World Queue → Option ℕ → World Queue
  set_env w e = set_cb_data w (record (w.ctx.cb_data) { env = e })

  abbrev pub set_attached : World Queue → Bool → World Queue
  set_attached w b = set_cb_data w (record (w.ctx.cb_data) { attached_thread = b })

  abbrev pub set_attached_count : World Queue → ℕ → World Queue
  set_attached_count w n = record w { res = record (w.res) { attached = n } }

  -- The case MSG_Q_HANDLER_STATUS_READY_TO_GO; the abort is that of ASSERT_ABORT.
  unfoldable pub on_ready : Vm → World Queue → Run (World Queue)
  on_ready vm w = elim (w.ctx.cb_data.env) [
    | some _ ↦ fault
    | none ↦ elim (vm.get_env) [
      | some e ↦ done (set_env w (some e))
      | none ↦ elim (vm.attach) [
        | none ↦ done w
        | some e ↦
            done (set_attached_count (set_attached (set_env w (some e)) true) (w.res.attached + 1))
      ]
    ]
  ]

  -- The case MSG_Q_HANDLER_STATUS_ABOUT_TO_STOP.
  unfoldable pub on_stop : Vm → World Queue → World Queue
  on_stop vm w =
      if w.ctx.cb_data.attached_thread
      then set_attached_count (set_attached (set_env w none) false)
          (if vm.detach then w.res.attached - 1 else w.res.attached)
      else w

  unfoldable pub on_status_changed : Status → Vm → World Queue → Run (World Queue)
  on_status_changed ready_to_go vm w = on_ready vm w
  on_status_changed about_to_stop vm w = done (on_stop vm w)
  on_status_changed (other _) vm w = done w

  -- `(jsize) obj_len * 2` overflows a 32-bit `int` from 2 ^ 30 on.
  unfoldable pub grow_cache : Bool → ℕ → World Queue → Run (World Queue)
  unfolding pri_recreate_jobj_cache
  grow_cache granted n w =
      if ltb w.ctx.cache.obj_capacity n
      then (if ltb (n * 2) (2 ^ 31)
          then done (pri_recreate_jobj_cache granted (pos (n * 2)) w)
          else fault)
      else done w

  -- `SetByteArrayRegion` of the payload; it needs an array of the size of the payload.
  unfoldable pub fill_cache : ℕ → List ℕ → World Queue → Run (World Queue)
  fill_cache n bytes w = elim (w.ctx.cache.j_obj) [
    | none ↦ fault
    | some a ↦
        if leb n (length a) && leb n (length bytes)
        then done (set_cache w (record (w.ctx.cache) { j_obj = some (splice 0 (take n bytes) a) }))
        else fault
  ]

  -- The cache's array, filled with the payload.
  unfoldable pub fetch : Bool → ℕ → List ℕ → World Queue → Run (Option (List ℕ) × World Queue)
  fetch granted n bytes w = do
    w1 ← grow_cache granted n w
    w2 ← fill_cache n bytes w1
    done (w2.ctx.cache.j_obj, w2)

  -- The array that the callback is given, and the context with its cache filled.
  unfoldable pub load_obj : Bool → Message → World Queue → Run (Option (List ℕ) × World Queue)
  load_obj granted msg w = elim (msg.obj_len) [
    | negsuc _ ↦ done (none, w)
    | pos n ↦ if n == 0 then done (none, w) else fetch granted n msg.obj w
  ]

  -- `CallIntMethod`: Java answers `user_ret`. Any other answer than 0 closes the context.
  unfoldable pub call_user : ℤ → Message → Option (List ℕ) → World Queue → Handled Queue
  call_user user_ret msg obj w = record {
    ret = user_ret;
    world = elim user_ret [ pos n ↦ if n == 0 then w else set_exit w | negsuc _ ↦ set_exit w ];
    call = some (record {
      what = msg.what;
      arg1 = msg.arg1;
      arg2 = msg.arg2;
      obj = obj;
      obj_len = msg.obj_len;
    });
  }

  -- `granted` is whether `NewByteArray` succeeds.
  unfoldable pub handle_queue_msg : Bool → ℤ → Message → World Queue → Run (Handled Queue)
  handle_queue_msg granted user_ret msg w =
      if w.ctx.flag_exit
      then done (record { ret = pos 0; world = w; call = none })
      else elim (w.ctx.cb_data.env) [
        | none ↦ done (record { ret = pos 1; world = w; call = none })
        | some _ ↦ load_obj granted msg w >>= λ (obj, w'). done (call_user user_ret msg obj w')
      ]
