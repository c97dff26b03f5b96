-- ===== src/MsgQueueJni/Init.antt =====
-- Java_com_threshold_jni_MsgQueueHandlerJni_init and _destroy of
-- toolbox/src/main/cpp/jni_msg_queue_handler.c, with pri_destroy_jni_context.
use my_toolbox.Base.{
  ℕ, ◌+◌, ◌-◌, ◌&&◌, Bool, true, false, not, Option, none, some, ℤ, pos, negsuc, to_u32, lt_nat,
  ◌==◌, if◌then◌else◌, Run, done, fault, ◌>>=◌,
}
use my_toolbox.Lcu.Handler.{Handler}
use my_toolbox.MsgQueueJni.{
  Context, Resources, World, set_cb_data, set_obj, set_exit, add_globals, free_global, cleanup_msg,
  recreate_msg, pri_cleanup_jobj_cache, pri_recreate_jobj_cache,
}

-- The answers that a call of init meets: whether each allocation succeeds, the JVM, the class of
-- the parameter, its static JNI_PROTOCOL_VER if it has one, whether the fields `bufSize` and
-- `callbackFunction` exist, the size in `bufSize`, the parameter itself, whether the name in
-- `callbackFunction` is there, and the method of that name if it has the callback's type.
pub record Answers : Type 0 where
  pub context_granted : Bool
  pub msg_granted : Bool
  pub array_granted : Bool
  pub jvm : ℕ
  pub m_cls : ℕ
  pub protocol_ver : Option ℤ
  pub has_buf_size : Bool
  pub has_cb_field : Bool
  pub buf_size : ℤ
  pub init_param : ℕ
  pub has_cb_name : Bool
  pub method : Option ℕ

abbrev pub zeroed : (Queue : Type 0) → Context Queue
zeroed Queue = record {
  obj = none;
  flag_exit = false;
  cb_data = record {
    jvm = none;
    env = none;
    attached_thread = false;
    m_cls = none;
    m_method_id = none;
    m_obj = none;
  };
  cache = record { obj_capacity = 0; j_obj = none };
  msg = record { in_obj_capacity = 0; in_msg = none };
}

-- JNI_PROTOCOL_VER, in the test of the field's value.
abbrev pub is_protocol_ver : ℤ → Bool
is_protocol_ver (pos n) = n == 0
is_protocol_ver (negsuc _) = false

module _ {Queue : Type 0} where
  -- `stopping` is what the queue's thread still does until `msg_queue_handler_destroy` has joined
  -- it.
  unfoldable pub destroy_obj : (World Queue → World Queue) → World Queue → World Queue
  destroy_obj stopping w = elim (w.ctx.obj) [
    | none ↦ w
    | some _ ↦
        let w' = stopping w in
        record (set_obj w' none) { res = record (w'.res) { handlers = w'.res.handlers - 1 } }
  ]

  unfoldable pub delete_m_obj : World Queue → World Queue
  delete_m_obj w = elim (w.ctx.cb_data.m_obj) [
    | none ↦ w
    | some _ ↦ free_global (set_cb_data w (record (w.ctx.cb_data) { m_obj = none }))
  ]

  -- pri_destroy_jni_context on a context; its result is then 0.
  unfoldable pub pri_destroy : (World Queue → World Queue) → World Queue → World Queue
  pri_destroy stopping w =
      let w' =
        delete_m_obj (pri_cleanup_jobj_cache (cleanup_msg (destroy_obj stopping (set_exit w)))) in
      set_cb_data w' (record (w'.ctx.cb_data) { env = none; jvm = none })

module _ (A : Handler) where
  -- The end of the block, from the test of the method on. It gives whether `ret` is 0. Without a
  -- method LOGE reads the name, which has been released.
  unfoldable pub create_queue : Answers → World A.Queue → Run (Bool × World A.Queue)
  create_queue ans w = elim (ans.method) [
    | none ↦ fault
    | some _ ↦ elim (A.create (to_u32 ans.buf_size)) [
      | none ↦ done (false, w)
      | some q ↦ done (
        true,
        record (set_obj w (some q)) { res = record (w.res) { handlers = w.res.handlers + 1 } },
      )
    ]
  ]

  -- The block from the test of the protocol on. Without `bufSize` the second GetFieldID is called
  -- while the exception of the first is pending; GetStringUTFChars needs a string.
  unfoldable pub check_param : Answers → World A.Queue → Run (Bool × World A.Queue)
  check_param ans w = elim (ans.protocol_ver) [
    | none ↦ done (false, w)
    | some v ↦
        if not (is_protocol_ver v)
        then done (false, w)
        else if not ans.has_buf_size
        then fault
        else if not ans.has_cb_field
        then done (false, w)
        else if lt_nat ans.buf_size 64
        then done (false, w)
        else if not ans.has_cb_name
        then fault
        else create_queue ans (
            add_globals 1 (
              set_cb_data w
                (record (w.ctx.cb_data) { m_obj = some ans.init_param; m_method_id = ans.method })))
  ]

  -- The allocations in front of it.
  unfoldable pub prepare : Answers → World A.Queue → World A.Queue
  prepare ans w =
      let w' =
        pri_recreate_jobj_cache ans.array_granted (pos 512) (recreate_msg ans.msg_granted 1024 w) in
      set_cb_data w' (record (w'.ctx.cb_data) { jvm = some ans.jvm; m_cls = some ans.m_cls })

  -- What init gives back: `ret`, what `handle_holder[0]` points to, and the process's resources.
  -- The exception of a lookup that failed, which Java sees instead of `ret`, is left out.
  pub record InitResult : Type 0 where
    pub ret : ℤ
    pub handle : Option (Context A.Queue)
    pub res : Resources

  -- The end of init: the handle is set, or pri_destroy_jni_context runs.
  unfoldable pub finish : Bool × World A.Queue → InitResult
  finish (true, w) = record { ret = pos 0; handle = some w.ctx; res = w.res }
  finish (false, w) = record { ret = negsuc 0; handle = none; res = (pri_destroy (λ v. v) w).res }

  -- A context that `malloc` has given and `memset` has cleared.
  abbrev pub fresh : Resources → World A.Queue
  fresh res = record { ctx = zeroed A.Queue; res = record res { blocks = res.blocks + 1 } }

  unfoldable pub init_context : Answers → Resources → Run InitResult
  init_context ans res = check_param ans (prepare ans (fresh res)) >>= λ r. done (finish r)

  -- init, with the two tests for null in front: is `_handle_holder` there, and `_init_param`?
  unfoldable pub init : Bool → Bool → Answers → Resources → Run InitResult
  init has_holder has_param ans res =
      if has_holder && has_param && ans.context_granted
      then init_context ans res
      else done (record { ret = negsuc 0; handle = none; res = res })

  -- What destroy gives back: its result, what `handle_holder[0]` points to, and the context that it
  -- worked on.
  pub record DestroyResult : Type 0 where
    pub ret : ℤ
    pub handle : Option (World A.Queue)
    pub left : Option (World A.Queue)

  -- destroy: is `_handle_holder` there, and what does its first element point to?
  unfoldable pub destroy :
      Bool → (World A.Queue → World A.Queue) → Option (World A.Queue) → DestroyResult
  destroy false stopping handle = record { ret = negsuc 0; handle = handle; left = handle }
  destroy true stopping none = record { ret = negsuc 0; handle = none; left = none }
  destroy true stopping (some w) = record {
    ret = pos 0;
    handle = none;
    left = some (pri_destroy stopping w);
  }
