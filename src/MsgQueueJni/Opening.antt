-- ===== src/MsgQueueJni/Opening.antt =====
-- On toolbox/src/main/cpp/jni_msg_queue_handler.c.
-- When init succeeds, and what it leaves where it does.
use my_toolbox.Base.{
  ℕ, ◌+◌, ◌≡◌, refl, sym, ◌∙◌, inl, inr, Bool-cases, ◌≤◌, Bool, true, false, none, some, pos, arith,
  to_u32, replicate, Run, done, fault, ◌>>=◌, Ensures,
}
use my_toolbox.Lcu.Handler.{Handler}
use my_toolbox.MsgQueueJni.{
  Resources, Msg, Cache, cleared, World, add_globals, set_cb_data, set_obj, cleanup_msg,
  pri_cleanup_jobj_cache, recreate_msg, pri_recreate_jobj_cache,
}
use my_toolbox.MsgQueueJni.Owns.{Owns, recreate_msg-Owns, pri_recreate_jobj_cache-Owns}
use my_toolbox.MsgQueueJni.Init.{
  Answers, create_queue, check_param, prepare, finish, fresh, init_context, init,
}

-- The message buffer and the cache of a context that init leaves, by the two allocations' success.
abbrev pub opened_msg : Bool → Msg
opened_msg true = record { in_obj_capacity = 1024; in_msg = some (cleared 1024) }
opened_msg false = record { in_obj_capacity = 1024; in_msg = none }

abbrev pub opened_cache : Bool → Cache
opened_cache true = record { obj_capacity = 512; j_obj = some (replicate 512 0) }
opened_cache false = record { obj_capacity = 0; j_obj = none }

module _ (A : Handler) (ans : Answers) (res : Resources) where
  -- The answers that init needs, with the queue that the library makes.
  pub record Accepts (size id : ℕ) (q : A.Queue) : Type 0 where
    pub context_granted : ans.context_granted ≡ true
    pub protocol_ver : ans.protocol_ver ≡ some (pos 0)
    pub has_buf_size : ans.has_buf_size ≡ true
    pub has_cb_field : ans.has_cb_field ≡ true
    pub buf_size : ans.buf_size ≡ pos size
    pub large : 64 ≤ size
    pub has_cb_name : ans.has_cb_name ≡ true
    pub method : ans.method ≡ some id
    pub created : A.create (to_u32 (pos size)) ≡ some q

  -- A context as init leaves it.
  pub record IsOpened (q : A.Queue) (w : World A.Queue) : Type 0 where
    pub obj : w.ctx.obj ≡ some q
    pub flag_exit : w.ctx.flag_exit ≡ false
    pub env : w.ctx.cb_data.env ≡ none
    pub jvm : w.ctx.cb_data.jvm ≡ some ans.jvm
    pub m_obj : w.ctx.cb_data.m_obj ≡ some ans.init_param
    pub m_method_id : w.ctx.cb_data.m_method_id ≡ ans.method
    pub msg : w.ctx.msg ≡ opened_msg ans.msg_granted
    pub cache : w.ctx.cache ≡ opened_cache ans.array_granted
    pub owns : Owns res w

  pub fresh-Owns : Owns res (fresh A res)
  fresh-Owns = ground arith

  pub prepare-Owns : (w : World A.Queue) → Owns res w → Owns res (prepare A ans w)
  unfolding prepare
  prepare-Owns w o =
      let o' =
        pri_recreate_jobj_cache-Owns (recreate_msg-Owns o ans.msg_granted 1024) ans.array_granted
          (pos 512) in
      ground arith

  -- The context behind check_param, with the library's queue.
  abbrev accepted : A.Queue → World A.Queue → World A.Queue
  accepted q w =
      let v = add_globals 1 (
        set_cb_data w
          (record (w.ctx.cb_data) { m_obj = some ans.init_param; m_method_id = ans.method })) in
      record (set_obj v (some q)) { res = record (v.res) { handlers = v.res.handlers + 1 } }

  check_param-accepted :
      (size id : ℕ) (q : A.Queue) (w : World A.Queue)
      → Accepts size id q
      → check_param A ans w ≡ done (true, accepted q w)
  unfolding check_param create_queue
  check_param-accepted size id q w a = ground arith

  accepted-IsOpened :
      (q : A.Queue) (w : World A.Queue)
      → Owns res w
      → w.ctx.flag_exit ≡ false
      → w.ctx.cb_data.env ≡ none
      → w.ctx.obj ≡ none
      → w.ctx.cb_data.m_obj ≡ none
      → w.ctx.cb_data.jvm ≡ some ans.jvm
      → w.ctx.msg ≡ opened_msg ans.msg_granted
      → w.ctx.cache ≡ opened_cache ans.array_granted
      → IsOpened q (accepted q w)
  accepted-IsOpened q w o flag env obj m_obj jvm msg cache = ground arith

  pub prepare-fresh :
      (w : World A.Queue)
      → ((prepare A ans w).ctx.flag_exit ≡ w.ctx.flag_exit)
        × ((prepare A ans w).ctx.cb_data.env ≡ w.ctx.cb_data.env)
        × ((prepare A ans w).ctx.obj ≡ w.ctx.obj)
        × ((prepare A ans w).ctx.cb_data.m_obj ≡ w.ctx.cb_data.m_obj)
  unfolding prepare recreate_msg pri_recreate_jobj_cache
  prepare-fresh w = (ground arith, ground arith, ground arith, ground arith)

  prepare-opened :
      ((prepare A ans (fresh A res)).ctx.cb_data.jvm ≡ some ans.jvm)
      × ((prepare A ans (fresh A res)).ctx.msg ≡ opened_msg ans.msg_granted)
      × ((prepare A ans (fresh A res)).ctx.cache ≡ opened_cache ans.array_granted)
  unfolding prepare recreate_msg pri_recreate_jobj_cache cleanup_msg pri_cleanup_jobj_cache
  prepare-opened = (refl, ground arith, ground arith)

  -- init succeeds where the two arguments are there, the context can be allocated, the class of the
  -- parameter has the protocol's version and the fields, `bufSize` is at least 64, the callback is
  -- found and the library makes a queue of `bufSize` bytes. It then returns 0, and the handle leads
  -- to an open context with that queue, that callback and the JVM, a buffer of 1024 and a
  -- cache of 512 bytes where they were granted, which owns all that the process has gained.
  pub init-IsOpened :
      (size id : ℕ) (q : A.Queue)
      → Accepts size id q
      → (w : World A.Queue) × (init A true true ans res
          ≡ done (record { ret = pos 0; handle = some w.ctx; res = w.res }))
        × IsOpened q w
  unfolding init init_context finish
  init-IsOpened size id q a =
      let (flag, env, obj, m_obj) = prepare-fresh (fresh A res) in
      let (jvm, msg, cache) = prepare-opened in
      let p = prepare A ans (fresh A res) in
      (
        accepted q p,
        simp (a.context_granted, check_param-accepted size id q p a),
        accepted-IsOpened q p (prepare-Owns (fresh A res) fresh-Owns) flag env obj m_obj jvm msg
            cache,
      )

  -- The steps of init in front of the queue's creation keep what the context owns.
  pub check_param-Owns :
      (w : World A.Queue)
      → Owns res w
      → w.ctx.obj ≡ none
      → w.ctx.cb_data.m_obj ≡ none
      → Ensures (λ (r : Bool × World A.Queue). Owns res r.1) (check_param A ans w)
  unfolding check_param create_queue
  check_param-Owns w o obj m_obj = ground arith

  finish-Owns :
      (m : Run (Bool × World A.Queue)) (w : World A.Queue)
      → (m >>= λ r. done (finish A r))
        ≡ done (record { ret = pos 0; handle = some w.ctx; res = w.res })
      → Ensures (λ (r : Bool × World A.Queue). Owns res r.1) m
      → Owns res w
  unfolding finish
  finish-Owns (done (true, v)) w e o = ground arith
  finish-Owns (done (false, v)) w e o = ground arith
  finish-Owns fault w e o = cc

  pub init-granted :
      ans.context_granted ≡ true
      → init A true true ans res
        ≡ (check_param A ans (prepare A ans (fresh A res)) >>= λ r. done (finish A r))
  unfolding init init_context
  init-granted granted = simp granted

  -- Where init returns 0 and a handle, the context behind it owns what the process has gained.
  pub init-Owns :
      (w : World A.Queue)
      → init A true true ans res ≡ done (record { ret = pos 0; handle = some w.ctx; res = w.res })
      → Owns res w
  unfolding init init_context
  init-Owns w e =
      let (flag, env, obj, m_obj) = prepare-fresh (fresh A res) in
      let p = prepare A ans (fresh A res) in
      elim (Bool-cases ans.context_granted) [
        | inl granted ↦
            finish-Owns (check_param A ans p) w (sym (init-granted granted) ∙ e)
              (check_param-Owns p (prepare-Owns (fresh A res) fresh-Owns) obj m_obj)
        | inr failed ↦ ground arith
      ]
