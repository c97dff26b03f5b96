-- ===== src/MsgQueueJni/Refused.antt =====
-- On toolbox/src/main/cpp/jni_msg_queue_handler.c.
-- What init leaves where it fails.
use my_toolbox.Base.{
  ℕ, ◌+◌, ◌≡◌, refl, ◌∙◌, Bool, true, false, none, some, ℤ, pos, negsuc, arith, to_u32, lt_nat, Run,
  done, Ensures, Ensures-done,
}
use my_toolbox.Lcu.Handler.{Handler}
use my_toolbox.MsgQueueJni.{Resources, World, add_globals, set_cb_data}
use my_toolbox.MsgQueueJni.Lifecycle.{here}
use my_toolbox.MsgQueueJni.Release.{pri_destroy-IsReleased}
use my_toolbox.MsgQueueJni.Opening.{
  init-granted, check_param-Owns, prepare-Owns, prepare-fresh, fresh-Owns,
}
use my_toolbox.MsgQueueJni.Init.{
  Answers, is_protocol_ver, create_queue, check_param, prepare, finish, fresh, init, InitResult,
}

module _ (A : Handler) (ans : Answers) where
  -- The class of the parameter has the protocol's version and both fields.
  pub record IsParam : Type 0 where
    pub protocol_ver : ans.protocol_ver ≡ some (pos 0)
    pub has_buf_size : ans.has_buf_size ≡ true
    pub has_cb_field : ans.has_cb_field ≡ true

  -- The answers at which init gives up without undefined behaviour.
  pub data Refuses : Type 0 where
    no_version : ans.protocol_ver ≡ none → Refuses
    other_version : (v : ℤ) → ans.protocol_ver ≡ some v → is_protocol_ver v ≡ false → Refuses
    no_cb_field :
        ans.protocol_ver ≡ some (pos 0)
        → ans.has_buf_size ≡ true
        → ans.has_cb_field ≡ false
        → Refuses
    too_small : IsParam → lt_nat ans.buf_size 64 ≡ true → Refuses
    no_queue :
        (id : ℕ)
        → IsParam
        → lt_nat ans.buf_size 64 ≡ false
        → ans.has_cb_name ≡ true
        → ans.method ≡ some id
        → A.create (to_u32 ans.buf_size) ≡ none
        → Refuses

  -- The context with the reference to the parameter and the method.
  abbrev referenced : World A.Queue → World A.Queue
  referenced w = add_globals 1 (
      set_cb_data w
        (record (w.ctx.cb_data) { m_obj = some ans.init_param; m_method_id = ans.method }))

  abbrev Gives : Bool → Run (Bool × World A.Queue) → Type 0
  Gives ok m = (w : World A.Queue) × (m ≡ done (ok, w))

  check_param-refused : (w : World A.Queue) → Refuses → Gives false (check_param A ans w)
  unfolding check_param create_queue
  check_param-refused w (no_version e) = (w, ground arith)
  check_param-refused w (other_version v e f) = (w, ground arith)
  check_param-refused w (no_cb_field e f g) = (w, ground arith)
  check_param-refused w (too_small p e) = (w, ground arith)
  check_param-refused w (no_queue id p e n m c) = (referenced w, ground arith)

  module _ (res : Resources) where
    check_param-obj :
        (w : World A.Queue)
        → w.ctx.obj ≡ none
        → Ensures
            (λ (r : Bool × World A.Queue). r.0 ≡ false → r.1.ctx.obj ≡ none)
            (check_param A ans w)
    unfolding check_param create_queue
    check_param-obj w obj = ground arith

    -- Where init fails behind the allocation of its context, because the class has no version of
    -- the protocol or another one, or no `callbackFunction`, because `bufSize` is below 64, or
    -- because the library makes no queue, it returns -1 and a null handle. It has given back the
    -- message buffer, the cached array and the global references that it made, but not the block
    -- of the context.
    pub init-refused :
        ans.context_granted ≡ true
        → Refuses
        → (r : InitResult A) × (init A true true ans res ≡ done r)
          × (r.ret ≡ negsuc 0)
          × (r.handle ≡ none)
          × (r.res.blocks ≡ res.blocks + 1)
          × (r.res.globals ≡ res.globals)
          × (r.res.handlers ≡ res.handlers)
    unfolding finish
    init-refused granted refuses =
        let (flag, env, obj, m_obj) = prepare-fresh A ans res (fresh A res) in
        let p = prepare A ans (fresh A res) in
        let (w, runs) = check_param-refused p refuses in
        let owned =
          Ensures-done _ (check_param A ans p) (false, w) runs
            (check_param-Owns A ans res p
              (prepare-Owns A ans res (fresh A res) (fresh-Owns A ans res)) obj m_obj) in
        let released = pri_destroy-IsReleased A res (λ v. v) w (λ v. here) owned in
        (
          finish A (false, w),
          init-granted A ans res granted ∙ (rw runs refl),
          refl,
          refl,
          released.blocks,
          released.globals,
          released.handlers,
        )
