-- ===== src/MsgQueueJni/Release.antt =====
-- On toolbox/src/main/cpp/jni_msg_queue_handler.c.
-- What init and destroy leave of the process's resources.
use my_toolbox.Base.{◌+◌, ◌≡◌, refl, true, none, some, pos, arith}
use my_toolbox.Lcu.Handler.{Handler}
use my_toolbox.MsgQueueJni.{
  Resources, World, set_cb_data, set_exit, cleanup_msg, pri_cleanup_jobj_cache,
}
use my_toolbox.MsgQueueJni.Owns.{Owns, set_exit-Owns}
use my_toolbox.MsgQueueJni.Lifecycle.{Reach, Reach-Owns, Reach-IsClosed}
use my_toolbox.MsgQueueJni.Init.{destroy_obj, delete_m_obj, pri_destroy, destroy}

module _ {Queue : Type 0} (base : Resources) where
  -- A context that holds nothing any more, in a process that has what it had before and the
  -- context's own block.
  pub record IsReleased (w : World Queue) : Type 0 where
    pub exit : w.ctx.flag_exit ≡ true
    pub obj : w.ctx.obj ≡ none
    pub in_msg : w.ctx.msg.in_msg ≡ none
    pub j_obj : w.ctx.cache.j_obj ≡ none
    pub m_obj : w.ctx.cb_data.m_obj ≡ none
    pub env : w.ctx.cb_data.env ≡ none
    pub jvm : w.ctx.cb_data.jvm ≡ none
    pub blocks : w.res.blocks ≡ base.blocks + 1
    pub globals : w.res.globals ≡ base.globals
    pub handlers : w.res.handlers ≡ base.handlers

  -- What pri_destroy_jni_context does behind `msg_queue_handler_destroy`.
  rest-IsReleased :
      (w : World Queue)
      → Owns base w
      → w.ctx.obj ≡ none
      → w.ctx.flag_exit ≡ true
      → let w' = delete_m_obj (pri_cleanup_jobj_cache (cleanup_msg w)) in
        IsReleased (set_cb_data w' (record (w'.ctx.cb_data) { env = none; jvm = none }))
  unfolding delete_m_obj pri_cleanup_jobj_cache cleanup_msg
  rest-IsReleased w o gone exit = ground arith

module _ (A : Handler) (base : Resources) where
  -- What the queue's thread, and Java beside it, still do while destroy waits: a run of the steps.
  abbrev pub Stops : (World A.Queue → World A.Queue) → Type 0
  Stops stopping = (v : World A.Queue) → Reach A v (stopping v)

  destroy_obj-Owns :
      (stopping : World A.Queue → World A.Queue) (w : World A.Queue)
      → Stops stopping
      → w.ctx.flag_exit ≡ true
      → Owns base w
      → Owns base (destroy_obj stopping w)
  unfolding destroy_obj
  destroy_obj-Owns stopping w stops exit o =
      ground (arith, Reach-Owns A (stops w) o, Reach-IsClosed A w (stopping w) (stops w) exit)

  destroy_obj-exit :
      (stopping : World A.Queue → World A.Queue) (w : World A.Queue)
      → Stops stopping
      → w.ctx.flag_exit ≡ true
      → ((destroy_obj stopping w).ctx.obj ≡ none) × ((destroy_obj stopping w).ctx.flag_exit ≡ true)
  unfolding destroy_obj
  destroy_obj-exit stopping w stops exit =
      ground (arith, Reach-IsClosed A w (stopping w) (stops w) exit)

  pub pri_destroy-IsReleased :
      (stopping : World A.Queue → World A.Queue) (w : World A.Queue)
      → Stops stopping
      → Owns base w
      → IsReleased base (pri_destroy stopping w)
  unfolding pri_destroy
  pri_destroy-IsReleased stopping w stops o =
      let w1 = set_exit w in
      let (gone, exit) = destroy_obj-exit stopping w1 stops refl in
      rest-IsReleased base (destroy_obj stopping w1)
        (destroy_obj-Owns stopping w1 stops refl (set_exit-Owns o)) gone exit

  -- destroy of a live context returns 0 and clears the caller's handle. Whatever the queue's thread
  -- still does while destroy waits for it, the queue, the message buffer, the cached array and the
  -- global reference to the callback object are all given back, each once. The block of the context
  -- itself is not: the process keeps one block more than before init.
  pub destroy-IsReleased :
      (stopping : World A.Queue → World A.Queue) (w : World A.Queue)
      → Stops stopping
      → Owns base w
      → (w' : World A.Queue) × (destroy A true stopping (some w)
          ≡ record { ret = pos 0; handle = none; left = some w' })
        × IsReleased base w'
  unfolding destroy
  destroy-IsReleased stopping w stops o =
      (pri_destroy stopping w, refl, pri_destroy-IsReleased stopping w stops o)
