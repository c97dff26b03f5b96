-- ===== src/MsgQueueHelper/Session.antt =====
-- On toolbox/src/main/java/com/threshold/jni/MsgQueueHandlerJni.java and
-- toolbox/src/main/cpp/jni_msg_queue_handler.c.
-- The life of a Helper: what Java calls on it and what the queue's thread does, in any order.
use my_toolbox.Base.{
  ℕ, ◌+◌, ◌≡◌, refl, ◌∙◌, Bool, true, Option, none, some, ◌∷◌, ℤ, arith, done, Ensures,
  Ensures-done,
}
use my_toolbox.Lcu.Handler.{Handler, Message, Status, ready_to_go, about_to_stop, other}
use my_toolbox.MsgQueueJni.{Resources, World, set_obj}
use my_toolbox.MsgQueueJni.Owns.{Owns, on_status_changed-Owns, handle_queue_msg-Owns}
use my_toolbox.MsgQueueJni.Push.{Args}
use my_toolbox.MsgQueueJni.Push.Retry.{Consumes}
use my_toolbox.MsgQueueJni.Thread.{
  Vm, Handled, on_ready, on_stop, on_status_changed, grow_cache, fill_cache, fetch, load_obj,
  call_user, handle_queue_msg,
}
use my_toolbox.MsgQueueJni.Init.{destroy}
use my_toolbox.MsgQueueJni.Release.{Stops, pri_destroy-IsReleased}
use my_toolbox.MsgQueueHelper.{
  illegal_state, Answer, thrown, Helper, of_world, push, close, finalize,
}
use my_toolbox.MsgQueueHelper.Guards.{IsUsable}

pub push-gone :
    (A : Handler) (granted : Bool) (wait : ℕ → A.Queue → A.Queue) (message : Option Args)
    (h : Helper A.Queue)
    → h.handle ≡ none
    → push A granted wait message h ≡ done (thrown illegal_state, h)
unfolding push
push-gone A granted wait message h e = ground arith

module _ (A : Handler) where
  -- What the queue's thread does with the context: it tells a status, or it takes the oldest
  -- message and calls back, whatever Java answers and whether `NewByteArray` succeeds or not.
  pub data ThreadStep (w w' : World A.Queue) : Type 0 where
    status : (s : Status) (vm : Vm) → on_status_changed s vm w ≡ done w' → ThreadStep w w'
    handled :
        (granted : Bool) (user_ret : ℤ) (msg : Message) (q q' : A.Queue) (h : Handled A.Queue)
        → w.ctx.obj ≡ some q
        → A.pending q ≡ msg ∷ A.pending q'
        → handle_queue_msg granted user_ret msg (set_obj w (some q')) ≡ done h
        → w' ≡ h.world
        → ThreadStep w w'

  -- One step of a Helper whose process had `base` before.
  pub data Step (base : Resources) (h h' : Helper A.Queue) : Type 0 where
    pushed :
        (wait : ℕ → A.Queue → A.Queue) (message : Option Args) (answer : Answer ℤ)
        → Consumes A wait
        → push A true wait message h ≡ done (answer, h')
        → Step base h h'
    closed :
        (stopping : World A.Queue → World A.Queue)
        → Stops A base stopping
        → h' ≡ close A stopping h
        → Step base h h'
    finalized :
        (stopping : World A.Queue → World A.Queue)
        → Stops A base stopping
        → h' ≡ finalize A stopping h
        → Step base h h'
    thread :
        (w w' : World A.Queue)
        → h ≡ of_world w
        → ThreadStep w w'
        → h' ≡ of_world w'
        → Step base h h'

  pub data Session (base : Resources) (h : Helper A.Queue) : Helper A.Queue → Type 0 where
    start : Session base h h
    next : {u v : Helper A.Queue} → Session base h u → Step base u v → Session base h v

  -- The process has what it had before, and the block of the context.
  pub record IsGone (base : Resources) (res : Resources) : Type 0 where
    pub blocks : res.blocks ≡ base.blocks + 1
    pub globals : res.globals ≡ base.globals
    pub handlers : res.handlers ≡ base.handlers

  -- A Helper has a context that can be used, or none, and then it holds nothing.
  pub data IsSound (base : Resources) (h : Helper A.Queue) : Type 0 where
    live : (w : World A.Queue) → h ≡ of_world w → IsUsable base w → IsSound base h
    gone : h.handle ≡ none → IsGone base h.res → IsSound base h

  status-IsUsable :
      {base : Resources} (s : Status) (vm : Vm) (w : World A.Queue)
      → IsUsable base w
      → Ensures
          (λ (v : World A.Queue). (v.ctx.obj ≡ w.ctx.obj) × (v.ctx.msg ≡ w.ctx.msg))
          (on_status_changed s vm w)
  unfolding on_status_changed on_ready on_stop
  status-IsUsable ready_to_go vm w u = ground arith
  status-IsUsable about_to_stop vm w u = ground arith
  status-IsUsable (other n) vm w u = (refl, refl)

  handled-keeps :
      (granted : Bool) (user_ret : ℤ) (msg : Message) (w : World A.Queue) (h : Handled A.Queue)
      → handle_queue_msg granted user_ret msg w ≡ done h
      → (h.world.ctx.obj ≡ w.ctx.obj) × (h.world.ctx.msg ≡ w.ctx.msg)
  unfolding handle_queue_msg load_obj fetch grow_cache fill_cache call_user
  handled-keeps granted user_ret msg w h e = ground arith

  module _ (base : Resources) where
    -- Such a change keeps a context usable.
    kept-IsUsable :
        (w v : World A.Queue)
        → IsUsable base w
        → ((q : A.Queue) × (v.ctx.obj ≡ some q))
        → v.ctx.msg ≡ w.ctx.msg
        → Owns base v
        → IsUsable base v
    kept-IsUsable w v u queue msg o =
        let (m, buffer) = u.buffer in
        record { owns = o; queue = queue; buffer = (m, rw msg buffer) }

    pub ThreadStep-IsUsable :
        (w v : World A.Queue) → ThreadStep w v → IsUsable base w → IsUsable base v
    ThreadStep-IsUsable w v (status s vm e) u =
        let (obj, msg) = Ensures-done _ _ _ e (status-IsUsable s vm w u) in
        let (q, queue) = u.queue in
        kept-IsUsable w v u (q, obj ∙ queue) msg
          (Ensures-done _ _ _ e (on_status_changed-Owns u.owns s vm))
    ThreadStep-IsUsable w v (handled granted user_ret msg q q' h holds front e p) u =
        let w1 = set_obj w (some q') in
        let o1 : Owns base w1 =
          ground (arith, u.owns.blocks, u.owns.globals, u.owns.handlers, u.owns.attached, holds) in
        let (obj, kept) = handled-keeps granted user_ret msg w1 h e in
        rw p (
          kept-IsUsable w h.world u (q', obj) kept
            (Ensures-done _ _ _ e (handle_queue_msg-Owns base w1 o1 granted user_ret msg)))

    close-live :
        (stopping : World A.Queue → World A.Queue) (w : World A.Queue)
        → Stops A base stopping
        → IsUsable base w
        → ((close A stopping (of_world w)).handle ≡ none)
          × IsGone base (close A stopping (of_world w)).res
    unfolding close destroy
    close-live stopping w stops u =
        let r = pri_destroy-IsReleased A base stopping w stops u.owns in
        (refl, record { blocks = r.blocks; globals = r.globals; handlers = r.handlers })

    pub close-gone :
        (stopping : World A.Queue → World A.Queue) (h : Helper A.Queue)
        → h.handle ≡ none
        → (close A stopping h ≡ h) × (finalize A stopping h ≡ h)
    unfolding close finalize
    close-gone stopping h e = (ground arith, ground arith)

    -- After close a Helper has no context and holds nothing.
    pub close-IsGone :
        (stopping : World A.Queue → World A.Queue) (h : Helper A.Queue)
        → Stops A base stopping
        → IsSound base h
        → ((close A stopping h).handle ≡ none) × IsGone base (close A stopping h).res
    close-IsGone stopping h stops (live w e u) = rw e (close-live stopping w stops u)
    close-IsGone stopping h stops (gone e g) = rw ((close-gone stopping h e).0) (e, g)

    pub finalize-close :
        (stopping : World A.Queue → World A.Queue) (h : Helper A.Queue)
        → finalize A stopping h ≡ close A stopping h
    unfolding finalize close
    finalize-close stopping h = ground arith
