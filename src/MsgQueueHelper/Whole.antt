-- ===== src/MsgQueueHelper/Whole.antt =====
-- On toolbox/src/main/java/com/threshold/jni/MsgQueueHandlerJni.java.
-- A Helper from its constructor to close.
use my_toolbox.Base.{
  ℕ, ◌≡◌, refl, sym, ap, ◌∙◌, Run, fault, Bool, true, false, Option, none, some, ℤ, done,
}
use my_toolbox.Lcu.Handler.{Handler, IsLawful}
use my_toolbox.MsgQueueJni.{Resources, World, cleared}
use my_toolbox.MsgQueueJni.Push.{Args}
use my_toolbox.MsgQueueJni.Push.Retry.{Consumes}
use my_toolbox.MsgQueueJni.Init.{Answers}
use my_toolbox.MsgQueueJni.Release.{Stops}
use my_toolbox.MsgQueueJni.Opening.{Accepts, init-IsOpened}
use my_toolbox.MsgQueueHelper.{
  Exception, of_world, illegal_state, Answer, thrown, Helper, new_helper, push, close, finalize,
}
use my_toolbox.MsgQueueHelper.Guards.{IsUsable}
use my_toolbox.MsgQueueHelper.Session.{
  Session, IsGone, IsSound, live, close-IsGone, close-gone, push-gone,
}
use my_toolbox.MsgQueueHelper.Sound.{IsExpected, push-IsExpected, Session-IsSound}

module _ (A : Handler) (ans : Answers) (base : Resources) where
  abbrev helper_of : Run (Option Exception × Helper A.Queue) → Helper A.Queue
  helper_of (done (e, h)) = h
  helper_of fault = record { handle = none; res = base }

  -- The constructor of Helper ends without a fault and does not throw, where the class of the
  -- parameter has the protocol's version and the fields, `bufSize` is at least 64, the callback is
  -- found, the library makes a queue of that size, and the memory for the context and its buffer is
  -- granted. The Helper then leads to an open context with that queue and a buffer that pushMsg can
  -- use, which owns all that the process has gained.
  pub new_helper-IsUsable :
      (size id : ℕ) (q : A.Queue)
      → Accepts A ans base size id q
      → ans.msg_granted ≡ true
      → (w : World A.Queue) × (new_helper A true ans base ≡ done (none, of_world w))
        × (w.ctx.flag_exit ≡ false)
        × (w.ctx.obj ≡ some q)
        × IsUsable base w
  unfolding new_helper
  new_helper-IsUsable size id q a granted =
      let (w, runs, o) = init-IsOpened A ans base size id q a in
      let buffer : w.ctx.msg ≡ record { in_obj_capacity = 1024; in_msg = some (cleared 1024) } =
        rw o.msg (rw granted refl) in
      (
        w,
        simp runs,
        o.flag_exit,
        o.obj,
        record {
          owns = o.owns;
          queue = (q, o.obj);
          buffer = (cleared 1024, rw buffer (record { holds = refl; fits = refl }));
        },
      )

  module _ (size id : ℕ) (q : A.Queue) (L : IsLawful A) (accepts : Accepts A ans base size id q)
      (granted : ans.msg_granted ≡ true) (made : Helper A.Queue)
      (constructed : new_helper A true ans base ≡ done (none, made)) where
    made-IsSound : IsSound A base made
    made-IsSound =
        let (w, runs, flag, obj, usable) = new_helper-IsUsable size id q accepts granted in
        let same : of_world w ≡ made = ap helper_of (sym runs ∙ constructed) in
        live w (sym same) usable

    -- A Helper whose constructor went through: whatever Java has called on it before, with whatever
    -- messages, and whatever the queue's thread has done, a call of pushMsg with any message, null
    -- too, ends without a fault, if `malloc` succeeds. It throws IllegalStateException exactly
    -- after close. Otherwise it throws IllegalArgumentException for null, for a length beyond the
    -- array and for a length without an array, and it returns -2 on a context that the callback has
    -- closed and a code of the queue on an open one.
    pub push-safe :
        (h : Helper A.Queue)
        → Session A base made h
        → (wait : ℕ → A.Queue → A.Queue) → Consumes A wait
        → (message : Option Args)
        → (answer : Answer ℤ) × (h' : Helper A.Queue) × (push A true wait message h
            ≡ done (answer, h'))
          × IsExpected A base h.handle message answer
    push-safe h s wait consumes message =
        let sound = Session-IsSound A base L s made-IsSound in
        let (answer, h', runs, expected, s') =
          push-IsExpected A base wait L consumes message h sound in
        (answer, h', runs, expected)

    -- A Helper whose constructor went through, after whatever Java and the queue's thread have done
    -- with it, holds nothing any more after close: the process has the blocks, the global
    -- references and the queues that it had before, and the block of the context. A pushMsg after
    -- it throws IllegalStateException, and a second close, and finalize, change nothing.
    pub close-safe :
        (h : Helper A.Queue) (stopping : World A.Queue → World A.Queue)
        → Session A base made h
        → Stops A base stopping
        → IsGone A base (close A stopping h).res
          × ((granted_later : Bool) (wait : ℕ → A.Queue → A.Queue) (message : Option Args)
              → push A granted_later wait message (close A stopping h)
                ≡ done (thrown illegal_state, close A stopping h))
          × ((again : World A.Queue → World A.Queue)
              → (close A again (close A stopping h) ≡ close A stopping h)
                × (finalize A again (close A stopping h) ≡ close A stopping h))
    close-safe h stopping s stops =
        let sound = Session-IsSound A base L s made-IsSound in
        let (none_left, g) = close-IsGone A base stopping h stops sound in
        (
          g,
          λ granted_later wait message.
              push-gone A granted_later wait message (close A stopping h) none_left,
          λ again. close-gone A base again (close A stopping h) none_left,
        )
