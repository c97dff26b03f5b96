-- ===== src/MsgQueueJni/EndToEnd.antt =====
-- The parts of toolbox/src/main/cpp/jni_msg_queue_handler.c together: from init to destroy, and
-- from pushMsg to the callback.
use my_toolbox.Base.{
  ℕ, ◌^◌, ◌≡◌, refl, sym, ◌∙◌, ap, ◌<◌, Bool, true, Option, none, some, List, ℤ, pos, done,
}
use my_toolbox.Lcu.Handler.{Handler, IsLawful, Code, code_value}
use my_toolbox.MsgQueueJni.{Context, QueueMsg, Resources, World}
use my_toolbox.MsgQueueJni.Valid.{HasCache}
use my_toolbox.MsgQueueJni.Lifecycle.{Reach, Reach-Owns}
use my_toolbox.MsgQueueJni.Release.{IsReleased, Stops, destroy-IsReleased}
use my_toolbox.MsgQueueJni.Init.{Answers, init, destroy}
use my_toolbox.MsgQueueJni.Opening.{init-Owns}
use my_toolbox.MsgQueueJni.Push.{Args, push_msg}
use my_toolbox.MsgQueueJni.Push.Staging.{payload, requested}
use my_toolbox.MsgQueueJni.Push.Retry.{Log, Consumes}
use my_toolbox.MsgQueueJni.Push.Delivery.{IsReady, push_msg-Delivered}
use my_toolbox.MsgQueueJni.Thread.{Call, Handled, handle_queue_msg}
use my_toolbox.MsgQueueJni.Callback.{handle_queue_msg-Receives}

-- Where init returns 0, whatever calls of pushMsg, of the callback and of the status notification
-- follow, and whatever still runs while destroy waits for the queue's thread: destroy returns 0,
-- clears the handle, and leaves the process with the blocks, global references and queues that it
-- had before init, and the block of the context.
pub destroy-init :
    (A : Handler) (ans : Answers) (res : Resources) (w w' : World A.Queue)
    (stopping : World A.Queue → World A.Queue)
    → init A true true ans res ≡ done (record { ret = pos 0; handle = some w.ctx; res = w.res })
    → Reach A w w'
    → Stops A res stopping
    → (left : World A.Queue) × (destroy A true stopping (some w')
        ≡ record { ret = pos 0; handle = none; left = some left })
      × IsReleased res left
destroy-init A ans res w w' stopping opened r stops =
    destroy-IsReleased A res stopping w' stops (Reach-Owns A r (init-Owns A ans res w opened))

-- A call of pushMsg that can go through, and the callback that the queue's thread then makes for
-- its message: Java gets back the header and the payload that it gave, behind whatever array and
-- cache, where the memory is granted and the payload has less than 2 ^ 30 bytes.
pub handle_queue_msg-push_msg :
    (A : Handler) (wait : ℕ → A.Queue → A.Queue) (a : Args) (n : ℕ) (w : World A.Queue)
    (q : A.Queue) (m : QueueMsg) (cached : List ℕ) (env : ℕ) (user_ret : ℤ)
    → IsLawful A
    → Consumes A wait
    → IsReady A wait a n w q m
    → HasCache w.ctx.cache cached
    → w.ctx.cb_data.env ≡ some env
    → n < 2 ^ 30
    → (code : Code) × (w' : World A.Queue) × (queue : A.Queue) × (h : Handled A.Queue) × (c : Call)
      × (push_msg A true wait a (some w) ≡ done (code_value code, some w'))
      × (w'.ctx.obj ≡ some queue)
      × Log A (requested a n) q queue code
      × (handle_queue_msg true user_ret (requested a n) w' ≡ done h)
      × (h.call ≡ some c)
      × (c.what ≡ a.what)
      × (c.arg1 ≡ a.arg1)
      × (c.arg2 ≡ a.arg2)
      × (c.obj_len ≡ a.obj_len)
      × (payload c.obj n ≡ payload a.obj n)
handle_queue_msg-push_msg A wait a n w q m cached env user_ret L consumes r cache has_env small =
    let (code, w', runs, d) = push_msg-Delivered A wait a n w q m L consumes r in
    let same = d.same in
    let field_exit : Context A.Queue → Bool = λ c. c.flag_exit in
    let field_env : Context A.Queue → Option ℕ = λ c. c.cb_data.env in
    let field_obj : Context A.Queue → Option (List ℕ) = λ c. c.cache.j_obj in
    let field_capacity : Context A.Queue → ℕ = λ c. c.cache.obj_capacity in
    let (h, c, cached', handled, called, got, answered, closed, kept) =
      handle_queue_msg-Receives user_ret (requested a n) n w' cached env
        (ap field_exit same ∙ r.open_ctx) (ap field_env same ∙ has_env)
        (record {
          holds = ap field_obj same ∙ cache.holds;
          fits = cache.fits ∙ sym (ap field_capacity same);
        })
        refl small (sym r.sized) in
    (
      code,
      w',
      d.queue,
      h,
      c,
      runs,
      d.holds,
      d.log,
      handled,
      called,
      got.what,
      got.arg1,
      got.arg2,
      got.obj_len ∙ sym r.obj_len,
      got.bytes,
    )
