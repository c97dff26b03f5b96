-- ===== src/MsgQueueJni/Commute.antt =====
-- On toolbox/src/main/cpp/jni_msg_queue_handler.c: its two threads side by side.
use my_toolbox.Base.{ℕ, ◌≡◌, sym, ◌∙◌, ap, Bool, ℤ, pos, done}
use my_toolbox.Lcu.Handler.{Handler, Message}
use my_toolbox.MsgQueueJni.{World}
use my_toolbox.MsgQueueJni.Push.{Args, push_live}
use my_toolbox.MsgQueueJni.Thread.{Handled, handle_queue_msg}
use my_toolbox.MsgQueueJni.Frame.{map_run, with_thread, with_java}
use my_toolbox.MsgQueueJni.Frame.Pushing.{push_live-with_thread, push_live-touches}
use my_toolbox.MsgQueueJni.Frame.Handling.{handle_queue_msg-with_java, handle_queue_msg-touches}

-- The thread that calls pushMsg and the queue's thread do not disturb each other: while the
-- callback answers 0, a call of pushMsg and a call of handle_queue_msg, each of which runs to its
-- end by itself, do so in either order, with the same results and the same call of Java, and
-- leave the same process. This holds whatever the memory answers, for an open context and for a
-- closed one.
pub push_live-handle_queue_msg :
    (A : Handler) (granted renewed : Bool) (wait : ℕ → A.Queue → A.Queue) (a : Args) (msg : Message)
    (w v : World A.Queue) (code : ℤ) (h : Handled A.Queue)
    → push_live A granted wait a w ≡ done (code, v)
    → handle_queue_msg renewed (pos 0) msg w ≡ done h
    → (last : World A.Queue) × ((push_live A granted wait a h.world ≡ done (code, last))
        × (handle_queue_msg renewed (pos 0) msg v ≡ done (record h { world = last })))
unfolding map_run
push_live-handle_queue_msg A granted renewed wait a msg w v code h pushed handled =
    let moved = handle_queue_msg-touches renewed msg w h handled in
    let filled = push_live-touches A granted wait a w (code, v) pushed in
    let same = ap (with_java v) moved ∙ sym (ap (with_thread h.world) filled) in
    (
      with_thread h.world v,
      (
        ap (push_live A granted wait a) moved
            ∙ (push_live-with_thread A h.world granted wait a w
                ∙ ap (map_run (λ (c, u). (c, with_thread h.world u))) pushed),
        ap (handle_queue_msg renewed (pos 0) msg) filled
            ∙ (handle_queue_msg-with_java A v renewed (pos 0) msg w
                ∙ (ap (map_run (λ (g : Handled A.Queue). record g { world = with_java v g.world }))
                      handled
                    ∙ ap (λ u. done (record h { world = u })) same)),
      ),
    )
