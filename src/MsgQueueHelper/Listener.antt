-- ===== src/MsgQueueHelper/Listener.antt =====
-- On toolbox/src/main/java/com/threshold/jni/MsgQueueHandlerJni.java.
-- What a listener that throws, or that returns another number than 0, means for later messages.
use my_toolbox.Base.{
  ℕ, zero, suc, ◌≡◌, refl, sym, ap, ◌∙◌, ◌⊎◌, inl, inr, ◌≢◌, Bool, true, Bool-cases, ◌||◌, Option,
  none, some, ℤ, pos, negsuc, arith, done, Run, Ensures, Ensures-done,
}
use my_toolbox.Lcu.Handler.{Handler, Message, Status, ready_to_go, about_to_stop, other}
use my_toolbox.MsgQueueJni.{Resources, World, set_obj}
use my_toolbox.MsgQueueJni.Push.{Args, push_msg, push_live}
use my_toolbox.MsgQueueJni.Thread.{
  Vm, Call, Handled, on_ready, on_stop, on_status_changed, call_user, handle_queue_msg,
}
use my_toolbox.MsgQueueHelper.{
  Outcome, answers, throws_exception, throws_error, Exception, illegal_argument, illegal_state,
  Answer, is_too_long, lacks_obj, returned, thrown, Helper, of_world, handle_event, push_native,
  push, close,
}
use my_toolbox.MsgQueueHelper.Session.{
  ThreadStep, status, handled, Step, pushed, closed, finalized, thread, Session, start, next,
  finalize-close, push-gone,
}

module _ (A : Handler) where
  -- The context is closed, or it is there no more.
  pub data Refuses (h : Helper A.Queue) : Type 0 where
    shut : (w : World A.Queue) → h ≡ of_world w → w.ctx.flag_exit ≡ true → Refuses h
    gone : h.handle ≡ none → Refuses h

  -- The answers that accept no message.
  pub data IsRefusal : Answer ℤ → Type 0 where
    throws : (e : Exception) → IsRefusal (thrown e)
    exits : IsRefusal (returned (negsuc 1))

  abbrev Refused : (wait : ℕ → A.Queue → A.Queue) → Bool → Option Args → Helper A.Queue → Type 0
  Refused wait granted message h =
      (answer : Answer ℤ) × (push A granted wait message h ≡ done (answer, h)) × IsRefusal answer

  push_native-shut :
      (granted : Bool) (wait : ℕ → A.Queue → A.Queue) (msg : Args) (w : World A.Queue)
      → w.ctx.flag_exit ≡ true
      → push_native A granted wait msg w ≡ done (returned (negsuc 1), of_world w)
  unfolding push_native push_msg push_live
  push_native-shut granted wait msg w exit = ground arith

  push-native_or_thrown :
      (granted : Bool) (wait : ℕ → A.Queue → A.Queue) (msg : Args) (w : World A.Queue)
      → (push A granted wait (some msg) (of_world w) ≡ push_native A granted wait msg w)
        ⊎ (push A granted wait (some msg) (of_world w) ≡ done (thrown illegal_argument, of_world w))
  unfolding push
  push-native_or_thrown granted wait msg w = elim (Bool-cases (is_too_long msg || lacks_obj msg)) [
    | inl bad ↦ inr (simp bad)
    | inr ok ↦ inl (simp ok)
  ]

  shut-Refused :
      (granted : Bool) (wait : ℕ → A.Queue → A.Queue) (message : Option Args) (w : World A.Queue)
      → w.ctx.flag_exit ≡ true
      → Refused wait granted message (of_world w)
  unfolding push
  shut-Refused granted wait none w exit = (thrown illegal_argument, refl, throws illegal_argument)
  shut-Refused granted wait (some msg) w exit = elim (push-native_or_thrown granted wait msg w) [
    | inl native ↦ (returned (negsuc 1), native ∙ push_native-shut granted wait msg w exit, exits)
    | inr refused ↦ (thrown illegal_argument, refused, throws illegal_argument)
  ]

  push-Refused :
      (granted : Bool) (wait : ℕ → A.Queue → A.Queue) (message : Option Args) (h : Helper A.Queue)
      → Refuses h
      → Refused wait granted message h
  push-Refused granted wait message h (gone e) =
      (thrown illegal_state, push-gone A granted wait message h e, throws illegal_state)
  push-Refused granted wait message h (shut w e exit) =
      rw e (shut-Refused granted wait message w exit)

  -- What handleEvent returns is 0 only if the listener has returned 0.
  handle_event-nonzero :
      (outcome : Outcome) (ret : ℤ)
      → handle_event outcome ≡ some ret
      → outcome ≢ answers (pos 0)
      → ret ≢ pos 0
  unfolding handle_event
  handle_event-nonzero (answers n) ret e other_than zero_ret =
      let same : n ≡ pos 0 = cc in other_than (ap answers same)
  handle_event-nonzero throws_exception ret e other_than zero_ret = cc
  handle_event-nonzero throws_error ret e other_than zero_ret = cc

  callback-shut :
      (granted : Bool) (ret : ℤ) (msg : Message) (w : World A.Queue) (g : Handled A.Queue)
      (c : Call)
      → handle_queue_msg granted ret msg w ≡ done g
      → g.call ≡ some c
      → ret ≢ pos 0
      → g.world.ctx.flag_exit ≡ true
  unfolding handle_queue_msg call_user
  callback-shut granted (pos zero) msg w g c e called other_than = absurd (other_than refl)
  callback-shut granted (pos (suc n)) msg w g c e called other_than = ground arith
  callback-shut granted (negsuc n) msg w g c e called other_than = ground arith

  status-shut :
      (s : Status) (vm : Vm) (w : World A.Queue)
      → w.ctx.flag_exit ≡ true
      → Ensures (λ (v : World A.Queue). v.ctx.flag_exit ≡ true) (on_status_changed s vm w)
  unfolding on_status_changed on_ready on_stop
  status-shut ready_to_go vm w e = ground arith
  status-shut about_to_stop vm w e = ground arith
  status-shut (other n) vm w e = e

  handled-shut :
      (granted : Bool) (user_ret : ℤ) (msg : Message) (w : World A.Queue) (g : Handled A.Queue)
      → handle_queue_msg granted user_ret msg w ≡ done g
      → w.ctx.flag_exit ≡ true
      → g.world.ctx.flag_exit ≡ true
  unfolding handle_queue_msg
  handled-shut granted user_ret msg w g e exit = ground arith

  ThreadStep-shut :
      (w v : World A.Queue) → ThreadStep A w v → w.ctx.flag_exit ≡ true → v.ctx.flag_exit ≡ true
  ThreadStep-shut w v (status s vm e) exit = Ensures-done _ _ _ e (status-shut s vm w exit)
  ThreadStep-shut w v (handled granted user_ret msg q q' h holds front e p) exit =
      rw p (handled-shut granted user_ret msg (set_obj w (some q')) h e exit)

  same_end :
      {x x' : Answer ℤ} {y y' : Helper A.Queue}
      → ◌≡◌ {A = Run (Answer ℤ × Helper A.Queue)} (done (x, y)) (done (x', y'))
      → (x ≡ x') × (y ≡ y')
  same_end e = (cc, cc)

  close-handle :
      (stopping : World A.Queue → World A.Queue) (h : Helper A.Queue)
      → (close A stopping h).handle ≡ none
  unfolding close
  close-handle stopping h = ground arith

  module _ (base : Resources) where
    Step-Refuses : (u v : Helper A.Queue) → Step A base u v → Refuses u → Refuses v
    Step-Refuses u v (pushed wait message answer consumes e) r =
        let (answer', runs, refusal) = push-Refused true wait message u r in
        rw ((same_end (sym runs ∙ e)).1) at r
    Step-Refuses u v (closed stopping stops e) r = rw e (gone (close-handle stopping u))
    Step-Refuses u v (finalized stopping stops e) r =
        rw (e, finalize-close A base stopping u) (gone (close-handle stopping u))
    Step-Refuses u v (thread w w' e t f) (shut w1 e1 exit) =
        let same : w1 ≡ w = ground (arith, e, e1) in
        shut w' f (ThreadStep-shut w w' t (rw (← same) exit))
    Step-Refuses u v (thread w w' e t f) (gone e1) = absurd (ground arith)

    Session-Refuses : {h v : Helper A.Queue} → Session A base h v → Refuses h → Refuses v
    Session-Refuses start r = r
    Session-Refuses (next {u} {v} s step) r = Step-Refuses u v step (Session-Refuses s r)

    -- When the callback has run with a listener that threw an Exception, or that returned another
    -- number than 0, the queue takes no message any more: whatever Java, where `malloc` succeeds, and the
    -- queue's thread do after it, the next call of pushMsg with any message ends without a fault,
    -- whether `malloc` succeeds in it or not, and throws or returns -2, and the Helper is as before.
    pub handle_event-IsRefusal :
        (granted : Bool) (outcome : Outcome) (ret : ℤ) (msg : Message) (w : World A.Queue)
        (g : Handled A.Queue) (c : Call) (h : Helper A.Queue)
        → handle_event outcome ≡ some ret
        → handle_queue_msg granted ret msg w ≡ done g
        → g.call ≡ some c
        → outcome ≢ answers (pos 0)
        → Session A base (of_world g.world) h
        → (push_granted : Bool) (wait : ℕ → A.Queue → A.Queue) (message : Option Args)
        → (answer : Answer ℤ) × (push A push_granted wait message h ≡ done (answer, h))
          × IsRefusal answer
    handle_event-IsRefusal granted outcome ret msg w g c h returns e called other_than s
          push_granted wait message =
        push-Refused push_granted wait message h (
          Session-Refuses s (
            shut g.world refl (
              callback-shut granted ret msg w g c e called
                (handle_event-nonzero outcome ret returns other_than))))
