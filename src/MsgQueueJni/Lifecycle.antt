-- ===== src/MsgQueueJni/Lifecycle.antt =====
-- On toolbox/src/main/cpp/jni_msg_queue_handler.c.
-- The life of a context between init and destroy: the calls of Java and of the queue's thread, in
-- any order, each of them as a whole.
use my_toolbox.Base.{ℕ, ◌≡◌, refl, Bool, true, ℤ, arith, done, Ensures, Ensures-done}
use my_toolbox.Lcu.Handler.{Handler, Message, Status, ready_to_go, about_to_stop, other}
use my_toolbox.MsgQueueJni.{Resources, World}
use my_toolbox.MsgQueueJni.Push.{Args, push_live}
use my_toolbox.MsgQueueJni.Thread.{
  Vm, Handled, on_ready, on_stop, on_status_changed, handle_queue_msg,
}
use my_toolbox.MsgQueueJni.Owns.{
  Owns, on_status_changed-Owns, handle_queue_msg-Owns, push_live-Owns,
}

module _ (A : Handler) where
  pub data Step (w w' : World A.Queue) : Type 0 where
    status : (s : Status) (vm : Vm) → on_status_changed s vm w ≡ done w' → Step w w'
    handled :
        (granted : Bool) (user_ret : ℤ) (msg : Message) (h : Handled A.Queue)
        → handle_queue_msg granted user_ret msg w ≡ done h
        → w' ≡ h.world
        → Step w w'
    pushed :
        (granted : Bool) (wait : ℕ → A.Queue → A.Queue) (a : Args) (code : ℤ)
        → push_live A granted wait a w ≡ done (code, w')
        → Step w w'

  pub data Reach (w : World A.Queue) : World A.Queue → Type 0 where
    here : Reach w w
    next : {u v : World A.Queue} → Reach w u → Step u v → Reach w v

  Step-Owns : {base : Resources} {w w' : World A.Queue} → Step w w' → Owns base w → Owns base w'
  Step-Owns (status s vm e) o = Ensures-done _ _ _ e (on_status_changed-Owns o s vm)
  Step-Owns {base} {w} (handled granted user_ret msg h e p) o =
      rw p (Ensures-done _ _ _ e (handle_queue_msg-Owns base w o granted user_ret msg))
  Step-Owns {base} {w} (pushed granted wait a code e) o =
      Ensures-done _ _ _ e (push_live-Owns A base granted wait a w o)

  -- However the calls of pushMsg, of the callback and of the status notification follow one
  -- another, each ends with the process owning what the context's fields hold, and no more.
  pub Reach-Owns :
      {base : Resources} {w w' : World A.Queue} → Reach w w' → Owns base w → Owns base w'
  Reach-Owns here o = o
  Reach-Owns (next r s) o = Step-Owns s (Reach-Owns r o)

  -- A context that has been closed: nothing new enters its queue, and its buffer is at rest.
  pub record IsClosed (w w' : World A.Queue) : Type 0 where
    pub closed : w'.ctx.flag_exit ≡ true
    pub obj : w'.ctx.obj ≡ w.ctx.obj
    pub msg : w'.ctx.msg ≡ w.ctx.msg
    pub cache : w'.ctx.cache ≡ w.ctx.cache

  status-IsClosed :
      (s : Status) (vm : Vm) (w u : World A.Queue)
      → IsClosed w u
      → Ensures (IsClosed w) (on_status_changed s vm u)
  unfolding on_status_changed on_ready on_stop
  status-IsClosed ready_to_go vm w u c = ground arith
  status-IsClosed about_to_stop vm w u c = ground arith
  status-IsClosed (other n) vm w u c = c

  handled-IsClosed :
      (granted : Bool) (user_ret : ℤ) (msg : Message) (w u : World A.Queue) (h : Handled A.Queue)
      → IsClosed w u
      → handle_queue_msg granted user_ret msg u ≡ done h
      → IsClosed w h.world
  unfolding handle_queue_msg
  handled-IsClosed granted user_ret msg w u h c e = ground arith

  pushed-IsClosed :
      (granted : Bool) (wait : ℕ → A.Queue → A.Queue) (a : Args) (code : ℤ) (w u v : World A.Queue)
      → IsClosed w u
      → push_live A granted wait a u ≡ done (code, v)
      → IsClosed w v
  unfolding push_live
  pushed-IsClosed granted wait a code w u v c e = ground arith

  Step-IsClosed : (w u v : World A.Queue) → Step u v → IsClosed w u → IsClosed w v
  Step-IsClosed w u v (status s vm e) c = Ensures-done _ _ _ e (status-IsClosed s vm w u c)
  Step-IsClosed w u v (handled granted user_ret msg h e p) c =
      rw p (handled-IsClosed granted user_ret msg w u h c e)
  Step-IsClosed w u v (pushed granted wait a code e) c =
      pushed-IsClosed granted wait a code w u v c e

  -- Once a callback or destroy has closed the context it stays closed, and whatever calls follow,
  -- no message enters its queue, and its buffer and its cache stay as they are.
  pub Reach-IsClosed : (w w' : World A.Queue) → Reach w w' → w.ctx.flag_exit ≡ true → IsClosed w w'
  Reach-IsClosed w w' here exit = record { closed = exit; obj = refl; msg = refl; cache = refl }
  Reach-IsClosed w w' (next {u} r s) exit = Step-IsClosed w u w' s (Reach-IsClosed w u r exit)
