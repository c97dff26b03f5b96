-- ===== src/MsgQueueHelper.antt =====
-- toolbox/src/main/java/com/threshold/jni/MsgQueueHandlerJni.java: the class Helper, through which
-- Java uses toolbox/src/main/cpp/jni_msg_queue_handler.c, and the classes of its arguments. A
-- Message has the fields of `Args`, which any code may set. Logging is left out.
pub mod Guards
pub mod Session
pub mod Sound
pub mod Made
pub mod Listener
pub mod Whole
mod Tests
use my_toolbox.Base.{
  ℕ, ◌==◌, Bool, true, false, not, ◌||◌, Option, none, some, ℤ, pos, negsuc, gt_nat, if◌then◌else◌,
  Run, done, ◌>>=◌, length, replicate,
}
use my_toolbox.Lcu.Handler.{Handler}
use my_toolbox.MsgQueueJni.{Context, Resources, World}
use my_toolbox.MsgQueueJni.Push.{Args, push_msg}
use my_toolbox.MsgQueueJni.Init.{Answers, init, destroy}

-- IllegalArgumentException and IllegalStateException.
pub data Exception : Type 0 where
  illegal_argument illegal_state : Exception

-- How a method ends.
pub data Answer (R : Type 0) : Type 0 where
  returned : R → Answer R
  thrown : Exception → Answer R

-- The constructor of Message.
unfoldable pub new_message : ℤ → ℤ → ℤ → ℤ → Answer Args
new_message what arg1 arg2 (negsuc _) = thrown illegal_argument
new_message what arg1 arg2 (pos n) = returned (record {
  what = what;
  arg1 = arg1;
  arg2 = arg2;
  obj = if n == 0 then none else some (replicate n 0);
  obj_len = pos n;
})

-- How a call of the listener ends: with a number, an Exception or another Throwable.
pub data Outcome : Type 0 where
  answers : ℤ → Outcome
  throws_exception throws_error : Outcome

-- handleEvent of MsgQueueHandlerParam, `none` if it does not return: it catches no Error.
unfoldable pub handle_event : Outcome → Option ℤ
handle_event (answers ret) = some ret
handle_event throws_exception = some (negsuc 0)
handle_event throws_error = none

-- `null != msg.obj && msg.objLen > msg.obj.length`
unfoldable pub is_too_long : Args → Bool
is_too_long msg = elim (msg.obj) [ none ↦ false | some bytes ↦ gt_nat msg.obj_len (length bytes) ]

abbrev pub is_zero : ℤ → Bool
is_zero (pos n) = n == 0
is_zero (negsuc _) = false

-- `null == msg.obj && 0 != msg.objLen`
unfoldable pub lacks_obj : Args → Bool
lacks_obj msg = elim (msg.obj) [ none ↦ not (is_zero msg.obj_len) | some _ ↦ false ]

-- A Helper in its process: the context that `mHandleHolder[0]` leads to, `none` for 0.
pub record Helper (Queue : Type 0) : Type 0 where
  pub handle : Option (Context Queue)
  pub res : Resources

abbrev pub of_world : {Queue : Type 0} → World Queue → Helper Queue
of_world w = record { handle = some w.ctx; res = w.res }

module _ (A : Handler) where
  -- The constructor of Helper; the flag is whether the parameter is there. An Error that is pending
  -- behind init, because the class of the parameter lacks a field, is left out.
  unfoldable pub new_helper : Bool → Answers → Resources → Run (Option Exception × Helper A.Queue)
  new_helper has_param ans res = init A true has_param ans res >>= λ r.
      let h : Helper A.Queue = record { handle = r.handle; res = r.res } in
      if is_zero r.ret then done (none, h) else done (some illegal_argument, h)

  -- The end of the Helper's pushMsg: the call of the native pushMsg.
  unfoldable pub push_native :
      Bool → (ℕ → A.Queue → A.Queue) → Args → World A.Queue → Run (Answer ℤ × Helper A.Queue)
  push_native granted wait msg w = push_msg A granted wait msg (some w) >>= λ (ret, w').
      done (returned ret, elim w' [ none ↦ of_world w | some v ↦ of_world v ])

  -- The Helper's pushMsg; a message is `none` if it is null.
  unfoldable pub push :
      Bool
      → (ℕ → A.Queue → A.Queue)
      → Option Args
      → Helper A.Queue
      → Run (Answer ℤ × Helper A.Queue)
  push granted wait message h = elim (h.handle) [
    | none ↦ done (thrown illegal_state, h)
    | some c ↦ elim message [
      | none ↦ done (thrown illegal_argument, h)
      | some msg ↦
          if is_too_long msg || lacks_obj msg
          then done (thrown illegal_argument, h)
          else push_native granted wait msg (record { ctx = c; res = h.res })
    ]
  ]

  -- close
  unfoldable pub close : (World A.Queue → World A.Queue) → Helper A.Queue → Helper A.Queue
  close stopping h = elim (h.handle) [
    | none ↦ h
    | some c ↦
        let r = destroy A true stopping (some (record { ctx = c; res = h.res })) in
        record { handle = none; res = elim (r.left) [ none ↦ h.res | some w ↦ w.res ] }
  ]

  -- finalize
  unfoldable pub finalize : (World A.Queue → World A.Queue) → Helper A.Queue → Helper A.Queue
  finalize stopping h = elim (h.handle) [ none ↦ h | some _ ↦ close stopping h ]
