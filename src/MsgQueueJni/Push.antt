-- ===== src/MsgQueueJni/Push.antt =====
-- Java_com_threshold_jni_MsgQueueHandlerJni_pushMsg of
-- toolbox/src/main/cpp/jni_msg_queue_handler.c.
pub mod Staging
pub mod Retry
pub mod Delivery
pub mod Refusal
use my_toolbox.Base.{
  ℕ, zero, suc, ◌*◌, Bool, true, false, Option, none, some, List, ℤ, pos, negsuc, as_int, ltb, leb,
  ◌==◌, ◌&&◌, if◌then◌else◌, Run, done, fault, ◌>>=◌, take, splice, length,
}
use my_toolbox.Lcu.Handler.{Handler, Message, Code, generic_fail, null_handle, full, code_value}
use my_toolbox.MsgQueueJni.{QueueMsg, World, set_in, set_obj, recreate_msg}

-- `obj_len > (int) in_obj_capacity`, for an `obj_len` that is not negative.
unfoldable pub exceeds : ℕ → ℕ → Bool
exceeds n capacity = elim (as_int capacity) [ pos c ↦ ltb c n | negsuc _ ↦ true ]

-- The message that lies in the buffer, as the library copies it; `none` if `obj_len` bytes do not
-- lie in the buffer.
unfoldable pub message_of : QueueMsg → Option Message
message_of m = elim (m.obj_len) [
  | pos n ↦
      if leb n (length m.obj)
      then some (record {
        what = m.what;
        arg1 = m.arg1;
        arg2 = m.arg2;
        obj_len = pos n;
        obj = take n m.obj;
      })
      else none
  | negsuc _ ↦ none
]

-- The arguments of a call; `obj` is the content of the Java array, `none` for null.
pub record Args : Type 0 where
  pub what : ℤ
  pub arg1 : ℤ
  pub arg2 : ℤ
  pub obj : Option (List ℕ)
  pub obj_len : ℤ

module _ {Queue : Type 0} where
  -- The `memcpy` into `context->msg.in->obj`.
  unfoldable pub copy_obj : ℕ → List ℕ → World Queue → Run (Bool × World Queue)
  copy_obj n bytes w = elim (w.ctx.msg.in_msg) [
    | none ↦ fault
    | some m ↦
        if leb n (length bytes) && leb n (length m.obj)
        then done (true, set_in w (record m { obj = splice 0 (take n bytes) m.obj }))
        else fault
  ]

  -- The growth of the buffer to twice the message, where the message does not fit.
  unfoldable pub grow : Bool → ℕ → World Queue → World Queue
  unfolding exceeds recreate_msg
  grow granted n w =
      if exceeds n w.ctx.msg.in_obj_capacity then recreate_msg granted (n * 2) w else w

  -- The first `do … while (0)`: it gives `valid_msg`. `granted` is whether `malloc` succeeds.
  unfoldable pub stage : Bool → Option (List ℕ) → ℤ → World Queue → Run (Bool × World Queue)
  unfolding copy_obj grow
  stage granted none obj_len w = done (true, w)
  stage granted (some bytes) (negsuc _) w = done (false, w)
  stage granted (some bytes) (pos n) w =
      if n == 0 then done (true, w) else copy_obj n bytes (grow granted n w)

  -- The second `do … while (0)`.
  unfoldable pub assemble : Args → World Queue → World Queue
  assemble a w = elim (w.ctx.msg.in_msg) [
    | none ↦ w
    | some m ↦
        set_in w (record m { what = a.what; arg1 = a.arg1; arg2 = a.arg2; obj_len = a.obj_len })
  ]

-- MAX_PUSH_RETRY_COUNT
abbrev pub max_push_retry_count : ℕ
max_push_retry_count = 4

module _ (A : Handler) where
  -- msg_queue_handler_push(context->obj, context->msg.in) on a live queue.
  unfoldable pub push_in : A.Queue → Option QueueMsg → Run (A.Queue × Code)
  unfolding message_of
  push_in q none = fault
  push_in q (some m) = elim (message_of m) [ none ↦ fault | some msg ↦ done (A.push q msg) ]

  -- The retry loop with `k` rounds left. `wait k` is what the handler's thread does to the queue
  -- while this one sleeps.
  unfoldable pub rounds :
      (ℕ → A.Queue → A.Queue) → ℕ → Option QueueMsg → A.Queue × Code → Run (A.Queue × Code)
  unfolding push_in
  rounds wait zero m s = done s
  rounds wait (suc k) m s = elim (push_in s.0 m) [
    | fault ↦ fault
    | done (q, full) ↦ rounds wait k m (wait k q, full)
    | done (q, code) ↦ done (q, code)
  ]

  -- The loop as pushMsg runs it, on the context's queue.
  unfoldable pub push_retrying :
      (ℕ → A.Queue → A.Queue) → World A.Queue → Run (Code × World A.Queue)
  push_retrying wait w = elim (w.ctx.obj) [
    | none ↦ done (null_handle, w)
    | some q ↦ rounds wait max_push_retry_count w.ctx.msg.in_msg (q, generic_fail) >>= λ (q', code).
        done (code, set_obj w (some q'))
  ]

  -- pushMsg behind its first block.
  unfoldable pub send :
      (ℕ → A.Queue → A.Queue) → Args → Bool × World A.Queue → Run (ℤ × World A.Queue)
  send wait a (valid_msg, w) =
      if valid_msg
      then (push_retrying wait (assemble a w) >>= λ (code, w'). done (code_value code, w'))
      else done (code_value generic_fail, assemble a w)

  -- pushMsg behind its test of the handle.
  unfoldable pub push_live :
      Bool → (ℕ → A.Queue → A.Queue) → Args → World A.Queue → Run (ℤ × World A.Queue)
  push_live granted wait a w =
      if w.ctx.flag_exit
      then done (negsuc 1, w)
      else stage granted a.obj a.obj_len w >>= send wait a

  -- pushMsg; `none` is the null handle.
  unfoldable pub push_msg :
      Bool
      → (ℕ → A.Queue → A.Queue)
      → Args
      → Option (World A.Queue)
      → Run (ℤ × Option (World A.Queue))
  push_msg granted wait a none = done (negsuc 0, none)
  push_msg granted wait a (some w) =
      push_live granted wait a w >>= λ (code, w'). done (code, some w')
