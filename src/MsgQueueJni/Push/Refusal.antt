-- ===== src/MsgQueueJni/Push/Refusal.antt =====
-- On toolbox/src/main/cpp/jni_msg_queue_handler.c.
-- The calls of pushMsg that send nothing, and those that do not come back.
use my_toolbox.Base.{
  ℕ, ◌≡◌, refl, ◌<◌, ◌≤◌, Bool, false, none, some, List, pos, negsuc, arith, done, fault, length,
  take, ◌^◌,
}
use mathlib.Core.Option
use my_toolbox.Lcu.Handler.{Handler, Message, success, generic_fail, code_value}
use my_toolbox.MsgQueueJni.{QueueMsg, World, set_in, set_msg, set_obj, recreate_msg}
use my_toolbox.MsgQueueJni.Push.{
  Args, exceeds, message_of, copy_obj, grow, stage, assemble, push_in, rounds, push_retrying, send,
  push_live, push_msg,
}

module _ (A : Handler) (granted : Bool) (wait : ℕ → A.Queue → A.Queue) (a : Args) where
  -- A call with an array and a negative `obj_len` returns MSG_Q_CODE_GENERIC_FAIL, on every open
  -- context and whatever `malloc` would do. It leaves the queue and all else as they are, but for
  -- the header of the message buffer.
  push_msg-negative :
      (w : World A.Queue) (bytes : List ℕ) (k : ℕ)
      → w.ctx.flag_exit ≡ false
      → a.obj ≡ some bytes
      → a.obj_len ≡ negsuc k
      → (w' : World A.Queue) × (push_msg A granted wait a (some w)
          ≡ done (code_value generic_fail, some w'))
        × (w' ≡ set_msg w w'.ctx.msg)
        × (w'.ctx.msg.in_obj_capacity ≡ w.ctx.msg.in_obj_capacity)
        × (Option.map (λ (m : QueueMsg). m.obj) w'.ctx.msg.in_msg
            ≡ Option.map (λ (m : QueueMsg). m.obj) w.ctx.msg.in_msg)
  unfolding push_msg push_live send assemble stage
  push_msg-negative w bytes k open_ctx obj len =
      (assemble a w, ground arith, ground arith, ground arith, ground arith)

  module _ (w : World A.Queue) (q : A.Queue) (m : QueueMsg) (n : ℕ)
      (open_ctx : w.ctx.flag_exit ≡ false) (queue : w.ctx.obj ≡ some q)
      (holds : w.ctx.msg.in_msg ≡ some m) (null_obj : a.obj ≡ none) (len : a.obj_len ≡ pos n) where
    -- A null array with an `obj_len` that is larger than the buffer makes the library read past the
    -- buffer's end.
    push_msg-overread : length m.obj < n → push_msg A granted wait a (some w) ≡ fault
    unfolding push_msg push_live send stage assemble push_retrying rounds push_in message_of
    push_msg-overread big = ground arith

    -- The message that the buffer holds from an earlier call, under the header of this one.
    abbrev stale : Message
    stale = record {
      what = a.what;
      arg1 = a.arg1;
      arg2 = a.arg2;
      obj_len = pos n;
      obj = take n m.obj;
    }

    -- With a null array and an `obj_len` that the buffer can hold, pushMsg sends the bytes that an
    -- earlier call has left in the buffer, and returns 0 if the queue takes them.
    pub push_msg-stale :
        n ≤ length m.obj
        → (A.push q stale).1 ≡ success
        → (w' : World A.Queue) × (push_msg A granted wait a (some w)
            ≡ done (code_value success, some w'))
          × (w'.ctx.obj ≡ some (A.push q stale).0)
    unfolding push_msg push_live send stage assemble push_retrying rounds push_in message_of
    push_msg-stale le sent = (
      set_obj (set_in w (record m { what = a.what; arg1 = a.arg1; arg2 = a.arg2; obj_len = pos n }))
          (some _),
      ground arith,
      refl,
    )

module _ (A : Handler) (wait : ℕ → A.Queue → A.Queue) (a : Args) where
  -- pushMsg writes through a null pointer if the buffer must grow and `malloc` fails: the size is
  -- noted, and the test for null comes after the `memcpy`.
  pub push_msg-no_memory :
      (w : World A.Queue) (bytes : List ℕ) (n : ℕ)
      → w.ctx.flag_exit ≡ false
      → a.obj ≡ some bytes
      → a.obj_len ≡ pos n
      → 0 < n
      → w.ctx.msg.in_obj_capacity < n
      → n < 2 ^ 31
      → push_msg A false wait a (some w) ≡ fault
  unfolding push_msg push_live send stage grow exceeds recreate_msg copy_obj
  push_msg-no_memory w bytes n open_ctx obj len pos_n small range = ground arith
