-- ===== src/MsgQueueJni/Push/Delivery.antt =====
-- On toolbox/src/main/cpp/jni_msg_queue_handler.c.
-- What a call of pushMsg leaves in the context and in the queue.
use my_toolbox.Base.{ℕ, ◌≡◌, refl, ◌∙◌, ap, ◌≢◌, ◌<◌, true, false, some, pos, arith, done, length}
use my_toolbox.Lcu.Handler.{Handler, IsLawful, Code, generic_fail, full, code_value}
use my_toolbox.MsgQueueJni.{Context, QueueMsg, World, set_in, set_obj}
use my_toolbox.MsgQueueJni.Valid.{HasBuffer}
use my_toolbox.MsgQueueJni.Push.{
  Args, message_of, stage, assemble, rounds, max_push_retry_count, push_retrying, send, push_live,
  push_msg,
}
use my_toolbox.MsgQueueJni.Push.Staging.{
  payload, requested, Staged, stage-Staged, message_of-assembled,
}
use my_toolbox.MsgQueueJni.Push.Retry.{
  Log, Consumes, rounds-Log, queue_at, code_at, rounds-queue_at, rounds-exhausted_from,
}

-- The buffer after the second block.
abbrev stamped : Args → ℕ → QueueMsg → QueueMsg
stamped a n m = record m { what = a.what; arg1 = a.arg1; arg2 = a.arg2; obj_len = pos n }

module _ (A : Handler) (wait : ℕ → A.Queue → A.Queue) (a : Args) (n : ℕ) (w : World A.Queue) where
  -- A context that can send, and a call whose `obj_len` is the size of its payload.
  pub record IsReady (q : A.Queue) (m : QueueMsg) : Type 0 where
    pub open_ctx : w.ctx.flag_exit ≡ false
    pub queue : w.ctx.obj ≡ some q
    pub buffer : HasBuffer w.ctx.msg m
    pub obj_len : a.obj_len ≡ pos n
    pub sized : n ≡ length (payload a.obj n)
    pub owned : 0 < w.res.blocks

  -- How such a call goes through: with the message in the buffer of a staged context `w1`.
  record Sends (q : A.Queue) : Type 0 where
    w1 : World A.Queue
    m1 : QueueMsg
    staged : Staged a.obj n w w1 m1
    fits : message_of (stamped a n m1) ≡ some (requested a n)
    runs :
        (q' : A.Queue) (code : Code)
        → rounds A wait max_push_retry_count (some (stamped a n m1)) (q, generic_fail)
          ≡ done (q', code)
        → push_msg A true wait a (some w)
          ≡ done (code_value code, some (set_obj (set_in w1 (stamped a n m1)) (some q')))

  -- The blocks of pushMsg one after the other, from what each of them does.
  push_msg-runs :
      (w1 : World A.Queue) (m1 : QueueMsg) (q q' : A.Queue) (code : Code)
      → w.ctx.flag_exit ≡ false
      → a.obj_len ≡ pos n
      → stage true a.obj (pos n) w ≡ done (true, w1)
      → w1.ctx.msg.in_msg ≡ some m1
      → w1.ctx.obj ≡ some q
      → rounds A wait max_push_retry_count (some (stamped a n m1)) (q, generic_fail)
        ≡ done (q', code)
      → push_msg A true wait a (some w)
        ≡ done (code_value code, some (set_obj (set_in w1 (stamped a n m1)) (some q')))
  unfolding push_msg push_live send push_retrying assemble
  push_msg-runs w1 m1 q q' code open_ctx len staged holds queue loop = ground arith

  sends : {q : A.Queue} {m : QueueMsg} → IsReady q m → Sends q
  sends {q} r =
      let (w1, m1, staged_ok, st) = stage-Staged a.obj n w _ r.buffer r.sized in
      record {
        w1 = w1;
        m1 = m1;
        staged = st;
        fits = message_of-assembled a n m1 st.room st.bytes;
        runs = λ q' code e.
            push_msg-runs w1 m1 q q' code r.open_ctx r.obj_len staged_ok st.buffer.holds
              (ap (λ (c : Context A.Queue). c.obj) st.same ∙ r.queue) e;
      }

  -- What a call that goes through leaves: in the queue, by its log, in the buffer, and elsewhere.
  pub record Delivered (q : A.Queue) (code : Code) (w' : World A.Queue) : Type 0 where
    pub queue : A.Queue
    pub holds : w'.ctx.obj ≡ some queue
    pub log : Log A (requested a n) q queue code
    pub buffer : (m : QueueMsg) × HasBuffer w'.ctx.msg m
    pub same : w'.ctx ≡ record (w.ctx) { obj = some queue; msg = w'.ctx.msg }
    pub balanced : w'.res ≡ w.res

  Sends-Delivered :
      (q : A.Queue) (s : Sends q) (q' : A.Queue) (code : Code)
      → Log A (requested a n) q q' code
      → 0 < w.res.blocks
      → Delivered q code (set_obj (set_in s.w1 (stamped a n s.m1)) (some q'))
  Sends-Delivered q s q' code l owned = record {
    queue = q';
    holds = refl;
    log = l;
    buffer = (stamped a n s.m1, record { holds = refl; fits = s.staged.buffer.fits });
    same = ground (arith, s.staged.same);
    balanced = s.staged.balanced owned;
  }

-- On a context that can send, a call whose `obj_len` is the size of its payload returns a code of
-- the queue, if `malloc` succeeds. The queue then holds a rest of its messages and, behind them
-- and exactly if the code is 0, the message of the call with its whole payload. The buffer is
-- there for the next call, the process holds as many resources as before, and nothing else of the
-- context has changed.
pub push_msg-Delivered :
    (A : Handler) (wait : ℕ → A.Queue → A.Queue) (a : Args) (n : ℕ) (w : World A.Queue)
    (q : A.Queue) (m : QueueMsg)
    → IsLawful A
    → Consumes A wait
    → IsReady A wait a n w q m
    → (code : Code) × (w' : World A.Queue) × (push_msg A true wait a (some w)
        ≡ done (code_value code, some w'))
      × Delivered A wait a n w q code w'
push_msg-Delivered A wait a n w q m L consumes r =
    let s = sends A wait a n w r in
    let (q', code, loop, l) =
      rounds-Log A L (requested a n) wait consumes (stamped a n s.m1) s.fits max_push_retry_count q
        generic_fail (λ p. cc) in
    (code, _, s.runs q' code loop, Sends-Delivered A wait a n w q s q' code l r.owned)

module _ (A : Handler) (wait : ℕ → A.Queue → A.Queue) (a : Args) (n : ℕ) (w : World A.Queue)
    (q : A.Queue) (m : QueueMsg) (r : IsReady A wait a n w q m) where
  -- The code of the `i`-th attempt, if all before it have met a full queue.
  abbrev attempt : ℕ → Code
  attempt = code_at A wait (requested a n) max_push_retry_count q

  -- Among its four attempts pushMsg stops at the first that does not meet a full queue: it returns
  -- that attempt's code, and the context holds the queue as that attempt left it.
  pub push_msg-attempt :
      (i : ℕ)
      → i < 4
      → ((j : ℕ) → j < i → attempt j ≡ full)
      → attempt i ≢ full
      → (w' : World A.Queue) × (push_msg A true wait a (some w)
          ≡ done (code_value (attempt i), some w'))
        × (w'.ctx.obj
            ≡ some
                (A.push
                  (queue_at A wait (requested a n) max_push_retry_count q i)
                  (requested a n)).0)
  push_msg-attempt i lt before stop =
      let s = sends A wait a n w r in
      (
        _,
        s.runs _ _ (
            rounds-queue_at A wait (requested a n) (stamped a n s.m1) s.fits max_push_retry_count i
              q generic_fail lt before stop),
        refl,
      )

  -- If all four attempts meet a full queue, pushMsg returns MSG_Q_CODE_FULL after the fourth.
  push_msg-exhausted :
      ((j : ℕ) → j < 4 → attempt j ≡ full)
      → (w' : World A.Queue) × (push_msg A true wait a (some w) ≡ done (code_value full, some w'))
        × (w'.ctx.obj ≡ some (queue_at A wait (requested a n) max_push_retry_count q 4))
  push_msg-exhausted all =
      let s = sends A wait a n w r in
      (
        _,
        s.runs _ _ (
            rounds-exhausted_from A wait (requested a n) (stamped a n s.m1) s.fits 3 q generic_fail
              all),
        refl,
      )
