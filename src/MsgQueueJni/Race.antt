-- ===== src/MsgQueueJni/Race.antt =====
-- Java_com_threshold_jni_MsgQueueHandlerJni_pushMsg of
-- toolbox/src/main/cpp/jni_msg_queue_handler.c, one part after the other, so that calls of several
-- threads of Java can be interleaved. MsgQueueHandlerJni.java asks for a lock around the call.
pub mod Unlocked
pub mod Callbacks
use my_toolbox.Base.{
  ℕ, zero, suc, ◌≡◌, refl, sym, ◌∙◌, ap, ◌≢◌, Bool, true, false, Bool-cases, Option, Option-cases,
  inl, inr, none, some, List, [], ◌∷◌, ◌++◌, append_assoc, ℤ, pos, negsuc, arith, if◌then◌else◌,
  Run, done, fault, ◌>>=◌,
}
use my_toolbox.Lcu.Handler.{
  Handler, IsLawful, Message, Code, success, generic_fail, null_handle, full, again, empty,
  buf_not_enough, code_value,
}
use my_toolbox.MsgQueueJni.{QueueMsg, World, set_obj}
use my_toolbox.MsgQueueJni.Push.{
  Args, stage, assemble, push_in, rounds, push_retrying, send, push_live, max_push_retry_count,
}

-- Where a call stands: in front of the test of the flag, of the first block, of the second block
-- with `valid_msg`, of the attempts that are left, or behind its end.
pub data Pc : Type 0 where
  entering staging : Pc
  assembling : Bool → Pc
  trying : ℕ → Code → Pc
  left : ℤ → Pc
  crashed : Pc

pub some-same {ℓ} : {B : Type ℓ} {x y : B} → some x ≡ some y → x ≡ y
some-same e = cc

module _ (A : Handler) (granted : Bool) (wait : ℕ → A.Queue → A.Queue) (a : Args) where
  -- What follows an attempt with `k` attempts left behind it.
  unfoldable pub tried : ℕ → World A.Queue → Run (A.Queue × Code) → Pc × World A.Queue
  tried k w fault = (crashed, w)
  tried k w (done (q, full)) = (trying k full, set_obj w (some (wait k q)))
  tried k w (done (q, code)) = (left (code_value code), set_obj w (some q))

  -- What follows the first block.
  unfoldable pub staged : World A.Queue → Run (Bool × World A.Queue) → Pc × World A.Queue
  staged w fault = (crashed, w)
  staged w (done (valid_msg, w')) = (assembling valid_msg, w')

  -- One part of a call.
  unfoldable pub advance : Pc → World A.Queue → Pc × World A.Queue
  unfolding tried staged
  advance entering w = (if w.ctx.flag_exit then left (negsuc 1) else staging, w)
  advance staging w = staged w (stage granted a.obj a.obj_len w)
  advance (assembling valid_msg) w = (
    if valid_msg then trying max_push_retry_count generic_fail else left (code_value generic_fail),
    assemble a w,
  )
  advance (trying zero code) w = (left (code_value code), w)
  advance (trying (suc k) code) w = elim (w.ctx.obj) [
    | none ↦ (left (code_value null_handle), w)
    | some q ↦ tried k w (push_in A q w.ctx.msg.in_msg)
  ]
  advance (left ret) w = (left ret, w)
  advance crashed w = (crashed, w)

  abbrev pub repeat : ℕ → Pc × World A.Queue → Pc × World A.Queue
  repeat zero s = s
  repeat (suc n) s = repeat n (advance s.0 s.1)

  -- What a call at its end has given, `none` before it.
  abbrev pub outcome : Pc × World A.Queue → Option (Run (ℤ × World A.Queue))
  outcome (left ret, w) = some (done (ret, w))
  outcome (crashed, w) = some fault
  outcome (pc, w) = none

  pub repeat-one :
      (m : ℕ) (s : Pc × World A.Queue)
      → repeat m (advance s.0 s.1) ≡ (let r = repeat m s in advance r.0 r.1)
  repeat-one zero s = refl
  repeat-one (suc m) s = repeat-one m (advance s.0 s.1)

  repeat-left : (n : ℕ) (ret : ℤ) (w : World A.Queue) → repeat n (left ret, w) ≡ (left ret, w)
  unfolding advance
  repeat-left zero ret w = refl
  repeat-left (suc n) ret w = repeat-left n ret w

  repeat-crashed : (n : ℕ) (w : World A.Queue) → repeat n (crashed, w) ≡ (crashed, w)
  unfolding advance
  repeat-crashed zero w = refl
  repeat-crashed (suc n) w = repeat-crashed n w

  -- The result of the loop.
  abbrev ended : World A.Queue → Run (A.Queue × Code) → Run (ℤ × World A.Queue)
  ended w r = r >>= λ (q', code). done (code_value code, set_obj w (some q'))

  -- The loop behind an attempt.
  abbrev behind : ℕ → Option QueueMsg → Run (A.Queue × Code) → Run (A.Queue × Code)
  behind k m fault = fault
  behind k m (done (q, full)) = rounds A wait k m (wait k q, full)
  behind k m (done (q, code)) = done (q, code)

  rounds-behind :
      (k : ℕ) (m : Option QueueMsg) (q : A.Queue) (code : Code)
      → rounds A wait (suc k) m (q, code) ≡ behind k m (push_in A q m)
  unfolding rounds
  rounds-behind k m q code = refl

  tried_parts :
      (k : ℕ) (w : World A.Queue) (r : Run (A.Queue × Code))
      → ((q : A.Queue)
          → outcome (repeat (suc k) (trying k full, set_obj w (some q)))
            ≡ some (ended w (rounds A wait k w.ctx.msg.in_msg (q, full))))
      → (q : A.Queue)
      → outcome (repeat (suc k) (tried k (set_obj w (some q)) r))
        ≡ some (ended w (behind k w.ctx.msg.in_msg r))
  unfolding tried
  tried_parts k w fault next q = rw (repeat-crashed (suc k)) refl
  tried_parts k w (done (q', full)) next q = next (wait k q')
  tried_parts k w (done (q', success)) next q = rw (repeat-left (suc k)) refl
  tried_parts k w (done (q', generic_fail)) next q = rw (repeat-left (suc k)) refl
  tried_parts k w (done (q', null_handle)) next q = rw (repeat-left (suc k)) refl
  tried_parts k w (done (q', again)) next q = rw (repeat-left (suc k)) refl
  tried_parts k w (done (q', empty)) next q = rw (repeat-left (suc k)) refl
  tried_parts k w (done (q', buf_not_enough)) next q = rw (repeat-left (suc k)) refl

  -- The parts of the loop, one after the other, do what the loop does.
  loop_parts :
      (k : ℕ) (code : Code) (w : World A.Queue) (q : A.Queue)
      → outcome (repeat (suc k) (trying k code, set_obj w (some q)))
        ≡ some (ended w (rounds A wait k w.ctx.msg.in_msg (q, code)))
  unfolding advance rounds
  loop_parts zero code w q = refl
  loop_parts (suc k) code w q =
      tried_parts k w (push_in A q w.ctx.msg.in_msg) (loop_parts k full w) q

  ended-bind :
      (w : World A.Queue) (r : Run (A.Queue × Code))
      → (r >>= λ (q', code). done (code, set_obj w (some q')))
          >>= (λ (code, w'). done (code_value code, w'))
        ≡ ended w r
  ended-bind w fault = refl
  ended-bind w (done r) = refl

  retrying_parts :
      (w : World A.Queue) (obj : Option A.Queue)
      → outcome (repeat 5 (trying 4 generic_fail, set_obj w obj))
        ≡ some (push_retrying A wait (set_obj w obj) >>= λ (code, w'). done (code_value code, w'))
  unfolding push_retrying advance
  retrying_parts w none = refl
  retrying_parts w (some q) =
      loop_parts 4 generic_fail w q
      ∙ ap some (sym (ended-bind w (rounds A wait 4 w.ctx.msg.in_msg (q, generic_fail))))

  send_parts :
      (valid_msg : Bool) (w : World A.Queue)
      → outcome (repeat 6 (assembling valid_msg, w)) ≡ some (send A wait a (valid_msg, w))
  unfolding advance send
  send_parts true w = retrying_parts (assemble a w) (assemble a w).ctx.obj
  send_parts false w = refl

  staged_parts :
      (r : Run (Bool × World A.Queue)) (w : World A.Queue)
      → outcome (repeat 6 (staged w r)) ≡ some (r >>= send A wait a)
  unfolding advance
  staged_parts fault w = refl
  staged_parts (done (valid_msg, w')) w = send_parts valid_msg w'

  flag_parts :
      (exit : Bool) (w : World A.Queue)
      → outcome (repeat 7 (if exit then left (negsuc 1) else staging, w))
        ≡ some
            (if exit then done (negsuc 1, w) else stage granted a.obj a.obj_len w >>= send A wait a)
  unfolding advance
  flag_parts true w = refl
  flag_parts false w = staged_parts (stage granted a.obj a.obj_len w) w

  -- The parts of a call that nobody interrupts, one after the other, are pushMsg: after eight of
  -- them the call is at its end, with the result and the context of pushMsg, or with its fault.
  pub repeat-push_live :
      (w : World A.Queue) → outcome (repeat 8 (entering, w)) ≡ some (push_live A granted wait a w)
  unfolding advance push_live
  repeat-push_live w = flag_parts w.ctx.flag_exit w

-- Two calls on one context.
pub record Both (Queue : Type 0) : Type 0 where
  pub first : Pc
  pub second : Pc
  pub world : World Queue

abbrev pub at : {Queue : Type 0} → Pc → Pc → World Queue → Both Queue
at p1 p2 w = record { first = p1; second = p2; world = w }

module _ (A : Handler) (granted : Bool) (wait : ℕ → A.Queue → A.Queue) (a b : Args) where
  -- One part of the second call, or of the first.
  unfoldable pub turn : Bool → Both A.Queue → Both A.Queue
  turn true s =
      let r = advance A granted wait b s.second s.world in record s { second = r.0; world = r.1 }
  turn false s =
      let r = advance A granted wait a s.first s.world in record s { first = r.0; world = r.1 }

  -- The parts in this order.
  unfoldable pub play : List Bool → Both A.Queue → Both A.Queue
  play [] s = s
  play (who ∷ rest) s = play rest (turn who s)
