-- ===== src/MsgQueueJni/Race/Callbacks.antt =====
-- On toolbox/src/main/cpp/jni_msg_queue_handler.c.
-- A call of pushMsg with callbacks of the queue's thread between its parts.
use my_toolbox.Base.{
  ℕ, zero, suc, ◌≡◌, refl, sym, ◌∙◌, ap, Bool, Option, none, some, ℤ, pos, arith, Run, done, fault,
}
use my_toolbox.Lcu.Handler.{
  Handler, Message, Code, success, generic_fail, null_handle, full, again, empty, buf_not_enough,
}
use my_toolbox.MsgQueueJni.{World, set_obj}
use my_toolbox.MsgQueueJni.Push.{Args, stage, push_in, push_live}
use my_toolbox.MsgQueueJni.Thread.{Handled, handle_queue_msg}
use my_toolbox.MsgQueueJni.Frame.{map_run, with_thread}
use my_toolbox.MsgQueueJni.Frame.Pushing.{stage-with_thread, assemble-with_thread}
use my_toolbox.MsgQueueJni.Frame.Handling.{handle_queue_msg-touches}
use my_toolbox.MsgQueueJni.Race.{
  Pc, entering, staging, assembling, trying, left, crashed, staged, tried, advance, repeat, outcome,
  repeat-push_live, repeat-one, some-same,
}

module _ (A : Handler) (granted : Bool) (wait : ℕ → A.Queue → A.Queue) (a : Args) where
  module _ (u : World A.Queue) where
    -- The state of a call in the process as `u` has what is the queue's thread's.
    abbrev beside : Pc × World A.Queue → Pc × World A.Queue
    beside s = (s.0, with_thread u s.1)

    staged-beside :
        (w : World A.Queue) (r : Run (Bool × World A.Queue))
        → staged A granted wait a (with_thread u w) (map_run (λ (b, v). (b, with_thread u v)) r)
          ≡ beside (staged A granted wait a w r)
    unfolding staged map_run
    staged-beside w fault = refl
    staged-beside w (done r) = refl

    tried-beside :
        (k : ℕ) (w : World A.Queue) (r : Run (A.Queue × Code))
        → tried A granted wait a k (with_thread u w) r ≡ beside (tried A granted wait a k w r)
    unfolding tried
    tried-beside k w fault = refl
    tried-beside k w (done (q, full)) = refl
    tried-beside k w (done (q, success)) = refl
    tried-beside k w (done (q, generic_fail)) = refl
    tried-beside k w (done (q, null_handle)) = refl
    tried-beside k w (done (q, again)) = refl
    tried-beside k w (done (q, empty)) = refl
    tried-beside k w (done (q, buf_not_enough)) = refl

    trying-beside :
        (k : ℕ) (code : Code) (w : World A.Queue) (obj : Option A.Queue)
        → advance A granted wait a (trying (suc k) code) (with_thread u (set_obj w obj))
          ≡ beside (advance A granted wait a (trying (suc k) code) (set_obj w obj))
    unfolding advance
    trying-beside k code w none = refl
    trying-beside k code w (some q) =
        tried-beside k (set_obj w (some q)) (push_in A q w.ctx.msg.in_msg)

    -- A part neither reads nor changes what is the queue's thread's.
    advance-beside :
        (p : Pc) (w : World A.Queue)
        → advance A granted wait a p (with_thread u w) ≡ beside (advance A granted wait a p w)
    unfolding advance
    advance-beside entering w = refl
    advance-beside staging w =
        ap (staged A granted wait a (with_thread u w))
          (stage-with_thread u granted a.obj a.obj_len w)
        ∙ staged-beside w (stage granted a.obj a.obj_len w)
    advance-beside (assembling valid_msg) w =
        ap (λ v. ((advance A granted wait a (assembling valid_msg) w).0, v))
          (assemble-with_thread u a w)
    advance-beside (trying zero code) w = refl
    advance-beside (trying (suc k) code) w = trying-beside k code w w.ctx.obj
    advance-beside (left ret) w = refl
    advance-beside crashed w = refl

  -- Parts of the call, and callbacks that answer 0 between them, whatever their messages are and
  -- whether `NewByteArray` succeeds; the number is that of the parts.
  pub data Mixed (s : Pc × World A.Queue) : ℕ → Pc × World A.Queue → Type 0 where
    begin : Mixed s 0 s
    part :
        {n : ℕ} {p : Pc} {w : World A.Queue}
        → Mixed s n (p, w)
        → Mixed s (suc n) (advance A granted wait a p w)
    callback :
        {n : ℕ} {p : Pc} {w : World A.Queue} (renewed : Bool) (msg : Message) (h : Handled A.Queue)
        → Mixed s n (p, w)
        → handle_queue_msg renewed (pos 0) msg w ≡ done h
        → Mixed s n (p, h.world)

  -- What the parts alone make of the call, but for what is the queue's thread's.
  abbrev pub IsBeside : Pc × World A.Queue → ℕ → Pc × World A.Queue → Type 0
  IsBeside s n t = t ≡ beside t.1 (repeat A granted wait a n s)

  settle : (w : World A.Queue) (t x : Pc × World A.Queue) → t ≡ beside w x → t ≡ beside t.1 x
  settle w t x e = e ∙ sym (ap (λ (v : World A.Queue). beside v x) (ap (λ r. r.1) e))

  -- It stands where its parts alone have brought it.
  Mixed-IsBeside :
      (s : Pc × World A.Queue) (n : ℕ) (t : Pc × World A.Queue) → Mixed s n t → IsBeside s n t
  Mixed-IsBeside s _ _ begin = refl
  Mixed-IsBeside s _ _ (part {n} {p} {w} m) =
      let r = repeat A granted wait a n s in
      settle w (advance A granted wait a p w) (repeat A granted wait a (suc n) s) (
        ap (λ t. advance A granted wait a t.0 t.1) (Mixed-IsBeside s n (p, w) m)
        ∙ (advance-beside w r.0 r.1 ∙ ap (beside w) (sym (repeat-one A granted wait a n s))))
  Mixed-IsBeside s _ _ (callback {n} {p} {w} renewed msg h m e) =
      ap (λ v. (p, v)) (handle_queue_msg-touches renewed msg w h e)
      ∙ ap (beside h.world) (Mixed-IsBeside s n (p, w) m)

  -- What a call gives, in the process as `v` has what is the queue's thread's.
  abbrev pub beside_result : World A.Queue → Run (ℤ × World A.Queue) → Run (ℤ × World A.Queue)
  beside_result v r = map_run (λ (ret, u). (ret, with_thread v u)) r

  outcome-beside :
      (v : World A.Queue) (p : Pc) (u : World A.Queue) (r : Run (ℤ × World A.Queue))
      → outcome A granted wait a (p, u) ≡ some r
      → outcome A granted wait a (p, with_thread v u) ≡ some (beside_result v r)
  unfolding map_run
  outcome-beside v entering u r e = absurd (ground arith)
  outcome-beside v staging u r e = absurd (ground arith)
  outcome-beside v (assembling b) u r e = absurd (ground arith)
  outcome-beside v (trying k c) u r e = absurd (ground arith)
  outcome-beside v (left ret) u r e = ap (λ x. some (beside_result v x)) (some-same e)
  outcome-beside v crashed u r e = ap (λ x. some (beside_result v x)) (some-same e)

  -- Callbacks between the parts of a call of pushMsg change nothing for it: whatever callbacks
  -- that answer 0 run in between, and whether `malloc` and `NewByteArray` succeed or not, after
  -- eight parts the call is at its end, with the result of pushMsg, or its fault. It leaves what
  -- pushMsg leaves of the process, but for the cache and the number of global references, which
  -- are as the callbacks have left them.
  pub Mixed-push_live :
      (w v : World A.Queue) (p : Pc)
      → Mixed (entering, w) 8 (p, v)
      → outcome A granted wait a (p, v) ≡ some (beside_result v (push_live A granted wait a w))
  Mixed-push_live w v p m =
      let r = repeat A granted wait a 8 (entering, w) in
      ap (outcome A granted wait a) (Mixed-IsBeside (entering, w) 8 (p, v) m)
      ∙ outcome-beside v r.0 r.1 _ (repeat-push_live A granted wait a w)
