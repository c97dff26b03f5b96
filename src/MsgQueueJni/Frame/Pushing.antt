-- ===== src/MsgQueueJni/Frame/Pushing.antt =====
-- On toolbox/src/main/cpp/jni_msg_queue_handler.c.
-- pushMsg neither reads nor changes what is the queue's thread's.
use my_toolbox.Base.{
  ℕ, ◌*◌, ◌≡◌, refl, ◌∙◌, ap, Bool, true, false, Bool-cases, inl, inr, Option, Option-cases, none,
  some, List, ℤ, pos, negsuc, arith, ◌==◌, done,
}
use my_toolbox.Lcu.Handler.{Handler, Code, generic_fail}
use my_toolbox.MsgQueueJni.{World, cleanup_msg, recreate_msg}
use my_toolbox.MsgQueueJni.Push.{
  Args, exceeds, copy_obj, grow, stage, assemble, push_retrying, rounds, max_push_retry_count, send,
  push_live,
}
use my_toolbox.MsgQueueJni.Frame.{
  map_run, bind-frame, if-frame, bind-done, bind-map, with_thread, with_java,
}

module _ {Queue : Type 0} (u : World Queue) where
  cleanup_msg-with_thread :
      (w : World Queue) → cleanup_msg (with_thread u w) ≡ (with_thread u) (cleanup_msg w)
  unfolding cleanup_msg
  cleanup_msg-with_thread w = ground arith

  recreate_msg-with_thread :
      (granted : Bool) (n : ℕ) (w : World Queue)
      → recreate_msg granted n (with_thread u w) ≡ with_thread u (recreate_msg granted n w)
  unfolding recreate_msg
  recreate_msg-with_thread granted n w = ground arith

  grow-with_thread :
      (granted : Bool) (n : ℕ) (w : World Queue)
      → grow granted n (with_thread u w) ≡ (with_thread u) (grow granted n w)
  unfolding grow
  grow-with_thread granted n w = elim (Bool-cases (exceeds n w.ctx.msg.in_obj_capacity)) [
    | inl big ↦ rw big (recreate_msg-with_thread granted (n * 2) w)
    | inr small ↦ rw small refl
  ]

  copy_obj-with_thread :
      (n : ℕ) (bytes : List ℕ) (w : World Queue)
      → copy_obj n bytes (with_thread u w)
        ≡ map_run (λ (b, v). (b, with_thread u v)) (copy_obj n bytes w)
  unfolding copy_obj map_run
  copy_obj-with_thread n bytes w = ground arith

  pub stage-with_thread :
      (granted : Bool) (obj : Option (List ℕ)) (obj_len : ℤ) (w : World Queue)
      → stage granted obj obj_len (with_thread u w)
        ≡ map_run (λ (b, v). (b, with_thread u v)) (stage granted obj obj_len w)
  unfolding stage map_run
  stage-with_thread granted none obj_len w = refl
  stage-with_thread granted (some bytes) (negsuc k) w = refl
  stage-with_thread granted (some bytes) (pos n) w = elim (Bool-cases (n == 0)) [
    | inl z ↦ rw z refl
    | inr nz ↦
        rw (nz, grow-with_thread granted n w) (copy_obj-with_thread n bytes (grow granted n w))
  ]

  pub assemble-with_thread :
      (a : Args) (w : World Queue) → assemble a (with_thread u w) ≡ (with_thread u) (assemble a w)
  unfolding assemble
  assemble-with_thread a w = ground arith

module _ (A : Handler) (u : World A.Queue) where
  push_retrying-with_thread :
      (wait : ℕ → A.Queue → A.Queue) (w : World A.Queue)
      → push_retrying A wait (with_thread u w)
        ≡ map_run (λ (c, v). (c, with_thread u v)) (push_retrying A wait w)
  unfolding push_retrying map_run
  push_retrying-with_thread wait w = elim (Option-cases w.ctx.obj) [
    | inl e ↦ rw e refl
    | inr (q, e) ↦ rw e (
        bind-map _ _ _ (rounds A wait max_push_retry_count w.ctx.msg.in_msg (q, generic_fail))
          (λ r. refl))
  ]

  send-with_thread :
      (wait : ℕ → A.Queue → A.Queue) (a : Args) (valid : Bool) (w : World A.Queue)
      → send A wait a (valid, with_thread u w)
        ≡ map_run (λ (c, v). (c, with_thread u v)) (send A wait a (valid, w))
  unfolding send map_run
  send-with_thread wait a false w = rw (assemble-with_thread u a w) refl
  send-with_thread wait a true w = rw (assemble-with_thread u a w) (
      bind-frame (λ (c, v). (c, with_thread u v)) _ _ (push_retrying A wait (assemble a w)) _
        (push_retrying-with_thread wait (assemble a w)) (λ r. refl))

  pub push_live-with_thread :
      (granted : Bool) (wait : ℕ → A.Queue → A.Queue) (a : Args) (w : World A.Queue)
      → push_live A granted wait a (with_thread u w)
        ≡ map_run (λ (c, v). (c, with_thread u v)) (push_live A granted wait a w)
  unfolding push_live map_run
  push_live-with_thread granted wait a w =
      if-frame (λ (c, v). (c, with_thread u v)) w.ctx.flag_exit _ _ _ _ refl
        (bind-frame (λ (b, v). (b, with_thread u v)) _ (send A wait a)
          (stage granted a.obj a.obj_len w) _ (stage-with_thread u granted a.obj a.obj_len w)
          (λ r. send-with_thread wait a (r.0) (r.1)))

stage-touches :
    {Queue : Type 0} (granted : Bool) (obj : Option (List ℕ)) (obj_len : ℤ) (w v : World Queue)
    (b : Bool)
    → stage granted obj obj_len w ≡ done (b, v)
    → v ≡ with_java v w
unfolding stage grow copy_obj recreate_msg cleanup_msg
stage-touches granted obj obj_len w v b e = ground arith

touches_trans :
    {Queue : Type 0} (w v u : World Queue)
    → v ≡ with_java v w
    → u ≡ with_java u v
    → u ≡ with_java u w
touches_trans w v u first second = second ∙ ap (with_java u) first

module _ (A : Handler) where
  push_retrying-touches :
      (wait : ℕ → A.Queue → A.Queue) (w : World A.Queue) (r : Code × World A.Queue)
      → push_retrying A wait w ≡ done r
      → r.1 ≡ with_java (r.1) w
  unfolding push_retrying
  push_retrying-touches wait w r e = ground arith

  assemble-touches : (a : Args) (w : World A.Queue) → assemble a w ≡ with_java (assemble a w) w
  unfolding assemble
  assemble-touches a w = ground arith

  send-touches :
      (wait : ℕ → A.Queue → A.Queue) (a : Args) (valid : Bool) (w : World A.Queue)
      (r : ℤ × World A.Queue)
      → send A wait a (valid, w) ≡ done r
      → r.1 ≡ with_java (r.1) w
  unfolding send
  send-touches wait a false w r e = let same = assemble-touches a w in ground (arith, same)
  send-touches wait a true w r e =
      let (s, (runs, out)) = bind-done (push_retrying A wait (assemble a w)) _ r e in
      let one = push_retrying-touches wait (assemble a w) s runs in
      let last : s.1 ≡ r.1 = cc in
      rw (← last) (touches_trans w (assemble a w) (s.1) (assemble-touches a w) one)

  pub push_live-touches :
      (granted : Bool) (wait : ℕ → A.Queue → A.Queue) (a : Args) (w : World A.Queue)
      (r : ℤ × World A.Queue)
      → push_live A granted wait a w ≡ done r
      → r.1 ≡ with_java (r.1) w
  unfolding push_live
  push_live-touches granted wait a w r e = elim (Bool-cases w.ctx.flag_exit) [
    | inl closed ↦ ground arith
    | inr open_ctx ↦
        let (s, (runs, out)) =
          bind-done (stage granted a.obj a.obj_len w) (send A wait a) r (ground arith) in
        touches_trans w (s.1) (r.1) (stage-touches granted a.obj a.obj_len w (s.1) (s.0) runs)
          (send-touches wait a (s.0) (s.1) r out)
  ]
