-- ===== src/MsgQueueJni/Frame/Handling.antt =====
-- On toolbox/src/main/cpp/jni_msg_queue_handler.c.
-- handle_queue_msg neither reads nor changes what is pushMsg's.
use my_toolbox.Base.{
  ℕ, ◌*◌, ◌≡◌, refl, ap, Bool, Bool-cases, inl, inr, Option, Option-cases, List, ℤ, pos, negsuc,
  arith, ◌==◌, done,
}
use my_toolbox.Lcu.Handler.{Handler, Message}
use my_toolbox.MsgQueueJni.{World, pri_recreate_jobj_cache, pri_cleanup_jobj_cache}
use my_toolbox.MsgQueueJni.Thread.{
  Handled, grow_cache, fill_cache, fetch, load_obj, call_user, handle_queue_msg,
}
use my_toolbox.MsgQueueJni.Frame.{map_run, bind-frame, if-frame, ℤ-cases, with_thread, with_java}

module _ {Queue : Type 0} (u : World Queue) where
  fill_cache-with_java :
      (n : ℕ) (bytes : List ℕ) (w : World Queue)
      → fill_cache n bytes (with_java u w) ≡ map_run (with_java u) (fill_cache n bytes w)
  unfolding fill_cache map_run
  fill_cache-with_java n bytes w = ground arith

  pri_recreate_jobj_cache-with_java :
      (granted : Bool) (n : ℤ) (w : World Queue)
      → pri_recreate_jobj_cache granted n (with_java u w)
        ≡ (with_java u) (pri_recreate_jobj_cache granted n w)
  unfolding pri_recreate_jobj_cache
  pri_recreate_jobj_cache-with_java granted (pos n) w = ground arith
  pri_recreate_jobj_cache-with_java granted (negsuc n) w = ground arith

  grow_cache-with_java :
      (granted : Bool) (n : ℕ) (w : World Queue)
      → grow_cache granted n (with_java u w) ≡ map_run (with_java u) (grow_cache granted n w)
  unfolding grow_cache map_run
  grow_cache-with_java granted n w =
      ground (arith, pri_recreate_jobj_cache-with_java granted (pos (n * 2)) w)

  fetch-with_java :
      (granted : Bool) (n : ℕ) (bytes : List ℕ) (w : World Queue)
      → fetch granted n bytes (with_java u w)
        ≡ map_run (λ (o, v). (o, with_java u v)) (fetch granted n bytes w)
  unfolding fetch map_run
  fetch-with_java granted n bytes w =
      bind-frame (with_java u) _ _ (grow_cache granted n w) _ (grow_cache-with_java granted n w)
        (λ w1.
          bind-frame (with_java u) _ _ (fill_cache n bytes w1) _ (fill_cache-with_java n bytes w1)
            (λ w2. refl))

  load_obj-with_java :
      (granted : Bool) (msg : Message) (w : World Queue)
      → load_obj granted msg (with_java u w)
        ≡ map_run (λ (o, v). (o, with_java u v)) (load_obj granted msg w)
  unfolding load_obj map_run
  load_obj-with_java granted msg w = elim (ℤ-cases msg.obj_len) [
    | inl (n, e) ↦ rw e (elim (Bool-cases (n == 0)) [
      | inl z ↦ rw z refl
      | inr nz ↦ rw nz (fetch-with_java granted n msg.obj w)
    ])
    | inr (n, e) ↦ rw e refl
  ]

  call_user-with_java :
      (user_ret : ℤ) (msg : Message) (o : Option (List ℕ)) (w : World Queue)
      → call_user user_ret msg o (with_java u w) ≡ record (call_user user_ret msg o w) {
        world = (with_java u) (call_user user_ret msg o w).world;
      }
  unfolding call_user
  call_user-with_java (pos n) msg o w = ground arith
  call_user-with_java (negsuc n) msg o w = refl

module _ (A : Handler) (u : World A.Queue) where
  pub handle_queue_msg-with_java :
      (granted : Bool) (user_ret : ℤ) (msg : Message) (w : World A.Queue)
      → handle_queue_msg granted user_ret msg (with_java u w)
        ≡ map_run
            (λ (h : Handled A.Queue). record h { world = with_java u h.world })
            (handle_queue_msg granted user_ret msg w)
  unfolding handle_queue_msg map_run call_user
  handle_queue_msg-with_java granted user_ret msg w =
      if-frame _ w.ctx.flag_exit _ _ _ _ refl (elim (Option-cases w.ctx.cb_data.env) [
        | inl e ↦ rw e refl
        | inr (env, e) ↦ rw e (
            bind-frame (λ (o, v). (o, with_java u v)) _
              (λ (r : Option (List ℕ) × World A.Queue). done (call_user user_ret msg (r.0) (r.1)))
              (load_obj granted msg w) _ (load_obj-with_java u granted msg w)
              (λ r. ap done (call_user-with_java u user_ret msg (r.0) (r.1))))
      ])

pub handle_queue_msg-touches :
    {Queue : Type 0} (granted : Bool) (msg : Message) (w : World Queue) (h : Handled Queue)
    → handle_queue_msg granted (pos 0) msg w ≡ done h
    → h.world ≡ with_thread h.world w
unfolding handle_queue_msg load_obj fetch grow_cache fill_cache call_user pri_recreate_jobj_cache
    pri_cleanup_jobj_cache
handle_queue_msg-touches granted msg w h e = ground arith
