-- ===== src/MsgQueueJni/Owns.antt =====
-- On toolbox/src/main/cpp/jni_msg_queue_handler.c.
-- Who owns what: the resources of the process are those that it had before the context was made,
-- and those that the context's fields hold.
use my_toolbox.Base.{
  ℕ, ◌+◌, ◌≡◌, ◌≤◌, Bool, true, false, Option, none, some, List, ℤ, pos, negsuc, arith, done, ◌>>=◌,
  Ensures, Ensures-bind, Ensures-if, Bool-cases, inl, inr, pos_part, ◌==◌, if◌then◌else◌,
}
use my_toolbox.Lcu.Handler.{Handler, Code, Message, Status, ready_to_go, about_to_stop, other}
use my_toolbox.MsgQueueJni.{
  Resources, World, set_exit, cleanup_msg, recreate_msg, pri_cleanup_jobj_cache,
  pri_recreate_jobj_cache,
}
use my_toolbox.MsgQueueJni.Push.{
  Args, grow, copy_obj, stage, assemble, push_retrying, send, push_live,
}
use my_toolbox.MsgQueueJni.Thread.{
  Vm, Handled, on_ready, on_stop, on_status_changed, grow_cache, fill_cache, fetch, load_obj,
  call_user, handle_queue_msg,
}

abbrev count {ℓ} : {A : Type ℓ} → Option A → ℕ
count none = 0
count (some _) = 1

abbrev flag : Bool → ℕ
flag b = if b then 1 else 0

-- The context's own block is the `1`. A thread whose detaching failed stays attached.
pub record Owns {Queue : Type 0} (base : Resources) (w : World Queue) : Type 0 where
  pub blocks : w.res.blocks ≡ base.blocks + 1 + count w.ctx.msg.in_msg
  pub globals : w.res.globals ≡ base.globals + count w.ctx.cache.j_obj + count w.ctx.cb_data.m_obj
  pub handlers : w.res.handlers ≡ base.handlers + count w.ctx.obj
  pub attached : base.attached + flag w.ctx.cb_data.attached_thread ≤ w.res.attached

module _ {Queue : Type 0} {base : Resources} {w : World Queue} (o : Owns base w) where
  pub cleanup_msg-Owns : Owns base (cleanup_msg w)
  unfolding cleanup_msg
  cleanup_msg-Owns = ground arith

  pub recreate_msg-Owns : (granted : Bool) (n : ℕ) → Owns base (recreate_msg granted n w)
  unfolding recreate_msg
  recreate_msg-Owns granted n = ground arith

  pub pri_cleanup_jobj_cache-Owns : Owns base (pri_cleanup_jobj_cache w)
  unfolding pri_cleanup_jobj_cache
  pri_cleanup_jobj_cache-Owns = ground arith

  pub pri_recreate_jobj_cache-Owns :
      (granted : Bool) (n : ℤ) → Owns base (pri_recreate_jobj_cache granted n w)
  unfolding pri_recreate_jobj_cache
  pri_recreate_jobj_cache-Owns granted (negsuc n) = ground arith
  pri_recreate_jobj_cache-Owns granted (pos n) = ground arith

  pub set_exit-Owns : Owns base (set_exit w)
  set_exit-Owns = ground arith

  on_ready-Owns : (vm : Vm) → Ensures (Owns base) (on_ready vm w)
  unfolding on_ready
  on_ready-Owns vm = ground arith

  pub on_stop-Owns : (vm : Vm) → Owns base (on_stop vm w)
  unfolding on_stop
  on_stop-Owns vm = ground arith

  pub on_status_changed-Owns :
      (s : Status) (vm : Vm) → Ensures (Owns base) (on_status_changed s vm w)
  unfolding on_status_changed
  on_status_changed-Owns ready_to_go vm = on_ready-Owns vm
  on_status_changed-Owns about_to_stop vm = on_stop-Owns vm
  on_status_changed-Owns (other n) vm = o

  grow_cache-Owns : (granted : Bool) (n : ℕ) → Ensures (Owns base) (grow_cache granted n w)
  unfolding grow_cache
  grow_cache-Owns granted n = ground arith

  fill_cache-Owns : (n : ℕ) (bytes : List ℕ) → Ensures (Owns base) (fill_cache n bytes w)
  unfolding fill_cache
  fill_cache-Owns n bytes = ground arith

  grow-Owns : (granted : Bool) (n : ℕ) → Owns base (grow granted n w)
  unfolding grow
  grow-Owns granted n = ground arith

  copy_obj-Owns :
      (n : ℕ) (bytes : List ℕ)
      → Ensures (λ (r : Bool × World Queue). Owns base r.1) (copy_obj n bytes w)
  unfolding copy_obj
  copy_obj-Owns n bytes = ground arith

  assemble-Owns : (a : Args) → Owns base (assemble a w)
  unfolding assemble
  assemble-Owns a = ground arith

  call_user-Owns :
      (user_ret : ℤ) (msg : Message) (obj : Option (List ℕ))
      → Owns base (call_user user_ret msg obj w).world
  unfolding call_user
  call_user-Owns user_ret msg obj = ground arith

module _ {Queue : Type 0} (base : Resources) (w : World Queue) (o : Owns base w) where
  fetch-Owns :
      (granted : Bool) (n : ℕ) (bytes : List ℕ)
      → Ensures (λ (r : Option (List ℕ) × World Queue). Owns base r.1) (fetch granted n bytes w)
  unfolding fetch
  fetch-Owns granted n bytes =
      Ensures-bind (Owns base) _ (grow_cache granted n w) _ (grow_cache-Owns o granted n) λ w1 o1.
        Ensures-bind (Owns base) _ (fill_cache n bytes w1) _ (fill_cache-Owns o1 n bytes)
          λ w2 o2. o2

  load_obj-Owns :
      (granted : Bool) (msg : Message)
      → Ensures (λ (r : Option (List ℕ) × World Queue). Owns base r.1) (load_obj granted msg w)
  unfolding load_obj
  load_obj-Owns granted msg = ground (arith, fetch-Owns granted (pos_part msg.obj_len) msg.obj)

  stage-Owns :
      (granted : Bool) (obj : Option (List ℕ)) (n : ℤ)
      → Ensures (λ (r : Bool × World Queue). Owns base r.1) (stage granted obj n w)
  unfolding stage
  stage-Owns granted none n = o
  stage-Owns granted (some bytes) (negsuc n) = o
  stage-Owns granted (some bytes) (pos n) = elim (Bool-cases (n == 0)) [
    | inl z ↦ rw z o
    | inr nz ↦ rw nz (copy_obj-Owns (grow-Owns o granted n) n bytes)
  ]

  pub handle_queue_msg-Owns :
      (granted : Bool) (user_ret : ℤ) (msg : Message)
      → Ensures (λ (h : Handled Queue). Owns base h.world) (handle_queue_msg granted user_ret msg w)
  unfolding handle_queue_msg
  handle_queue_msg-Owns granted user_ret msg =
      let loaded =
        Ensures-bind _ (λ (h : Handled Queue). Owns base h.world) (load_obj granted msg w)
          (λ r. done (call_user user_ret msg r.0 r.1)) (load_obj-Owns granted msg)
          (λ r o'. call_user-Owns o' user_ret msg r.0) in
      ground arith

module _ (A : Handler) (base : Resources) where
  push_retrying-Owns :
      (wait : ℕ → A.Queue → A.Queue) (w : World A.Queue)
      → Owns base w
      → Ensures (λ (r : Code × World A.Queue). Owns base r.1) (push_retrying A wait w)
  unfolding push_retrying
  push_retrying-Owns wait w o = ground arith

  -- What a call of pushMsg leaves, if it returns.
  abbrev Left : ℤ × World A.Queue → Type 0
  Left r = Owns base r.1

  send-Owns :
      (wait : ℕ → A.Queue → A.Queue) (a : Args) (r : Bool × World A.Queue)
      → Owns base r.1
      → Ensures Left (send A wait a r)
  unfolding send
  send-Owns wait a (true, w) o =
      Ensures-bind (λ (r : Code × World A.Queue). Owns base r.1) Left
        (push_retrying A wait (assemble a w)) _
        (push_retrying-Owns wait (assemble a w) (assemble-Owns o a)) (λ r o'. o')
  send-Owns wait a (false, w) o = assemble-Owns o a

  pub push_live-Owns :
      (granted : Bool) (wait : ℕ → A.Queue → A.Queue) (a : Args) (w : World A.Queue)
      → Owns base w
      → Ensures Left (push_live A granted wait a w)
  unfolding push_live
  push_live-Owns granted wait a w o =
      let staged =
        Ensures-bind (λ (r : Bool × World A.Queue). Owns base r.1) Left
          (stage granted a.obj a.obj_len w) (send A wait a)
          (stage-Owns base w o granted a.obj a.obj_len) (send-Owns wait a) in
      Ensures-if Left w.ctx.flag_exit (done (negsuc 1, w))
        (stage granted a.obj a.obj_len w >>= send A wait a) o staged
