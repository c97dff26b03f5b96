-- ===== src/MsgQueueJni/Callback.antt =====
-- On toolbox/src/main/cpp/jni_msg_queue_handler.c.
-- What the callback in Java receives, from handle_queue_msg.
use my_toolbox.Base.{
  ℕ, ◌*◌, ◌^◌, ◌≡◌, refl, ◌∙◌, ◌≤◌, ◌<◌, Bool, true, false, not, Option, none, some, List, ℤ, pos,
  negsuc, arith, done, Bool-cases, inl, inr, ltb, ◌==◌, splice, take, length, length-splice,
  length-take_of_le, length-replicate, take-append_of_length, take-length, replicate,
}
use my_toolbox.Lcu.Handler.{Message}
use my_toolbox.MsgQueueJni.{World, set_cache, pri_recreate_jobj_cache}
use my_toolbox.MsgQueueJni.Valid.{HasCache}
use my_toolbox.MsgQueueJni.Push.Staging.{payload}
use my_toolbox.MsgQueueJni.Thread.{
  Call, Handled, grow_cache, fill_cache, fetch, load_obj, call_user, handle_queue_msg,
}

-- The answer 0 of the callback.
abbrev pub is_zero : ℤ → Bool
is_zero (pos n) = n == 0
is_zero (negsuc n) = false

-- What the callback gets of a message whose payload has `n` bytes: its header, and an array that
-- begins with the payload, or null if that is empty.
pub record Receives (msg : Message) (n : ℕ) (c : Call) : Type 0 where
  pub what : c.what ≡ msg.what
  pub arg1 : c.arg1 ≡ msg.arg1
  pub arg2 : c.arg2 ≡ msg.arg2
  pub obj_len : c.obj_len ≡ msg.obj_len
  pub bytes : payload c.obj n ≡ msg.obj

module _ {Queue : Type 0} where
  grow_cache-HasCache :
      (n : ℕ) (w : World Queue) (a : List ℕ)
      → HasCache w.ctx.cache a
      → n < 2 ^ 30
      → (w' : World Queue) × (a' : List ℕ) × (grow_cache true n w ≡ done w')
        × HasCache w'.ctx.cache a'
        × (n ≤ length a')
        × (w'.ctx.flag_exit ≡ w.ctx.flag_exit)
  unfolding grow_cache pri_recreate_jobj_cache
  grow_cache-HasCache n w a h small = elim (Bool-cases (ltb w.ctx.cache.obj_capacity n)) [
    | inl big ↦ (
      pri_recreate_jobj_cache true (pos (n * 2)) w,
      replicate (n * 2) 0,
      ground arith,
      ground (arith, length-replicate {A = ℕ} (n * 2) 0),
      omega (arith, length-replicate {A = ℕ} (n * 2) 0),
      ground arith,
    )
    | inr room ↦ (w, a, ground arith, h, ground (arith, h.fits), refl)
  ]

  fill_cache-HasCache :
      (n : ℕ) (bytes : List ℕ) (w : World Queue) (a : List ℕ)
      → HasCache w.ctx.cache a
      → n ≤ length a
      → length bytes ≡ n
      → (w' : World Queue) × (a' : List ℕ) × (fill_cache n bytes w ≡ done w')
        × HasCache w'.ctx.cache a'
        × (take n a' ≡ bytes)
        × (w' ≡ set_cache w w'.ctx.cache)
  unfolding fill_cache
  fill_cache-HasCache n bytes w a h room size =
      let sent = take n bytes in
      let all : sent ≡ bytes = rw (← size) (take-length bytes) in
      let size' : length sent ≡ n = length-take_of_le n bytes (omega arith) in
      (
        set_cache w (record (w.ctx.cache) { j_obj = some (splice 0 sent a) }),
        splice 0 sent a,
        ground (arith, h.holds),
        record { holds = refl; fits = length-splice 0 sent a (omega arith) ∙ h.fits },
        take-append_of_length n sent _ size' ∙ all,
        refl,
      )

  fetch-HasCache :
      (n : ℕ) (bytes : List ℕ) (w : World Queue) (a : List ℕ)
      → HasCache w.ctx.cache a
      → n < 2 ^ 30
      → length bytes ≡ n
      → (w' : World Queue) × (a' : List ℕ) × (fetch true n bytes w ≡ done (some a', w'))
        × HasCache w'.ctx.cache a'
        × (take n a' ≡ bytes)
        × (w'.ctx.flag_exit ≡ w.ctx.flag_exit)
  unfolding fetch
  fetch-HasCache n bytes w a h small size =
      let (w1, a1, e1, h1, room, flag1) = grow_cache-HasCache n w a h small in
      let (w2, a2, e2, h2, sent, same) = fill_cache-HasCache n bytes w1 a1 h1 room size in
      (w2, a2, rw (e1, e2, h2.holds), h2, sent, ground arith)

  load_obj-HasCache :
      (msg : Message) (n : ℕ) (w : World Queue) (a : List ℕ)
      → HasCache w.ctx.cache a
      → msg.obj_len ≡ pos n
      → n < 2 ^ 30
      → length msg.obj ≡ n
      → (w' : World Queue) × (obj : Option (List ℕ)) × (a' : List ℕ) × (load_obj true msg w
          ≡ done (obj, w'))
        × HasCache w'.ctx.cache a'
        × (payload obj n ≡ msg.obj)
        × (w'.ctx.flag_exit ≡ w.ctx.flag_exit)
  unfolding load_obj
  load_obj-HasCache msg n w a h len small size = elim (Bool-cases (n == 0)) [
    | inl z ↦ (w, none, a, ground arith, h, ground arith, refl)
    | inr nz ↦
        let (w', a', e, h', sent, flag) = fetch-HasCache n msg.obj w a h small size in
        (w', some a', a', ground (arith, e), h', sent, flag)
  ]

  -- On an open context whose thread has its environment, a message of `n` bytes of payload, with
  -- `n` below 2 ^ 30, reaches Java, if `NewByteArray` succeeds: the callback is called once, with
  -- the message's header and an array that begins with the payload. Its answer is the function's
  -- result, and closes the context if it is not 0. The cache is there for the next message.
  pub handle_queue_msg-Receives :
      (user_ret : ℤ) (msg : Message) (n : ℕ) (w : World Queue) (a : List ℕ) (env : ℕ)
      → w.ctx.flag_exit ≡ false
      → w.ctx.cb_data.env ≡ some env
      → HasCache w.ctx.cache a
      → msg.obj_len ≡ pos n
      → n < 2 ^ 30
      → length msg.obj ≡ n
      → (h : Handled Queue) × (c : Call) × (a' : List ℕ) × (handle_queue_msg true user_ret msg w
          ≡ done h)
        × (h.call ≡ some c)
        × Receives msg n c
        × (h.ret ≡ user_ret)
        × (h.world.ctx.flag_exit ≡ not (is_zero user_ret))
        × HasCache h.world.ctx.cache a'
  unfolding handle_queue_msg call_user
  handle_queue_msg-Receives user_ret msg n w a env open_ctx has_env h len small size =
      let (w', obj, a', e, h', sent, flag) = load_obj-HasCache msg n w a h len small size in
      (
        call_user user_ret msg obj w',
        _,
        a',
        ground (arith, e),
        refl,
        record { what = refl; arg1 = refl; arg2 = refl; obj_len = refl; bytes = sent },
        refl,
        ground arith,
        ground (arith, h'.holds, h'.fits),
      )
