-- ===== src/MsgQueueJni/Valid.antt =====
-- On toolbox/src/main/cpp/jni_msg_queue_handler.c.
-- The invariant of the context's message buffer and byte array cache.
use my_toolbox.Base.{
  ℕ, ◌≡◌, refl, inl, inr, Bool-cases, leb, leb→le, ◌≤◌, ◌<◌, Bool, true, some, length, List, arith,
  length-replicate,
}
use my_toolbox.MsgQueueJni.{QueueMsg, Msg, Cache, World, cleared, recreate_msg}

-- The buffer is there, and has the capacity that is noted.
pub record HasBuffer (s : Msg) (m : QueueMsg) : Type 0 where
  pub holds : s.in_msg ≡ some m
  pub fits : length m.obj ≡ s.in_obj_capacity

-- The array is there and has the capacity that is noted.
pub record HasCache (c : Cache) (a : List ℕ) : Type 0 where
  pub holds : c.j_obj ≡ some a
  pub fits : length a ≡ c.obj_capacity

module _ {Queue : Type 0} where
  -- After RECREATE_MSG with a `malloc` that succeeds the buffer has at least the wanted size.
  pub recreate_msg-HasBuffer :
      (n : ℕ) (w : World Queue) (m : QueueMsg)
      → HasBuffer w.ctx.msg m
      → (m' : QueueMsg) × HasBuffer (recreate_msg true n w).ctx.msg m' × (n ≤ length m'.obj)
  unfolding recreate_msg
  recreate_msg-HasBuffer n w m h = elim (Bool-cases (leb n w.ctx.msg.in_obj_capacity)) [
    | inl room ↦ rw room (m, h, omega (arith, leb→le n _ room, h.fits))
    | inr small ↦ rw small (
      cleared n,
      record { holds = refl; fits = length-replicate {A = ℕ} n 0 },
      omega (arith, length-replicate {A = ℕ} n 0),
    )
  ]

  -- RECREATE_MSG replaces a block by a block.
  pub recreate_msg-res :
      (n : ℕ) (w : World Queue) (m : QueueMsg)
      → HasBuffer w.ctx.msg m
      → 0 < w.res.blocks
      → (recreate_msg true n w).res ≡ w.res
  unfolding recreate_msg
  recreate_msg-res n w m h pos_blocks = ground arith

  -- It changes nothing of the context but the buffer.
  pub recreate_msg-ctx :
      (granted : Bool) (n : ℕ) (w : World Queue)
      → (recreate_msg granted n w).ctx ≡ record (w.ctx) { msg = (recreate_msg granted n w).ctx.msg }
  unfolding recreate_msg
  recreate_msg-ctx granted n w = ground arith
