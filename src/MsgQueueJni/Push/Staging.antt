-- ===== src/MsgQueueJni/Push/Staging.antt =====
-- On toolbox/src/main/cpp/jni_msg_queue_handler.c.
-- What the first two blocks of pushMsg leave in the message buffer.
use my_toolbox.Base.{
  ℕ, ◌*◌, ◌∙◌, length-take, ◌≡◌, refl, ◌≤◌, ◌<◌, true, false, Option, none, some, List, [], pos,
  arith, le→leb, ◌==◌, Bool-cases, inl, inr, done, take, splice, length, length-splice,
  length-take_of_le, take-append_of_length,
}
use my_toolbox.Lcu.Handler.{Message}
use my_toolbox.MsgQueueJni.{QueueMsg, World, set_in}
use my_toolbox.MsgQueueJni.Valid.{
  HasBuffer, recreate_msg-HasBuffer, recreate_msg-res, recreate_msg-ctx,
}
use my_toolbox.MsgQueueJni.Push.{Args, exceeds, copy_obj, grow, stage, message_of}

-- The bytes that `memcpy` wrote are the first bytes of the buffer.
take-splice_zero :
    (n : ℕ) (bytes buf : List ℕ)
    → n ≤ length bytes
    → take n (splice 0 (take n bytes) buf) ≡ take n bytes
take-splice_zero n bytes buf h =
    take-append_of_length n (take n bytes) _ (length-take_of_le n bytes h)

exceeds-fits : (n capacity : ℕ) {size : ℕ} → exceeds n capacity ≡ false → size ≡ capacity → n ≤ size
unfolding exceeds
exceeds-fits n capacity h e = ground arith

module _ {Queue : Type 0} (n : ℕ) (w : World Queue) (m : QueueMsg) (h : HasBuffer w.ctx.msg m) where
  -- The buffer is not smaller than the message, whether RECREATE_MSG ran or not.
  grow-HasBuffer : (m' : QueueMsg) × HasBuffer (grow true n w).ctx.msg m' × (n ≤ length m'.obj)
  unfolding grow
  grow-HasBuffer = elim (Bool-cases (exceeds n w.ctx.msg.in_obj_capacity)) [
    | inl big ↦
        rw big (let (m', h', le) = recreate_msg-HasBuffer (n * 2) w m h in (m', h', omega arith))
    | inr small ↦ rw small (m, h, exceeds-fits n _ small h.fits)
  ]

  grow-ctx : (grow true n w).ctx ≡ record (w.ctx) { msg = (grow true n w).ctx.msg }
  unfolding grow
  grow-ctx = elim (Bool-cases (exceeds n w.ctx.msg.in_obj_capacity)) [
    | inl big ↦ rw big (recreate_msg-ctx true (n * 2) w)
    | inr small ↦ rw small
  ]

  grow-res : 0 < w.res.blocks → (grow true n w).res ≡ w.res
  unfolding grow
  grow-res blocks = elim (Bool-cases (exceeds n w.ctx.msg.in_obj_capacity)) [
    | inl big ↦ rw big (recreate_msg-res (n * 2) w m h blocks)
    | inr small ↦ rw small
  ]

-- The bytes that a call asks to send.
abbrev pub payload : Option (List ℕ) → ℕ → List ℕ
payload none n = []
payload (some bytes) n = take n bytes

-- `w'` is `w` but for its message buffer `m'`, which begins with the payload.
pub record Staged {Queue : Type 0} (obj : Option (List ℕ)) (n : ℕ) (w w' : World Queue)
    (m' : QueueMsg) : Type 0 where
  pub buffer : HasBuffer w'.ctx.msg m'
  pub room : n ≤ length m'.obj
  pub bytes : take n m'.obj ≡ payload obj n
  pub same : w'.ctx ≡ record (w.ctx) { msg = w'.ctx.msg }
  pub balanced : 0 < w.res.blocks → w'.res ≡ w.res

module _ {Queue : Type 0} where
  copy_obj-Staged :
      (n : ℕ) (bytes : List ℕ) (w : World Queue) (m : QueueMsg)
      → HasBuffer w.ctx.msg m
      → n ≤ length bytes
      → n ≤ length m.obj
      → let m' = record m { obj = splice 0 (take n bytes) m.obj } in
        (copy_obj n bytes w ≡ done (true, set_in w m')) × Staged (some bytes) n w (set_in w m') m'
  unfolding copy_obj
  copy_obj-Staged n bytes w m h hb hm =
      let size : length (splice 0 (take n bytes) m.obj) ≡ length m.obj =
        length-splice 0 (take n bytes) m.obj (omega (arith, length-take_of_le n bytes hb)) in
      (
        ground (arith, h.holds),
        record {
          buffer = record { holds = refl; fits = size ∙ h.fits };
          room = omega arith;
          bytes = take-splice_zero n bytes m.obj hb;
          same = refl;
          balanced = λ _. refl;
        },
      )

  -- Nothing is copied: the buffer stays as it is.
  untouched-Staged :
      (obj : Option (List ℕ)) (n : ℕ) (w : World Queue) (m : QueueMsg)
      → HasBuffer w.ctx.msg m
      → n ≡ 0
      → [] ≡ payload obj n
      → Staged obj n w w m
  untouched-Staged obj n w m h z e = record {
    buffer = h;
    room = omega arith;
    bytes = rw z (rw z at e);
    same = refl;
    balanced = λ _. refl;
  }

  -- The copy, after the buffer has grown where it had to.
  grow-Staged :
      (n : ℕ) (bytes : List ℕ) (w : World Queue) (m : QueueMsg)
      → HasBuffer w.ctx.msg m
      → n ≤ length bytes
      → (w' : World Queue) × (m' : QueueMsg) × (copy_obj n bytes (grow true n w) ≡ done (true, w'))
        × Staged (some bytes) n w w' m'
  grow-Staged n bytes w m h hb =
      let (m', h', room) = grow-HasBuffer n w m h in
      let (runs, st) = copy_obj-Staged n bytes (grow true n w) m' h' hb room in
      (
        set_in (grow true n w) (record m' { obj = splice 0 (take n bytes) m'.obj }),
        record m' { obj = splice 0 (take n bytes) m'.obj },
        runs,
        record {
          buffer = st.buffer;
          room = st.room;
          bytes = st.bytes;
          same = ground (arith, grow-ctx n w m h);
          balanced = grow-res n w m h;
        },
      )

  -- The first block succeeds on a payload of `obj_len` bytes, if `malloc` does, and puts it in
  -- front.
  pub stage-Staged :
      (obj : Option (List ℕ)) (n : ℕ) (w : World Queue) (m : QueueMsg)
      → HasBuffer w.ctx.msg m
      → n ≡ length (payload obj n)
      → (w' : World Queue) × (m' : QueueMsg) × (stage true obj (pos n) w ≡ done (true, w'))
        × Staged obj n w w' m'
  unfolding stage
  stage-Staged none n w m h e = (w, m, refl, untouched-Staged none n w m h e refl)
  stage-Staged (some bytes) n w m h e = elim (Bool-cases (n == 0)) [
    | inl z ↦ rw z (
      w,
      m,
      refl,
      untouched-Staged (some bytes) n w m h (ground arith)
          (let z' : n ≡ 0 = ground arith in rw z' refl),
    )
    | inr nz ↦ rw nz (grow-Staged n bytes w m h (omega (arith, length-take n bytes)))
  ]

-- The message that a call asks to send, for an `obj_len` of `n`.
abbrev pub requested : Args → ℕ → Message
requested a n = record {
  what = a.what;
  arg1 = a.arg1;
  arg2 = a.arg2;
  obj_len = pos n;
  obj = payload a.obj n;
}

-- What the second block leaves is the message that the call asks to send.
pub message_of-assembled :
    (a : Args) (n : ℕ) (m : QueueMsg)
    → n ≤ length m.obj
    → take n m.obj ≡ payload a.obj n
    → message_of (record m { what = a.what; arg1 = a.arg1; arg2 = a.arg2; obj_len = pos n })
      ≡ some (requested a n)
unfolding message_of
message_of-assembled a n m room bytes = rw (le→leb n _ room, bytes)
