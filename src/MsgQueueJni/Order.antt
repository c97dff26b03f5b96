-- ===== src/MsgQueueJni/Order.antt =====
-- The order in which messages pass toolbox/src/main/cpp/jni_msg_queue_handler.c: calls of pushMsg
-- and of the callback in any order, for as long as the callback answers 0.
use my_toolbox.Base.{
  ℕ, zero, ◌≡◌, refl, sym, ◌∙◌, ◌<◌, true, false, Option, some, List, [], ◌∷◌, ◌++◌, append_assoc,
  ℤ, pos, arith, done, Run, length,
}
use my_toolbox.Lcu.Handler.{Handler, IsLawful, Message, Code, success, code_value}
use my_toolbox.MsgQueueJni.{QueueMsg, World, set_obj}
use my_toolbox.MsgQueueJni.Valid.{HasBuffer}
use my_toolbox.MsgQueueJni.Push.{Args, push_msg}
use my_toolbox.MsgQueueJni.Push.Staging.{payload, requested}
use my_toolbox.MsgQueueJni.Push.Retry.{Consumes, sent}
use my_toolbox.MsgQueueJni.Push.Delivery.{IsReady, Delivered, push_msg-Delivered}
use my_toolbox.MsgQueueJni.Thread.{
  Handled, grow_cache, fill_cache, fetch, load_obj, call_user, handle_queue_msg,
}

-- The messages that a call of pushMsg with this result has sent.
abbrev pub accepted : ℤ → Message → List Message
accepted (pos zero) msg = msg ∷ []
accepted ret msg = []

module _ (A : Handler) where
  -- `all` are the messages of the calls of pushMsg that have returned 0 since `w`, the first one
  -- first. The queue's thread takes the oldest message of the queue.
  pub data Traffic (w : World A.Queue) : List Message → World A.Queue → Type 0 where
    start : Traffic w [] w
    pushed :
        {all : List Message} {u v : World A.Queue} (wait : ℕ → A.Queue → A.Queue) (a : Args) (n : ℕ)
        (ret : ℤ)
        → Traffic w all u
        → Consumes A wait
        → a.obj_len ≡ pos n
        → n ≡ length (payload a.obj n)
        → push_msg A true wait a (some u) ≡ done (ret, some v)
        → Traffic w (all ++ accepted ret (requested a n)) v
    handled :
        {all : List Message} {u : World A.Queue} (msg : Message) (q q' : A.Queue)
        (h : Handled A.Queue)
        → Traffic w all u
        → u.ctx.obj ≡ some q
        → A.pending q ≡ msg ∷ A.pending q'
        → handle_queue_msg true (pos 0) msg (set_obj u (some q')) ≡ done h
        → Traffic w all h.world

  -- An open context with a buffer, whose queue holds the messages `all` but for the first ones.
  pub record Keeps (all : List Message) (v : World A.Queue) : Type 0 where
    pub queue : A.Queue
    pub holds : v.ctx.obj ≡ some queue
    pub gone : List Message
    pub order : gone ++ A.pending queue ≡ all
    pub open_ctx : v.ctx.flag_exit ≡ false
    pub buffer : (m : QueueMsg) × HasBuffer v.ctx.msg m
    pub owned : 0 < v.res.blocks

  accepted-sent : (c : Code) (msg : Message) → accepted (code_value c) msg ≡ sent c msg
  accepted-sent success msg = refl
  accepted-sent c msg = ground arith

  chain :
      (gone taken kept last before all : List Message)
      → taken ++ kept ≡ before
      → gone ++ before ≡ all
      → (gone ++ taken) ++ (kept ++ last) ≡ all ++ last
  chain gone taken kept last before all e f = rw (← f, ← e) (simp append_assoc)

  Delivered-Keeps :
      {all : List Message} {u : World A.Queue} (k : Keeps all u) (wait : ℕ → A.Queue → A.Queue)
      (a : Args) (n : ℕ) (code : Code) (v : World A.Queue)
      → Delivered A wait a n u k.queue code v
      → Keeps (all ++ accepted (code_value code) (requested a n)) v
  Delivered-Keeps {all} {u} k wait a n code v d = record {
    queue = d.queue;
    holds = d.holds;
    gone = k.gone ++ d.log.taken;
    order =
        rw (accepted-sent code (requested a n), d.log.after)
          (chain k.gone d.log.taken d.log.kept (sent code (requested a n)) (A.pending k.queue) all
            d.log.before k.order);
    open_ctx = ground (arith, d.same, k.open_ctx);
    buffer = d.buffer;
    owned = ground (arith, d.balanced, k.owned);
  }

  same_end :
      {x x' : ℤ} {y y' : World A.Queue}
      → ◌≡◌ {A = Run (ℤ × Option (World A.Queue))} (done (x, some y)) (done (x', some y'))
      → (x ≡ x') × (y ≡ y')
  same_end e = (cc, cc)

  -- What a call of pushMsg leaves of such a context.
  pub pushed-Delivered :
      {all : List Message} {u : World A.Queue} (L : IsLawful A) (wait : ℕ → A.Queue → A.Queue)
      (a : Args) (n : ℕ) (ret : ℤ) (v : World A.Queue)
      → Consumes A wait
      → a.obj_len ≡ pos n
      → n ≡ length (payload a.obj n)
      → push_msg A true wait a (some u) ≡ done (ret, some v)
      → (k : Keeps all u)
      → (code : Code) × ((ret ≡ code_value code) × Delivered A wait a n u k.queue code v)
  pushed-Delivered {all} {u} L wait a n ret v consumes len sized e k =
      let (m, buffer) = k.buffer in
      let r : IsReady A wait a n u k.queue m = record {
        open_ctx = k.open_ctx;
        queue = k.holds;
        buffer = buffer;
        obj_len = len;
        sized = sized;
        owned = k.owned;
      } in
      let (code, w', runs, d) = push_msg-Delivered A wait a n u k.queue m L consumes r in
      let (ret_eq, v_eq) = same_end (sym e ∙ runs) in (code, (ret_eq, rw v_eq d))

  pushed-Keeps :
      {all : List Message} {u : World A.Queue} (L : IsLawful A) (wait : ℕ → A.Queue → A.Queue)
      (a : Args) (n : ℕ) (ret : ℤ) (v : World A.Queue)
      → Consumes A wait
      → a.obj_len ≡ pos n
      → n ≡ length (payload a.obj n)
      → push_msg A true wait a (some u) ≡ done (ret, some v)
      → Keeps all u
      → Keeps (all ++ accepted ret (requested a n)) v
  pushed-Keeps {all} {u} L wait a n ret v consumes len sized e k =
      let (code, (ret_eq, d)) = pushed-Delivered L wait a n ret v consumes len sized e k in
      rw ret_eq (Delivered-Keeps k wait a n code v d)

  -- What a call of handle_queue_msg with the answer 0 leaves.
  record Spares (u v : World A.Queue) : Type 0 where
    obj : v.ctx.obj ≡ u.ctx.obj
    msg : v.ctx.msg ≡ u.ctx.msg
    flag_exit : v.ctx.flag_exit ≡ u.ctx.flag_exit
    blocks : v.res.blocks ≡ u.res.blocks

  handle_queue_msg-Spares :
      (msg : Message) (u : World A.Queue) (h : Handled A.Queue)
      → handle_queue_msg true (pos 0) msg u ≡ done h
      → Spares u h.world
  unfolding handle_queue_msg load_obj fetch grow_cache fill_cache call_user
  handle_queue_msg-Spares msg u h e = ground arith

  handled-Keeps :
      {all : List Message} {u : World A.Queue} (msg : Message) (q q' : A.Queue)
      (h : Handled A.Queue)
      → u.ctx.obj ≡ some q
      → A.pending q ≡ msg ∷ A.pending q'
      → handle_queue_msg true (pos 0) msg (set_obj u (some q')) ≡ done h
      → Keeps all u
      → Keeps all h.world
  handled-Keeps {all} {u} msg q q' h holds front e k =
      let s = handle_queue_msg-Spares msg (set_obj u (some q')) h e in
      let same : k.queue ≡ q = cc in
      let (m, buffer) = k.buffer in
      record {
        queue = q';
        holds = s.obj;
        gone = k.gone ++ msg ∷ [];
        order = append_assoc k.gone (msg ∷ []) (A.pending q') ∙ (rw (← front, ← same) k.order);
        open_ctx = s.flag_exit ∙ k.open_ctx;
        buffer = (m, ground (arith, s.msg, buffer.holds, buffer.fits));
        owned = ground (arith, s.blocks, k.owned);
      }

  -- However calls of pushMsg and callbacks that answer 0 follow one another on an open context
  -- with an empty queue, if `malloc` and `NewByteArray` succeed and each `obj_len` is the size of
  -- its payload: what is in the queue are the last messages of the calls that returned 0, in the
  -- order of the calls.
  pub Traffic-Keeps :
      {w : World A.Queue} {all : List Message} {v : World A.Queue}
      → IsLawful A
      → Keeps [] w
      → Traffic w all v
      → Keeps all v
  Traffic-Keeps L k start = k
  Traffic-Keeps L k (pushed {v = v} wait a n ret t consumes len sized e) =
      pushed-Keeps L wait a n ret v consumes len sized e (Traffic-Keeps L k t)
  Traffic-Keeps L k (handled msg q q' h t holds front e) =
      handled-Keeps msg q q' h holds front e (Traffic-Keeps L k t)
