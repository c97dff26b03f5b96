-- ===== src/MsgQueueJni/Drain.antt =====
-- What toolbox/src/main/cpp/jni_msg_queue_handler.c owes to a message that it has accepted: the
-- queue's thread with the messages that wait.
use my_toolbox.Base.{
  ℕ, suc, Bool-cases, inl, inr, not, ◌&&◌, if◌then◌else◌, ◌^◌, ◌≡◌, refl, ◌∙◌, ap, ◌<◌, Bool, true,
  false, Option, some, List, [], ◌∷◌, ℤ, pos, arith, done, Run, ◌>>=◌, length,
}
use my_toolbox.Lcu.Handler.{Message}
use my_toolbox.MsgQueueJni.{World}
use my_toolbox.MsgQueueJni.Valid.{HasCache}
use my_toolbox.MsgQueueJni.Thread.{
  Call, Handled, grow_cache, fill_cache, fetch, load_obj, call_user, handle_queue_msg,
}
use my_toolbox.MsgQueueJni.Callback.{is_zero, Receives, handle_queue_msg-Receives}

-- A message whose payload has the size that its header says, below 2 ^ 30 bytes.
pub record IsSound (msg : Message) : Type 0 where
  pub size : ℕ
  pub header : msg.obj_len ≡ pos size
  pub small : size < 2 ^ 30
  pub bytes : length msg.obj ≡ size

unfoldable pub AllSound : List Message → Type 0
AllSound [] = Unit
AllSound (m ∷ ms) = IsSound m × AllSound ms

-- The calls give Java the messages, one each, in their order.
unfoldable pub AllReceived : List Message → List (Option Call) → Type 0
AllReceived [] [] = Unit
AllReceived [] (c ∷ cs) = 1 < 0
AllReceived (m ∷ ms) [] = 1 < 0
AllReceived (m ∷ ms) (c ∷ cs) =
    ((call : Call) × ((c ≡ some call) × ((n : ℕ) × Receives m n call))) × AllReceived ms cs

-- The messages up to the first whose callback does not answer 0, and that one.
unfoldable pub heard : (answers : ℕ → ℤ) → ℕ → List Message → List Message
heard answers i [] = []
heard answers i (m ∷ ms) =
    let later = heard answers (suc i) ms in m ∷ (if is_zero (answers i) then later else [])

unfoldable pub all_zero : (answers : ℕ → ℤ) → ℕ → List Message → Bool
all_zero answers i [] = true
all_zero answers i (m ∷ ms) = is_zero (answers i) && all_zero answers (suc i) ms

module _ {Queue : Type 0} where
  -- The queue's thread with its messages from the `i`-th on, the callback giving `answers i`. An
  -- answer other than 0 breaks the chain, as the header of the queue says.
  unfoldable pub drain :
      (answers : ℕ → ℤ) → ℕ → List Message → World Queue → Run (List (Option Call) × World Queue)
  drain answers i [] w = done ([], w)
  drain answers i (m ∷ ms) w = handle_queue_msg true (answers i) m w >>= λ h.
      let rest = drain answers (suc i) ms h.world in
      if is_zero h.ret
      then (rest >>= λ (calls, v). done (h.call ∷ calls, v))
      else done (h.call ∷ [], h.world)

  -- An open context whose thread is attached to the JVM, with its cache.
  pub record Serves (w : World Queue) : Type 0 where
    pub open_ctx : w.ctx.flag_exit ≡ false
    pub env : ℕ
    pub has_env : w.ctx.cb_data.env ≡ some env
    pub array : List ℕ
    pub cache : HasCache w.ctx.cache array

  handle_queue_msg-env :
      (user_ret : ℤ) (msg : Message) (u : World Queue) (h : Handled Queue)
      → handle_queue_msg true user_ret msg u ≡ done h
      → h.world.ctx.cb_data.env ≡ u.ctx.cb_data.env
  unfolding handle_queue_msg load_obj fetch grow_cache fill_cache call_user
  handle_queue_msg-env user_ret msg u h e = ground arith

  -- What a sound message leaves: a call, and with the answer 0 a context as able as it was.
  pub record Serving (user_ret : ℤ) (msg : Message) (u : World Queue) : Type 0 where
    pub h : Handled Queue
    pub call : Call
    pub runs : handle_queue_msg true user_ret msg u ≡ done h
    pub called : h.call ≡ some call
    pub got : (n : ℕ) × Receives msg n call
    pub ret : h.ret ≡ user_ret
    pub closed : h.world.ctx.flag_exit ≡ not (is_zero user_ret)
    pub after : is_zero user_ret ≡ true → Serves h.world

  pub handle_queue_msg-Serves :
      (user_ret : ℤ) (msg : Message) (u : World Queue)
      → Serves u
      → IsSound msg
      → Serving user_ret msg u
  handle_queue_msg-Serves user_ret msg u s m =
      let (h, c, a', runs, called, got, ret, flag, cached) =
        handle_queue_msg-Receives user_ret msg m.size u s.array s.env s.open_ctx s.has_env s.cache
          m.header m.small m.bytes in
      record {
        h = h;
        call = c;
        runs = runs;
        called = called;
        got = (m.size, got);
        ret = ret;
        closed = flag;
        after = λ zero_ret. record {
          open_ctx = flag ∙ ap not zero_ret;
          env = s.env;
          has_env = handle_queue_msg-env user_ret msg u h runs ∙ s.has_env;
          array = a';
          cache = cached;
        };
      }

  drain-cons :
      (answers : ℕ → ℤ) (i : ℕ) (m : Message) (ms : List Message) (u : World Queue)
      (d : Serving (answers i) m u) (calls : List (Option Call)) (v : World Queue)
      → is_zero (answers i) ≡ true
      → drain answers (suc i) ms d.h.world ≡ done (calls, v)
      → drain answers i (m ∷ ms) u ≡ done (d.h.call ∷ calls, v)
  unfolding drain
  drain-cons answers i m ms u d calls v zero_ret rest = rw (d.runs, d.ret, zero_ret, rest) refl

  drain-break :
      (answers : ℕ → ℤ) (i : ℕ) (m : Message) (ms : List Message) (u : World Queue)
      (d : Serving (answers i) m u)
      → is_zero (answers i) ≡ false
      → drain answers i (m ∷ ms) u ≡ done (d.h.call ∷ [], d.h.world)
  unfolding drain
  drain-break answers i m ms u d other_ret = rw (d.runs, d.ret, other_ret) refl

  pub drain-AllReceived :
      (answers : ℕ → ℤ) (i : ℕ) (ms : List Message) (u : World Queue)
      → Serves u
      → AllSound ms
      → (calls : List (Option Call)) × ((v : World Queue) × ((drain answers i ms u
              ≡ done (calls, v))
            × (AllReceived (heard answers i ms) calls
                × (v.ctx.flag_exit ≡ not (all_zero answers i ms)))))
  unfolding drain AllSound AllReceived heard all_zero
  drain-AllReceived answers i [] u s all = ([], (u, (refl, (tt, s.open_ctx))))
  drain-AllReceived answers i (m ∷ ms) u s all =
      let d = handle_queue_msg-Serves (answers i) m u s (all.0) in
      elim (Bool-cases (is_zero (answers i))) [
        | inl zero_ret ↦
            let (calls, (v, (rest, (received, flag)))) =
              drain-AllReceived answers (suc i) ms d.h.world (d.after zero_ret) (all.1) in
            (
              d.h.call ∷ calls,
              (
                v,
                (
                  drain-cons answers i m ms u d calls v zero_ret rest,
                  (rw zero_ret ((d.call, (d.called, d.got)), received), rw zero_ret flag),
                ),
              ),
            )
        | inr other_ret ↦ (
          d.h.call ∷ [],
          (
            d.h.world,
            (
              drain-break answers i m ms u d other_ret,
              (
                rw other_ret ((d.call, (d.called, d.got)), tt),
                rw other_ret (d.closed ∙ ap not other_ret),
              ),
            ),
          ),
        )
      ]
