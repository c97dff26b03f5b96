-- ===== src/MsgQueueJni/Race/Unlocked.antt =====
-- On toolbox/src/main/cpp/jni_msg_queue_handler.c.
-- Two calls of pushMsg at the same time, without the lock that MsgQueueHandlerJni.java asks for.
use my_toolbox.Base.{
  ℕ, zero, suc, replicate, ◌≡◌, refl, ◌∙◌, ap, Bool, true, false, Option, some, List, [], ◌∷◌, ◌++◌,
  append_assoc, pos, arith, done, length,
}
use my_toolbox.Lcu.Handler.{Handler, IsLawful, Message, success, generic_fail}
use my_toolbox.MsgQueueJni.{QueueMsg, Context, World, set_in, set_obj}
use my_toolbox.MsgQueueJni.Valid.{HasBuffer}
use my_toolbox.MsgQueueJni.Push.{Args, message_of, stage, assemble, push_in}
use my_toolbox.MsgQueueJni.Push.Staging.{payload, requested, stage-Staged, message_of-assembled}
use my_toolbox.MsgQueueJni.Race.{
  Pc, entering, trying, left, staged, tried, advance, repeat, at, turn, play,
}

module _ (A : Handler) (wait : ℕ → A.Queue → A.Queue) where
  -- An open context with a queue and a buffer, and a call whose `obj_len` is the size of its
  -- payload.
  pub record CanSend (a : Args) (n : ℕ) (w : World A.Queue) (q : A.Queue) : Type 0 where
    pub open_ctx : w.ctx.flag_exit ≡ false
    pub queue : w.ctx.obj ≡ some q
    pub buffer : (m : QueueMsg) × HasBuffer w.ctx.msg m
    pub obj_len : a.obj_len ≡ pos n
    pub sized : n ≡ length (payload a.obj n)

  -- A context whose buffer holds this message.
  record Carries (msg : Message) (w : World A.Queue) (q : A.Queue) : Type 0 where
    carrier : QueueMsg
    open_ctx : w.ctx.flag_exit ≡ false
    queue : w.ctx.obj ≡ some q
    buffer : HasBuffer w.ctx.msg carrier
    message : message_of carrier ≡ some msg

  blocks_run :
      (a : Args) (n : ℕ) (w w1 : World A.Queue) (m1 : QueueMsg)
      → w.ctx.flag_exit ≡ false
      → a.obj_len ≡ pos n
      → stage true a.obj (pos n) w ≡ done (true, w1)
      → w1.ctx.msg.in_msg ≡ some m1
      → repeat A true wait a 3 (entering, w) ≡ (
        trying 4 generic_fail,
        set_in w1 (record m1 { what = a.what; arg1 = a.arg1; arg2 = a.arg2; obj_len = pos n }),
      )
  unfolding advance staged assemble
  blocks_run a n w w1 m1 open_ctx len runs holds = ground arith

  -- The two blocks of a call.
  blocks :
      (a : Args) (n : ℕ) (w : World A.Queue) (q : A.Queue)
      → CanSend a n w q
      → (w' : World A.Queue) × (repeat A true wait a 3 (entering, w) ≡ (trying 4 generic_fail, w'))
        × Carries (requested a n) w' q
  blocks a n w q c =
      let (m, buffer) = c.buffer in
      let (w1, m1, runs, st) = stage-Staged a.obj n w m buffer c.sized in
      let stamped : QueueMsg = record m1 {
        what = a.what;
        arg1 = a.arg1;
        arg2 = a.arg2;
        obj_len = pos n;
      } in
      let field_exit : Context A.Queue → Bool = λ x. x.flag_exit in
      let field_obj : Context A.Queue → Option A.Queue = λ x. x.obj in
      (
        set_in w1 stamped,
        blocks_run a n w w1 m1 c.open_ctx c.obj_len runs st.buffer.holds,
        record {
          carrier = stamped;
          open_ctx = ap field_exit st.same ∙ c.open_ctx;
          queue = ap field_obj st.same ∙ c.queue;
          buffer = record { holds = refl; fits = st.buffer.fits };
          message = message_of-assembled a n m1 st.room st.bytes;
        },
      )

  -- An attempt that succeeds.
  attempt :
      (a : Args) (msg : Message) (w : World A.Queue) (q : A.Queue)
      → (c : Carries msg w q) → (A.push q msg).1 ≡ success
      → advance A true wait a (trying 4 generic_fail) w
        ≡ (left (pos 0), set_obj w (some (A.push q msg).0))
  unfolding advance tried push_in
  attempt a msg w q c sent = ground (arith, c.queue, c.buffer.holds, c.message, sent)

module _ (A : Handler) (granted : Bool) (wait : ℕ → A.Queue → A.Queue) (a b : Args) where
  -- The first call, or the second, runs some parts alone.
  play-first :
      (k : ℕ) (rest : List Bool) (p1 p1' p2 : Pc) (w w' : World A.Queue)
      → repeat A granted wait a k (p1, w) ≡ (p1', w')
      → play A granted wait a b (replicate k false ++ rest) (at p1 p2 w)
        ≡ play A granted wait a b rest (at p1' p2 w')
  unfolding play turn
  play-first zero rest p1 p1' p2 w w' e = ap (λ r. play A granted wait a b rest (at r.0 p2 r.1)) e
  play-first (suc k) rest p1 p1' p2 w w' e =
      let r = advance A granted wait a p1 w in play-first k rest r.0 p1' p2 r.1 w' e

  play-second :
      (k : ℕ) (rest : List Bool) (p1 p2 p2' : Pc) (w w' : World A.Queue)
      → repeat A granted wait b k (p2, w) ≡ (p2', w')
      → play A granted wait a b (replicate k true ++ rest) (at p1 p2 w)
        ≡ play A granted wait a b rest (at p1 p2' w')
  unfolding play turn
  play-second zero rest p1 p2 p2' w w' e = ap (λ r. play A granted wait a b rest (at p1 r.0 r.1)) e
  play-second (suc k) rest p1 p2 p2' w w' e =
      let r = advance A granted wait b p2 w in play-second k rest p1 r.0 p2' r.1 w' e

-- The second call runs its blocks between the blocks and the attempt of the first.
abbrev pub overtaking : List Bool
overtaking = false ∷ false ∷ false ∷ true ∷ true ∷ true ∷ false ∷ true ∷ []

-- Two calls of pushMsg without a lock can lose a message: on an open context, with payloads of the
-- size that they say, if `malloc` succeeds and the queue takes two messages, there is an order of
-- their parts after which both have returned 0, and what the queue has got is the message of the
-- second call, twice.
pub play-twice :
    (A : Handler) (wait : ℕ → A.Queue → A.Queue) (a b : Args) (n k : ℕ) (w : World A.Queue)
    (q : A.Queue)
    → IsLawful A
    → CanSend A wait a n w q
    → b.obj_len ≡ pos k
    → k ≡ length (payload b.obj k)
    → (A.push q (requested b k)).1 ≡ success
    → (A.push (A.push q (requested b k)).0 (requested b k)).1 ≡ success
    → let s =
        play A true wait a b overtaking
          (record { first = entering; second = entering; world = w }) in
      (q' : A.Queue) × (s.first ≡ left (pos 0))
      × (s.second ≡ left (pos 0))
      × (s.world.ctx.obj ≡ some q')
      × (A.pending q' ≡ A.pending q ++ requested b k ∷ requested b k ∷ [])
unfolding play
play-twice A wait a b n k w q L c len sized sent again =
    let (w1, run_a, carries_a) = blocks A wait a n w q c in
    let cb : CanSend A wait b k w1 q = record {
      open_ctx = carries_a.open_ctx;
      queue = carries_a.queue;
      buffer = (carries_a.carrier, carries_a.buffer);
      obj_len = len;
      sized = sized;
    } in
    let (w2, run_b, carries_b) = blocks A wait b k w1 q cb in
    let q1 = (A.push q (requested b k)).0 in
    let q2 = (A.push q1 (requested b k)).0 in
    let carries_b' : Carries A wait (requested b k) (set_obj w2 (some q1)) q1 = record {
      carrier = carries_b.carrier;
      open_ctx = carries_b.open_ctx;
      queue = refl;
      buffer = carries_b.buffer;
      message = carries_b.message;
    } in
    let rest1 : List Bool = true ∷ true ∷ true ∷ false ∷ true ∷ [] in
    let rest2 : List Bool = false ∷ true ∷ [] in
    let rest3 : List Bool = true ∷ [] in
    let ends =
      play-first A true wait a b 3 rest1 entering (trying 4 generic_fail) entering w w1 run_a
      ∙ (play-second A true wait a b 3 rest2 (trying 4 generic_fail) entering
            (trying 4 generic_fail) w1 w2 run_b
          ∙ (play-first A true wait a b 1 rest3 (trying 4 generic_fail) (left (pos 0))
                (trying 4 generic_fail) w2 (set_obj w2 (some q1))
                (attempt A wait a (requested b k) w2 q carries_b sent)
              ∙ play-second A true wait a b 1 [] (left (pos 0)) (trying 4 generic_fail)
                  (left (pos 0)) (set_obj w2 (some q1)) (set_obj w2 (some q2))
                  (attempt A wait b (requested b k) (set_obj w2 (some q1)) q1 carries_b' again))) in
    rw ends (
      q2,
      refl,
      refl,
      refl,
      L.pending-push q1 (requested b k) again
          ∙ (ap (λ p. p ++ requested b k ∷ []) (L.pending-push q (requested b k) sent)
              ∙ append_assoc (A.pending q) (requested b k ∷ []) (requested b k ∷ [])),
    )
