-- ===== src/MsgQueueJni/Drained.antt =====
-- What toolbox/src/main/cpp/jni_msg_queue_handler.c owes to a message that it has accepted: the
-- queue's thread comes to it, and Java receives it.
use my_toolbox.Base.{
  ℕ, not, ◌≡◌, refl, sym, ◌∙◌, ap, Bool, true, Option, some, List, [], ◌∷◌, ◌++◌, ℤ, pos, done,
  length,
}
use my_toolbox.Lcu.Handler.{Handler, IsLawful, Message}
use my_toolbox.MsgQueueJni.{Context, World, set_obj}
use my_toolbox.MsgQueueJni.Push.{Args, push_msg}
use my_toolbox.MsgQueueJni.Push.Staging.{payload}
use my_toolbox.MsgQueueJni.Push.Retry.{Consumes}
use my_toolbox.MsgQueueJni.Thread.{Call, Handled, handle_queue_msg}
use my_toolbox.MsgQueueJni.Order.{
  Traffic, start, pushed, handled, Keeps, Traffic-Keeps, pushed-Delivered,
}
use my_toolbox.MsgQueueJni.Drain.{
  IsSound, AllSound, AllReceived, heard, all_zero, drain, Serves, handle_queue_msg-Serves,
  drain-AllReceived,
}

AllSound-append_right : (xs ys : List Message) → AllSound (xs ++ ys) → AllSound ys
unfolding AllSound
AllSound-append_right [] ys h = h
AllSound-append_right (x ∷ xs) ys h = AllSound-append_right xs ys (h.1)

AllSound-append_left : (xs ys : List Message) → AllSound (xs ++ ys) → AllSound xs
unfolding AllSound
AllSound-append_left [] ys h = tt
AllSound-append_left (x ∷ xs) ys h = (h.0, AllSound-append_left xs ys (h.1))

module _ (A : Handler) where
  pushed-Serves :
      {all : List Message} {u : World A.Queue} (L : IsLawful A) (wait : ℕ → A.Queue → A.Queue)
      (a : Args) (n : ℕ) (ret : ℤ) (v : World A.Queue)
      → Consumes A wait
      → a.obj_len ≡ pos n
      → n ≡ length (payload a.obj n)
      → push_msg A true wait a (some u) ≡ done (ret, some v)
      → Keeps A all u
      → Serves u
      → Serves v
  pushed-Serves {all} {u} L wait a n ret v consumes len sized e k s =
      let (code, (ret_eq, d)) = pushed-Delivered A L wait a n ret v consumes len sized e k in
      let field_exit : Context A.Queue → Bool = λ c. c.flag_exit in
      let field_env : Context A.Queue → Option ℕ = λ c. c.cb_data.env in
      let field_obj : Context A.Queue → Option (List ℕ) = λ c. c.cache.j_obj in
      let field_capacity : Context A.Queue → ℕ = λ c. c.cache.obj_capacity in
      record {
        open_ctx = ap field_exit d.same ∙ s.open_ctx;
        env = s.env;
        has_env = ap field_env d.same ∙ s.has_env;
        array = s.array;
        cache = record {
          holds = ap field_obj d.same ∙ s.cache.holds;
          fits = s.cache.fits ∙ sym (ap field_capacity d.same);
        };
      }

  -- The oldest message of the queue is one of those that were sent.
  front-IsSound :
      {all : List Message} {u : World A.Queue} (msg : Message) (q q' : A.Queue)
      → Keeps A all u
      → u.ctx.obj ≡ some q
      → A.pending q ≡ msg ∷ A.pending q'
      → AllSound all
      → IsSound msg
  unfolding AllSound
  front-IsSound {all} msg q q' k holds front sound =
      let same : k.queue ≡ q = cc in
      let order : k.gone ++ msg ∷ A.pending q' ≡ all = rw (← front, ← same) k.order in
      let rest : AllSound (msg ∷ A.pending q') =
        AllSound-append_right k.gone (msg ∷ A.pending q') (rw order sound) in
      rest.0

  handled-Serves :
      {u : World A.Queue} (msg : Message) (q' : A.Queue) (h : Handled A.Queue)
      → handle_queue_msg true (pos 0) msg (set_obj u (some q')) ≡ done h
      → Serves u
      → IsSound msg
      → Serves h.world
  handled-Serves {u} msg q' h e s sound =
      let before : Serves (set_obj u (some q')) = record {
        open_ctx = s.open_ctx;
        env = s.env;
        has_env = s.has_env;
        array = s.array;
        cache = s.cache;
      } in
      let d = handle_queue_msg-Serves (pos 0) msg (set_obj u (some q')) before sound in
      let runs = d.runs in let same : h ≡ d.h = cc in rw same (d.after refl)

  Traffic-Serves :
      {w : World A.Queue} {all : List Message} {v : World A.Queue}
      → IsLawful A
      → Keeps A [] w
      → Serves w
      → Traffic A w all v
      → AllSound all
      → Serves v
  Traffic-Serves L k s start sound = s
  Traffic-Serves L k s (pushed {v = v} wait a n ret t consumes len sized e) sound =
      pushed-Serves L wait a n ret v consumes len sized e (Traffic-Keeps A L k t)
        (Traffic-Serves L k s t (AllSound-append_left _ _ sound))
  Traffic-Serves L k s (handled msg q q' h t holds front e) sound =
      handled-Serves msg q' h e (Traffic-Serves L k s t sound)
        (front-IsSound msg q q' (Traffic-Keeps A L k t) holds front sound)

  -- Whatever calls of pushMsg and callbacks have followed one another, and whatever the callback
  -- answers from then on, the queue's thread comes to an end with the messages that wait: it
  -- calls Java once for each of them, in their order, with the message's header and payload, up
  -- to the first answer other than 0, which closes the context; if all answers are 0, every
  -- message that waits is received and the context stays open. What has left the queue before and
  -- what waits are all the messages of the calls that returned 0. At the start the context is
  -- open, attached to the JVM, and has its buffer, its cache and an empty queue; the earlier
  -- callbacks answered 0; the memory is granted; each `obj_len` is the size of its payload, below
  -- 2 ^ 30 bytes for a message that was sent.
  pub drain-Traffic :
      {w : World A.Queue} {all : List Message} {v : World A.Queue} (answers : ℕ → ℤ)
      → IsLawful A
      → Keeps A [] w
      → Serves w
      → Traffic A w all v
      → AllSound all
      → (q : A.Queue) × ((gone : List Message) × ((calls : List (Option Call)) × ((last : World
                A.Queue)
              × ((v.ctx.obj ≡ some q)
                  × ((gone ++ A.pending q ≡ all)
                      × ((drain answers 0 (A.pending q) v ≡ done (calls, last))
                          × (AllReceived (heard answers 0 (A.pending q)) calls
                              × (last.ctx.flag_exit ≡ not (all_zero answers 0 (A.pending q))))))))))
  drain-Traffic {w} {all} {v} answers L k s t sound =
      let kept = Traffic-Keeps A L k t in
      let waiting : AllSound (A.pending kept.queue) =
        AllSound-append_right kept.gone (A.pending kept.queue) (rw kept.order sound) in
      let (calls, (last, (runs, (received, flag)))) =
        drain-AllReceived answers 0 (A.pending kept.queue) v (Traffic-Serves L k s t sound)
          waiting in
      (
        kept.queue,
        (kept.gone, (calls, (last, (kept.holds, (kept.order, (runs, (received, flag))))))),
      )
