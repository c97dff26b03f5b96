-- ===== src/MsgQueueHelper/Sound.antt =====
-- On toolbox/src/main/java/com/threshold/jni/MsgQueueHandlerJni.java and
-- toolbox/src/main/cpp/jni_msg_queue_handler.c.
-- What Java can rely on through the whole life of a Helper.
use my_toolbox.Base.{
  ℕ, ◌≡◌, refl, sym, ◌∙◌, ◌⊎◌, inl, inr, true, false, Bool-cases, ◌||◌, Option, none, some, ℤ,
  arith, done, Run,
}
use my_toolbox.Lcu.Handler.{Handler, IsLawful}
use my_toolbox.MsgQueueJni.{Resources, Context, World}
use my_toolbox.MsgQueueJni.Push.{Args}
use my_toolbox.MsgQueueJni.Push.Retry.{Consumes}
use my_toolbox.MsgQueueHelper.{
  illegal_argument, illegal_state, Answer, returned, thrown, is_too_long, lacks_obj, Helper,
  of_world, push,
}
use my_toolbox.MsgQueueHelper.Guards.{
  IsUsable, IsAnswered, passes, push_msg-Serves, push_native-returned, push-push_native,
}
use my_toolbox.MsgQueueHelper.Session.{
  Step, pushed, closed, finalized, thread, Session, start, next, IsGone, IsSound, live, gone,
  ThreadStep-IsUsable, close-IsGone, finalize-close,
}

module _ (A : Handler) (base : Resources) where
  -- What Java sees of a call of pushMsg, by the context of the Helper.
  abbrev pub IsExpected : Option (Context A.Queue) → Option Args → Answer ℤ → Type 0
  IsExpected none message answer = answer ≡ thrown illegal_state
  IsExpected (some c) none answer = answer ≡ thrown illegal_argument
  IsExpected (some c) (some msg) answer =
      ((answer ≡ thrown illegal_argument) × ((is_too_long msg || lacks_obj msg) ≡ true))
      ⊎ (((is_too_long msg || lacks_obj msg) ≡ false)
          × ((ret : ℤ) × (answer ≡ returned ret) × IsAnswered c.flag_exit ret))

  module _ (wait : ℕ → A.Queue → A.Queue) (L : IsLawful A) (consumes : Consumes A wait) where
    abbrev pub Pushes : Option Args → Helper A.Queue → Type 0
    Pushes message h =
        (answer : Answer ℤ) × (h' : Helper A.Queue) × (push A true wait message h
          ≡ done (answer, h'))
        × IsExpected h.handle message answer
        × IsSound A base h'

    native-Pushes :
        (msg : Args) (w : World A.Queue)
        → IsUsable base w
        → (is_too_long msg || lacks_obj msg) ≡ false
        → Pushes (some msg) (of_world w)
    native-Pushes msg w u ok =
        let (ret, w', runs, u', answered) =
          push_msg-Serves A base wait msg w L consumes u
            (passes msg msg.obj msg.obj_len refl refl ok) in
        (
          returned ret,
          of_world w',
          push-push_native A wait msg w ok ∙ push_native-returned A wait msg w w' ret runs,
          inr (ok, (ret, refl, answered)),
          live w' refl u',
        )

    refused-Pushes :
        (msg : Args) (w : World A.Queue)
        → IsUsable base w
        → (is_too_long msg || lacks_obj msg) ≡ true
        → Pushes (some msg) (of_world w)
    unfolding push
    refused-Pushes msg w u bad =
        (thrown illegal_argument, of_world w, simp bad, inl (refl, bad), live w refl u)

    gone-Pushes :
        (message : Option Args) (h : Helper A.Queue)
        → h.handle ≡ none
        → IsGone A base h.res
        → Pushes message h
    unfolding push
    gone-Pushes message h e g = (thrown illegal_state, h, ground arith, rw e refl, gone e g)

    live-Pushes :
        (message : Option Args) (w : World A.Queue) → IsUsable base w → Pushes message (of_world w)
    unfolding push
    live-Pushes none w u = (thrown illegal_argument, of_world w, refl, refl, live w refl u)
    live-Pushes (some msg) w u = elim (Bool-cases (is_too_long msg || lacks_obj msg)) [
      | inl bad ↦ refused-Pushes msg w u bad
      | inr ok ↦ native-Pushes msg w u ok
    ]

    -- pushMsg of a sound Helper, whatever the message: it ends without a fault, and the Helper
    -- stays sound.
    pub push-IsExpected :
        (message : Option Args) (h : Helper A.Queue) → IsSound A base h → Pushes message h
    push-IsExpected message h (live w e u) = rw e (live-Pushes message w u)
    push-IsExpected message h (gone e g) = gone-Pushes message h e g

  same_end :
      {x x' : Answer ℤ} {y y' : Helper A.Queue}
      → ◌≡◌ {A = Run (Answer ℤ × Helper A.Queue)} (done (x, y)) (done (x', y'))
      → y ≡ y'
  same_end e = cc

  IsSound-of_world : (w : World A.Queue) → IsSound A base (of_world w) → IsUsable base w
  IsSound-of_world w (live v e u) = let same : w ≡ v = ground (arith, e) in rw same u
  IsSound-of_world w (gone e g) = absurd (ground arith)

  Step-IsSound :
      (u v : Helper A.Queue) → IsLawful A → Step A base u v → IsSound A base u → IsSound A base v
  Step-IsSound u v L (pushed wait message answer consumes e) s =
      let (answer', v', runs, expected, s') = push-IsExpected wait L consumes message u s in
      let same : v' ≡ v = same_end (sym runs ∙ e) in rw (← same) s'
  Step-IsSound u v L (closed stopping stops e) s =
      let (none_left, g) = close-IsGone A base stopping u stops s in rw e (gone none_left g)
  Step-IsSound u v L (finalized stopping stops e) s =
      let (none_left, g) = close-IsGone A base stopping u stops s in
      rw (e, finalize-close A base stopping u) (gone none_left g)
  Step-IsSound u v L (thread w w' e t f) s =
      let w_usable = IsSound-of_world w (rw (← e) s) in
      live w' f (ThreadStep-IsUsable A base w w' t w_usable)

  -- Whatever Java calls on a sound Helper, with whatever messages, and whatever the queue's thread
  -- does between those calls, the Helper is sound after it, if `malloc` succeeds.
  pub Session-IsSound :
      {h v : Helper A.Queue} → IsLawful A → Session A base h v → IsSound A base h → IsSound A base v
  Session-IsSound L start s = s
  Session-IsSound L (next {u} {v} r step) s = Step-IsSound u v L step (Session-IsSound L r s)
