-- ===== src/MsgQueueHelper/Made.antt =====
-- On toolbox/src/main/java/com/threshold/jni/MsgQueueHandlerJni.java.
-- Messages that Java makes with the constructor of Message, and whose array it fills.
use my_toolbox.Base.{
  ℕ, ◌==◌, ◌≡◌, refl, sym, ◌∙◌, ap, true, false, ◌||◌, none, some, List, [], ◌∷◌, ℤ, pos, arith,
  done, length, take, replicate, if◌then◌else◌, take-length,
}
use mathlib.Core.Option
use my_toolbox.Lcu.Handler.{Handler, IsLawful, Message, Code, code_value}
use my_toolbox.MsgQueueJni.{Resources, World}
use my_toolbox.MsgQueueJni.Push.{Args}
use my_toolbox.MsgQueueJni.Push.Staging.{payload, requested}
use my_toolbox.MsgQueueJni.Push.Retry.{Consumes, Log}
use my_toolbox.MsgQueueJni.Push.Delivery.{push_msg-Delivered}
use my_toolbox.MsgQueueHelper.{
  Answer, returned, is_too_long, lacks_obj, of_world, new_message, push,
}
use my_toolbox.MsgQueueHelper.Guards.{IsUsable, push_native-returned, push-push_native}

-- The message with its array filled with these bytes; where it has no array it stays as it is.
abbrev pub fill : List ℕ → Args → Args
fill bytes msg = record msg { obj = Option.map (λ _. bytes) msg.obj }

-- What Java wants to send: the numbers that it gave to the constructor, and the bytes.
abbrev pub wanted : ℤ → ℤ → ℤ → List ℕ → Message
wanted what arg1 arg2 bytes = record {
  what = what;
  arg1 = arg1;
  arg2 = arg2;
  obj_len = pos (length bytes);
  obj = bytes;
}

module _ (what arg1 arg2 : ℤ) where
  -- What the constructor has made, by the length.
  record Fits (bytes : List ℕ) (msg : Args) : Type 0 where
    passes : (is_too_long (fill bytes msg) || lacks_obj (fill bytes msg)) ≡ false
    len : msg.obj_len ≡ pos (length bytes)
    sized : length bytes ≡ length (payload (fill bytes msg).obj (length bytes))
    request : requested (fill bytes msg) (length bytes) ≡ wanted what arg1 arg2 bytes

  returned-same : {R : Type 0} {x y : R} → ◌≡◌ {A = Answer R} (returned x) (returned y) → x ≡ y
  returned-same e = cc

  made : (n : ℕ) → Args
  made n = record {
    what = what;
    arg1 = arg1;
    arg2 = arg2;
    obj = if n == 0 then none else some (replicate n 0);
    obj_len = pos n;
  }

  filled_obj :
      (x : ℕ) (bytes : List ℕ)
      → Option.map (λ (_ : List ℕ). x ∷ bytes) (made (length (x ∷ bytes))).obj ≡ some (x ∷ bytes)
  unfolding made
  filled_obj x bytes = ground arith

  take_size : (bytes : List ℕ) → length (take (length bytes) bytes) ≡ length bytes
  take_size bytes = ap length (take-length bytes)

  made-Fits : (bytes : List ℕ) → Fits bytes (made (length bytes))
  unfolding is_too_long lacks_obj made
  made-Fits [] = record { passes = refl; len = refl; sized = refl; request = refl }
  made-Fits (x ∷ bytes) = record {
    passes = ground arith;
    len = refl;
    sized = rw (filled_obj x bytes) (sym (take_size (x ∷ bytes)));
    request = rw (filled_obj x bytes) (
        ap (λ b. record (wanted what arg1 arg2 (x ∷ bytes)) { obj = b }) (take-length (x ∷ bytes)));
  }

  new_message-Fits :
      (bytes : List ℕ) (msg : Args)
      → new_message what arg1 arg2 (pos (length bytes)) ≡ returned msg
      → Fits bytes msg
  unfolding new_message made
  new_message-Fits bytes msg e = rw (← returned-same e) (made-Fits bytes)

-- A message from the constructor, whose array Java fills: the Helper does not refuse it on an open
-- context that can be used. If `malloc` succeeds, its pushMsg returns a code of the queue, and the
-- queue then holds a rest of its messages and, behind them and exactly if the code is 0, the
-- message with the numbers and the bytes that Java gave.
pub new_message-push :
    (A : Handler) (wait : ℕ → A.Queue → A.Queue) (base : Resources) (what arg1 arg2 : ℤ)
    (bytes : List ℕ) (msg : Args) (w : World A.Queue) (q : A.Queue)
    → IsLawful A
    → Consumes A wait
    → IsUsable base w
    → w.ctx.flag_exit ≡ false
    → w.ctx.obj ≡ some q
    → new_message what arg1 arg2 (pos (length bytes)) ≡ returned msg
    → (code : Code) × (w' : World A.Queue) × (q' : A.Queue) × (push A true wait
          (some (fill bytes msg))
          (of_world w)
        ≡ done (returned (code_value code), of_world w'))
      × (w'.ctx.obj ≡ some q')
      × Log A (wanted what arg1 arg2 bytes) q q' code
new_message-push A wait base what arg1 arg2 bytes msg w q L consumes u open_ctx queue e =
    let f = new_message-Fits what arg1 arg2 bytes msg e in
    let (m, buffer) = u.buffer in
    let (code, w', runs, d) =
      push_msg-Delivered A wait (fill bytes msg) (length bytes) w q m L consumes (record {
        open_ctx = open_ctx;
        queue = queue;
        buffer = buffer;
        obj_len = f.len;
        sized = f.sized;
        owned = omega (arith, u.owns.blocks);
      }) in
    (
      code,
      w',
      d.queue,
      push-push_native A wait (fill bytes msg) w f.passes
          ∙ push_native-returned A wait (fill bytes msg) w w' (code_value code) runs,
      d.holds,
      rw (← f.request) d.log,
    )
