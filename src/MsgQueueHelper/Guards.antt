-- ===== src/MsgQueueHelper/Guards.antt =====
-- On toolbox/src/main/java/com/threshold/jni/MsgQueueHandlerJni.java.
-- The tests of the Helper's pushMsg are enough for the native pushMsg behind them.
use my_toolbox.Base.{
  ℕ, zero, ◌≡◌, refl, inl, inr, ◌≤◌, Bool, true, false, Bool-cases, ◌||◌, Option, none, some, List,
  ℤ, pos, negsuc, arith, done, length, length-take,
}
use my_toolbox.Lcu.Handler.{Handler, IsLawful, Code, code_value, generic_fail}
use my_toolbox.MsgQueueJni.{Resources, QueueMsg, World}
use my_toolbox.MsgQueueJni.Valid.{HasBuffer}
use my_toolbox.MsgQueueJni.Owns.{Owns}
use my_toolbox.MsgQueueJni.Push.{Args, push_msg, push_live, stage, send, assemble}
use my_toolbox.MsgQueueJni.Push.Staging.{payload}
use my_toolbox.MsgQueueJni.Push.Retry.{Consumes}
use my_toolbox.MsgQueueJni.Push.Delivery.{Delivered, push_msg-Delivered}
use my_toolbox.MsgQueueHelper.{is_too_long, lacks_obj, returned, of_world, push_native, push}

-- A message that the Helper lets through: no payload, all or a part of an array, or an array with
-- a negative length.
pub data Passes (msg : Args) : Type 0 where
  bare : msg.obj ≡ none → msg.obj_len ≡ pos 0 → Passes msg
  part :
      (bytes : List ℕ) (n : ℕ)
      → msg.obj ≡ some bytes
      → msg.obj_len ≡ pos n
      → n ≤ length bytes
      → Passes msg
  negative : (bytes : List ℕ) (k : ℕ) → msg.obj ≡ some bytes → msg.obj_len ≡ negsuc k → Passes msg

pub passes :
    (msg : Args) (obj : Option (List ℕ)) (len : ℤ)
    → msg.obj ≡ obj
    → msg.obj_len ≡ len
    → (is_too_long msg || lacks_obj msg) ≡ false
    → Passes msg
unfolding is_too_long lacks_obj
passes msg none (pos zero) o l e = bare o l
passes msg none (pos n) o l e = bare o (ground arith)
passes msg none (negsuc k) o l e = absurd (ground arith)
passes msg (some bytes) (pos n) o l e = part bytes n o l (ground arith)
passes msg (some bytes) (negsuc k) o l e = negative bytes k o l

-- A context that takes messages, for as long as it is open.
pub record IsUsable {Queue : Type 0} (base : Resources) (w : World Queue) : Type 0 where
  pub owns : Owns base w
  pub queue : (q : Queue) × (w.ctx.obj ≡ some q)
  pub buffer : (m : QueueMsg) × HasBuffer w.ctx.msg m

-- What the native pushMsg answers: -2 on a closed context, and a code of the queue on an open one.
abbrev pub IsAnswered : Bool → ℤ → Type 0
IsAnswered true ret = ret ≡ negsuc 1
IsAnswered false ret = (code : Code) × (ret ≡ code_value code)

assemble-IsUsable :
    {Queue : Type 0} {base : Resources} (msg : Args) (w : World Queue)
    → IsUsable base w
    → IsUsable base (assemble msg w)
unfolding assemble
assemble-IsUsable msg w u =
    let (m, buffer) = u.buffer in
    rw buffer.holds (record {
      owns =
          ground
            (arith, u.owns.blocks, u.owns.globals, u.owns.handlers, u.owns.attached, buffer.holds);
      queue = u.queue;
      buffer = (_, record { holds = refl; fits = buffer.fits });
    })

Delivered-Owns :
    (A : Handler) (base : Resources) (wait : ℕ → A.Queue → A.Queue) (msg : Args) (n : ℕ)
    (w : World A.Queue) (q : A.Queue) (code : Code) (w' : World A.Queue) (m : QueueMsg)
    → Owns base w
    → w.ctx.msg.in_msg ≡ some m
    → w.ctx.obj ≡ some q
    → Delivered A wait msg n w q code w'
    → Owns base w'
Delivered-Owns A base wait msg n w q code w' m o holds queue d =
    let (m', buffer) = d.buffer in
    ground (arith, o.blocks, o.globals, o.handlers, o.attached, d.same, d.balanced, buffer.holds)

module _ (A : Handler) (base : Resources) (wait : ℕ → A.Queue → A.Queue) (msg : Args)
    (w : World A.Queue) where
  -- The native pushMsg ends without a fault, and the context can be used as before.
  abbrev pub Serves : Type 0
  Serves =
      (ret : ℤ) × (w' : World A.Queue) × (push_msg A true wait msg (some w) ≡ done (ret, some w'))
      × IsUsable base w'
      × IsAnswered w.ctx.flag_exit ret

  closed-Serves : IsUsable base w → w.ctx.flag_exit ≡ true → Serves
  unfolding push_msg push_live
  closed-Serves u exit = (negsuc 1, w, rw exit, u, rw exit refl)

  negative-Serves :
      (bytes : List ℕ) (k : ℕ)
      → IsUsable base w
      → w.ctx.flag_exit ≡ false
      → msg.obj ≡ some bytes
      → msg.obj_len ≡ negsuc k
      → Serves
  unfolding push_msg push_live send stage assemble
  negative-Serves bytes k u open_ctx obj len =
      let (m, buffer) = u.buffer in
      (
        code_value generic_fail,
        assemble msg w,
        simp (open_ctx, obj, len),
        assemble-IsUsable msg w u,
        rw open_ctx (generic_fail, refl),
      )

  ready-Serves :
      (n : ℕ)
      → IsLawful A
      → Consumes A wait
      → IsUsable base w
      → w.ctx.flag_exit ≡ false
      → msg.obj_len ≡ pos n
      → n ≡ length (payload msg.obj n)
      → Serves
  ready-Serves n L consumes u open_ctx len sized =
      let (m, buffer) = u.buffer in
      let (q, queue) = u.queue in
      let (code, w', runs, d) = push_msg-Delivered A wait msg n w q m L consumes (record {
        open_ctx = open_ctx;
        queue = queue;
        buffer = buffer;
        obj_len = len;
        sized = sized;
        owned = omega (arith, u.owns.blocks);
      }) in
      (
        code_value code,
        w',
        runs,
        record {
          owns = Delivered-Owns A base wait msg n w q code w' m u.owns buffer.holds queue d;
          queue = (d.queue, d.holds);
          buffer = d.buffer;
        },
        simp open_ctx (code, refl),
      )

  pub push_msg-Serves : IsLawful A → Consumes A wait → IsUsable base w → Passes msg → Serves
  push_msg-Serves L consumes u p = elim (Bool-cases w.ctx.flag_exit) [
    | inl exit ↦ closed-Serves u exit
    | inr open_ctx ↦ elim p [
      | bare obj len ↦ ready-Serves 0 L consumes u open_ctx len (rw obj refl)
      | part bytes n obj len le ↦
          ready-Serves n L consumes u open_ctx len (simp obj (omega (arith, length-take n bytes)))
      | negative bytes k obj len ↦ negative-Serves bytes k u open_ctx obj len
    ]
  ]

module _ (A : Handler) (wait : ℕ → A.Queue → A.Queue) (msg : Args) where
  pub push_native-returned :
      (w w' : World A.Queue) (ret : ℤ)
      → push_msg A true wait msg (some w) ≡ done (ret, some w')
      → push_native A true wait msg w ≡ done (returned ret, of_world w')
  unfolding push_native
  push_native-returned w w' ret runs = simp runs

  pub push-push_native :
      (w : World A.Queue)
      → (is_too_long msg || lacks_obj msg) ≡ false
      → push A true wait (some msg) (of_world w) ≡ push_native A true wait msg w
  unfolding push
  push-push_native w ok = simp ok
