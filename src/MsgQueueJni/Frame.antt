-- ===== src/MsgQueueJni/Frame.antt =====
-- On toolbox/src/main/cpp/jni_msg_queue_handler.c: which parts of the process each of its two
-- threads changes.
pub mod Pushing
pub mod Handling
use my_toolbox.Base.{
  ℕ, zero, suc, ◌*◌, ◌≡◌, refl, sym, ◌∙◌, ap, Bool, true, false, Bool-cases, inl, inr, Option,
  Option-cases, ◌⊎◌, none, some, List, ℤ, pos, negsuc, arith, leb, ◌==◌, Run, done, fault, ◌>>=◌,
  if◌then◌else◌,
}
use my_toolbox.Lcu.Handler.{Handler, Message, Code, generic_fail}
use my_toolbox.MsgQueueJni.{
  QueueMsg, World, cleanup_msg, recreate_msg, pri_recreate_jobj_cache, pri_cleanup_jobj_cache,
  set_obj,
}
use my_toolbox.MsgQueueJni.Push.{
  Args, exceeds, copy_obj, grow, stage, assemble, push_retrying, rounds, max_push_retry_count, send,
  push_live,
}
use my_toolbox.MsgQueueJni.Thread.{
  Handled, grow_cache, fill_cache, fetch, load_obj, call_user, handle_queue_msg,
}

unfoldable pub map_run {ℓ κ} : {A : Type ℓ} {B : Type κ} → (A → B) → Run A → Run B
map_run f (done a) = done (f a)
map_run f fault = fault

-- A change of the results moves through what follows, if what follows lets it.
pub bind-frame {ℓ κ} :
    {A : Type ℓ} {B : Type κ} (f : A → A) (g : B → B) (k : A → Run B) (m m' : Run A)
    → m' ≡ map_run f m
    → ((a : A) → k (f a) ≡ map_run g (k a))
    → (m' >>= k) ≡ map_run g (m >>= k)
unfolding map_run
bind-frame f g k (done a) m' e h = rw e (h a)
bind-frame f g k fault m' e h = rw e refl

pub if-frame {ℓ} :
    {A : Type ℓ} (g : A → A) (c : Bool) (x x' y y' : Run A)
    → x' ≡ map_run g x
    → y' ≡ map_run g y
    → (if c then x' else y') ≡ map_run g (if c then x else y)
if-frame g true x x' y y' e f = e
if-frame g false x x' y y' e f = f

pub bind-done {ℓ κ} :
    {A : Type ℓ} {B : Type κ} (m : Run A) (k : A → Run B) (b : B)
    → (m >>= k) ≡ done b
    → (a : A) × ((m ≡ done a) × (k a ≡ done b))
bind-done (done a) k b e = (a, (refl, e))
bind-done fault k b e = absurd (ground arith)

pub bind-map {ℓ κ} :
    {A : Type ℓ} {B : Type κ} (g : B → B) (k k' : A → Run B) (m : Run A)
    → ((a : A) → k' a ≡ map_run g (k a))
    → (m >>= k') ≡ map_run g (m >>= k)
unfolding map_run
bind-map g k k' (done a) h = h a
bind-map g k k' fault h = refl

pub ℤ-cases : (n : ℤ) → ((k : ℕ) × (n ≡ pos k)) ⊎ ((k : ℕ) × (n ≡ negsuc k))
ℤ-cases (pos k) = inl (k, refl)
ℤ-cases (negsuc k) = inr (k, refl)

module _ {Queue : Type 0} (u : World Queue) where
  -- What the queue's thread changes, as in `u`, and the rest as it is.
  abbrev pub with_thread : World Queue → World Queue
  with_thread w = record {
    ctx = record (w.ctx) { cache = u.ctx.cache };
    res = record (w.res) { globals = u.res.globals };
  }

  -- What pushMsg changes, as in `u`, and the rest as it is.
  abbrev pub with_java : World Queue → World Queue
  with_java w = record {
    ctx = record (w.ctx) { obj = u.ctx.obj; msg = u.ctx.msg };
    res = record (w.res) { blocks = u.res.blocks };
  }
