-- ===== src/MsgQueueJni.antt =====
-- toolbox/src/main/cpp/jni_msg_queue_handler.c: the context behind the Java handle, the two macros
-- that own its message buffer and the functions that own its byte array cache.
pub mod Push
pub mod Valid
pub mod Owns
pub mod Lifecycle
pub mod Release
pub mod Tests
pub mod Callback
pub mod Opening
pub mod Refused
pub mod EndToEnd
pub mod Order
pub mod Drain
pub mod Drained
pub mod Frame
pub mod Commute
pub mod Race
pub mod Init
pub mod Thread
use my_toolbox.Base.{
  ℕ, ◌+◌, ◌-◌, Bool, true, Option, none, some, List, ℤ, pos, negsuc, lt_nat, leb, if◌then◌else◌,
  replicate,
}

-- The message buffer: a queue_msg_t and the bytes allocated behind it.
pub record QueueMsg : Type 0 where
  pub what : ℤ
  pub arg1 : ℤ
  pub arg2 : ℤ
  pub obj_len : ℤ
  pub obj : List ℕ

-- `none` is NULL. A JNIEnv is known by its thread, an object by its number.
pub record CbData : Type 0 where
  pub jvm : Option ℕ
  pub env : Option ℕ
  pub attached_thread : Bool
  pub m_cls : Option ℕ
  pub m_method_id : Option ℕ
  pub m_obj : Option ℕ

-- `j_obj` is the byte array behind the global reference.
pub record Cache : Type 0 where
  pub obj_capacity : ℕ
  pub j_obj : Option (List ℕ)

pub record Msg : Type 0 where
  pub in_obj_capacity : ℕ
  pub in_msg : Option QueueMsg

-- msg_queue_jni_context_t, over the queues of the library.
pub record Context (Queue : Type 0) : Type 0 where
  pub obj : Option Queue
  pub flag_exit : Bool
  pub cb_data : CbData
  pub cache : Cache
  pub msg : Msg

-- How many of each resource the process holds: blocks of `malloc`, global references of the JVM,
-- queue handlers of the library, and native threads attached to the JVM.
pub record Resources : Type 0 where
  pub blocks : ℕ
  pub globals : ℕ
  pub handlers : ℕ
  pub attached : ℕ

-- A context in the process that owns it.
pub record World (Queue : Type 0) : Type 0 where
  pub ctx : Context Queue
  pub res : Resources

-- A buffer that `memset` has cleared.
abbrev pub cleared : ℕ → QueueMsg
cleared n = record {
  what = pos 0;
  arg1 = pos 0;
  arg2 = pos 0;
  obj_len = pos 0;
  obj = replicate n 0;
}

module _ {Queue : Type 0} where
  abbrev pub set_msg : World Queue → Msg → World Queue
  set_msg w m = record w { ctx = record (w.ctx) { msg = m } }

  abbrev pub set_in : World Queue → QueueMsg → World Queue
  set_in w m = set_msg w (record (w.ctx.msg) { in_msg = some m })

  abbrev pub set_cache : World Queue → Cache → World Queue
  set_cache w c = record w { ctx = record (w.ctx) { cache = c } }

  abbrev pub set_cb_data : World Queue → CbData → World Queue
  set_cb_data w c = record w { ctx = record (w.ctx) { cb_data = c } }

  abbrev pub set_obj : World Queue → Option Queue → World Queue
  set_obj w q = record w { ctx = record (w.ctx) { obj = q } }

  abbrev pub set_exit : World Queue → World Queue
  set_exit w = record w { ctx = record (w.ctx) { flag_exit = true } }

  abbrev pub add_blocks : ℕ → World Queue → World Queue
  add_blocks n w = record w { res = record (w.res) { blocks = w.res.blocks + n } }

  abbrev pub add_globals : ℕ → World Queue → World Queue
  add_globals n w = record w { res = record (w.res) { globals = w.res.globals + n } }

  abbrev pub free_block : World Queue → World Queue
  free_block w = record w { res = record (w.res) { blocks = w.res.blocks - 1 } }

  abbrev pub free_global : World Queue → World Queue
  free_global w = record w { res = record (w.res) { globals = w.res.globals - 1 } }

  -- CLEANUP_MSG(context, in)
  unfoldable pub cleanup_msg : World Queue → World Queue
  cleanup_msg w = elim (w.ctx.msg.in_msg) [
    | none ↦ w
    | some _ ↦ free_block (set_msg w (record { in_obj_capacity = 0; in_msg = none }))
  ]

  -- RECREATE_MSG(context, in, new_size). The flag is whether `malloc` succeeds.
  unfoldable pub recreate_msg : Bool → ℕ → World Queue → World Queue
  unfolding cleanup_msg
  recreate_msg granted new_size w =
      if leb new_size w.ctx.msg.in_obj_capacity
      then w
      else if granted
      then add_blocks 1 (
          set_msg (cleanup_msg w)
            (record { in_obj_capacity = new_size; in_msg = some (cleared new_size) }))
      else set_msg (cleanup_msg w) (record { in_obj_capacity = new_size; in_msg = none })

  unfoldable pub pri_cleanup_jobj_cache : World Queue → World Queue
  pri_cleanup_jobj_cache w = elim (w.ctx.cache.j_obj) [
    | none ↦ w
    | some _ ↦ free_global (set_cache w (record { obj_capacity = 0; j_obj = none }))
  ]

  -- The flag is whether `NewByteArray` succeeds.
  unfoldable pub pri_recreate_jobj_cache : Bool → ℤ → World Queue → World Queue
  unfolding pri_cleanup_jobj_cache
  pri_recreate_jobj_cache granted (negsuc _) w = pri_cleanup_jobj_cache w
  pri_recreate_jobj_cache granted (pos n) w =
      if lt_nat (pos n) 1
      then pri_cleanup_jobj_cache w
      else if granted
      then add_globals 1 (
          set_cache (pri_cleanup_jobj_cache w)
            (record { obj_capacity = n; j_obj = some (replicate n 0) }))
      else pri_cleanup_jobj_cache w
