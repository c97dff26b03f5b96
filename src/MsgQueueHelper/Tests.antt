-- ===== src/MsgQueueHelper/Tests.antt =====
-- On toolbox/src/main/java/com/threshold/jni/MsgQueueHandlerJni.java.
-- Runs of a Helper, and the theorems about it at concrete data.
use my_toolbox.Base.{
  ℕ, ◌≡◌, refl, Bool, true, false, Option, none, some, [], ◌∷◌, ℤ, pos, negsuc, arith, done, fault,
}
use my_toolbox.Lcu.Handler.{Code, code_value}
use my_toolbox.MsgQueueJni.{World, cleared, recreate_msg, pri_recreate_jobj_cache}
use my_toolbox.MsgQueueJni.Push.{
  Args, push_msg, push_live, send, push_retrying, rounds, stage, assemble,
}
use my_toolbox.MsgQueueJni.Push.Retry.{Log}
use my_toolbox.MsgQueueJni.Thread.{
  Call, grow_cache, fill_cache, fetch, load_obj, call_user, handle_queue_msg,
}
use my_toolbox.MsgQueueJni.Init.{init, init_context, finish, check_param, prepare, create_queue}
use my_toolbox.MsgQueueJni.Opening.{Accepts}
use my_toolbox.MsgQueueJni.Tests.{
  Bounded, bounded, bounded-IsLawful, busy, busy-Consumes, call, opened, roomy, process,
}
use my_toolbox.MsgQueueJni.Tests.Life.{answers, stop, stop_runs, letter, opened-Owns}
use my_toolbox.MsgQueueHelper.{
  Answer, returned, thrown, illegal_argument, illegal_state, Helper, of_world, handle_event,
  throws_exception, new_message, new_helper, push_native, push, close, finalize, is_too_long,
  lacks_obj,
}
use my_toolbox.MsgQueueHelper.Guards.{IsUsable}
use my_toolbox.MsgQueueHelper.Session.{Session, start, next, pushed, IsGone}
use my_toolbox.MsgQueueHelper.Sound.{IsExpected}
use my_toolbox.MsgQueueHelper.Whole.{new_helper-IsUsable, push-safe, close-safe}
use my_toolbox.MsgQueueHelper.Listener.{IsRefusal, handle_event-IsRefusal}
use my_toolbox.MsgQueueHelper.Made.{fill, wanted, new_message-push}

abbrev made_helper : Helper Bounded
made_helper = elim (new_helper bounded true answers process) [
  | done r ↦ r.1
  | fault ↦ record { handle = none; res = process }
]

constructed : new_helper bounded true answers process ≡ done (none, made_helper)
unfolding new_helper init init_context finish check_param create_queue prepare
    pri_recreate_jobj_cache recreate_msg
constructed = refl

-- A message whose length is beyond its array.
abbrev too_long : Args
too_long = record call { obj_len = pos 7 }

helper_refuses :
    push bounded true busy (some too_long) (of_world (opened roomy))
    ≡ done (thrown illegal_argument, of_world (opened roomy))
unfolding push is_too_long
helper_refuses = refl

answers-Accepts : Accepts bounded answers process 4096 3 (record { room = 4096; items = [] })
answers-Accepts = record {
  context_granted = refl;
  protocol_ver = refl;
  has_buf_size = refl;
  has_cb_field = refl;
  buf_size = refl;
  large = omega arith;
  has_cb_name = refl;
  method = refl;
  created = refl;
}

abbrev after_call : Helper Bounded
after_call = elim (push bounded true busy (some call) made_helper) [
  | done r ↦ r.1
  | fault ↦ made_helper
]

first_call : push bounded true busy (some call) made_helper ≡ done (returned (pos 0), after_call)
unfolding push push_native new_helper is_too_long lacks_obj push_msg push_live send push_retrying
    rounds stage assemble init init_context finish check_param create_queue prepare
    pri_recreate_jobj_cache
first_call = refl

session : Session bounded process made_helper after_call
session = next start (pushed busy (some call) (returned (pos 0)) busy-Consumes first_call)

new_helper-IsUsable_example :
    (w : World Bounded) × (new_helper bounded true answers process ≡ done (none, of_world w))
    × (w.ctx.flag_exit ≡ false)
    × (w.ctx.obj ≡ some (record { room = 4096; items = [] }))
    × IsUsable process w
new_helper-IsUsable_example =
    new_helper-IsUsable bounded answers process 4096 3 (record { room = 4096; items = [] })
      answers-Accepts refl

push-safe_example :
    (answer : Answer ℤ) × (h' : Helper Bounded) × (push bounded true busy (some too_long) after_call
      ≡ done (answer, h'))
    × IsExpected bounded process after_call.handle (some too_long) answer
push-safe_example =
    push-safe bounded answers process 4096 3 (record { room = 4096; items = [] }) bounded-IsLawful
      answers-Accepts refl made_helper constructed after_call session busy busy-Consumes
      (some too_long)

close-safe_example :
    IsGone bounded process (close bounded stop after_call).res
    × ((granted_later : Bool) (wait : ℕ → Bounded → Bounded) (message : Option Args)
        → push bounded granted_later wait message (close bounded stop after_call)
          ≡ done (thrown illegal_state, close bounded stop after_call))
    × ((again : World Bounded → World Bounded)
        → (close bounded again (close bounded stop after_call) ≡ close bounded stop after_call)
          × (finalize bounded again (close bounded stop after_call)
              ≡ close bounded stop after_call))
close-safe_example =
    close-safe bounded answers process 4096 3 (record { room = 4096; items = [] }) bounded-IsLawful
      answers-Accepts refl made_helper constructed after_call stop session stop_runs

-- What the callback for `letter` leaves, whose listener throws.
abbrev shut : World Bounded
shut = elim (handle_queue_msg true (negsuc 0) letter (opened roomy)) [
  | done g ↦ g.world
  | fault ↦ opened roomy
]

abbrev letter_call : Call
letter_call = record {
  what = pos 5;
  arg1 = negsuc 0;
  arg2 = pos 6;
  obj = some (11 ∷ 12 ∷ 13 ∷ 0 ∷ 0 ∷ 0 ∷ []);
  obj_len = pos 3;
}

listener_throws :
    handle_queue_msg true (negsuc 0) letter (opened roomy)
    ≡ done (record { ret = negsuc 0; world = shut; call = some letter_call })
unfolding handle_queue_msg load_obj fetch grow_cache fill_cache call_user pri_recreate_jobj_cache
listener_throws = refl

exception_caught : handle_event throws_exception ≡ some (negsuc 0)
unfolding handle_event
exception_caught = refl

handle_event-IsRefusal_example :
    (answer : Answer ℤ) × (push bounded false busy (some call) (of_world shut)
      ≡ done (answer, of_world shut))
    × IsRefusal bounded answer
handle_event-IsRefusal_example =
    handle_event-IsRefusal bounded process true throws_exception (negsuc 0) letter (opened roomy)
      (record { ret = negsuc 0; world = shut; call = some letter_call }) letter_call (of_world shut)
      exception_caught listener_throws refl (λ p. cc) start false busy (some call)

roomy-IsUsable : IsUsable process (opened roomy)
roomy-IsUsable = record {
  owns = opened-Owns roomy;
  queue = (roomy, refl);
  buffer = (cleared 4, record { holds = refl; fits = refl });
}

abbrev three : Args
three = record {
  what = pos 5;
  arg1 = pos 0;
  arg2 = negsuc 1;
  obj = some (0 ∷ 0 ∷ 0 ∷ []);
  obj_len = pos 3;
}

three_made : new_message (pos 5) (pos 0) (negsuc 1) (pos 3) ≡ returned three
unfolding new_message
three_made = refl

new_message-push_example :
    (code : Code) × (w' : World Bounded) × (q' : Bounded) × (push bounded true busy
        (some (fill (7 ∷ 8 ∷ 9 ∷ []) three))
        (of_world (opened roomy))
      ≡ done (returned (code_value code), of_world w'))
    × (w'.ctx.obj ≡ some q')
    × Log bounded (wanted (pos 5) (pos 0) (negsuc 1) (7 ∷ 8 ∷ 9 ∷ [])) roomy q' code
new_message-push_example =
    new_message-push bounded busy process (pos 5) (pos 0) (negsuc 1) (7 ∷ 8 ∷ 9 ∷ []) three
      (opened roomy) roomy bounded-IsLawful busy-Consumes roomy-IsUsable refl refl three_made
