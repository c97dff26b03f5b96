-- ===== src/MsgQueueJni/Tests/Race.antt =====
-- On toolbox/src/main/cpp/jni_msg_queue_handler.c.
-- The theorems about calls of pushMsg part by part, at concrete data.
use my_toolbox.Base.{◌≡◌, refl, true, none, some, [], ◌∷◌, ◌++◌, pos, done, fault}
use my_toolbox.MsgQueueJni.{World, recreate_msg, pri_recreate_jobj_cache}
use my_toolbox.MsgQueueJni.Push.{Args, push_live, stage, grow, copy_obj, exceeds}
use my_toolbox.MsgQueueJni.Push.Staging.{requested}
use my_toolbox.MsgQueueJni.Race.{Pc, entering, left, advance, staged, repeat, outcome, at, play}
use my_toolbox.MsgQueueJni.Race.Unlocked.{overtaking, play-twice}
use my_toolbox.MsgQueueJni.Race.Callbacks.{
  Mixed, begin, part, callback, beside_result, Mixed-push_live,
}
use my_toolbox.MsgQueueJni.Thread.{
  Handled, grow_cache, fill_cache, fetch, load_obj, call_user, handle_queue_msg,
}
use my_toolbox.MsgQueueJni.Tests.Life.{letter}
use my_toolbox.MsgQueueJni.Tests.{
  Bounded, bounded, bounded-IsLawful, call, busy, opened, roomy, packed,
}

-- Another call, with two bytes.
abbrev other_call : Args
other_call = record {
  what = pos 9;
  arg1 = pos 0;
  arg2 = pos 0;
  obj = some (21 ∷ 22 ∷ []);
  obj_len = pos 2;
}

-- The first call behind its first block.
abbrev behind_stage : Pc × World Bounded
behind_stage = repeat bounded true busy call 2 (entering, opened packed)

-- The callback for `letter` at this place.
abbrev heard : Handled Bounded
heard = elim (handle_queue_msg true (pos 0) letter behind_stage.1) [
  | done h ↦ h
  | fault ↦ record { ret = pos 0; world = behind_stage.1; call = none }
]

heard_runs : handle_queue_msg true (pos 0) letter behind_stage.1 ≡ done heard
unfolding advance staged stage grow recreate_msg copy_obj exceeds handle_queue_msg load_obj fetch
    grow_cache fill_cache call_user pri_recreate_jobj_cache
heard_runs = refl

abbrev at_end : Pc × World Bounded
at_end = repeat bounded true busy call 6 (behind_stage.0, heard.world)

interrupted : Mixed bounded true busy call (entering, opened packed) 8 at_end
interrupted =
    part
      (part (part (part (part (part (callback true letter heard (part (part begin)) heard_runs))))))

Mixed-push_live_example :
    outcome bounded true busy call at_end
    ≡ some (
        beside_result bounded true busy call at_end.1
          (push_live bounded true busy call (opened packed)))
Mixed-push_live_example =
    Mixed-push_live bounded true busy call (opened packed) at_end.1 at_end.0 interrupted

play-twice_example :
    let s =
      play bounded true busy call other_call overtaking (at entering entering (opened roomy)) in
    (q' : Bounded) × (s.first ≡ left (pos 0))
    × (s.second ≡ left (pos 0))
    × (s.world.ctx.obj ≡ some q')
    × (q'.items ≡ roomy.items ++ requested other_call 2 ∷ requested other_call 2 ∷ [])
play-twice_example =
    play-twice bounded busy call other_call 5 2 (opened roomy) roomy bounded-IsLawful
      (record {
        open_ctx = refl;
        queue = refl;
        buffer = (_, record { holds = refl; fits = refl });
        obj_len = refl;
        sized = refl;
      })
      refl refl refl refl
