-- ===== src/Tests/Tracker.antt =====
-- A call that comes twice while it runs, one whose reply is replayed, and one whose reply is old.
use fernfs.Prelude.{◌≡◌, refl, [], ◌∷◌, arith}
use fernfs.Prelude.HashMap.{get}
use fernfs.Rpc.Tracker.{completed, in_progress, new, tidy, check, record_response}
use fernfs.Rpc.Tracker.Keys.{Key}
use fernfs.Rpc.Tracker.Trace.{check_op, run, at_most_once}
use fernfs.Rpc.Tracker.Replay.{replays_recorded}
use fernfs.Tests.Demo.{key, tracker_with}

abbrev other : Key
other = record { xid = 8; client_addr = "10.0.0.8:700" }

answers_new : (check (tracker_with []) key 5).0 ≡ new
unfolding check get tidy
answers_new = refl

at_most_once_example :
    (check
      (run (check (tracker_with []) key 5).1 (check_op other 6 ∷ check_op key 7 ∷ []))
      key
      900).0
    ≡ in_progress
at_most_once_example =
    at_most_once (tracker_with []) key 5 900 (check_op other 6 ∷ check_op key 7 ∷ []) tt answers_new
      (tt, (tt, tt))

replays_recorded_example :
    (check
      (run
        (record_response (tracker_with []) key (1 ∷ 2 ∷ []) 50)
        (check_op other 60 ∷ check_op key 70 ∷ []))
      key
      150).0
    ≡ completed (1 ∷ 2 ∷ [])
replays_recorded_example =
    replays_recorded (tracker_with []) key (1 ∷ 2 ∷ []) 50 150
      (check_op other 60 ∷ check_op key 70 ∷ []) tt (omega arith) (omega arith) (omega arith)
