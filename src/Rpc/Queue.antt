-- ===== src/Rpc/Queue.antt =====
-- protocol/rpc/command_queue.rs: the worker that runs submitted commands one after the other, and
-- the task of protocol/rpc/wire.rs that passes its results on to the socket.
pub mod Laws
use fernfs.Prelude.{ℕ, Bool, true, false, Option, none, some, List, [], ◌∷◌, ◌++◌, if◌then◌else◌}
use fernfs.Io.{Error, Result, ok, err, Bytes}

pub record ResponseBuffer : Type 0 where
  pub buffer : Bytes
  pub has_content : Bool

-- `with_capacity`: the capacity is a hint for the allocator
abbrev pub new_buffer : ResponseBuffer
new_buffer = record { buffer = []; has_content = false }

unfoldable pub mark_has_content : ResponseBuffer → ResponseBuffer
mark_has_content b = record b { has_content = true }

unfoldable pub clear : ResponseBuffer → ResponseBuffer
clear b = record b { buffer = []; has_content = false }

-- `Ok(None)` asks for no reply.
abbrev pub CommandResult : Type 0
CommandResult = Result (Option ResponseBuffer)

-- What goes to the socket: the task drops a buffer that has no content, and `Ok(None)`.
unfoldable pub forward : CommandResult → List (Result Bytes)
forward (ok (some b)) = if b.has_content then ok b.buffer ∷ [] else []
forward (ok none) = []
forward (err e) = err e ∷ []

unfoldable pub forward_all : List CommandResult → List (Result Bytes)
forward_all [] = []
forward_all (r ∷ results) = forward r ++ forward_all results

-- What a processor answers, the buffer that it leaves, and the state of the server.
abbrev pub Processor : Type 0 → Type 0 → Type 0
Processor C S = C → ResponseBuffer → S → Result Bool × ResponseBuffer × S

module _ {S : Type 0} where
  -- The result of a command, and the worker's buffer after it: one that is sent is replaced.
  unfoldable pub take_result : Result Bool × ResponseBuffer × S → CommandResult × ResponseBuffer × S
  take_result (ok true, out, s) = (ok (some (mark_has_content out)), new_buffer, s)
  take_result (ok false, out, s) = (ok none, out, s)
  take_result (err e, out, s) = (err e, out, s)

module _ {C S : Type 0} where
  unfoldable pub run_command :
      Processor C S → C → ResponseBuffer → S → CommandResult × ResponseBuffer × S
  unfolding take_result
  run_command processor command out s = take_result (processor command (clear out) s)

  -- The worker's loop over the commands that are submitted; the receiver of its results stays open.
  unfoldable pub worker :
      Processor C S → List C → ResponseBuffer → S → List CommandResult × ResponseBuffer × S
  worker processor [] out s = ([], out, s)
  worker processor (c ∷ commands) out s =
      let (result, out', s') = run_command processor c out s in
      let (results, last, final) = worker processor commands out' s' in
      (result ∷ results, last, final)
