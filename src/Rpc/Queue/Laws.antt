-- ===== src/Rpc/Queue/Laws.antt =====
-- protocol/rpc/command_queue.rs: the order of results, and what a command sees of the others.
use fernfs.Prelude.{◌≡◌, refl, ap, ◌∙◌, Bool, true, false, List, [], ◌∷◌, ◌++◌}
use fernfs.Io.{Result, ok, err, Bytes}
use fernfs.Rpc.Queue.{
  ResponseBuffer, new_buffer, mark_has_content, clear, forward, forward_all, Processor, run_command,
  worker, take_result,
}

-- An independent description: each command is answered on its own, with an empty buffer, in the
-- state that the commands before it left.
abbrev pub reply_of : Result Bool × Bytes → List (Result Bytes)
reply_of (ok true, out) = ok out ∷ []
reply_of (ok false, out) = []
reply_of (err e, out) = err e ∷ []

take_result_lem :
    {S : Type 0} (r : Result Bool × ResponseBuffer × S)
    → (forward (take_result r).0 ≡ reply_of (r.0, (r.1).buffer)) × ((take_result r).2 ≡ r.2)
unfolding take_result forward mark_has_content
take_result_lem (ok true, out, s) = (refl, refl)
take_result_lem (ok false, out, s) = (refl, refl)
take_result_lem (err e, out, s) = (refl, refl)

module _ {C S : Type 0} where
  unfoldable pub serial : Processor C S → List C → S → List (Result Bytes) × S
  serial processor [] s = ([], s)
  serial processor (c ∷ commands) s =
      let (answer, out, s') = processor c new_buffer s in
      let (replies, final) = serial processor commands s' in
      (reply_of (answer, out.buffer) ++ replies, final)

  -- Whatever a processor does with its buffer, and whatever was left in the buffer before, the
  -- socket gets the replies of the commands in the order of their submission, each made in an
  -- empty buffer, and none for a command that asks for no reply.
  pub worker-serial :
      (processor : Processor C S) (commands : List C) (out : ResponseBuffer) (s : S)
      → (forward_all (worker processor commands out s).0 ≡ (serial processor commands s).0)
        × ((worker processor commands out s).2 ≡ (serial processor commands s).1)
  unfolding worker serial run_command clear forward_all
  worker-serial processor [] out s = (refl, refl)
  worker-serial processor (c ∷ commands) out s =
      let r = processor c new_buffer s in
      let here = take_result_lem r in
      let later = worker-serial processor commands (take_result r).1 (take_result r).2 in
      (
        rw here.0 (rw later.0 (rw here.1)),
        later.1 ∙ ap (λ t. (serial processor commands t).1) here.1,
      )
