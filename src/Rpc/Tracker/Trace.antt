-- ===== src/Rpc/Tracker/Trace.antt =====
-- Sequences of calls of the tracker's methods, by any clients and connections.
use fernfs.Prelude.{ℕ, ◌≡◌, ◌∙◌, refl, false, some, List, [], ◌∷◌, arith, All, Bool-cases, inl, inr}
use fernfs.Prelude.HashMap.{get-insert, get-remove}
use fernfs.Io.{Bytes}
use fernfs.Rpc.Tracker.Keys.{Key, key_eq, key_beq, key_beq_iff}
use fernfs.Rpc.Tracker.{
  TransactionTracker, in_progress, completed, new, is_kept, check, record_response, clear,
}
use fernfs.Rpc.Tracker.Laws.{
  IsValid, entry, check-IsValid, record_response-IsValid, clear-IsValid, entry-check_ne, tidy_keeps,
  check-in_progress, check_answers_new,
}

pub data Op : Type 0 where
  check_op : Key → ℕ → Op
  record_op : Key → Bytes → ℕ → Op
  clear_op : Key → Op

unfoldable pub apply : TransactionTracker → Op → TransactionTracker
apply t (check_op key now) = (check t key now).1
apply t (record_op key r now) = record_response t key r now
apply t (clear_op key) = clear t key

unfoldable pub run : TransactionTracker → List Op → TransactionTracker
run t [] = t
run t (op ∷ ops) = run (apply t op) ops

pub apply-IsValid : (t : TransactionTracker) (op : Op) → IsValid t → IsValid (apply t op)
unfolding apply
apply-IsValid t (check_op key now) h = check-IsValid t key now h
apply-IsValid t (record_op key r now) h = record_response-IsValid t key r now h
apply-IsValid t (clear_op key) h = clear-IsValid t key h

-- Every reachable tracker stores a key once.
pub run-IsValid : (t : TransactionTracker) (ops : List Op) → IsValid t → IsValid (run t ops)
unfolding run
run-IsValid t [] h = h
run-IsValid t (op ∷ ops) h = run-IsValid (apply t op) ops (apply-IsValid t op h)

-- The method neither completes nor clears the call `key`.
abbrev pub Leaves : Key → Op → Type 0
Leaves key (check_op j now) = Unit {0}
Leaves key (record_op j r now) = key_beq j key ≡ false
Leaves key (clear_op j) = key_beq j key ≡ false

check_keeps_in_progress :
    (t : TransactionTracker) (key j : Key) (now : ℕ)
    → IsValid t
    → entry t key ≡ some in_progress
    → entry (check t j now).1 key ≡ some in_progress
check_keeps_in_progress t key j now h e = elim (Bool-cases (key_beq j key)) [
  | inl same ↦ rw ((key_beq_iff j key).0 same) (check-in_progress t key now h e).1
  | inr other ↦
      entry-check_ne t j key now other
      ∙ (unfold is_kept in tidy_keeps t key now in_progress h e refl)
]

apply_keeps_in_progress :
    (t : TransactionTracker) (key : Key) (op : Op)
    → IsValid t
    → Leaves key op
    → entry t key ≡ some in_progress
    → entry (apply t op) key ≡ some in_progress
unfolding apply record_response clear
apply_keeps_in_progress t key (check_op j now) h l e = check_keeps_in_progress t key j now h e
apply_keeps_in_progress t key (record_op j r now) h l e =
    ground (arith, get-insert t.transactions j key (completed now r))
apply_keeps_in_progress t key (clear_op j) h l e = ground (arith, get-remove t.transactions j key)

run_keeps_in_progress :
    (t : TransactionTracker) (key : Key) (ops : List Op)
    → IsValid t
    → All (Leaves key) ops
    → entry t key ≡ some in_progress
    → entry (run t ops) key ≡ some in_progress
unfolding run
run_keeps_in_progress t key [] h l e = e
run_keeps_in_progress t key (op ∷ ops) h (l, ls) e =
    run_keeps_in_progress (apply t op) key ops (apply-IsValid t op h) ls
      (apply_keeps_in_progress t key op h l e)

-- At most once: after `check` has answered that a call is new, every later `check` of it answers
-- that it is in progress, at any time, until the call is recorded or cleared, whatever other calls
-- do in between.
pub at_most_once :
    (t : TransactionTracker) (key : Key) (now later : ℕ) (ops : List Op)
    → IsValid t
    → (check t key now).0 ≡ new
    → All (Leaves key) ops
    → (check (run (check t key now).1 ops) key later).0 ≡ in_progress
at_most_once t key now later ops h e l =
    let t' = (check t key now).1 in
    let valid = check-IsValid t key now h in
    (check-in_progress (run t' ops) key later (run-IsValid t' ops valid)
      (run_keeps_in_progress t' key ops valid l (check_answers_new t key now e))).0
