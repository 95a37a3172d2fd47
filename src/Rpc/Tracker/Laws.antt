-- ===== src/Rpc/Tracker/Laws.antt =====
-- What each method of the tracker does to the entry of a key.
use fernfs.Prelude.{ℕ, ◌+◌, ◌≤◌, ◌<◌, ◌≡◌, Bool, true, false, Option, none, some, arith}
use fernfs.Prelude.HashMap.{
  get, HasUniqueKeys, get-insert, get-is_empty, get-retain, insert-HasUniqueKeys,
  remove-HasUniqueKeys, retain-HasUniqueKeys,
}
use fernfs.Io.{Bytes}
use fernfs.Rpc.Tracker.Keys.{Key, key_eq, key_beq, key_beq_iff}
use fernfs.Rpc.Tracker.{
  TransactionState, TransactionTracker, in_progress, completed, new, is_kept, housekeeping,
  should_housekeep, tidy, check, record_response, clear,
}

-- A key is stored once.
abbrev pub IsValid : TransactionTracker → Type 0
IsValid t = HasUniqueKeys t.transactions

abbrev pub entry : TransactionTracker → Key → Option TransactionState
entry t key = get t.transactions key

-- Whether `check` at `now` forgets old replies first.
abbrev pub is_due : TransactionTracker → ℕ → Bool
is_due t now = should_housekeep t.last_housekeeping now t.housekeeping_interval

pub tidy-IsValid : (t : TransactionTracker) (now : ℕ) → IsValid t → IsValid (tidy t now)
unfolding tidy housekeeping
tidy-IsValid t now h =
    ground (arith, retain-HasUniqueKeys (is_kept t.retention_period now) t.transactions h)

-- Housekeeping drops no call in progress, and no reply that is younger than the period.
pub tidy_keeps :
    (t : TransactionTracker) (key : Key) (now : ℕ) (s : TransactionState)
    → IsValid t
    → entry t key ≡ some s
    → is_kept t.retention_period now s ≡ true
    → entry (tidy t now) key ≡ some s
unfolding tidy housekeeping
tidy_keeps t key now s h e k =
    ground (arith, get-retain (is_kept t.retention_period now) t.transactions key h)

pub tidy-none :
    (t : TransactionTracker) (key : Key) (now : ℕ)
    → IsValid t
    → entry t key ≡ none
    → entry (tidy t now) key ≡ none
unfolding tidy housekeeping
tidy-none t key now h e =
    ground (arith, get-retain (is_kept t.retention_period now) t.transactions key h)

pub check-IsValid :
    (t : TransactionTracker) (key : Key) (now : ℕ) → IsValid t → IsValid (check t key now).1
unfolding check
check-IsValid t key now h = grind (arith, tidy-IsValid t now h, insert-HasUniqueKeys)

pub record_response-IsValid :
    (t : TransactionTracker) (key : Key) (r : Bytes) (now : ℕ)
    → IsValid t
    → IsValid (record_response t key r now)
unfolding record_response
record_response-IsValid t key r now h = insert-HasUniqueKeys t.transactions key (completed now r) h

pub clear-IsValid : (t : TransactionTracker) (key : Key) → IsValid t → IsValid (clear t key)
unfolding clear
clear-IsValid t key h = remove-HasUniqueKeys t.transactions key h

pub entry-check_ne :
    (t : TransactionTracker) (key j : Key) (now : ℕ)
    → key_beq key j ≡ false
    → entry (check t key now).1 j ≡ entry (tidy t now) j
unfolding check
entry-check_ne t key j now h = grind (arith, get-insert)

-- A call that is in progress is answered so, and stays so.
pub check-in_progress :
    (t : TransactionTracker) (key : Key) (now : ℕ)
    → IsValid t
    → entry t key ≡ some in_progress
    → ((check t key now).0 ≡ in_progress) × (entry (check t key now).1 key ≡ some in_progress)
unfolding check is_kept
check-in_progress t key now h e = ground (arith, tidy_keeps t key now in_progress h e)

-- A kept reply is replayed, and its age counts from now on.
pub check-completed :
    (t : TransactionTracker) (key : Key) (now c : ℕ) (r : Bytes)
    → IsValid t
    → entry t key ≡ some (completed c r)
    → now ≤ c + t.retention_period
    → ((check t key now).0 ≡ completed r) × (entry (check t key now).1 key ≡ some (completed now r))
unfolding check is_kept
check-completed t key now c r h e k = ground (
  arith,
  tidy_keeps t key now (completed c r) h e,
  get-insert (tidy t now).transactions key key (completed now r),
  key_beq_iff key key,
)

-- A call without an entry is new, and is in progress from then on.
pub check-new :
    (t : TransactionTracker) (key : Key) (now : ℕ)
    → IsValid t
    → entry t key ≡ none
    → ((check t key now).0 ≡ new) × (entry (check t key now).1 key ≡ some in_progress)
unfolding check
check-new t key now h e = ground (
  arith,
  tidy-none t key now h e,
  get-insert (tidy t now).transactions key key in_progress,
  key_beq_iff key key,
)

tidy_forgets :
    (t : TransactionTracker) (key : Key) (now c : ℕ) (r : Bytes)
    → IsValid t
    → entry t key ≡ some (completed c r)
    → c + t.retention_period < now
    → is_due t now ≡ true
    → entry (tidy t now) key ≡ none
unfolding tidy housekeeping is_kept
tidy_forgets t key now c r h e k due = ground (
  arith,
  get-is_empty t.transactions key e,
  get-retain (is_kept t.retention_period now) t.transactions key h,
)

-- A reply that is older than the period is forgotten when housekeeping is due: the call is new.
pub check_expired :
    (t : TransactionTracker) (key : Key) (now c : ℕ) (r : Bytes)
    → IsValid t
    → entry t key ≡ some (completed c r)
    → c + t.retention_period < now
    → is_due t now ≡ true
    → (check t key now).0 ≡ new
unfolding check
check_expired t key now c r h e k due = ground (arith, tidy_forgets t key now c r h e k due)

pub check_answers_new :
    (t : TransactionTracker) (key : Key) (now : ℕ)
    → (check t key now).0 ≡ new
    → entry (check t key now).1 key ≡ some in_progress
unfolding check
check_answers_new t key now e =
    ground (arith, get-insert (tidy t now).transactions key key in_progress, key_beq_iff key key)
