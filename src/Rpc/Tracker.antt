-- ===== src/Rpc/Tracker.antt =====
-- protocol/rpc/transaction_tracker.rs: which calls are in progress, and the replies kept for
-- retransmissions. Times are nanoseconds from a common origin; the lock makes each method one step.
pub mod Keys
pub mod Laws
pub mod Trace
pub mod Replay
use fernfs.Prelude.{
  ℕ, ◌+◌, ◌-◌, ◌*◌, ◌/◌, Bool, true, false, ◌&&◌, not, Option, none, some, [], ltb, leb,
  if◌then◌else◌,
}
use fernfs.Prelude.HashMap.{HashMap, get, insert, remove, retain, is_empty}
use fernfs.Io.{Bytes}
use fernfs.Rpc.Tracker.Keys.{Key, key_eq}

pub data TransactionState : Type 0 where
  in_progress : TransactionState
  completed : ℕ → Bytes → TransactionState

pub data TransactionStatus : Type 0 where
  new in_progress : TransactionStatus
  completed : Bytes → TransactionStatus

-- The mutable part, behind the lock.
pub record TransactionStore : Type 0 where
  pub transactions : HashMap Key TransactionState
  pub last_housekeeping : ℕ

pub record TransactionTracker : Type 0 where
  pub retention_period : ℕ
  pub housekeeping_interval : ℕ
  pub store : TransactionStore
  pub open store use {transactions, last_housekeeping}

abbrev pub one_second : ℕ
one_second = 1_000_000_000

abbrev pub max_duration : ℕ → ℕ → ℕ
max_duration a b = if leb a b then b else a

-- `TransactionTracker::new`, at the time `now`
unfoldable pub new_tracker : ℕ → ℕ → TransactionTracker
new_tracker retention now = record {
  retention_period = retention;
  housekeeping_interval =
      if ltb retention one_second then retention else max_duration one_second (retention / 4);
  store = record { transactions = []; last_housekeeping = now };
}

-- A clock that went backwards counts as elapsed.
unfoldable pub should_housekeep : ℕ → ℕ → ℕ → Bool
should_housekeep last now interval = if leb last now then leb interval (now - last) else true

-- `completion_time >= now - max_age`; a time before the origin is no fault, so the sum is compared
unfoldable pub is_kept : ℕ → ℕ → TransactionState → Bool
is_kept max_age now in_progress = true
is_kept max_age now (completed completion_time response) = leb now (completion_time + max_age)

unfoldable pub housekeeping : HashMap Key TransactionState → ℕ → ℕ → HashMap Key TransactionState
housekeeping transactions max_age now = retain (is_kept max_age now) transactions

-- The housekeeping that `check` does first.
unfoldable pub tidy : TransactionTracker → ℕ → TransactionTracker
tidy t now =
    if not (is_empty t.transactions)
      && should_housekeep t.last_housekeeping now t.housekeeping_interval
    then record t {
      store = record {
        transactions = housekeeping t.transactions t.retention_period now;
        last_housekeeping = now;
      };
    }
    else t

set_state : TransactionTracker → Key → TransactionState → TransactionTracker
set_state t key s = record t {
  store = record t.store { transactions = insert t.transactions key s };
}

check_entry :
    TransactionTracker → Key → ℕ → Option TransactionState → TransactionStatus × TransactionTracker
check_entry t key now none = (new, set_state t key in_progress)
check_entry t key now (some in_progress) = (in_progress, t)
check_entry t key now (some (completed completion_time response)) =
    (completed response, set_state t key (completed now response))

-- `check`, at the time `now`
unfoldable pub check : TransactionTracker → Key → ℕ → TransactionStatus × TransactionTracker
unfolding check_entry set_state
check t key now = let t' = tidy t now in check_entry t' key now (get t'.transactions key)

unfoldable pub record_response : TransactionTracker → Key → Bytes → ℕ → TransactionTracker
unfolding set_state
record_response t key response now = set_state t key (completed now response)

unfoldable pub clear : TransactionTracker → Key → TransactionTracker
clear t key = record t { store = record t.store { transactions = remove t.transactions key } }
