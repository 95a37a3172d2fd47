-- ===== src/Rpc/Tracker/Replay.antt =====
-- A recorded reply is replayed to retransmissions for the retention period.
use fernfs.Prelude.{
  ℕ, ◌+◌, ◌≤◌, ◌≡◌, refl, ◌∙◌, false, true, some, List, [], ◌∷◌, arith, All, Bool-cases, inl, inr,
  le→leb,
}
use fernfs.Prelude.HashMap.{get-insert, get-remove}
use fernfs.Io.{Bytes}
use fernfs.Rpc.Tracker.Keys.{Key, key_eq, key_beq, key_beq_iff}
use fernfs.Rpc.Tracker.{TransactionTracker, completed, is_kept, tidy, check, record_response, clear}
use fernfs.Rpc.Tracker.Laws.{
  IsValid, entry, record_response-IsValid, entry-check_ne, tidy_keeps, check-completed,
}
use fernfs.Rpc.Tracker.Trace.{
  Op, check_op, record_op, clear_op, apply, run, apply-IsValid, run-IsValid,
}

tidy-retention :
    (t : TransactionTracker) (now : ℕ) → (tidy t now).retention_period ≡ t.retention_period
unfolding tidy
tidy-retention t now = ground arith

pub check-retention :
    (t : TransactionTracker) (key : Key) (now : ℕ)
    → (check t key now).1.retention_period ≡ t.retention_period
unfolding check
check-retention t key now = ground (arith, tidy-retention t now)

-- The reply `r` to `key` is stored with a time that is not before `c`.
record Stores (key : Key) (r : Bytes) (c period : ℕ) (t : TransactionTracker) : Type 0 where
  since : ℕ
  stored : entry t key ≡ some (completed since r)
  fresh : c ≤ since
  retained : t.retention_period ≡ period

-- The method is a check within the retention period that begins at `c`, or is about another call.
abbrev pub IsWithin : Key → ℕ → ℕ → Op → Type 0
IsWithin key c period (check_op j now) = (c ≤ now) × (now ≤ c + period)
IsWithin key c period (record_op j r now) = key_beq j key ≡ false
IsWithin key c period (clear_op j) = key_beq j key ≡ false

module _ (key : Key) (r : Bytes) (c period : ℕ) where
  check-Stores :
      (t : TransactionTracker) (j : Key) (now : ℕ)
      → IsValid t
      → c ≤ now
      → now ≤ c + period
      → Stores key r c period t
      → Stores key r c period (check t j now).1
  check-Stores t j now h lo hi s = elim (Bool-cases (key_beq j key)) [
    | inl same ↦ rw ((key_beq_iff j key).0 same) (record {
      since = now;
      stored =
          (check-completed t key now s.since r h s.stored (omega (arith, s.fresh, s.retained))).1;
      fresh = lo;
      retained = check-retention t key now ∙ s.retained;
    })
    | inr other ↦ record {
      since = s.since;
      stored =
          entry-check_ne t j key now other
          ∙ tidy_keeps t key now _ h s.stored (young t now s lo hi);
      fresh = s.fresh;
      retained = check-retention t j now ∙ s.retained;
    }
  ]
    where
      young :
          (t : TransactionTracker) (now : ℕ) (s : Stores key r c period t)
          → c ≤ now
          → now ≤ c + period
          → is_kept t.retention_period now (completed s.since r) ≡ true
      young t now s lo hi =
          unfold is_kept in
          le→leb now (s.since + t.retention_period) (omega (arith, s.fresh, s.retained))

  apply-Stores :
      (t : TransactionTracker) (op : Op)
      → IsValid t
      → IsWithin key c period op
      → Stores key r c period t
      → Stores key r c period (apply t op)
  unfolding apply record_response clear
  apply-Stores t (check_op j now) h (lo, hi) s = check-Stores t j now h lo hi s
  apply-Stores t (record_op j q now) h w s = record {
    since = s.since;
    stored = get-insert t.transactions j key (completed now q) ∙ rw w s.stored;
    fresh = s.fresh;
    retained = s.retained;
  }
  apply-Stores t (clear_op j) h w s = record {
    since = s.since;
    stored = get-remove t.transactions j key ∙ rw w s.stored;
    fresh = s.fresh;
    retained = s.retained;
  }

  run-Stores :
      (t : TransactionTracker) (ops : List Op)
      → IsValid t
      → All (IsWithin key c period) ops
      → Stores key r c period t
      → Stores key r c period (run t ops)
  unfolding run
  run-Stores t [] h w s = s
  run-Stores t (op ∷ ops) h (w, ws) s =
      run-Stores (apply t op) ops (apply-IsValid t op h) ws (apply-Stores t op h w s)

record-Stores :
    (t : TransactionTracker) (key : Key) (r : Bytes) (c : ℕ)
    → Stores key r c t.retention_period (record_response t key r c)
unfolding record_response
record-Stores t key r c = record {
  since = c;
  stored = get-insert t.transactions key key (completed c r) ∙ rw ((key_beq_iff key key).1 refl);
  fresh = omega arith;
  retained = refl;
}

-- After a reply is recorded at `c`, a retransmission at any time of the retention period that
-- begins at `c` is answered with that reply, whatever other calls came in between within it.
pub replays_recorded :
    (t : TransactionTracker) (key : Key) (r : Bytes) (c later : ℕ) (ops : List Op)
    → IsValid t
    → All (IsWithin key c t.retention_period) ops
    → c ≤ later
    → later ≤ c + t.retention_period
    → (check (run (record_response t key r c) ops) key later).0 ≡ completed r
replays_recorded t key r c later ops h w lo hi =
    let t' = record_response t key r c in
    let valid = record_response-IsValid t key r c h in
    let s = run-Stores key r c t.retention_period t' ops valid w (record-Stores t key r c) in
    (check-completed (run t' ops) key later s.since r (run-IsValid t' ops valid) s.stored
      (omega (arith, s.fresh, s.retained))).0
