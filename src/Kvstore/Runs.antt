-- ===== src/Kvstore/Runs.antt =====
-- What can happen to one replica's process: the calls of its `KVStore`, and what Raft does to its
-- FSM by itself (committed entries, a snapshot from the leader).
use sharded_kvs.Prelude.{
  ℕ, String, Bool, Option, Error, List, [], ◌∷◌, Result, Outcome, returns, ◌>>=◌,
}
use sharded_kvs.Protos.{Bytes, Proto}
use sharded_kvs.Raft.{Raft}
use sharded_kvs.Kvstore.{deliver, restore}
use sharded_kvs.Kvstore.Ops.{
  Process, set, delete, set_writes_enabled, join, demote_voter, close, take_snapshot,
}

pub data Call : Type 0 where
  sets : String → String → Call
  deletes : String → Call
  toggles : Bool → Call
  joins : String → ℕ → String → String → Call
  demotes : ℕ → String → String → Call
  closes : Call
  snapshots : Call
  -- Raft applies entries that this replica did not submit.
  commits : List Bytes → Call
  -- Raft installs a snapshot: what reading it gives.
  installs : Result Bytes → Call

module _ (r : Raft) (p : Proto) where
  -- The process after a call; what the call answers is dropped.
  abbrev pub drop_error : Outcome (Process r × Option Error) → Outcome (Process r)
  drop_error o = o >>= λ t. returns t.0

  unfoldable pub step : Call → Process r → Outcome (Process r)
  step (sets k v) s = drop_error (set r p k v s)
  step (deletes k) s = drop_error (delete r p k s)
  step (toggles b) s = drop_error (set_writes_enabled r p b s)
  step (joins ip port shard replica) s = returns (join r ip port shard replica s).0
  step (demotes port shard replica) s = returns (demote_voter r port shard replica s).0
  step closes s = returns (close r s).0
  step snapshots s = returns (take_snapshot r p s).0
  step (commits bs) s =
      deliver p bs s.fsm s.memory >>= λ t. returns (record s { memory = t.1; fsm = t.0 })
  step (installs b) s =
      let (e, f, m) = restore p b s.fsm s.memory in returns (record s { memory = m; fsm = f })

  unfoldable pub run : List Call → Process r → Outcome (Process r)
  run [] s = returns s
  run (c ∷ cs) s = step c s >>= λ t. run cs t
