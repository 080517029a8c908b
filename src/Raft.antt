-- ===== src/Raft.antt =====
-- github.com/hashicorp/raft, as an interface: the calls that the source makes of one replica's
-- `*raft.Raft`. A call that waits returns the node after it and the error of its future.
pub mod Common
use sharded_kvs.Prelude.{ℕ, String, Bool, Option, List, Error, Result}
use sharded_kvs.Protos.{Bytes}

-- `raft.Server`; a server that is not a voter is a nonvoter or a staging server.
pub record Member : Type 0 where
  pub id : String
  pub address : String
  pub voter : Bool

-- What `Apply(...).Error()` returns, with the log data that the FSM of this replica was given, in
-- order, before the future was answered.
pub record Applied (Node : Type 0) : Type 0 where
  pub node : Node
  pub error : Option Error
  pub delivered : List Bytes

-- What `Snapshot()` returns: its error, and what `Open` of the future and `io.ReadAll` then give.
pub record SnapshotFuture (Node : Type 0) : Type 0 where
  pub node : Node
  pub error : Option Error
  pub opened : Result (ℕ × Result Bytes)

pub record Raft : Type 1 where
  pub Node : Type 0
  -- `State() == raft.Leader`
  pub is_leader : Node → Bool
  -- the second result of `LeaderWithID`, "" where none is known
  pub leader_id : Node → String
  pub applied_index : Node → ℕ
  pub last_index : Node → ℕ
  pub apply : Bytes → Node → Applied Node
  pub configuration : Node → Result (List Member)
  pub remove_server : String → Node → Node × Option Error
  pub add_voter : String → String → Node → Node × Option Error
  pub demote_voter : String → Node → Node × Option Error
  pub leadership_transfer : Node → Node × Option Error
  pub snapshot : Node → SnapshotFuture Node
