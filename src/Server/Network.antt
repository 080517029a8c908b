-- ===== src/Server/Network.antt =====
-- A deployment of cmd/shard/shard.go in which every shard has one replica, and a call of one shard
-- by another runs the handler of the process at its address: the interface `Net`, made of the
-- program's own handlers.
pub mod Written
pub mod Remotes
pub mod Leading
pub mod Layout
pub mod Effects
pub mod Clients
pub mod Requests
pub mod Rescaling
pub mod Rounds
pub mod Purging
pub mod Sending
pub mod Moving
pub mod Moves
pub mod Missing
pub mod Actions
pub mod During
pub mod Reloading
pub mod Reloads
pub mod Switching
use sharded_kvs.Prelude.{
  String, Bool, false, List, Error, library, Result, ok, err, Outcome, returns, panics, waits,
  if◌then◌else◌, ◌==◌,
}
use sharded_kvs.Protos.{Proto}
use sharded_kvs.Raft.{Raft}
use sharded_kvs.Server.{Hashing, Server, Net, KvstoreConfig}
use sharded_kvs.Server.ShardRpc.{shard_get, shard_put, shard_delete}

-- The processes, by the address of their shard service, which of them run, and the configuration
-- file that all of them see.
pub record Deployment (r : Raft) (h : Hashing) : Type 0 where
  pub servers : String → Server r h
  pub running : String → Bool
  pub config : KvstoreConfig

-- What a call answers that reaches no process.
abbrev pub unreachable : Error
unreachable = library 14

module _ (r : Raft) (p : Proto) (h : Hashing) where
  abbrev pub with_server : String → Server r h → Deployment r h → Deployment r h
  with_server c s d = record d { servers = λ c'. if c == c' then s else d.servers c' }

  -- What the process at an address can do, without calls to other shards: the handlers of
  -- `shardRpcServer` make none. There are no other replicas.
  abbrev pub process_at : String → Net (Server r h)
  process_at c = record {
    World = Deployment r h;
    self = λ d. d.servers c;
    with_self = λ s d. with_server c s d;
    File = KvstoreConfig;
    read_file = λ d. ok d.config;
    parse_config = λ file. ok file;
    dial = λ target d. (d, d.running target);
    shard_get = λ target key d. (d, err unreachable);
    shard_put = λ target req d. (d, err unreachable);
    shard_delete = λ target key d. (d, err unreachable);
    replica_put = λ target req d. (d, err unreachable);
    replica_delete = λ target key d. (d, err unreachable);
    replica_pause_writes = λ target d. (d, err unreachable);
    replica_redistribute_keys = λ target d. (d, err unreachable);
    replica_resume_writes = λ target d. (d, err unreachable);
    replica_reload_config = λ target d. (d, err unreachable);
    replica_leader = λ target d. (d, err unreachable);
    replica_join = λ target id address d. (d, err unreachable);
    replica_demote_voter = λ target id address d. (d, err unreachable);
  }

  -- A panic ends the process.
  abbrev pub stopped : String → Deployment r h → Deployment r h
  stopped c d = record d { running = λ c'. if c == c' then false else d.running c' }

  abbrev pub answered :
      {A : Type 0}
      → String
      → Deployment r h
      → Outcome (Deployment r h × Result A)
      → Deployment r h × Result A
  answered c d (returns t) = t
  answered c d panics = (stopped c d, err unreachable)
  answered c d waits = (d, err unreachable)

  -- A call of the process at an address: what its handler comes to, if it runs.
  abbrev pub call :
      {A : Type 0}
      → String
      → Deployment r h
      → Outcome (Deployment r h × Result A)
      → Deployment r h × Result A
  call c d o = if d.running c then answered c d o else (d, err unreachable)

  -- The network as the process at the address `own` sees it.
  abbrev pub network : String → Net (Server r h)
  network own = record (process_at own) {
    shard_get = λ c key d. call c d (shard_get r p h (process_at c) key d);
    shard_put = λ c req d. call c d (shard_put r p h (process_at c) req d);
    shard_delete = λ c key d. call c d (shard_delete r p h (process_at c) key d);
  }
