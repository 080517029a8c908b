-- ===== src/Server.antt =====
-- cmd/shard/shard.go: the state of a server process, its configuration, and what it calls of the
-- outside. The handlers are in the children, one for each RPC service.
pub mod Routing
pub mod Clients
pub mod ShardRpc
pub mod ReplicaRpc
pub mod Redistribute
pub mod Startup
pub mod Listening
pub mod Asking
pub mod Joining
pub mod Laws
pub mod Steady
pub mod Relocation
pub mod Finishing
pub mod Writes
pub mod Pending
pub mod Connected
pub mod Interleaving
pub mod Network
use sharded_kvs.Prelude.{
  ℕ, String, Bool, Option, none, some, List, [], ◌∷◌, GoMap, lookup, Error, message, Result, ok,
  err, Outcome, returns, panics, if◌then◌else◌, ◌==◌,
}
use sharded_kvs.Protos.{InternalPutRequest, Proto}
use sharded_kvs.Raft.{Raft}
use sharded_kvs.Kvstore.Ops.{Process, leader}

-- The command-line flags that the handlers read.
pub record Flags : Type 0 where
  pub address : String
  pub shard : String
  pub replica : String
  pub shard_port : ℕ
  pub raft_port : ℕ
  pub replica_port : ℕ

pub record KvstoreShard : Type 0 where
  pub name : String
  pub replicas : List String

pub record KvstoreConfig : Type 0 where
  pub shards : List KvstoreShard
  pub new_shards : List KvstoreShard

-- github.com/buraksezer/consistent under the fixed configuration: `consistent.New` of the members'
-- names, and `LocateKey`, where `none` is a nil member.
pub record Hashing : Type 1 where
  pub Ring : Type 0
  pub new_ring : List String → Outcome Ring
  pub locate_key : Ring → String → Option String

-- The variables of the package. A client is the address that it was dialled at. `jobs` counts the
-- goroutines of `RedistributeKeys` that were started and have not run.
pub record Server (r : Raft) (h : Hashing) : Type 0 where
  pub flags : Flags
  pub process : Process r
  pub ring : h.Ring
  pub shard_clients : GoMap String
  pub replica_clients : GoMap String
  pub redistributing : Bool
  pub jobs : ℕ

-- What a server can do to the outside: the calls of the generated gRPC clients, `grpc.Dial`, and
-- reading the configuration file. A call can come back to the server that makes it, so its own
-- state is part of the world.
pub record Net (S : Type 0) : Type 1 where
  pub World : Type 0
  pub self : World → S
  pub with_self : S → World → World
  -- `os.ReadFile` of the configuration file, and `yaml.Unmarshal`
  pub File : Type 0
  pub read_file : World → Result File
  pub parse_config : File → Result KvstoreConfig
  -- whether the dial gives a connection
  pub dial : String → World → World × Bool
  -- ShardRPCClient
  pub shard_get : String → String → World → World × Result String
  pub shard_put : String → InternalPutRequest → World → World × Result (Unit {0})
  pub shard_delete : String → String → World → World × Result (Unit {0})
  -- ReplicaRPCClient
  pub replica_put : String → InternalPutRequest → World → World × Result (Unit {0})
  pub replica_delete : String → String → World → World × Result (Unit {0})
  pub replica_pause_writes : String → World → World × Result Bool
  pub replica_redistribute_keys : String → World → World × Result ℕ
  pub replica_resume_writes : String → World → World × Result Bool
  pub replica_reload_config : String → World → World × Result Bool
  pub replica_leader : String → World → World × Result String
  pub replica_join : String → String → String → World → World × Result (Unit {0})
  pub replica_demote_voter : String → String → String → World → World × Result (Unit {0})

-- `ReadConfig`; `main` reads the file the same way. `panics` is `log.Fatalf`.
abbrev pub read_config : {S : Type 0} (n : Net S) → n.World → Outcome KvstoreConfig
read_config n w = elim (n.read_file w) [
  | err e ↦ panics
  | ok file ↦ elim (n.parse_config file) [ err e ↦ panics | ok config ↦ returns config ]
]

-- `member.String()` of what `LocateKey` finds: a nil member panics.
unfoldable pub located : (h : Hashing) → h.Ring → String → Outcome String
located h ring key = elim (h.locate_key ring key) [ none ↦ panics | some m ↦ returns m ]

-- The names that `consistent.New` is given.
unfoldable pub names_of : List KvstoreShard → List String
names_of [] = []
names_of (s ∷ rest) = s.name ∷ names_of rest

-- A call of a client that is missing from its map is a call through a nil interface.
unfoldable pub client : String → GoMap String → Outcome String
client name clients = elim (lookup name clients) [ none ↦ panics | some c ↦ returns c ]

abbrev pub no_leader_found : Error
no_leader_found = message "no leader found"
