-- ===== src/Samples/World.antt =====
-- A ring that gives every key to its first member, and a world of shards that store what is put at
-- their addresses and refuse all else.
use sharded_kvs.Prelude.{
  false, GoMap, map, String, ◌≡◌, ◌≢◌, refl, arith, true, Option, none, some, List, [], ◌∷◌, Error,
  library, ok, err, returns, ◌==◌, eq_iff, eq_refl, if◌then◌else◌, ◌&&◌,
}
use sharded_kvs.Protos.{InternalPutRequest}
use sharded_kvs.Kvstore.Ops.{Process}
use sharded_kvs.Server.{Flags, Hashing, Server, Net, KvstoreConfig}
use sharded_kvs.Server.Laws.{OwnState, Remote}
use sharded_kvs.Samples.Node.{sample_raft}

abbrev pub first : List String → Option String
first [] = none
first (x ∷ xs) = some x

abbrev pub sample_hashing : Hashing
sample_hashing = record {
  Ring = List String;
  new_ring = λ names. returns names;
  locate_key = λ ring key. first ring;
}

abbrev pub SampleServer : Type 0
SampleServer = Server sample_raft sample_hashing

pub record SampleWorld : Type 0 where
  pub self : SampleServer
  pub held : String → String → Option String
  pub config : KvstoreConfig

abbrev pub stored :
    String
    → InternalPutRequest
    → (String → String → Option String)
    → String
    → String
    → Option String
stored c req held c' k = if c == c' && req.key == k then some req.value else held c' k

pub stored-same :
    (c : String) (req : InternalPutRequest) (held : String → String → Option String)
    → stored c req held c req.key ≡ some req.value
stored-same c req held = rw (eq_refl c, eq_refl req.key) refl

pub stored-other :
    (c c' k : String) (req : InternalPutRequest) (held : String → String → Option String)
    → k ≢ req.key
    → stored c req held c' k ≡ held c' k
stored-other c c' k req held ne = ground (arith, eq_iff req.key k)

abbrev pub refused : Error
refused = library 2

abbrev pub sample_net : Net SampleServer
sample_net = record {
  World = SampleWorld;
  self = λ w. w.self;
  with_self = λ s w. record w { self = s };
  File = KvstoreConfig;
  read_file = λ w. ok w.config;
  parse_config = λ file. ok file;
  dial = λ target w. (w, true);
  shard_get = λ c key w. (w, err refused);
  shard_put = λ c req w. (record w { held = stored c req w.held }, ok tt);
  shard_delete = λ c key w. (w, err refused);
  replica_put = λ c req w. (w, err refused);
  replica_delete = λ c key w. (w, err refused);
  replica_pause_writes = λ c w. (w, err refused);
  replica_redistribute_keys = λ c w. (w, err refused);
  replica_resume_writes = λ c w. (w, err refused);
  replica_reload_config = λ c w. (w, err refused);
  replica_leader = λ c w. (w, err refused);
  replica_join = λ c id address w. (w, err refused);
  replica_demote_voter = λ c id address w. (w, err refused);
}

abbrev pub sample-OwnState : OwnState sample_net
sample-OwnState = record {
  self-with_self = λ s w. refl;
  with_self-self = λ w. refl;
  self-dial = λ target w. refl;
}

abbrev pub sample-Remote : Remote sample_raft sample_hashing sample_net
sample-Remote = record {
  held = λ w. w.held;
  held-with_self = λ s w. refl;
  fit = λ w. Unit;
  fit-with_process = λ s w fit. tt;
  fit-put = λ c req w fit away. tt;
  put-stores = λ c req w fit away q. stored-same c req w.held;
  put-others = λ c c' k req w fit away ne. stored-other c c' k req w.held ne;
  put-away = λ c req w fit ne. refl;
}

abbrev pub sample_flags : Flags
sample_flags = record {
  address = "10.0.0.1";
  shard = "shard-0";
  replica = "shard-0-replica-0";
  shard_port = 8080;
  raft_port = 8081;
  replica_port = 8082;
}

abbrev pub sample_config : List String → List String → KvstoreConfig
sample_config old new = record {
  shards = map (λ s. record { name = s; replicas = [] }) old;
  new_shards = map (λ s. record { name = s; replicas = [] }) new;
}

-- The server of "shard-0", with a process, a ring, its clients and the configuration file.
abbrev pub sample_world :
    Process sample_raft → List String → GoMap String → KvstoreConfig → SampleWorld
sample_world process ring clients config = record {
  self = record {
    flags = sample_flags;
    process = process;
    ring = ring;
    shard_clients = clients;
    replica_clients = [];
    redistributing = false;
    jobs = 0;
  };
  held = λ c k. none;
  config = config;
}
