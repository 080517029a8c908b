-- ===== src/Server/Startup.antt =====
-- The start and the end of a server process: `JoinCluster`, `PopulateReplicaClients` and `main` of
-- cmd/shard/shard.go. The goroutines of `main` are run one after another, and the three gRPC servers
-- are the handlers of the other modules.
use mathlib.Core.List.{◌++◌ as append}
use sharded_kvs.Prelude.{
  ℕ, zero, suc, String, Bool, false, List, [], ◌∷◌, ok, err, Outcome, returns, panics, waits, ◌>>=◌,
  if◌then◌else◌, ◌==◌, not, ◌&&◌,
}
use sharded_kvs.Protos.{Proto}
use sharded_kvs.Raft.{Raft}
use sharded_kvs.Raft.Common.{Setup}
use sharded_kvs.Kvstore.{Memory, new_kv_store}
use sharded_kvs.Kvstore.Ops.{server_id, leader, has_latest_logs, close, open_store}
use sharded_kvs.Server.{Hashing, Server, Net, read_config, Flags, KvstoreConfig, names_of, client}
use sharded_kvs.Server.ShardRpc.{process, with_process}
use sharded_kvs.Server.Clients.{populate_shard_clients, own_replicas, dial_replicas}

module _ (r : Raft) (p : Proto) (h : Hashing) (n : Net (Server r h)) where
  -- One pass of the inner loop: "" where no replica knows a leader. A replica that does not answer,
  -- or answers "", is passed over.
  unfoldable pub ask_replicas : List String → n.World → Outcome (n.World × String)
  ask_replicas [] w = returns (w, "")
  ask_replicas (replica ∷ replicas) w =
      let f = (n.self w).flags in
      client (server_id replica f.shard f.raft_port) (n.self w).replica_clients >>= λ c.
      let (w', answer) = n.replica_leader c w in
      let rest = ask_replicas replicas w' in
      elim answer [ err e ↦ rest | ok l ↦ if l == "" then rest else returns (w', l) ]

  -- `for !leaderFound`
  unfoldable pub find_leader : ℕ → List String → String → n.World → Outcome (n.World × String)
  unfolding ask_replicas
  find_leader zero replicas found w = if found == "" then waits else returns (w, found)
  find_leader (suc fuel) replicas found w =
      let asked = ask_replicas replicas w >>= λ t. find_leader fuel replicas t.1 t.0 in
      if found == "" then asked else returns (w, found)

  -- `for !kvStore.HasLatestLogs()`; `sleep` is what the others do in the meantime.
  unfoldable pub wait_for_logs : ℕ → (n.World → n.World) → n.World → Outcome n.World
  wait_for_logs zero sleep w = if has_latest_logs r (process r p h n w) then returns w else waits
  wait_for_logs (suc fuel) sleep w =
      let later = wait_for_logs fuel sleep (sleep w) in
      if has_latest_logs r (process r p h n w) then returns w else later

  -- The answer to the join request is dropped.
  unfoldable pub join_cluster : ℕ → (n.World → n.World) → List String → n.World → Outcome n.World
  unfolding find_leader wait_for_logs
  join_cluster fuel sleep replicas w =
      find_leader fuel replicas (leader r (process r p h n w)) w >>= λ t.
      wait_for_logs fuel sleep t.0 >>= λ w'. client t.1 (n.self w').replica_clients >>= λ c.
      let f = (n.self w').flags in returns (n.replica_join c f.replica f.address w').0

  unfoldable pub populate_replica_clients :
      ℕ → (n.World → n.World) → KvstoreConfig → n.World → Outcome n.World
  unfolding join_cluster
  populate_replica_clients fuel sleep config w =
      let replicas = own_replicas (n.self w).flags.shard (append config.shards config.new_shards) in
      dial_replicas r h n fuel replicas w >>= λ w'. join_cluster fuel sleep replicas w'

  -- `main` up to the wait for a signal. `started` puts the new server into the world. A store that
  -- does not open is a panic.
  unfoldable pub start :
      (Setup r)
      → ℕ
      → (n.World → n.World)
      → Flags
      → String
      → Bool
      → Bool
      → Memory
      → n.World
      → Outcome n.World
  unfolding populate_replica_clients
  start setup fuel sleep flags folder is_restart should_bootstrap m w =
      read_config n w >>= λ config. h.new_ring (names_of config.shards) >>= λ ring.
      let (kv, m') = new_kv_store m in
      elim (open_store r p setup folder flags.address flags.raft_port flags.shard flags.replica
        (not is_restart && should_bootstrap) kv m') [
          | err e ↦ panics
          | ok s ↦
              (populate_shard_clients r h n fuel (append config.shards config.new_shards) (
                  n.with_self
                    (record {
                      flags = flags;
                      process = s;
                      ring = ring;
                      shard_clients = [];
                      replica_clients = [];
                      redistributing = false;
                      jobs = 0;
                    })
                    w)
                >>= λ w'. populate_replica_clients fuel sleep config w')
        ]

  -- `main` after the signal: the answer of the leader is dropped.
  unfoldable pub shut_down : n.World → Outcome n.World
  shut_down w =
      let w' = with_process r p h n (close r (process r p h n w)).0 w in
      let l = leader r (process r p h n w') in
      let f = (n.self w').flags in
      if l == ""
      then returns w'
      else (client l (n.self w').replica_clients >>= λ c.
          returns (n.replica_demote_voter c f.replica f.address w').0)
