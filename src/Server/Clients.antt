-- ===== src/Server/Clients.antt =====
-- The client maps of cmd/shard/shard.go: `PopulateShardClients`, and `PopulateReplicaClients` up to
-- the call of `JoinCluster`. A dial that fails is tried again for ever; `fuel` bounds the rounds.
use Prim.Native.String.{◌++◌}
use mathlib.Core.List.{◌++◌ as append}
use sharded_kvs.Prelude.{
  ℕ, zero, suc, String, none, some, List, [], ◌∷◌, lookup, insert, itoa, Outcome, returns, waits,
  ◌>>=◌, if◌then◌else◌, ◌==◌,
}
use sharded_kvs.Raft.{Raft}
use sharded_kvs.Kvstore.Ops.{server_id}
use sharded_kvs.Server.{Hashing, Server, Net, KvstoreShard}

-- `fmt.Sprintf("%s:%d", name, *shardPort)`
unfoldable pub shard_target : String → ℕ → String
shard_target name port = name ++ (":" ++ itoa port)

-- The replicas of this server's shard, in the order of the configuration.
unfoldable pub own_replicas : String → List KvstoreShard → List String
own_replicas shard [] = []
own_replicas shard (s ∷ shards) =
    let rest = own_replicas shard shards in if s.name == shard then append s.replicas rest else rest

module _ (r : Raft) (h : Hashing) (n : Net (Server r h)) where
  -- The `for` loop around one `grpc.Dial`.
  unfoldable pub dial_loop : ℕ → String → n.World → Outcome n.World
  dial_loop zero target w = waits
  dial_loop (suc fuel) target w =
      let (w', connected) = n.dial target w in
      let rest = dial_loop fuel target w' in if connected then returns w' else rest

  unfoldable pub populate_shard_clients : ℕ → List KvstoreShard → n.World → Outcome n.World
  unfolding dial_loop shard_target
  populate_shard_clients fuel [] w = returns w
  populate_shard_clients fuel (s ∷ shards) w =
      let target = shard_target s.name (n.self w).flags.shard_port in
      let skipped = populate_shard_clients fuel shards w in
      elim (lookup s.name (n.self w).shard_clients) [
        | some c ↦ skipped
        | none ↦
            (dial_loop fuel target w >>= λ w'.
            let self = n.self w' in
            populate_shard_clients fuel shards (
              n.with_self (record self { shard_clients = insert s.name target self.shard_clients })
                w'))
      ]

  unfoldable pub dial_replicas : ℕ → List String → n.World → Outcome n.World
  unfolding dial_loop
  dial_replicas fuel [] w = returns w
  dial_replicas fuel (replica ∷ replicas) w =
      let f = (n.self w).flags in
      let name = server_id replica f.shard f.raft_port in
      let target = server_id replica f.shard f.replica_port in
      let skipped = dial_replicas fuel replicas w in
      elim (lookup name (n.self w).replica_clients) [
        | some c ↦ skipped
        | none ↦
            (dial_loop fuel target w >>= λ w'.
            let self = n.self w' in
            dial_replicas fuel replicas (
              n.with_self
                (record self { replica_clients = insert name target self.replica_clients }) w'))
      ]
