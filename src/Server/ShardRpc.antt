-- ===== src/Server/ShardRpc.antt =====
-- The `shardRpcServer` of cmd/shard/shard.go: what one shard asks of another. A replica that is not
-- the leader forwards a write to its leader.
use sharded_kvs.Prelude.{
  ℕ, String, Bool, Option, none, some, [], ◌∷◌, GoMap, Error, is_not_leader, Result, ok, err,
  Outcome, returns, ◌>>=◌, if◌then◌else◌, ◌==◌,
}
use sharded_kvs.Protos.{InternalPutRequest, Proto}
use sharded_kvs.Raft.{Raft}
use sharded_kvs.Kvstore.Ops.{Process, get, set, delete, leader}
use sharded_kvs.Server.{Hashing, Server, Net, client, no_leader_found}

module _ (r : Raft) (p : Proto) (h : Hashing) (n : Net (Server r h)) where
  -- The process of the server that runs the handler.
  abbrev pub process : n.World → Process r
  process w = (n.self w).process

  abbrev pub with_process : Process r → n.World → n.World
  with_process s w = n.with_self (record (n.self w) { process = s }) w

  -- `leader := kvStore.Leader()`, the test for "", and a call of the leader's client.
  unfoldable pub ask_leader :
      {A : Type 0}
      → (String → n.World → n.World × Result A)
      → n.World
      → Outcome (n.World × Result A)
  ask_leader call w =
      if leader r (process w) == ""
      then returns (w, err no_leader_found)
      else client (leader r (process w)) (n.self w).replica_clients >>= λ c. returns (call c w)

  unfoldable pub shard_get : String → n.World → Outcome (n.World × Result String)
  shard_get key w = returns (w, get r key (process w))

  -- After a local write: done, forwarded to the leader, or its error.
  unfoldable pub answer_write :
      (String → n.World → n.World × Result (Unit {0}))
      → Process r × Option Error
      → n.World
      → Outcome (n.World × Result (Unit {0}))
  answer_write call (s, none) w = returns (with_process s w, ok tt)
  answer_write call (s, some e) w =
      if is_not_leader e
      then ask_leader call (with_process s w)
      else returns (with_process s w, err e)

  unfoldable pub shard_put : InternalPutRequest → n.World → Outcome (n.World × Result (Unit {0}))
  unfolding answer_write
  shard_put req w =
      set r p req.key req.value (process w) >>= λ t. answer_write (λ c. n.replica_put c req) t w

  unfoldable pub shard_delete : String → n.World → Outcome (n.World × Result (Unit {0}))
  unfolding answer_write
  shard_delete key w =
      delete r p key (process w) >>= λ t. answer_write (λ c. n.replica_delete c key) t w

  unfoldable pub shard_pause_writes : n.World → Outcome (n.World × Result Bool)
  shard_pause_writes = ask_leader n.replica_pause_writes

  unfoldable pub shard_redistribute_keys : n.World → Outcome (n.World × Result ℕ)
  shard_redistribute_keys = ask_leader n.replica_redistribute_keys

  -- Every replica is told to reload its configuration, whatever it answers.
  unfoldable pub reload_all : GoMap String → n.World → n.World
  reload_all [] w = w
  reload_all ((name, c) ∷ clients) w = reload_all clients (n.replica_reload_config c w).0

  unfoldable pub shard_resume_writes : n.World → Outcome (n.World × Result Bool)
  unfolding reload_all
  shard_resume_writes w =
      let l = leader r (process w) in
      if l == ""
      then returns (w, err no_leader_found)
      else (let w' = reload_all (n.self w).replica_clients w in
          client l (n.self w').replica_clients >>= λ c. returns (n.replica_resume_writes c w'))
