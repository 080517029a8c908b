-- ===== src/Server/Writes.antt =====
-- Pausing writes and forwarded puts, in cmd/shard/shard.go, at a replica that was started by `Open`.
use sharded_kvs.Prelude.{
  none, ℕ, String, ◌≡◌, Bool, false, true, List, ok, err, returns, is_empty, writes_disabled,
}
use sharded_kvs.Protos.{Proto, InternalPutRequest}
use sharded_kvs.Raft.{Raft}
use sharded_kvs.Raft.Common.{Setup}
use sharded_kvs.Kvstore.{Memory, new_kv_store}
use sharded_kvs.Kvstore.Ops.{Process, open_store, set_writes_enabled, get_writes_enabled}
use sharded_kvs.Kvstore.Runs.{Call, run}
use sharded_kvs.Kvstore.Flag.{writes_never_enabled}
use sharded_kvs.Server.{Hashing, Server, Net, read_config, KvstoreConfig}
use sharded_kvs.Server.ShardRpc.{process}
use sharded_kvs.Server.ReplicaRpc.{replica_put, replica_pause_writes}
use sharded_kvs.Server.Laws.{OwnState}

module _ (r : Raft) (p : Proto) (h : Hashing) (n : Net (Server r h)) (setup : Setup r)
    (dir ip : String) (raft_port : ℕ) (shard replica : String) (boot : Bool) (m : Memory) where
  -- The server's process was started by `Open` and has gone through the calls.
  pub record IsStarted (cs : List Call) (w : n.World) : Type 0 where
    pub opened_as : Process r
    pub opened :
        open_store r p setup dir ip raft_port shard replica boot
          (new_kv_store m).0
          (new_kv_store m).1
        ≡ ok opened_as
    pub ran : run r p cs opened_as ≡ returns (process r p h n w)

  flags_off :
      (cs : List Call) (w : n.World)
      → IsStarted cs w
      → (get_writes_enabled r (process r p h n w) ≡ false)
        × (set_writes_enabled r p false (process r p h n w) ≡ returns (process r p h n w, none))
  flags_off cs w k =
      writes_never_enabled r p setup dir ip raft_port shard replica boot m k.opened_as
        (process r p h n w) cs k.opened k.ran

  -- Whatever calls and entries its process has gone through, a replica refuses every put that
  -- another replica forwards to it for a client, and nothing changes.
  pub forwarded_put_refused :
      (cs : List Call) (req : InternalPutRequest) (w : n.World)
      → IsStarted cs w
      → req.is_redistribution ≡ false
      → replica_put r p h n req w ≡ returns (w, err writes_disabled)
  unfolding replica_put
  forwarded_put_refused cs req w k plain = rw ((flags_off cs w k).0, plain)

  -- While shards are to be added or removed, a replica answers that it has paused writes, and has
  -- changed nothing: not its own state, and no log entry went out.
  pub pause_changes_nothing :
      (cs : List Call) (w : n.World) (config : KvstoreConfig)
      → OwnState n
      → IsStarted cs w
      → read_config n w ≡ returns config
      → is_empty config.new_shards ≡ false
      → replica_pause_writes r p h n w ≡ returns (w, ok true)
  unfolding replica_pause_writes
  pause_changes_nothing cs w config own k read scaling =
      rw (read, scaling, (flags_off cs w k).1, own.with_self-self w)
