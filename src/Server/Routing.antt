-- ===== src/Server/Routing.antt =====
-- The `kvServer` of cmd/shard/shard.go: each request goes to the shard that the ring gives its key.
use sharded_kvs.Prelude.{String, false, Result, Outcome, returns, ◌>>=◌}
use sharded_kvs.Protos.{PutRequest}
use sharded_kvs.Raft.{Raft}
use sharded_kvs.Server.{Hashing, Server, Net, located, client}

module _ (r : Raft) (h : Hashing) (n : Net (Server r h)) where
  -- The address of the client for the shard that owns a key.
  unfoldable pub owner : String → n.World → Outcome String
  owner key w = located h (n.self w).ring key >>= λ member. client member (n.self w).shard_clients

  unfoldable pub kv_get : String → n.World → Outcome (n.World × Result String)
  unfolding owner
  kv_get key w = owner key w >>= λ c. returns (n.shard_get c key w)

  unfoldable pub kv_put : PutRequest → n.World → Outcome (n.World × Result (Unit {0}))
  unfolding owner
  kv_put req w = owner req.key w >>= λ c.
      returns
        (n.shard_put c (record { key = req.key; value = req.value; is_redistribution = false }) w)

  unfoldable pub kv_delete : String → n.World → Outcome (n.World × Result (Unit {0}))
  unfolding owner
  kv_delete key w = owner key w >>= λ c. returns (n.shard_delete c key w)
