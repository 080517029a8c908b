-- ===== src/Server/Laws.antt =====
-- What the proofs about the server of cmd/shard/shard.go assume of its world, as named laws.
use sharded_kvs.Prelude.{String, ◌≡◌, ◌≢◌, Option, some, ok}
use sharded_kvs.Protos.{InternalPutRequest}
use sharded_kvs.Raft.{Raft}
use sharded_kvs.Kvstore.Ops.{Process}
use sharded_kvs.Server.{Hashing, Server, Net}
use sharded_kvs.Server.Clients.{shard_target}

-- Reading and writing the server's own variables; a dial changes none of them.
pub record OwnState {S : Type 0} (n : Net S) : Type 0 where
  pub self-with_self : (s : S) (w : n.World) → n.self (n.with_self s w) ≡ s
  pub with_self-self : (w : n.World) → n.with_self (n.self w) w ≡ w
  pub self-dial : (target : String) (w : n.World) → n.self (n.dial target w).0 ≡ n.self w

-- The other shards while keys are sent to them. `held w c k` is the value that the shard at the
-- address `c` has for `k`, and `fit w` is what must be true of the other shards for the rest to hold.
pub record Remote (r : Raft) (h : Hashing) (n : Net (Server r h)) : Type 1 where
  pub held : n.World → String → String → Option String
  pub fit : n.World → Type 0
  pub fit-with_process :
      (s : Process r) (w : n.World)
      → fit w
      → fit (n.with_self (record (n.self w) { process = s }) w)
  -- a put to another shard leaves them so
  pub fit-put :
      (c : String) (req : InternalPutRequest) (w : n.World)
      → fit w
      → c ≢ shard_target (n.self w).flags.shard (n.self w).flags.shard_port
      → fit (n.shard_put c req w).0
  pub held-with_self : (s : Server r h) (w : n.World) → held (n.with_self s w) ≡ held w
  -- it has stored the value if it reports success
  pub put-stores :
      (c : String) (req : InternalPutRequest) (w : n.World)
      → fit w
      → c ≢ shard_target (n.self w).flags.shard (n.self w).flags.shard_port
      → (n.shard_put c req w).1 ≡ ok tt
      → held (n.shard_put c req w).0 c req.key ≡ some req.value
  -- and changes no other key
  pub put-others :
      (c c' k : String) (req : InternalPutRequest) (w : n.World)
      → fit w
      → c ≢ shard_target (n.self w).flags.shard (n.self w).flags.shard_port
      → k ≢ req.key
      → held (n.shard_put c req w).0 c' k ≡ held w c' k
  -- and does not come back to this server
  pub put-away :
      (c : String) (req : InternalPutRequest) (w : n.World)
      → fit w
      → c ≢ shard_target (n.self w).flags.shard (n.self w).flags.shard_port
      → n.self (n.shard_put c req w).0 ≡ n.self w
