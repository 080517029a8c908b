-- ===== src/Server/Redistribute.antt =====
-- `RedistributeKeys` of cmd/shard/shard.go, the goroutine that moves keys to their new shards.
use sharded_kvs.Prelude.{
  ℕ, ◌-◌, String, Bool, true, false, List, [], ◌∷◌, Result, ok, err, Outcome, returns, ◌>>=◌,
  if◌then◌else◌, ◌==◌, not, ◌&&◌, is_empty,
}
use sharded_kvs.Protos.{Proto, InternalPutRequest}
use sharded_kvs.Raft.{Raft}
use sharded_kvs.Kvstore.Ops.{keys, get, delete}
use sharded_kvs.Server.{Hashing, Server, Net, read_config, located, names_of, client}
use sharded_kvs.Server.ShardRpc.{process, with_process}
use sharded_kvs.Server.Clients.{populate_shard_clients}

abbrev pub relocation : String → String → InternalPutRequest
relocation key value = record { key = key; value = value; is_redistribution = true }

module _ (r : Raft) (p : Proto) (h : Hashing) (n : Net (Server r h)) where
  -- After the target shard answered: the key is purged here, and an error of that is only logged.
  unfoldable pub purge : String → n.World × Result (Unit {0}) → Outcome n.World
  purge key (w, err e) = returns w
  purge key (w, ok u) =
      delete r p key (process r p h n w) >>= λ t. returns (with_process r p h n t.0 w)

  -- A key that is not found any more is skipped.
  unfoldable pub send_key : String → String → Result String → n.World → Outcome n.World
  unfolding purge
  send_key key target (err e) w = returns w
  send_key key target (ok value) w = client target (n.self w).shard_clients >>= λ c.
      purge key (n.shard_put c (relocation key value) w)

  -- One round of the loop over the keys.
  unfoldable pub move_key : h.Ring → String → n.World → Outcome n.World
  unfolding send_key
  move_key new_ring key w = located h (n.self w).ring key >>= λ old.
      located h new_ring key >>= λ new.
      if not (old == new) && old == (n.self w).flags.shard
      then send_key key new (get r key (process r p h n w)) w
      else returns w

  unfoldable pub move_keys : h.Ring → List String → n.World → Outcome n.World
  move_keys new_ring [] w = returns w
  move_keys new_ring (key ∷ keys) w = move_key new_ring key w >>= λ w'. move_keys new_ring keys w'

  abbrev set_redistributing : Bool → n.World → n.World
  set_redistributing b w = n.with_self (record (n.self w) { redistributing = b }) w

  -- The keys are those of the map at the start of the loop: the loop itself only deletes the key
  -- that it is at.
  unfoldable pub redistribute_body : ℕ → n.World → Outcome n.World
  redistribute_body fuel w = read_config n w >>= λ config.
      if is_empty config.new_shards
      then returns w
      else (populate_shard_clients r h n fuel config.new_shards w >>= λ w'.
          h.new_ring (names_of config.new_shards) >>= λ new_ring.
          move_keys new_ring (keys r (process r p h n w')) w')

  -- One goroutine at a time does the work; the flag is reset when it ends.
  unfoldable pub redistribute_keys : ℕ → n.World → Outcome n.World
  unfolding redistribute_body
  redistribute_keys fuel w =
      if (n.self w).redistributing
      then returns w
      else (redistribute_body fuel (set_redistributing true w) >>= λ w'.
          returns (set_redistributing false w'))

  -- A goroutine that a handler started runs.
  unfoldable pub run_job : ℕ → n.World → Outcome n.World
  run_job fuel w =
      redistribute_keys fuel (n.with_self (record (n.self w) { jobs = (n.self w).jobs - 1 }) w)
