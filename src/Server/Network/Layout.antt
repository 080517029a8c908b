-- ===== src/Server/Network/Layout.antt =====
-- A deployment of cmd/shard/shard.go that is ready for the requests of clients, and the one map that
-- it stands for.
use mathlib.Core.List.{Memᴰ}
use sharded_kvs.Prelude.{
  ℕ, String, ◌≡◌, ◌⊎◌, true, Option, some, List, Result, ok, lookup, if◌then◌else◌, ◌==◌,
}
use sharded_kvs.Raft.{Raft}
use sharded_kvs.Kvstore.Reads.{IsShared, value_at}
use sharded_kvs.Server.{Hashing}
use sharded_kvs.Server.Clients.{shard_target}
use sharded_kvs.Server.Network.{Deployment}

-- The shards that a deployment was set up with: their names, the port of their shard service, the
-- ring that all of them hold, and the shard that the ring gives each key.
pub record Layout (h : Hashing) : Type 0 where
  pub members : List String
  pub port : ℕ
  pub ring : h.Ring
  pub home : String → String
  pub located : (key : String) → h.locate_key ring key ≡ some (home key)
  pub home-member : (key : String) → Memᴰ (home key) members

abbrev pub address : {h : Hashing} → Layout h → String → String
address l m = shard_target m l.port

-- The process at an address runs, and leads its Raft cluster.
pub record Works (r : Raft) (h : Hashing) (d : Deployment r h) (c : String) : Type 0 where
  pub runs : d.running c ≡ true
  pub shared : IsShared r (d.servers c).process
  pub leads : r.is_leader (d.servers c).process.node ≡ true

-- The process of a shard works, holds the ring, and has dialled every shard.
pub record Serves (r : Raft) (h : Hashing) (l : Layout h) (d : Deployment r h) (c : String)
    : Type 0 where
  pub works : Works r h d c
  pub same_ring : (d.servers c).ring ≡ l.ring
  pub connected :
      (m : String) → Memᴰ m l.members → lookup m (d.servers c).shard_clients ≡ some (address l m)

abbrev pub IsReady : (r : Raft) (h : Hashing) → Layout h → Deployment r h → Type 0
IsReady r h l d = (m : String) → Memᴰ m l.members → Serves r h l d (address l m)

-- The one map that a deployment stands for: a key has the value that its shard has for it.
abbrev pub contents : {r : Raft} {h : Hashing} → Layout h → Deployment r h → String → Option String
contents {r = r} l d key = value_at r key (d.servers (address l (l.home key))).process

-- The map with another value, or none, for a key.
abbrev pub updated : String → Option String → (String → Option String) → String → Option String
updated key new f j = if key == j then new else f j

-- A write that changes nothing, or its own key, which it has changed if it reports success.
pub record Wrote (key : String) (new : Option String) (f g : String → Option String)
    (res : Result (Unit {0})) : Type 0 where
  pub changed_or_kept : (g ≡ updated key new f) ⊎ (g ≡ f)
  pub changed : res ≡ ok tt → g ≡ updated key new f
