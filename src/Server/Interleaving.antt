-- ===== src/Server/Interleaving.antt =====
-- The loop of `RedistributeKeys` of cmd/shard/shard.go in atomic steps, between which the server
-- handles writes of clients: it reads a key, sends its value, and deletes the key, and holds no lock
-- that a write waits for.
pub mod Atomic
pub mod Others
pub mod Safety
pub mod Lost
use sharded_kvs.Prelude.{
  String, Bool, true, false, Option, Error, List, [], ◌∷◌, ◌≡◌, ◌==◌, not, ◌&&◌, Result, ok, err,
  returns,
}
use sharded_kvs.Protos.{Proto}
use sharded_kvs.Raft.{Raft}
use sharded_kvs.Kvstore.Ops.{Process, get, set, delete}
use sharded_kvs.Server.{Hashing, Server, Net, located, client}
use sharded_kvs.Server.ShardRpc.{process, with_process}
use sharded_kvs.Server.Redistribute.{relocation}

-- Where the loop stands, with the variables that are live there.
pub data Pc : Type 0 where
  -- at the head of the loop, with the keys that are left
  scanning : (keys : List String) → Pc
  -- after `Get`: the key, its value, and the shard that it goes to
  holding : (key value target : String) (keys : List String) → Pc
  -- after a `Put` that succeeded
  sent : (key : String) (keys : List String) → Pc

module _ (r : Raft) (p : Proto) (h : Hashing) (n : Net (Server r h)) (new_ring : h.Ring) where
  -- The test of the loop: the old ring gives the key to this shard, the new one to another.
  pub record Targets (w : n.World) (key new : String) (moves : Bool) : Type 0 where
    pub old : String
    pub at_old : located h (n.self w).ring key ≡ returns old
    pub at_new : located h new_ring key ≡ returns new
    pub test : (not (old == new) && old == (n.self w).flags.shard) ≡ moves

  pub data LoopStep (w : n.World) : Pc → Pc → n.World → Type 0 where
    skip :
        {key new : String} {keys : List String}
        → Targets w key new false
        → LoopStep w (scanning (key ∷ keys)) (scanning keys) w
    missing :
        {key new : String} {keys : List String} {e : Error}
        → Targets w key new true
        → get r key (process r p h n w) ≡ err e
        → LoopStep w (scanning (key ∷ keys)) (scanning keys) w
    read :
        {key new value : String} {keys : List String}
        → Targets w key new true
        → get r key (process r p h n w) ≡ ok value
        → LoopStep w (scanning (key ∷ keys)) (holding key value new keys) w
    refused :
        {key value new c : String} {keys : List String} {e : Error}
        → client new (n.self w).shard_clients ≡ returns c
        → (n.shard_put c (relocation key value) w).1 ≡ err e
        → LoopStep w
            (holding key value new keys)
            (scanning keys)
            (n.shard_put c (relocation key value) w).0
    accepted :
        {key value new c : String} {keys : List String}
        → client new (n.self w).shard_clients ≡ returns c
        → (n.shard_put c (relocation key value) w).1 ≡ ok tt
        → LoopStep w
            (holding key value new keys)
            (sent key keys)
            (n.shard_put c (relocation key value) w).0
    purged :
        {key : String} {keys : List String} {t : Process r × Option Error}
        → delete r p key (process r p h n w) ≡ returns t
        → LoopStep w (sent key keys) (scanning keys) (with_process r p h n t.0 w)

  -- A write that a client's request makes of this process, of a key that it may write.
  pub data ClientStep (allowed : String → Type 0) (w : n.World) : n.World → Type 0 where
    sets :
        (key value : String) (t : Process r × Option Error)
        → allowed key
        → set r p key value (process r p h n w) ≡ returns t
        → ClientStep allowed w (with_process r p h n t.0 w)
    deletes :
        (key : String) (t : Process r × Option Error)
        → allowed key
        → delete r p key (process r p h n w) ≡ returns t
        → ClientStep allowed w (with_process r p h n t.0 w)

  pub record System : Type 0 where
    pub pc : Pc
    pub world : n.World

  -- The states that the loop reaches, with the clients' writes in any order between its steps.
  pub data Reach (allowed : String → Type 0) (s : System) : System → Type 0 where
    start : Reach allowed s s
    loop :
        {t : System} {pc : Pc} {w : n.World}
        → Reach allowed s t
        → LoopStep t.world t.pc pc w
        → Reach allowed s (record { pc = pc; world = w })
    writes :
        {t : System} {w : n.World}
        → Reach allowed s t
        → ClientStep allowed t.world w
        → Reach allowed s (record { pc = t.pc; world = w })
