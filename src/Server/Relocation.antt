-- ===== src/Server/Relocation.antt =====
-- `RedistributeKeys` of cmd/shard/shard.go loses no key: it purges a key only after the shard that
-- the new ring gives it to has stored its value.
use sharded_kvs.Prelude.{String, ◌≡◌, ◌≢◌, some, List, GoMap, lookup, returns}
use sharded_kvs.Protos.{Proto}
use sharded_kvs.Raft.{Raft}
use sharded_kvs.Kvstore.Reads.{Quiet}
use sharded_kvs.Server.{Hashing, Server, Net, Flags, located}
use sharded_kvs.Server.Redistribute.{move_keys}
use sharded_kvs.Server.Laws.{OwnState, Remote}
use sharded_kvs.Server.Steady.{Dialled, IsSteady, IsSafe}
use sharded_kvs.Server.Interleaving.{sets, deletes, System, Reach, start, loop, writes}
use sharded_kvs.Server.Interleaving.Atomic.{Nobody, move_keys-Reach}
use sharded_kvs.Server.Interleaving.Safety.{Reach-Inv}

-- Clients that may write more reach what those that may write less do.
Reach_mono :
    (r : Raft) (p : Proto) (h : Hashing) (n : Net (Server r h)) (new_ring : h.Ring)
    (few many : String → Type 0)
    → ((key : String) → few key → many key)
    → {s t : System r p h n new_ring} → Reach r p h n new_ring few s t
    → Reach r p h n new_ring many s t
Reach_mono r p h n new_ring few many more start = start
Reach_mono r p h n new_ring few many more (loop reached step) =
    loop (Reach_mono r p h n new_ring few many more reached) step
Reach_mono r p h n new_ring few many more (writes reached (sets key value t may ran)) =
    writes (Reach_mono r p h n new_ring few many more reached) (sets key value t (more key may) ran)
Reach_mono r p h n new_ring few many more (writes reached (deletes key t may ran)) =
    writes (Reach_mono r p h n new_ring few many more reached) (deletes key t (more key may) ran)

module _ (r : Raft) (p : Proto) (h : Hashing) (n : Net (Server r h)) (own : OwnState n)
    (remote : Remote r h n) (quiet : Quiet r) (flags : Flags) (clients : GoMap String)
    (dialled : Dialled clients flags.shard_port) (new_ring : h.Ring) (k v dest c : String)
    (destined : located h new_ring k ≡ returns dest)
    (connected : lookup dest clients ≡ some c) where
  abbrev Steady : n.World → Type 0
  Steady w = IsSteady r p h n own remote quiet flags clients dialled w

  abbrev Safe : n.World → Type 0
  Safe w =
      IsSafe r p h n own remote quiet flags clients dialled new_ring k v dest c destined connected w

  -- With no other writer, and shards that store what they acknowledge: whatever keys the loop
  -- goes through, and however its puts and deletes fail, if it returns, a value that this shard
  -- had, or that had arrived at its destination, is still here or is stored at its destination.
  pub move_keys-IsSafe :
      (keys : List String) (w w' : n.World)
      → move_keys r p h n new_ring keys w ≡ returns w'
      → Steady w
      → Safe w
      → Steady w' × Safe w'
  move_keys-IsSafe keys w w' q steady safe =
      let reached =
        Reach_mono r p h n new_ring Nobody (λ j. k ≢ j) (λ j nobody. absurd nobody)
          (move_keys-Reach r p h n new_ring keys w w' q) in
      let inv =
        Reach-Inv r p h n own remote quiet flags clients dialled new_ring k v dest c destined
          connected reached (record { steady = steady; safe = safe; locals = tt }) in
      (inv.steady, inv.safe)
