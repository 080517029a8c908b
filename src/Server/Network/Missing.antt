-- ===== src/Server/Network/Missing.antt =====
-- What a client reads of cmd/shard/shard.go between the end of `RedistributeKeys` and the reload of
-- the configuration.
use mathlib.Core.List.{Memᴰ}
use sharded_kvs.Prelude.{String, ◌≡◌, ◌≢◌, ◌∙◌, ap, Option, some, key_not_found, List, err, returns}
use sharded_kvs.Protos.{Proto}
use sharded_kvs.Raft.{Raft}
use sharded_kvs.Kvstore.Reads.{Quiet, answer}
use sharded_kvs.Server.{Hashing}
use sharded_kvs.Server.Routing.{kv_get}
use sharded_kvs.Server.Network.{Deployment, network}
use sharded_kvs.Server.Network.Layout.{Layout, address, IsReady, contents}
use sharded_kvs.Server.Network.Leading.{IsSteadfast, IsReliable}
use sharded_kvs.Server.Network.Clients.{get-contents}
use sharded_kvs.Server.Network.Rescaling.{Prepared}
use sharded_kvs.Server.Network.Moves.{Move, move_all, IsComplete, IsClean, move_all-Arrived}

module _ (r : Raft) (p : Proto) (h : Hashing) (old new : Layout h) (quiet : Quiet r)
    (steadfast : IsSteadfast r p) (same_port : new.port ≡ old.port) where
  -- A deployment on its way to a new ring serves clients by the old one.
  pub Prepared-IsReady : (d : Deployment r h) → Prepared r h old new d → IsReady r h old d
  Prepared-IsReady d k m there =
      let s = k.sources m there in
      record { works = s.works; same_ring = s.same_ring; connected = s.dialled }

  -- A deployment that is prepared for a new ring, none of whose keys has a value yet at a shard
  -- that it is to move to; no other writer, leaders that go on leading, and no write that fails.
  -- After the loops, which go through all the keys, a get at any shard of the old ring of a key
  -- that has moved answers that the key is not found, although its value is at its new shard.
  pub get_after_moves :
      (d : Deployment r h) (moves : List (Move r p h old new)) (key value : String)
      → Prepared r h old new d
      → IsClean r p h old new d
      → IsReliable r p (contents old d)
      → IsComplete r p h old new moves d
      → old.home key ≢ new.home key
      → contents old d key ≡ some value
      → (d' : Deployment r h) × (move_all r p h old new moves d ≡ returns d')
        × (contents new d' key ≡ some value)
        × ((m : String)
            → Memᴰ m old.members
            → kv_get r h (network r p h (address old m)) key d' ≡ returns (d', err key_not_found))
  get_after_moves d moves key value prepared clean reliable complete ne held =
      let (d', ran, still, arrived) =
        move_all-Arrived r p h old new quiet steadfast same_port d prepared clean moves reliable
          complete in
      (
        d',
        ran,
        (arrived key).0 ∙ held,
        λ m there.
            get-contents r p h quiet steadfast old d' (Prepared-IsReady d' still) m key there
            ∙ ap (λ (o : Option String). returns (d', answer o)) ((arrived key).1 ne),
      )
