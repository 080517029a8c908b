-- ===== src/Server/Network/Rescaling.antt =====
-- A deployment of cmd/shard/shard.go that goes from one ring to another, and where its values are on
-- the way.
use mathlib.Core.List.{Memᴰ}
use sharded_kvs.Prelude.{String, ◌≡◌, ◌≢◌, sym, ◌∙◌, ap, ◌⊎◌, Option, none, some, inl, inr, lookup}
use sharded_kvs.Raft.{Raft}
use sharded_kvs.Server.{Hashing}
use sharded_kvs.Server.Clients.{shard_target}
use sharded_kvs.Server.Steady.{Dialled, shard_target-injective}
use sharded_kvs.Server.Network.{Deployment}
use sharded_kvs.Server.Network.Layout.{Layout, address, Works, contents}

module _ (r : Raft) (h : Hashing) (old new : Layout h) where
  -- A shard of the old ring: it holds that ring, and has dialled the shards of both.
  pub record Source (d : Deployment r h) (m : String) : Type 0 where
    pub works : Works r h d (address old m)
    pub same_ring : (d.servers (address old m)).ring ≡ old.ring
    pub named : (d.servers (address old m)).flags.shard ≡ m
    pub connected :
        (m' : String)
        → Memᴰ m' new.members
        → lookup m' (d.servers (address old m)).shard_clients ≡ some (address new m')
    pub dialled :
        (m' : String)
        → Memᴰ m' old.members
        → lookup m' (d.servers (address old m)).shard_clients ≡ some (address old m')

  -- A shard of the new ring.
  pub record Target (d : Deployment r h) (m : String) : Type 0 where
    pub works : Works r h d (address new m)
    pub port : (d.servers (address new m)).flags.shard_port ≡ new.port
    pub known : Dialled (d.servers (address new m)).shard_clients new.port

  pub record Prepared (d : Deployment r h) : Type 0 where
    pub sources : (m : String) → Memᴰ m old.members → Source d m
    pub targets : (m : String) → Memᴰ m new.members → Target d m

  -- Where the value of a key is, if the clients had the map `f`.
  pub data Place (f : String → Option String) (d : Deployment r h) (key : String) : Type 0 where
    -- the key does not move
    stays : old.home key ≡ new.home key → contents old d key ≡ f key → Place f d key
    -- it is still at its old shard, and perhaps at its new one too
    waits_here :
        old.home key ≢ new.home key
        → contents old d key ≡ f key
        → (contents new d key ≡ none) ⊎ (contents new d key ≡ f key)
        → Place f d key
    -- it is at its new shard
    moved :
        old.home key ≢ new.home key
        → contents old d key ≡ none
        → contents new d key ≡ f key
        → Place f d key

  pub Place-same :
      (f : String → Option String) (d d' : Deployment r h) (key : String)
      → contents old d' key ≡ contents old d key
      → contents new d' key ≡ contents new d key
      → Place f d key
      → Place f d' key
  Place-same f d d' key a b (stays e q) = stays e (a ∙ q)
  Place-same f d d' key a b (waits_here ne q (inl x)) = waits_here ne (a ∙ q) (inl (b ∙ x))
  Place-same f d d' key a b (waits_here ne q (inr x)) = waits_here ne (a ∙ q) (inr (b ∙ x))
  Place-same f d d' key a b (moved ne q x) = moved ne (a ∙ q) (b ∙ x)

  -- The value of a key is at its new shard, and no longer at another one that it had.
  abbrev pub Arrived : (String → Option String) → Deployment r h → String → Type 0
  Arrived f d key =
      (contents new d key ≡ f key) × (old.home key ≢ new.home key → contents old d key ≡ none)

  -- A key that moves goes to another address.
  pub addresses :
      (key : String)
      → new.port ≡ old.port
      → old.home key ≢ new.home key
      → address new (new.home key) ≢ address old (old.home key)
  addresses key same ne e = ne (
      sym (
        shard_target-injective (new.home key) (old.home key) old.port
          (ap (shard_target (new.home key)) (sym same) ∙ e)))
