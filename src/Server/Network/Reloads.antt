-- ===== src/Server/Network/Reloads.antt =====
-- The reloads of the configuration of cmd/shard/shard.go, once it names the new shards alone: what
-- each does to its own process, and that the deployment serves clients by the new ring after them.
use mathlib.Core.List.{Memᴰ}
use sharded_kvs.Prelude.{
  ℕ, suc, String, ◌≡◌, ◌≢◌, refl, sym, ◌∙◌, ap, subst, inl, inr, true, some, List, [], ◌∷◌, All,
  GoMap, lookup, is_empty, returns, String-cases,
}
use sharded_kvs.Protos.{Proto}
use sharded_kvs.Raft.{Raft}
use sharded_kvs.Kvstore.Reads.{IsShared}
use sharded_kvs.Server.{Hashing, Server, KvstoreShard, names_of}
use sharded_kvs.Server.Clients.{shard_target, populate_shard_clients}
use sharded_kvs.Server.Connected.{Extended, HasClient, populate-connects}
use sharded_kvs.Server.ReplicaRpc.{reload_config}
use sharded_kvs.Server.Steady.{Dialled}
use sharded_kvs.Server.Network.{Deployment, network, with_server}
use sharded_kvs.Server.Network.Remotes.{network-OwnState, servers-with_server}
use sharded_kvs.Server.Network.Layout.{Layout, address, Works, Serves}
use sharded_kvs.Server.Network.Reloading.{with_clients, servers-own, Reachable, populate-returns}

-- What is true of the names of a list of shards.
All-named :
    (P : String → Type 0) (shards : List KvstoreShard)
    → ((m : String) → Memᴰ m (names_of shards) → P m)
    → All (λ s. P s.name) shards
unfolding names_of
All-named P [] q = tt
All-named P (s ∷ shards) q =
    (q s.name (Memᴰ.head refl), All-named P shards (λ m i. q m (Memᴰ.tail i)))

one_named :
    (P : String → Type 0) (shards : List KvstoreShard) (m : String)
    → All (λ s. P s.name) shards
    → Memᴰ m (names_of shards)
    → P m
unfolding names_of
one_named P [] m all i = elim i [ ]
one_named P (s ∷ shards) m (q, all) (Memᴰ.head e) = subst P (sym e) q
one_named P (s ∷ shards) m (q, all) (Memᴰ.tail i) = one_named P shards m all i

module _ (r : Raft) (p : Proto) (h : Hashing) (new : Layout h) where
  -- The configuration names the shards of the new ring and no new ones, and their processes work.
  pub record Reloadable (d : Deployment r h) : Type 0 where
    pub published : is_empty d.config.new_shards ≡ true
    pub named : names_of d.config.shards ≡ new.members
    pub ring_of : h.new_ring (names_of d.config.shards) ≡ returns new.ring
    pub works : (m : String) → Memᴰ m new.members → Works r h d (address new m)
    pub ports :
        (m : String) → Memᴰ m new.members → (d.servers (address new m)).flags.shard_port ≡ new.port
    pub dialled :
        (m : String)
        → Memᴰ m new.members
        → Dialled (d.servers (address new m)).shard_clients new.port

  -- A server with the new ring and its clients.
  abbrev pub reloaded : GoMap String → Server r h → Server r h
  reloaded clients s = record s { ring = new.ring; shard_clients = clients }

  module _ (fuel : ℕ) (d : Deployment r h) (k : Reloadable d) (m : String)
      (there : Memᴰ m new.members) where
    own : String
    own = address new m

    with_ring : Deployment r h
    unfolding own
    with_ring = with_server r p h own (record (d.servers own) { ring = new.ring }) d

    port_of : (with_ring.servers own).flags.shard_port ≡ new.port
    unfolding with_ring
    port_of =
        ap (λ (s : Server r h). s.flags.shard_port) (servers-own r p h own _ d) ∙ k.ports m there

    populated :
        (clients : GoMap String) × (populate_shard_clients r h
            (network r p h own)
            (suc fuel)
            d.config.shards
            with_ring
          ≡ returns (with_clients r p h own clients with_ring))
    unfolding with_ring
    populated = populate-returns r p h own fuel d.config.shards with_ring (
        subst (λ port. Reachable r p h own port with_ring d.config.shards) (sym port_of)
          (All-named (λ name. d.running (shard_target name new.port) ≡ true) d.config.shards
            (λ name i. (k.works name (subst (Memᴰ name) k.named i)).runs)))

    pub after : Deployment r h
    after = with_clients r p h own populated.0 with_ring

    pub ran :
        reload_config r p h (network r p h (address new m)) (suc fuel) d ≡ returns (after, true)
    unfolding reload_config with_ring own after
    ran = rw (k.published, reload_config, k.ring_of, populated.1) refl

    here : after.servers own ≡ reloaded populated.0 (d.servers own)
    unfolding with_ring after
    here =
        servers-own r p h own _ with_ring
        ∙ ap (λ (s : Server r h). record s { shard_clients = populated.0 })
            (servers-own r p h own (record (d.servers own) { ring = new.ring }) d)

    elsewhere : (c : String) → c ≢ own → after.servers c ≡ d.servers c
    unfolding with_ring after
    elsewhere c ne =
        servers-with_server r p h own c _ with_ring ne ∙ servers-with_server r p h own c _ d ne

    connects :
        Extended r h (network r p h own) (network-OwnState r p h own) with_ring after
        × All (HasClient r h (network r p h own) (network-OwnState r p h own) after) d.config.shards
    unfolding after
    connects =
        populate-connects r h (network r p h own) (network-OwnState r p h own) (suc fuel)
          d.config.shards with_ring after populated.1

    abbrev AtPort : Server r h → Type 0
    AtPort s = Dialled s.shard_clients s.flags.shard_port

    clients-Dialled : Dialled populated.0 new.port
    unfolding own with_ring
    clients-Dialled =
        let before : AtPort (d.servers own) =
          subst (λ port. Dialled (d.servers own).shard_clients port) (sym (k.ports m there))
            (k.dialled m there) in
        let started : AtPort (with_ring.servers own) =
          subst AtPort (sym (servers-own r p h own (record (d.servers own) { ring = new.ring }) d))
            before in
        subst (λ port. Dialled populated.0 port) (k.ports m there)
          (subst AtPort here (connects.0.dialled started))

    clients-lookup :
        (m' : String) → Memᴰ m' new.members → lookup m' populated.0 ≡ some (address new m')
    clients-lookup m' there' =
        let (c, met) =
          one_named
            (λ name. (c : String) × (lookup name (after.servers own).shard_clients ≡ some c))
            d.config.shards m' connects.1 (subst (Memᴰ m') (sym k.named) there') in
        let met' : lookup m' populated.0 ≡ some c =
          ap (λ (s : Server r h). lookup m' s.shard_clients) (sym here) ∙ met in
        met' ∙ ap some (clients-Dialled m' c met')

    -- A process keeps its map and its node.
    pub same_process : (c : String) → (after.servers c).process ≡ (d.servers c).process
    same_process c = elim (String-cases c own) [
      | inl e ↦
          subst (λ (x : String). (after.servers x).process ≡ (d.servers x).process) (sym e)
            (ap (λ (s : Server r h). s.process) here)
      | inr ne ↦ ap (λ (s : Server r h). s.process) (elsewhere c ne)
    ]

    Works-after : (c : String) → Works r h d c → Works r h after c
    unfolding after with_ring
    Works-after c old =
        let same = sym (same_process c) in
        record {
          runs = old.runs;
          shared = subst (IsShared r) same old.shared;
          leads = ap (λ s. r.is_leader s.node) (sym same) ∙ old.leads;
        }

    pub Serves-own : Serves r h new after (address new m)
    unfolding own
    Serves-own = record {
      works = Works-after (address new m) (k.works m there);
      same_ring = ap (λ (s : Server r h). s.ring) here;
      connected = λ m' there'.
          ap (λ (s : Server r h). lookup m' s.shard_clients) here ∙ clients-lookup m' there';
    }

    pub Serves-still : (c : String) → Serves r h new d c → Serves r h new after c
    unfolding own
    Serves-still c s = elim (String-cases c own) [
      | inl e ↦ subst (Serves r h new after) (sym e) Serves-own
      | inr ne ↦ record {
        works = Works-after c s.works;
        same_ring = ap (λ (x : Server r h). x.ring) (elsewhere c ne) ∙ s.same_ring;
        connected = λ m' there'.
            ap (λ (x : Server r h). lookup m' x.shard_clients) (elsewhere c ne)
            ∙ s.connected m' there';
      }
    ]

    ports-after :
        (m' : String)
        → Memᴰ m' new.members
        → (after.servers (address new m')).flags.shard_port ≡ new.port
    unfolding own
    ports-after m' there' = elim (String-cases (address new m') own) [
      | inl e ↦
          ap (λ (x : String). (after.servers x).flags.shard_port) e
          ∙ ap (λ (s : Server r h). s.flags.shard_port) here
          ∙ k.ports m there
      | inr ne ↦
          ap (λ (s : Server r h). s.flags.shard_port) (elsewhere (address new m') ne)
          ∙ k.ports m' there'
    ]

    Dialled-after :
        (m' : String)
        → Memᴰ m' new.members
        → Dialled (after.servers (address new m')).shard_clients new.port
    Dialled-after m' there' = elim (String-cases (address new m') own) [
      | inl e ↦
          subst (λ (s : Server r h). Dialled s.shard_clients new.port)
            (sym here ∙ ap after.servers (sym e)) clients-Dialled
      | inr ne ↦
          subst (λ (s : Server r h). Dialled s.shard_clients new.port)
            (sym (elsewhere (address new m') ne)) (k.dialled m' there')
    ]

    pub Reloadable-after : Reloadable after
    unfolding after with_ring
    Reloadable-after = record {
      published = k.published;
      named = k.named;
      ring_of = k.ring_of;
      works = λ m' there'. Works-after (address new m') (k.works m' there');
      ports = ports-after;
      dialled = Dialled-after;
    }
