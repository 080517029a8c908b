-- ===== src/Server/Network/Switching.antt =====
-- The whole way of a deployment of cmd/shard/shard.go from one ring to another: the loops of
-- `RedistributeKeys`, the configuration that names the new shards alone, its reload at every shard,
-- and the requests of clients after it.
use mathlib.Core.List.{Memᴰ}
use mathlib.Core.Path.{fun_ext}
use sharded_kvs.Prelude.{
  ℕ, suc, String, ◌≡◌, refl, sym, ◌∙◌, ap, subst, true, List, [], ◌∷◌, is_empty, returns, Outcome,
  ◌>>=◌,
}
use sharded_kvs.Protos.{Proto}
use sharded_kvs.Raft.{Raft}
use sharded_kvs.Kvstore.Ops.{Process}
use sharded_kvs.Kvstore.Reads.{Quiet, value_at}
use sharded_kvs.Server.{Hashing, KvstoreConfig, names_of}
use sharded_kvs.Server.ReplicaRpc.{reload_config}
use sharded_kvs.Server.Network.{Deployment, network}
use sharded_kvs.Server.Network.Layout.{Layout, address, Serves, IsReady, contents}
use sharded_kvs.Server.Network.Leading.{IsSteadfast, IsReliable}
use sharded_kvs.Server.Network.Rescaling.{Prepared}
use sharded_kvs.Server.Network.Moves.{Move, move_all, IsComplete, IsClean, move_all-Arrived}
use sharded_kvs.Server.Network.Requests.{Exchange, Trace, Asked, serve_all, serve_all-ServedAll}
use sharded_kvs.Server.Network.Reloads.{
  Reloadable, after, ran, same_process, Serves-own, Serves-still, Reloadable-after,
}

-- The controller publishes a configuration.
abbrev pub publish : {r : Raft} {h : Hashing} → KvstoreConfig → Deployment r h → Deployment r h
publish config d = record d { config = config }

module _ (r : Raft) (p : Proto) (h : Hashing) (new : Layout h) (fuel : ℕ) where
  -- The shards reload their configuration, one after the other.
  unfoldable pub reload_each : List String → Deployment r h → Outcome (Deployment r h)
  reload_each [] d = returns d
  reload_each (m ∷ ms) d =
      reload_config r p h (network r p h (address new m)) (suc fuel) d >>= λ t. reload_each ms t.0

  record Switched (d : Deployment r h) (ms : List String) (o : Outcome (Deployment r h))
      : Type 0 where
    pub end : Deployment r h
    pub done : o ≡ returns end
    pub processes : (c : String) → (end.servers c).process ≡ (d.servers c).process
    pub serving : (m : String) → Memᴰ m ms → Serves r h new end (address new m)
    pub serving_still : (c : String) → Serves r h new d c → Serves r h new end c

  reload_each-Switched :
      (ms : List String) (d : Deployment r h)
      → Reloadable r p h new d
      → ((m : String) → Memᴰ m ms → Memᴰ m new.members)
      → Switched d ms (reload_each ms d)
  unfolding reload_each
  reload_each-Switched [] d k all = record {
    end = d;
    done = refl;
    processes = λ c. refl;
    serving = λ m i. elim i [ ];
    serving_still = λ c s. s;
  }
  reload_each-Switched (m ∷ ms) d k all =
      let there = all m (Memᴰ.head refl) in
      let d' = after r p h new fuel d k m there in
      let rest =
        reload_each-Switched ms d' (Reloadable-after r p h new fuel d k m there)
          (λ m' i. all m' (Memᴰ.tail i)) in
      record {
        end = rest.end;
        done = rw (ran r p h new fuel d k m there) rest.done;
        processes = λ c. rest.processes c ∙ same_process r p h new fuel d k m there c;
        serving = λ m' i. elim i [
          | Memᴰ.head e ↦
              subst (λ (x : String). Serves r h new rest.end (address new x)) (sym e)
                (rest.serving_still (address new m) (Serves-own r p h new fuel d k m there))
          | Memᴰ.tail j ↦ rest.serving m' j
        ];
        serving_still = λ c s. rest.serving_still c (Serves-still r p h new fuel d k m there c s);
      }

  -- After the reloads the deployment serves clients by the new ring, and has the map that it had.
  pub reload_each-IsReady :
      (d : Deployment r h)
      → Reloadable r p h new d
      → (d' : Deployment r h) × (reload_each new.members d ≡ returns d')
        × IsReady r h new d'
        × (contents new d' ≡ contents new d)
  reload_each-IsReady d k =
      let s = reload_each-Switched new.members d k (λ m i. i) in
      (
        s.end,
        s.done,
        s.serving,
        fun_ext (λ key.
            ap (λ (x : Process r). value_at r key x) (s.processes (address new (new.home key)))),
      )

-- The configuration that the controller publishes at the end names the shards of the new ring.
pub record IsFinal (h : Hashing) (new : Layout h) (config : KvstoreConfig) : Type 0 where
  pub no_new : is_empty config.new_shards ≡ true
  pub named : names_of config.shards ≡ new.members
  pub ring_of : h.new_ring (names_of config.shards) ≡ returns new.ring

module _ (r : Raft) (p : Proto) (h : Hashing) (old new : Layout h) (quiet : Quiet r)
    (steadfast : IsSteadfast r p) (same_port : new.port ≡ old.port) where
  Prepared-Reloadable :
      (d : Deployment r h) (config : KvstoreConfig)
      → Prepared r h old new d
      → IsFinal h new config
      → Reloadable r p h new (publish config d)
  Prepared-Reloadable d config k final = record {
    published = final.no_new;
    named = final.named;
    ring_of = final.ring_of;
    works = λ m there.
        let w = (k.targets m there).works in
        record { runs = w.runs; shared = w.shared; leads = w.leads };
    ports = λ m there. (k.targets m there).port;
    dialled = λ m there. (k.targets m there).known;
  }

  -- A deployment that is prepared for a new ring, none of whose keys has a value yet at a shard
  -- that it is to move to; no other writer, leaders that go on leading, no write that fails, and no
  -- requests of clients on the way. The loops of all the shards, whose rounds may follow one
  -- another in any order, go through all the keys; then the published configuration names the
  -- shards of the new ring alone, and each of them reloads it. All of this returns, and any list of
  -- requests after it, each at any shard of the new ring, is served as one map serves it that
  -- starts as what the shards of the old ring held.
  pub rescaled-serves :
      (d : Deployment r h) (moves : List (Move r p h old new)) (config : KvstoreConfig) (fuel : ℕ)
      (asked : List (Asked r p h new))
      → Prepared r h old new d
      → IsClean r p h old new d
      → IsReliable r p (contents old d)
      → IsComplete r p h old new moves d
      → IsFinal h new config
      → (moved : Deployment r h) × (move_all r p h old new moves d ≡ returns moved)
        × (switched : Deployment r h) × (reload_each r p h new fuel new.members
              (publish config moved)
            ≡ returns switched)
        × (end : Deployment r h) × (events : List Exchange) × (serve_all r p h new asked switched
            ≡ returns (end, events))
        × Trace (contents old d) events (contents new end)
  rescaled-serves d moves config fuel asked prepared clean reliable complete final =
      let (d1, moved, still, arrived) =
        move_all-Arrived r p h old new quiet steadfast same_port d prepared clean moves reliable
          complete in
      let (d2, reloaded, ready, same) =
        reload_each-IsReady r p h new fuel (publish config d1)
          (Prepared-Reloadable d1 config still final) in
      let served = serve_all-ServedAll r p h new quiet steadfast asked d2 ready in
      (
        d1,
        moved,
        d2,
        reloaded,
        served.after,
        served.events,
        served.ran,
        subst (λ f. Trace f served.events (contents new served.after))
            (same ∙ fun_ext (λ key. (arrived key).0)) served.run,
      )
