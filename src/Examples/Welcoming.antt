-- ===== src/Examples/Welcoming.antt =====
-- A replica comes back under its name with a new address and joins the cluster.
use sharded_kvs.Prelude.{List, [], ◌∷◌, ◌≡◌, refl, true, false, none, ◌⊎◌, itoa, eq_iff}
use sharded_kvs.Raft.{Member}
use sharded_kvs.Raft.Common.{join_replica}
use sharded_kvs.Kvstore.Ops.{Process, join, join_loop, server_id, server_address}
use sharded_kvs.Kvstore.Membership.{Named, Welcomed, join-Welcomed}
use sharded_kvs.Samples.Node.{empty_memory}
use sharded_kvs.Samples.Cluster.{Cluster, cluster_raft, cluster-Members}

abbrev two_members : List Member
two_members =
    record { id = "r0.s:8081"; address = "10.0.0.9:8081"; voter = false }
    ∷ record { id = "r1.s:8081"; address = "10.0.0.2:8081"; voter = true }
    ∷ []

two-Named : Named two_members
two-Named = (
  ((λ e. let same : false ≡ true = (eq_iff "r0.s:8081" "r1.s:8081").1 e in absurd (cc (same))), tt),
  (tt, tt),
)

abbrev cluster : Cluster
cluster = record { members = two_members; named = two-Named; leading = true }

abbrev before : Process cluster_raft
before = record {
  memory = empty_memory;
  kv = record { store = 0; writes_enabled = false; last_snapshot_index = 0 };
  fsm = record { store = 0; writes_enabled = false; last_snapshot_index = 0 };
  node = cluster;
}

abbrev after : Process cluster_raft
after = (join cluster_raft "10.0.0.1" 8081 "s" "r0" before).0

joined : join cluster_raft "10.0.0.1" 8081 "s" "r0" before ≡ (after, none)
unfolding join join_loop join_replica server_id server_address itoa
joined = refl

join-Welcomed_example :
    (after.node.leading ≡ false)
    ⊎ Welcomed cluster_raft cluster-Members
        (server_id "r0" "s" 8081)
        (server_address "10.0.0.1" 8081)
        cluster
        after.node
join-Welcomed_example =
    join-Welcomed cluster_raft cluster-Members "10.0.0.1" 8081 "s" "r0" before after refl joined
