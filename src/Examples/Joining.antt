-- ===== src/Examples/Joining.antt =====
-- A replica joins the leader that its Raft knows.
use sharded_kvs.Prelude.{[], ◌∷◌, ◌≡◌, refl, false, returns, lookup}
use sharded_kvs.Kvstore.Ops.{leader, has_latest_logs}
use sharded_kvs.Server.{client}
use sharded_kvs.Server.Startup.{join_cluster, find_leader, wait_for_logs}
use sharded_kvs.Server.Joining.{Joined, join_cluster-Joined}
use sharded_kvs.Samples.Codec.{codec}
use sharded_kvs.Samples.Node.{sample_raft, fresh_process}
use sharded_kvs.Samples.World.{SampleWorld, sample_hashing, sample_net, sample_world, sample_config}

abbrev alone : SampleWorld
alone = sample_world (fresh_process false "first") [] [] (sample_config [] [])

abbrev joining : SampleWorld
joining = record alone {
  self = record alone.self { replica_clients = ("first", "10.0.0.2:8082") ∷ [] };
}

joined :
    join_cluster sample_raft codec sample_hashing sample_net 1 (λ w. w) ("first" ∷ []) joining
    ≡ returns joining
unfolding join_cluster find_leader wait_for_logs client lookup leader has_latest_logs sample_raft
    fresh_process
joined = refl

join_cluster-Joined_example :
    Joined sample_raft codec sample_hashing sample_net ("first" ∷ []) joining joining
join_cluster-Joined_example =
    join_cluster-Joined sample_raft codec sample_hashing sample_net 1 (λ w. w) ("first" ∷ [])
      joining joining joined
