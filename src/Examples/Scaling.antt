-- ===== src/Examples/Scaling.antt =====
-- Runs of the reconciler.
use mathlib.Core.List.{Memᴰ}
use sharded_kvs.Prelude.{
  ℕ, ◌≢◌, ok, none, [], ◌∷◌, ◌≤◌, ◌<◌, ◌≡◌, ◌↔◌, refl, true, false, Outcome, returns, arith, length,
}
use sharded_kvs.Controller.{
  normal, stopping_writes, redistributing_keys, finalizing_scale, StatefulSet, Cluster,
}
use sharded_kvs.Controller.Objects.{shard_name, new_shard}
use sharded_kvs.Controller.Phases.{
  contains, groups_to_delete, delete_loop, prepare_scale, stop_writes, redistribute_keys,
  resume_writes, enter, reached, finalize_scale,
}
use sharded_kvs.Controller.Config.{update_config_map}
use sharded_kvs.Controller.SpinUp.{spin_up_shards, spin_up_shard_ingresses, spin_up_shard_services}
use sharded_kvs.Controller.Reconcile.{Reconciled, reconcile, scale_up}
use sharded_kvs.Controller.Groups.{delete_loop-deletes_iff}
use sharded_kvs.Controller.Steps.{IsConsistent}
use sharded_kvs.Controller.Scaling.{Moves}
use sharded_kvs.Controller.Lifecycle.{reconcile-Moves, reconcile-IsConsistent}
use sharded_kvs.Controller.Blind.{Passed, list_failure_advances}
use sharded_kvs.Server.{names_of}
use sharded_kvs.Controller.Config.{config_of}
use sharded_kvs.Controller.Published.{config_of_iff}
use sharded_kvs.Controller.Drained.{AllAnswer, ask_shards-true_iff}
use sharded_kvs.Controller.Phases.{ask_shards}
use sharded_kvs.Samples.Api.{
  SampleApi, listing_refused, sample_cluster, sample-Statuses, sample_resource, api_at,
}

-- Two shards are asked for and there are none.
abbrev empty_api : SampleApi
empty_api = api_at 4 (sample_resource normal 0 0 2)

abbrev outcome : Outcome (Reconciled SampleApi) → Reconciled SampleApi
outcome (returns x) = x
outcome _ = record { world = empty_api; requeue_after = none; error = none }

abbrev grown : Reconciled SampleApi
grown = outcome (reconcile sample_cluster 1 empty_api)

grown_ran : reconcile sample_cluster 1 empty_api ≡ returns grown
unfolding reconcile scale_up update_config_map spin_up_shard_ingresses spin_up_shard_services
    spin_up_shards
grown_ran = refl

grown_shards : length grown.world.shards ≡ 2
unfolding reconcile scale_up update_config_map spin_up_shard_ingresses spin_up_shard_services
    spin_up_shards
grown_shards = refl

reconcile-Moves_example :
    Moves sample_cluster sample-Statuses (sample_resource normal 0 0 2).status grown.world
reconcile-Moves_example = reconcile-Moves sample_cluster sample-Statuses 1 empty_api grown grown_ran

-- The keys are moved, and three shards become two.
abbrev shrinking_api : SampleApi
shrinking_api = api_at 4 (sample_resource finalizing_scale 3 2 2)

abbrev shrunk : Reconciled SampleApi
shrunk = outcome (reconcile sample_cluster 1 shrinking_api)

shrunk_ran : reconcile sample_cluster 1 shrinking_api ≡ returns shrunk
unfolding reconcile finalize_scale update_config_map
shrunk_ran = refl

shrinking-IsConsistent : IsConsistent shrinking_api.resource.status
shrinking-IsConsistent = ground arith

reconcile-IsConsistent_example : IsConsistent shrunk.world.resource.status
reconcile-IsConsistent_example =
    reconcile-IsConsistent sample_cluster sample-Statuses 1 shrinking_api shrunk shrunk_ran
      shrinking-IsConsistent

-- A shard with its group, and an API server that keeps the shards that it deletes.
abbrev third_shard : StatefulSet Unit
third_shard = new_shard shrinking_api.resource 2 "kv"

abbrev keeping_api : Cluster
keeping_api = record sample_cluster {
  delete_shard = λ s w. (record w { shards = s ∷ w.shards }, none);
}

delete_loop-deletes_iff_example :
    Memᴰ third_shard
      (delete_loop keeping_api
        (λ (s : StatefulSet Unit). s.meta)
        keeping_api.delete_shard
        (groups_to_delete "kv" 2 3)
        (third_shard ∷ [])
        shrinking_api).0.shards
    ↔ (Memᴰ third_shard (third_shard ∷ []) × (2 ≤ 2) × (2 < 3))
unfolding shard_name sharded_kvs.Controller.Phases.group_of sharded_kvs.Prelude.itoa
    sharded_kvs.Prelude.lookup new_shard sharded_kvs.Prelude.copy_into
delete_loop-deletes_iff_example =
    delete_loop-deletes_iff keeping_api (λ s. s.meta) keeping_api.delete_shard (λ w. w.shards)
      (λ s w. refl) (λ s w. refl) "kv" 2 3 2 (third_shard ∷ []) shrinking_api third_shard refl
      (λ m. elim m [ ])

-- The list is fetched once, and not again.
abbrev lost_api : SampleApi
lost_api = api_at 1 (sample_resource redistributing_keys 3 2 2)

-- Nothing is asked about the keys, and the next phase deletes a shard.
list_failure_advances_example :
    Passed sample_cluster redistributing_keys lost_api.resource
      (api_at 0 lost_api.resource)
      (reconcile sample_cluster 1 lost_api)
unfolding sharded_kvs.Controller.Reconcile.rescale_loop
list_failure_advances_example =
    list_failure_advances sample_cluster lost_api.resource lost_api [] listing_refused refl refl
      refl refl redistributing_keys refl tt 1

config_of_iff_example :
    ((contains
          (names_of (config_of (sample_resource stopping_writes 2 3 3)).shards)
          (shard_name "kv" 2)
        ≡ true)
      ↔ (2 < 2))
    × ((contains
            (names_of (config_of (sample_resource stopping_writes 2 3 3)).new_shards)
            (shard_name "kv" 2)
          ≡ true)
        ↔ ((2 < 3) × ◌≢◌ {A = ℕ} 2 0 × ◌≢◌ {A = ℕ} 2 3))
config_of_iff_example = config_of_iff (sample_resource stopping_writes 2 3 3) 2

ask_shards-true_iff_example :
    (ask_shards sample_cluster 1 sample_cluster.pause_writes grown.world.shards grown.world
      ≡ returns (grown.world, ok true))
    ↔ AllAnswer sample_cluster 1 sample_cluster.pause_writes true grown.world.shards grown.world
        grown.world
ask_shards-true_iff_example =
    ask_shards-true_iff sample_cluster 1 sample_cluster.pause_writes grown.world.shards grown.world
      grown.world
