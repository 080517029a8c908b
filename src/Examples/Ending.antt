-- ===== src/Examples/Ending.antt =====
-- A scaling operation from three shards to two, in a cluster in which every call succeeds.
use sharded_kvs.Prelude.{ℕ, ◌≤◌, ◌≡◌, returns, arith}
use sharded_kvs.Controller.{preparing_scale}
use sharded_kvs.Controller.Progress.{Ended, requests, scaling_ends}
use sharded_kvs.Samples.Api.{SampleApi, sample_resource, api_at}
use sharded_kvs.Samples.Ready.{ready_cluster, ready-Statuses, ready-Cooperative}

abbrev begun_api : SampleApi
begun_api = api_at 9 (sample_resource preparing_scale 3 2 2)

scaling_ends_example :
    (count : ℕ) × (count ≤ 5)
    × (w : SampleApi) × (requests ready_cluster 1 count begun_api ≡ returns w)
    × Ended ready_cluster ready-Statuses begun_api.resource.status w
scaling_ends_example =
    scaling_ends ready_cluster ready-Statuses ready-Cooperative 0 begun_api (omega arith)
