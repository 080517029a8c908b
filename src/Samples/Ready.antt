-- ===== src/Samples/Ready.antt =====
-- An API server whose one shard is always ready and of the size that is asked for, and that refuses
-- nothing.
use sharded_kvs.Prelude.{none, some, refl, inl, [], ◌∷◌, ok}
use sharded_kvs.Controller.{KvStoreResource, ObjectMeta, StatefulSet, ConfigMap, Cluster}
use sharded_kvs.Controller.Steps.{Statuses}
use sharded_kvs.Controller.Cooperative.{Cooperative}
use sharded_kvs.Samples.Api.{sample_cluster, sample-fetched}

abbrev ready_meta : ObjectMeta
ready_meta = record {
  name = "kv-shard-0";
  namespace = "default";
  labels = [];
  annotations = none;
  owner = some "kv";
}

abbrev ready_shard : KvStoreResource Unit → StatefulSet Unit
ready_shard ks = record {
  meta = ready_meta;
  replicas = ks.spec.replicas;
  service_name = "kv-shard-0";
  selector = [];
  min_ready_seconds = 10;
  template_labels = [];
  template_annotations = none;
  pod_spec = tt;
  ready_replicas = ks.spec.replicas;
}

abbrev ready_config : ConfigMap
ready_config = record { meta = ready_meta; config_yaml = "shards: []" }

abbrev pub ready_cluster : Cluster
ready_cluster = record sample_cluster {
  list_shards = λ namespace name w. (w, ok (ready_shard w.resource ∷ []));
  get_config_map = λ namespace name w. ok ready_config;
}

abbrev pub ready-Statuses : Statuses ready_cluster
ready-Statuses = record {
  stored = λ w. w.resource.status;
  fetched = sample-fetched;
  updated = λ ks w. inl refl;
  list_shards = λ namespace name w. refl;
  list_ingresses = λ namespace name w. refl;
  list_services = λ namespace name w. refl;
  create_config_map = λ c w. refl;
  update_config_map = λ c w. refl;
  create_shard = λ s w. refl;
  update_shard = λ s w. refl;
  delete_shard = λ s w. refl;
  create_ingress = λ s w. refl;
  delete_ingress = λ s w. refl;
  create_service = λ s w. refl;
  delete_service = λ s w. refl;
  dial = λ a w. refl;
  pause_writes = λ a w. refl;
  redistribute_keys = λ a w. refl;
  resume_writes = λ a w. refl;
}

abbrev pub ready-Cooperative : Cooperative ready_cluster ready-Statuses
ready-Cooperative = record {
  found = λ w. record {
    resource = w.resource;
    shards = ready_shard w.resource ∷ [];
    fetched = refl;
    listed = refl;
    shards_again = ready_shard w.resource ∷ [];
    listed_again = refl;
    sized = (refl, tt);
    ready = (refl, tt);
  };
  stores = λ ks w. (refl, refl);
  dials = λ a w. refl;
  pauses = λ a w. refl;
  drained = λ a w. refl;
  resumes = λ a w. refl;
  marshals = λ c. ("shards: []", refl);
  configured = λ namespace name w. (ready_config, refl);
  reconfigures = λ c w. refl;
  deletes_shard = λ s w. refl;
  deletes_ingress = λ i w. refl;
  deletes_service = λ s w. refl;
}
