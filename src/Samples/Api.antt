-- ===== src/Samples/Api.antt =====
-- An API server that stores one resource and its shards, and shards that answer yes and have
-- nothing to move.
use sharded_kvs.Prelude.{
  ℕ, ◌≡◌, refl, inl, true, none, eqb, ◌-◌, List, [], ◌∷◌, ◌++◌, if◌then◌else◌, Error, library,
  not_found, ok, err,
}
use sharded_kvs.Controller.{Phase, KvStoreResource, StatefulSet, Cluster}
use sharded_kvs.Controller.Steps.{Statuses}

pub record SampleApi : Type 0 where
  pub resource : KvStoreResource Unit
  pub shards : List (StatefulSet Unit)
  -- how often the shards can be listed before the list fails
  pub lists_left : ℕ

abbrev pub listing_refused : Error
listing_refused = library 3

abbrev pub sample_cluster : Cluster
sample_cluster = record {
  Pod = Unit;
  World = SampleApi;
  get_resource = λ w. ok w.resource;
  list_shards = λ namespace name w. (
    record w { lists_left = w.lists_left - 1 },
    if eqb w.lists_left 0 then err listing_refused else ok w.shards,
  );
  list_ingresses = λ namespace name w. (w, ok []);
  list_services = λ namespace name w. (w, ok []);
  get_config_map = λ namespace name w. err not_found;
  create_config_map = λ c w. (w, none);
  update_config_map = λ c w. (w, none);
  create_shard = λ s w. (record w { shards = w.shards ++ s ∷ [] }, none);
  update_shard = λ s w. (w, none);
  delete_shard = λ s w. (record w { shards = [] }, none);
  create_ingress = λ i w. (w, none);
  delete_ingress = λ i w. (w, none);
  create_service = λ s w. (w, none);
  delete_service = λ s w. (w, none);
  update_status = λ ks w. (record w { resource = record w.resource { status = ks.status } }, none);
  controller_reference = λ ks. ok ks.name;
  marshal_config = λ c. ok "shards: []";
  now = λ w. 7;
  error_text = λ e. "refused";
  dial = λ a w. (w, true);
  pause_writes = λ a w. (w, ok true);
  redistribute_keys = λ a w. (w, ok 0);
  resume_writes = λ a w. (w, ok true);
}

pub sample-fetched :
    (w : SampleApi) (ks : KvStoreResource Unit)
    → sample_cluster.get_resource w ≡ ok ks
    → ks.status ≡ w.resource.status
sample-fetched w ks e = cc

abbrev pub sample-Statuses : Statuses sample_cluster
sample-Statuses = record {
  stored = λ w. w.resource.status;
  fetched = sample-fetched;
  updated = λ ks w. inl refl;
  list_shards = λ namespace name w. refl;
  list_ingresses = λ namespace name w. refl;
  list_services = λ namespace name w. refl;
  create_config_map = λ c w. refl;
  update_config_map = λ c w. refl;
  create_shard = λ s w. refl;
  update_shard = λ s w. refl;
  delete_shard = λ s w. refl;
  create_ingress = λ s w. refl;
  delete_ingress = λ s w. refl;
  create_service = λ s w. refl;
  delete_service = λ s w. refl;
  dial = λ a w. refl;
  pause_writes = λ a w. refl;
  redistribute_keys = λ a w. refl;
  resume_writes = λ a w. refl;
}

abbrev pub sample_resource : Phase → ℕ → ℕ → ℕ → KvStoreResource Unit
sample_resource phase current target shards = record {
  name = "kv";
  namespace = "default";
  labels = [];
  spec = record { shards = shards; replicas = 3; ingress_domain = "localhost"; pod_spec = tt };
  status = record {
    phase = phase;
    current_shards = current;
    target_shards = target;
    message = "";
    last_transition = 0;
  };
}

abbrev pub api_at : ℕ → KvStoreResource Unit → SampleApi
api_at lists ks = record { resource = ks; shards = []; lists_left = lists }
