-- ===== src/Examples/Admission.antt =====
-- Updates of a resource at the webhook.
use sharded_kvs.Prelude.{◌≡◌, ◌↔◌, none, []}
use sharded_kvs.Controller.{Phase, normal, redistributing_keys, KvStoreResource}
use sharded_kvs.Webhook.{Object, kv_store, validate_update, validate_update-none}

abbrev resource : Phase → KvStoreResource Unit
resource phase = record {
  name = "kv";
  namespace = "default";
  labels = [];
  spec = record { shards = 3; replicas = 3; ingress_domain = "localhost"; pod_spec = tt };
  status = record {
    phase = phase;
    current_shards = 2;
    target_shards = 3;
    message = "";
    last_transition = 0;
  };
}

abbrev Admitted : Object (Unit {0}) → Object (Unit {0}) → Type 0
Admitted old new =
    (a : KvStoreResource Unit) × (b : KvStoreResource Unit) × (old ≡ kv_store a)
    × (new ≡ kv_store b)
    × (a.status.phase ≡ normal)

validate_update-none_example :
    (validate_update (kv_store (resource redistributing_keys)) (kv_store (resource normal)) ≡ none)
    ↔ Admitted (kv_store (resource redistributing_keys)) (kv_store (resource normal))
validate_update-none_example =
    validate_update-none (kv_store (resource redistributing_keys)) (kv_store (resource normal))
