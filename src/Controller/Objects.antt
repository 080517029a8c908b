-- ===== src/Controller/Objects.antt =====
-- The objects that kvctl/internal/controller/kvstore_controller.go makes for one shard.
use Prim.Native.String.{◌++◌}
use sharded_kvs.Prelude.{ℕ, String, none, some, [], ◌∷◌, GoMap, copy_into, itoa}
use sharded_kvs.Controller.{KvStoreResource, StatefulSet, Ingress, Service, ServicePort, ConfigMap}

-- `fmt.Sprintf("%s-shard-%d", name, i)`
unfoldable pub shard_name : String → ℕ → String
shard_name name i = name ++ ("-shard-" ++ itoa i)

-- `fmt.Sprintf("%s-replica-%d", shardConfig.Name, r)`
unfoldable pub replica_name : String → ℕ → String
replica_name shard r = shard ++ ("-replica-" ++ itoa r)

-- `fmt.Sprintf("%s-config", name)`
unfoldable pub config_map_name : String → String
config_map_name name = name ++ "-config"

abbrev pub group_labels : String → ℕ → GoMap String
group_labels name i = ("app", name) ∷ ("group", shard_name name i) ∷ []

module _ {Pod : Type 0} (ks : KvStoreResource Pod) (i : ℕ) where
  -- `maps.Copy(shard.Labels, kvStore.Labels)`: the resource's labels go over those of the shard.
  abbrev object_labels : GoMap String
  object_labels = copy_into (group_labels ks.name i) ks.labels

  unfoldable pub new_shard : String → StatefulSet Pod
  new_shard owner = record {
    meta = record {
      name = shard_name ks.name i ++ "-replica";
      namespace = ks.namespace;
      labels = object_labels;
      annotations = some [];
      owner = some owner;
    };
    replicas = ks.spec.replicas;
    service_name = shard_name ks.name i;
    selector = group_labels ks.name i;
    min_ready_seconds = 10;
    template_labels = group_labels ks.name i;
    template_annotations = some (("replicas", itoa ks.spec.replicas) ∷ []);
    pod_spec = ks.spec.pod_spec;
    ready_replicas = 0;
  }

  unfoldable pub new_ingress : String → Ingress
  new_ingress owner = record {
    meta = record {
      name = shard_name ks.name i ++ "-ingress";
      namespace = ks.namespace;
      labels = object_labels;
      annotations = some (
          ("nginx.ingress.kubernetes.io/ssl-redirect", "false")
          ∷ ("nginx.ingress.kubernetes.io/backend-protocol", "GRPC")
          ∷ ("nginx.ingress.kubernetes.io/upstream-vhost", shard_name ks.name i)
          ∷ []);
      owner = some owner;
    };
    class_name = "nginx";
    host = shard_name ks.name i ++ ("." ++ ks.spec.ingress_domain);
    path = "/";
    backend_service = shard_name ks.name i;
    backend_port = 8080;
  }

  abbrev service_port : String → ℕ → ServicePort
  service_port name port = record { name = name; port = port; target_port = port }

  unfoldable pub new_service : String → Service
  new_service owner = record {
    meta = record {
      name = shard_name ks.name i;
      namespace = ks.namespace;
      labels = object_labels;
      annotations = none;
      owner = some owner;
    };
    selector = group_labels ks.name i;
    ports =
        service_port "kvrpc" 8080
        ∷ service_port "shardrpc" 8081
        ∷ service_port "raftrpc" 8082
        ∷ service_port "leaderrpc" 8083
        ∷ [];
  }

unfoldable pub new_config_map : {Pod : Type 0} → KvStoreResource Pod → String → String → ConfigMap
new_config_map ks yaml owner = record {
  meta = record {
    name = config_map_name ks.name;
    namespace = ks.namespace;
    labels = ("app", ks.name) ∷ [];
    annotations = none;
    owner = some owner;
  };
  config_yaml = yaml;
}
