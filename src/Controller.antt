-- ===== src/Controller.antt =====
-- kvctl: the custom resource of kvctl/api/v1/kvstore_types.go, and what the reconciler of
-- kvctl/internal/controller/kvstore_controller.go makes and calls. Its steps are in the children.
pub mod Objects
pub mod Config
pub mod SpinUp
pub mod Phases
pub mod Reconcile
pub mod Groups
pub mod Published
pub mod Steps
pub mod Kept
pub mod Transitions
pub mod Scaling
pub mod Lifecycle
pub mod Blind
pub mod Drained
pub mod Cooperative
pub mod Nearer
pub mod Progress
use sharded_kvs.Prelude.{ℕ, String, Bool, Option, List, GoMap, Error, Result}
use sharded_kvs.Server.{KvstoreConfig}

-- `RedistributionPhase`; a phase that is none of these strings is not modelled.
pub data Phase : Type 0 where
  normal preparing_scale stopping_writes redistributing_keys resuming_writes : Phase
  finalizing_scale scale_complete : Phase

pub Phase-discrete : Discrete Phase
Phase-discrete = hlevel

-- The shard numbers are Go ints that start from lengths and from an int32 with minimum 1.
pub record KvStoreStatus : Type 0 where
  pub phase : Phase
  pub current_shards : ℕ
  pub target_shards : ℕ
  pub message : String
  pub last_transition : ℕ

-- `Pod` is `corev1.PodSpec`, which the controller only copies.
pub record KvStoreSpec (Pod : Type 0) : Type 0 where
  pub shards : ℕ
  pub replicas : ℕ
  pub ingress_domain : String
  pub pod_spec : Pod

-- The `KVStore` resource, with the fields of its metadata that the controller reads.
pub record KvStoreResource (Pod : Type 0) : Type 0 where
  pub name : String
  pub namespace : String
  pub labels : GoMap String
  pub spec : KvStoreSpec Pod
  pub status : KvStoreStatus

-- `metav1.ObjectMeta` of what the controller creates. `owner` is the controller reference, and nil
-- annotations are `none`.
pub record ObjectMeta : Type 0 where
  pub name : String
  pub namespace : String
  pub labels : GoMap String
  pub annotations : Option (GoMap String)
  pub owner : Option String

-- `appsv1.StatefulSet`. The constant parts of the volume claims are not modelled, and the pointer
-- to the number of replicas is never nil, as the API server fills it in.
pub record StatefulSet (Pod : Type 0) : Type 0 where
  pub meta : ObjectMeta
  pub replicas : ℕ
  pub service_name : String
  pub selector : GoMap String
  pub min_ready_seconds : ℕ
  pub template_labels : GoMap String
  pub template_annotations : Option (GoMap String)
  pub pod_spec : Pod
  pub ready_replicas : ℕ

-- `networkingv1.Ingress` with its one rule and its one path.
pub record Ingress : Type 0 where
  pub meta : ObjectMeta
  pub class_name : String
  pub host : String
  pub path : String
  pub backend_service : String
  pub backend_port : ℕ

pub record ServicePort : Type 0 where
  pub name : String
  pub port : ℕ
  pub target_port : ℕ

-- `corev1.Service`, headless and with addresses that are not ready published.
pub record Service : Type 0 where
  pub meta : ObjectMeta
  pub selector : GoMap String
  pub ports : List ServicePort

pub record ConfigMap : Type 0 where
  pub meta : ObjectMeta
  pub config_yaml : String

-- What the reconciler calls: the client of the API server, the libraries, and the gRPC clients of
-- the shards. What others do to the cluster between two calls is part of what the calls do.
pub record Cluster : Type 1 where
  pub Pod : Type 0
  pub World : Type 0
  -- the resource of the request
  pub get_resource : World → Result (KvStoreResource Pod)
  -- the objects in a namespace that a resource of a name controls
  pub list_shards : String → String → World → World × Result (List (StatefulSet Pod))
  pub list_ingresses : String → String → World → World × Result (List Ingress)
  pub list_services : String → String → World → World × Result (List Service)
  pub get_config_map : String → String → World → Result ConfigMap
  pub create_config_map : ConfigMap → World → World × Option Error
  pub update_config_map : ConfigMap → World → World × Option Error
  pub create_shard : StatefulSet Pod → World → World × Option Error
  pub update_shard : StatefulSet Pod → World → World × Option Error
  pub delete_shard : StatefulSet Pod → World → World × Option Error
  pub create_ingress : Ingress → World → World × Option Error
  pub delete_ingress : Ingress → World → World × Option Error
  pub create_service : Service → World → World × Option Error
  pub delete_service : Service → World → World × Option Error
  -- `r.Status().Update`
  pub update_status : KvStoreResource Pod → World → World × Option Error
  -- `ctrl.SetControllerReference` on a new object of the resource's namespace
  pub controller_reference : KvStoreResource Pod → Result String
  -- `yaml.Marshal`
  pub marshal_config : KvstoreConfig → Result String
  pub now : World → ℕ
  -- the text of an error
  pub error_text : Error → String
  -- whether `grpc.Dial` gives a connection
  pub dial : String → World → World × Bool
  -- ShardRPCClient at an address
  pub pause_writes : String → World → World × Result Bool
  pub redistribute_keys : String → World → World × Result ℕ
  pub resume_writes : String → World → World × Result Bool
