-- ===== src/Controller/Steps.antt =====
-- The life of the status of a resource, as a step relation, and what the proofs about the
-- reconciler assume of the API server.
use sharded_kvs.Prelude.{ℕ, String, ◌≡◌, ◌≢◌, sym, ◌∙◌, ◌⊎◌, ok}
use sharded_kvs.Controller.{
  Phase, normal, preparing_scale, stopping_writes, redistributing_keys, resuming_writes,
  finalizing_scale, scale_complete, KvStoreResource, KvStoreStatus, StatefulSet, Ingress, Service,
  ConfigMap, Cluster,
}

-- The numbers of shards are the same.
pub record SameCounts (s t : KvStoreStatus) : Type 0 where
  pub current : t.current_shards ≡ s.current_shards
  pub target : t.target_shards ≡ s.target_shards

-- The current number of shards becomes the target.
pub record Reached (s t : KvStoreStatus) : Type 0 where
  pub current : t.current_shards ≡ s.target_shards
  pub target : t.target_shards ≡ s.target_shards

pub data Step (s t : KvStoreStatus) : Type 0 where
  stays : t.phase ≡ s.phase → SameCounts s t → Step s t
  begins :
      s.phase ≡ normal → t.phase ≡ preparing_scale → t.current_shards ≢ t.target_shards → Step s t
  -- the first shards of a store: nothing to move
  starts :
      s.phase ≡ preparing_scale → s.current_shards ≡ 0 → t.phase ≡ normal → Reached s t → Step s t
  prepared : s.phase ≡ preparing_scale → t.phase ≡ stopping_writes → SameCounts s t → Step s t
  paused : s.phase ≡ stopping_writes → t.phase ≡ redistributing_keys → SameCounts s t → Step s t
  moved : s.phase ≡ redistributing_keys → t.phase ≡ finalizing_scale → SameCounts s t → Step s t
  finalized : s.phase ≡ finalizing_scale → t.phase ≡ resuming_writes → Reached s t → Step s t
  resumed : s.phase ≡ resuming_writes → t.phase ≡ normal → Reached s t → Step s t

-- Up to the end of the finalization the two numbers differ, after it they agree; the phase
-- "ScaleComplete" is never entered.
abbrev CountsAt : Phase → ℕ → ℕ → Type 0
CountsAt normal current target = Unit
CountsAt resuming_writes current target = current ≡ target
CountsAt scale_complete current target = ⊥
CountsAt _ current target = current ≢ target

abbrev pub IsConsistent : KvStoreStatus → Type 0
IsConsistent s = CountsAt s.phase s.current_shards s.target_shards

pub Step-IsConsistent : (s t : KvStoreStatus) → Step s t → IsConsistent s → IsConsistent t
Step-IsConsistent s t (stays e k) h = rw (e, k.current, k.target) h
Step-IsConsistent s t (begins e f ne) h = rw f ne
Step-IsConsistent s t (starts e z f k) h = rw f tt
Step-IsConsistent s t (prepared e f k) h = rw (f, k.current, k.target) (rw e at h)
Step-IsConsistent s t (paused e f k) h = rw (f, k.current, k.target) (rw e at h)
Step-IsConsistent s t (moved e f k) h = rw (f, k.current, k.target) (rw e at h)
Step-IsConsistent s t (finalized e f k) h = rw f (k.current ∙ sym k.target)
Step-IsConsistent s t (resumed e f k) h = rw f tt

-- The status that the API server stores. A fetched resource carries it; storing a status does so or
-- fails and changes nothing; no other call of the reconciler changes it.
pub record Statuses (k : Cluster) : Type 0 where
  pub stored : k.World → KvStoreStatus
  pub fetched :
      (w : k.World) (ks : KvStoreResource k.Pod) → k.get_resource w ≡ ok ks → ks.status ≡ stored w
  pub updated :
      (ks : KvStoreResource k.Pod) (w : k.World)
      → (stored (k.update_status ks w).0 ≡ ks.status) ⊎ (stored (k.update_status ks w).0 ≡ stored w)
  pub list_shards :
      (namespace name : String) (w : k.World) → stored (k.list_shards namespace name w).0 ≡ stored w
  pub list_ingresses :
      (namespace name : String) (w : k.World)
      → stored (k.list_ingresses namespace name w).0 ≡ stored w
  pub list_services :
      (namespace name : String) (w : k.World)
      → stored (k.list_services namespace name w).0 ≡ stored w
  pub create_config_map :
      (c : ConfigMap) (w : k.World) → stored (k.create_config_map c w).0 ≡ stored w
  pub update_config_map :
      (c : ConfigMap) (w : k.World) → stored (k.update_config_map c w).0 ≡ stored w
  pub create_shard :
      (s : StatefulSet k.Pod) (w : k.World) → stored (k.create_shard s w).0 ≡ stored w
  pub update_shard :
      (s : StatefulSet k.Pod) (w : k.World) → stored (k.update_shard s w).0 ≡ stored w
  pub delete_shard :
      (s : StatefulSet k.Pod) (w : k.World) → stored (k.delete_shard s w).0 ≡ stored w
  pub create_ingress : (s : Ingress) (w : k.World) → stored (k.create_ingress s w).0 ≡ stored w
  pub delete_ingress : (s : Ingress) (w : k.World) → stored (k.delete_ingress s w).0 ≡ stored w
  pub create_service : (s : Service) (w : k.World) → stored (k.create_service s w).0 ≡ stored w
  pub delete_service : (s : Service) (w : k.World) → stored (k.delete_service s w).0 ≡ stored w
  pub dial : (a : String) (w : k.World) → stored (k.dial a w).0 ≡ stored w
  pub pause_writes : (a : String) (w : k.World) → stored (k.pause_writes a w).0 ≡ stored w
  pub redistribute_keys : (a : String) (w : k.World) → stored (k.redistribute_keys a w).0 ≡ stored w
  pub resume_writes : (a : String) (w : k.World) → stored (k.resume_writes a w).0 ≡ stored w
