-- ===== src/Controller/Cooperative.antt =====
-- A cluster in which every call succeeds, and what the loops of
-- kvctl/internal/controller/kvstore_controller.go come to in it.
use sharded_kvs.Prelude.{
  ℕ, suc, String, Bool, true, false, Option, none, List, [], ◌∷◌, All, ◌≡◌, refl, Error, Result, ok,
  arith, not, eqb, returns, Bool-cases, inl, inr,
}
use sharded_kvs.Controller.{
  KvStoreResource, StatefulSet, Ingress, Service, ObjectMeta, ConfigMap, Cluster,
}
use sharded_kvs.Server.{KvstoreConfig}
use sharded_kvs.Controller.Objects.{config_map_name}
use sharded_kvs.Controller.Config.{update_config_map, config_of}
use sharded_kvs.Controller.Phases.{
  dial_loop, call_shard, ask_shards, sum_pending, delete_loop, all_ready, shard_address, contains,
  group_of,
}
use sharded_kvs.Controller.Reconcile.{rescale_loop}
use sharded_kvs.Controller.Steps.{Statuses}

-- What a request finds: the resource and its shards, all of the size that is asked for, and ready
-- when a handler lists them again.
pub record Found (k : Cluster) (w : k.World) : Type 0 where
  pub resource : KvStoreResource k.Pod
  pub shards : List (StatefulSet k.Pod)
  pub fetched : k.get_resource w ≡ ok resource
  pub listed : (k.list_shards resource.namespace resource.name w).1 ≡ ok shards
  pub sized : All (λ (s : StatefulSet k.Pod). s.replicas ≡ resource.spec.replicas) shards
  pub shards_again : List (StatefulSet k.Pod)
  pub listed_again :
      (k.list_shards resource.namespace resource.name
        (k.list_shards resource.namespace resource.name w).0).1
      ≡ ok shards_again
  pub ready : All (λ (s : StatefulSet k.Pod). s.ready_replicas ≡ s.replicas) shards_again

-- The API server does what it is asked, and the shards say yes and have no key left to move.
pub record Cooperative (k : Cluster) (st : Statuses k) : Type 0 where
  pub found : (w : k.World) → Found k w
  pub stores :
      (ks : KvStoreResource k.Pod) (w : k.World)
      → (st.stored (k.update_status ks w).0 ≡ ks.status) × ((k.update_status ks w).1 ≡ none)
  pub dials : (a : String) (w : k.World) → (k.dial a w).1 ≡ true
  pub pauses : (a : String) (w : k.World) → (k.pause_writes a w).1 ≡ ok true
  pub drained : (a : String) (w : k.World) → (k.redistribute_keys a w).1 ≡ ok 0
  pub resumes : (a : String) (w : k.World) → (k.resume_writes a w).1 ≡ ok true
  pub marshals : (c : KvstoreConfig) → (yaml : String) × (k.marshal_config c ≡ ok yaml)
  pub configured :
      (namespace name : String) (w : k.World)
      → (c : ConfigMap) × (k.get_config_map namespace name w ≡ ok c)
  pub reconfigures : (c : ConfigMap) (w : k.World) → (k.update_config_map c w).1 ≡ none
  pub deletes_shard : (s : StatefulSet k.Pod) (w : k.World) → (k.delete_shard s w).1 ≡ none
  pub deletes_ingress : (i : Ingress) (w : k.World) → (k.delete_ingress i w).1 ≡ none
  pub deletes_service : (s : Service) (w : k.World) → (k.delete_service s w).1 ≡ none

module _ (k : Cluster) where
  pub all_ready_lem :
      (l : List (StatefulSet k.Pod))
      → All (λ (s : StatefulSet k.Pod). s.ready_replicas ≡ s.replicas) l
      → all_ready k l ≡ true
  unfolding all_ready
  all_ready_lem [] h = refl
  all_ready_lem (s ∷ l) h = ground (arith, all_ready_lem l h.1)

  pub rescale_loop-none :
      (replicas : ℕ) (l : List (StatefulSet k.Pod)) (w : k.World)
      → All (λ (s : StatefulSet k.Pod). s.replicas ≡ replicas) l
      → rescale_loop k replicas l w ≡ none
  unfolding rescale_loop
  rescale_loop-none replicas [] w h = refl
  rescale_loop-none replicas (s ∷ l) w h =
      let same : not (eqb s.replicas replicas) ≡ false = ground arith in
      rw same (rescale_loop-none replicas l w h.1)

  pub delete_loop-none :
      {A : Type 0} (meta : A → ObjectMeta) (delete : A → k.World → k.World × Option Error)
      (groups : List String) (l : List A) (w : k.World)
      → ((x : A) (u : k.World) → (delete x u).1 ≡ none)
      → (delete_loop k meta delete groups l w).1 ≡ none
  unfolding delete_loop
  delete_loop-none meta delete groups [] w h = refl
  delete_loop-none meta delete groups (x ∷ l) w h =
      elim (Bool-cases (contains groups (group_of (meta x)))) [
        | inr q ↦ rw q (delete_loop-none meta delete groups l w h)
        | inl q ↦ rw (q, h x w) (delete_loop-none meta delete groups l (delete x w).0 h)
      ]

  module _ (st : Statuses k) (co : Cooperative k st) where
    pub update_config_map-none :
        (ks : KvStoreResource k.Pod) (w : k.World) → (update_config_map k ks w).1 ≡ none
    unfolding update_config_map
    update_config_map-none ks w =
        let (yaml, marshalled) = co.marshals (config_of ks) in
        let (c, got) = co.configured ks.namespace (config_map_name ks.name) w in
        rw (marshalled, got, update_config_map) (co.reconfigures _ w)

    -- A call of a shard, whose first dial succeeds.
    call_shard_lem :
        {A : Type 0} (f : ℕ) (s : StatefulSet k.Pod) (call : String → k.World → k.World × Result A)
        (w : k.World)
        → call_shard k (suc f) s call w
          ≡ returns (call (shard_address s) (k.dial (shard_address s) w).0)
    unfolding call_shard dial_loop
    call_shard_lem f s call w = rw (co.dials (shard_address s) w)

    pub ask_shards-ok :
        (f : ℕ) (call : String → k.World → k.World × Result Bool) (l : List (StatefulSet k.Pod))
        (w : k.World)
        → ((a : String) (u : k.World) → (call a u).1 ≡ ok true)
        → (w' : k.World) × (ask_shards k (suc f) call l w ≡ returns (w', ok true))
    unfolding ask_shards
    ask_shards-ok f call [] w h = (w, refl)
    ask_shards-ok f call (s ∷ l) w h =
        let u = (call (shard_address s) (k.dial (shard_address s) w).0).0 in
        let (w', rest) = ask_shards-ok f call l u h in
        (
          w',
          rw (call_shard_lem f s call w, h (shard_address s) (k.dial (shard_address s) w).0) rest,
        )

    pub sum_pending-ok :
        (f : ℕ) (l : List (StatefulSet k.Pod)) (w : k.World)
        → (w' : k.World) × (sum_pending k (suc f) l 0 w ≡ returns (w', ok 0))
    unfolding sum_pending
    sum_pending-ok f [] w = (w, refl)
    sum_pending-ok f (s ∷ l) w =
        let u = (k.redistribute_keys (shard_address s) (k.dial (shard_address s) w).0).0 in
        let (w', rest) = sum_pending-ok f l u in
        (
          w',
          rw
              (
                call_shard_lem f s k.redistribute_keys w,
                co.drained (shard_address s) (k.dial (shard_address s) w).0,
              )
              rest,
        )
