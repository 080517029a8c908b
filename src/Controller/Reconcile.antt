-- ===== src/Controller/Reconcile.antt =====
-- `Reconcile` of kvctl/internal/controller/kvstore_controller.go.
use sharded_kvs.Prelude.{
  ℕ, Option, none, some, List, [], ◌∷◌, eqb, ltb, length, not, if◌then◌else◌, insert, itoa, Error,
  is_not_found, ok, err, Outcome, returns, ◌>>=◌,
}
use sharded_kvs.Controller.{
  Phase, normal, preparing_scale, stopping_writes, redistributing_keys, resuming_writes,
  finalizing_scale, scale_complete, KvStoreResource, StatefulSet, Cluster,
}
use sharded_kvs.Controller.Config.{update_config_map}
use sharded_kvs.Controller.SpinUp.{spin_up_shards, spin_up_shard_ingresses, spin_up_shard_services}
use sharded_kvs.Controller.Phases.{
  with_status, and_then, prepare_scale, stop_writes, resume_writes, redistribute_keys,
  finalize_scale,
}

-- `ctrl.Result` and the error: the seconds after which the request comes back, if it does.
pub record Reconciled (World : Type 0) : Type 0 where
  pub world : World
  pub requeue_after : Option ℕ
  pub error : Option Error

module _ (k : Cluster) where
  abbrev pub done : Option ℕ → k.World → Reconciled k.World
  done requeue w = record { world = w; requeue_after = requeue; error = none }

  abbrev pub stopped : Error → k.World → Reconciled k.World
  stopped e w = record { world = w; requeue_after = none; error = some e }

  -- An error, or a request that comes back in a second.
  abbrev pub settle : k.World × Option Error → Reconciled k.World
  settle (w, none) = done (some 1) w
  settle (w, some e) = stopped e w

  -- The annotations of the template are made if they are nil.
  unfoldable pub rescaled : ℕ → StatefulSet k.Pod → StatefulSet k.Pod
  rescaled replicas s = record s {
    replicas = replicas;
    template_annotations = some (
        insert "replicas" (itoa replicas) (elim s.template_annotations [ none ↦ [] | some a ↦ a ]));
  }

  -- The loop over the shards: the first one with another number of replicas is updated, and that is
  -- all that this request does.
  unfoldable pub rescale_loop : ℕ → List (StatefulSet k.Pod) → k.World → Option (Reconciled k.World)
  unfolding rescaled
  rescale_loop replicas [] w = none
  rescale_loop replicas (s ∷ rest) w =
      let updated = settle (k.update_shard (rescaled replicas s) w) in
      if not (eqb s.replicas replicas) then some updated else rescale_loop replicas rest w

  -- The status with which a scaling operation begins.
  unfoldable pub begin_scale : ℕ → KvStoreResource k.Pod → k.World → KvStoreResource k.Pod
  begin_scale count ks w = with_status k ks (record {
    phase = preparing_scale;
    message = "Spinning up shards";
    current_shards = count;
    target_shards = ks.spec.shards;
    last_transition = k.now w;
  })

  -- Scaling up: the error of storing the status is dropped.
  unfoldable pub scale_up : KvStoreResource k.Pod → k.World → Reconciled k.World
  scale_up ks w = settle (
      and_then k (update_config_map k ks (k.update_status ks w).0) λ w1.
        and_then k (spin_up_shard_ingresses k ks w1)
          λ w2. and_then k (spin_up_shard_services k ks w2) (spin_up_shards k ks))

  module _ (fuel : ℕ) where
    -- The `switch`; a phase that it does not name is done for.
    unfoldable pub dispatch : Phase → KvStoreResource k.Pod → k.World → Outcome (Reconciled k.World)
    dispatch preparing_scale ks w = returns (settle (prepare_scale k ks w))
    dispatch stopping_writes ks w = stop_writes k fuel ks w >>= λ t. returns (settle t)
    dispatch redistributing_keys ks w = redistribute_keys k fuel ks w >>= λ t. returns (settle t)
    dispatch resuming_writes ks w = resume_writes k fuel ks w >>= λ t. returns (settle t)
    dispatch finalizing_scale ks w = returns (settle (finalize_scale k ks w))
    dispatch normal ks w = returns (done none w)
    dispatch scale_complete ks w = returns (done (some 1) w)

    -- Scaling down: the status and the configuration are stored, and the first phase follows at
    -- once.
    unfoldable pub scale_down : KvStoreResource k.Pod → k.World → Outcome (Reconciled k.World)
    unfolding dispatch
    scale_down ks w =
        let (w', e) = update_config_map k ks (k.update_status ks w).0 in
        elim e [ some x ↦ returns (stopped x w') | none ↦ dispatch ks.status.phase ks w' ]

    unfoldable pub by_phase :
        Phase → ℕ → KvStoreResource k.Pod → k.World → Outcome (Reconciled k.World)
    unfolding dispatch scale_down scale_up begin_scale
    by_phase normal count ks w =
        if ltb count ks.spec.shards
        then returns (scale_up (begin_scale count ks w) w)
        else if ltb ks.spec.shards count
        then scale_down (begin_scale count ks w) w
        else dispatch normal ks w
    by_phase phase count ks w = dispatch phase ks w

    unfoldable pub reconcile : k.World → Outcome (Reconciled k.World)
    unfolding by_phase rescale_loop
    reconcile w = elim (k.get_resource w) [
      | err e ↦ returns (if is_not_found e then done none w else stopped e w)
      | ok ks ↦
          let t = k.list_shards ks.namespace ks.name w in
          elim t.1 [
            | err e ↦ returns (stopped e t.0)
            | ok shards ↦ elim (rescale_loop ks.spec.replicas shards t.0) [
              | some result ↦ returns result
              | none ↦ by_phase ks.status.phase (length shards) ks t.0
            ]
          ]
    ]
