-- ===== src/Controller/Blind.antt =====
-- A list of shards that cannot be fetched, in kvctl/internal/controller/kvstore_controller.go.
use sharded_kvs.Prelude.{
  ℕ, length, String, List, none, ok, [], ◌≡◌, refl, sym, subst, Error, err, Outcome, returns, eqb,
  if◌then◌else◌, Bool-cases, inl, inr,
}
use sharded_kvs.Controller.{
  Phase, normal, preparing_scale, stopping_writes, redistributing_keys, resuming_writes,
  finalizing_scale, scale_complete, KvStoreResource, StatefulSet, Cluster,
}
use sharded_kvs.Controller.Phases.{
  with_status, prepare_scale, stop_writes, redistribute_keys, resume_writes, enter, reached,
  get_shards, or_empty, all_ready, ask_shards, after_asking, sum_pending, after_counting,
}
use sharded_kvs.Controller.Reconcile.{
  Reconciled, settle, rescale_loop, reconcile, by_phase, dispatch,
}

-- The phases that wait for the shards.
abbrev pub IsWaiting : Phase → Type 0
IsWaiting normal = ⊥
IsWaiting finalizing_scale = ⊥
IsWaiting scale_complete = ⊥
IsWaiting _ = Unit

-- The phase after one that waits for the shards.
abbrev phase_after : ℕ → Phase → Phase
phase_after current preparing_scale = if eqb current 0 then normal else stopping_writes
phase_after current stopping_writes = redistributing_keys
phase_after current redistributing_keys = finalizing_scale
phase_after current _ = normal

module _ (k : Cluster) where
  -- The one thing done in the world `w` is to store a status with the phase that follows.
  abbrev pub Passed :
      Phase → KvStoreResource k.Pod → k.World → Outcome (Reconciled k.World) → Type 0
  Passed phase ks w o =
      (entered : KvStoreResource k.Pod) × (entered.status.phase
        ≡ phase_after ks.status.current_shards phase)
      × (o ≡ returns (settle k (k.update_status entered w)))

  module _ (ks : KvStoreResource k.Pod) (w : k.World) (e : Error)
      (failing : (k.list_shards ks.namespace ks.name w).1 ≡ err e) where
    abbrev after_failure : k.World
    after_failure = (k.list_shards ks.namespace ks.name w).0

    no_shards : get_shards k ks w ≡ (after_failure, [])
    unfolding get_shards or_empty
    no_shards = rw (failing, or_empty) refl

    Passed-enter :
        (phase next : Phase) (text : String) (base : KvStoreResource k.Pod)
        (o : Outcome (Reconciled k.World))
        → next ≡ phase_after ks.status.current_shards phase
        → o ≡ returns (settle k (enter k next text base after_failure))
        → Passed phase ks after_failure o
    unfolding enter
    Passed-enter phase next text base o e q =
        let now = k.now after_failure in
        (
          with_status k base
              (record base.status { phase = next; message = text; last_transition = now }),
          e,
          q,
        )

    by_phase-Passed :
        (fuel : ℕ) (phase : Phase) (count : ℕ)
        → IsWaiting phase
        → Passed phase ks after_failure (by_phase k fuel phase count ks w)
    unfolding by_phase dispatch prepare_scale stop_writes redistribute_keys resume_writes all_ready
        ask_shards sum_pending after_asking after_counting
    by_phase-Passed fuel preparing_scale count h =
        elim (Bool-cases (eqb ks.status.current_shards 0)) [
          | inl z ↦
              Passed-enter preparing_scale normal "Ready" (reached k ks) _ (rw z refl)
                (rw (no_shards, z) refl)
          | inr z ↦
              Passed-enter preparing_scale stopping_writes "Starting to disable writes" ks _
                (rw z refl) (rw (no_shards, z) refl)
        ]
    by_phase-Passed fuel stopping_writes count h =
        Passed-enter stopping_writes redistributing_keys "Starting to redistribute keys" ks _ refl
          (rw no_shards refl)
    by_phase-Passed fuel redistributing_keys count h =
        Passed-enter redistributing_keys finalizing_scale "Starting to finalize scaling operation"
          ks _ refl (rw no_shards refl)
    by_phase-Passed fuel resuming_writes count h =
        Passed-enter resuming_writes normal "Ready" (reached k ks) _ refl (rw no_shards refl)
    by_phase-Passed fuel normal count h = elim h [ ]
    by_phase-Passed fuel finalizing_scale count h = elim h [ ]
    by_phase-Passed fuel scale_complete count h = elim h [ ]

  -- A request in a phase that waits for the shards, whose list of the shards is fetched and finds
  -- none to resize, goes on to the next phase if the second list of the shards, that of its handler,
  -- cannot be fetched: all that it does after that is to store the status of the next phase, and no
  -- shard is called, whatever state the shards are in.
  pub list_failure_advances :
      (ks : KvStoreResource k.Pod) (w : k.World) (shards : List (StatefulSet k.Pod)) (e : Error)
      → k.get_resource w ≡ ok ks
      → (k.list_shards ks.namespace ks.name w).1 ≡ ok shards
      → rescale_loop k ks.spec.replicas shards (k.list_shards ks.namespace ks.name w).0 ≡ none
      → (k.list_shards ks.namespace ks.name (k.list_shards ks.namespace ks.name w).0).1 ≡ err e
      → (phase : Phase) → ks.status.phase ≡ phase
      → IsWaiting phase
      → (fuel : ℕ)
      → Passed phase ks
          (k.list_shards ks.namespace ks.name (k.list_shards ks.namespace ks.name w).0).0
          (reconcile k fuel w)
  unfolding reconcile
  list_failure_advances ks w shards e got listed sized failing phase at_phase waiting fuel =
      let v = (k.list_shards ks.namespace ks.name w).0 in
      let (entered, next, ran) =
        by_phase-Passed ks v e failing fuel ks.status.phase (length shards)
          (subst IsWaiting (sym at_phase) waiting) in
      subst
        (λ (f : Phase). Passed f ks (k.list_shards ks.namespace ks.name v).0 (reconcile k fuel w))
        at_phase (entered, next, rw (got, listed, sized, reconcile) ran)
