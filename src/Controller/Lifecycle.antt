-- ===== src/Controller/Lifecycle.antt =====
-- What one run of `Reconcile` of kvctl/internal/controller/kvstore_controller.go does to the status
-- of the resource, and the invariant that all runs keep.
use sharded_kvs.Prelude.{
  ℕ, some, List, [], ◌∷◌, ◌≡◌, refl, sym, subst, ◌∙◌, ap, inl, inr, returns, returns-injective,
  Bool-cases, Option-cases, Result-cases, is_not_found, arith, eqb, ltb, length, not,
}
use sharded_kvs.Controller.{
  Phase, normal, preparing_scale, stopping_writes, redistributing_keys, resuming_writes,
  finalizing_scale, scale_complete, KvStoreResource, StatefulSet, Cluster,
}
use sharded_kvs.Controller.Reconcile.{
  Reconciled, settle, by_phase, reconcile, rescale_loop, rescaled,
}
use sharded_kvs.Controller.Steps.{Statuses, IsConsistent, Step-IsConsistent}
use sharded_kvs.Controller.Scaling.{
  world-settle, self_step, unchanged, Moves-Goes, Goes-dispatch, Moves-scale_up, Moves-scale_down,
  Moves,
}

module _ (k : Cluster) (st : Statuses k) where
  open st use {stored}

  Moves-by_phase :
      (fuel : ℕ) (phase : Phase) (count : ℕ) (ks : KvStoreResource k.Pod) (w : k.World)
      (x : Reconciled k.World)
      → ks.status ≡ stored w
      → ks.status.phase ≡ phase
      → by_phase k fuel phase count ks w ≡ returns x
      → Moves k st ks.status x.world
  unfolding by_phase
  Moves-by_phase fuel normal count ks w x e f q = elim (Bool-cases (ltb count ks.spec.shards)) [
    | inl up ↦
        subst (λ (y : Reconciled k.World). Moves k st ks.status y.world)
          (returns-injective _ x (rw up at q)) (Moves-scale_up k st count ks w e f (ground arith))
    | inr not_up ↦ elim (Bool-cases (ltb ks.spec.shards count)) [
      | inl down ↦
          Moves-scale_down k st fuel count ks w x e f (ground arith) (rw (not_up, down) at q)
      | inr level ↦
          Moves-Goes k st ks.status w x.world e
            (Goes-dispatch k st fuel normal ks w x f (rw (not_up, level) at q))
    ]
  ]
  Moves-by_phase fuel preparing_scale count ks w x e f q =
      Moves-Goes k st ks.status w x.world e (Goes-dispatch k st fuel _ ks w x f q)
  Moves-by_phase fuel stopping_writes count ks w x e f q =
      Moves-Goes k st ks.status w x.world e (Goes-dispatch k st fuel _ ks w x f q)
  Moves-by_phase fuel redistributing_keys count ks w x e f q =
      Moves-Goes k st ks.status w x.world e (Goes-dispatch k st fuel _ ks w x f q)
  Moves-by_phase fuel resuming_writes count ks w x e f q =
      Moves-Goes k st ks.status w x.world e (Goes-dispatch k st fuel _ ks w x f q)
  Moves-by_phase fuel finalizing_scale count ks w x e f q =
      Moves-Goes k st ks.status w x.world e (Goes-dispatch k st fuel _ ks w x f q)
  Moves-by_phase fuel scale_complete count ks w x e f q =
      Moves-Goes k st ks.status w x.world e (Goes-dispatch k st fuel _ ks w x f q)

  rescale_loop-stored :
      (replicas : ℕ) (l : List (StatefulSet k.Pod)) (w : k.World) (x : Reconciled k.World)
      → rescale_loop k replicas l w ≡ some x
      → stored x.world ≡ stored w
  unfolding rescale_loop
  rescale_loop-stored replicas [] w x q = cc
  rescale_loop-stored replicas (s ∷ l) w x q = elim (Bool-cases (not (eqb s.replicas replicas))) [
    | inr same ↦ rescale_loop-stored replicas l w x (rw same at q)
    | inl other ↦
        let e : settle k (k.update_shard (rescaled k replicas s) w) ≡ x = cc (rw other at q) in
        ap (λ (z : Reconciled k.World). stored z.world) (sym e)
        ∙ ap stored (world-settle k st _)
        ∙ st.update_shard _ w
  ]

  ended : (y x : Reconciled k.World) → returns y ≡ returns x → stored x.world ≡ stored y.world
  ended y x q = ap (λ (z : Reconciled k.World). stored z.world) (sym (returns-injective y x q))

  still :
      (w : k.World) (x : Reconciled k.World)
      → stored x.world ≡ stored w
      → Moves k st (stored w) x.world
  still w x e = (stored w, self_step k st (stored w), unchanged k st (stored w) x.world e)

  -- However the calls that it makes answer, one run of `Reconcile` leaves the status that is stored
  -- as it was, or takes it along at most two steps of the state machine.
  pub reconcile-Moves :
      (fuel : ℕ) (w : k.World) (x : Reconciled k.World)
      → reconcile k fuel w ≡ returns x
      → Moves k st (stored w) x.world
  unfolding reconcile
  reconcile-Moves fuel w x q = elim (Result-cases (k.get_resource w)) [
    | inr (e, f) ↦ elim (Bool-cases (is_not_found e)) [
      | inl gone ↦ still w x (ended _ x (rw (f, gone, reconcile) at q))
      | inr other ↦ still w x (ended _ x (rw (f, other, reconcile) at q))
    ]
    | inl (ks, f) ↦
        let v = (k.list_shards ks.namespace ks.name w).0 in
        let kept = st.list_shards ks.namespace ks.name w in
        elim (Result-cases (k.list_shards ks.namespace ks.name w).1) [
          | inr (e, g) ↦ still w x (ended _ x (rw (f, g, reconcile) at q) ∙ kept)
          | inl (shards, g) ↦ elim (Option-cases (rescale_loop k ks.spec.replicas shards v)) [
            | inr (y, r) ↦ still w x (
                ended y x (rw (f, g, r, reconcile) at q)
                ∙ rescale_loop-stored _ shards v y r
                ∙ kept)
            | inl r ↦
                subst (λ s. Moves k st s x.world) (st.fetched w ks f)
                  (Moves-by_phase fuel ks.status.phase (length shards) ks v x
                    (st.fetched w ks f ∙ sym kept) refl (rw (f, g, r, reconcile) at q))
          ]
        ]
  ]

  -- Every run keeps the invariant: while a scaling operation is under way the two numbers of shards
  -- differ, once it is finalized they agree, and the phase "ScaleComplete" is never entered.
  pub reconcile-IsConsistent :
      (fuel : ℕ) (w : k.World) (x : Reconciled k.World)
      → reconcile k fuel w ≡ returns x
      → IsConsistent (stored w)
      → IsConsistent (stored x.world)
  reconcile-IsConsistent fuel w x q h =
      let (u, first, second) = reconcile-Moves fuel w x q in
      Step-IsConsistent u _ second (Step-IsConsistent _ u first h)
