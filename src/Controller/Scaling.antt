-- ===== src/Controller/Scaling.antt =====
-- The handlers of a phase, and the beginning of a scaling operation, in
-- kvctl/internal/controller/kvstore_controller.go: what they do to the stored status.
use sharded_kvs.Prelude.{
  ◌≢◌, ℕ, none, some, Option, ◌≡◌, refl, sym, subst, ◌∙◌, ap, inl, inr, Error, returns,
  >>=-eq-returns, returns-injective, Option-cases,
}
use sharded_kvs.Controller.{
  Phase, normal, preparing_scale, stopping_writes, redistributing_keys, resuming_writes,
  finalizing_scale, scale_complete, KvStoreResource, KvStoreStatus, Cluster,
}
use sharded_kvs.Controller.Objects.{new_shard, new_service, new_ingress}
use sharded_kvs.Controller.Config.{update_config_map}
use sharded_kvs.Controller.SpinUp.{spin_up_shards, spin_up_shard_ingresses, spin_up_shard_services}
use sharded_kvs.Controller.Phases.{and_then}
use sharded_kvs.Controller.Reconcile.{
  Reconciled, settle, begin_scale, scale_up, scale_down, dispatch,
}
use sharded_kvs.Controller.Steps.{Step, stays, begins, Statuses}
use sharded_kvs.Controller.Kept.{Kept-update_config_map, Kept-spin_up_loop}
use sharded_kvs.Controller.Transitions.{
  Goes, Goes-update, Goes-prepare_scale, Goes-stop_writes, Goes-resume_writes,
  Goes-redistribute_keys, Goes-finalize_scale,
}

module _ (k : Cluster) (st : Statuses k) where
  open st use {stored}

  pub world-settle : (t : k.World × Option Error) → (settle k t).world ≡ t.0
  world-settle (w, none) = refl
  world-settle (w, some e) = refl

  -- The status of before, or at most two steps from it.
  abbrev pub Moves : KvStoreStatus → k.World → Type 0
  Moves s w' = (u : KvStoreStatus) × Step s u × Step u (stored w')

  pub self_step : (s : KvStoreStatus) → Step s s
  self_step s = stays refl (record { current = refl; target = refl })

  pub unchanged : (s : KvStoreStatus) (w' : k.World) → stored w' ≡ s → Step s (stored w')
  unchanged s w' e = subst (Step s) (sym e) (self_step s)

  -- A handler that ran on the stored status.
  pub Moves-Goes :
      (s : KvStoreStatus) (w w' : k.World) → s ≡ stored w → Goes k st s w w' → Moves s w'
  Moves-Goes s w w' e (inl q) = (s, self_step s, unchanged s w' (q ∙ sym e))
  Moves-Goes s w w' e (inr q) = (s, self_step s, q)

  -- A handler that ran on a status that may have been stored, one step from that of before.
  Moves-began :
      (s b : KvStoreStatus) (u w' : k.World)
      → Step s b
      → Goes k st b u w'
      → Step s (stored u)
      → Moves s w'
  Moves-began s b u w' first (inl q) before = (stored u, before, unchanged (stored u) w' q)
  Moves-began s b u w' first (inr q) before = (b, first, q)

  Goes-settled :
      (s : KvStoreStatus) (w : k.World) (t : k.World × Option Error)
      → Goes k st s w t.0
      → Goes k st s w (settle k t).world
  Goes-settled s w (v, none) h = h
  Goes-settled s w (v, some e) h = h

  pub Goes-dispatch :
      (fuel : ℕ) (phase : Phase) (ks : KvStoreResource k.Pod) (w : k.World) (x : Reconciled k.World)
      → ks.status.phase ≡ phase
      → dispatch k fuel phase ks w ≡ returns x
      → Goes k st ks.status w x.world
  unfolding dispatch
  Goes-dispatch fuel normal ks w x e q =
      inl (ap (λ (y : Reconciled k.World). stored y.world) (sym (returns-injective _ x q)))
  Goes-dispatch fuel scale_complete ks w x e q =
      inl (ap (λ (y : Reconciled k.World). stored y.world) (sym (returns-injective _ x q)))
  Goes-dispatch fuel preparing_scale ks w x e q =
      subst (λ (y : Reconciled k.World). Goes k st ks.status w y.world) (returns-injective _ x q)
        (Goes-settled ks.status w _ (Goes-prepare_scale k st ks w e))
  Goes-dispatch fuel finalizing_scale ks w x e q =
      subst (λ (y : Reconciled k.World). Goes k st ks.status w y.world) (returns-injective _ x q)
        (Goes-settled ks.status w _ (Goes-finalize_scale k st ks w e))
  Goes-dispatch fuel stopping_writes ks w x e q =
      let (t, ran, f) = >>=-eq-returns _ _ q in
      subst (λ (y : Reconciled k.World). Goes k st ks.status w y.world) (returns-injective _ x f)
        (Goes-settled ks.status w t (Goes-stop_writes k st fuel ks w t e ran))
  Goes-dispatch fuel redistributing_keys ks w x e q =
      let (t, ran, f) = >>=-eq-returns _ _ q in
      subst (λ (y : Reconciled k.World). Goes k st ks.status w y.world) (returns-injective _ x f)
        (Goes-settled ks.status w t (Goes-redistribute_keys k st fuel ks w t e ran))
  Goes-dispatch fuel resuming_writes ks w x e q =
      let (t, ran, f) = >>=-eq-returns _ _ q in
      subst (λ (y : Reconciled k.World). Goes k st ks.status w y.world) (returns-injective _ x f)
        (Goes-settled ks.status w t (Goes-resume_writes k st fuel ks w t e ran))

  Kept-and_then :
      (w : k.World) (t : k.World × Option Error) (next : k.World → k.World × Option Error)
      → stored t.0 ≡ stored w
      → ((v : k.World) → stored (next v).0 ≡ stored v)
      → stored (and_then k t next).0 ≡ stored w
  Kept-and_then w (v, none) next e h = h v ∙ e
  Kept-and_then w (v, some x) next e h = e

  module _ (ks : KvStoreResource k.Pod) where
    Kept-shards : (w : k.World) → stored (spin_up_shards k ks w).0 ≡ stored w
    unfolding spin_up_shards
    Kept-shards w =
        Kept-spin_up_loop k st ks (λ i owner. k.create_shard (new_shard ks i owner)) _ _ w
          (λ j owner u. st.create_shard _ u)

    Kept-services : (w : k.World) → stored (spin_up_shard_services k ks w).0 ≡ stored w
    unfolding spin_up_shard_services
    Kept-services w =
        Kept-spin_up_loop k st ks (λ i owner. k.create_service (new_service ks i owner)) _ _ w
          (λ j owner u. st.create_service _ u)

    Kept-ingresses : (w : k.World) → stored (spin_up_shard_ingresses k ks w).0 ≡ stored w
    unfolding spin_up_shard_ingresses
    Kept-ingresses w =
        Kept-spin_up_loop k st ks (λ i owner. k.create_ingress (new_ingress ks i owner)) _ _ w
          (λ j owner u. st.create_ingress _ u)

    -- Only the first call of `scale_up` touches the status.
    scale_up-stored :
        (w : k.World) → stored (scale_up k ks w).world ≡ stored (k.update_status ks w).0
    unfolding scale_up
    scale_up-stored w =
        let w0 = (k.update_status ks w).0 in
        let last =
          λ (v : k.World). and_then k (spin_up_shard_services k ks v) (spin_up_shards k ks) in
        let rest = λ (v : k.World). and_then k (spin_up_shard_ingresses k ks v) last in
        ap stored (world-settle (and_then k (update_config_map k ks w0) rest))
        ∙ Kept-and_then w0 (update_config_map k ks w0) rest (Kept-update_config_map k st ks w0) λ v.
          Kept-and_then v (spin_up_shard_ingresses k ks v) last (Kept-ingresses v) λ u.
            Kept-and_then u (spin_up_shard_services k ks u) (spin_up_shards k ks) (Kept-services u)
              Kept-shards

  Step-begins :
      (count : ℕ) (ks : KvStoreResource k.Pod) (w : k.World)
      → ks.status.phase ≡ normal
      → count ≢ ks.spec.shards
      → Step ks.status (begin_scale k count ks w).status
  unfolding begin_scale
  Step-begins count ks w e ne = begins e refl ne

  Step-stored :
      (s : KvStoreStatus) (ks : KvStoreResource k.Pod) (w : k.World)
      → s ≡ stored w
      → Step s ks.status
      → Step s (stored (k.update_status ks w).0)
  Step-stored s ks w e h = elim (Goes-update k st s ks w h) [
    | inl q ↦ unchanged s _ (q ∙ sym e)
    | inr q ↦ q
  ]

  pub Moves-scale_up :
      (count : ℕ) (ks : KvStoreResource k.Pod) (w : k.World)
      → ks.status ≡ stored w
      → ks.status.phase ≡ normal
      → count ≢ ks.spec.shards
      → Moves ks.status (scale_up k (begin_scale k count ks w) w).world
  Moves-scale_up count ks w e at_normal ne =
      let began = begin_scale k count ks w in
      (
        stored (k.update_status began w).0,
        Step-stored ks.status began w e (Step-begins count ks w at_normal ne),
        unchanged _ _ (scale_up-stored began w),
      )

  pub Moves-scale_down :
      (fuel count : ℕ) (ks : KvStoreResource k.Pod) (w : k.World) (x : Reconciled k.World)
      → ks.status ≡ stored w
      → ks.status.phase ≡ normal
      → count ≢ ks.spec.shards
      → scale_down k fuel (begin_scale k count ks w) w ≡ returns x
      → Moves ks.status x.world
  unfolding scale_down
  Moves-scale_down fuel count ks w x e at_normal ne q =
      let began = begin_scale k count ks w in
      let w0 = (k.update_status began w).0 in
      let t = update_config_map k began w0 in
      let first = Step-begins count ks w at_normal ne in
      let before =
        subst (Step ks.status) (sym (Kept-update_config_map k st began w0))
          (Step-stored ks.status began w e first) in
      elim (Option-cases t.1) [
        | inr (y, f) ↦ (
          stored t.0,
          before,
          unchanged _ _ (
              ap (λ (z : Reconciled k.World). stored z.world)
                (sym (returns-injective _ x (rw (f, scale_down) at q)))),
        )
        | inl f ↦
            Moves-began ks.status began.status t.0 x.world first
              (Goes-dispatch fuel _ began t.0 x refl (rw (f, scale_down) at q)) before
      ]
