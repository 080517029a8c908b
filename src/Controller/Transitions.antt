-- ===== src/Controller/Transitions.antt =====
-- The phases that `Reconcile` of kvctl/internal/controller/kvstore_controller.go goes through.
use Prim.Native.String.{◌++◌}
use sharded_kvs.Prelude.{
  ℕ, String, Bool, true, false, Option, none, some, ◌≡◌, refl, sym, subst, ◌∙◌, ◌⊎◌, inl, inr,
  Error, Result, ok, err, returns, ◌>>=◌, >>=-eq-returns, returns-injective, Bool-cases, arith, eqb,
  ltb,
}
use sharded_kvs.Controller.{
  Phase, normal, preparing_scale, stopping_writes, redistributing_keys, resuming_writes,
  finalizing_scale, KvStoreResource, KvStoreStatus, StatefulSet, Ingress, Service, Cluster,
}
use sharded_kvs.Controller.Phases.{
  and_then, report, enter, reached, all_ready, get_shards, get_ingresses, get_services,
  prepare_scale, stop_writes, resume_writes, redistribute_keys, finish_scale, finalize_scale,
  ask_shards, after_asking, sum_pending, after_counting, groups_to_delete, delete_loop,
}
use sharded_kvs.Controller.Steps.{
  Step, stays, starts, prepared, paused, moved, finalized, resumed, SameCounts, Statuses,
}
use sharded_kvs.Controller.Kept.{
  Kept-update_config_map, Kept-delete_loop, Kept-ask_shards, Kept-sum_pending,
}

same_counts :
    (s t : KvStoreStatus)
    → t.current_shards ≡ s.current_shards
    → t.target_shards ≡ s.target_shards
    → SameCounts s t
same_counts s t c d = record { current = c; target = d }

module _ (k : Cluster) (st : Statuses k) where
  open st use {stored}

  -- The status is the one of before, or one step from the status `s`.
  abbrev pub Goes : KvStoreStatus → k.World → k.World → Type 0
  Goes s w w' = (stored w' ≡ stored w) ⊎ Step s (stored w')

  pub Goes-after :
      (s : KvStoreStatus) (u w w' : k.World) → stored w ≡ stored u → Goes s w w' → Goes s u w'
  Goes-after s u w w' e (inl q) = inl (q ∙ e)
  Goes-after s u w w' e (inr q) = inr q

  pub Goes-update :
      (s : KvStoreStatus) (ks : KvStoreResource k.Pod) (w : k.World)
      → Step s ks.status
      → Goes s w (k.update_status ks w).0
  Goes-update s ks w h = elim (st.updated ks w) [
    | inl q ↦ inr (subst (Step s) (sym q) h)
    | inr q ↦ inl q
  ]

  Goes-report :
      (text : String) (ks : KvStoreResource k.Pod) (w : k.World)
      → Goes ks.status w (report k text ks w).0
  unfolding report
  Goes-report text ks w =
      Goes-update ks.status _ w (stays refl (record { current = refl; target = refl }))

  Goes-enter :
      (s : KvStoreStatus) (phase : Phase) (text : String) (ks : KvStoreResource k.Pod) (w : k.World)
      → ((message : String) (now : ℕ)
          → Step s (record ks.status { phase = phase; message = message; last_transition = now }))
      → Goes s w (enter k phase text ks w).0
  unfolding enter
  Goes-enter s phase text ks w h = Goes-update s _ w (h text (k.now w))

  Kept-get_shards :
      (ks : KvStoreResource k.Pod) (w : k.World) → stored (get_shards k ks w).0 ≡ stored w
  unfolding get_shards
  Kept-get_shards ks w = st.list_shards ks.namespace ks.name w

  Kept-get_ingresses :
      (ks : KvStoreResource k.Pod) (w : k.World) → stored (get_ingresses k ks w).0 ≡ stored w
  unfolding get_ingresses
  Kept-get_ingresses ks w = st.list_ingresses ks.namespace ks.name w

  Kept-get_services :
      (ks : KvStoreResource k.Pod) (w : k.World) → stored (get_services k ks w).0 ≡ stored w
  unfolding get_services
  Kept-get_services ks w = st.list_services ks.namespace ks.name w

  pub Goes-prepare_scale :
      (ks : KvStoreResource k.Pod) (w : k.World)
      → ks.status.phase ≡ preparing_scale
      → Goes ks.status w (prepare_scale k ks w).0
  unfolding prepare_scale
  Goes-prepare_scale ks w at_phase =
      let v = (get_shards k ks w).0 in
      Goes-after ks.status w v _ (Kept-get_shards ks w)
        (elim (Bool-cases (all_ready k (get_shards k ks w).1)) [
          | inr q ↦ rw q (Goes-report "Waiting for shards to be ready" ks v)
          | inl q ↦ elim (Bool-cases (eqb ks.status.current_shards 0)) [
            | inl z ↦
                rw (q, z)
                  (Goes-enter ks.status normal "Ready" (reached k ks) v (λ t n.
                    starts at_phase (ground arith) refl (record { current = refl; target = refl })))
            | inr z ↦
                rw (q, z)
                  (Goes-enter ks.status stopping_writes "Starting to disable writes" ks v
                    (λ t n. prepared at_phase refl (record { current = refl; target = refl })))
          ]
        ])

  Goes-after_asking :
      (fuel : ℕ) (failing : String → String) (waiting : String)
      (next : k.World → k.World × Option Error) (ks : KvStoreResource k.Pod)
      (t : k.World × Result Bool)
      → ((w : k.World) → Goes ks.status w (next w).0)
      → Goes ks.status t.0 (after_asking k fuel failing waiting next ks t).0
  unfolding after_asking
  Goes-after_asking fuel failing waiting next ks (w, err e) h =
      Goes-report (failing (k.error_text e)) ks w
  Goes-after_asking fuel failing waiting next ks (w, ok true) h = h w
  Goes-after_asking fuel failing waiting next ks (w, ok false) h = Goes-report waiting ks w

  -- The shards are asked, and their answers acted on.
  Goes-asking :
      (fuel : ℕ) (call : String → k.World → k.World × Result Bool) (failing : String → String)
      (waiting : String) (next : k.World → k.World × Option Error) (ks : KvStoreResource k.Pod)
      (w : k.World) (t : k.World × Option Error)
      → ((a : String) (u : k.World) → stored (call a u).0 ≡ stored u)
      → ((v : k.World) → Goes ks.status v (next v).0)
      → (ask_shards k fuel call (get_shards k ks w).1 (get_shards k ks w).0 >>= λ u.
          returns (after_asking k fuel failing waiting next ks u))
        ≡ returns t
      → Goes ks.status w t.0
  Goes-asking fuel call failing waiting next ks w t kept h q =
      let v = (get_shards k ks w).0 in
      let (u, asked, e) = >>=-eq-returns (ask_shards k fuel call (get_shards k ks w).1 v) _ q in
      subst (λ (v : k.World × Option Error). Goes ks.status w v.0) (returns-injective _ t e)
        (Goes-after ks.status w u.0 _
          (Kept-ask_shards k st fuel call _ v u kept asked ∙ Kept-get_shards ks w)
          (Goes-after_asking fuel failing waiting next ks u h))

  pub Goes-stop_writes :
      (fuel : ℕ) (ks : KvStoreResource k.Pod) (w : k.World) (t : k.World × Option Error)
      → ks.status.phase ≡ stopping_writes
      → stop_writes k fuel ks w ≡ returns t
      → Goes ks.status w t.0
  unfolding stop_writes
  Goes-stop_writes fuel ks w t at_phase q =
      Goes-asking fuel k.pause_writes (λ e. "Failed to pause writes: " ++ (e ++ ". Retrying"))
        "Waiting for shards to pause writes"
        (enter k redistributing_keys "Starting to redistribute keys" ks) ks w t st.pause_writes
        (λ v.
          Goes-enter ks.status redistributing_keys "Starting to redistribute keys" ks v
            (λ m n. paused at_phase refl (record { current = refl; target = refl })))
        q

  pub Goes-resume_writes :
      (fuel : ℕ) (ks : KvStoreResource k.Pod) (w : k.World) (t : k.World × Option Error)
      → ks.status.phase ≡ resuming_writes
      → resume_writes k fuel ks w ≡ returns t
      → Goes ks.status w t.0
  unfolding resume_writes
  Goes-resume_writes fuel ks w t at_phase q =
      Goes-asking fuel k.resume_writes (λ e. "Failed to resume writes: " ++ (e ++ ". Retrying"))
        "Waiting for shards to resume writes" (enter k normal "Ready" (reached k ks)) ks w t
        st.resume_writes
        (λ v.
          Goes-enter ks.status normal "Ready" (reached k ks) v
            (λ m n. resumed at_phase refl (record { current = refl; target = refl })))
        q

  Goes-after_counting :
      (fuel : ℕ) (ks : KvStoreResource k.Pod) (t : k.World × Result ℕ)
      → ks.status.phase ≡ redistributing_keys
      → Goes ks.status t.0 (after_counting k fuel ks t).0
  unfolding after_counting
  Goes-after_counting fuel ks (w, err e) at_phase = Goes-report _ ks w
  Goes-after_counting fuel ks (w, ok n) at_phase = elim (Bool-cases (eqb n 0)) [
    | inl z ↦ rw z (
        Goes-enter ks.status finalizing_scale "Starting to finalize scaling operation" ks w
          (λ m n. moved at_phase refl (record { current = refl; target = refl })))
    | inr z ↦ rw z (Goes-report _ ks w)
  ]

  pub Goes-redistribute_keys :
      (fuel : ℕ) (ks : KvStoreResource k.Pod) (w : k.World) (t : k.World × Option Error)
      → ks.status.phase ≡ redistributing_keys
      → redistribute_keys k fuel ks w ≡ returns t
      → Goes ks.status w t.0
  unfolding redistribute_keys
  Goes-redistribute_keys fuel ks w t at_phase q =
      let v = (get_shards k ks w).0 in
      let (u, asked, e) = >>=-eq-returns (sum_pending k fuel (get_shards k ks w).1 0 v) _ q in
      subst (λ (v : k.World × Option Error). Goes ks.status w v.0) (returns-injective _ t e)
        (Goes-after ks.status w u.0 _
          (Kept-sum_pending k st fuel _ 0 v u asked ∙ Kept-get_shards ks w)
          (Goes-after_counting fuel ks u at_phase))

  -- A call that keeps the status, and the next one if it gave no error.
  pub Goes-and_then :
      (s : KvStoreStatus) (w : k.World) (t : k.World × Option Error)
      (next : k.World → k.World × Option Error)
      → stored t.0 ≡ stored w
      → ((v : k.World) → Goes s v (next v).0)
      → Goes s w (and_then k t next).0
  Goes-and_then s w (v, none) next e h = Goes-after s w v _ e (h v)
  Goes-and_then s w (v, some x) next e h = inl e

  Goes-finish_scale :
      (ks : KvStoreResource k.Pod) (w : k.World)
      → ks.status.phase ≡ finalizing_scale
      → Goes ks.status w (finish_scale k ks w).0
  unfolding finish_scale
  Goes-finish_scale ks w at_phase =
      Goes-and_then ks.status w _ _ (Kept-update_config_map k st _ w) λ v.
        Goes-update ks.status _ v
          (finalized at_phase refl (record { current = refl; target = refl }))

  pub Goes-finalize_scale :
      (ks : KvStoreResource k.Pod) (w : k.World)
      → ks.status.phase ≡ finalizing_scale
      → Goes ks.status w (finalize_scale k ks w).0
  unfolding finalize_scale
  Goes-finalize_scale ks w at_phase =
      let groups = groups_to_delete ks.name ks.status.target_shards ks.status.current_shards in
      let shards = λ (v : k.World).
        delete_loop k (λ (s : StatefulSet k.Pod). s.meta) k.delete_shard groups
          (get_shards k ks v).1 (get_shards k ks v).0 in
      let ingresses = λ (v : k.World).
        delete_loop k (λ (i : Ingress). i.meta) k.delete_ingress groups (get_ingresses k ks v).1
          (get_ingresses k ks v).0 in
      let services = λ (v : k.World).
        delete_loop k (λ (s : Service). s.meta) k.delete_service groups (get_services k ks v).1
          (get_services k ks v).0 in
      let last = λ (v : k.World). and_then k (services v) (finish_scale k ks) in
      let rest = λ (v : k.World). and_then k (ingresses v) last in
      elim (Bool-cases (ltb ks.status.current_shards ks.status.target_shards)) [
        | inl q ↦ rw q (Goes-finish_scale ks w at_phase)
        | inr q ↦ rw q (
            Goes-and_then ks.status w (shards w) rest
              (Kept-delete_loop k st (λ (s : StatefulSet k.Pod). s.meta) k.delete_shard groups
                  (get_shards k ks w).1 (get_shards k ks w).0 st.delete_shard
                ∙ Kept-get_shards ks w)
              λ w1.
                Goes-and_then ks.status w1 (ingresses w1) last
                  (Kept-delete_loop k st (λ (i : Ingress). i.meta) k.delete_ingress groups
                      (get_ingresses k ks w1).1 (get_ingresses k ks w1).0 st.delete_ingress
                    ∙ Kept-get_ingresses ks w1)
                  λ w2.
                    Goes-and_then ks.status w2 (services w2) (finish_scale k ks)
                      (Kept-delete_loop k st (λ (s : Service). s.meta) k.delete_service groups
                          (get_services k ks w2).1 (get_services k ks w2).0 st.delete_service
                        ∙ Kept-get_services ks w2)
                      λ w3. Goes-finish_scale ks w3 at_phase)
      ]
