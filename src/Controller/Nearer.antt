-- ===== src/Controller/Nearer.antt =====
-- How far a scaling operation of kvctl/internal/controller/kvstore_controller.go is from its end, and
-- that the handlers of the phases bring it nearer, in a cluster in which every call succeeds.
use sharded_kvs.Prelude.{
  ℕ, suc, ◌<◌, String, true, Option, none, some, ◌≡◌, refl, sym, subst, inl, inr, Error, arith, eqb,
  ltb, returns, Bool-cases,
}
use sharded_kvs.Controller.{
  Phase, normal, preparing_scale, stopping_writes, redistributing_keys, resuming_writes,
  finalizing_scale, KvStoreResource, KvStoreStatus, StatefulSet, Ingress, Service, Cluster,
}
use sharded_kvs.Controller.Config.{update_config_map}
use sharded_kvs.Controller.Phases.{
  with_status, and_then, enter, reached, prepare_scale, stop_writes, resume_writes,
  redistribute_keys, finalize_scale, finish_scale, after_asking, after_counting, get_shards,
  get_ingresses, get_services, all_ready, delete_loop, groups_to_delete,
}
use sharded_kvs.Controller.Steps.{Statuses}
use sharded_kvs.Controller.Cooperative.{
  Cooperative, delete_loop-none, update_config_map-none, ask_shards-ok, sum_pending-ok,
}

-- How many requests a phase is away from the normal one, at most.
abbrev pub rank : Phase → ℕ
rank preparing_scale = 5
rank stopping_writes = 4
rank redistributing_keys = 3
rank finalizing_scale = 2
rank resuming_writes = 1
rank _ = 0

-- From `s` to `t` the operation is nearer to its end, its target is the same, and if `t` is the end
-- the target is reached.
pub record Progress (s t : KvStoreStatus) : Type 0 where
  pub nearer : rank t.phase < rank s.phase
  pub target : t.target_shards ≡ s.target_shards
  pub ended : rank t.phase ≡ 0 → (t.phase ≡ normal) × (t.current_shards ≡ t.target_shards)

module _ (k : Cluster) (st : Statuses k) (co : Cooperative k st) where
  open st use {stored}

  -- A handler that stores a status and reports no error.
  abbrev pub Makes : KvStoreStatus → k.World × Option Error → Type 0
  Makes s t = Progress s (stored t.0) × (t.1 ≡ none)

  Makes-update :
      (s : KvStoreStatus) (ks : KvStoreResource k.Pod) (w : k.World)
      → Progress s ks.status
      → Makes s (k.update_status ks w)
  Makes-update s ks w h = let (now, fine) = co.stores ks w in (subst (Progress s) (sym now) h, fine)

  Makes-enter :
      (phase : Phase) (text : String) (ks : KvStoreResource k.Pod) (w : k.World) (s : KvStoreStatus)
      → ((m : String) (t : ℕ)
          → Progress s (record ks.status { phase = phase; message = m; last_transition = t }))
      → Makes s (enter k phase text ks w)
  unfolding enter
  Makes-enter phase text ks w s h = Makes-update s _ w (h text (k.now w))

  pub Makes-prepare :
      (ks : KvStoreResource k.Pod) (w : k.World)
      → ks.status.phase ≡ preparing_scale
      → all_ready k (get_shards k ks w).1 ≡ true
      → Makes ks.status (prepare_scale k ks w)
  unfolding prepare_scale
  Makes-prepare ks w e ready = elim (Bool-cases (eqb ks.status.current_shards 0)) [
    | inl z ↦
        rw (ready, z)
          (Makes-enter normal "Ready" (reached k ks) (get_shards k ks w).0 ks.status
            λ m t. record { nearer = rw e (omega arith); target = refl; ended = λ _. (refl, refl) })
    | inr z ↦
        rw (ready, z)
          (Makes-enter stopping_writes "Starting to disable writes" ks (get_shards k ks w).0
            ks.status
            λ m t. record {
              nearer = rw e (omega arith);
              target = refl;
              ended = λ q. absurd (omega arith);
            })
  ]

  pub Makes-stop :
      (f : ℕ) (ks : KvStoreResource k.Pod) (w : k.World)
      → ks.status.phase ≡ stopping_writes
      → (t : k.World × Option Error) × (stop_writes k (suc f) ks w ≡ returns t) × Makes ks.status t
  unfolding stop_writes after_asking
  Makes-stop f ks w e =
      let (w', asked) =
        ask_shards-ok k st co f k.pause_writes (get_shards k ks w).1 (get_shards k ks w).0
          co.pauses in
      (
        enter k redistributing_keys "Starting to redistribute keys" ks w',
        rw asked refl,
        Makes-enter redistributing_keys "Starting to redistribute keys" ks w' ks.status λ m t.
            record {
              nearer = rw e (omega arith);
              target = refl;
              ended = λ q. absurd (omega arith);
            },
      )

  pub Makes-redistribute :
      (f : ℕ) (ks : KvStoreResource k.Pod) (w : k.World)
      → ks.status.phase ≡ redistributing_keys
      → (t : k.World × Option Error) × (redistribute_keys k (suc f) ks w ≡ returns t)
        × Makes ks.status t
  unfolding redistribute_keys after_counting
  Makes-redistribute f ks w e =
      let (w', asked) = sum_pending-ok k st co f (get_shards k ks w).1 (get_shards k ks w).0 in
      (
        enter k finalizing_scale "Starting to finalize scaling operation" ks w',
        rw asked refl,
        Makes-enter finalizing_scale "Starting to finalize scaling operation" ks w' ks.status λ m t.
            record {
              nearer = rw e (omega arith);
              target = refl;
              ended = λ q. absurd (omega arith);
            },
      )

  pub Makes-resume :
      (f : ℕ) (ks : KvStoreResource k.Pod) (w : k.World)
      → ks.status.phase ≡ resuming_writes
      → (t : k.World × Option Error) × (resume_writes k (suc f) ks w ≡ returns t)
        × Makes ks.status t
  unfolding resume_writes after_asking
  Makes-resume f ks w e =
      let (w', asked) =
        ask_shards-ok k st co f k.resume_writes (get_shards k ks w).1 (get_shards k ks w).0
          co.resumes in
      (
        enter k normal "Ready" (reached k ks) w',
        rw asked refl,
        Makes-enter normal "Ready" (reached k ks) w' ks.status
            λ m t. record { nearer = rw e (omega arith); target = refl; ended = λ q. (refl, refl) },
      )

  -- The first call reports no error, so the next one is made.
  Makes-and_then :
      (s : KvStoreStatus) (t : k.World × Option Error) (next : k.World → k.World × Option Error)
      → t.1 ≡ none
      → Makes s (next t.0)
      → Makes s (and_then k t next)
  Makes-and_then s (w, none) next e h = h
  Makes-and_then s (w, some x) next e h = absurd (cc)

  Makes-finish :
      (ks : KvStoreResource k.Pod) (w : k.World)
      → ks.status.phase ≡ finalizing_scale
      → Makes ks.status (finish_scale k ks w)
  unfolding finish_scale
  Makes-finish ks w e =
      let done = with_status k ks (record ks.status {
        phase = resuming_writes;
        message = "Starting to resume writes";
        current_shards = ks.status.target_shards;
        last_transition = k.now w;
      }) in
      Makes-and_then ks.status (update_config_map k done w) (k.update_status done)
        (update_config_map-none k st co done w)
        (Makes-update ks.status done (update_config_map k done w).0 (record {
          nearer = rw e (omega arith);
          target = refl;
          ended = λ q. absurd (omega arith);
        }))

  pub Makes-finalize :
      (ks : KvStoreResource k.Pod) (w : k.World)
      → ks.status.phase ≡ finalizing_scale
      → Makes ks.status (finalize_scale k ks w)
  unfolding finalize_scale
  Makes-finalize ks w e =
      let groups = groups_to_delete ks.name ks.status.target_shards ks.status.current_shards in
      let shards = λ (v : k.World).
        delete_loop k (λ (s : StatefulSet k.Pod). s.meta) k.delete_shard groups
          (get_shards k ks v).1 (get_shards k ks v).0 in
      let ingresses = λ (v : k.World).
        delete_loop k (λ (i : Ingress). i.meta) k.delete_ingress groups (get_ingresses k ks v).1
          (get_ingresses k ks v).0 in
      let services = λ (v : k.World).
        delete_loop k (λ (s : Service). s.meta) k.delete_service groups (get_services k ks v).1
          (get_services k ks v).0 in
      let last = λ (v : k.World). and_then k (services v) (finish_scale k ks) in
      elim (Bool-cases (ltb ks.status.current_shards ks.status.target_shards)) [
        | inl q ↦ rw q (Makes-finish ks w e)
        | inr q ↦ rw q (
            Makes-and_then ks.status (shards w) (λ v. and_then k (ingresses v) last)
              (delete_loop-none k (λ (s : StatefulSet k.Pod). s.meta) k.delete_shard groups
                (get_shards k ks w).1 (get_shards k ks w).0 co.deletes_shard)
              (Makes-and_then ks.status (ingresses (shards w).0) last
                (delete_loop-none k (λ (i : Ingress). i.meta) k.delete_ingress groups
                  (get_ingresses k ks (shards w).0).1 (get_ingresses k ks (shards w).0).0
                  co.deletes_ingress)
                (Makes-and_then ks.status (services (ingresses (shards w).0).0) (finish_scale k ks)
                  (delete_loop-none k (λ (s : Service). s.meta) k.delete_service groups
                    (get_services k ks (ingresses (shards w).0).0).1
                    (get_services k ks (ingresses (shards w).0).0).0 co.deletes_service)
                  (Makes-finish ks (services (ingresses (shards w).0).0).0 e))))
      ]
