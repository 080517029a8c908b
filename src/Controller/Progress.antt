-- ===== src/Controller/Progress.antt =====
-- A scaling operation of kvctl/internal/controller/kvstore_controller.go comes to its end, in a
-- cluster in which every call succeeds.
use sharded_kvs.Prelude.{
  ℕ, zero, suc, ◌≤◌, ◌<◌, Option, none, some, ◌≡◌, refl, sym, ◌∙◌, subst, ◌⊎◌, inl, inr, Error,
  arith, Outcome, returns, ◌>>=◌, length,
}
use sharded_kvs.Controller.{
  Phase, normal, preparing_scale, stopping_writes, redistributing_keys, resuming_writes,
  finalizing_scale, scale_complete, KvStoreStatus, Cluster,
}
use sharded_kvs.Controller.Phases.{prepare_scale, finalize_scale, get_shards, or_empty}
use sharded_kvs.Controller.Reconcile.{Reconciled, settle, dispatch, by_phase, reconcile}
use sharded_kvs.Controller.Steps.{Statuses}
use sharded_kvs.Controller.Cooperative.{Found, Cooperative, all_ready_lem, rescale_loop-none}
use sharded_kvs.Controller.Nearer.{
  rank, Progress, Makes, Makes-prepare, Makes-stop, Makes-redistribute, Makes-resume,
  Makes-finalize,
}

rank-le : (p : Phase) → rank p ≤ 5
rank-le preparing_scale = omega arith
rank-le stopping_writes = omega arith
rank-le redistributing_keys = omega arith
rank-le finalizing_scale = omega arith
rank-le resuming_writes = omega arith
rank-le normal = omega arith
rank-le scale_complete = omega arith

zero_or_more : (n : ℕ) → (n ≡ 0) ⊎ (0 < n)
zero_or_more zero = inl refl
zero_or_more (suc n) = inr (omega arith)

module _ (k : Cluster) where
  -- Requests one after another.
  abbrev pub requests : ℕ → ℕ → k.World → Outcome k.World
  requests fuel zero w = returns w
  requests fuel (suc m) w = reconcile k fuel w >>= λ x. requests fuel m x.world

module _ (k : Cluster) (st : Statuses k) where
  open st use {stored}

  -- Normal again, with as many shards as the operation set out to have.
  pub record Ended (before : KvStoreStatus) (w : k.World) : Type 0 where
    pub phase : (stored w).phase ≡ normal
    pub current : (stored w).current_shards ≡ before.target_shards

module _ (k : Cluster) (st : Statuses k) (co : Cooperative k st) where
  open st use {stored}

  -- A request on a resource in the phase.
  abbrev Advances : KvStoreStatus → Outcome (Reconciled k.World) → Type 0
  Advances s o =
      (x : Reconciled k.World) × (o ≡ returns x) × Progress s (stored x.world) × (x.error ≡ none)

  settled :
      (s : KvStoreStatus) (t : k.World × Option Error)
      → Makes k st co s t
      → Progress s (stored (settle k t).world) × ((settle k t).error ≡ none)
  settled s (w, none) h = (h.0, refl)
  settled s (w, some e) h = absurd (cc (h.1))

  Advances-settled :
      (s : KvStoreStatus) (m : Outcome (k.World × Option Error)) (t : k.World × Option Error)
      → m ≡ returns t
      → Makes k st co s t
      → Advances s (m >>= λ t. returns (settle k t))
  Advances-settled s m t q h =
      let (nearer, fine) = settled s t h in (settle k t, rw q refl, nearer, fine)

  -- The world after the list that `Reconcile` fetches.
  abbrev after_list : (w : k.World) → Found k w → k.World
  after_list w x = (k.list_shards x.resource.namespace x.resource.name w).0

  get_shards-Found :
      (w : k.World) (x : Found k w) → (get_shards k x.resource (after_list w x)).1 ≡ x.shards_again
  unfolding get_shards or_empty
  get_shards-Found w x = rw (x.listed_again, or_empty) refl

  Advances-by_phase :
      (f : ℕ) (phase : Phase) (count : ℕ) (w : k.World) (x : Found k w)
      → x.resource.status.phase ≡ phase
      → 0 < rank phase
      → Advances x.resource.status (by_phase k (suc f) phase count x.resource (after_list w x))
  unfolding by_phase dispatch
  Advances-by_phase f preparing_scale count w x e h =
      let t = prepare_scale k x.resource (after_list w x) in
      Advances-settled x.resource.status (returns t) t refl (
        Makes-prepare k st co x.resource (after_list w x) e
          (rw (get_shards-Found w x) (all_ready_lem k x.shards_again x.ready)))
  Advances-by_phase f stopping_writes count w x e h =
      let (t, ran, makes) = Makes-stop k st co f x.resource (after_list w x) e in
      Advances-settled x.resource.status _ t ran makes
  Advances-by_phase f redistributing_keys count w x e h =
      let (t, ran, makes) = Makes-redistribute k st co f x.resource (after_list w x) e in
      Advances-settled x.resource.status _ t ran makes
  Advances-by_phase f resuming_writes count w x e h =
      let (t, ran, makes) = Makes-resume k st co f x.resource (after_list w x) e in
      Advances-settled x.resource.status _ t ran makes
  Advances-by_phase f finalizing_scale count w x e h =
      let t = finalize_scale k x.resource (after_list w x) in
      Advances-settled x.resource.status (returns t) t refl
        (Makes-finalize k st co x.resource (after_list w x) e)
  Advances-by_phase f normal count w x e h = absurd (omega arith)
  Advances-by_phase f scale_complete count w x e h = absurd (omega arith)

  -- While a scaling operation is under way, a request returns with no error and brings it nearer to
  -- its end.
  reconcile-Progress :
      (f : ℕ) (w : k.World)
      → 0 < rank (stored w).phase
      → (x : Reconciled k.World) × (reconcile k (suc f) w ≡ returns x)
        × Progress (stored w) (stored x.world)
        × (x.error ≡ none)
  unfolding reconcile
  reconcile-Progress f w h =
      let x = co.found w in
      let same = st.fetched w x.resource x.fetched in
      let none_resized =
        rescale_loop-none k x.resource.spec.replicas x.shards (after_list w x) x.sized in
      let (y, ran, nearer, fine) =
        Advances-by_phase f x.resource.status.phase (length x.shards) w x refl
          (subst (λ (s : KvStoreStatus). 0 < rank s.phase) (sym same) h) in
      (
        y,
        rw (x.fetched, x.listed, none_resized, reconcile) ran,
        subst (λ s. Progress s (stored y.world)) same nearer,
        fine,
      )

  ends_within :
      (f m : ℕ) (w : k.World)
      → rank (stored w).phase ≤ m
      → 0 < rank (stored w).phase
      → (count : ℕ) × (count ≤ m)
        × (w' : k.World) × (requests k (suc f) count w ≡ returns w')
        × Ended k st (stored w) w'
  ends_within f zero w le h = absurd (omega arith)
  ends_within f (suc m) w le h =
      let (x, ran, progress, fine) = reconcile-Progress f w h in
      elim (zero_or_more (rank (stored x.world).phase)) [
        | inl z ↦
            let (at_end, agree) = progress.ended z in
            (
              1,
              omega arith,
              x.world,
              rw ran refl,
              record { phase = at_end; current = agree ∙ progress.target },
            )
        | inr more ↦
            let (count, few, w', rest, ended) =
              ends_within f m x.world (let n = progress.nearer in omega arith) more in
            (
              suc count,
              omega arith,
              w',
              rw ran rest,
              record { phase = ended.phase; current = ended.current ∙ progress.target },
            )
      ]

  -- In a cluster in which every call of the reconciler succeeds, every shard has the size that is
  -- asked for and is ready whenever the shards are listed, and every shard answers yes and has no key
  -- left to move, a scaling operation that is under way ends: after at most five requests the stored
  -- status is the normal phase, with the number of shards that the operation set out to have.
  pub scaling_ends :
      (f : ℕ) (w : k.World)
      → 0 < rank (stored w).phase
      → (count : ℕ) × (count ≤ 5)
        × (w' : k.World) × (requests k (suc f) count w ≡ returns w')
        × Ended k st (stored w) w'
  scaling_ends f w h = ends_within f 5 w (rank-le (stored w).phase) h
