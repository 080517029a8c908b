-- ===== src/Controller/Drained.antt =====
-- What the answers of the shards must be for a phase to end, in
-- kvctl/internal/controller/kvstore_controller.go.
use sharded_kvs.Prelude.{
  ℕ, ◌↔◌, String, Bool, true, false, List, [], ◌∷◌, ◌≡◌, refl, ◌∙◌, inl, inr, Result, ok,
  Result-cases, returns, >>=-eq-returns,
}
use sharded_kvs.Controller.{StatefulSet, Cluster}
use sharded_kvs.Controller.Phases.{call_shard, ask_shards}

module _ (k : Cluster) (fuel : ℕ) where
  -- The shards are called one after another, from the world `w` to the world `w'`, and every one of
  -- them answers `a`.
  abbrev pub AllAnswer :
      {A : Type 0}
      → (String → k.World → k.World × Result A)
      → A
      → List (StatefulSet k.Pod)
      → k.World
      → k.World
      → Type 0
  AllAnswer call a [] w w' = w ≡ w'
  AllAnswer call a (s ∷ rest) w w' =
      (u : k.World) × (call_shard k fuel s call w ≡ returns (u, ok a)) × AllAnswer call a rest u w'

  -- `StopWrites` and `ResumeWrites` see all shards done exactly if every one on the list says yes.
  pub ask_shards-true_iff :
      (call : String → k.World → k.World × Result Bool) (l : List (StatefulSet k.Pod))
      (w w' : k.World)
      → (ask_shards k fuel call l w ≡ returns (w', ok true)) ↔ AllAnswer call true l w w'
  unfolding ask_shards
  ask_shards-true_iff call [] w w' = (λ q. cc q, λ e. rw e refl)
  ask_shards-true_iff call (s ∷ rest) w w' = (
    λ q.
        let (t, called, later) = >>=-eq-returns (call_shard k fuel s call w) _ q in
        elim (Result-cases t.1) [
          | inr (e, f) ↦ absurd (cc (rw f at later))
          | inl (false, f) ↦ absurd (cc (rw f at later))
          | inl (true, f) ↦
              (t.0, called ∙ cc f, (ask_shards-true_iff call rest t.0 w').0 (rw f at later))
        ],
    λ t. rw t.1 ((ask_shards-true_iff call rest t.0 w').1 t.2),
  )
