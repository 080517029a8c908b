-- ===== src/Controller/Kept.antt =====
-- What leaves the stored status of a resource as it is, in
-- kvctl/internal/controller/kvstore_controller.go: everything but the updates of the status.
use sharded_kvs.Prelude.{
  ℕ, zero, suc, String, Bool, true, false, Option, List, [], ◌∷◌, ◌≡◌, refl, sym, ◌∙◌, ap, inl, inr,
  Error, Result, returns, >>=-eq-returns, returns-injective, Bool-cases, Option-cases, Result-cases,
  is_not_found,
}
use sharded_kvs.Controller.{KvStoreResource, StatefulSet, ObjectMeta, Cluster}
use sharded_kvs.Controller.Objects.{config_map_name}
use sharded_kvs.Controller.Config.{update_config_map, config_of}
use sharded_kvs.Controller.SpinUp.{spin_up_loop}
use sharded_kvs.Controller.Phases.{
  dial_loop, call_shard, ask_shards, sum_pending, delete_loop, contains, group_of, shard_address,
}
use sharded_kvs.Controller.Steps.{Statuses}

module _ (k : Cluster) (st : Statuses k) where
  open st use {stored}

  pub Kept-update_config_map :
      (ks : KvStoreResource k.Pod) (w : k.World) → stored (update_config_map k ks w).0 ≡ stored w
  unfolding update_config_map
  Kept-update_config_map ks w = elim (Result-cases (k.marshal_config (config_of ks))) [
    | inr (e, q) ↦ rw (q, update_config_map)
    | inl (yaml, q) ↦
        elim (Result-cases (k.get_config_map ks.namespace (config_map_name ks.name) w)) [
          | inl (old, found) ↦ rw (q, found, update_config_map) (st.update_config_map _ w)
          | inr (e, missing) ↦ elim (Bool-cases (is_not_found e)) [
            | inr other ↦ rw (q, missing, other, update_config_map)
            | inl gone ↦ elim (Result-cases (k.controller_reference ks)) [
              | inr (x, refused) ↦ rw (q, missing, gone, refused, update_config_map)
              | inl (owner, given) ↦
                  rw (q, missing, gone, given, update_config_map) (st.create_config_map _ w)
            ]
          ]
        ]
  ]

  pub Kept-delete_loop :
      {A : Type 0} (meta : A → ObjectMeta) (delete : A → k.World → k.World × Option Error)
      (groups : List String) (xs : List A) (w : k.World)
      → ((x : A) (u : k.World) → stored (delete x u).0 ≡ stored u)
      → stored (delete_loop k meta delete groups xs w).0 ≡ stored w
  unfolding delete_loop
  Kept-delete_loop meta delete groups [] w h = refl
  Kept-delete_loop meta delete groups (x ∷ xs) w h =
      elim (Bool-cases (contains groups (group_of (meta x)))) [
        | inr q ↦ rw q (Kept-delete_loop meta delete groups xs w h)
        | inl q ↦ elim (Option-cases (delete x w).1) [
          | inr (e, f) ↦ rw (q, f) (h x w)
          | inl f ↦ rw (q, f) (Kept-delete_loop meta delete groups xs (delete x w).0 h ∙ h x w)
        ]
      ]

  pub Kept-spin_up_loop :
      (ks : KvStoreResource k.Pod) (create : ℕ → String → k.World → k.World × Option Error)
      (i count : ℕ) (w : k.World)
      → ((j : ℕ) (owner : String) (u : k.World) → stored (create j owner u).0 ≡ stored u)
      → stored (spin_up_loop k ks create i count w).0 ≡ stored w
  unfolding spin_up_loop
  Kept-spin_up_loop ks create i zero w h = refl
  Kept-spin_up_loop ks create i (suc count) w h = elim (Result-cases (k.controller_reference ks)) [
    | inr (e, q) ↦ rw (q, spin_up_loop)
    | inl (owner, q) ↦ elim (Option-cases (create i owner w).1) [
      | inr (e, f) ↦ rw (q, f, spin_up_loop) (h i owner w)
      | inl f ↦
          rw (q, f, spin_up_loop)
            (Kept-spin_up_loop ks create (suc i) count (create i owner w).0 h ∙ h i owner w)
    ]
  ]

  Kept-dial_loop :
      (fuel f : ℕ) (address : String) (w u : k.World)
      → dial_loop k fuel f address w ≡ returns u
      → stored u ≡ stored w
  unfolding dial_loop
  Kept-dial_loop fuel zero address w u h = cc
  Kept-dial_loop fuel (suc f) address w u h = elim (Bool-cases (k.dial address w).1) [
    | inl q ↦ ap stored (sym (returns-injective _ u (rw q at h))) ∙ st.dial address w
    | inr q ↦ Kept-dial_loop fuel f address _ u (rw q at h) ∙ st.dial address w
  ]

  Kept-call_shard :
      {A : Type 0} (fuel : ℕ) (s : StatefulSet k.Pod) (call : String → k.World → k.World × Result A)
      (w : k.World) (t : k.World × Result A)
      → ((a : String) (u : k.World) → stored (call a u).0 ≡ stored u)
      → call_shard k fuel s call w ≡ returns t
      → stored t.0 ≡ stored w
  unfolding call_shard
  Kept-call_shard fuel s call w t h q =
      let (u, dialled, e) = >>=-eq-returns (dial_loop k fuel fuel (shard_address s) w) _ q in
      ap (λ (v : k.World × Result _). stored v.0) (sym (returns-injective _ t e))
      ∙ h (shard_address s) u
      ∙ Kept-dial_loop fuel fuel (shard_address s) w u dialled

  pub Kept-ask_shards :
      (fuel : ℕ) (call : String → k.World → k.World × Result Bool) (l : List (StatefulSet k.Pod))
      (w : k.World) (t : k.World × Result Bool)
      → ((a : String) (u : k.World) → stored (call a u).0 ≡ stored u)
      → ask_shards k fuel call l w ≡ returns t
      → stored t.0 ≡ stored w
  unfolding ask_shards
  Kept-ask_shards fuel call [] w t h q =
      ap (λ (v : k.World × Result Bool). stored v.0) (sym (returns-injective _ t q))
  Kept-ask_shards fuel call (s ∷ rest) w t h q =
      let (v, called, e) = >>=-eq-returns (call_shard k fuel s call w) _ q in
      let first = Kept-call_shard fuel s call w v h called in
      elim (Result-cases v.1) [
        | inr (x, f) ↦
            ap (λ (v : k.World × Result Bool). stored v.0) (sym (returns-injective _ t (rw f at e)))
            ∙ first
        | inl (true, f) ↦ Kept-ask_shards fuel call rest v.0 t h (rw f at e) ∙ first
        | inl (false, f) ↦
            ap (λ (v : k.World × Result Bool). stored v.0) (sym (returns-injective _ t (rw f at e)))
            ∙ first
      ]

  pub Kept-sum_pending :
      (fuel : ℕ) (l : List (StatefulSet k.Pod)) (pending : ℕ) (w : k.World) (t : k.World × Result ℕ)
      → sum_pending k fuel l pending w ≡ returns t
      → stored t.0 ≡ stored w
  unfolding sum_pending
  Kept-sum_pending fuel [] pending w t q =
      ap (λ (v : k.World × Result ℕ). stored v.0) (sym (returns-injective _ t q))
  Kept-sum_pending fuel (s ∷ rest) pending w t q =
      let (v, called, e) = >>=-eq-returns (call_shard k fuel s k.redistribute_keys w) _ q in
      let first = Kept-call_shard fuel s k.redistribute_keys w v st.redistribute_keys called in
      elim (Result-cases v.1) [
        | inr (x, f) ↦
            ap (λ (v : k.World × Result ℕ). stored v.0) (sym (returns-injective _ t (rw f at e)))
            ∙ first
        | inl (n, f) ↦ Kept-sum_pending fuel rest (_) v.0 t (rw f at e) ∙ first
      ]
