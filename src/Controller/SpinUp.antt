-- ===== src/Controller/SpinUp.antt =====
-- `SpinUpShards`, `SpinUpShardIngresses` and `SpinUpShardServices` of
-- kvctl/internal/controller/kvstore_controller.go.
use sharded_kvs.Prelude.{ℕ, zero, suc, ◌-◌, String, Option, none, some, Error, ok, err}
use sharded_kvs.Controller.{KvStoreResource, Cluster}
use sharded_kvs.Controller.Objects.{new_shard, new_ingress, new_service}

module _ (k : Cluster) where
  -- `for i := current; i < target; i++` over `count` shards: the first error ends the loop.
  unfoldable pub spin_up_loop :
      KvStoreResource k.Pod
      → (ℕ → String → k.World → k.World × Option Error)
      → ℕ
      → ℕ
      → k.World
      → k.World × Option Error
  spin_up_loop ks create i zero w = (w, none)
  spin_up_loop ks create i (suc count) w = elim (k.controller_reference ks) [
    | err e ↦ (w, some e)
    | ok owner ↦
        let created = create i owner w in
        let rest = spin_up_loop ks create (suc i) count created.0 in
        elim created.1 [ some e ↦ (created.0, some e) | none ↦ rest ]
  ]

  module _ (ks : KvStoreResource k.Pod) where
    abbrev missing : ℕ
    missing = ks.status.target_shards - ks.status.current_shards

    unfoldable pub spin_up_shards : k.World → k.World × Option Error
    unfolding spin_up_loop
    spin_up_shards =
        spin_up_loop ks (λ i owner. k.create_shard (new_shard ks i owner)) ks.status.current_shards
          missing

    unfoldable pub spin_up_shard_ingresses : k.World → k.World × Option Error
    unfolding spin_up_loop
    spin_up_shard_ingresses =
        spin_up_loop ks (λ i owner. k.create_ingress (new_ingress ks i owner))
          ks.status.current_shards missing

    unfoldable pub spin_up_shard_services : k.World → k.World × Option Error
    unfolding spin_up_loop
    spin_up_shard_services =
        spin_up_loop ks (λ i owner. k.create_service (new_service ks i owner))
          ks.status.current_shards missing
