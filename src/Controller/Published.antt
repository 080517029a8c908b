-- ===== src/Controller/Published.antt =====
-- Which shards the configuration that `UpdateConfigMap` of
-- kvctl/internal/controller/kvstore_controller.go writes names.
use mathlib.Core.List.{◌++◌ as append}
use sharded_kvs.Prelude.{
  ℕ, zero, suc, ◌<◌, String, ◌≡◌, ◌≢◌, refl, ap, ◌↔◌, true, false, List, [], ◌∷◌, arith, eqb,
  Bool-cases, eq_iff, if◌then◌else◌, inl, inr,
}
use sharded_kvs.Server.{KvstoreShard, names_of}
use sharded_kvs.Controller.{KvStoreResource}
use sharded_kvs.Controller.Objects.{shard_name}
use sharded_kvs.Controller.Config.{shards_upto, shard_config, config_of}
use sharded_kvs.Controller.Phases.{contains}
use sharded_kvs.Controller.Groups.{shard_name-injective, contains-append}

names_of-append :
    (xs : List KvstoreShard) (s : KvstoreShard)
    → names_of (append xs (s ∷ [])) ≡ append (names_of xs) (s.name ∷ [])
unfolding names_of
names_of-append [] s = refl
names_of-append (x ∷ xs) s = ap (λ l. x.name ∷ l) (names_of-append xs s)

shards_upto_iff :
    (name : String) (replicas n i : ℕ)
    → (contains (names_of (shards_upto name replicas n)) (shard_name name i) ≡ true) ↔ (i < n)
unfolding shards_upto contains names_of
shards_upto_iff name replicas zero i = (λ h. cc, λ h. absurd (omega arith))
shards_upto_iff name replicas (suc n) i =
    rw (names_of-append (shards_upto name replicas n) (shard_config name replicas n)) (
      ground (
        arith,
        shards_upto_iff name replicas n i,
        contains-append (names_of (shards_upto name replicas n)) (shard_name name n)
            (shard_name name i),
        eq_iff (shard_name name n) (shard_name name i),
        shard_name-injective name n i,
        ap (shard_name name),
      ))

module _ {Pod : Type 0} (ks : KvStoreResource Pod) where
  abbrev current_config : List KvstoreShard
  current_config = shards_upto ks.name ks.spec.replicas ks.status.current_shards

  abbrev target_config : List KvstoreShard
  target_config = shards_upto ks.name ks.spec.replicas ks.status.target_shards

  first_config :
      eqb ks.status.current_shards 0 ≡ true
      → config_of ks ≡ record { shards = target_config; new_shards = [] }
  unfolding config_of shards_upto
  first_config z =
      let e : ks.status.current_shards ≡ 0 = ground arith in rw (z, e, config_of) (ground arith)

  scaling_config :
      eqb ks.status.current_shards 0 ≡ false
      → eqb ks.status.current_shards ks.status.target_shards ≡ false
      → config_of ks ≡ record { shards = current_config; new_shards = target_config }
  unfolding config_of
  scaling_config z ne = rw (z, ne, config_of) refl

  still_config :
      eqb ks.status.current_shards 0 ≡ false
      → eqb ks.status.current_shards ks.status.target_shards ≡ true
      → config_of ks ≡ record { shards = current_config; new_shards = [] }
  unfolding config_of
  still_config z same = rw (z, same, config_of) refl

  config_of_shards_iff :
      (i : ℕ)
      → (contains (names_of (config_of ks).shards) (shard_name ks.name i) ≡ true) ↔ (
          i < (
            if eqb ks.status.current_shards 0
            then ks.status.target_shards
            else ks.status.current_shards))
  config_of_shards_iff i =
      let of_current = shards_upto_iff ks.name ks.spec.replicas ks.status.current_shards i in
      let of_target = shards_upto_iff ks.name ks.spec.replicas ks.status.target_shards i in
      elim (Bool-cases (eqb ks.status.current_shards 0)) [
        | inl z ↦ rw (first_config z, z) of_target
        | inr z ↦ elim (Bool-cases (eqb ks.status.current_shards ks.status.target_shards)) [
          | inl same ↦ rw (still_config z same, z) of_current
          | inr ne ↦ rw (scaling_config z ne, z) of_current
        ]
      ]

  config_of_new_shards_iff :
      (i : ℕ)
      → (contains (names_of (config_of ks).new_shards) (shard_name ks.name i) ≡ true) ↔ (
          (i < ks.status.target_shards)
          × (ks.status.current_shards ≢ 0)
          × (ks.status.current_shards ≢ ks.status.target_shards))
  unfolding names_of contains
  config_of_new_shards_iff i =
      let of_target = shards_upto_iff ks.name ks.spec.replicas ks.status.target_shards i in
      elim (Bool-cases (eqb ks.status.current_shards 0)) [
        | inl z ↦ rw (first_config z) (ground arith)
        | inr z ↦ elim (Bool-cases (eqb ks.status.current_shards ks.status.target_shards)) [
          | inl same ↦ rw (still_config z same) (ground arith)
          | inr ne ↦ rw (scaling_config z ne) (ground (arith, of_target))
        ]
      ]

  -- Of the numbered shards, the configuration names as its shards those with a number below the
  -- current number of shards, or below the target if there are none yet, and as its new shards those
  -- with a number below the target, while a store that has shards is scaled, and none at any other
  -- time.
  pub config_of_iff :
      (i : ℕ)
      → ((contains (names_of (config_of ks).shards) (shard_name ks.name i) ≡ true) ↔ (
          i < (
            if eqb ks.status.current_shards 0
            then ks.status.target_shards
            else ks.status.current_shards)))
        × ((contains (names_of (config_of ks).new_shards) (shard_name ks.name i) ≡ true) ↔ (
            (i < ks.status.target_shards)
            × (ks.status.current_shards ≢ 0)
            × (ks.status.current_shards ≢ ks.status.target_shards)))
  config_of_iff i = (config_of_shards_iff i, config_of_new_shards_iff i)
