-- ===== src/Controller/Config.antt =====
-- `UpdateConfigMap` of kvctl/internal/controller/kvstore_controller.go: the configuration that the
-- servers read.
use sharded_kvs.Prelude.{
  ℕ, zero, suc, String, Option, some, List, [], ◌∷◌, ◌++◌, eqb, not, ◌||◌, if◌then◌else◌, Error,
  is_not_found, ok, err,
}
use sharded_kvs.Server.{KvstoreShard, KvstoreConfig}
use sharded_kvs.Controller.{KvStoreResource, Cluster}
use sharded_kvs.Controller.Objects.{shard_name, replica_name, config_map_name, new_config_map}

-- The replicas of a shard, from 0 up.
unfoldable pub replicas_upto : String → ℕ → List String
replicas_upto shard zero = []
replicas_upto shard (suc r) = replicas_upto shard r ++ replica_name shard r ∷ []

abbrev pub shard_config : String → ℕ → ℕ → KvstoreShard
shard_config name replicas s = record {
  name = shard_name name s;
  replicas = replicas_upto (shard_name name s) replicas;
}

-- The loop that appends the shards from 0 up.
unfoldable pub shards_upto : String → ℕ → ℕ → List KvstoreShard
shards_upto name replicas zero = []
shards_upto name replicas (suc s) = shards_upto name replicas s ++ shard_config name replicas s ∷ []

module _ {Pod : Type 0} (ks : KvStoreResource Pod) where
  -- The target shards are the new shards while the numbers differ, and the shards themselves if
  -- there were none.
  unfoldable pub config_of : KvstoreConfig
  config_of =
      let current = shards_upto ks.name ks.spec.replicas ks.status.current_shards in
      let target = shards_upto ks.name ks.spec.replicas ks.status.target_shards in
      if not (eqb ks.status.current_shards ks.status.target_shards)
        || eqb ks.status.current_shards 0
      then (if eqb ks.status.current_shards 0
          then record { shards = current ++ target; new_shards = [] }
          else record { shards = current; new_shards = target })
      else record { shards = current; new_shards = [] }

module _ (k : Cluster) where
  unfoldable pub update_config_map : KvStoreResource k.Pod → k.World → k.World × Option Error
  update_config_map ks w = elim (k.marshal_config (config_of ks)) [
    | err e ↦ (w, some e)
    | ok yaml ↦ elim (k.get_config_map ks.namespace (config_map_name ks.name) w) [
      | ok existing ↦ k.update_config_map (record existing { config_yaml = yaml }) w
      | err e ↦
          if is_not_found e
          then elim (k.controller_reference ks) [
            | err x ↦ (w, some x)
            | ok owner ↦ k.create_config_map (new_config_map ks yaml owner) w
          ]
          else (w, some e)
    ]
  ]
