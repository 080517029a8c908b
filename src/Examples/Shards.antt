-- ===== src/Examples/Shards.antt =====
-- The server of a shard: pausing, forwarded puts, the count of pending keys, the client map.
use sharded_kvs.Prelude.{
  ℕ, ◌<◌, ◌^◌, length, arith, keys_of, ◌≡◌, refl, true, false, none, List, [], ◌∷◌, All, lookup,
  insert, remove, itoa, returns, ok, err, writes_disabled,
}
use sharded_kvs.Protos.{InternalPutRequest}
use sharded_kvs.Raft.Common.{setup_raft}
use sharded_kvs.Kvstore.{new_kv_store, new_kv_fsm, deliver, entries}
use sharded_kvs.Kvstore.Ops.{Process, keys, open_store, set, set_writes_enabled, submit, raft_apply}
use sharded_kvs.Kvstore.Runs.{Call, sets, toggles, run, step}
use sharded_kvs.Server.{located, names_of}
use sharded_kvs.Server.ReplicaRpc.{
  replica_put, replica_pause_writes, count_pending, is_pending, replica_redistribute_keys,
}
use sharded_kvs.Server.Redistribute.{move_keys}
use sharded_kvs.Server.Clients.{populate_shard_clients, dial_loop}
use sharded_kvs.Server.Writes.{IsStarted, forwarded_put_refused, pause_changes_nothing}
use sharded_kvs.Server.Pending.{
  count_pending_zero-move_keys, with_job, Counted, replica_redistribute_keys-bounded,
}
use sharded_kvs.Server.Connected.{Extended, HasClient, populate-connects}
use sharded_kvs.Samples.Codec.{codec}
use sharded_kvs.Samples.Node.{sample_raft, sample_setup, empty_memory, fresh_process}
use sharded_kvs.Samples.World.{
  SampleWorld, sample_hashing, sample_net, sample_world, sample_config, sample-OwnState,
}

abbrev fallback : Process sample_raft
fallback = fresh_process true "me"

abbrev opened : Process sample_raft
opened =
    elim (open_store sample_raft codec (sample_setup none true) "/data" "10.0.0.1" 8081 "shard-0"
      "shard-0-replica-0" false (new_kv_store empty_memory).0 (new_kv_store empty_memory).1) [
        | ok s ↦ s
        | err e ↦ fallback
      ]

abbrev calls : List Call
calls = toggles true ∷ sets "k" "v" ∷ []

abbrev running : Process sample_raft
running = elim (run sample_raft codec calls opened) [ returns s ↦ s | _ ↦ fallback ]

-- A second shard is being added.
abbrev scaling : SampleWorld
scaling =
    sample_world running ("shard-0" ∷ []) []
      (sample_config ("shard-0" ∷ []) ("shard-0" ∷ "shard-1" ∷ []))

abbrev Started : SampleWorld → Type 0
Started =
    IsStarted sample_raft codec sample_hashing sample_net (sample_setup none true) "/data"
      "10.0.0.1" 8081 "shard-0" "shard-0-replica-0" false empty_memory calls

scaling-IsStarted : Started scaling
unfolding itoa insert remove submit raft_apply open_store setup_raft sample_setup run step set
    set_writes_enabled deliver codec sample_raft new_kv_store new_kv_fsm
scaling-IsStarted = record { opened_as = opened; opened = refl; ran = refl }

abbrev client_put : InternalPutRequest
client_put = record { key = "k"; value = "w"; is_redistribution = false }

forwarded_put_refused_example :
    replica_put sample_raft codec sample_hashing sample_net client_put scaling
    ≡ returns (scaling, err writes_disabled)
forwarded_put_refused_example =
    forwarded_put_refused sample_raft codec sample_hashing sample_net (sample_setup none true)
      "/data" "10.0.0.1" 8081 "shard-0" "shard-0-replica-0" false empty_memory calls client_put
      scaling scaling-IsStarted refl

pause_changes_nothing_example :
    replica_pause_writes sample_raft codec sample_hashing sample_net scaling
    ≡ returns (scaling, ok true)
pause_changes_nothing_example =
    pause_changes_nothing sample_raft codec sample_hashing sample_net (sample_setup none true)
      "/data" "10.0.0.1" 8081 "shard-0" "shard-0-replica-0" false empty_memory calls scaling
      scaling.config sample-OwnState scaling-IsStarted refl refl

-- Both rings give every key to "shard-0".
none_pending :
    count_pending sample_raft codec sample_hashing sample_net
      ("shard-0" ∷ [])
      ("shard-0" ∷ "shard-1" ∷ [])
      "shard-0"
      ("k" ∷ "l" ∷ [])
      0
    ≡ returns 0
unfolding count_pending is_pending located
none_pending = refl

count_pending_zero-move_keys_example :
    move_keys sample_raft codec sample_hashing sample_net
      ("shard-0" ∷ "shard-1" ∷ [])
      ("k" ∷ "l" ∷ [])
      scaling
    ≡ returns scaling
count_pending_zero-move_keys_example =
    count_pending_zero-move_keys sample_raft codec sample_hashing sample_net
      ("shard-0" ∷ "shard-1" ∷ []) ("k" ∷ "l" ∷ []) scaling none_pending

abbrev connected : SampleWorld
connected =
    elim (populate_shard_clients sample_raft sample_hashing sample_net 1 scaling.config.new_shards
      scaling) [ returns w ↦ w | _ ↦ scaling ]

connected_ran :
    populate_shard_clients sample_raft sample_hashing sample_net 1 scaling.config.new_shards scaling
    ≡ returns connected
unfolding populate_shard_clients dial_loop lookup insert
connected_ran = refl

populate-connects_example :
    Extended sample_raft sample_hashing sample_net sample-OwnState scaling connected
    × All
        (HasClient sample_raft sample_hashing sample_net sample-OwnState connected)
        scaling.config.new_shards
populate-connects_example =
    populate-connects sample_raft sample_hashing sample_net sample-OwnState 1
      scaling.config.new_shards scaling connected connected_ran

-- The one key goes to the new shard.
abbrev replacing : SampleWorld
replacing =
    sample_world running ("shard-0" ∷ []) [] (sample_config ("shard-0" ∷ []) ("shard-1" ∷ []))

abbrev Count : ℕ → Type 0
Count m =
    replica_redistribute_keys sample_raft codec sample_hashing sample_net replacing
    ≡ returns (with_job sample_raft codec sample_hashing sample_net replacing, ok m)

one_pending : Count 1
unfolding itoa insert remove submit raft_apply open_store setup_raft sample_setup run step set
    set_writes_enabled deliver codec sample_raft new_kv_store new_kv_fsm replica_redistribute_keys
    count_pending is_pending located keys keys_of names_of entries
one_pending = refl

one_key : length (keys sample_raft replacing.self.process) < 2 ^ 31
unfolding itoa insert remove submit raft_apply open_store setup_raft sample_setup run step set
    set_writes_enabled deliver codec sample_raft new_kv_store new_kv_fsm keys keys_of entries
one_key = omega arith

replica_redistribute_keys-bounded_example :
    (1 < 2 ^ 31) × Counted sample_raft codec sample_hashing sample_net replacing 1
replica_redistribute_keys-bounded_example =
    replica_redistribute_keys-bounded sample_raft codec sample_hashing sample_net replacing
      (with_job sample_raft codec sample_hashing sample_net replacing) 1 one_key one_pending
