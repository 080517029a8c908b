-- ===== src/Examples/Replica.antt =====
-- A replica of kvstore.go over the sample codec and the sample Raft.
use sharded_kvs.Prelude.{
  String, ◌≡◌, refl, true, false, Option, none, some, List, [], ◌∷◌, arith, ◌==◌, if◌then◌else◌,
  insert, remove, itoa, lookup, key_not_found, Result, ok, err, Outcome, returns, panics, Returns,
}
use sharded_kvs.Protos.{Bytes, contents}
use sharded_kvs.Raft.Common.{setup_raft}
use sharded_kvs.Kvstore.{
  new_kv_store, new_kv_fsm, deliver, entries, snapshot, image, restore, apply_entry,
}
use sharded_kvs.Kvstore.Ops.{
  submit, raft_apply, Process, get, set, delete, set_entry, delete_entry, get_writes_enabled,
  set_writes_enabled, open_store, server_id, server_address,
}
use sharded_kvs.Kvstore.Runs.{Call, sets, toggles, commits, installs, step, run}
use sharded_kvs.Kvstore.Replay.{Follows, effects, flags, deliver-effects}
use sharded_kvs.Kvstore.Reads.{Submitted, IsShared, answer, value_at, get-set, get-delete}
use sharded_kvs.Kvstore.Snapshots.{restore-persisted, restore-empty_panics, image-deliver}
use sharded_kvs.Kvstore.Flag.{writes_never_enabled}
use sharded_kvs.Kvstore.Detached.{get-installed, get-restarted}
use sharded_kvs.Samples.Codec.{codec, sample_map}
use sharded_kvs.Samples.Node.{
  sample_raft, sample-Applies, empty_memory, fresh_process, fresh-IsShared, sample_setup,
}

-- Sets "k", disables writes, deletes "k".
abbrev log : List Bytes
log = (0 ∷ []) ∷ (3 ∷ []) ∷ (1 ∷ []) ∷ []

abbrev leading : Process sample_raft
leading = fresh_process true "me"

abbrev following : Process sample_raft
following = fresh_process false "you"

-- The state that a call returns.
abbrev state_after {ℓ} : {A B : Type ℓ} → Outcome (A × B) → A → A
state_after (returns (s, e)) d = s
state_after _ d = d

abbrev run_after : Outcome (Process sample_raft) → Process sample_raft
run_after (returns s) = s
run_after _ = leading

-- The leader after it has set "k".
abbrev written : Process sample_raft
written = state_after (set sample_raft codec "k" "v" leading) leading

deliver-effects_example :
    Returns
      (deliver codec log leading.fsm leading.memory)
      (Follows (effects codec log) (flags codec log) 0 leading.fsm leading.memory)
unfolding fresh_process
deliver-effects_example = deliver-effects codec 0 log leading.fsm leading.memory refl

set_ran : set sample_raft codec "k" "v" leading ≡ returns (written, none)
unfolding submit raft_apply insert set codec sample_raft fresh_process deliver
set_ran = refl

get-set_example :
    (before : List Bytes) × Submitted sample_raft codec (set_entry "k" "v") leading written before
    × IsShared sample_raft written
    × ((j : String)
        → get sample_raft j written ≡ (
            if "k" == j
            then ok "v"
            else answer (effects codec before j (value_at sample_raft j leading))))
get-set_example =
    get-set sample_raft codec "k" "v" leading written sample-Applies (fresh-IsShared true "me")
      set_ran

abbrev purged : Process sample_raft
purged = state_after (delete sample_raft codec "k" written) leading

delete_ran : delete sample_raft codec "k" written ≡ returns (purged, none)
unfolding submit raft_apply insert remove delete set codec sample_raft fresh_process deliver
delete_ran = refl

get-delete_example :
    (before : List Bytes) × Submitted sample_raft codec (delete_entry "k") written purged before
    × IsShared sample_raft purged
    × ((j : String)
        → get sample_raft j purged ≡ (
            if "k" == j
            then err key_not_found
            else answer (effects codec before j (value_at sample_raft j written))))
get-delete_example =
    get-delete sample_raft codec "k" written purged sample-Applies get-set_example.2 delete_ran

-- The bytes of a snapshot of the written map, and of an empty one, writes enabled.
restore-persisted_example :
    ((restore codec (ok (1 ∷ 1 ∷ [])) following.fsm following.memory).0 ≡ none)
    × ((j : String)
        → lookup j (
            entries
              (restore codec (ok (1 ∷ 1 ∷ [])) following.fsm following.memory).1.store
              (restore codec (ok (1 ∷ 1 ∷ [])) following.fsm following.memory).2)
          ≡ lookup j (entries written.fsm.store written.memory))
    × ((restore codec (ok (1 ∷ 1 ∷ [])) following.fsm following.memory).1.writes_enabled
        ≡ following.fsm.writes_enabled)
unfolding submit raft_apply insert set codec sample_raft fresh_process deliver snapshot image
restore-persisted_example =
    restore-persisted codec written.fsm written.memory (1 ∷ 1 ∷ []) following.fsm following.memory
      refl

restore-empty_panics_example :
    apply_entry
      (set_entry "k" "v")
      (restore codec (ok (0 ∷ 1 ∷ [])) following.fsm following.memory).1
      (restore codec (ok (0 ∷ 1 ∷ [])) following.fsm following.memory).2
    ≡ panics
unfolding codec fresh_process snapshot image entries
restore-empty_panics_example =
    restore-empty_panics codec leading.fsm leading.memory (0 ∷ 1 ∷ []) following.fsm
      following.memory (set_entry "k" "v") refl refl refl

image-deliver_example : Returns (deliver codec log leading.fsm leading.memory) (λ t.
    (j : String)
    → lookup j (contents (image (snapshot leading.fsm leading.memory) t.1).kv_store)
      ≡ effects codec log j (
          lookup j
            (contents (image (snapshot leading.fsm leading.memory) leading.memory).kv_store)))
unfolding fresh_process
image-deliver_example = image-deliver codec log 0 leading.fsm leading.memory refl

-- A process as `Open` starts it, with no snapshot on disk and with one.
abbrev opened_from : Option Bytes → Result (Process sample_raft)
opened_from snapshot =
    open_store sample_raft codec (sample_setup snapshot true) "/data" "10.0.0.1" 8082 "shard-0"
      "shard-0-replica-0" false (new_kv_store empty_memory).0 (new_kv_store empty_memory).1

abbrev opened : Option Bytes → Process sample_raft
opened snapshot = elim (opened_from snapshot) [ ok s ↦ s | err e ↦ leading ]

abbrev calls : List Call
calls = toggles true ∷ sets "k" "v" ∷ commits log ∷ []

writes_never_enabled_example :
    (get_writes_enabled sample_raft (run_after (run sample_raft codec calls (opened none))) ≡ false)
    × (set_writes_enabled sample_raft codec false
          (run_after (run sample_raft codec calls (opened none)))
        ≡ returns (run_after (run sample_raft codec calls (opened none)), none))
unfolding itoa insert remove submit raft_apply open_store setup_raft sample_setup run step set
    set_writes_enabled deliver codec sample_raft new_kv_store new_kv_fsm
writes_never_enabled_example =
    writes_never_enabled sample_raft codec (sample_setup none true) "/data" "10.0.0.1" 8082
      "shard-0" "shard-0-replica-0" false empty_memory (opened none)
      (run_after (run sample_raft codec calls (opened none))) calls refl refl

get-restarted_example :
    get sample_raft "k" (run_after (run sample_raft codec calls (opened (some (1 ∷ 1 ∷ [])))))
    ≡ err key_not_found
unfolding itoa insert remove submit raft_apply open_store setup_raft sample_setup run step set
    set_writes_enabled deliver codec sample_raft new_kv_store new_kv_fsm restore server_id
    server_address
get-restarted_example =
    get-restarted sample_raft codec (sample_setup (some (1 ∷ 1 ∷ [])) true) "/data" "10.0.0.1" 8082
      "shard-0" "shard-0-replica-0" false empty_memory
      (record { leading = true; leader = "shard-0-replica-0.shard-0:8082"; members = [] })
      (1 ∷ 1 ∷ []) "/data" (record { kv_store = some sample_map; writes_enabled = true })
      (opened (some (1 ∷ 1 ∷ [])))
      (run_after (run sample_raft codec calls (opened (some (1 ∷ 1 ∷ []))))) calls refl refl refl
      refl "k"

get-installed_example :
    get sample_raft "k"
      (run_after (run sample_raft codec (installs (ok (1 ∷ 1 ∷ [])) ∷ calls) leading))
    ≡ get sample_raft "k" leading
unfolding insert remove submit raft_apply run step set set_writes_enabled deliver codec sample_raft
    fresh_process restore
get-installed_example =
    get-installed sample_raft codec (1 ∷ 1 ∷ [])
      (record { kv_store = some sample_map; writes_enabled = true }) leading
      (run_after (run sample_raft codec (installs (ok (1 ∷ 1 ∷ [])) ∷ calls) leading)) 0 calls refl
      refl (omega arith) (omega arith) refl "k"
