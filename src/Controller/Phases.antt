-- ===== src/Controller/Phases.antt =====
-- The handlers of the phases in kvctl/internal/controller/kvstore_controller.go, and the lists that
-- they go through.
use Prim.Native.String.{◌++◌}
use mathlib.Core.List.{◌++◌ as append}
use sharded_kvs.Prelude.{
  ℕ, zero, suc, ◌+◌, ◌-◌, ◌%◌, ◌^◌, String, Bool, true, false, Option, none, some, List, [], ◌∷◌,
  eqb, ltb, not, ◌||◌, if◌then◌else◌, ◌==◌, lookup, itoa, Error, Result, ok, err, Outcome, returns,
  waits, ◌>>=◌,
}
use sharded_kvs.Controller.{
  Phase, normal, stopping_writes, redistributing_keys, resuming_writes, finalizing_scale,
  KvStoreResource, KvStoreStatus, ObjectMeta, StatefulSet, Ingress, Service, Cluster,
}
use sharded_kvs.Controller.Objects.{shard_name}
use sharded_kvs.Controller.Config.{update_config_map}

-- `slices.Contains`
unfoldable pub contains : List String → String → Bool
contains [] s = false
contains (x ∷ xs) s = x == s || contains xs s

-- A label that is missing reads as "".
unfoldable pub group_of : ObjectMeta → String
group_of m = elim (lookup "group" m.labels) [ none ↦ "" | some g ↦ g ]

-- The groups from `target` up to `current`: the loop `for i := range current` with its test.
unfoldable pub groups_to_delete : String → ℕ → ℕ → List String
groups_to_delete name target zero = []
groups_to_delete name target (suc i) =
    let rest = groups_to_delete name target i in
    if ltb i target then rest else append rest (shard_name name i ∷ [])

-- `fmt.Sprintf("%s.%s:%d", shardName, shard.Namespace, 8081)`
unfoldable pub shard_address : {Pod : Type 0} → StatefulSet Pod → String
shard_address s = s.service_name ++ ("." ++ (s.meta.namespace ++ (":" ++ itoa 8081)))

unfoldable pub or_empty : {A : Type 0} → Result (List A) → List A
or_empty (err e) = []
or_empty (ok l) = l

-- An int32 as an int: both are written as the unsigned number of the same 32 or 64 bits, and the
-- sign is extended.
unfoldable pub widen : ℕ → ℕ
widen n = let low = n % 2 ^ 32 in if ltb low (2 ^ 31) then low else low + (2 ^ 64 - 2 ^ 32)

-- The text of an int, which is negative from 2 ^ 63.
unfoldable pub int_text : ℕ → String
int_text n = if ltb n (2 ^ 63) then itoa n else "-" ++ itoa (2 ^ 64 - n)

module _ (k : Cluster) where
  abbrev pub Step : Type 0
  Step = Outcome (k.World × Option Error)

  -- A list that cannot be fetched is taken to be empty.
  unfoldable pub get_shards : KvStoreResource k.Pod → k.World → k.World × List (StatefulSet k.Pod)
  unfolding or_empty
  get_shards ks w = let t = k.list_shards ks.namespace ks.name w in (t.0, or_empty t.1)

  unfoldable pub get_ingresses : KvStoreResource k.Pod → k.World → k.World × List Ingress
  unfolding or_empty
  get_ingresses ks w = let t = k.list_ingresses ks.namespace ks.name w in (t.0, or_empty t.1)

  unfoldable pub get_services : KvStoreResource k.Pod → k.World → k.World × List Service
  unfolding or_empty
  get_services ks w = let t = k.list_services ks.namespace ks.name w in (t.0, or_empty t.1)

  abbrev pub with_status : KvStoreResource k.Pod → KvStoreStatus → KvStoreResource k.Pod
  with_status ks s = record ks { status = s }

  -- `Status.Message` is set, and the status stored.
  unfoldable pub report : String → KvStoreResource k.Pod → k.World → k.World × Option Error
  report text ks w = k.update_status (with_status ks (record ks.status { message = text })) w

  -- `Status.Phase`, `Message` and `LastTransition` are set, and the status stored.
  unfoldable pub enter : Phase → String → KvStoreResource k.Pod → k.World → k.World × Option Error
  enter phase text ks w =
      k.update_status
        (with_status ks
          (record ks.status { phase = phase; message = text; last_transition = k.now w }))
        w

  -- `Status.CurrentShards = Status.TargetShards`
  abbrev pub reached : KvStoreResource k.Pod → KvStoreResource k.Pod
  reached ks = with_status ks (record ks.status { current_shards = ks.status.target_shards })

  unfoldable pub all_ready : List (StatefulSet k.Pod) → Bool
  all_ready [] = true
  all_ready (s ∷ rest) = if eqb s.ready_replicas s.replicas then all_ready rest else false

  unfoldable pub prepare_scale : KvStoreResource k.Pod → k.World → k.World × Option Error
  unfolding report enter all_ready
  prepare_scale ks w =
      let t = get_shards ks w in
      if not (all_ready t.1)
      then report "Waiting for shards to be ready" ks t.0
      else if eqb ks.status.current_shards 0
      then enter normal "Ready" (reached ks) t.0
      else enter stopping_writes "Starting to disable writes" ks t.0

  module _ (fuel : ℕ) where
    unfoldable pub dial_loop : ℕ → String → k.World → Outcome k.World
    dial_loop zero address w = waits
    dial_loop (suc f) address w =
        let (w', connected) = k.dial address w in
        let rest = dial_loop f address w' in if connected then returns w' else rest

    -- `GetShardClient(shard)` and one call of it.
    unfoldable pub call_shard :
        {A : Type 0}
        → StatefulSet k.Pod
        → (String → k.World → k.World × Result A)
        → k.World
        → Outcome (k.World × Result A)
    unfolding dial_loop
    call_shard s call w =
        dial_loop fuel (shard_address s) w >>= λ w'. returns (call (shard_address s) w')

    -- The loop of `StopWrites` and `ResumeWrites`: the first error, or the first shard that answers
    -- no, ends it.
    unfoldable pub ask_shards :
        (String → k.World → k.World × Result Bool)
        → List (StatefulSet k.Pod)
        → k.World
        → Outcome (k.World × Result Bool)
    unfolding call_shard
    ask_shards call [] w = returns (w, ok true)
    ask_shards call (s ∷ rest) w = call_shard s call w >>= λ t.
        let later = ask_shards call rest t.0 in
        elim t.1 [
          | err e ↦ returns (t.0, err e)
          | ok yes_it_is ↦ if yes_it_is then later else returns (t.0, ok false)
        ]

    -- What follows the loop: an error is reported and returned, a no is reported.
    unfoldable pub after_asking :
        (String → String)
        → String
        → (k.World → k.World × Option Error)
        → KvStoreResource k.Pod
        → k.World × Result Bool
        → k.World × Option Error
    unfolding report
    after_asking failing waiting next ks (w, err e) =
        ((report (failing (k.error_text e)) ks w).0, some e)
    after_asking failing waiting next ks (w, ok all) = if all then next w else report waiting ks w

    unfoldable pub stop_writes : KvStoreResource k.Pod → k.World → Step
    unfolding ask_shards after_asking
    stop_writes ks w =
        let l = get_shards ks w in
        ask_shards k.pause_writes l.1 l.0 >>= λ t. returns (
          after_asking (λ e. "Failed to pause writes: " ++ (e ++ ". Retrying"))
            "Waiting for shards to pause writes"
            (enter redistributing_keys "Starting to redistribute keys" ks) ks t)

    unfoldable pub resume_writes : KvStoreResource k.Pod → k.World → Step
    unfolding ask_shards after_asking
    resume_writes ks w =
        let l = get_shards ks w in
        ask_shards k.resume_writes l.1 l.0 >>= λ t. returns (
          after_asking (λ e. "Failed to resume writes: " ++ (e ++ ". Retrying"))
            "Waiting for shards to resume writes" (enter normal "Ready" (reached ks)) ks t)

    -- The sum of the pending keys, an int, or the first error.
    unfoldable pub sum_pending :
        List (StatefulSet k.Pod) → ℕ → k.World → Outcome (k.World × Result ℕ)
    unfolding call_shard widen
    sum_pending [] pending w = returns (w, ok pending)
    sum_pending (s ∷ rest) pending w = call_shard s k.redistribute_keys w >>= λ t. elim t.1 [
      | err e ↦ returns (t.0, err e)
      | ok keys ↦ sum_pending rest ((pending + widen keys) % 2 ^ 64) t.0
    ]

    unfoldable pub after_counting :
        KvStoreResource k.Pod → k.World × Result ℕ → k.World × Option Error
    unfolding report enter int_text
    after_counting ks (w, err e) =
        ((report ("Failed to initiate key redistribution: " ++ k.error_text e) ks w).0, some e)
    after_counting ks (w, ok pending) =
        if eqb pending 0
        then enter finalizing_scale "Starting to finalize scaling operation" ks w
        else report ("Pending keys to be redistributed: " ++ int_text pending) ks w

    unfoldable pub redistribute_keys : KvStoreResource k.Pod → k.World → Step
    unfolding sum_pending after_counting
    redistribute_keys ks w =
        let l = get_shards ks w in sum_pending l.1 0 l.0 >>= λ t. returns (after_counting ks t)

  -- Deletes the objects whose group is listed; the first error ends the loop.
  unfoldable pub delete_loop :
      {A : Type 0}
      → (A → ObjectMeta)
      → (A → k.World → k.World × Option Error)
      → List String
      → List A
      → k.World
      → k.World × Option Error
  delete_loop meta delete groups [] w = (w, none)
  delete_loop meta delete groups (x ∷ xs) w =
      let kept = delete_loop meta delete groups xs w in
      let deleted = delete x w in
      let rest = delete_loop meta delete groups xs deleted.0 in
      if contains groups (group_of (meta x))
      then elim deleted.1 [ some e ↦ (deleted.0, some e) | none ↦ rest ]
      else kept

  -- The next call is made only if there was no error.
  abbrev pub and_then :
      k.World × Option Error → (k.World → k.World × Option Error) → k.World × Option Error
  and_then (w, some e) next = (w, some e)
  and_then (w, none) next = next w

  -- The end of `FinalizeScale`, the same on both of its paths.
  unfoldable pub finish_scale : KvStoreResource k.Pod → k.World → k.World × Option Error
  unfolding enter
  finish_scale ks w =
      let done = with_status ks (record ks.status {
        phase = resuming_writes;
        message = "Starting to resume writes";
        current_shards = ks.status.target_shards;
        last_transition = k.now w;
      }) in
      and_then (update_config_map k done w) (k.update_status done)

  unfoldable pub finalize_scale : KvStoreResource k.Pod → k.World → k.World × Option Error
  unfolding finish_scale
  finalize_scale ks w =
      let groups = groups_to_delete ks.name ks.status.target_shards ks.status.current_shards in
      let delete_shards = λ (v : k.World).
        delete_loop (λ (s : StatefulSet k.Pod). s.meta) k.delete_shard groups (get_shards ks v).1
          (get_shards ks v).0 in
      let delete_ingresses = λ (v : k.World).
        delete_loop (λ (i : Ingress). i.meta) k.delete_ingress groups (get_ingresses ks v).1
          (get_ingresses ks v).0 in
      let delete_services = λ (v : k.World).
        delete_loop (λ (s : Service). s.meta) k.delete_service groups (get_services ks v).1
          (get_services ks v).0 in
      if ltb ks.status.current_shards ks.status.target_shards
      then finish_scale ks w
      else and_then (delete_shards w)
          λ w1. and_then (delete_ingresses w1) λ w2. and_then (delete_services w2) (finish_scale ks)
