-- ===== src/Server/ReplicaRpc.antt =====
-- The `replicaRpcServer` of cmd/shard/shard.go: what the replicas of one shard ask of each other.
use sharded_kvs.Prelude.{
  ℕ, ◌+◌, ◌%◌, ◌^◌, String, Bool, true, false, Option, none, some, List, [], ◌∷◌, GoMap, Error,
  writes_disabled, Result, ok, err, Outcome, returns, ◌>>=◌, if◌then◌else◌, ◌==◌, not, ◌&&◌,
  is_empty,
}
use sharded_kvs.Protos.{InternalPutRequest, Proto}
use sharded_kvs.Raft.{Raft}
use sharded_kvs.Kvstore.Ops.{
  keys, get_writes_enabled, set_writes_enabled, set, delete, leader, join, demote_voter,
}
use sharded_kvs.Server.{Hashing, Server, Net, read_config, located, names_of, no_leader_found}
use sharded_kvs.Server.ShardRpc.{process, with_process}
use sharded_kvs.Server.Clients.{populate_shard_clients}

-- An `error` result where there is nothing else to answer.
abbrev pub answer_of {ℓ} : {A : Type ℓ} → A → Option Error → Result A
answer_of a none = ok a
answer_of a (some e) = err e

module _ (r : Raft) (p : Proto) (h : Hashing) (n : Net (Server r h)) where
  unfoldable pub replica_put : InternalPutRequest → n.World → Outcome (n.World × Result (Unit {0}))
  replica_put req w =
      let written = set r p req.key req.value (process r p h n w) in
      if not req.is_redistribution && not (get_writes_enabled r (process r p h n w))
      then returns (w, err writes_disabled)
      else (written >>= λ t. returns (with_process r p h n t.0 w, answer_of tt t.1))

  unfoldable pub replica_delete : String → n.World → Outcome (n.World × Result (Unit {0}))
  replica_delete key w = delete r p key (process r p h n w) >>= λ t.
      returns (with_process r p h n t.0 w, answer_of tt t.1)

  unfoldable pub replica_pause_writes : n.World → Outcome (n.World × Result Bool)
  replica_pause_writes w = read_config n w >>= λ config.
      let paused = set_writes_enabled r p false (process r p h n w) in
      if is_empty config.new_shards
      then returns (w, ok false)
      else (paused >>= λ t. returns (with_process r p h n t.0 w, answer_of true t.1))

  -- A key that the old ring gives to this shard and the new ring to another.
  unfoldable pub is_pending : h.Ring → h.Ring → String → String → Outcome Bool
  is_pending old_ring new_ring shard key = located h old_ring key >>= λ old.
      located h new_ring key >>= λ new. returns (not (old == new) && old == shard)

  unfoldable pub count_pending : h.Ring → h.Ring → String → List String → ℕ → Outcome ℕ
  unfolding is_pending
  count_pending old_ring new_ring shard [] count = returns count
  count_pending old_ring new_ring shard (key ∷ keys) count =
      is_pending old_ring new_ring shard key >>= λ b.
      count_pending old_ring new_ring shard keys (if b then count + 1 else count)

  -- The goroutine is started before the keys are counted. The count is answered as an int32: here
  -- the bit pattern.
  unfoldable pub replica_redistribute_keys : n.World → Outcome (n.World × Result ℕ)
  replica_redistribute_keys w =
      let s = n.self w in
      let w' = n.with_self (record s { jobs = s.jobs + 1 }) w in
      read_config n w' >>= λ config. h.new_ring (names_of config.new_shards) >>= λ new_ring.
      count_pending s.ring new_ring s.flags.shard (keys r s.process) 0 >>= λ pending.
      returns (w', ok (pending % 2 ^ 32))

  -- The loop of `ResumeWrites`: `none` is the return on a replica's error, `some b` says whether
  -- all have reloaded.
  unfoldable pub reload_loop : GoMap String → Bool → n.World → n.World × Option Bool
  reload_loop [] successful w = (w, some successful)
  reload_loop ((name, c) ∷ clients) successful w =
      let (w', answer) = n.replica_reload_config c w in
      let rest_false = reload_loop clients false w' in
      let rest = reload_loop clients successful w' in
      elim answer [ err e ↦ (w', none) | ok reloaded ↦ if reloaded then rest else rest_false ]

  unfoldable pub replica_resume_writes : n.World → Outcome (n.World × Result Bool)
  unfolding reload_loop
  replica_resume_writes w = read_config n w >>= λ config.
      let (w', reloaded) = reload_loop (n.self w).replica_clients true w in
      let resumed = set_writes_enabled r p true (process r p h n w') in
      if not (is_empty config.new_shards) then returns (w, ok false) else elim reloaded [
        | none ↦ returns (w', ok false)
        | some successful ↦
            if not successful
            then returns (w', ok successful)
            else (resumed >>= λ t. returns (with_process r p h n t.0 w', answer_of true t.1))
      ]

  unfoldable pub replica_join : String → String → n.World → n.World × Result (Unit {0})
  replica_join replica address w =
      let f = (n.self w).flags in
      let (s, e) = join r address f.raft_port f.shard replica (process r p h n w) in
      (with_process r p h n s w, answer_of tt e)

  unfoldable pub replica_leader : n.World → n.World × Result String
  replica_leader w =
      let l = leader r (process r p h n w) in (w, if l == "" then err no_leader_found else ok l)

  unfoldable pub replica_demote_voter : String → String → n.World → n.World × Result (Unit {0})
  replica_demote_voter replica address w =
      let f = (n.self w).flags in
      let (s, e) = demote_voter r f.raft_port f.shard replica (process r p h n w) in
      (with_process r p h n s w, answer_of tt e)

  module _ (fuel : ℕ) where
    -- The new ring takes the place of the old one only if there are no new shards.
    unfoldable pub reload_config : n.World → Outcome (n.World × Bool)
    reload_config w = read_config n w >>= λ config.
        if not (is_empty config.new_shards)
        then returns (w, false)
        else (h.new_ring (names_of config.shards) >>= λ ring.
            populate_shard_clients r h n fuel config.shards
              (n.with_self (record (n.self w) { ring = ring }) w)
            >>= λ w'. returns (w', true))
