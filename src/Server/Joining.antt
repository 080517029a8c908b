-- ===== src/Server/Joining.antt =====
-- What `JoinCluster` of cmd/shard/shard.go has come to when it returns.
use sharded_kvs.Prelude.{
  ℕ, zero, suc, String, true, List, ◌≡◌, ◌≢◌, ap, ◌∙◌, ◌⊎◌, returns, >>=-eq-returns,
  returns-injective, ◌==◌, eq_iff, Bool-cases, inl, inr,
}
use sharded_kvs.Protos.{Proto}
use sharded_kvs.Raft.{Raft}
use sharded_kvs.Kvstore.Ops.{has_latest_logs, leader}
use sharded_kvs.Server.{Hashing, Server, Net, client}
use sharded_kvs.Server.ShardRpc.{process}
use sharded_kvs.Server.Asking.{Answered, find_leader-Answered}
use sharded_kvs.Server.Startup.{ask_replicas, find_leader, wait_for_logs, join_cluster}

module _ (r : Raft) (p : Proto) (h : Hashing) (n : Net (Server r h)) where
  find_leader-known :
      (fuel : ℕ) (replicas : List String) (found : String) (w w' : n.World) (l : String)
      → find_leader r p h n fuel replicas found w ≡ returns (w', l)
      → l ≢ ""
  unfolding find_leader
  find_leader-known zero replicas found w w' l q e = elim (Bool-cases (found == "")) [
    | inl unknown ↦ cc (rw unknown at q)
    | inr known ↦
        let same : found ≡ l =
          ap (λ (t : n.World × String). t.1) (returns-injective _ _ (rw known at q)) in
        let nothing = (eq_iff found "").1 (same ∙ e) in cc (nothing, known)
  ]
  find_leader-known (suc fuel) replicas found w w' l q e = elim (Bool-cases (found == "")) [
    | inl unknown ↦
        let (t, pass, later) =
          >>=-eq-returns (ask_replicas r p h n replicas w) _ (rw unknown at q) in
        find_leader-known fuel replicas t.1 t.0 w' l later e
    | inr known ↦
        let same : found ≡ l =
          ap (λ (t : n.World × String). t.1) (returns-injective _ _ (rw known at q)) in
        let nothing = (eq_iff found "").1 (same ∙ e) in cc (nothing, known)
  ]

  wait_for_logs-latest :
      (fuel : ℕ) (sleep : n.World → n.World) (w w' : n.World)
      → wait_for_logs r p h n fuel sleep w ≡ returns w'
      → has_latest_logs r (process r p h n w') ≡ true
  unfolding wait_for_logs
  wait_for_logs-latest zero sleep w w' q =
      elim (Bool-cases (has_latest_logs r (process r p h n w))) [
        | inl latest ↦ let same = returns-injective w w' (rw latest at q) in rw (← same) latest
        | inr behind ↦ cc (rw behind at q)
      ]
  wait_for_logs-latest (suc fuel) sleep w w' q =
      elim (Bool-cases (has_latest_logs r (process r p h n w))) [
        | inl latest ↦ let same = returns-injective w w' (rw latest at q) in rw (← same) latest
        | inr behind ↦ wait_for_logs-latest fuel sleep (sleep w) w' (rw behind at q)
      ]

  -- A join request to a leader, made by a replica with the latest logs. The leader is the one that
  -- this replica knew at first, in the world `w`, or a replica that was asked answered its name.
  pub record Joined (replicas : List String) (w w' : n.World) : Type 0 where
    pub leader_name : String
    pub before : n.World
    pub connection : String
    pub known : leader_name ≢ ""
    pub named :
        (leader_name ≡ leader r (process r p h n w)) ⊎ Answered r p h n replicas w leader_name
    pub latest : has_latest_logs r (process r p h n before) ≡ true
    pub connected : client leader_name (n.self before).replica_clients ≡ returns connection
    pub requested :
        (n.replica_join connection
          (n.self before).flags.replica
          (n.self before).flags.address
          before).0
        ≡ w'

  -- When JoinCluster returns, a leader was found: the one that this replica knew at first, or one
  -- whose name a replica of the list answered. This replica then had the latest logs, and the last
  -- thing that was done is the request to that leader, through the connection to it, that this
  -- replica join under its own name and address.
  pub join_cluster-Joined :
      (fuel : ℕ) (sleep : n.World → n.World) (replicas : List String) (w w' : n.World)
      → join_cluster r p h n fuel sleep replicas w ≡ returns w'
      → Joined replicas w w'
  unfolding join_cluster
  join_cluster-Joined fuel sleep replicas w w' q =
      let (t, found, q1) =
        >>=-eq-returns (find_leader r p h n fuel replicas (leader r (process r p h n w)) w) _ q in
      let (before, waited, q2) = >>=-eq-returns (wait_for_logs r p h n fuel sleep t.0) _ q1 in
      let (c, connected, q3) = >>=-eq-returns (client t.1 (n.self before).replica_clients) _ q2 in
      let known = find_leader-known fuel replicas (leader r (process r p h n w)) w t.0 t.1 found in
      record {
        leader_name = t.1;
        before = before;
        connection = c;
        known = known;
        named =
            find_leader-Answered r p h n fuel replicas (leader r (process r p h n w)) w t.0 t.1
              found known;
        latest = wait_for_logs-latest fuel sleep t.0 before waited;
        connected = connected;
        requested = returns-injective _ _ q3;
      }
