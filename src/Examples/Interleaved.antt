-- ===== src/Examples/Interleaved.antt =====
-- A shard that gives its key to a new shard, while clients write.
use sharded_kvs.Prelude.{
  String, ◌≡◌, ◌≢◌, refl, true, none, some, [], ◌∷◌, lookup, insert, remove, returns, arith, eq_iff,
}
use sharded_kvs.Kvstore.{deliver, entries}
use sharded_kvs.Kvstore.Ops.{Process, set, delete, submit, raft_apply}
use sharded_kvs.Kvstore.Reads.{value_at}
use sharded_kvs.Server.{located}
use sharded_kvs.Server.Clients.{shard_target}
use sharded_kvs.Server.ShardRpc.{process, with_process}
use sharded_kvs.Server.Interleaving.{Pc, scanning, Targets, sets, System, Reach, start, writes}
use sharded_kvs.Server.Interleaving.Safety.{Reach-IsSafe}
use sharded_kvs.Server.Interleaving.Lost.{Anybody, finished, lost_write}
use sharded_kvs.Samples.Codec.{codec}
use sharded_kvs.Samples.Node.{sample_raft, sample-Quiet, fresh_process}
use sharded_kvs.Samples.World.{
  sample_flags, SampleWorld, sample_hashing, sample_net, sample-OwnState, sample-Remote,
}
use sharded_kvs.Samples.Departure.{
  state_of, leading, clients, before, clients-Dialled, before-Steady, destined, connected,
  before-Safe,
}
use sharded_kvs.Samples.Departure

abbrev At : Type 0
At = System sample_raft codec sample_hashing sample_net ("shard-1" ∷ [])

abbrev at : Pc → SampleWorld → At
at pc w = record { pc = pc; world = w }

before-Targets :
    Targets sample_raft codec sample_hashing sample_net ("shard-1" ∷ []) before "k" "shard-1" true
unfolding located
before-Targets = record { old = "shard-0"; at_old = refl; at_new = refl; test = refl }

-- A client sets another key before the loop begins.
abbrev with_j : Process sample_raft
with_j = state_of (set sample_raft codec "j" "v" Departure.holding) leading

j_set : set sample_raft codec "j" "v" Departure.holding ≡ returns (with_j, none)
unfolding submit raft_apply insert remove set codec sample_raft fresh_process deliver
j_set = refl

k_ne_j : ◌≢◌ {A = String} "k" "j"
k_ne_j = ground (arith, eq_iff "k" "j")

other_key :
    Reach sample_raft codec sample_hashing sample_net
      ("shard-1" ∷ [])
      (λ j. "k" ≢ j)
      (at (scanning ("k" ∷ [])) before)
      (at
        (scanning ("k" ∷ []))
        (with_process sample_raft codec sample_hashing sample_net with_j before))
other_key = writes start (sets "j" "v" (with_j, none) k_ne_j j_set)

Reach-IsSafe_example :
    Departure.Safe (with_process sample_raft codec sample_hashing sample_net with_j before)
Reach-IsSafe_example =
    Reach-IsSafe sample_raft codec sample_hashing sample_net sample-OwnState sample-Remote
      sample-Quiet sample_flags clients clients-Dialled ("shard-1" ∷ []) "k" "v" "shard-1"
      (shard_target "shard-1" 8080) destined connected ("k" ∷ []) before
      (at (scanning ("k" ∷ []))
        (with_process sample_raft codec sample_hashing sample_net with_j before))
      before-Steady before-Safe other_key

-- A client sets the key that the loop has read.
abbrev with_w : Process sample_raft
with_w = state_of (set sample_raft codec "k" "w" Departure.holding) leading

abbrev without_k : Process sample_raft
without_k = state_of (delete sample_raft codec "k" with_w) leading

abbrev lost : SampleWorld
lost =
    finished sample_raft codec sample_hashing sample_net sample-OwnState sample-Remote sample-Quiet
      sample_flags clients clients-Dialled ("shard-1" ∷ []) "k" "v" "w" "shard-1"
      (shard_target "shard-1" 8080) before with_w without_k

before_value :
    value_at sample_raft "k" (process sample_raft codec sample_hashing sample_net before) ≡ some "v"
unfolding submit raft_apply insert set codec sample_raft fresh_process deliver lookup entries
before_value = refl

v_ne_w : ◌≢◌ {A = String} "v" "w"
v_ne_w = ground (arith, eq_iff "v" "w")

k_set : set sample_raft codec "k" "w" Departure.holding ≡ returns (with_w, none)
unfolding submit raft_apply insert remove set codec sample_raft fresh_process deliver
k_set = refl

k_deleted : delete sample_raft codec "k" with_w ≡ returns (without_k, none)
unfolding submit raft_apply insert remove set delete codec sample_raft fresh_process deliver
k_deleted = refl

lost_write_example :
    Reach sample_raft codec sample_hashing sample_net
      ("shard-1" ∷ [])
      Anybody
      (at (scanning ("k" ∷ [])) before)
      (at (scanning []) lost)
    × (value_at sample_raft "k" (process sample_raft codec sample_hashing sample_net lost) ≡ none)
    × (lost.held (shard_target "shard-1" 8080) "k" ≢ some "w")
lost_write_example =
    lost_write sample_raft codec sample_hashing sample_net sample-OwnState sample-Remote
      sample-Quiet sample_flags clients clients-Dialled ("shard-1" ∷ []) "k" "v" "w" "shard-1"
      (shard_target "shard-1" 8080) before with_w without_k before-Steady before-Targets connected
      before_value v_ne_w k_set refl k_deleted
