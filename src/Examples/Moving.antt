-- ===== src/Examples/Moving.antt =====
-- A shard that gives its key to a new shard, at one go.
use sharded_kvs.Prelude.{
  Returns, String, ◌≡◌, refl, some, [], ◌∷◌, lookup, insert, remove, itoa, Outcome, returns,
}
use sharded_kvs.Kvstore.{deliver, entries}
use sharded_kvs.Kvstore.Ops.{set, delete, submit, raft_apply, get}
use sharded_kvs.Server.{located, client}
use sharded_kvs.Server.Clients.{shard_target}
use sharded_kvs.Server.Redistribute.{move_keys, move_key, send_key, purge}
use sharded_kvs.Server.Relocation.{move_keys-IsSafe}
use sharded_kvs.Server.Finishing.{IsReady, move_keys-Returns}
use sharded_kvs.Samples.Codec.{codec}
use sharded_kvs.Samples.Node.{sample_raft, sample-Quiet, fresh_process}
use sharded_kvs.Samples.World.{
  sample_flags, SampleWorld, sample_hashing, sample_net, sample-OwnState, sample-Remote,
}
use sharded_kvs.Samples.Departure.{
  clients, before, clients-Dialled, Steady, before-Steady, destined, connected, Safe, before-Safe,
}

abbrev world_of : Outcome SampleWorld → SampleWorld
world_of (returns w) = w
world_of _ = before

abbrev after : SampleWorld
after =
    world_of
      (move_keys sample_raft codec sample_hashing sample_net ("shard-1" ∷ []) ("k" ∷ []) before)

ran :
    move_keys sample_raft codec sample_hashing sample_net ("shard-1" ∷ []) ("k" ∷ []) before
    ≡ returns after
unfolding submit raft_apply insert remove set delete get lookup codec sample_raft fresh_process
    deliver move_keys move_key send_key purge located client shard_target itoa entries
ran = refl

move_keys-IsSafe_example : Steady after × Safe after
move_keys-IsSafe_example =
    move_keys-IsSafe sample_raft codec sample_hashing sample_net sample-OwnState sample-Remote
      sample-Quiet sample_flags clients clients-Dialled ("shard-1" ∷ []) "k" "v" "shard-1"
      (shard_target "shard-1" 8080) destined connected ("k" ∷ []) before after ran before-Steady
      before-Safe

old_members :
    (key : String) → (m : String) × (located sample_hashing ("shard-0" ∷ []) key ≡ returns m)
unfolding located
old_members key = ("shard-0", refl)

new_members :
    (key : String)
    → (m : String) × (c : String) × (located sample_hashing ("shard-1" ∷ []) key ≡ returns m)
      × (lookup m clients ≡ some c)
unfolding located lookup
new_members key = ("shard-1", shard_target "shard-1" 8080, refl, refl)

abbrev Ready : SampleWorld → Type 0
Ready =
    IsReady sample_raft codec sample_hashing sample_net sample-OwnState sample-Remote sample-Quiet
      sample_flags clients clients-Dialled ("shard-0" ∷ []) ("shard-1" ∷ []) old_members new_members

before-Ready : Ready before
before-Ready = record { steady = before-Steady; same_ring = refl }

move_keys-Returns_example :
    Returns
      (move_keys sample_raft codec sample_hashing sample_net ("shard-1" ∷ []) ("k" ∷ []) before)
      Ready
move_keys-Returns_example =
    move_keys-Returns sample_raft codec sample_hashing sample_net sample-OwnState sample-Remote
      sample-Quiet sample_flags clients clients-Dialled ("shard-0" ∷ []) ("shard-1" ∷ [])
      old_members new_members ("k" ∷ []) before before-Ready
