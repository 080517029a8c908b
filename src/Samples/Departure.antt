-- ===== src/Samples/Departure.antt =====
-- A shard whose one key goes to a new shard.
use sharded_kvs.Prelude.{
  inl, String, ◌≡◌, refl, true, some, [], ◌∷◌, GoMap, lookup, insert, Outcome, returns, arith,
  eq_iff,
}
use sharded_kvs.Kvstore.{deliver, entries}
use sharded_kvs.Kvstore.Ops.{Process, set, submit, raft_apply}
use sharded_kvs.Server.{located}
use sharded_kvs.Server.Clients.{shard_target}
use sharded_kvs.Server.Steady.{Dialled, IsSteady, IsSafe}
use sharded_kvs.Samples.Codec.{codec}
use sharded_kvs.Samples.Node.{sample_raft, sample-Quiet, fresh_process}
use sharded_kvs.Samples.World.{
  sample_world, sample_config, sample_flags, SampleWorld, sample_hashing, sample_net,
  sample-OwnState, sample-Remote,
}

abbrev pub leading : Process sample_raft
leading = fresh_process true "me"

abbrev pub state_of {ℓ} : {A B : Type ℓ} → Outcome (A × B) → A → A
state_of (returns (s, e)) d = s
state_of _ d = d

abbrev pub holding : Process sample_raft
holding = state_of (set sample_raft codec "k" "v" leading) leading

abbrev pub clients : GoMap String
clients = ("shard-1", shard_target "shard-1" 8080) ∷ []

abbrev pub before : SampleWorld
before = sample_world holding ("shard-0" ∷ []) clients (sample_config [] [])

pub clients-Dialled : Dialled clients 8080
unfolding lookup
clients-Dialled name c h = ground (arith, eq_iff "shard-1" name)

abbrev pub Steady : SampleWorld → Type 0
Steady =
    IsSteady sample_raft codec sample_hashing sample_net sample-OwnState sample-Remote sample-Quiet
      sample_flags clients clients-Dialled

pub before-Steady : Steady before
unfolding submit raft_apply insert set codec sample_raft fresh_process deliver
before-Steady = record {
  shared = record { same = refl; object = 0; bound = refl };
  same_flags = refl;
  same_clients = refl;
  fit = tt;
}

pub destined : located sample_hashing ("shard-1" ∷ []) "k" ≡ returns "shard-1"
unfolding located
destined = refl

pub connected : lookup "shard-1" clients ≡ some (shard_target "shard-1" 8080)
unfolding lookup
connected = refl

abbrev pub Safe : SampleWorld → Type 0
Safe =
    IsSafe sample_raft codec sample_hashing sample_net sample-OwnState sample-Remote sample-Quiet
      sample_flags clients clients-Dialled ("shard-1" ∷ []) "k" "v" "shard-1"
      (shard_target "shard-1" 8080) destined connected

pub before-Safe : Safe before
unfolding submit raft_apply insert set codec sample_raft fresh_process deliver lookup entries
before-Safe = inl refl
