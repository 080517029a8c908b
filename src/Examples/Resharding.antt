-- ===== src/Examples/Resharding.antt =====
-- Two shards that serve clients, and that give their key from one to the other.
use mathlib.Core.List.{Memᴰ}
use sharded_kvs.Kvstore.{deliver, entries}
use sharded_kvs.Kvstore.Ops.{set, submit, raft_apply}
use sharded_kvs.Server.Clients.{shard_target}
use sharded_kvs.Server.Routing.{kv_get}
use sharded_kvs.Server.Network.Switching.{publish, reload_each, rescaled-serves}
use sharded_kvs.Server.Network.Requests.{Exchange, Trace}
use sharded_kvs.Server.Network.Actions.{Action, round, request, act_all}
use sharded_kvs.Server.Network.During.{Undisturbed, act_all-Undisturbed}
use sharded_kvs.Server.Network.Missing.{get_after_moves}
use sharded_kvs.Prelude.{
  some, err, key_not_found, insert, lookup, itoa, arith, eq_iff, ◌≢◌, none, ◌≡◌, refl, List,
  returns, [], ◌∷◌, String,
}
use sharded_kvs.Server.Network.Layout.{address, contents}
use sharded_kvs.Server.Network.Requests.{
  read_key, write_key, remove_key, Asked, serve_all, ServedAll, serve_all-ServedAll,
}
use sharded_kvs.Server.Network.Moves.{move_all, move_all-contents}
use sharded_kvs.Server.Network.{Deployment, network}
use sharded_kvs.Samples.Codec.{codec}
use sharded_kvs.Samples.Node.{sample_raft, sample-Quiet, fresh_process}
use sharded_kvs.Samples.Pair.{
  split_hashing, old_pair, new_pair, old_layout, new_layout, sample-IsSteadfast, pair-IsReady,
  pair-Prepared,
}
use sharded_kvs.Samples.Scaled.{
  final_config, final_config-IsFinal, pair-IsReliable, pair-IsClean, old_pair-Moving, moves,
  moves-IsComplete,
}

-- Put a key at one shard, get it at the other, delete it.
abbrev asked : List (Asked sample_raft codec split_hashing new_layout)
asked =
    record {
      at = "shard-0";
      at-member = Memᴰ.tail (Memᴰ.head refl);
      request = write_key (record { key = "k"; value = "w" });
    }
    ∷ record { at = "shard-1"; at-member = Memᴰ.head refl; request = read_key "k" }
    ∷ record { at = "shard-0"; at-member = Memᴰ.tail (Memᴰ.head refl); request = remove_key "k" }
    ∷ []

serve_all-ServedAll_example :
    ServedAll sample_raft codec split_hashing new_layout new_pair
      (serve_all sample_raft codec split_hashing new_layout asked new_pair)
serve_all-ServedAll_example =
    serve_all-ServedAll sample_raft codec split_hashing new_layout sample-Quiet sample-IsSteadfast
      asked new_pair pair-IsReady

move_all-contents_example :
    (d : Deployment sample_raft split_hashing) × (move_all sample_raft codec split_hashing
        old_layout new_layout moves old_pair
      ≡ returns d)
    × ((key : String)
        → (contents new_layout d key ≡ contents old_layout old_pair key)
          × (old_layout.home key ≢ new_layout.home key → contents old_layout d key ≡ none))
move_all-contents_example =
    move_all-contents sample_raft codec split_hashing old_layout new_layout sample-Quiet
      sample-IsSteadfast refl old_pair pair-Prepared pair-IsClean moves pair-IsReliable
      moves-IsComplete

k_held : contents old_layout old_pair "k" ≡ some "v"
unfolding submit raft_apply insert set codec sample_raft fresh_process deliver shard_target itoa
    entries lookup
k_held = refl

other_shard : ◌≢◌ {A = String} "shard-0" "shard-1"
other_shard = ground (arith, eq_iff "shard-0" "shard-1")

get_after_moves_example :
    (d : Deployment sample_raft split_hashing) × (move_all sample_raft codec split_hashing
        old_layout new_layout moves old_pair
      ≡ returns d)
    × (contents new_layout d "k" ≡ some "v")
    × ((m : String)
        → Memᴰ m old_layout.members
        → kv_get sample_raft split_hashing
            (network sample_raft codec split_hashing (address old_layout m))
            "k"
            d
          ≡ returns (d, err key_not_found))
get_after_moves_example =
    get_after_moves sample_raft codec split_hashing old_layout new_layout sample-Quiet
      sample-IsSteadfast refl old_pair moves "k" "v" pair-Prepared pair-IsClean pair-IsReliable
      moves-IsComplete other_shard k_held

rescaled-serves_example :
    (moved : Deployment sample_raft split_hashing) × (move_all sample_raft codec split_hashing
        old_layout new_layout moves old_pair
      ≡ returns moved)
    × (switched : Deployment sample_raft split_hashing) × (reload_each sample_raft codec
          split_hashing new_layout 0 new_layout.members
          (publish final_config moved)
        ≡ returns switched)
    × (end : Deployment sample_raft split_hashing) × (events : List Exchange) × (serve_all
          sample_raft codec split_hashing new_layout asked switched
        ≡ returns (end, events))
    × Trace (contents old_layout old_pair) events (contents new_layout end)
rescaled-serves_example =
    rescaled-serves sample_raft codec split_hashing old_layout new_layout sample-Quiet
      sample-IsSteadfast refl old_pair moves final_config 0 asked pair-Prepared pair-IsClean
      pair-IsReliable moves-IsComplete final_config-IsFinal

-- A client puts a key that stays, the other key is moved, and a client gets the first.
abbrev actions : List (Action sample_raft codec split_hashing old_layout new_layout)
actions =
    request (record {
      at = "shard-1";
      at-member = Memᴰ.tail (Memᴰ.head refl);
      request = write_key (record { key = "j"; value = "v" });
    })
    ∷ round (record { at = "shard-0"; at-member = Memᴰ.head refl; key = "k" })
    ∷ request (record { at = "shard-0"; at-member = Memᴰ.head refl; request = read_key "j" })
    ∷ []

act_all-Undisturbed_example :
    Undisturbed sample_raft codec split_hashing old_layout new_layout
      (contents old_layout old_pair)
      old_pair
      (act_all sample_raft codec split_hashing old_layout new_layout actions old_pair)
act_all-Undisturbed_example =
    act_all-Undisturbed sample_raft codec split_hashing old_layout new_layout sample-Quiet
      sample-IsSteadfast refl (contents old_layout old_pair) actions old_pair
      (refl, (tt, (refl, tt))) pair-Prepared old_pair-Moving
