-- ===== src/Samples/Scaled.antt =====
-- The way of the two shards of Samples.Pair from the old ring to the new one.
use mathlib.Core.List.{Memᴰ}
use sharded_kvs.Server.{KvstoreConfig, names_of}
use sharded_kvs.Prelude.{
  ◌∙◌, String-cases, String, ◌≡◌, refl, sym, some, List, [], ◌∷◌, lookup, insert, itoa, arith,
  eq_iff, inl, inr, keys_of,
}
use sharded_kvs.Kvstore.{deliver, entries}
use sharded_kvs.Kvstore.Ops.{set, submit, raft_apply, keys}
use sharded_kvs.Server.Clients.{shard_target}
use sharded_kvs.Server.Network.Leading.{IsReliable}
use sharded_kvs.Server.Network.Layout.{contents}
use sharded_kvs.Server.Network.Moves.{Move, Includes, IsComplete, IsClean}
use sharded_kvs.Samples.Codec.{codec, codec_set, codec_delete, sample_map}
use sharded_kvs.Samples.Node.{sample_raft, fresh_process}
use sharded_kvs.Samples.World.{sample_config}
use sharded_kvs.Server.Network.Switching.{IsFinal}
use sharded_kvs.Server.Network.Actions.{Moving}
use sharded_kvs.Server.Network.Rescaling.{waits_here}
use sharded_kvs.Prelude.{Bool-cases, ◌==◌, inr}
use sharded_kvs.Samples.Pair.{
  split_hashing, new_members, old_layout, new_layout, old_pair, by_member,
}

-- What the deployment holds by the old ring.
holds : (key : String) → contents old_layout old_pair key ≡ lookup key sample_map
unfolding submit raft_apply insert set codec sample_raft fresh_process deliver shard_target itoa
    entries
holds key = refl

sample_map-only :
    (key value : String) → lookup key sample_map ≡ some value → (key ≡ "k") × (value ≡ "v")
unfolding lookup
sample_map-only key value q = elim (String-cases "k" key) [
  | inl e ↦ (sym e, ground (arith, eq_iff "k" key))
  | inr ne ↦ ground (arith, eq_iff "k" key)
]

pub pair-IsReliable : IsReliable sample_raft codec (contents old_layout old_pair)
unfolding sample_raft
pair-IsReliable = record {
  applies = λ b n leading. rw leading refl;
  marshals = λ key value has.
      let (e, q) = sample_map-only key value (sym (holds key) ∙ has) in
      (0 ∷ [], rw (e, q) codec_set);
  marshals_delete = λ key value has.
      let (e, q) = sample_map-only key value (sym (holds key) ∙ has) in (1 ∷ [], rw e codec_delete);
}

pub pair-IsClean : IsClean sample_raft codec split_hashing old_layout new_layout old_pair
unfolding submit raft_apply insert set codec sample_raft fresh_process deliver shard_target itoa
    entries lookup
pair-IsClean key ne = elim (Bool-cases (key == "k")) [
  | inl e ↦ rw e refl
  | inr e ↦ absurd (ne (rw e refl))
]

pub old_pair-Moving :
    Moving sample_raft codec split_hashing old_layout new_layout
      (contents old_layout old_pair)
      old_pair
old_pair-Moving key ne = waits_here ne refl (inl (pair-IsClean key ne))

-- The one round that the two loops have between them.
abbrev pub moves : List (Move sample_raft codec split_hashing old_layout new_layout)
moves = record { at = "shard-0"; at-member = Memᴰ.head refl; key = "k" } ∷ []

pub moves-IsComplete :
    IsComplete sample_raft codec split_hashing old_layout new_layout moves old_pair
unfolding submit raft_apply insert set codec sample_raft fresh_process deliver shard_target itoa
    entries keys keys_of
moves-IsComplete m key there has =
    by_member
      (λ m.
        Memᴰ key (keys sample_raft (old_pair.servers (shard_target m 8080)).process)
        → Includes sample_raft codec split_hashing old_layout new_layout moves m key)
      (λ among. elim among [ Memᴰ.head e ↦ inl (refl, sym e) | Memᴰ.tail t ↦ elim t [ ] ])
      (λ among. elim among [ ]) m there has

abbrev pub final_config : KvstoreConfig
final_config = sample_config new_members []

pub final_config-IsFinal : IsFinal split_hashing new_layout final_config
unfolding names_of
final_config-IsFinal = record { no_new = refl; named = refl; ring_of = refl }
