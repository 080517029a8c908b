-- ===== src/Server/Network/Moves.antt =====
-- The loops of `RedistributeKeys` of cmd/shard/shard.go at all the shards of a deployment, their
-- rounds in any order.
use mathlib.Core.List.{Memᴰ}
use mathlib.Core.Path.{fun_ext}
use sharded_kvs.Prelude.{
  List, [], ◌∷◌, String, ◌≡◌, ◌≢◌, refl, sym, ◌∙◌, ap, subst, ◌⊎◌, inl, inr, Option, none, returns,
  Outcome, ◌>>=◌, lookup, String-cases, eq_iff, arith,
}
use sharded_kvs.Protos.{Proto}
use sharded_kvs.Raft.{Raft}
use sharded_kvs.Kvstore.Reads.{Quiet, value_at}
use sharded_kvs.Server.{Hashing}
use sharded_kvs.Server.Redistribute.{move_key}
use sharded_kvs.Server.Network.{Deployment, network}
use sharded_kvs.Server.Network.Layout.{Layout, address, contents}
use sharded_kvs.Server.Network.Leading.{IsSteadfast, IsReliable}
use sharded_kvs.Server.Network.Rescaling.{Arrived, Prepared, Place, stays, waits_here}
use sharded_kvs.Server.Redistribute.{move_keys}
use sharded_kvs.Server.Clients.{shard_target}
use sharded_kvs.Prelude.{keys_of, GoMap}
use sharded_kvs.Kvstore.{entries}
use sharded_kvs.Kvstore.Ops.{keys}
use sharded_kvs.Server.Network.Moving.{move_key-Round}

lookup-keys_of : (key : String) (m : GoMap String) → (lookup key m ≡ none) ⊎ Memᴰ key (keys_of m)
unfolding lookup keys_of
lookup-keys_of key [] = inl refl
lookup-keys_of key ((k, v) ∷ m) = elim (String-cases k key) [
  | inl e ↦ inr (Memᴰ.head (sym e))
  | inr ne ↦ elim (lookup-keys_of key m) [
    | inl q ↦ inl (ground (arith, eq_iff k key))
    | inr i ↦ inr (Memᴰ.tail i)
  ]
]

-- The rounds of the loops of several shards, one after the other.
module _ (r : Raft) (p : Proto) (h : Hashing) (old new : Layout h) where
  -- A round at a shard of the old ring.
  pub record Move : Type 0 where
    pub at : String
    pub at-member : Memᴰ at old.members
    pub key : String

  unfoldable pub move_all : List Move → Deployment r h → Outcome (Deployment r h)
  move_all [] d = returns d
  move_all (a ∷ rest) d =
      move_key r p h (network r p h (address old a.at)) new.ring a.key d >>= λ d'. move_all rest d'

  -- The rounds of the loop of one shard.
  abbrev pub rounds_of : (m : String) → Memᴰ m old.members → List String → List Move
  rounds_of m there [] = []
  rounds_of m there (key ∷ keys) =
      record { at = m; at-member = there; key = key } ∷ rounds_of m there keys

  pub move_keys-move_all :
      (m : String) (there : Memᴰ m old.members) (keys : List String) (d : Deployment r h)
      → move_keys r p h (network r p h (address old m)) new.ring keys d
        ≡ move_all (rounds_of m there keys) d
  unfolding move_keys move_all
  move_keys-move_all m there [] d = refl
  move_keys-move_all m there (key ∷ keys) d =
      ap
        (λ (g : Deployment r h → Outcome (Deployment r h)).
          move_key r p h (network r p h (address old m)) new.ring key d >>= g)
        (fun_ext (λ d'. move_keys-move_all m there keys d'))

  -- One of the rounds is that of a key at a shard.
  abbrev pub Includes : List Move → String → String → Type 0
  Includes [] m key = ⊥
  Includes (a ∷ rest) m key = ((a.at ≡ m) × (a.key ≡ key)) ⊎ Includes rest m key

  -- Every shard of the old ring goes through all of its keys.
  abbrev pub IsComplete : List Move → Deployment r h → Type 0
  IsComplete moves d =
      (m key : String)
      → Memᴰ m old.members
      → Memᴰ key (keys r (d.servers (address old m)).process)
      → Includes moves m key

  -- No shard has a value yet for a key that it is to get.
  abbrev pub IsClean : Deployment r h → Type 0
  IsClean d = (key : String) → old.home key ≢ new.home key → contents new d key ≡ none

  -- After the rounds.
  pub record Rescaled (f : String → Option String) (d : Deployment r h) (moves : List Move)
      (o : Outcome (Deployment r h)) : Type 0 where
    pub after : Deployment r h
    pub ran : o ≡ returns after
    pub prepared_still : Prepared r h old new after
    pub places_still : (j : String) → Place r h old new f after j
    pub arrived_still : (j : String) → Arrived r h old new f d j → Arrived r h old new f after j
    pub arrives :
        IsReliable r p f
        → (j : String) → Includes moves (old.home j) j
        → Arrived r h old new f after j

  module _ (quiet : Quiet r) (steadfast : IsSteadfast r p) (same_port : new.port ≡ old.port) where
    move_all-Rescaled :
        (f : String → Option String) (moves : List Move) (d : Deployment r h)
        → Prepared r h old new d
        → ((j : String) → Place r h old new f d j)
        → Rescaled f d moves (move_all moves d)
    unfolding move_all
    move_all-Rescaled f [] d prepared places = record {
      after = d;
      ran = refl;
      prepared_still = prepared;
      places_still = places;
      arrived_still = λ j arrived. arrived;
      arrives = λ reliable j none_is. absurd none_is;
    }
    move_all-Rescaled f (a ∷ rest) d prepared places =
        let one =
          move_key-Round r p h quiet steadfast old new same_port f d prepared places a.at a.key
            a.at-member in
        let all = move_all-Rescaled f rest one.after one.prepared_still one.places_still in
        record {
          after = all.after;
          ran = rw (one.ran, all.ran) refl;
          prepared_still = all.prepared_still;
          places_still = all.places_still;
          arrived_still = λ j arrived. all.arrived_still j (one.arrived_still j arrived);
          arrives = λ reliable j among. elim among [
            | inl (e, k) ↦ all.arrived_still j (
                subst (Arrived r h old new f one.after) k
                  (one.arrives reliable (e ∙ ap old.home (sym k))))
            | inr later ↦ all.arrives reliable j later
          ];
        }

    module _ (d : Deployment r h) (prepared : Prepared r h old new d) (clean : IsClean d)
        (moves : List Move) where
      places : (j : String) → Place r h old new (contents old d) d j
      places j = elim (String-cases (old.home j) (new.home j)) [
        | inl e ↦ stays e refl
        | inr ne ↦ waits_here ne refl (inl (clean j ne))
      ]

      -- A key without a value has none at its new shard.
      absent : (key : String) → contents old d key ≡ none → contents new d key ≡ contents old d key
      absent key missing = elim (String-cases (old.home key) (new.home key)) [
        | inr ne ↦ clean key ne ∙ sym missing
        | inl e ↦
            ap (λ (x : String). value_at r key (d.servers x).process)
              (ap (shard_target (new.home key)) same_port ∙ ap (address old) (sym e))
      ]

      -- With no other writer, and leaders that go on leading: however the rounds of the loops of all
      -- the shards follow one another, and however their puts and deletes fail, none of them panics,
      -- and every key that was at its shard of the old ring, with a value or without, is where it
      -- was, or is gone from there and has its value at its shard of the new ring.
      move_all-Place :
          (d' : Deployment r h) × (move_all moves d ≡ returns d')
          × ((key : String) → Place r h old new (contents old d) d' key)
      move_all-Place =
          let k = move_all-Rescaled (contents old d) moves d prepared places in
          (k.after, k.ran, k.places_still)

      -- With no failures: where every key is at the end.
      pub move_all-Arrived :
          IsReliable r p (contents old d)
          → IsComplete moves d
          → (d' : Deployment r h) × (move_all moves d ≡ returns d')
            × Prepared r h old new d'
            × ((key : String) → Arrived r h old new (contents old d) d' key)
      unfolding keys
      move_all-Arrived reliable complete =
          let k = move_all-Rescaled (contents old d) moves d prepared places in
          (
            k.after,
            k.ran,
            k.prepared_still,
            λ key.
                elim (lookup-keys_of key (
                  entries (d.servers (address old (old.home key))).process.kv.store
                    (d.servers (address old (old.home key))).process.memory)) [
                      | inr there ↦
                          k.arrives reliable key
                            (complete (old.home key) key (old.home-member key) there)
                      | inl missing ↦ k.arrived_still key (absent key missing, λ _. missing)
                    ],
          )

      -- A deployment that is prepared for a new ring, none of whose keys has a value yet at a shard
      -- that it is to move to; no other writer, leaders that go on leading, and no write that
      -- fails. If every shard goes through all the keys that it has, then in whatever order the
      -- rounds of the loops follow one another, they end, and the shards of the new ring hold for
      -- every key what the shards of the old ring held. A key that has moved is no longer at its
      -- old shard.
      pub move_all-contents :
          IsReliable r p (contents old d)
          → IsComplete moves d
          → (d' : Deployment r h) × (move_all moves d ≡ returns d')
            × ((key : String)
                → (contents new d' key ≡ contents old d key)
                  × (old.home key ≢ new.home key → contents old d' key ≡ none))
      move_all-contents reliable complete =
          let (d', ran, still, arrived) = move_all-Arrived reliable complete in (d', ran, arrived)
