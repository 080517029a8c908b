-- ===== src/Server/Interleaving/Atomic.antt =====
-- The loop as `Server.Redistribute` has it, at one go, is one way through the steps.
use sharded_kvs.Prelude.{
  String, true, List, [], ◌∷◌, ◌≡◌, refl, ◌==◌, not, ◌&&◌, Result, ok, err, returns, inl, inr,
  subst, >>=-eq-returns, returns-injective, Bool-cases, Result-cases,
}
use sharded_kvs.Protos.{Proto}
use sharded_kvs.Raft.{Raft}
use sharded_kvs.Kvstore.Ops.{get, delete}
use sharded_kvs.Server.{Hashing, Server, Net, located, client}
use sharded_kvs.Server.ShardRpc.{process}
use sharded_kvs.Server.Redistribute.{relocation, purge, send_key, move_key, move_keys}
use sharded_kvs.Server.Interleaving.{
  Pc, scanning, holding, sent, Targets, skip, missing, read, refused, accepted, purged, System,
  Reach, start, loop,
}

abbrev pub Nobody : String → Type 0
Nobody key = ⊥

module _ (r : Raft) (p : Proto) (h : Hashing) (n : Net (Server r h)) (new_ring : h.Ring)
    (s : System r p h n new_ring) where
  abbrev At : Pc → n.World → Type 0
  At pc w = Reach r p h n new_ring Nobody s (record { pc = pc; world = w })

  purge-At :
      (key : String) (keys : List String) (w : n.World) (w' : n.World)
      → At (sent key keys) w
      → purge r p h n key (w, ok tt) ≡ returns w'
      → At (scanning keys) w'
  unfolding purge
  purge-At key keys w w' reached q =
      let (t, d, e) = >>=-eq-returns (delete r p key (process r p h n w)) _ q in
      subst (At (scanning keys)) (returns-injective _ w' e) (loop reached (purged d))

  sent-At :
      (key value new c : String) (keys : List String) (w w' : n.World) (res : Result Unit)
      → At (holding key value new keys) w
      → client new (n.self w).shard_clients ≡ returns c
      → (n.shard_put c (relocation key value) w).1 ≡ res
      → purge r p h n key ((n.shard_put c (relocation key value) w).0, res) ≡ returns w'
      → At (scanning keys) w'
  unfolding purge
  sent-At key value new c keys w w' (ok u) reached met answer q =
      purge-At key keys _ w' (loop reached (accepted met answer)) q
  sent-At key value new c keys w w' (err e) reached met answer q =
      subst (At (scanning keys)) (returns-injective _ w' q) (loop reached (refused met answer))

  send_key-At :
      (key new : String) (keys : List String) (w w' : n.World)
      → At (scanning (key ∷ keys)) w
      → Targets r p h n new_ring w key new true
      → send_key r p h n key new (get r key (process r p h n w)) w ≡ returns w'
      → At (scanning keys) w'
  unfolding send_key
  send_key-At key new keys w w' reached k q = elim (Result-cases (get r key (process r p h n w))) [
    | inr (e, none_there) ↦
        subst (At (scanning keys)) (returns-injective w w' (rw (none_there, send_key) at q))
          (loop reached (missing k none_there))
    | inl (value, got) ↦
        let (c, met, q') =
          >>=-eq-returns (client new (n.self w).shard_clients) _ (rw (got, send_key) at q) in
        sent-At key value new c keys w w' _ (loop reached (read k got)) met refl q'
  ]

  move_key-At :
      (key : String) (keys : List String) (w w' : n.World)
      → At (scanning (key ∷ keys)) w
      → move_key r p h n new_ring key w ≡ returns w'
      → At (scanning keys) w'
  unfolding move_key
  move_key-At key keys w w' reached q =
      let (old, at_old, q1) = >>=-eq-returns (located h (n.self w).ring key) _ q in
      let (new, at_new, q2) = >>=-eq-returns (located h new_ring key) _ q1 in
      elim (Bool-cases (not (old == new) && old == (n.self w).flags.shard)) [
        | inl moves ↦
            send_key-At key new keys w w' reached
              (record { old = old; at_old = at_old; at_new = at_new; test = moves })
              (rw moves at q2)
        | inr stays ↦ subst (At (scanning keys)) (returns-injective w w' (rw stays at q2)) (
            loop reached
              (skip (record { old = old; at_old = at_old; at_new = at_new; test = stays })))
      ]

  move_keys-At :
      (keys : List String) (w w' : n.World)
      → At (scanning keys) w
      → move_keys r p h n new_ring keys w ≡ returns w'
      → At (scanning []) w'
  unfolding move_keys
  move_keys-At [] w w' reached q = subst (At (scanning [])) (returns-injective w w' q) reached
  move_keys-At (key ∷ keys) w w' reached q =
      let (u, first, rest) = >>=-eq-returns (move_key r p h n new_ring key w) _ q in
      move_keys-At keys u w' (move_key-At key keys w u reached first) rest

-- The loop at one go is a way through the atomic steps with no client between them.
pub move_keys-Reach :
    (r : Raft) (p : Proto) (h : Hashing) (n : Net (Server r h)) (new_ring : h.Ring)
    (keys : List String) (w w' : n.World)
    → move_keys r p h n new_ring keys w ≡ returns w'
    → Reach r p h n new_ring Nobody
        (record { pc = scanning keys; world = w })
        (record { pc = scanning []; world = w' })
move_keys-Reach r p h n new_ring keys w w' q =
    move_keys-At r p h n new_ring (record { pc = scanning keys; world = w }) keys w w' start q
