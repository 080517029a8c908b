-- ===== src/Server/Finishing.antt =====
-- The loop of `RedistributeKeys` of cmd/shard/shard.go comes to its end.
use sharded_kvs.Prelude.{
  String, ◌≡◌, refl, ◌∙◌, ap, subst, inl, inr, some, List, [], ◌∷◌, not, ◌&&◌, ◌==◌, ◌≢◌, returns,
  Returns, Returns-bind, Result, ok, err, Bool-cases, Result-cases, lookup, GoMap,
}
use sharded_kvs.Protos.{Proto}
use sharded_kvs.Raft.{Raft}
use sharded_kvs.Kvstore.Ops.{get}
use sharded_kvs.Kvstore.Reads.{Quiet}
use sharded_kvs.Kvstore.Purge.{delete-Purged}
use sharded_kvs.Server.{Hashing, Server, Net, Flags, located, client}
use sharded_kvs.Server.ShardRpc.{process}
use sharded_kvs.Server.Clients.{shard_target}
use sharded_kvs.Server.Redistribute.{relocation, purge, send_key, move_key, move_keys}
use sharded_kvs.Server.Laws.{OwnState, Remote}
use sharded_kvs.Kvstore.Total.{delete-returns}
use sharded_kvs.Server.Steady.{
  Dialled, IsSteady, IsSteady-self, IsSteady-with_process, elsewhere, moves_away,
}

pub lookup-client :
    (name c : String) (clients : GoMap String)
    → lookup name clients ≡ some c
    → client name clients ≡ returns c
unfolding client
lookup-client name c clients h = rw (h, client) refl

module _ (r : Raft) (p : Proto) (h : Hashing) (n : Net (Server r h)) (own : OwnState n)
    (remote : Remote r h n) (quiet : Quiet r) (flags : Flags) (clients : GoMap String)
    (dialled : Dialled clients flags.shard_port) (ring new_ring : h.Ring)
    (old_members : (key : String) → (m : String) × (located h ring key ≡ returns m))
    (new_members : (key : String)
      → (m : String) × (c : String) × (located h new_ring key ≡ returns m)
        × (lookup m clients ≡ some c)) where
  pub record IsReady (w : n.World) : Type 0 where
    pub steady : IsSteady r p h n own remote quiet flags clients dialled w
    pub same_ring : (n.self w).ring ≡ ring

  purge-Returns :
      (key : String) (w : n.World) (res : Result Unit)
      → IsReady w
      → Returns (purge r p h n key (w, res)) IsReady
  unfolding purge
  purge-Returns key w (err e) k = k
  purge-Returns key w (ok u) k =
      let (t, ran) = delete-returns r p (process r p h n w) k.steady.shared key in
      rw ran (record {
        steady =
            IsSteady-with_process r p h n own remote quiet flags clients dialled w t.0
              ((delete-Purged r p quiet key (process r p h n w) t k.steady.shared ran).shared)
              k.steady;
        same_ring = ap (λ (s : Server r h). s.ring) (own.self-with_self _ w) ∙ k.same_ring;
      })

  send_key-Returns :
      (key new c : String) (w : n.World)
      → lookup new clients ≡ some c
      → new ≢ flags.shard
      → IsReady w
      → Returns (send_key r p h n key new (get r key (process r p h n w)) w) IsReady
  unfolding send_key
  send_key-Returns key new c w met away k = elim (Result-cases (get r key (process r p h n w))) [
    | inr (e, missing) ↦ rw (missing, send_key) k
    | inl (value, got) ↦
        let found = lookup-client new c (n.self w).shard_clients (rw k.steady.same_clients met) in
        let sent = n.shard_put c (relocation key value) w in
        let far : c ≢ shard_target (n.self w).flags.shard (n.self w).flags.shard_port =
          rw k.steady.same_flags
            (elsewhere r p h n own remote quiet flags clients dialled new c met away) in
        let same = remote.put-away c (relocation key value) w k.steady.fit far in
        rw (got, send_key, found)
          (purge-Returns key sent.0 sent.1 (record {
            steady =
                IsSteady-self r p h n own remote quiet flags clients dialled w sent.0 same
                  (remote.fit-put c (relocation key value) w k.steady.fit far) k.steady;
            same_ring = ap (λ (s : Server r h). s.ring) same ∙ k.same_ring;
          }))
  ]

  move_key-Returns :
      (key : String) (w : n.World) → IsReady w → Returns (move_key r p h n new_ring key w) IsReady
  unfolding move_key
  move_key-Returns key w k =
      let (old, at_old) = old_members key in
      let (new, c, at_new, met) = new_members key in
      let at_old' : located h (n.self w).ring key ≡ returns old = rw k.same_ring at_old in
      elim (Bool-cases (not (old == new) && old == (n.self w).flags.shard)) [
        | inl moves ↦
            rw (at_old', move_key, at_new, moves)
              (send_key-Returns key new c w met
                (subst (λ (f : Flags). new ≢ f.shard) k.steady.same_flags
                  (moves_away old new (n.self w).flags.shard moves))
                k)
        | inr stays ↦ rw (at_old', move_key, at_new, stays) k
      ]

  -- Where both rings give every key to a member, and each member of the new ring has a client, the
  -- loop returns, whatever keys it goes through and however its puts and deletes fail: it does not
  -- panic, and it leaves the process with its map shared, and the ring and the clients as they were.
  pub move_keys-Returns :
      (keys : List String) (w : n.World)
      → IsReady w
      → Returns (move_keys r p h n new_ring keys w) IsReady
  unfolding move_keys
  move_keys-Returns [] w k = k
  move_keys-Returns (key ∷ keys) w k =
      Returns-bind (move_key r p h n new_ring key w) _ IsReady IsReady (move_key-Returns key w k)
        λ u ready. move_keys-Returns keys u ready
