-- ===== src/Server/Interleaving/Lost.antt =====
-- A client's write of the key that the loop is at, between the loop's steps.
use sharded_kvs.Prelude.{
  String, ◌≡◌, ◌≢◌, refl, ◌∙◌, ap, Option, none, some, [], ◌∷◌, true, returns, ok, lookup, GoMap,
}
use sharded_kvs.Protos.{Proto}
use sharded_kvs.Raft.{Raft}
use sharded_kvs.Kvstore.Ops.{Process, set, delete}
use sharded_kvs.Kvstore.Reads.{Quiet, value_at, get-value_at}
use sharded_kvs.Kvstore.Purge.{delete-Purged, set-Touched}
use sharded_kvs.Server.{Hashing, Server, Net, Flags}
use sharded_kvs.Server.ShardRpc.{process, with_process}
use sharded_kvs.Server.Redistribute.{relocation}
use sharded_kvs.Server.Laws.{OwnState, Remote}
use sharded_kvs.Server.Finishing.{lookup-client}
use sharded_kvs.Server.Steady.{
  Dialled, IsSteady, IsSteady-self, IsSteady-with_process, elsewhere, moves_away,
}
use sharded_kvs.Server.Interleaving.{
  scanning, Targets, read, accepted, purged, sets, Reach, start, loop, writes,
}

abbrev pub Anybody : String → Type 0
Anybody key = Unit

module _ (r : Raft) (p : Proto) (h : Hashing) (n : Net (Server r h)) (own : OwnState n)
    (remote : Remote r h n) (quiet : Quiet r) (flags : Flags) (clients : GoMap String)
    (dialled : Dialled clients flags.shard_port) (new_ring : h.Ring) (k v v' new c : String)
    (w : n.World) (s1 s2 : Process r) where
  -- After the client's write, and after the value that was read before it has been sent.
  abbrev pub written : n.World
  written = with_process r p h n s1 w

  abbrev pub relocated : n.World
  relocated = (n.shard_put c (relocation k v) written).0

  abbrev pub finished : n.World
  finished = with_process r p h n s2 relocated

  -- The loop has read the old value of a key that moves; a client sets the key and is told that it
  -- succeeded; the loop sends the old value and deletes the key. The write that was acknowledged is
  -- then neither at this shard nor at the key's destination.
  pub lost_write :
      IsSteady r p h n own remote quiet flags clients dialled w
      → Targets r p h n new_ring w k new true
      → lookup new clients ≡ some c
      → value_at r k (process r p h n w) ≡ some v
      → v ≢ v'
      → set r p k v' (process r p h n w) ≡ returns (s1, none)
      → (n.shard_put c (relocation k v) written).1 ≡ ok tt
      → delete r p k (process r p h n relocated) ≡ returns (s2, none)
      → Reach r p h n new_ring Anybody
          (record { pc = scanning (k ∷ []); world = w })
          (record { pc = scanning []; world = finished })
        × (value_at r k (process r p h n finished) ≡ none)
        × (remote.held finished c k ≢ some v')
  lost_write steady target met found differ acknowledged stored removed =
      let set_it =
        set-Touched r p quiet k v' (process r p h n w) (s1, none) steady.shared acknowledged in
      let steady1 =
        IsSteady-with_process r p h n own remote quiet flags clients dialled w s1 set_it.shared
          steady in
      let away =
        elsewhere r p h n own remote quiet flags clients dialled new c met (
          rw (← steady.same_flags)
            (moves_away target.old new (n.self w).flags.shard target.test)) in
      let same =
        remote.put-away c (relocation k v) written steady1.fit (rw steady1.same_flags away) in
      let steady2 =
        IsSteady-self r p h n own remote quiet flags clients dialled written relocated same
          (remote.fit-put c (relocation k v) written steady1.fit (rw steady1.same_flags away))
          steady1 in
      let gone =
        delete-Purged r p quiet k (process r p h n relocated) (s2, none) steady2.shared removed in
      let held_v : remote.held finished c k ≡ some v =
        ap (λ (f : String → String → Option String). f c k)
          (remote.held-with_self (record (n.self relocated) { process = s2 }) relocated)
        ∙ remote.put-stores c (relocation k v) written steady1.fit (rw steady1.same_flags away)
            stored in
      let dialled_c =
        lookup-client new c (n.self written).shard_clients (rw steady1.same_clients met) in
      (
        loop
            (loop
              (writes (loop start (read target (get-value_at r p k (process r p h n w) ∙ rw found)))
                (sets k v' (s1, none) tt acknowledged))
              (accepted dialled_c stored))
            (purged removed),
        ap (λ (s : Server r h). value_at r k s.process)
              (own.self-with_self (record (n.self relocated) { process = s2 }) relocated)
            ∙ gone.reached refl,
        λ e. differ (cc (held_v, e)),
      )
