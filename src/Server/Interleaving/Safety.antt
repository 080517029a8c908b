-- ===== src/Server/Interleaving/Safety.antt =====
-- With clients that write other keys between the steps of the loop, the value of a key is not lost.
use sharded_kvs.Prelude.{
  String, ◌≡◌, ◌≢◌, sym, ◌∙◌, ap, subst, inl, inr, Option, none, some, List, [], returns, ok,
  lookup, GoMap, String-cases,
}
use sharded_kvs.Protos.{Proto}
use sharded_kvs.Raft.{Raft}
use sharded_kvs.Kvstore.Ops.{get}
use sharded_kvs.Kvstore.Reads.{Quiet, value_at, get-value_at}
use sharded_kvs.Kvstore.Purge.{delete-Purged}
use sharded_kvs.Server.{Hashing, Server, Net, Flags, located, client}
use sharded_kvs.Server.ShardRpc.{process}
use sharded_kvs.Server.Clients.{shard_target}
use sharded_kvs.Server.Redistribute.{relocation}
use sharded_kvs.Server.Laws.{OwnState, Remote}
use sharded_kvs.Server.Steady.{
  Dialled, IsSteady, IsSafe, IsSafe-same, IsSteady-self, IsSteady-with_process, elsewhere,
  moves_away, client-lookup, answer-ok,
}
use sharded_kvs.Server.Interleaving.{
  Pc, scanning, holding, LoopStep, skip, missing, read, refused, accepted, purged, System, Reach,
  start, loop, writes,
}
use sharded_kvs.Server.Interleaving.Others.{
  Inv, Inv-after, Inv-client, here-with_process, held-with_process,
}

module _ (r : Raft) (p : Proto) (h : Hashing) (n : Net (Server r h)) (own : OwnState n)
    (remote : Remote r h n) (quiet : Quiet r) (flags : Flags) (clients : GoMap String)
    (dialled : Dialled clients flags.shard_port) (new_ring : h.Ring) (k v dest c : String)
    (destined : located h new_ring k ≡ returns dest)
    (connected : lookup dest clients ≡ some c) where
  abbrev Steady : n.World → Type 0
  Steady w = IsSteady r p h n own remote quiet flags clients dialled w

  abbrev Safe : n.World → Type 0
  Safe w =
      IsSafe r p h n own remote quiet flags clients dialled new_ring k v dest c destined connected w

  abbrev here : n.World → Option String
  here w = value_at r k (process r p h n w)

  abbrev Holds : Pc → n.World → Type 0
  Holds pc w =
      Inv r p h n own remote quiet flags clients dialled new_ring k v dest c destined connected pc w

  -- Where the loop has read `k` at this shard, it holds `v`.
  read-v :
      (w : n.World) (value : String)
      → Safe w
      → get r k (process r p h n w) ≡ ok value
      → (here w ≡ some v) × (value ≡ v)
  read-v w value safe got =
      let found : here w ≡ some value =
        answer-ok _ value (sym (get-value_at r p k (process r p h n w)) ∙ got) in
      elim safe [ inl at_home ↦ (at_home, cc) | inr (gone, there) ↦ absurd (cc) ]

  -- A put of the loop: this server is as it was.
  module _ (key value new c' : String) (keys : List String) (w : n.World)
      (inv : Holds (holding key value new keys) w)
      (met : client new (n.self w).shard_clients ≡ returns c') where
    after_put : n.World
    after_put = (n.shard_put c' (relocation key value) w).0

    met' : lookup new clients ≡ some c'
    met' = client-lookup new c' clients (rw (← inv.steady.same_clients) met)

    away : c' ≢ shard_target (n.self w).flags.shard (n.self w).flags.shard_port
    away =
        rw inv.steady.same_flags
          (elsewhere r p h n own remote quiet flags clients dialled new c' met' inv.locals.1)

    same-put : n.self after_put ≡ n.self w
    unfolding after_put
    same-put = remote.put-away c' (relocation key value) w inv.steady.fit away

    here-put : here after_put ≡ here w
    here-put = ap (λ (s : Server r h). value_at r k s.process) same-put

    Steady-put : Steady after_put
    unfolding after_put
    Steady-put =
        IsSteady-self r p h n own remote quiet flags clients dialled w after_put same-put
          (remote.fit-put c' (relocation key value) w inv.steady.fit away) inv.steady

    Safe-put : Safe after_put
    unfolding after_put
    Safe-put = elim (String-cases k key) [
      | inl e ↦ inl (here-put ∙ (inv.locals.2 e).0)
      | inr ne ↦
          IsSafe-same r p h n own remote quiet flags clients dialled new_ring k v dest c destined
            connected w after_put here-put
            (remote.put-others c' c k (relocation key value) w inv.steady.fit away ne) inv.safe
    ]

    -- The client of the loop's key is that of its destination.
    same-client : k ≡ key → c' ≡ c
    same-client e = cc (inv.locals.0, ap (located h new_ring) e, destined, met', connected)

    sent-put :
        (n.shard_put c' (relocation key value) w).1 ≡ ok tt
        → k ≡ key
        → (here after_put ≡ some v) × (remote.held after_put c k ≡ some v)
    unfolding after_put
    sent-put answer e = (
      here-put ∙ (inv.locals.2 e).0,
      cc (
        remote.put-stores c' (relocation key value) w inv.steady.fit away answer,
        same-client e,
        e,
        (inv.locals.2 e).1,
      ),
    )

  Inv-loop :
      (w w' : n.World) (pc pc' : Pc)
      → LoopStep r p h n new_ring w pc pc' w'
      → Holds pc w
      → Holds pc' w'
  unfolding after_put
  Inv-loop w w' pc pc' (skip target) inv = record {
    steady = inv.steady;
    safe = inv.safe;
    locals = tt;
  }
  Inv-loop w w' pc pc' (missing target gone) inv = record {
    steady = inv.steady;
    safe = inv.safe;
    locals = tt;
  }
  Inv-loop w w' pc pc' (read {key} {new} {value} target got) inv = record {
    steady = inv.steady;
    safe = inv.safe;
    locals = (
      target.at_new,
      subst (λ (f : Flags). new ≢ f.shard) inv.steady.same_flags
          (moves_away target.old new (n.self w).flags.shard target.test),
      λ e. read-v w value inv.safe (rw (← e) at got),
    );
  }
  Inv-loop w w' pc pc' (refused {key} {value} {new} {c = c'} {keys} met answered) inv = record {
    steady = Steady-put key value new c' keys w inv met;
    safe = Safe-put key value new c' keys w inv met;
    locals = tt;
  }
  Inv-loop w w' pc pc' (accepted {key} {value} {new} {c = c'} {keys} met answered) inv = record {
    steady = Steady-put key value new c' keys w inv met;
    safe = Safe-put key value new c' keys w inv met;
    locals = sent-put key value new c' keys w inv met answered;
  }
  Inv-loop w w' pc pc' (purged {key} {keys} {t} ran) inv =
      let touched = delete-Purged r p quiet key (process r p h n w) t inv.steady.shared ran in
      elim (String-cases k key) [
        | inr ne ↦
            let j =
              Inv-after r p h n own remote quiet flags clients dialled new_ring k v dest c destined
                connected key none w t touched ne (scanning [])
                (record { steady = inv.steady; safe = inv.safe; locals = tt }) in
            record { steady = j.steady; safe = j.safe; locals = tt }
        | inl e ↦ record {
          steady =
              IsSteady-with_process r p h n own remote quiet flags clients dialled w t.0
                touched.shared inv.steady;
          safe = elim touched.reached_or_kept [
            | inl gone ↦ inr (
              here-with_process r p h n own remote quiet flags clients dialled new_ring k v dest c
                    destined connected t.0 w
                  ∙ cc (gone, e),
              held-with_process r p h n own remote quiet flags clients dialled new_ring k v dest c
                    destined connected t.0 w
                  ∙ (inv.locals e).1,
            )
            | inr kept ↦ inl (
                here-with_process r p h n own remote quiet flags clients dialled new_ring k v dest c
                  destined connected t.0 w
                ∙ cc (kept, e, (inv.locals e).0))
          ];
          locals = tt;
        }
      ]

  pub Reach-Inv :
      {s t : System r p h n new_ring}
      → Reach r p h n new_ring (λ j. k ≢ j) s t
      → Holds s.pc s.world
      → Holds t.pc t.world
  Reach-Inv start inv = inv
  Reach-Inv (loop reached step) inv = Inv-loop _ _ _ _ step (Reach-Inv reached inv)
  Reach-Inv (writes reached step) inv =
      Inv-client r p h n own remote quiet flags clients dialled new_ring k v dest c destined
        connected _ _ _ step (Reach-Inv reached inv)

  -- With no other writer on the Raft log than this server, and shards that store what they
  -- acknowledge: however the steps of the loop and clients' writes of other keys follow one another,
  -- and however they fail, a value that this shard had, or that had arrived at its destination, is
  -- still here or is stored at its destination.
  pub Reach-IsSafe :
      (keys : List String) (w : n.World) (t : System r p h n new_ring)
      → Steady w
      → Safe w
      → Reach r p h n new_ring (λ j. k ≢ j) (record { pc = scanning keys; world = w }) t
      → Safe t.world
  Reach-IsSafe keys w t steady safe reached =
      (Reach-Inv reached (record { steady = steady; safe = safe; locals = tt })).safe
