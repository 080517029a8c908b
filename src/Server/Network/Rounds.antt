-- ===== src/Server/Network/Rounds.antt =====
-- One round of the loop of `RedistributeKeys` of cmd/shard/shard.go in a deployment: what it does to
-- every shard.
use sharded_kvs.Prelude.{
  String, ◌≡◌, ◌≢◌, refl, ◌∙◌, ap, Option, none, some, Error, Result, ok, err, returns, Outcome,
  lookup,
}
use sharded_kvs.Protos.{Proto}
use sharded_kvs.Raft.{Raft}
use sharded_kvs.Kvstore.Ops.{Process}
use sharded_kvs.Kvstore.Reads.{Quiet}
use sharded_kvs.Server.{Hashing, Server}
use sharded_kvs.Server.ShardRpc.{answer_write}
use sharded_kvs.Server.Network.{Deployment, process_at, unreachable, answered}
use sharded_kvs.Server.Network.Layout.{Layout, address}
use sharded_kvs.Server.Network.Written.{Written}
use sharded_kvs.Server.Network.Leading.{IsSteadfast, Leads, IsReliable}
use sharded_kvs.Server.Network.Effects.{Works-Written, unchanged, value-other}
use sharded_kvs.Server.Steady.{Dialled}
use sharded_kvs.Prelude.{sym, subst}
use sharded_kvs.Server.Network.Rescaling.{Arrived, Prepared, Place, Place-same}

module _ (r : Raft) (p : Proto) (h : Hashing) (quiet : Quiet r) (steadfast : IsSteadfast r p)
    (old new : Layout h) (same_port : new.port ≡ old.port) (f : String → Option String) where
  -- Any write keeps the deployment prepared, and the places of the keys that it does not write.
  module _ (c key : String) (value : Option String) (d : Deployment r h)
      (t : Process r × Option Error) (o : Deployment r h × Result (Unit {0}))
      (leads : Leads r p steadfast t) (w : Written r h c key value d t o) where
    pub Prepared-Written : Prepared r h old new d → Prepared r h old new o.0
    Prepared-Written k = record {
      sources = λ m there.
          let s = k.sources m there in
          let same = unchanged r p h steadfast c key value d t o leads w (address old m) in
          record {
            works = Works-Written r p h steadfast c key value d t o leads w (address old m) s.works;
            same_ring = ap (λ (x : Server r h). x.ring) same ∙ s.same_ring;
            named = ap (λ (x : Server r h). x.flags.shard) same ∙ s.named;
            connected = λ m' there'.
                ap (λ (x : Server r h). lookup m' x.shard_clients) same ∙ s.connected m' there';
            dialled = λ m' there'.
                ap (λ (x : Server r h). lookup m' x.shard_clients) same ∙ s.dialled m' there';
          };
      targets = λ m there.
          let s = k.targets m there in
          let same = unchanged r p h steadfast c key value d t o leads w (address new m) in
          record {
            works = Works-Written r p h steadfast c key value d t o leads w (address new m) s.works;
            port = ap (λ (x : Server r h). x.flags.shard_port) same ∙ s.port;
            known = subst (λ (x : Server r h). Dialled x.shard_clients new.port) (sym same) s.known;
          };
    }

    pub Place-other : (j : String) → j ≢ key → Place r h old new f d j → Place r h old new f o.0 j
    Place-other j ne =
        Place-same r h old new f d o.0 j
          (value-other r p h steadfast c key value d t o leads w _ j ne)
          (value-other r p h steadfast c key value d t o leads w _ j ne)

  -- A local write with no error is answered so.
  pub answer_fine :
      (c : String) (d : Deployment r h) (t : Process r × Option Error)
      → t.1 ≡ none
      → (answered r p h c d
          (answer_write r p h (process_at r p h c) (λ target d'. (d', err unreachable)) t d)).1
        ≡ ok tt
  unfolding answer_write
  answer_fine c d (s, none) q = refl
  answer_fine c d (s, some e) q = cc (q)

  -- After a round for `key` at the shard `m` that started from `d`.
  pub record Round (d : Deployment r h) (m key : String) (o : Outcome (Deployment r h))
      : Type 0 where
    pub after : Deployment r h
    pub ran : o ≡ returns after
    pub prepared_still : Prepared r h old new after
    pub places_still : (j : String) → Place r h old new f after j
    pub arrived_still : (j : String) → Arrived r h old new f d j → Arrived r h old new f after j
    pub arrives : IsReliable r p f → m ≡ old.home key → Arrived r h old new f after key
