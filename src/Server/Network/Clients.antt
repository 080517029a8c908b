-- ===== src/Server/Network/Clients.antt =====
-- The requests of clients to a deployment of cmd/shard/shard.go that is ready for them: what each
-- one does to the deployment, whichever shard it is made at.
use mathlib.Core.List.{Memᴰ}
use mathlib.Core.Path.{fun_ext}
use sharded_kvs.Prelude.{
  String, ◌≡◌, ◌≢◌, refl, sym, ◌∙◌, ap, inl, inr, false, Option, none, some, Error, Result, returns,
  Outcome, lookup, ◌==◌, String-cases, eq_iff, eq_refl, arith,
}
use sharded_kvs.Protos.{Proto, InternalPutRequest, PutRequest}
use sharded_kvs.Raft.{Raft}
use sharded_kvs.Kvstore.Ops.{Process}
use sharded_kvs.Kvstore.Reads.{Quiet, value_at, answer, get-value_at}
use sharded_kvs.Kvstore.Total.{set-returns, delete-returns}
use sharded_kvs.Server.{Hashing, Server, located, client}
use sharded_kvs.Server.Routing.{owner, kv_get, kv_put, kv_delete}
use sharded_kvs.Server.ShardRpc.{shard_get, shard_put, shard_delete}
use sharded_kvs.Server.Network.{Deployment, network, process_at, call}
use sharded_kvs.Server.Network.Layout.{Layout, address, IsReady, contents, updated, Wrote}
use sharded_kvs.Server.Network.Effects.{Works-Written, unchanged, value-here, value-other}
use sharded_kvs.Server.Network.Written.{Written, put-Written, delete-Written}
use sharded_kvs.Server.Network.Leading.{IsSteadfast, Leads, Leads-set, Leads-delete}

module _ (r : Raft) (p : Proto) (h : Hashing) (quiet : Quiet r) (steadfast : IsSteadfast r p)
    (l : Layout h) (d : Deployment r h) (ready : IsReady r h l d) where
  owner-home :
      (m key : String)
      → Memᴰ m l.members
      → owner r h (network r p h (address l m)) key d ≡ returns (address l (l.home key))
  unfolding owner located client
  owner-home m key there =
      rw
        (
          (ready m there).same_ring,
          located,
          l.located key,
          client,
          (ready m there).connected (l.home key) (l.home-member key),
        )
        refl

  pub get-contents :
      (m key : String)
      → Memᴰ m l.members
      → kv_get r h (network r p h (address l m)) key d ≡ returns (d, answer (contents l d key))
  unfolding kv_get shard_get
  get-contents m key there =
      rw
        (
          owner-home m key there,
          (ready (l.home key) (l.home-member key)).works.runs,
          get-value_at r p key (d.servers (address l (l.home key))).process,
        )
        refl

  -- What a write leaves behind at the shard of its key.
  module _ (key : String) (new : Option String) (t : Process r × Option Error)
      (o : Deployment r h × Result (Unit {0})) (leads : Leads r p steadfast t)
      (w : Written r h (address l (l.home key)) key new d t o) where
    IsReady-written : IsReady r h l o.0
    IsReady-written m there =
        let old = ready m there in
        let same = unchanged r p h steadfast _ key new d t o leads w (address l m) in
        record {
          works = Works-Written r p h steadfast _ key new d t o leads w (address l m) old.works;
          same_ring = ap (λ (s : Server r h). s.ring) same ∙ old.same_ring;
          connected = λ m' there'.
              ap (λ (s : Server r h). lookup m' s.shard_clients) same ∙ old.connected m' there';
        }

    contents-others : (j : String) → j ≢ key → contents l o.0 j ≡ contents l d j
    contents-others j ne = value-other r p h steadfast _ key new d t o leads w _ j ne

    contents-here : contents l o.0 key ≡ value_at r key w.process
    contents-here = value-here r p h steadfast _ key new d t o leads w key

    updated-contents :
        value_at r key w.process ≡ new → contents l o.0 ≡ updated key new (contents l d)
    updated-contents q = fun_ext (λ j. elim (String-cases j key) [
      | inl e ↦ ap (contents l o.0) e ∙ contents-here ∙ q ∙ sym (rw (e, eq_refl key) refl)
      | inr ne ↦
          let other : key == j ≡ false = ground (arith, eq_iff key j) in
          contents-others j ne ∙ rw other refl
    ])

    kept-contents :
        value_at r key w.process ≡ value_at r key (d.servers (address l (l.home key))).process
        → contents l o.0 ≡ contents l d
    kept-contents q = fun_ext (λ j. elim (String-cases j key) [
      | inl e ↦ ap (contents l o.0) e ∙ contents-here ∙ q ∙ ap (contents l d) (sym e)
      | inr ne ↦ contents-others j ne
    ])

    Wrote-contents : Wrote key new (contents l d) (contents l o.0) o.1
    Wrote-contents = record {
      changed_or_kept = elim w.touched.reached_or_kept [
        | inl reached ↦ inl (updated-contents reached)
        | inr kept ↦ inr (kept-contents kept)
      ];
      changed = λ fine. updated-contents (w.touched.reached (w.fine fine));
    }

  -- A request of a client that returns with the result `res`, the deployment ready for the next.
  pub record Done (key : String) (new : Option String)
      (o : Outcome (Deployment r h × Result (Unit {0}))) : Type 0 where
    pub after : Deployment r h
    pub res : Result (Unit {0})
    pub ran : o ≡ returns (after, res)
    pub ready_again : IsReady r h l after
    pub wrote : Wrote key new (contents l d) (contents l after) res
    pub local : Process r × Option Error
    pub leads : Leads r p steadfast local
    pub written : Written r h (address l (l.home key)) key new d local (after, res)

  pub put-Done :
      (m : String) (req : PutRequest)
      → Memᴰ m l.members
      → Done req.key (some req.value) (kv_put r h (network r p h (address l m)) req d)
  unfolding kv_put
  put-Done m req there =
      let c = address l (l.home req.key) in
      let old = ready (l.home req.key) (l.home-member req.key) in
      let sent : InternalPutRequest = record {
        key = req.key;
        value = req.value;
        is_redistribution = false;
      } in
      let (t, ran) = set-returns r p (d.servers c).process old.works.shared req.key req.value in
      let w = put-Written r p h quiet c d old.works.shared sent t ran in
      let leads =
        Leads-set r p steadfast req.key req.value (d.servers c).process t old.works.leads ran in
      let o = call r p h c d (shard_put r p h (process_at r p h c) sent d) in
      record {
        after = o.0;
        res = o.1;
        ran = rw (owner-home m req.key there) refl;
        ready_again = IsReady-written req.key (some req.value) t o leads w;
        wrote = Wrote-contents req.key (some req.value) t o leads w;
        local = t;
        leads = leads;
        written = w;
      }

  pub delete-Done :
      (m key : String)
      → Memᴰ m l.members
      → Done key none (kv_delete r h (network r p h (address l m)) key d)
  unfolding kv_delete
  delete-Done m key there =
      let c = address l (l.home key) in
      let old = ready (l.home key) (l.home-member key) in
      let (t, ran) = delete-returns r p (d.servers c).process old.works.shared key in
      let w = delete-Written r p h quiet c d old.works.shared key t ran in
      let leads = Leads-delete r p steadfast key (d.servers c).process t old.works.leads ran in
      let o = call r p h c d (shard_delete r p h (process_at r p h c) key d) in
      record {
        after = o.0;
        res = o.1;
        ran = rw (owner-home m key there) refl;
        ready_again = IsReady-written key none t o leads w;
        wrote = Wrote-contents key none t o leads w;
        local = t;
        leads = leads;
        written = w;
      }
