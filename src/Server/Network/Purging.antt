-- ===== src/Server/Network/Purging.antt =====
-- The purge at the end of a round of the loop of `RedistributeKeys` of cmd/shard/shard.go.
use mathlib.Core.List.{Memᴰ}
use sharded_kvs.Prelude.{
  String, ◌≡◌, ◌≢◌, refl, sym, ◌∙◌, ap, subst, inl, inr, Option, none, Result, ok, err, returns,
  Outcome, String-cases,
}
use sharded_kvs.Protos.{Proto}
use sharded_kvs.Raft.{Raft}
use sharded_kvs.Kvstore.Reads.{Quiet, value_at}
use sharded_kvs.Kvstore.Total.{delete-returns}
use sharded_kvs.Kvstore.Purge.{delete-Purged}
use sharded_kvs.Server.{Hashing}
use sharded_kvs.Server.Redistribute.{purge}
use sharded_kvs.Server.Network.{Deployment, network, with_server, unreachable}
use sharded_kvs.Server.Network.Layout.{Layout, address, contents}
use sharded_kvs.Server.Network.Written.{Written, Written-stored}
use sharded_kvs.Server.Network.Leading.{IsSteadfast, Leads-delete, IsReliable}
use sharded_kvs.Server.Network.Effects.{value-away, value-other}
use sharded_kvs.Server.Network.Rescaling.{Prepared, Place, waits_here, moved, addresses}
use sharded_kvs.Prelude.{eq_refl, some}
use sharded_kvs.Server.Network.Rescaling.{Arrived}
use sharded_kvs.Server.Network.Leading.{fine-delete}
use sharded_kvs.Server.Network.Rounds.{Round, Prepared-Written, Place-other}

module _ (r : Raft) (p : Proto) (h : Hashing) (quiet : Quiet r) (steadfast : IsSteadfast r p)
    (old new : Layout h) (same_port : new.port ≡ old.port) (f : String → Option String) where
  module _ (d : Deployment r h) (prepared : Prepared r h old new d)
      (places : (j : String) → Place r h old new f d j) (m key : String)
      (there : Memᴰ m old.members) where
    pub skipped :
        (o : Outcome (Deployment r h))
        → o ≡ returns d
        → (m ≡ old.home key → Arrived r h old new f d key)
        → Round r p h quiet steadfast old new same_port f d m key o
    skipped o q at_new = record {
      after = d;
      ran = q;
      prepared_still = prepared;
      places_still = places;
      arrived_still = λ j arrived. arrived;
      arrives = λ reliable at_home. at_new at_home;
    }

    -- After the put: its key is still here. The new shard has its value if the put was a success.
    module _ (at_home : m ≡ old.home key) (ne : old.home key ≢ new.home key) (d' : Deployment r h)
        (prepared' : Prepared r h old new d') (places' : (j : String) → Place r h old new f d' j)
        (others' : (j : String) → Arrived r h old new f d j → Arrived r h old new f d' j)
        (here : contents old d' key ≡ f key) (value : String) (wanted : f key ≡ some value) where
      purge-Round :
          contents new d' key ≡ f key
          → Round r p h quiet steadfast old new same_port f d m key
              (purge r p h (network r p h (address old m)) key (d', ok tt))
      unfolding purge
      purge-Round arrived =
          let c = address old m in
          let works = (prepared'.sources m there).works in
          let (t, ran) = delete-returns r p (d'.servers c).process works.shared key in
          let o : Deployment r h × Result (Unit {0}) =
            (with_server r p h c (record (d'.servers c) { process = t.0 }) d', err unreachable) in
          let touched = delete-Purged r p quiet key (d'.servers c).process t works.shared ran in
          let w : Written r h c key none d' t o =
            Written-stored r p h c key none d' t (err unreachable) touched (λ q. cc (q)) in
          let leads = Leads-delete r p steadfast key (d'.servers c).process t works.leads ran in
          let far : contents new o.0 key ≡ f key =
            value-away r p h steadfast c key none d' t o leads w (address new (new.home key)) key
              (λ e. addresses r h old new key same_port ne (e ∙ ap (address old) at_home))
            ∙ arrived in
          let near : contents old o.0 key ≡ value_at r key t.0 =
            ap (λ (x : String). value_at r key (o.0.servers (address old x)).process) (sym at_home)
            ∙ rw (eq_refl c) refl in
          let same : value_at r key (d'.servers c).process ≡ contents old d' key =
            ap (λ (x : String). value_at r key (d'.servers (address old x)).process) at_home in
          record {
            after = o.0;
            ran = rw ran refl;
            prepared_still =
                Prepared-Written r p h quiet steadfast old new same_port f c key none d' t o leads w
                  prepared';
            places_still = λ j. elim (String-cases j key) [
              | inr other ↦
                  Place-other r p h quiet steadfast old new same_port f c key none d' t o leads w j
                    other (places' j)
              | inl e ↦ subst (Place r h old new f o.0) (sym e) (elim touched.reached_or_kept [
                | inl gone ↦ moved ne (near ∙ gone) far
                | inr kept ↦ waits_here ne (near ∙ kept ∙ same ∙ here) (inr far)
              ])
            ];
            arrived_still = λ j h'. elim (String-cases j key) [
              | inl e ↦ subst (Arrived r h old new f o.0) (sym e) (
                far,
                λ away. elim touched.reached_or_kept [
                  | inl gone ↦ near ∙ gone
                  | inr kept ↦
                      near
                      ∙ kept
                      ∙ same
                      ∙ (others' key (subst (Arrived r h old new f d) e h')).1 away
                ],
              )
              | inr other ↦ (
                value-other r p h steadfast c key none d' t o leads w _ j other ∙ (others' j h').0,
                λ away.
                    value-other r p h steadfast c key none d' t o leads w _ j other
                    ∙ (others' j h').1 away,
              )
            ];
            arrives = λ reliable e. (
              far,
              λ _.
                  near
                  ∙ touched.reached (
                      fine-delete r p f reliable key value (d'.servers c).process t works.leads
                        wanted ran),
            );
          }

      pub purged :
          (res : Result (Unit {0}))
          → (res ≡ ok tt → contents new d' key ≡ f key)
          → (IsReliable r p f → res ≡ ok tt)
          → Round r p h quiet steadfast old new same_port f d m key
              (purge r p h (network r p h (address old m)) key (d', res))
      unfolding purge
      purged (ok tt) arrived fine = purge-Round (arrived refl)
      purged (err e) arrived fine = record {
        after = d';
        ran = refl;
        prepared_still = prepared';
        places_still = places';
        arrived_still = others';
        arrives = λ reliable at_home'. cc (fine reliable);
      }
