-- ===== src/Server/Network/Sending.antt =====
-- The put in a round of the loop of `RedistributeKeys` of cmd/shard/shard.go, and what follows it.
use mathlib.Core.List.{Memᴰ}
use sharded_kvs.Prelude.{
  String, ◌≡◌, ◌≢◌, sym, ◌∙◌, subst, ◌⊎◌, inl, inr, Option, none, some, Error, Result, ok, returns,
  ◌>>=◌, String-cases,
}
use sharded_kvs.Protos.{Proto}
use sharded_kvs.Raft.{Raft}
use sharded_kvs.Kvstore.Ops.{Process, set}
use sharded_kvs.Kvstore.Reads.{Quiet, value_at}
use sharded_kvs.Kvstore.Total.{set-returns}
use sharded_kvs.Server.{Hashing, client}
use sharded_kvs.Server.Redistribute.{relocation, purge}
use sharded_kvs.Server.Finishing.{lookup-client}
use sharded_kvs.Server.ShardRpc.{answer_write, shard_put}
use sharded_kvs.Server.Network.{Deployment, network, process_at, call}
use sharded_kvs.Server.Network.Layout.{Layout, address, contents}
use sharded_kvs.Server.Network.Written.{Written, put-Written}
use sharded_kvs.Server.Network.Leading.{IsSteadfast, Leads, Leads-set, IsReliable, fine-set}
use sharded_kvs.Server.Network.Effects.{value-here, value-away, value-other}
use sharded_kvs.Server.Network.Rescaling.{Prepared, Place, stays, waits_here, moved, addresses}
use sharded_kvs.Server.Network.Rescaling.{Arrived}
use sharded_kvs.Server.Network.Rounds.{Round, Prepared-Written, Place-other, answer_fine}
use sharded_kvs.Server.Network.Purging.{purged}

module _ (r : Raft) (p : Proto) (h : Hashing) (quiet : Quiet r) (steadfast : IsSteadfast r p)
    (old new : Layout h) (same_port : new.port ≡ old.port) (f : String → Option String) where
  module _ (d : Deployment r h) (prepared : Prepared r h old new d)
      (places : (j : String) → Place r h old new f d j) (m key : String)
      (there : Memᴰ m old.members) where
    -- The key is at this shard, and goes to another one.
    module _ (at_home : m ≡ old.home key) (ne : old.home key ≢ new.home key) (value : String)
        (got : contents old d key ≡ some value) where
      dest : String
      dest = address new (new.home key)

      sent : Deployment r h × Result (Unit {0})
      sent = call r p h dest d (shard_put r p h (process_at r p h dest) (relocation key value) d)

      local :
          (t : Process r × Option Error) × (set r p key value (d.servers dest).process ≡ returns t)
      unfolding dest
      local =
          set-returns r p (d.servers dest).process
            (prepared.targets (new.home key) (new.home-member key)).works.shared key value

      w : Written r h dest key (some value) d local.0 sent
      unfolding dest sent
      w =
          put-Written r p h quiet dest d
            (prepared.targets (new.home key) (new.home-member key)).works.shared
            (relocation key value) local.0 local.1

      leads : Leads r p steadfast local.0
      unfolding dest
      leads =
          Leads-set r p steadfast key value (d.servers dest).process local.0
            (prepared.targets (new.home key) (new.home-member key)).works.leads local.1

      -- What the key's shards have after the put.
      near : contents old sent.0 key ≡ contents old d key
      unfolding dest
      near =
          value-away r p h steadfast dest key (some value) d local.0 sent leads w
            (address old (old.home key)) key (λ e. addresses r h old new key same_port ne (sym e))

      far : contents new sent.0 key ≡ value_at r key w.process
      unfolding dest
      far = value-here r p h steadfast dest key (some value) d local.0 sent leads w key

      others : (j : String) → j ≢ key → contents new sent.0 j ≡ contents new d j
      others j other =
          value-other r p h steadfast dest key (some value) d local.0 sent leads w _ j other

      wanted : f key ≡ some value
      wanted = elim (places key) [
        | stays e q ↦ absurd (ne e)
        | waits_here _ q n ↦ sym q ∙ got
        | moved _ gone x ↦ cc (got, gone)
      ]

      at_new : (contents new d key ≡ none) ⊎ (contents new d key ≡ f key)
      at_new = elim (places key) [
        | stays e q ↦ absurd (ne e)
        | waits_here _ q n ↦ n
        | moved _ gone x ↦ inr x
      ]

      -- The new shard has the value, or what it had.
      arrived_or_kept :
          (contents new sent.0 key ≡ f key) ⊎ (contents new sent.0 key ≡ contents new d key)
      unfolding dest
      arrived_or_kept = elim w.touched.reached_or_kept [
        | inl reached ↦ inl (far ∙ reached ∙ sym wanted)
        | inr kept ↦ inr (far ∙ kept)
      ]

      Place-sent : (j : String) → Place r h old new f sent.0 j
      Place-sent j = elim (String-cases j key) [
        | inr other ↦
            Place-other r p h quiet steadfast old new same_port f dest key (some value) d local.0
              sent leads w j other (places j)
        | inl e ↦ subst (Place r h old new f sent.0) (sym e) (
            waits_here ne (near ∙ got ∙ sym wanted) (elim arrived_or_kept [
              | inl x ↦ inr x
              | inr kept ↦ elim at_new [ inl x ↦ inl (kept ∙ x) | inr x ↦ inr (kept ∙ x) ]
            ]))
      ]

      Arrived-sent : (j : String) → Arrived r h old new f d j → Arrived r h old new f sent.0 j
      Arrived-sent j was = elim (String-cases j key) [
        | inr other ↦ (
          others j other ∙ was.0,
          λ away.
              value-other r p h steadfast dest key (some value) d local.0 sent leads w _ j other
              ∙ was.1 away,
        )
        | inl e ↦
            let was' = subst (Arrived r h old new f d) e was in
            subst (Arrived r h old new f sent.0) (sym e) (
              elim arrived_or_kept [ inl x ↦ x | inr kept ↦ kept ∙ was'.0 ],
              λ away. near ∙ was'.1 away,
            )
      ]

      fine_sent : IsReliable r p f → sent.1 ≡ ok tt
      unfolding dest sent local shard_put answer_write
      fine_sent reliable =
          let works = (prepared.targets (new.home key) (new.home-member key)).works in
          let fine =
            fine-set r p f reliable key value (d.servers dest).process local.0 works.leads wanted
              local.1 in
          rw (works.runs, local.1, shard_put)
            (answer_fine r p h quiet steadfast old new same_port f dest d local.0 fine)

      pub send-Round : Round r p h quiet steadfast old new same_port f d m key (
          client (new.home key) (d.servers (address old m)).shard_clients >>= λ c.
          purge r p h
            (network r p h (address old m))
            key
            ((network r p h (address old m)).shard_put c (relocation key value) d))
      unfolding dest sent
      send-Round =
          let found =
            lookup-client (new.home key) dest (d.servers (address old m)).shard_clients
              ((prepared.sources m there).connected (new.home key) (new.home-member key)) in
          rw found (
            purged r p h quiet steadfast old new same_port f d prepared places m key there at_home
              ne sent.0
              (Prepared-Written r p h quiet steadfast old new same_port f dest key (some value) d
                local.0 sent leads w prepared)
              Place-sent Arrived-sent (near ∙ got ∙ sym wanted) value wanted sent.1
              (λ fine. far ∙ w.touched.reached (w.fine fine) ∙ sym wanted) fine_sent)
