-- ===== src/Server/Network/Moving.antt =====
-- A round of the loop of `RedistributeKeys` of cmd/shard/shard.go at one shard of a deployment.
use mathlib.Core.List.{Memᴰ}
use sharded_kvs.Prelude.{
  false, true, String, ◌≡◌, ◌≢◌, refl, sym, ◌∙◌, ap, inl, inr, Option, none, some, Error, err,
  returns, ◌==◌, not, ◌&&◌, Bool-cases, Result-cases, eq_iff, arith,
}
use sharded_kvs.Protos.{Proto}
use sharded_kvs.Raft.{Raft}
use sharded_kvs.Kvstore.Ops.{get}
use sharded_kvs.Kvstore.Reads.{Quiet, value_at, answer, get-value_at}
use sharded_kvs.Server.{Hashing, located}
use sharded_kvs.Server.Redistribute.{send_key, move_key}
use sharded_kvs.Server.Steady.{answer-ok}
use sharded_kvs.Server.Network.{Deployment, network}
use sharded_kvs.Server.Network.Layout.{Layout, address, contents}
use sharded_kvs.Server.Network.Leading.{IsSteadfast}
use sharded_kvs.Server.Network.Rescaling.{Prepared, Place, stays, waits_here, moved}
use sharded_kvs.Server.Clients.{shard_target}
use sharded_kvs.Server.Network.Rounds.{Round}
use sharded_kvs.Server.Network.Purging.{skipped}
use sharded_kvs.Server.Network.Sending.{send-Round}

answer-err : (o : Option String) (e : Error) → answer o ≡ err e → o ≡ none
answer-err none e h = refl
answer-err (some u) e h = cc (h)

-- The test of a round.
stays_home : (a b shard : String) → (not (a == b) && a == shard) ≡ false → shard ≡ a → a ≡ b
stays_home a b shard q e = ground (arith, eq_iff a b, eq_iff a shard)

goes_away : (a b shard : String) → (not (a == b) && a == shard) ≡ true → (a ≢ b) × (a ≡ shard)
goes_away a b shard q = (λ e. ground (arith, eq_iff a b), ground (arith, eq_iff a shard))

module _ (r : Raft) (p : Proto) (h : Hashing) (quiet : Quiet r) (steadfast : IsSteadfast r p)
    (old new : Layout h) (same_port : new.port ≡ old.port) (f : String → Option String) where
  module _ (d : Deployment r h) (prepared : Prepared r h old new d)
      (places : (j : String) → Place r h old new f d j) (m key : String)
      (there : Memᴰ m old.members) where
    -- A key that does not move is where the new ring has it.
    at_new_home : old.home key ≡ new.home key → contents new d key ≡ f key
    at_new_home e = elim (places key) [
      | stays _ q ↦
          ap (λ (x : String). value_at r key (d.servers x).process)
            (ap (shard_target (new.home key)) same_port ∙ ap (address old) (sym e))
          ∙ q
      | waits_here ne q n ↦ absurd (ne e)
      | moved ne gone x ↦ absurd (ne e)
    ]

    -- Nor is there a value to send for one that is gone from its old shard.
    nothing_to_send : contents old d key ≡ none → contents new d key ≡ f key
    nothing_to_send gone = elim (places key) [
      | stays e q ↦ at_new_home e
      | waits_here ne q (inl x) ↦ x ∙ sym gone ∙ q
      | waits_here ne q (inr x) ↦ x
      | moved ne _ x ↦ x
    ]

    sent_away :
        m ≡ old.home key
        → old.home key ≢ new.home key
        → Round r p h quiet steadfast old new same_port f d m key (
            send_key r p h
              (network r p h (address old m))
              key
              (new.home key)
              (get r key (d.servers (address old m)).process)
              d)
    unfolding send_key
    sent_away at_home ne =
        let own = d.servers (address old m) in
        let same : contents old d key ≡ value_at r key own.process =
          ap (λ (x : String). value_at r key (d.servers (address old x)).process) (sym at_home) in
        elim (Result-cases (get r key own.process)) [
          | inl (value, got) ↦
              let v =
                answer-ok (value_at r key own.process) value
                  (sym (get-value_at r p key own.process) ∙ got) in
              rw (got, send_key)
                (send-Round r p h quiet steadfast old new same_port f d prepared places m key there
                  at_home ne value (same ∙ v))
          | inr (e, missing) ↦
              let v =
                answer-err (value_at r key own.process) e
                  (sym (get-value_at r p key own.process) ∙ missing) in
              rw (missing, send_key)
                (skipped r p h quiet steadfast old new same_port f d prepared places m key there
                  (returns d) refl (λ _. (nothing_to_send (same ∙ v), λ _. same ∙ v)))
        ]

    pub move_key-Round :
        Round r p h quiet steadfast old new same_port f d m key
          (move_key r p h (network r p h (address old m)) new.ring key d)
    unfolding move_key located send_key
    move_key-Round =
        let own = d.servers (address old m) in
        let s = prepared.sources m there in
        elim (Bool-cases (not (old.home key == new.home key) && old.home key == own.flags.shard)) [
          | inr stay ↦
              skipped r p h quiet steadfast old new same_port f d prepared places m key there _
                (rw (s.same_ring, located, old.located key, new.located key, stay) refl)
                (λ at_home.
                  let e = stays_home _ _ own.flags.shard stay (s.named ∙ at_home) in
                  (at_new_home e, λ ne. absurd (ne e)))
          | inl goes ↦
              let (ne, here) = goes_away (old.home key) (new.home key) own.flags.shard goes in
              rw (s.same_ring, located, old.located key, new.located key, goes)
                (sent_away (sym (here ∙ s.named)) ne)
        ]
