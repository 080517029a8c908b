-- ===== src/Server/Network/Remotes.antt =====
-- The network made of the program's own handlers meets what the proofs assume of a network.
use sharded_kvs.Prelude.{
  String, ◌≡◌, ◌≢◌, refl, sym, ◌∙◌, ap, subst, false, Option, none, some, Error, ok, returns,
  if◌then◌else◌, ◌==◌, eq_iff, eq_refl, arith, String-cases, inl, inr,
}
use mathlib.Core.Path.{fun_ext}
use sharded_kvs.Protos.{Proto, InternalPutRequest}
use sharded_kvs.Raft.{Raft}
use sharded_kvs.Kvstore.Ops.{Process, set}
use sharded_kvs.Kvstore.Reads.{Quiet, IsShared, value_at}
use sharded_kvs.Kvstore.Total.{set-returns}
use sharded_kvs.Server.{Hashing, Server}
use sharded_kvs.Server.Clients.{shard_target}
use sharded_kvs.Server.Laws.{OwnState, Remote}
use sharded_kvs.Server.Network.{Deployment, with_server, network}
use sharded_kvs.Server.Network.Written.{Written, put-Written}

module _ (r : Raft) (p : Proto) (h : Hashing) where
  pub servers-with_server :
      (c c' : String) (s : Server r h) (d : Deployment r h)
      → c' ≢ c
      → (with_server r p h c s d).servers c' ≡ d.servers c'
  servers-with_server c c' s d ne =
      let other : c == c' ≡ false = ground (arith, eq_iff c c') in rw other refl

  with_server-same :
      (c c' : String) (d : Deployment r h)
      → (with_server r p h c (d.servers c) d).servers c' ≡ d.servers c'
  with_server-same c c' d = elim (String-cases c c') [
    | inl e ↦ rw (e, eq_refl c') refl
    | inr ne ↦ servers-with_server c c' (d.servers c) d (λ e. ne (sym e))
  ]

  pub network-OwnState : (own : String) → OwnState (network r p h own)
  network-OwnState own = record {
    self-with_self = λ s d. rw eq_refl refl;
    with_self-self = λ d.
        ap (λ (f : String → Server r h). record d { servers = f })
          (fun_ext (λ c. with_server-same own c d));
    self-dial = λ target d. refl;
  }

  module _ (quiet : Quiet r) (own : String) where
    -- The process at `own` knows where it is, and the FSMs of the others share their maps.
    pub record Fit (d : Deployment r h) : Type 0 where
      pub at_home : shard_target (d.servers own).flags.shard (d.servers own).flags.shard_port ≡ own
      pub shared : (c : String) → c ≢ own → IsShared r (d.servers c).process

    -- The value of another shard.
    abbrev pub held : Deployment r h → String → String → Option String
    held d c k = if c == own then none else value_at r k (d.servers c).process

    held-away :
        (d : Deployment r h) (c k : String)
        → c ≢ own
        → held d c k ≡ value_at r k (d.servers c).process
    held-away d c k away =
        let other : c == own ≡ false = ground (arith, eq_iff c own) in rw other refl

    held-elsewhere :
        (d d' : Deployment r h) (c k : String)
        → (c ≢ own → d'.servers c ≡ d.servers c)
        → held d' c k ≡ held d c k
    held-elsewhere d d' c k same = elim (String-cases c own) [
      | inl e ↦ rw (e, eq_refl own) refl
      | inr away ↦
          held-away d' c k away
          ∙ ap (λ (s : Server r h). value_at r k s.process) (same away)
          ∙ sym (held-away d c k away)
    ]

    -- A put at another process.
    module _ (c : String) (req : InternalPutRequest) (d : Deployment r h) (fit : Fit d)
        (away : c ≢ own) where
      local :
          (t : Process r × Option Error) × (set r p req.key req.value (d.servers c).process
            ≡ returns t)
      local = set-returns r p (d.servers c).process (fit.shared c away) req.key req.value

      done :
          Written r h c req.key (some req.value) d local.0 ((network r p h own).shard_put c req d)
      done = put-Written r p h quiet c d (fit.shared c away) req local.0 local.1

      after : Deployment r h
      after = ((network r p h own).shard_put c req d).0

      servers-at : (c' : String) → c' ≢ c → after.servers c' ≡ d.servers c'
      unfolding after
      servers-at = done.elsewhere

      Fit-put : Fit after
      unfolding after
      Fit-put = record {
        at_home =
            subst (λ (s : Server r h). shard_target s.flags.shard s.flags.shard_port ≡ own)
              (sym (done.elsewhere own (λ e. away (sym e)))) fit.at_home;
        shared = λ c' ne. elim (String-cases c' c) [
          | inl e ↦
              subst (λ (s : Server r h). IsShared r s.process)
                (sym done.here ∙ ap after.servers (sym e)) done.touched.shared
          | inr other ↦
              subst (λ (s : Server r h). IsShared r s.process) (sym (done.elsewhere c' other))
                (fit.shared c' ne)
        ];
      }

      stores :
          ((network r p h own).shard_put c req d).1 ≡ ok tt → held after c req.key ≡ some req.value
      unfolding after
      stores fine =
          held-away after c req.key away
          ∙ ap (λ (s : Server r h). value_at r req.key s.process) done.here
          ∙ done.touched.reached (done.fine fine)

      others : (c' k : String) → k ≢ req.key → held after c' k ≡ held d c' k
      unfolding after
      others c' k ne = elim (String-cases c' c) [
        | inl e ↦
            subst (λ (x : String). held after x k ≡ held d x k) (sym e)
              (held-away after c k away
                ∙ ap (λ (s : Server r h). value_at r k s.process) done.here
                ∙ done.touched.others k ne
                ∙ sym (held-away d c k away))
        | inr other ↦ held-elsewhere d after c' k (λ far. done.elsewhere c' other)
      ]

    -- An address that is not that of this process's shard is not `own`.
    not_own :
        (c : String) (d : Deployment r h)
        → Fit d
        → c ≢ shard_target (d.servers own).flags.shard (d.servers own).flags.shard_port
        → c ≢ own
    not_own c d fit away e = away (e ∙ sym fit.at_home)

    pub network-Remote : Remote r h (network r p h own)
    unfolding after
    network-Remote = record {
      held = held;
      fit = Fit;
      fit-with_process = λ s d fit. record {
        at_home = rw eq_refl fit.at_home;
        shared = λ c ne.
            subst (λ (x : Server r h). IsShared r x.process)
              (sym (servers-with_server own c _ d ne)) (fit.shared c ne);
      };
      fit-put = λ c req d fit away. Fit-put c req d fit (not_own c d fit away);
      held-with_self = λ s d. fun_ext λ c. fun_ext λ k.
          held-elsewhere d (with_server r p h own s d) c k
            (λ away. servers-with_server own c s d away);
      put-stores = λ c req d fit away fine. stores c req d fit (not_own c d fit away) fine;
      put-others = λ c c' k req d fit away ne. others c req d fit (not_own c d fit away) c' k ne;
      put-away = λ c req d fit away.
          servers-at c req d fit (not_own c d fit away) own (λ e. not_own c d fit away (sym e));
    }
