-- ===== src/Server/Network/Reloading.antt =====
-- `ReloadConfig` of cmd/shard/shard.go at one shard of a deployment, once the configuration names the
-- new shards alone.
use mathlib.Core.Path.{fun_ext}
use sharded_kvs.Prelude.{
  ℕ, suc, String, ◌≡◌, refl, sym, ◌∙◌, ap, subst, inl, inr, true, List, [], ◌∷◌, All, GoMap, insert,
  lookup, returns, ◌==◌, eq_refl, Bool-cases, Option-cases,
}
use sharded_kvs.Protos.{Proto}
use sharded_kvs.Raft.{Raft}
use sharded_kvs.Server.{Hashing, Server, KvstoreShard}
use sharded_kvs.Server.Clients.{shard_target, dial_loop, populate_shard_clients}
use sharded_kvs.Server.Network.{Deployment, network, with_server}
use sharded_kvs.Server.Network.Remotes.{network-OwnState}

module _ (r : Raft) (p : Proto) (h : Hashing) (own : String) where
  abbrev pub with_clients : GoMap String → Deployment r h → Deployment r h
  with_clients clients d =
      with_server r p h own (record (d.servers own) { shard_clients = clients }) d

  pub servers-own :
      (s : Server r h) (d : Deployment r h) → (with_server r p h own s d).servers own ≡ s
  servers-own s d = rw (eq_refl own) refl

  with_server-twice :
      (s s' : Server r h) (d : Deployment r h)
      → with_server r p h own s (with_server r p h own s' d) ≡ with_server r p h own s d
  with_server-twice s s' d =
      ap (λ (f : String → Server r h). record d { servers = f })
        (fun_ext (λ c. elim (Bool-cases (own == c)) [ inl e ↦ rw e refl | inr e ↦ rw e refl ]))

  with_clients-twice :
      (a b : GoMap String) (d : Deployment r h)
      → with_clients a (with_clients b d) ≡ with_clients a d
  with_clients-twice a b d =
      ap
        (λ (s : Server r h).
          with_server r p h own (record s { shard_clients = a }) (with_clients b d))
        (servers-own _ d)
      ∙ with_server-twice _ _ d

  -- Every shard of a list can be dialled.
  abbrev pub Reachable : ℕ → Deployment r h → List KvstoreShard → Type 0
  Reachable port d = All (λ s. d.running (shard_target s.name port) ≡ true)

  -- Where every dial gives a connection, `PopulateShardClients` returns and changes the clients of its
  -- own process only.
  pub populate-returns :
      (fuel : ℕ) (shards : List KvstoreShard) (d : Deployment r h)
      → Reachable (d.servers own).flags.shard_port d shards
      → (clients : GoMap String) × (populate_shard_clients r h
            (network r p h own)
            (suc fuel)
            shards
            d
          ≡ returns (with_clients clients d))
  unfolding populate_shard_clients dial_loop
  populate-returns fuel [] d all = (
    (d.servers own).shard_clients,
    ap returns (sym ((network-OwnState r p h own).with_self-self d)),
  )
  populate-returns fuel (s ∷ shards) d (up, all) =
      elim (Option-cases (lookup s.name (d.servers own).shard_clients)) [
        | inr (c, met) ↦
            let (clients, ran) = populate-returns fuel shards d all in
            (clients, rw (met, populate_shard_clients) ran)
        | inl missing ↦
            let added =
              insert s.name (shard_target s.name (d.servers own).flags.shard_port)
                (d.servers own).shard_clients in
            let (clients, ran) = populate-returns fuel shards (with_clients added d) (
              subst (λ (x : Server r h). Reachable x.flags.shard_port d shards)
                (sym (servers-own (record (d.servers own) { shard_clients = added }) d)) all) in
            (
              clients,
              rw (missing, populate_shard_clients, up, dial_loop)
                  (ran ∙ ap returns (with_clients-twice clients added d)),
            )
      ]
