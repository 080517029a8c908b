-- ===== src/Server/Connected.antt =====
-- What `PopulateShardClients` of cmd/shard/shard.go leaves behind.
use sharded_kvs.Prelude.{
  ℕ, zero, suc, String, ◌≡◌, refl, ◌∙◌, ap, sym, subst, List, [], ◌∷◌, All, inl, inr, Bool-cases,
  Option-cases, String-cases, arith, none, some, lookup, insert, lookup-insert, eq_iff, eq_refl,
  returns, >>=-eq-returns, returns-injective,
}
use sharded_kvs.Raft.{Raft}
use sharded_kvs.Server.{Hashing, Server, Net, KvstoreShard}
use sharded_kvs.Server.Clients.{shard_target, dial_loop, populate_shard_clients}
use sharded_kvs.Server.Laws.{OwnState}
use sharded_kvs.Server.Steady.{Dialled}

module _ (r : Raft) (h : Hashing) (n : Net (Server r h)) (own : OwnState n) where
  -- A shard that has a client.
  abbrev pub HasClient : n.World → KvstoreShard → Type 0
  HasClient w s = (c : String) × (lookup s.name (n.self w).shard_clients ≡ some c)

  -- Clients are only added, each at its shard's address, and nothing else of the server changes.
  pub record Extended (w w' : n.World) : Type 0 where
    pub kept :
        (name c : String)
        → lookup name (n.self w).shard_clients ≡ some c
        → lookup name (n.self w').shard_clients ≡ some c
    pub dialled :
        Dialled (n.self w).shard_clients (n.self w).flags.shard_port
        → Dialled (n.self w').shard_clients (n.self w').flags.shard_port
    pub added :
        (name c : String)
        → lookup name (n.self w).shard_clients ≡ none
        → lookup name (n.self w').shard_clients ≡ some c
        → c ≡ shard_target name (n.self w).flags.shard_port
    pub only_clients : n.self w' ≡ record (n.self w) { shard_clients = (n.self w').shard_clients }

  Extended-refl : (w : n.World) → Extended w w
  Extended-refl w = record {
    kept = λ name c e. e;
    dialled = λ d. d;
    added = λ name c missing met. absurd (cc (missing, met));
    only_clients = refl;
  }

  Extended-port :
      (w w' : n.World) → Extended w w' → (n.self w').flags.shard_port ≡ (n.self w).flags.shard_port
  Extended-port w w' a = ap (λ (s : Server r h). s.flags.shard_port) a.only_clients

  Extended-trans : (u v w : n.World) → Extended u v → Extended v w → Extended u w
  Extended-trans u v w a b = record {
    kept = λ name c e. b.kept name c (a.kept name c e);
    dialled = λ d. b.dialled (a.dialled d);
    added = λ name c missing met. elim (Option-cases (lookup name (n.self v).shard_clients)) [
      | inl later ↦ b.added name c later met ∙ ap (shard_target name) (Extended-port u v a)
      | inr (d, first) ↦
          let same : c ≡ d = cc (met, b.kept name d first) in same ∙ a.added name d missing first
    ];
    only_clients =
        b.only_clients
        ∙ ap (λ (s : Server r h). record s { shard_clients = (n.self w).shard_clients })
            a.only_clients;
  }

  self-dial_loop :
      (fuel : ℕ) (target : String) (w w' : n.World)
      → dial_loop r h n fuel target w ≡ returns w'
      → n.self w' ≡ n.self w
  unfolding dial_loop
  self-dial_loop zero target w w' q = cc
  self-dial_loop (suc fuel) target w w' q = elim (Bool-cases (n.dial target w).1) [
    | inl yes_it_did ↦
        ap n.self (sym (returns-injective _ w' (rw yes_it_did at q))) ∙ own.self-dial target w
    | inr refused ↦ self-dial_loop fuel target _ w' (rw refused at q) ∙ own.self-dial target w
  ]

  abbrev with_client : String → n.World → n.World
  with_client name w =
      n.with_self
        (record (n.self w) {
          shard_clients =
              insert name (shard_target name (n.self w).flags.shard_port) (n.self w).shard_clients;
        })
        w

  clients-with_client :
      (name : String) (w : n.World)
      → (n.self (with_client name w)).shard_clients
        ≡ insert name (shard_target name (n.self w).flags.shard_port) (n.self w).shard_clients
  clients-with_client name w = ap (λ (s : Server r h). s.shard_clients) (own.self-with_self _ w)

  Dialled-with_client :
      (name : String) (w : n.World)
      → Dialled (n.self w).shard_clients (n.self w).flags.shard_port
      → Dialled
          (n.self (with_client name w)).shard_clients
          (n.self (with_client name w)).flags.shard_port
  Dialled-with_client name w d other c e =
      let e' = rw (clients-with_client name w, lookup-insert name other) at e in
      let same_flags : (n.self (with_client name w)).flags ≡ (n.self w).flags =
        ap (λ (s : Server r h). s.flags) (own.self-with_self _ w) in
      rw same_flags (elim (String-cases name other) [
        | inl same ↦ cc (rw (same, eq_refl other) at e')
        | inr differs ↦ d other c (ground (arith, eq_iff name other))
      ])

  Extended-with_client :
      (name : String) (w : n.World)
      → lookup name (n.self w).shard_clients ≡ none
      → Extended w (with_client name w)
  Extended-with_client name w missing = record {
    kept = λ other c e. rw (clients-with_client name w) (
        lookup-insert name other _ _ ∙ elim (String-cases name other) [
          | inl same ↦ absurd (cc (same, missing, e))
          | inr differs ↦ ground (arith, eq_iff name other)
        ]);
    dialled = Dialled-with_client name w;
    added = λ other c absent met.
        let met' = rw (clients-with_client name w, lookup-insert name other) at met in
        elim (String-cases name other) [
          | inl same ↦ cc (rw (same, eq_refl other) at met')
          | inr differs ↦ absurd (
              let old : lookup other (n.self w).shard_clients ≡ some c =
                ground (arith, eq_iff name other) in
              cc (old, absent))
        ];
    only_clients =
        own.self-with_self _ w
        ∙ ap (λ clients. record (n.self w) { shard_clients = clients })
            (sym (clients-with_client name w));
  }

  Extended-self : (w w' : n.World) → n.self w' ≡ n.self w → Extended w w'
  Extended-self w w' e = record {
    kept = λ name c met. rw e met;
    dialled = λ d. rw e d;
    added = λ name c missing met. absurd (cc (rw e at met, missing));
    only_clients =
        e
        ∙ ap (λ clients. record (n.self w) { shard_clients = clients })
            (sym (ap (λ (s : Server r h). s.shard_clients) e));
  }

  -- If it returns, every shard of the list has a client, the clients that were there are kept, each
  -- new one is at its shard's address, and of the server's own variables only the clients of shards
  -- are others than before.
  pub populate-connects :
      (fuel : ℕ) (shards : List KvstoreShard) (w w' : n.World)
      → populate_shard_clients r h n fuel shards w ≡ returns w'
      → Extended w w' × All (HasClient w') shards
  unfolding populate_shard_clients
  populate-connects fuel [] w w' q =
      (subst (Extended w) (returns-injective w w' q) (Extended-refl w), tt)
  populate-connects fuel (s ∷ shards) w w' q =
      elim (Option-cases (lookup s.name (n.self w).shard_clients)) [
        | inr (c, met) ↦
            let (k, rest) =
              populate-connects fuel shards w w' (rw (met, populate_shard_clients) at q) in
            (k, ((c, k.kept s.name c met), rest))
        | inl missing ↦
            let (v, dialled, q') =
              >>=-eq-returns
                (dial_loop r h n fuel (shard_target s.name (n.self w).flags.shard_port) w) _
                (rw (missing, populate_shard_clients) at q) in
            let same = self-dial_loop fuel _ w v dialled in
            let q'' =
              subst
                (λ (x : Server r h).
                  populate_shard_clients r h n fuel shards (
                    n.with_self
                      (record (n.self v) {
                        shard_clients =
                            insert s.name (shard_target s.name x.flags.shard_port)
                              (n.self v).shard_clients;
                      })
                      v)
                  ≡ returns w')
                (sym same) q' in
            let (k, rest) = populate-connects fuel shards (with_client s.name v) w' q'' in
            let added = Extended-with_client s.name v (rw same missing) in
            (
              Extended-trans w v w' (Extended-self w v same) (Extended-trans v _ w' added k),
              (
                (
                  shard_target s.name (n.self v).flags.shard_port,
                  k.kept s.name _ (
                      rw (clients-with_client s.name v)
                        (lookup-insert s.name s.name _ _ ∙ rw (eq_refl s.name) refl)),
                ),
                rest,
              ),
            )
      ]
