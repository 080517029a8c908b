-- ===== src/Server/Asking.antt =====
-- How `JoinCluster` of cmd/shard/shard.go asks the replicas for the leader.
use mathlib.Core.List.{Memᴰ}
use sharded_kvs.Prelude.{
  ℕ, zero, suc, String, List, [], ◌∷◌, ok, ◌≡◌, ◌≢◌, refl, sym, ap, ◌∙◌, ◌⊎◌, Result-cases, subst,
  returns, >>=-eq-returns, returns-injective, ◌==◌, Bool-cases, inl, inr,
}
use sharded_kvs.Protos.{Proto}
use sharded_kvs.Raft.{Raft}
use sharded_kvs.Kvstore.Ops.{server_id}
use sharded_kvs.Server.{Hashing, Server, Net, client}
use sharded_kvs.Server.Startup.{ask_replicas, find_leader}

module _ (r : Raft) (p : Proto) (h : Hashing) (n : Net (Server r h)) where
  -- Whether a replica is reached over a connection.
  abbrev pub Reaches : String → String → n.World → Type 0
  Reaches replica c w =
      client (server_id replica (n.self w).flags.shard (n.self w).flags.raft_port)
        (n.self w).replica_clients
      ≡ returns c

  -- From one world to another by asking replicas of the list for the leader, one after another.
  pub data Asks (replicas : List String) : n.World → n.World → Type 0 where
    finished : {w : n.World} → Asks replicas w w
    asked :
        (s c : String) {w w' : n.World}
        → Memᴰ s replicas
        → Reaches s c w
        → Asks replicas (n.replica_leader c w).0 w'
        → Asks replicas w w'

  Asks-tail : (s : String) (l : List String) {w w' : n.World} → Asks l w w' → Asks (s ∷ l) w w'
  Asks-tail s l finished = finished
  Asks-tail s l (asked t c m e rest) = asked t c (Memᴰ.tail m) e (Asks-tail s l rest)

  Asks-trans : (l : List String) {u v w : n.World} → Asks l u v → Asks l v w → Asks l u w
  Asks-trans l finished later = later
  Asks-trans l (asked t c m e rest) later = asked t c m e (Asks-trans l rest later)

  -- A replica of the list that was asked, after others perhaps, from the world `w` on, and answered
  -- the name of the leader.
  pub record Answered (replicas : List String) (w : n.World) (l : String) : Type 0 where
    pub replica : String
    pub listed : Memᴰ replica replicas
    pub during : n.World
    pub since : Asks replicas w during
    pub connection : String
    pub reached : Reaches replica connection during
    pub answer : (n.replica_leader connection during).1 ≡ ok l

  -- The first of the list is asked, and then the others.
  Answered-tail :
      (s c : String) (l : List String) (w : n.World) (a : String)
      → Reaches s c w
      → Answered l (n.replica_leader c w).0 a
      → Answered (s ∷ l) w a
  Answered-tail s c l w a e x = record {
    replica = x.replica;
    listed = Memᴰ.tail x.listed;
    during = x.during;
    since = asked s c (Memᴰ.head refl) e (Asks-tail s l x.since);
    connection = x.connection;
    reached = x.reached;
    answer = x.answer;
  }

  Answered-later :
      (l : List String) (u v : n.World) (a : String) → Asks l u v → Answered l v a → Answered l u a
  Answered-later l u v a first x = record {
    replica = x.replica;
    listed = x.listed;
    during = x.during;
    since = Asks-trans l first x.since;
    connection = x.connection;
    reached = x.reached;
    answer = x.answer;
  }

  -- A pass over the replicas only asks them, and finds no name, or one that a replica answered.
  ask_replicas-Answered :
      (replicas : List String) (w w' : n.World) (l : String)
      → ask_replicas r p h n replicas w ≡ returns (w', l)
      → Asks replicas w w' × (l ≢ "" → Answered replicas w l)
  unfolding ask_replicas
  ask_replicas-Answered [] w w' l q =
      let same = returns-injective _ _ q in
      (
        subst (Asks [] w) (ap (λ (t : n.World × String). t.0) same) finished,
        λ known. absurd (known (ap (λ (t : n.World × String). t.1) (sym same))),
      )
  ask_replicas-Answered (s ∷ replicas) w w' l q =
      let (c, reached, q') =
        >>=-eq-returns
          (client (server_id s (n.self w).flags.shard (n.self w).flags.raft_port)
            (n.self w).replica_clients)
          _ q in
      let further : ask_replicas r p h n replicas (n.replica_leader c w).0 ≡ returns (w', l)
          → Asks (s ∷ replicas) w w' × (l ≢ "" → Answered (s ∷ replicas) w l) =
        λ later.
          let (asks, named) = ask_replicas-Answered replicas (n.replica_leader c w).0 w' l later in
          (
            asked s c (Memᴰ.head refl) reached (Asks-tail s replicas asks),
            λ known. Answered-tail s c replicas w l reached (named known),
          ) in
      elim (Result-cases (n.replica_leader c w).1) [
        | inr (e, failed) ↦ further (rw failed at q')
        | inl (a, told) ↦ elim (Bool-cases (a == "")) [
          | inl empty ↦ further (rw (told, empty) at q')
          | inr named ↦
              let same = returns-injective _ _ (rw (told, named) at q') in
              (
                asked s c (Memᴰ.head refl) reached (
                    subst (Asks (s ∷ replicas) (n.replica_leader c w).0)
                      (ap (λ (t : n.World × String). t.0) same) finished),
                λ known. record {
                  replica = s;
                  listed = Memᴰ.head refl;
                  during = w;
                  since = finished;
                  connection = c;
                  reached = reached;
                  answer = told ∙ ap (λ (t : n.World × String). ok t.1) same;
                },
              )
        ]
      ]

  -- The leader that is found is the one that was known, or a replica answered its name.
  pub find_leader-Answered :
      (fuel : ℕ) (replicas : List String) (found : String) (w w' : n.World) (l : String)
      → find_leader r p h n fuel replicas found w ≡ returns (w', l)
      → l ≢ ""
      → (l ≡ found) ⊎ Answered replicas w l
  unfolding find_leader
  find_leader-Answered zero replicas found w w' l q known = elim (Bool-cases (found == "")) [
    | inl unknown ↦ cc (rw unknown at q)
    | inr there ↦
        inl (ap (λ (t : n.World × String). t.1) (sym (returns-injective _ _ (rw there at q))))
  ]
  find_leader-Answered (suc fuel) replicas found w w' l q known = elim (Bool-cases (found == "")) [
    | inr there ↦
        inl (ap (λ (t : n.World × String). t.1) (sym (returns-injective _ _ (rw there at q))))
    | inl unknown ↦
        let (t, pass, later) =
          >>=-eq-returns (ask_replicas r p h n replicas w) _ (rw unknown at q) in
        let (asks, named) = ask_replicas-Answered replicas w t.0 t.1 pass in
        elim (find_leader-Answered fuel replicas t.1 t.0 w' l later known) [
          | inr answered ↦ inr (Answered-later replicas w t.0 l asks answered)
          | inl same ↦ inr (
              subst (λ (x : String). Answered replicas w x) (sym same)
                (named (λ e. known (same ∙ e))))
        ]
  ]
