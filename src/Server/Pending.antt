-- ===== src/Server/Pending.antt =====
-- The count of pending keys and the loop that moves them, in cmd/shard/shard.go.
use sharded_kvs.Prelude.{
  ℕ, ◌≤◌, ◌<◌, ◌+◌, ◌%◌, ◌^◌, length, Result, ok, ok-injective, String, ◌≡◌, refl, ◌∙◌, ap, false,
  not, ◌&&◌, ◌==◌, List, [], ◌∷◌, inl, inr, Bool-cases, arith, returns, >>=-eq-returns,
  returns-injective, if◌then◌else◌,
}
use sharded_kvs.Protos.{Proto}
use sharded_kvs.Raft.{Raft}
use sharded_kvs.Server.{Hashing, Server, Net, read_config, located, KvstoreConfig, names_of}
use sharded_kvs.Server.ReplicaRpc.{is_pending, count_pending, replica_redistribute_keys}
use sharded_kvs.Kvstore.Ops.{keys}
use sharded_kvs.Server.Redistribute.{move_key, move_keys}

module _ (r : Raft) (p : Proto) (h : Hashing) (n : Net (Server r h)) where
  -- The world with the job that the request starts.
  abbrev pub with_job : n.World → n.World
  with_job w = n.with_self (record (n.self w) { jobs = (n.self w).jobs + 1 }) w

  count_pending_le :
      (old new : h.Ring) (shard : String) (keys : List String) (c m : ℕ)
      → count_pending r p h n old new shard keys c ≡ returns m
      → c ≤ m
  unfolding count_pending
  count_pending_le old new shard [] c m q = let e = returns-injective c m q in omega arith
  count_pending_le old new shard (key ∷ keys) c m q =
      let (b, pending, rest) = >>=-eq-returns (is_pending r p h n old new shard key) _ q in
      let le = count_pending_le old new shard keys (if b then c + 1 else c) m rest in ground arith

  -- A key that is not pending is left where it is.
  move_key-not_pending :
      (new : h.Ring) (key : String) (w : n.World)
      → is_pending r p h n (n.self w).ring new (n.self w).flags.shard key ≡ returns false
      → move_key r p h n new key w ≡ returns w
  unfolding is_pending move_key
  move_key-not_pending new key w q =
      let (a, at_old, q1) = >>=-eq-returns (located h (n.self w).ring key) _ q in
      let (b, at_new, q2) = >>=-eq-returns (located h new key) _ q1 in
      let stays : (not (a == b) && a == (n.self w).flags.shard) ≡ false =
        returns-injective _ false q2 in
      rw (at_old, at_new, stays) refl

  count_pending_none-move_keys :
      (new : h.Ring) (keys : List String) (c : ℕ) (w : n.World)
      → count_pending r p h n (n.self w).ring new (n.self w).flags.shard keys c ≡ returns c
      → move_keys r p h n new keys w ≡ returns w
  unfolding count_pending move_keys
  count_pending_none-move_keys new [] c w q = refl
  count_pending_none-move_keys new (key ∷ keys) c w q =
      let s = n.self w in
      let (b, pending, rest) =
        >>=-eq-returns (is_pending r p h n s.ring new s.flags.shard key) _ q in
      elim (Bool-cases b) [
        | inl t ↦ absurd (
            let le = count_pending_le s.ring new s.flags.shard keys (c + 1) c (rw t at rest) in
            omega arith)
        | inr f ↦
            rw (move_key-not_pending new key w (pending ∙ ap returns f))
              (count_pending_none-move_keys new keys c w (rw f at rest))
      ]

  -- The count that a leader answers and the loop that it starts agree: where the count of pending
  -- keys is 0, the loop over the same keys returns and does nothing.
  pub count_pending_zero-move_keys :
      (new : h.Ring) (keys : List String) (w : n.World)
      → count_pending r p h n (n.self w).ring new (n.self w).flags.shard keys 0 ≡ returns 0
      → move_keys r p h n new keys w ≡ returns w
  count_pending_zero-move_keys new keys w q = count_pending_none-move_keys new keys 0 w q

  count_pending_upto :
      (old new : h.Ring) (shard : String) (keys : List String) (c m : ℕ)
      → count_pending r p h n old new shard keys c ≡ returns m
      → m ≤ c + length keys
  unfolding count_pending
  count_pending_upto old new shard [] c m q = let e = returns-injective c m q in omega arith
  count_pending_upto old new shard (key ∷ keys) c m q =
      let (b, pending, rest) = >>=-eq-returns (is_pending r p h n old new shard key) _ q in
      let le = count_pending_upto old new shard keys (if b then c + 1 else c) m rest in ground arith

  -- What is counted in a request to redistribute keys: the pending ones among all keys, with the
  -- ring of the new configuration.
  pub record Counted (w : n.World) (m : ℕ) : Type 0 where
    pub config : KvstoreConfig
    pub new_ring : h.Ring
    pub read : read_config n (with_job w) ≡ returns config
    pub ring : h.new_ring (names_of config.new_shards) ≡ returns new_ring
    pub counted :
        count_pending r p h n
          (n.self w).ring
          new_ring
          (n.self w).flags.shard
          (keys r (n.self w).process)
          0
        ≡ returns m

  -- With fewer than 2 ^ 31 keys, the int32 that is answered is the number of pending keys: it does
  -- not wrap around and is not negative.
  pub replica_redistribute_keys-bounded :
      (w w' : n.World) (m : ℕ)
      → length (keys r (n.self w).process) < 2 ^ 31
      → replica_redistribute_keys r p h n w ≡ returns (w', ok m)
      → (m < 2 ^ 31) × Counted w m
  unfolding replica_redistribute_keys
  replica_redistribute_keys-bounded w w' m few q =
      let (config, read, q1) = >>=-eq-returns (read_config n (with_job w)) _ q in
      let (new_ring, ring, q2) = >>=-eq-returns (h.new_ring (names_of config.new_shards)) _ q1 in
      let (pending, counted, q3) =
        >>=-eq-returns
          (count_pending r p h n (n.self w).ring new_ring (n.self w).flags.shard
            (keys r (n.self w).process) 0)
          _ q2 in
      let le =
        count_pending_upto (n.self w).ring new_ring (n.self w).flags.shard
          (keys r (n.self w).process) 0 pending counted in
      let small : pending < 2 ^ 31 = omega arith in
      let answer : pending % 2 ^ 32 ≡ m =
        ok-injective _ _ (ap (λ (t : n.World × Result ℕ). t.1) (returns-injective _ _ q3)) in
      let same : pending ≡ m = omega arith in
      (
        omega arith,
        record {
          config = config;
          new_ring = new_ring;
          read = read;
          ring = ring;
          counted = counted ∙ ap returns same;
        },
      )
