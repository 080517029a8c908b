-- ===== src/Server/Network/Written.antt =====
-- What a write at the process of an address does to a deployment.
use sharded_kvs.Prelude.{
  key_not_found, writes_disabled, nothing_new_to_snapshot, not_found, message, wrapped, library,
  String, ◌≡◌, ◌≢◌, refl, ap, ◌⊎◌, true, false, Option, none, some, Error, not_leader,
  is_not_leader, Result, ok, err, returns, panics, lookup, ◌==◌, eq_iff, eq_refl, arith, Bool-cases,
  Option-cases, inl, inr,
}
use sharded_kvs.Protos.{Proto, InternalPutRequest}
use sharded_kvs.Raft.{Raft}
use sharded_kvs.Kvstore.Ops.{Process, leader, set, delete}
use sharded_kvs.Kvstore.Reads.{Quiet, IsShared}
use sharded_kvs.Kvstore.Touch.{Touched}
use sharded_kvs.Kvstore.Purge.{set-Touched, delete-Purged}
use sharded_kvs.Server.{Hashing, Server, client, no_leader_found}
use sharded_kvs.Server.ShardRpc.{answer_write, ask_leader, shard_put, shard_delete}
use sharded_kvs.Server.Network.{
  Deployment, unreachable, with_server, process_at, stopped, answered, call,
}

-- After a call that writes `key` at the process of the address `c`, where the local write came to
-- `t`.
pub record Written (r : Raft) (h : Hashing) (c key : String) (new : Option String)
    (d : Deployment r h) (t : Process r × Option Error) (o : Deployment r h × Result (Unit {0}))
    : Type 0 where
  pub elsewhere : (c' : String) → c' ≢ c → o.0.servers c' ≡ d.servers c'
  pub process : Process r
  pub here : o.0.servers c ≡ record (d.servers c) { process = process }
  pub same_or_later : (process ≡ (d.servers c).process) ⊎ (process ≡ t.0)
  pub error : Option Error
  pub touched : Touched r key new (d.servers c).process error process
  pub fine : o.1 ≡ ok tt → error ≡ none
  pub runs : t.1 ≢ some not_leader → o.0.running ≡ d.running

is_not_leader_lem : (e : Error) → is_not_leader e ≡ true → e ≡ not_leader
is_not_leader_lem not_leader q = refl
is_not_leader_lem key_not_found q = cc (q)
is_not_leader_lem writes_disabled q = cc (q)
is_not_leader_lem nothing_new_to_snapshot q = cc (q)
is_not_leader_lem not_found q = cc (q)
is_not_leader_lem (message m) q = cc (q)
is_not_leader_lem (wrapped m e) q = cc (q)
is_not_leader_lem (library n) q = cc (q)

module _ (r : Raft) (p : Proto) (h : Hashing) (c key : String) (new : Option String)
    (d : Deployment r h) where
  untouched :
      (e : Error)
      → IsShared r (d.servers c).process
      → Touched r key new (d.servers c).process (some e) (d.servers c).process
  untouched e shared = record {
    shared = shared;
    others = λ j ne. refl;
    reached_or_kept = inr refl;
    reached = λ fine. cc;
  }

  Written-kept :
      (e : Error) (t : Process r × Option Error) (d' : Deployment r h)
      → IsShared r (d.servers c).process
      → d'.servers ≡ d.servers
      → (t.1 ≢ some not_leader → d'.running ≡ d.running)
      → Written r h c key new d t (d', err e)
  Written-kept e t d' shared same runs = record {
    elsewhere = λ c' ne. ap (λ (f : String → Server r h). f c') same;
    process = (d.servers c).process;
    here = ap (λ (f : String → Server r h). f c) same;
    same_or_later = inl refl;
    error = some e;
    touched = untouched e shared;
    fine = λ q. cc;
    runs = runs;
  }

  pub Written-stored :
      (t : Process r × Option Error) (res : Result (Unit {0}))
      → Touched r key new (d.servers c).process t.1 t.0
      → (res ≡ ok tt → t.1 ≡ none)
      → Written r h c key new d t
          (with_server r p h c (record (d.servers c) { process = t.0 }) d, res)
  Written-stored t res touched fine = record {
    elsewhere = λ c' ne. let other : c == c' ≡ false = ground (arith, eq_iff c c') in rw other refl;
    process = t.0;
    here = rw (eq_refl c) refl;
    same_or_later = inr refl;
    error = t.1;
    touched = touched;
    fine = fine;
    runs = λ other. refl;
  }

  -- There is no other replica to forward a write to.
  asked :
      (v : Deployment r h)
      → let o =
          ask_leader r p h
            (process_at r p h c)
            {A = Unit {0}}
            (λ target d'. (d', err unreachable))
            v in
        ((x : Error) × (o ≡ returns (v, err x))) ⊎ (o ≡ panics)
  unfolding ask_leader client
  asked v = elim (Bool-cases (leader r (v.servers c).process == "")) [
    | inl none_known ↦ inl (no_leader_found, rw (none_known, ask_leader) refl)
    | inr known ↦
        elim (Option-cases
          (lookup (leader r (v.servers c).process) (v.servers c).replica_clients)) [
            | inl missing ↦ inr (rw (known, missing, ask_leader, client) refl)
            | inr (a, met) ↦ inl (unreachable, rw (known, met, ask_leader, client) refl)
          ]
  ]

  Written-answered :
      (t : Process r × Option Error)
      → IsShared r (d.servers c).process
      → Touched r key new (d.servers c).process t.1 t.0
      → Written r h c key new d t (
          answered r p h c d
            (answer_write r p h (process_at r p h c) (λ target d'. (d', err unreachable)) t d))
  unfolding answer_write
  Written-answered (s, none) shared touched = Written-stored (s, none) (ok tt) touched (λ q. refl)
  Written-answered (s, some e) shared touched = elim (Bool-cases (is_not_leader e)) [
    | inr other ↦
        rw (other, answer_write) (Written-stored (s, some e) (err e) touched (λ q. cc (q)))
    | inl lost ↦
        let v = with_server r p h c (record (d.servers c) { process = s }) d in
        elim (asked v) [
          | inl (x, q) ↦
              rw (lost, answer_write, q) (Written-stored (s, some e) (err x) touched (λ q. cc (q)))
          | inr q ↦
              rw (lost, answer_write, q)
                (Written-kept unreachable (s, some e) (stopped r p h c d) shared refl
                  (λ kept. absurd (kept (ap (λ (x : Error). some x) (is_not_leader_lem e lost)))))
        ]
  ]

  Written-call :
      (t : Process r × Option Error)
      → IsShared r (d.servers c).process
      → Touched r key new (d.servers c).process t.1 t.0
      → Written r h c key new d t (
          call r p h c d
            (answer_write r p h (process_at r p h c) (λ target d'. (d', err unreachable)) t d))
  Written-call t shared touched = elim (Bool-cases (d.running c)) [
    | inl up ↦ rw up (Written-answered t shared touched)
    | inr down ↦ rw down (Written-kept unreachable t d shared refl (λ kept. refl))
  ]

-- What a write is, by its new value, and what the local one comes to.
module _ (r : Raft) (p : Proto) (h : Hashing) (quiet : Quiet r) (c : String) (d : Deployment r h)
    (shared : IsShared r (d.servers c).process) where
  pub put-Written :
      (req : InternalPutRequest) (t : Process r × Option Error)
      → set r p req.key req.value (d.servers c).process ≡ returns t
      → Written r h c req.key
          (some req.value)
          d
          t
          (call r p h c d (shard_put r p h (process_at r p h c) req d))
  unfolding shard_put
  put-Written req t ran =
      rw (ran, shard_put)
        (Written-call r p h c req.key (some req.value) d t shared
          (set-Touched r p quiet req.key req.value (d.servers c).process t shared ran))

  pub delete-Written :
      (key : String) (t : Process r × Option Error)
      → delete r p key (d.servers c).process ≡ returns t
      → Written r h c key none d t (call r p h c d (shard_delete r p h (process_at r p h c) key d))
  unfolding shard_delete
  delete-Written key t ran =
      rw (ran, shard_delete)
        (Written-call r p h c key none d t shared
          (delete-Purged r p quiet key (d.servers c).process t shared ran))
