-- ===== src/Kvstore/Moves.antt =====
-- Every call of a process does one of three things to its memory.
use sharded_kvs.Prelude.{
  ℕ, String, ◌≡◌, refl, subst, returns-injective, Option, Error, List, arith, returns,
  >>=-eq-returns, not, Result, inl, inr, Bool-cases, Result-cases, same_bool,
}
use sharded_kvs.Protos.{Bytes, KvfsmLogEntry, Proto}
use sharded_kvs.Raft.{Raft}
use sharded_kvs.Kvstore.{deliver, restore}
use sharded_kvs.Kvstore.Ops.{
  Process, set_entry, delete_entry, toggle_entry, submit, raft_apply, set, delete,
  set_writes_enabled, join, demote_voter, close, take_snapshot,
}
use sharded_kvs.Kvstore.Runs.{
  Call, sets, deletes, toggles, joins, demotes, closes, snapshots, commits, installs, drop_error,
  step,
}

-- From `s` to `t`: the FSM is given a log, or restored, or nothing happens to it.
pub data Moves (r : Raft) (p : Proto) (s t : Process r) : Type 0 where
  keeps : t.fsm ≡ s.fsm → t.memory ≡ s.memory → Moves r p s t
  delivers :
      (bs : List Bytes) → deliver p bs s.fsm s.memory ≡ returns (t.fsm, t.memory) → Moves r p s t
  restores :
      (b : Result Bytes)
      → (restore p b s.fsm s.memory).1 ≡ t.fsm
      → (restore p b s.fsm s.memory).2 ≡ t.memory
      → Moves r p s t

-- The fields of the `KVStore` that decide what it reads.
pub record SameKv (r : Raft) (s t : Process r) : Type 0 where
  pub store : t.kv.store ≡ s.kv.store
  pub writes_enabled : t.kv.writes_enabled ≡ s.kv.writes_enabled

module _ (r : Raft) (p : Proto) where
  abbrev pub Kept : Process r → Process r → Type 0
  Kept s t = Moves r p s t × SameKv r s t

  raft_apply-moves :
      (b : Bytes) (s : Process r) (t : Process r × Option Error)
      → raft_apply r p b s ≡ returns t
      → Kept s t.0
  unfolding raft_apply
  raft_apply-moves b s t h =
      let (u, q, e) = >>=-eq-returns (deliver p (r.apply b s.node).delivered s.fsm s.memory) _ h in
      (delivers (r.apply b s.node).delivered (ground arith), ground arith)

  Kept-self : (s : Process r) → Kept s s
  Kept-self s = (keeps refl refl, record { store = refl; writes_enabled = refl })

  -- The same, carried along the equation of what a call returns.
  Kept-along : (s u : Process r) (t : Process r) → Kept s u → returns u ≡ returns t → Kept s t
  Kept-along s u t k h = subst (Kept s) (returns-injective u t h) k

  submit-moves :
      (e : KvfsmLogEntry) (s t : Process r) → drop_error r p (submit r p e s) ≡ returns t → Kept s t
  unfolding submit
  submit-moves e s t h = elim (Result-cases (p.marshal_entry e)) [
    | inl (b, q) ↦
        let (u, a, e') =
          >>=-eq-returns (raft_apply r p b s) (λ u. returns u.0) (rw (q, submit) at h) in
        Kept-along s u.0 t (raft_apply-moves b s u a) e'
    | inr (x, q) ↦ Kept-along s s t (Kept-self s) (rw (q, submit) at h)
  ]

  join-moves :
      (ip : String) (port : ℕ) (shard replica : String) (s : Process r)
      → Kept s (join r ip port shard replica s).0
  unfolding join
  join-moves ip port shard replica s = (
    keeps (ground arith) (ground arith),
    record { store = ground arith; writes_enabled = ground arith },
  )

  demote_voter-moves :
      (port : ℕ) (shard replica : String) (s : Process r)
      → Kept s (demote_voter r port shard replica s).0
  unfolding demote_voter
  demote_voter-moves port shard replica s = (
    keeps (ground arith) (ground arith),
    record { store = ground arith; writes_enabled = ground arith },
  )

  close-moves : (s : Process r) → Kept s (close r s).0
  unfolding close
  close-moves s = (keeps refl refl, record { store = refl; writes_enabled = refl })

  take_snapshot-moves : (s : Process r) → Kept s (take_snapshot r p s).0
  unfolding take_snapshot
  take_snapshot-moves s = (
    keeps (ground arith) (ground arith),
    record { store = ground arith; writes_enabled = ground arith },
  )

  -- No call touches the `KVStore` fields that decide what it reads.
  pub step-Moves : (c : Call) (s t : Process r) → step r p c s ≡ returns t → Kept s t
  unfolding step set delete set_writes_enabled
  step-Moves (sets k v) s t h = elim (Bool-cases (not (r.is_leader s.node))) [
    | inl q ↦ Kept-along s s t (Kept-self s) (rw q at h)
    | inr q ↦ submit-moves (set_entry k v) s t (rw q at h)
  ]
  step-Moves (deletes k) s t h = elim (Bool-cases (not (r.is_leader s.node))) [
    | inl q ↦ Kept-along s s t (Kept-self s) (rw q at h)
    | inr q ↦ submit-moves (delete_entry k) s t (rw q at h)
  ]
  step-Moves (toggles b) s t h = elim (Bool-cases (same_bool s.kv.writes_enabled b)) [
    | inl q ↦ Kept-along s s t (Kept-self s) (rw q at h)
    | inr q ↦ submit-moves (toggle_entry b) s t (rw q at h)
  ]
  step-Moves (joins ip port shard replica) s t h =
      Kept-along s _ t (join-moves ip port shard replica s) h
  step-Moves (demotes port shard replica) s t h =
      Kept-along s _ t (demote_voter-moves port shard replica s) h
  step-Moves closes s t h = Kept-along s _ t (close-moves s) h
  step-Moves snapshots s t h = Kept-along s _ t (take_snapshot-moves s) h
  step-Moves (commits bs) s t h =
      let (u, a, e) = >>=-eq-returns (deliver p bs s.fsm s.memory) _ h in
      Kept-along s _ t (delivers bs a, record { store = refl; writes_enabled = refl }) e
  step-Moves (installs b) s t h =
      Kept-along s _ t (restores b refl refl, record { store = refl; writes_enabled = refl }) h
