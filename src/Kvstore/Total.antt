-- ===== src/Kvstore/Total.antt =====
-- A write of kvstore.go returns, with or without an error, where the FSM shares its map with the
-- `KVStore`.
use sharded_kvs.Prelude.{
  String, ◌≡◌, refl, Option, some, Error, returns, Returns-value, Outcome, not, not_leader,
  Bool-cases, Result-cases, inl, inr, if◌then◌else◌,
}
use sharded_kvs.Protos.{KvfsmLogEntry, Proto}
use sharded_kvs.Raft.{Raft}
use sharded_kvs.Kvstore.Ops.{Process, submit, raft_apply, set, delete, set_entry, delete_entry}
use sharded_kvs.Kvstore.Reads.{IsShared, raft_apply-AfterLog}

module _ (r : Raft) (p : Proto) (s : Process r) (shared : IsShared r s) where
  -- A call that returns.
  abbrev Ends : Outcome (Process r × Option Error) → Type 0
  Ends o = (t : Process r × Option Error) × (o ≡ returns t)

  submit-returns : (e : KvfsmLogEntry) → Ends (submit r p e s)
  unfolding submit
  submit-returns e = elim (Result-cases (p.marshal_entry e)) [
    | inr (x, q) ↦ ((s, some x), rw (q, submit) refl)
    | inl (b, q) ↦
        let (t, ran, k) =
          Returns-value (raft_apply r p b s) _ (raft_apply-AfterLog r p b s shared) in
        (t, rw (q, submit) ran)
  ]

  guarded-returns :
      (e : KvfsmLogEntry)
      → Ends (if not (r.is_leader s.node) then returns (s, some not_leader) else submit r p e s)
  guarded-returns e = elim (Bool-cases (not (r.is_leader s.node))) [
    | inl q ↦ ((s, some not_leader), rw q refl)
    | inr q ↦ let (t, ran) = submit-returns e in (t, rw q ran)
  ]

  pub set-returns :
      (key value : String) → (t : Process r × Option Error) × (set r p key value s ≡ returns t)
  unfolding set
  set-returns key value = guarded-returns (set_entry key value)

  pub delete-returns :
      (key : String) → (t : Process r × Option Error) × (delete r p key s ≡ returns t)
  unfolding delete
  delete-returns key = guarded-returns (delete_entry key)
