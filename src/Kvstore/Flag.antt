-- ===== src/Kvstore/Flag.antt =====
-- `KVStore.writesEnabled` of kvstore.go: the FSM toggles a field of its own, and nothing else
-- writes this one.
use sharded_kvs.Prelude.{
  ℕ, String, ◌≡◌, sym, ◌∙◌, Bool, false, none, List, [], ◌∷◌, arith, returns, >>=-eq-returns,
  returns-injective, ap, ok,
}
use sharded_kvs.Protos.{Proto}
use sharded_kvs.Raft.{Raft}
use sharded_kvs.Raft.Common.{Setup}
use sharded_kvs.Kvstore.{Memory, new_kv_store}
use sharded_kvs.Kvstore.Ops.{Process, set_writes_enabled, get_writes_enabled, open_store}
use sharded_kvs.Kvstore.Runs.{Call, step, run}
use sharded_kvs.Kvstore.Moves.{step-Moves}

module _ (r : Raft) (p : Proto) where
  run-flag :
      (cs : List Call) (s t : Process r)
      → run r p cs s ≡ returns t
      → t.kv.writes_enabled ≡ s.kv.writes_enabled
  unfolding run
  run-flag [] s t h = ap (λ (u : Process r). u.kv.writes_enabled) (sym (returns-injective s t h))
  run-flag (c ∷ cs) s t h =
      let (u, a, e) = >>=-eq-returns (step r p c s) (λ u. run r p cs u) h in
      run-flag cs u t e ∙ (step-Moves r p c s u a).1.writes_enabled

  module _ (setup : Setup r) (dir ip : String) (raft_port : ℕ) (shard replica : String)
      (boot : Bool) (m : Memory) where
    open_store-flag :
        (s : Process r)
        → open_store r p setup dir ip raft_port shard replica boot
            (new_kv_store m).0
            (new_kv_store m).1
          ≡ ok s
        → s.kv.writes_enabled ≡ false
    unfolding open_store new_kv_store
    open_store-flag s h = ground arith

    -- In a process that `Open` started from a new `KVStore`, after any calls at all, entries that
    -- enable writes among them: `GetWritesEnabled` says that writes are disabled, and
    -- `SetWritesEnabled(false)` reports success and changes nothing, so no entry reaches Raft.
    pub writes_never_enabled :
        (s t : Process r) (cs : List Call)
        → open_store r p setup dir ip raft_port shard replica boot
            (new_kv_store m).0
            (new_kv_store m).1
          ≡ ok s
        → run r p cs s ≡ returns t
        → (get_writes_enabled r t ≡ false) × (set_writes_enabled r p false t ≡ returns (t, none))
    unfolding get_writes_enabled set_writes_enabled
    writes_never_enabled s t cs opened ran =
        let off = run-flag cs s t ran ∙ open_store-flag s opened in (off, rw off)
