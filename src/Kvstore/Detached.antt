-- ===== src/Kvstore/Detached.antt =====
-- `Restore` of kvstore.go gives the FSM the address of another map variable. `KVStore.store` keeps
-- its own address, and from then on no write reaches the map that `Get` reads.
use sharded_kvs.Prelude.{
  ℕ, ◌<◌, String, ◌≡◌, ◌≢◌, refl, none, sym, ◌∙◌, subst, Bool, some, key_not_found, List, [], ◌∷◌,
  arith, returns, >>=-eq-returns, returns-injective, ok, err, lookup, lookup-nil, ok-injective,
  Option-cases, inl, inr, GoMap,
}
use sharded_kvs.Protos.{Bytes, KvfsmSnapshot, Proto}
use sharded_kvs.Raft.{Raft}
use sharded_kvs.Raft.Common.{Setup, setup_raft}
use sharded_kvs.Kvstore.{KvFsm, Memory, alloc, restore, entries, new_kv_store, new_kv_fsm}
use sharded_kvs.Kvstore.Ops.{restoring, Process, get, open_store, server_id, server_address}
use sharded_kvs.Kvstore.Runs.{Call, installs, step, run}
use sharded_kvs.Kvstore.Reads.{answer, get-value_at}
use sharded_kvs.Kvstore.Moves.{Moves, keeps, delivers, restores, SameKv, step-Moves}
use sharded_kvs.Kvstore.Alone.{deliver-LeavesAlone, restore-LeavesAlone}

-- The map that `Get` reads holds `es`, and the FSM cannot reach it.
pub record IsDetached (r : Raft) (es : GoMap String) (s : Process r) : Type 0 where
  pub object : ℕ
  pub bound : s.memory.vars s.kv.store ≡ some object
  pub holds : s.memory.objects object ≡ es
  pub apart : s.memory.vars s.fsm.store ≢ some object
  pub old_object : object < s.memory.next
  pub old_var : s.kv.store < s.memory.next

module _ (r : Raft) (p : Proto) (es : GoMap String) where
  Moves-IsDetached :
      {s t : Process r} → Moves r p s t → SameKv r s t → IsDetached r es s → IsDetached r es t
  Moves-IsDetached {s} {t} (keeps f m) k d = record {
    object = d.object;
    bound = rw (m, k.store) d.bound;
    holds = rw m d.holds;
    apart = rw (m, f) d.apart;
    old_object = rw m d.old_object;
    old_var = rw (m, k.store) d.old_var;
  }
  Moves-IsDetached {s} {t} (delivers bs h) k d =
      let l = deliver-LeavesAlone d.object p bs s.fsm s.memory (t.fsm, t.memory) d.apart h in
      record {
        object = d.object;
        bound = rw (l.vars, k.store) d.bound;
        holds = l.object ∙ d.holds;
        apart = rw (l.vars, l.store) d.apart;
        old_object = rw l.next d.old_object;
        old_var = rw (l.next, k.store) d.old_var;
      }
  Moves-IsDetached {s} {t} (restores b f m) k d =
      let l =
        restore-LeavesAlone p d.object b s.fsm s.memory s.kv.store d.old_object d.old_var d.apart in
      record {
        object = d.object;
        bound = rw (← m, k.store, l.1) d.bound;
        holds = rw (← m) (l.0 ∙ d.holds);
        apart = rw (← m, ← f) l.2;
        old_object = rw (← m) (omega (arith, l.3, d.old_object));
        old_var = rw (← m, k.store) (omega (arith, l.3, d.old_var));
      }

  run-IsDetached :
      (cs : List Call) (s t : Process r)
      → run r p cs s ≡ returns t
      → IsDetached r es s
      → IsDetached r es t
  unfolding run
  run-IsDetached [] s t h d = subst (IsDetached r es) (returns-injective s t h) d
  run-IsDetached (c ∷ cs) s t h d =
      let (u, a, e) = >>=-eq-returns (step r p c s) (λ u. run r p cs u) h in
      let k = step-Moves r p c s u a in run-IsDetached cs u t e (Moves-IsDetached k.0 k.1 d)

  get-IsDetached :
      (j : String) (t : Process r) → IsDetached r es t → get r j t ≡ answer (lookup j es)
  unfolding entries
  get-IsDetached j t d = get-value_at r p j t ∙ rw (d.bound, d.holds)

module _ (r : Raft) (p : Proto) where
  -- What a process reads once its FSM was restored, if its map is in use already.
  restored-IsDetached :
      (b : Bytes) (t : KvfsmSnapshot) (s : Process r) (object : ℕ)
      → p.unmarshal_snapshot b ≡ ok t
      → s.memory.vars s.kv.store ≡ some object
      → object < s.memory.next
      → s.kv.store < s.memory.next
      → let u = restore p (ok b) s.fsm s.memory in
        IsDetached r (s.memory.objects object) (record s { memory = u.2; fsm = u.1 })
  unfolding restore alloc
  restored-IsDetached b t s object d bound ho hv =
      rw (d, restore)
        (elim (Option-cases t.kv_store) [
          | inl e ↦ rw e (record {
            object = object;
            bound = ground arith;
            holds = ground arith;
            apart = ground arith;
            old_object = omega arith;
            old_var = omega arith;
          })
          | inr (es, e) ↦ rw e (record {
            object = object;
            bound = ground arith;
            holds = ground arith;
            apart = ground arith;
            old_object = omega arith;
            old_var = omega arith;
          })
        ])

  restore-none :
      (b : Bytes) (d : KvfsmSnapshot) (f : KvFsm) (m : Memory)
      → p.unmarshal_snapshot b ≡ ok d
      → (restore p (ok b) f m).0 ≡ none
  unfolding restore
  restore-none b d f m decoded = rw (decoded, restore) refl

  -- A replica whose Raft installs a snapshot that decodes: whatever happens to it afterwards, `Get`
  -- answers for every key as it did before the snapshot was installed, even for entries that are
  -- committed later.
  pub get-installed :
      (b : Bytes) (t : KvfsmSnapshot) (s u : Process r) (object : ℕ) (cs : List Call)
      → p.unmarshal_snapshot b ≡ ok t
      → s.memory.vars s.kv.store ≡ some object
      → object < s.memory.next
      → s.kv.store < s.memory.next
      → run r p (installs (ok b) ∷ cs) s ≡ returns u
      → (j : String) → get r j u ≡ get r j s
  unfolding run step entries
  get-installed b t s u object cs d bound ho hv h j =
      get-IsDetached r p (s.memory.objects object) j u (
        run-IsDetached r p (s.memory.objects object) cs _ u h
          (restored-IsDetached b t s object d bound ho hv))
      ∙ sym (get-value_at r p j s ∙ rw bound)

  module _ (setup : Setup r) (dir ip : String) (raft_port : ℕ) (shard replica : String)
      (boot : Bool) (m : Memory) where
    opened-IsDetached :
        (n : r.Node) (b : Bytes) (sn : setup.SnapshotStore) (d : KvfsmSnapshot) (s : Process r)
        → setup_raft r setup
            (restoring r p (new_kv_store m).0 (new_kv_store m).1)
            dir
            (server_id replica shard raft_port)
            (server_address ip raft_port)
            boot
          ≡ ok (n, some b, sn)
        → p.unmarshal_snapshot b ≡ ok d
        → open_store r p setup dir ip raft_port shard replica boot
            (new_kv_store m).0
            (new_kv_store m).1
          ≡ ok s
        → IsDetached r [] s
    unfolding open_store new_kv_store new_kv_fsm
    opened-IsDetached n b sn d s made decoded opened =
        let (kv, m') = new_kv_store m in
        let s0 : Process r = record { memory = m'; kv = kv; fsm = new_kv_fsm kv.store; node = n } in
        let k =
          restored-IsDetached b d s0 m.next decoded (ground arith) (omega arith) (omega arith) in
        let (e, f, m'') = restore p (ok b) s0.fsm m' in
        let restarted : Process r = record s0 { memory = m''; fsm = f } in
        subst (IsDetached r [])
          (ok-injective restarted s
            (rw (made, restore-none b d s0.fsm m' decoded, open_store) at opened))
          (subst (λ es. IsDetached r es restarted) (ground arith) k)

    -- A process that restarts with a snapshot on disk, one that decodes, whatever it holds: from
    -- `Open` on, after any calls and any committed entries, `Get` finds no key at all.
    pub get-restarted :
        (n : r.Node) (b : Bytes) (sn : setup.SnapshotStore) (d : KvfsmSnapshot) (s u : Process r)
        (cs : List Call)
        → setup_raft r setup
            (restoring r p (new_kv_store m).0 (new_kv_store m).1)
            dir
            (server_id replica shard raft_port)
            (server_address ip raft_port)
            boot
          ≡ ok (n, some b, sn)
        → p.unmarshal_snapshot b ≡ ok d
        → open_store r p setup dir ip raft_port shard replica boot
            (new_kv_store m).0
            (new_kv_store m).1
          ≡ ok s
        → run r p cs s ≡ returns u
        → (j : String) → get r j u ≡ err key_not_found
    get-restarted n b sn d s u cs made decoded opened h j =
        get-IsDetached r p [] j u
          (run-IsDetached r p [] cs s u h (opened-IsDetached n b sn d s made decoded opened))
        ∙ rw lookup-nil
