-- ===== src/Kvstore/Alone.antt =====
-- A map object that the FSM of kvstore.go cannot reach stays as it is, whatever the FSM does.
use sharded_kvs.Prelude.{
  ℕ, ◌<◌, ◌≤◌, ◌≡◌, ◌≢◌, refl, sym, ap, ◌∙◌, subst, Option, none, some, Error, List, [], ◌∷◌, arith,
  returns, >>=-eq-returns, Returns, returns-injective, Result, ok, err, Option-cases, Result-cases,
  inl, inr,
}
use sharded_kvs.Protos.{Bytes, KvfsmLogEntry, Proto}
use sharded_kvs.Kvstore.{KvFsm, Memory, alloc, apply_entry, apply, deliver, restore}
use sharded_kvs.Kvstore.Replay.{Follows, effect, flag_of, apply_entry-Follows}

-- From `f` and `m` to `t`, the map object `q` and the variables are as they were.
pub record LeavesAlone (q : ℕ) (f : KvFsm) (m : Memory) (t : KvFsm × Memory) : Type 0 where
  pub store : t.0.store ≡ f.store
  pub vars : t.1.vars ≡ m.vars
  pub next : t.1.next ≡ m.next
  pub object : t.1.objects q ≡ m.objects q

module _ (q : ℕ) where
  apply_entry_nil :
      (e : KvfsmLogEntry) (f : KvFsm) (m : Memory) (t : KvFsm × Memory)
      → m.vars f.store ≡ none
      → apply_entry e f m ≡ returns t
      → LeavesAlone q f m t
  unfolding apply_entry
  apply_entry_nil e f m t nil h = record {
    store = ground arith;
    vars = ground arith;
    next = ground arith;
    object = ground arith;
  }

  apply_entry-LeavesAlone :
      (e : KvfsmLogEntry) (f : KvFsm) (m : Memory) (t : KvFsm × Memory)
      → m.vars f.store ≢ some q
      → apply_entry e f m ≡ returns t
      → LeavesAlone q f m t
  apply_entry-LeavesAlone e f m t apart h = elim (Option-cases (m.vars f.store)) [
    | inl nil ↦ apply_entry_nil e f m t nil h
    | inr (r, bound) ↦
        let k =
          subst (λ o. Returns o (Follows (effect e) (flag_of (ok e)) r f m)) h
            (apply_entry-Follows e r f m bound) in
        record {
          store = k.store;
          vars = k.vars;
          next = k.next;
          object = k.others q (λ same. apart (bound ∙ ap some (sym same)));
        }
  ]

  module _ (p : Proto) where
    apply-LeavesAlone :
        (b : Bytes) (f : KvFsm) (m : Memory) (t : Option Error × KvFsm × Memory)
        → m.vars f.store ≢ some q
        → apply p b f m ≡ returns t
        → LeavesAlone q f m (t.1, t.2)
    unfolding apply
    apply-LeavesAlone b f m t apart h = elim (Result-cases (p.unmarshal_entry b)) [
      | inl (e, d) ↦
          let (u, a, k) =
            >>=-eq-returns (apply_entry e f m) (λ u. returns (none, u.0, u.1))
              (rw (d, apply) at h) in
          subst (λ v. LeavesAlone q f m (v.1, v.2)) (returns-injective _ t k)
            (apply_entry-LeavesAlone e f m u apart a)
      | inr (x, d) ↦
          subst (λ v. LeavesAlone q f m (v.1, v.2)) (returns-injective _ t (rw (d, apply) at h))
            (record { store = refl; vars = refl; next = refl; object = refl })
    ]

    pub deliver-LeavesAlone :
        (bs : List Bytes) (f : KvFsm) (m : Memory) (t : KvFsm × Memory)
        → m.vars f.store ≢ some q
        → deliver p bs f m ≡ returns t
        → LeavesAlone q f m t
    unfolding deliver
    deliver-LeavesAlone [] f m t apart h =
        subst (LeavesAlone q f m) (returns-injective (f, m) t h)
          (record { store = refl; vars = refl; next = refl; object = refl })
    deliver-LeavesAlone (b ∷ bs) f m t apart h =
        let (u, a, k) = >>=-eq-returns (apply p b f m) (λ u. deliver p bs u.1 u.2) h in
        let first = apply-LeavesAlone b f m u apart a in
        let rest = deliver-LeavesAlone bs u.1 u.2 t (rw (first.vars, first.store) apart) k in
        record {
          store = rest.store ∙ first.store;
          vars = rest.vars ∙ first.vars;
          next = rest.next ∙ first.next;
          object = rest.object ∙ first.object;
        }

module _ (p : Proto) (q : ℕ) where
  -- Restoring writes only at the first address that is not in use.
  pub restore-LeavesAlone :
      (b : Result Bytes) (f : KvFsm) (m : Memory) (v : ℕ)
      → q < m.next
      → v < m.next
      → m.vars f.store ≢ some q
      → let t = restore p b f m in
        (t.2.objects q ≡ m.objects q)
        × (t.2.vars v ≡ m.vars v)
        × (t.2.vars t.1.store ≢ some q)
        × (m.next ≤ t.2.next)
  unfolding restore alloc
  restore-LeavesAlone (err x) f m v hq hv apart = (refl, refl, apart, omega arith)
  restore-LeavesAlone (ok b) f m v hq hv apart = elim (Result-cases (p.unmarshal_snapshot b)) [
    | inl (t, d) ↦
        rw (d, restore)
          (elim (Option-cases t.kv_store) [
            | inl e ↦ rw e (refl, ground arith, ground arith, omega arith)
            | inr (es, e) ↦ rw e (ground arith, ground arith, ground arith, omega arith)
          ])
    | inr (x, d) ↦ rw (d, restore) (refl, refl, apart, omega arith)
  ]
