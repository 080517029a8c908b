-- ===== src/Kvstore/Purge.antt =====
-- `Set` and `Delete` of kvstore.go with no other writer.
use sharded_kvs.Prelude.{
  String, ◌≡◌, refl, subst, inl, inr, Option, none, some, Error, not, returns, returns-injective,
  Bool-cases, if◌then◌else◌, ◌==◌, not_leader,
}
use sharded_kvs.Protos.{Proto, get_key}
use sharded_kvs.Raft.{Raft}
use sharded_kvs.Kvstore.Touch.{Touched, Touched-self, submit-Touched}
use sharded_kvs.Protos.{KvfsmLogEntry, get_value}
use sharded_kvs.Kvstore.Ops.{set, set_entry, Process, delete_entry, submit, delete}
use sharded_kvs.Kvstore.Replay.{effect}
use sharded_kvs.Kvstore.Reads.{Quiet, IsShared}

-- What a deletion does: the key is gone, or it is as it was.
abbrev pub Purged : (r : Raft) → String → Process r → Option Error → Process r → Type 0
Purged r key = Touched r key none

module _ (r : Raft) (p : Proto) (quiet : Quiet r) (key : String) where
  effect-delete_entry :
      (j : String) (old : Option String)
      → effect (delete_entry key) j old ≡ (if key == j then none else old)
  unfolding get_key
  effect-delete_entry j old = refl

  effect-set_entry :
      (value j : String) (old : Option String)
      → effect (set_entry key value) j old ≡ (if key == j then some value else old)
  unfolding get_key get_value
  effect-set_entry value j old = refl

  -- A write that only the leader submits.
  guarded-Touched :
      (new : Option String) (entry : KvfsmLogEntry) (s : Process r) (t : Process r × Option Error)
      → ((j : String) (old : Option String) → effect entry j old ≡ (if key == j then new else old))
      → IsShared r s
      → (if not (r.is_leader s.node) then returns (s, some not_leader) else submit r p entry s)
        ≡ returns t
      → Touched r key new s t.1 t.0
  guarded-Touched new entry s t law shared h = elim (Bool-cases (not (r.is_leader s.node))) [
    | inl q ↦
        subst (λ u. Touched r key new s u.1 u.0)
          (returns-injective (s, some not_leader) t (rw q at h))
          (Touched-self r p quiet key new entry law s not_leader shared)
    | inr q ↦ submit-Touched r p quiet key new entry law s t shared (rw q at h)
  ]

  -- With no other writer, `Delete` touches no other key, leaves its own key as it was or gone, and
  -- has removed it if it reports no error.
  pub delete-Purged :
      (s : Process r) (t : Process r × Option Error)
      → IsShared r s
      → delete r p key s ≡ returns t
      → Purged r key s t.1 t.0
  unfolding delete
  delete-Purged s t shared h =
      guarded-Touched none (delete_entry key) s t effect-delete_entry shared h

  -- `Set` likewise: its own key keeps its value or gets the new one, and gets it if there is no
  -- error.
  pub set-Touched :
      (value : String) (s : Process r) (t : Process r × Option Error)
      → IsShared r s
      → set r p key value s ≡ returns t
      → Touched r key (some value) s t.1 t.0
  unfolding set
  set-Touched value s t shared h =
      guarded-Touched (some value) (set_entry key value) s t (effect-set_entry value) shared h
