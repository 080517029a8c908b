-- ===== src/Kvstore.antt =====
-- internal/raft/kvstore/kvstore.go: the state of one replica and its operations.
-- A Go map variable is a cell of `Memory` that holds nil or a map object; `KVStore` and `KVFsm`
-- hold the address of such a variable, so the aliasing between them is in the model.
pub mod Ops
pub mod Replay
pub mod Snapshots
pub mod Runs
pub mod Moves
pub mod Membership
pub mod Reads
pub mod Touch
pub mod Total
pub mod Purge
pub mod Flag
pub mod Alone
pub mod Detached
use sharded_kvs.Prelude.{
  ℕ, ◌+◌, String, Bool, true, false, Option, none, some, List, [], ◌∷◌, eqb, if◌then◌else◌, GoMap,
  lookup, insert, remove, keys_of, Error, Result, ok, err, Outcome, returns, panics, ◌>>=◌,
}
use sharded_kvs.Protos.{
  Bytes, set_op, delete_op, toggle_op, KvfsmLogEntry, get_key, get_value, get_writes_enabled,
  KvfsmSnapshot, contents, Proto,
}

pub record Memory : Type 0 where
  -- map variables: nil, or a map object
  pub vars : ℕ → Option ℕ
  pub objects : ℕ → GoMap String
  -- the first address that is not in use
  pub next : ℕ

abbrev pub update {ℓ} : {A : Type ℓ} → (ℕ → A) → ℕ → A → ℕ → A
update f a v b = if eqb a b then v else f b

abbrev pub object_of : Option ℕ → Memory → GoMap String
object_of none m = []
object_of (some r) m = m.objects r

-- The entries of the map in the variable at an address.
unfoldable pub entries : ℕ → Memory → GoMap String
entries a m = object_of (m.vars a) m

-- A new variable at `next`, with nil or a new map object.
unfoldable pub alloc : Option (GoMap String) → Memory → ℕ × Memory
alloc none m = (m.next, record m { vars = update m.vars m.next none; next = m.next + 1 })
alloc (some entries) m = (
  m.next,
  record {
    vars = update m.vars m.next (some m.next);
    objects = update m.objects m.next entries;
    next = m.next + 1;
  },
)

-- `(*p)[k] = v`: writing to a nil map panics.
unfoldable pub assign : ℕ → String → String → Memory → Outcome Memory
assign a k v m = elim (m.vars a) [
  | none ↦ panics
  | some r ↦ returns (record m { objects = update m.objects r (insert k v (m.objects r)) })
]

-- `delete(*p, k)`: on a nil map it does nothing.
unfoldable pub delete_at : ℕ → String → Memory → Memory
delete_at a k m = elim (m.vars a) [
  | none ↦ m
  | some r ↦ record m { objects = update m.objects r (remove k (m.objects r)) }
]

-- The `raft` and `snapshots` handles stand beside this record in `Kvstore.Ops.Process`; the
-- mutexes are not modelled.
pub record KvStore : Type 0 where
  pub store : ℕ
  pub writes_enabled : Bool
  pub last_snapshot_index : ℕ

-- `type KVFsm KVStore`.
abbrev pub KvFsm : Type 0
KvFsm = KvStore

unfoldable pub new_kv_store : Memory → KvStore × Memory
unfolding alloc
new_kv_store m =
    let (a, m') = alloc (some []) m in
    (record { store = a; writes_enabled = false; last_snapshot_index = 0 }, m')

unfoldable pub new_kv_fsm : ℕ → KvFsm
new_kv_fsm store = record { store = store; writes_enabled = true; last_snapshot_index = 0 }

-- The `switch` of `Apply`.
unfoldable pub apply_entry : KvfsmLogEntry → KvFsm → Memory → Outcome (KvFsm × Memory)
unfolding get_key get_value get_writes_enabled assign delete_at
apply_entry e f m =
    if eqb e.operation set_op
    then (assign f.store (get_key e) (get_value e) m >>= λ m'. returns (f, m'))
    else if eqb e.operation delete_op
    then returns (f, delete_at f.store (get_key e) m)
    else if eqb e.operation toggle_op
    then returns (record f { writes_enabled = get_writes_enabled e }, m)
    else returns (f, m)

-- The map reference, not a copy of the map.
pub record FsmSnapshot : Type 0 where
  pub store : Option ℕ
  pub writes_enabled : Bool

unfoldable pub snapshot : KvFsm → Memory → FsmSnapshot
snapshot f m = record { store = m.vars f.store; writes_enabled = f.writes_enabled }

-- `raft.SnapshotSink`.
pub record Sink : Type 1 where
  pub State : Type 0
  pub write : Bytes → State → State × Option Error
  pub cancel : State → State
  pub close : State → State × Option Error

-- What `Persist` marshals, from the map as it is when `Persist` runs.
unfoldable pub image : FsmSnapshot → Memory → KvfsmSnapshot
image fs m = record {
  kv_store = elim fs.store [ none ↦ none | some r ↦ some (m.objects r) ];
  writes_enabled = fs.writes_enabled;
}

module _ (p : Proto) where
  -- `Apply`: the error is what the future answers with, and nobody reads it.
  unfoldable pub apply : Bytes → KvFsm → Memory → Outcome (Option Error × KvFsm × Memory)
  unfolding apply_entry
  apply b f m = elim (p.unmarshal_entry b) [
    | err e ↦ returns (some e, f, m)
    | ok entry ↦ (apply_entry entry f m >>= λ t. returns (none, t.0, t.1))
  ]

  -- Raft gives the FSM the committed entries one after another.
  unfoldable pub deliver : List Bytes → KvFsm → Memory → Outcome (KvFsm × Memory)
  unfolding apply
  deliver [] f m = returns (f, m)
  deliver (b ∷ bs) f m = apply b f m >>= λ t. deliver bs t.1 t.2

  unfoldable pub persist :
      (sink : Sink) → FsmSnapshot → Memory → sink.State → sink.State × Option Error
  unfolding image
  persist sink fs m s = elim (p.marshal_snapshot (image fs m)) [
    | err e ↦ (sink.cancel s, some e)
    | ok b ↦
        let (s', written) = sink.write b s in
        elim written [ some e ↦ (sink.cancel s', some e) | none ↦ sink.close s' ]
  ]

  -- The argument is what `io.ReadAll` gives. The FSM takes the address of the decoded message's
  -- map; the flag of the message is not read.
  unfoldable pub restore : Result Bytes → KvFsm → Memory → Option Error × KvFsm × Memory
  unfolding alloc
  restore (err e) f m = (some e, f, m)
  restore (ok b) f m = elim (p.unmarshal_snapshot b) [
    | err e ↦ (some e, f, m)
    | ok t ↦ let (a, m') = alloc t.kv_store m in (none, record f { store = a }, m')
  ]
