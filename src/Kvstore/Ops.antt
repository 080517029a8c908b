-- ===== src/Kvstore/Ops.antt =====
-- The methods of `KVStore` in internal/raft/kvstore/kvstore.go, over one replica's process.
use sharded_kvs.Prelude.{
  ℕ, String, Bool, Option, none, some, List, [], ◌∷◌, eqb, same_bool, if◌then◌else◌, not, ◌&&◌,
  ◌||◌, ◌==◌, lookup, keys_of, itoa, GoMap, is_nothing_new, Error, not_leader, key_not_found,
  message, wrapped, Result, ok, err, Outcome, returns, ◌>>=◌,
}
use Prim.Native.String.{◌++◌}
use sharded_kvs.Protos.{Bytes, set_op, delete_op, toggle_op, KvfsmLogEntry, Proto}
use sharded_kvs.Raft.{Member, Raft}
use sharded_kvs.Kvstore.{KvStore, KvFsm, Memory, new_kv_fsm, entries, deliver, restore}
use sharded_kvs.Raft.Common.{Setup, setup_raft, shutdown_raft, join_replica}

-- One replica's process: its memory, the `KVStore`, the FSM that `Open` gave to Raft, and Raft.
pub record Process (r : Raft) : Type 0 where
  pub memory : Memory
  pub kv : KvStore
  pub fsm : KvFsm
  pub node : r.Node

-- `fmt.Sprintf("%s.%s:%d", replica, shard, raftPort)`
unfoldable pub server_id : String → String → ℕ → String
server_id replica shard raft_port = replica ++ ("." ++ (shard ++ (":" ++ itoa raft_port)))

-- `fmt.Sprintf("%s:%d", ip, raftPort)`
unfoldable pub server_address : String → ℕ → String
server_address ip raft_port = ip ++ (":" ++ itoa raft_port)

abbrev pub set_entry : String → String → KvfsmLogEntry
set_entry key value = record {
  operation = set_op;
  key = some key;
  value = some value;
  writes_enabled = none;
}

abbrev pub delete_entry : String → KvfsmLogEntry
delete_entry key = record {
  operation = delete_op;
  key = some key;
  value = none;
  writes_enabled = none;
}

abbrev pub toggle_entry : Bool → KvfsmLogEntry
toggle_entry b = record { operation = toggle_op; key = none; value = none; writes_enabled = some b }

module _ (r : Raft) where
  unfoldable pub get : String → Process r → Result String
  get key s = elim (lookup key (entries s.kv.store s.memory)) [
    | some v ↦ ok v
    | none ↦ err key_not_found
  ]

  -- The keys in the order of the model's map; Go's order is not specified.
  unfoldable pub keys : Process r → List String
  keys s = keys_of (entries s.kv.store s.memory)

  unfoldable pub get_writes_enabled : Process r → Bool
  get_writes_enabled s = s.kv.writes_enabled

  unfoldable pub has_latest_logs : Process r → Bool
  has_latest_logs s = eqb (r.applied_index s.node) (r.last_index s.node)

  unfoldable pub leader : Process r → String
  leader s = r.leader_id s.node

  unfoldable pub close : Process r → Process r × Option Error
  close s = let (n, e) = shutdown_raft r s.node in (record s { node = n }, e)

  -- Remove every member that clashes with the new one; stop at a member that is the new one.
  unfoldable pub join_loop : List Member → String → String → r.Node → r.Node × Option Error
  join_loop [] id address n = join_replica r id address n
  join_loop (m ∷ ms) id address n =
      let removed = r.remove_server m.id n in
      let rest = join_loop ms id address removed.0 in
      let next = join_loop ms id address n in
      if m.id == id || m.address == address
      then (if m.id == id && m.address == address then (n, none) else elim removed.1 [
        | some e ↦ (removed.0, some (wrapped "failed to remove existing replica" e))
        | none ↦ rest
      ])
      else next

  unfoldable pub join : String → ℕ → String → String → Process r → Process r × Option Error
  join ip raft_port shard replica s =
      let id = server_id replica shard raft_port in
      let address = server_address ip raft_port in
      if not (r.is_leader s.node) then (s, none) else elim (r.configuration s.node) [
        | err e ↦ (s, some (wrapped "failed to get raft configuration" e))
        | ok servers ↦
            let (n, e) = join_loop servers id address s.node in (record s { node = n }, e)
      ]

  unfoldable pub demote_voter : ℕ → String → String → Process r → Process r × Option Error
  demote_voter raft_port shard replica s =
      if not (r.is_leader s.node)
      then (s, none)
      else (let (n, e) = r.demote_voter (server_id replica shard raft_port) s.node in
          (record s { node = n }, e))

  module _ (p : Proto) where
    -- `k.raft.Apply(entry, 10*time.Second).Error()`
    unfoldable pub raft_apply : Bytes → Process r → Outcome (Process r × Option Error)
    raft_apply b s =
        let a = r.apply b s.node in
        deliver p a.delivered s.fsm s.memory >>= λ t.
        returns (record s { memory = t.1; fsm = t.0; node = a.node }, a.error)

    -- Marshal an entry and hand it to Raft, as the three methods below do.
    unfoldable pub submit : KvfsmLogEntry → Process r → Outcome (Process r × Option Error)
    submit e s = elim (p.marshal_entry e) [
      | err x ↦ returns (s, some x)
      | ok bytes ↦ raft_apply bytes s
    ]

    unfoldable pub set_writes_enabled : Bool → Process r → Outcome (Process r × Option Error)
    set_writes_enabled b s =
        if same_bool s.kv.writes_enabled b then returns (s, none) else submit (toggle_entry b) s

    unfoldable pub set : String → String → Process r → Outcome (Process r × Option Error)
    set key value s =
        if not (r.is_leader s.node)
        then returns (s, some not_leader)
        else submit (set_entry key value) s

    unfoldable pub delete : String → Process r → Outcome (Process r × Option Error)
    delete key s =
        if not (r.is_leader s.node)
        then returns (s, some not_leader)
        else submit (delete_entry key) s

    -- The error of the FSM's `Restore` of a snapshot while `Open` sets Raft up.
    abbrev pub restoring : KvStore → Memory → Bytes → Option Error
    restoring kv m b = (restore p (ok b) (new_kv_fsm kv.store) m).0

    -- `Open`: the FSM is made over the map variable of the `KVStore`. Raft restores it from the
    -- latest snapshot that it can, if there is one, and the open fails if there are only others.
    unfoldable pub open_store :
        (Setup r)
        → String
        → String
        → ℕ
        → String
        → String
        → Bool
        → KvStore
        → Memory
        → Result (Process r)
    open_store setup dir ip raft_port shard replica should_bootstrap kv m =
        elim (setup_raft r setup (restoring kv m) dir (server_id replica shard raft_port)
          (server_address ip raft_port) should_bootstrap) [
            | err e ↦ err e
            | ok (n, none, snapshots) ↦ ok (started n (new_kv_fsm kv.store) m)
            | ok (n, some b, snapshots) ↦
                let (e, f, m') = restore p (ok b) (new_kv_fsm kv.store) m in
                elim e [
                  | some x ↦ err (wrapped "could not create raft instance" x)
                  | none ↦ ok (started n f m')
                ]
          ]
      where
        started : r.Node → KvFsm → Memory → Process r
        started n f m' = record { memory = m'; kv = kv; fsm = f; node = n }

    -- `KVStore.Snapshot`. The errors after the first wrap the future's error, which is nil there.
    unfoldable pub take_snapshot : Process r → Process r × Result (Option (GoMap String))
    take_snapshot s =
        let t = r.snapshot s.node in
        let s' : Process r = record s { node = t.node } in
        elim t.error [
          | some e ↦
              if is_nothing_new e
              then (s', ok (some []))
              else (s', err (wrapped "could not perform snapshot" e))
          | none ↦ elim t.opened [
            | err e ↦ (s', err (message "could not open snapshot"))
            | ok (index, err e) ↦ (s', err (message "could not read snapshot"))
            | ok (index, ok bytes) ↦ elim (p.unmarshal_snapshot bytes) [
              | err e ↦ (s', err (message "could not parse snapshot"))
              | ok decoded ↦ (
                record s' { kv = record s'.kv { last_snapshot_index = index } },
                ok decoded.kv_store,
              )
            ]
          ]
        ]
