-- ===== src/Raft/Common.antt =====
-- internal/raft/common.go: setting a Raft replica up and shutting it down, joining a voter.
use sharded_kvs.Prelude.{
  String, Bool, Option, none, some, not, if◌then◌else◌, Error, wrapped, Result, ok, err,
}
use sharded_kvs.Protos.{Bytes}
use sharded_kvs.Raft.{Raft}

module _ (r : Raft) where
  -- A leader hands its leadership over and then takes a snapshot.
  unfoldable pub shutdown_raft : r.Node → r.Node × Option Error
  shutdown_raft n =
      let transferred = r.leadership_transfer n in
      let taken = r.snapshot transferred.0 in
      if r.is_leader n
      then elim transferred.1 [
        | some e ↦ (transferred.0, some (wrapped "could not demote leader" e))
        | none ↦ elim taken.error [
          | some e ↦ (taken.node, some (wrapped "could not snapshot" e))
          | none ↦ (taken.node, none)
        ]
      ]
      else (n, none)

  unfoldable pub join_replica : String → String → r.Node → r.Node × Option Error
  join_replica id address n =
      let (added, e) = r.add_voter id address n in
      if not (r.is_leader n) then (n, none) else elim e [
        | some x ↦ (added, some (wrapped "could not add voter" x))
        | none ↦ (added, none)
      ]

-- The libraries that `SetupRaft` calls, each step with what it makes.
pub record Setup (r : Raft) : Type 1 where
  pub BoltStore : Type 0
  pub SnapshotStore : Type 0
  pub Address : Type 0
  pub Transport : Type 0
  -- `path.Join` of two parts
  pub path_join : String → String → String
  -- `raftboltdb.NewBoltStore`
  pub new_bolt_store : String → Result BoltStore
  -- `raft.NewFileSnapshotStore(dir, 2, os.Stderr)`
  pub new_file_snapshot_store : String → Result SnapshotStore
  -- `net.ResolveTCPAddr("tcp", address)`, and its result as text
  pub resolve_tcp_addr : String → Result Address
  pub address_text : Address → String
  pub new_tcp_transport : String → Address → Result Transport
  pub local_addr : Transport → String
  -- `raft.NewRaft` under the configuration of the source, for a local id. It calls the FSM's
  -- `Restore`, which stands here as its error for the bytes of a snapshot. The bytes that it answers
  -- are those that were restored, if any; where no snapshot can be restored it is an error.
  pub new_raft :
      (Bytes → Option Error)
      → String
      → BoltStore
      → SnapshotStore
      → Transport
      → Result (r.Node × Option Bytes)
  -- `BootstrapCluster` with one server
  pub bootstrap_cluster : String → String → r.Node → r.Node × Option Error

-- The first error ends a function that returns `fmt.Errorf(text + ": %s", err)`.
abbrev pub or_wrap {ℓ κ} : {A : Type ℓ} {B : Type κ} → String → Result A → (A → Result B) → Result B
or_wrap text (ok a) k = k a
or_wrap text (err e) k = err (wrapped text e)

module _ (r : Raft) (s : Setup r) where
  open s use {
    SnapshotStore, path_join, new_bolt_store, new_file_snapshot_store, resolve_tcp_addr,
    address_text, new_tcp_transport, local_addr, new_raft, bootstrap_cluster,
  }

  -- `serverAddressProvider.ServerAddr`
  unfoldable pub server_addr : String → Result String
  server_addr id = elim (resolve_tcp_addr id) [ err e ↦ err e | ok a ↦ ok (address_text a) ]

  unfoldable pub bootstrap : Bool → String → s.Transport → r.Node → Result r.Node
  bootstrap should_bootstrap id transport n =
      let (n', e) = bootstrap_cluster id (local_addr transport) n in
      if should_bootstrap
      then elim e [ some x ↦ err (wrapped "could not bootstrap cluster" x) | none ↦ ok n' ]
      else ok n

  -- `restoring` is the error of the FSM's `Restore`, and the bytes are the snapshot that the FSM was
  -- restored from. The timeouts and the logger of the configuration are not modelled.
  unfoldable pub setup_raft :
      (Bytes → Option Error)
      → String
      → String
      → String
      → Bool
      → Result (r.Node × Option Bytes × SnapshotStore)
  unfolding bootstrap
  setup_raft restoring dir id address should_bootstrap =
      or_wrap "could not create bolt store" (new_bolt_store (path_join dir "bolt")) λ store.
        or_wrap "could not create snapshot store"
          (new_file_snapshot_store (path_join dir "snapshot"))
          λ snapshots. or_wrap "could not resolve address" (resolve_tcp_addr address) λ tcp_addr.
            or_wrap "could not create tcp transport" (new_tcp_transport address tcp_addr)
              λ transport.
                or_wrap "could not create raft instance"
                  (new_raft restoring id store snapshots transport)
                  λ n. elim (bootstrap should_bootstrap id transport n.0) [
                    | err e ↦ err e
                    | ok n' ↦ ok (n', n.1, snapshots)
                  ]
