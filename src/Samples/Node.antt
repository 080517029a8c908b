-- ===== src/Samples/Node.antt =====
-- A Raft of one replica that applies at once what it is given while it leads, and a setup for it.
use sharded_kvs.Prelude.{
  String, refl, Bool, true, false, Option, none, some, List, [], ◌∷◌, ◌==◌, if◌then◌else◌,
  not_leader, nothing_new_to_snapshot, ok, err, arith, ◌++◌,
}
use sharded_kvs.Protos.{Bytes}
use sharded_kvs.Raft.{Raft, Member, Applied}
use sharded_kvs.Raft.Common.{Setup}
use sharded_kvs.Kvstore.{Memory, new_kv_store, new_kv_fsm}
use sharded_kvs.Kvstore.Ops.{Process}
use sharded_kvs.Kvstore.Reads.{Applies, Quiet, IsShared}

pub record SampleNode : Type 0 where
  pub leading : Bool
  pub leader : String
  pub members : List Member

without : String → List Member → List Member
without id [] = []
without id (m ∷ ms) = let rest = without id ms in if m.id == id then rest else m ∷ rest

pub sample_apply : Bytes → SampleNode → Applied SampleNode
sample_apply b n =
    if n.leading
    then record { node = n; error = none; delivered = b ∷ [] }
    else record { node = n; error = some not_leader; delivered = [] }

unfoldable pub sample_raft : Raft
unfolding sample_apply without
sample_raft = record {
  Node = SampleNode;
  is_leader = λ n. n.leading;
  leader_id = λ n. n.leader;
  applied_index = λ n. 0;
  last_index = λ n. 0;
  apply = sample_apply;
  configuration = λ n. ok n.members;
  remove_server = λ id n. (record n { members = without id n.members }, none);
  add_voter = λ id address n. (
    record n { members = n.members ++ record { id = id; address = address; voter = true } ∷ [] },
    none,
  );
  demote_voter = λ id n. (n, none);
  leadership_transfer = λ n. (record n { leading = false }, none);
  snapshot = λ n. record {
    node = n;
    error = some nothing_new_to_snapshot;
    opened = err nothing_new_to_snapshot;
  };
}

pub sample-Applies : Applies sample_raft
unfolding sample_raft
sample-Applies b n h = ([], ground arith)

pub sample-Quiet : Quiet sample_raft
unfolding sample_raft
sample-Quiet b n = ground arith

abbrev pub empty_memory : Memory
empty_memory = record { vars = λ a. none; objects = λ a. []; next = 0 }

abbrev pub node_at : Bool → String → sample_raft.Node
unfolding sample_raft
node_at leading leader = record { leading = leading; leader = leader; members = [] }

-- A process whose FSM shares the map of its `KVStore`, as `Open` makes it with no snapshot.
unfoldable pub fresh_process : Bool → String → Process sample_raft
unfolding new_kv_store new_kv_fsm sample_raft
fresh_process leading leader =
    let (kv, m) = new_kv_store empty_memory in
    record {
      memory = m;
      kv = kv;
      fsm = new_kv_fsm kv.store;
      node = record { leading = leading; leader = leader; members = [] };
    }

pub fresh-IsShared : (b : Bool) (l : String) → IsShared sample_raft (fresh_process b l)
unfolding fresh_process
fresh-IsShared b l = record { same = refl; object = 0; bound = refl }

-- A setup in which every step succeeds; `NewRaft` restores the snapshot that is given, if any.
unfoldable pub sample_setup : Option Bytes → Bool → Setup sample_raft
unfolding sample_raft
sample_setup restored leading = record {
  BoltStore = String;
  SnapshotStore = String;
  Address = String;
  Transport = String;
  path_join = λ dir name. dir;
  new_bolt_store = λ dir. ok dir;
  new_file_snapshot_store = λ dir. ok dir;
  resolve_tcp_addr = λ address. ok address;
  address_text = λ address. address;
  new_tcp_transport = λ address tcp_addr. ok tcp_addr;
  local_addr = λ t. t;
  new_raft = λ restoring id store snapshots transport.
      let made : SampleNode = record { leading = leading; leader = id; members = [] } in
      elim restored [
        | none ↦ ok (made, none)
        | some b ↦ elim (restoring b) [ none ↦ ok (made, some b) | some e ↦ err e ]
      ];
  bootstrap_cluster = λ id address n. (n, none);
}
