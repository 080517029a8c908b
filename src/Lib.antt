-- ===== src/Lib.antt =====
-- A sharded, replicated key-value store, and the Kubernetes controller that changes its shards.
--
-- The parts. A key belongs to a shard, by a consistent-hashing ring over the shards' names. A shard
-- is a Raft cluster of replicas, each a process of cmd/shard/shard.go. A process answers clients
-- (`kvServer`), other shards (`shardRpcServer`) and its own replicas (`replicaRpcServer`); its data
-- is the map of internal/raft/kvstore/kvstore.go, which the entries that Raft commits change. The
-- controller in kvctl/ creates shards and deletes them; in between it has writes paused, keys moved
-- to the shards of the new ring, and writes resumed, one phase of the resource's status after
-- another.
--
-- Prelude: the names that all files share, and Go's values. `Result` is a pair of a value and an
--   error, of which callers read one; `Outcome` is a call that returns, panics, or is still in a loop
--   that retries; `GoMap` is a map; `itoa` is decimal text.
-- Protos: the messages of internal/protos that carry data, and the parameter `Proto` for the
--   protobuf library, with the law that unmarshalling gives back what was marshalled.
-- Raft: the parameter `Raft` for github.com/hashicorp/raft, a node with its operations. An `Apply`
--   says what it delivers to this replica's FSM meanwhile. Raft.Common: internal/raft/common.go.
-- Kvstore: internal/raft/kvstore/kvstore.go. A Go map is an object in `Memory`, and a struct field
--   that holds a map has an address, since `KVStore` and `KVFsm` share one and `Restore` parts them.
--   Kvstore: the FSM (`Apply`, `Snapshot`, `Persist`, `Restore`). Kvstore.Ops: `KVStore`. Replay:
--   the FSM against an independent reading of the log. Runs: a process through calls, committed
--   entries and installed snapshots. Membership, Moves, Reads, Touch, Purge, Total, Snapshots, Flag,
--   Alone, Detached: proofs.
-- Server: cmd/shard/shard.go. Server: the package's variables, and the parameters `Hashing`
--   (github.com/buraksezer/consistent) and `Net` (the generated gRPC clients, dialling, the
--   configuration file); a call may come back to the server that makes it. Routing: `kvServer`.
--   ShardRpc, ReplicaRpc: the other two services. Clients: the client maps. Redistribute:
--   `RedistributeKeys`. Interleaving: its loop in atomic steps, with clients' writes between them.
--   Startup: `JoinCluster` and `main`. Listening: the three gRPC servers, over the parameter
--   `Sockets`. Laws: what proofs assume of the world. Steady, Relocation, Finishing,
--   Interleaving.Atomic, Interleaving.Others, Interleaving.Safety, Interleaving.Lost, Writes,
--   Pending, Connected, Asking, Joining: proofs.
-- Server.Network: several processes of cmd/shard/shard.go, every shard with one replica. The
--   interface `Net` is filled with the program's own handlers: a call of another shard runs the
--   handler of the process at its address. Written, Leading, Effects: what a write at one process
--   leaves of all. Remotes: this network meets the laws of Laws. Layout, Clients, Requests: the
--   deployment as one map, and the requests of clients. Rescaling, Rounds, Purging, Sending,
--   Moving, Moves: the loops of `RedistributeKeys` at all the shards. Reloading, Reloads:
--   `ReloadConfig` at each of them. Actions, During, Missing, Switching: clients while keys are
--   moved, before the reloads, and after them.
-- Controller: kvctl/api/v1/kvstore_types.go and kvctl/internal/controller/kvstore_controller.go. The
--   parameter `Cluster` is the API server and the shards that the controller calls. Objects: what is
--   created. Config: `UpdateConfigMap`. SpinUp: the three SpinUp functions. Phases: the handlers of
--   the phases. Reconcile: `Reconcile`. Steps: the state machine of the status. Kept, Transitions,
--   Scaling, Lifecycle: `Reconcile` against it. Groups, Published, Drained, Blind: what is deleted,
--   what the servers are told, when a phase ends, and lists that fail. Cooperative, Nearer, Progress:
--   several requests, in a cluster in which every call succeeds.
-- Manager: kvctl/cmd/main.go, as the calls of controller-runtime that it makes, each with its answer.
--   Manager: the flags and the TLS options. Main: the calls, `SetupWithManager` among them. Owners:
--   the index of owned objects. Tls, Started: proofs.
-- Webhook: kvctl/internal/webhook/v1/kvstore_webhook.go.
-- Client: cmd/client/client.go, over the parameter `Console`.
-- Capture: internal/capture.go, over the parameter `Wire` (pcap, gopacket, the resolver, the regular
--   expression and the decoders). Capture: the cache of names. Format: the texts of requests. Stream:
--   the loop of a stream and `RunPacketCapture`, whose events are a list. Cache, Answering, Reading,
--   Closed: proofs.
-- Samples and Examples: concrete parameters, and the theorems applied to them.
--
-- Numbers. Counts of shards are natural numbers. A count of pending keys is the unsigned number with
-- the bits of its int32, and their sum, an int, has 64 bits: the sign is extended and the sum wraps
-- around. Fuel bounds the loops that retry until something outside changes: dialling, looking for
-- a leader, waiting for logs, the client's menu, and the bytes of a captured stream. Such a loop may
-- go on for ever in the program too, and `waits` says that the fuel was used up. All other loops are
-- structural recursion.
--
-- Not modelled: generated code but for the messages, and how goroutines interleave inside a handler
-- other than the loop of `RedistributeKeys`: a handler runs as a whole, and what others do
-- meanwhile is part of the calls that it makes. Server.Network has no replicas besides the leader
-- of each shard, and none of its processes fails but by a panic. Logging is left out, except where
-- it is all that the code does.
pub mod Prelude
pub mod Protos
pub mod Raft
pub mod Kvstore
pub mod Server
pub mod Controller
pub mod Manager
pub mod Webhook
pub mod Client
pub mod Capture
pub mod Samples
pub mod Examples
