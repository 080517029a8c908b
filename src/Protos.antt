-- ===== src/Protos.antt =====
-- The messages of internal/protos that the servers exchange (protos/*.proto and the code generated
-- from them), and `proto.Marshal` and `proto.Unmarshal` as an interface with their documented laws.
use sharded_kvs.Prelude.{
  ℕ, String, ◌≡◌, Bool, false, Option, none, some, List, [], GoMap, lookup, Result, ok,
}

abbrev pub Bytes : Type 0
Bytes = List ℕ

-- The operations of a log entry, an `iota` block.
abbrev pub set_op : ℕ
set_op = 0

abbrev pub delete_op : ℕ
delete_op = 1

abbrev pub toggle_op : ℕ
toggle_op = 2

-- `operation` is an int32. A negative one has no case in the source either, and is not modelled.
pub record KvfsmLogEntry : Type 0 where
  pub operation : ℕ
  pub key : Option String
  pub value : Option String
  pub writes_enabled : Option Bool

unfoldable pub get_key : KvfsmLogEntry → String
get_key e = elim e.key [ none ↦ "" | some k ↦ k ]

unfoldable pub get_value : KvfsmLogEntry → String
get_value e = elim e.value [ none ↦ "" | some v ↦ v ]

unfoldable pub get_writes_enabled : KvfsmLogEntry → Bool
get_writes_enabled e = elim e.writes_enabled [ none ↦ false | some b ↦ b ]

-- `kv_store` is a Go map, which may be nil.
pub record KvfsmSnapshot : Type 0 where
  pub kv_store : Option (GoMap String)
  pub writes_enabled : Bool

-- Reading a nil map is reading an empty one.
abbrev pub contents : Option (GoMap String) → GoMap String
contents none = []
contents (some m) = m

-- The same entries and the same flag; a map with no entries is not on the wire, and comes back nil.
pub record Decoded (s t : KvfsmSnapshot) : Type 0 where
  pub views : (j : String) → lookup j (contents t.kv_store) ≡ lookup j (contents s.kv_store)
  pub flag : t.writes_enabled ≡ s.writes_enabled
  pub no_entries : contents s.kv_store ≡ [] → t.kv_store ≡ none

-- google.golang.org/protobuf: what was marshalled is unmarshalled to the same message.
pub record Proto : Type 0 where
  pub marshal_entry : KvfsmLogEntry → Result Bytes
  pub unmarshal_entry : Bytes → Result KvfsmLogEntry
  pub marshal_snapshot : KvfsmSnapshot → Result Bytes
  pub unmarshal_snapshot : Bytes → Result KvfsmSnapshot
  pub entry_round_trip :
      (e : KvfsmLogEntry) (b : Bytes) → marshal_entry e ≡ ok b → unmarshal_entry b ≡ ok e
  pub snapshot_round_trip :
      (s : KvfsmSnapshot) (b : Bytes)
      → marshal_snapshot s ≡ ok b
      → (t : KvfsmSnapshot) × (unmarshal_snapshot b ≡ ok t) × Decoded s t

pub record PutRequest : Type 0 where
  pub key : String
  pub value : String

pub record InternalPutRequest : Type 0 where
  pub key : String
  pub value : String
  pub is_redistribution : Bool
