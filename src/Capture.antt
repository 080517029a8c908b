-- ===== src/Capture.antt =====
-- internal/capture.go: the requests of Raft that are seen on the wire, and the names that replace
-- the addresses in what is logged of them.
pub mod Format
pub mod Stream
pub mod Cache
pub mod Closed
pub mod Answering
pub mod Reading
use Prim.Native.String.{◌++◌}
use Prim.Native.String as String
use Prim.Native.Char.{Char, code}
use sharded_kvs.Prelude.{
  ℕ, String, Bool, true, false, Option, none, some, List, [], ◌∷◌, ◌==◌, ◌||◌, eqb, if◌then◌else◌,
  GoMap, insert, lookup, Error, Result, ok, err, Outcome, returns, panics, ◌>>=◌,
}

-- The types of log entries that `appendEntriesToString` tells apart.
pub data LogType : Type 0 where
  command configuration : LogType
  other : ℕ → LogType

-- `raft.Log`
pub record Entry (Bytes : Type 0) : Type 0 where
  pub index : ℕ
  pub term : ℕ
  pub log_type : LogType
  pub data_bytes : Bytes

pub record AppendEntries (Bytes : Type 0) : Type 0 where
  pub term : ℕ
  pub leader : String
  pub prev_log_entry : ℕ
  pub prev_log_term : ℕ
  pub leader_commit_index : ℕ
  pub entries : List (Entry Bytes)

pub record RequestVote : Type 0 where
  pub term : ℕ
  pub candidate : String
  pub last_log_index : ℕ
  pub last_log_term : ℕ
  pub leadership_transfer : Bool

pub record InstallSnapshot (Bytes : Type 0) : Type 0 where
  pub term : ℕ
  pub leader : String
  pub snapshot_version : ℕ
  pub last_log_index : ℕ
  pub last_log_term : ℕ
  pub configuration : Bytes
  pub configuration_index : ℕ
  pub size : ℕ

-- `raft.Server`
pub record Member : Type 0 where
  pub id : String
  pub address : String
  pub suffrage : String

-- A part of a text: an address that the regular expression matches, or what is between two.
pub data Piece : Type 0 where
  plain : String → Piece
  address : String → Piece

pub data ByteRead : Type 0 where
  byte : ℕ → ByteRead
  end_of_stream failed : ByteRead

-- The libraries and what is outside the process. A stream is read through the world.
pub record Wire : Type 1 where
  pub World : Type 0
  pub Bytes : Type 0
  pub Packet : Type 0
  -- the text as `ipRegex` cuts it up
  pub pieces : String → List Piece
  -- `net.LookupAddr`
  pub lookup_addr : String → World → World × Result (List String)
  -- `LogType.String`
  pub log_type_text : LogType → String
  -- the text of a `KVFSMLogEntry`: `proto.Unmarshal` and then `String`, of what was unmarshalled
  -- until an error
  pub entry_text : Bytes → String
  -- `raft.DecodeConfiguration`, which panics on what is not a configuration
  pub decode_configuration : Bytes → Outcome (List Member)
  -- `%v` of a configuration
  pub configuration_text : List Member → String
  pub log : String → World → World
  -- the reader of a stream, and the decoder on it
  pub read_byte : World → World × ByteRead
  pub decode_append_entries : World → World × Result (AppendEntries Bytes)
  pub decode_request_vote : World → World × Result RequestVote
  pub decode_install_snapshot : World → World × Result (InstallSnapshot Bytes)
  pub decode_timeout_now : World → World × Result (Unit {0})
  -- pcap: whether opening the device and setting the filter succeed
  pub open_live : World → World × Bool
  pub set_filter : String → World → World × Bool
  pub close : World → World
  -- whether a packet has a TCP layer
  pub is_tcp : Packet → Bool
  pub assemble : Packet → World → World
  pub flush_old : World → World

-- Whether a text begins with another, and the rest if it does.
abbrev pub strip_prefix : String → String → Option String
strip_prefix String.[] s = some s
strip_prefix (String.◌∷◌ c p) String.[] = none
strip_prefix (String.◌∷◌ c p) (String.◌∷◌ d s) =
    if eqb (code c) (code d) then strip_prefix p s else none

-- `strings.HasSuffix(s, suffix)`
abbrev pub has_suffix : String → String → Bool
has_suffix String.[] suffix = suffix == ""
has_suffix (String.◌∷◌ c s) suffix = String.◌∷◌ c s == suffix || has_suffix s suffix

-- `strings.Replace(s, old, "", 1)`, where `old` is not empty.
abbrev pub remove_first : String → String → String
remove_first String.[] old = ""
remove_first (String.◌∷◌ c s) old =
    let rest = remove_first s old in
    elim (strip_prefix old (String.◌∷◌ c s)) [ some t ↦ t | none ↦ String.◌∷◌ c rest ]

abbrev pub domain : String
domain = ".kvs.svc.localho.st."

unfoldable pub short_name : String → String
short_name host = if has_suffix host domain then remove_first host domain else host

module _ (k : Wire) where
  -- `hostnameCache`, and what is outside.
  pub record Capturing : Type 0 where
    pub cache : GoMap String
    pub world : k.World

  -- A lookup with no name and no error would be an index out of range.
  unfoldable pub get_host_from_ip : String → k.World → Outcome (k.World × String)
  get_host_from_ip ip w =
      let (w', answer) = k.lookup_addr ip w in
      elim answer [
        | err e ↦ returns (w', ip)
        | ok [] ↦ panics
        | ok (host ∷ hosts) ↦ returns (w', host)
      ]

  unfoldable pub replace_ip : String → Capturing → Outcome (Capturing × String)
  unfolding get_host_from_ip short_name
  replace_ip ip s =
      let found = get_host_from_ip ip s.world >>= λ t.
      let name = short_name t.1 in
      returns (record { cache = insert ip name s.cache; world = t.0 }, name) in
      elim (lookup ip s.cache) [ some name ↦ returns (s, name) | none ↦ found ]

  unfoldable pub replace_pieces : List Piece → Capturing → Outcome (Capturing × String)
  unfolding replace_ip
  replace_pieces [] s = returns (s, "")
  replace_pieces (plain text ∷ pieces) s =
      replace_pieces pieces s >>= λ t. returns (t.0, text ++ t.1)
  replace_pieces (address ip ∷ pieces) s =
      replace_ip ip s >>= λ t. replace_pieces pieces t.0 >>= λ u. returns (u.0, t.1 ++ u.1)

  unfoldable pub replace_ips_with_hostnames : String → Capturing → Outcome (Capturing × String)
  unfolding replace_pieces
  replace_ips_with_hostnames text s = replace_pieces (k.pieces text) s
