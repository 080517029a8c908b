-- ===== src/Capture/Format.antt =====
-- What is logged of a request: `appendEntriesToString`, `requestVoteToString` and
-- `installSnapshotToString` of internal/capture.go.
use Prim.Native.String.{◌++◌}
use sharded_kvs.Prelude.{
  ℕ, suc, String, Bool, List, [], ◌∷◌, itoa, if◌then◌else◌, Outcome, returns, ◌>>=◌,
}
use sharded_kvs.Capture.{
  LogType, command, configuration, other, Entry, AppendEntries, RequestVote, InstallSnapshot,
  Member, Wire, Capturing, replace_ips_with_hostnames,
}

-- A line of `fmt.Sprintf` with the text or the number at its end.
abbrev line : String → String → String
line name value = name ++ (value ++ "\n")

abbrev number_line : String → ℕ → String
number_line name n = line name (itoa n)

-- `%t`
abbrev bool_text : Bool → String
bool_text b = if b then "true" else "false"

unfoldable pub members_text : ℕ → List Member → String
members_text i [] = ""
members_text i (member ∷ members) =
    line "        Server " (itoa i ++ ":")
    ++ line "          ID: " member.id
    ++ line "          Address: " member.address
    ++ line "          Suffrage: " member.suffrage
    ++ members_text (suc i) members

module _ (k : Wire) where
  unfoldable pub data_text : Entry k.Bytes → LogType → Outcome String
  unfolding members_text
  data_text entry command = returns (line "      Data: " (k.entry_text entry.data_bytes))
  data_text entry configuration = k.decode_configuration entry.data_bytes >>= λ members.
      returns ("      Data:\n" ++ members_text 0 members)
  data_text entry (other n) = returns ""

  unfoldable pub entries_text : ℕ → List (Entry k.Bytes) → Outcome String
  unfolding data_text
  entries_text i [] = returns ""
  entries_text i (entry ∷ entries) = data_text entry entry.log_type >>= λ text.
      entries_text (suc i) entries >>= λ rest. returns (
        line "    Entry " (itoa i ++ ":")
        ++ number_line "      Index: " entry.index
        ++ number_line "      Term: " entry.term
        ++ line "      Type: " (k.log_type_text entry.log_type)
        ++ text
        ++ rest)

  unfoldable pub append_entries_to_string :
      AppendEntries k.Bytes → Capturing k → Outcome (Capturing k × String)
  unfolding entries_text
  append_entries_to_string r s = replace_ips_with_hostnames k r.leader s >>= λ t.
      entries_text 0 r.entries >>= λ entries. returns (
        t.0,
        number_line "  Term: " r.term
            ++ line "  Leader: " t.1
            ++ number_line "  PrevLogEntry: " r.prev_log_entry
            ++ number_line "  PrevLogTerm: " r.prev_log_term
            ++ number_line "  LeaderCommitIndex: " r.leader_commit_index
            ++ "  Entries:\n"
            ++ entries,
      )

  unfoldable pub request_vote_to_string : RequestVote → Capturing k → Outcome (Capturing k × String)
  request_vote_to_string r s = replace_ips_with_hostnames k r.candidate s >>= λ t. returns (
    t.0,
    number_line "  Term: " r.term
        ++ line "  Candidate: " t.1
        ++ number_line "  LastLogIndex: " r.last_log_index
        ++ number_line "  LastLogTerm: " r.last_log_term
        ++ line "  LeadershipTransfer: " (bool_text r.leadership_transfer),
  )

  unfoldable pub install_snapshot_to_string :
      InstallSnapshot k.Bytes → Capturing k → Outcome (Capturing k × String)
  install_snapshot_to_string r s = k.decode_configuration r.configuration >>= λ members.
      replace_ips_with_hostnames k r.leader s >>= λ t. returns (
        t.0,
        number_line "  Term: " r.term
            ++ line "  Leader: " t.1
            ++ number_line "  SnapshotVersion: " r.snapshot_version
            ++ number_line "  LastLogIndex: " r.last_log_index
            ++ number_line "  LastLogTerm: " r.last_log_term
            ++ line "  Configuration: " (k.configuration_text members)
            ++ number_line "  ConfigurationIndex: " r.configuration_index
            ++ number_line "  Size: " r.size,
      )
