-- ===== src/Samples/Wires.antt =====
-- A resolver that knows one host, or none, and streams that hold what is given.
use sharded_kvs.Prelude.{
  ℕ, suc, String, Bool, true, false, List, [], ◌∷◌, ◌==◌, if◌then◌else◌, library, Result, ok, err,
  returns,
}
use sharded_kvs.Capture.{
  Piece, plain, address, command, AppendEntries, ByteRead, end_of_stream, Wire,
}

pub record SampleWire : Type 0 where
  pub knows : Bool
  pub unread : List ByteRead
  pub printed : List String
  pub assembled : ℕ
  pub closed : Bool

-- The whole text is one address, or there is none.
abbrev sample_pieces : String → List Piece
sample_pieces text = if text == "10.0.0.1" then address text ∷ [] else plain text ∷ []

abbrev sample_lookup : SampleWire → Result (List String)
sample_lookup w = if w.knows then ok ("shard-0-0.kvs.svc.localho.st." ∷ []) else err (library 4)

abbrev sample_append : AppendEntries ℕ
sample_append = record {
  term = 2;
  leader = "10.0.0.1";
  prev_log_entry = 5;
  prev_log_term = 1;
  leader_commit_index = 5;
  entries = record { index = 6; term = 2; log_type = command; data_bytes = 0 } ∷ [];
}

abbrev sample_read : SampleWire → SampleWire × ByteRead
sample_read w = elim w.unread [
  | [] ↦ (w, end_of_stream)
  | b ∷ rest ↦ (record w { unread = rest }, b)
]

abbrev pub sample_wire : Wire
sample_wire = record {
  World = SampleWire;
  Bytes = ℕ;
  Packet = Unit;
  pieces = sample_pieces;
  lookup_addr = λ ip w. (w, sample_lookup w);
  log_type_text = λ t. "LogCommand";
  entry_text = λ b. "";
  decode_configuration = λ b. returns [];
  configuration_text = λ members. "{[]}";
  log = λ text w. record w { printed = text ∷ w.printed };
  read_byte = sample_read;
  decode_append_entries = λ w. (w, ok sample_append);
  decode_request_vote = λ w. (w, err (library 5));
  decode_install_snapshot = λ w. (w, err (library 5));
  decode_timeout_now = λ w. (w, ok tt);
  open_live = λ w. (w, true);
  set_filter = λ text w. (w, true);
  close = λ w. record w { closed = true };
  is_tcp = λ p. true;
  assemble = λ p w. record w { assembled = suc w.assembled };
  flush_old = λ w. w;
}

abbrev pub wire_with : List ByteRead → SampleWire
wire_with unread = record {
  knows = true;
  unread = unread;
  printed = [];
  assembled = 0;
  closed = false;
}
