-- ===== src/Examples/Capturing.antt =====
-- Captures of a heartbeat's address, of a stream, and of packets.
use sharded_kvs.Prelude.{
  ◌<◌, none, some, List, [], ◌∷◌, ◌++◌, ◌≡◌, ◌≢◌, refl, length, arith, returns, panics, waits,
  insert, lookup, true, false,
}
use sharded_kvs.Capture.{
  ByteRead, byte, end_of_stream, failed, Capturing, short_name, get_host_from_ip, replace_ip,
  replace_pieces, replace_ips_with_hostnames,
}
use sharded_kvs.Capture.Stream.{Event, cancelled, packet, tick, run_stream, run_packet_capture}
use sharded_kvs.Capture.Cache.{replace_again}
use sharded_kvs.Capture.Answering.{Finite}
use sharded_kvs.Capture.Reading.{run_stream-Finite}
use sharded_kvs.Capture.Closed.{run_packet_capture-ends}
use sharded_kvs.Samples.Wires.{SampleWire, sample_wire, wire_with}

abbrev at_first : Capturing sample_wire
at_first = record { cache = []; world = wire_with [] }

abbrev learnt : Capturing sample_wire
learnt = record { cache = ("10.0.0.1", "shard-0-0") ∷ []; world = wire_with [] }

-- The host is no longer known.
abbrev later : Capturing sample_wire
later = record { cache = learnt.cache; world = record (wire_with []) { knows = false } }

replaced :
    replace_ips_with_hostnames sample_wire "10.0.0.1" at_first ≡ returns (learnt, "shard-0-0")
unfolding replace_ips_with_hostnames replace_pieces replace_ip get_host_from_ip short_name insert
    lookup
replaced = refl

replace_again_example :
    replace_ips_with_hostnames sample_wire "10.0.0.1" later ≡ returns (later, "shard-0-0")
replace_again_example =
    replace_again sample_wire "10.0.0.1" "shard-0-0" at_first learnt later replaced (λ ip name h. h)

abbrev seen : List (Event sample_wire)
seen = packet (some tt) ∷ tick ∷ []

run_packet_capture-ends_example :
    (run_packet_capture sample_wire "10.0.0.1" "8081" (seen ++ cancelled ∷ tick ∷ []) (wire_with [])
      ≡ returns (record (wire_with []) { assembled = 1; closed = true }))
    × (run_packet_capture sample_wire "10.0.0.1" "8081"
          (seen ++ packet none ∷ tick ∷ [])
          (wire_with [])
        ≡ panics)
run_packet_capture-ends_example =
    run_packet_capture-ends sample_wire "10.0.0.1" "8081" (wire_with []) seen (tick ∷ []) refl refl
      (tt, (tt, tt))

read_shrinks :
    (w : SampleWire)
    → (sample_wire.read_byte w).1 ≢ end_of_stream
    → length (sample_wire.read_byte w).0.unread < length w.unread
read_shrinks w more = go w.unread refl
  where
    go :
        (unread : List ByteRead)
        → w.unread ≡ unread
        → length (sample_wire.read_byte w).0.unread < length w.unread
    go [] q = absurd (more (rw q refl))
    go (b ∷ rest) q = rw q (omega arith)

abbrev sample-Finite : Finite sample_wire
sample-Finite = record {
  left = λ w. length w.unread;
  shrinks = read_shrinks;
  append_entries = λ w. omega arith;
  request_vote = λ w. omega arith;
  install_snapshot = λ w. omega arith;
  timeout_now = λ w. omega arith;
  logs = λ text w. omega arith;
  lookups = λ ip w. omega arith;
  decodes = λ b. tt;
}

-- A request with an entry, an error, and an unknown one.
abbrev streaming : Capturing sample_wire
streaming = record { cache = []; world = wire_with (byte 0 ∷ failed ∷ byte 9 ∷ []) }

run_stream-Finite_example : run_stream sample_wire 4 "10.0.0.1" streaming ≢ waits
run_stream-Finite_example =
    run_stream-Finite sample_wire sample-Finite 4 "10.0.0.1" streaming (omega arith)
