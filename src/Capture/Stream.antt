-- ===== src/Capture/Stream.antt =====
-- The goroutine of a stream, `run`, and `RunPacketCapture` of internal/capture.go.
use Prim.Native.String.{◌++◌}
use sharded_kvs.Prelude.{
  ℕ, zero, suc, String, Option, none, some, List, [], ◌∷◌, itoa, is_empty, if◌then◌else◌, ok, err,
  Outcome, returns, panics, waits, ◌>>=◌,
}
use sharded_kvs.Capture.{byte, end_of_stream, failed, Wire, Capturing, replace_ips_with_hostnames}
use sharded_kvs.Capture.Format.{
  append_entries_to_string, request_vote_to_string, install_snapshot_to_string,
}

module _ (k : Wire) where
  abbrev pub logged : String → Capturing k → Capturing k
  logged text s = record s { world = k.log text s.world }

  -- The request is logged with the name of the host that it is sent to.
  unfoldable pub log_request :
      String
      → String
      → (Capturing k → Outcome (Capturing k × String))
      → Capturing k
      → Outcome (Capturing k)
  log_request destination name to_string s = replace_ips_with_hostnames k destination s >>= λ t.
      to_string t.0 >>= λ u.
      returns (logged ("Sending " ++ name ++ " to " ++ t.1 ++ ":\n" ++ u.1) u.0)

  -- What is logged of a request, by the byte before it: `rpcAppendEntries`, `rpcRequestVote`,
  -- `rpcInstallSnapshot`, `rpcTimeoutNow`. A request that cannot be decoded is passed over; the text
  -- of the error is left out.
  unfoldable pub handle_rpc : String → ℕ → Capturing k → Outcome (Capturing k)
  unfolding log_request
  handle_rpc destination zero s =
      let (w, decoded) = k.decode_append_entries s.world in
      let t = record s { world = w } in
      elim decoded [
        | err e ↦ returns (logged "Failed to decode AppendEntriesRequest" t)
        | ok r ↦
            if is_empty r.entries
            then (replace_ips_with_hostnames k destination t >>= λ u.
                returns (logged ("Sending heartbeat to " ++ u.1) u.0))
            else log_request destination "AppendEntriesRequest" (append_entries_to_string k r) t
      ]
  handle_rpc destination (suc zero) s =
      let (w, decoded) = k.decode_request_vote s.world in
      let t = record s { world = w } in
      elim decoded [
        | err e ↦ returns (logged "Failed to decode RequestVoteRequest" t)
        | ok r ↦ log_request destination "RequestVoteRequest" (request_vote_to_string k r) t
      ]
  handle_rpc destination (suc (suc zero)) s =
      let (w, decoded) = k.decode_install_snapshot s.world in
      let t = record s { world = w } in
      elim decoded [
        | err e ↦ returns (logged "Failed to decode InstallSnapshotRequest" t)
        | ok r ↦ log_request destination "InstallSnapshotRequest" (install_snapshot_to_string k r) t
      ]
  handle_rpc destination (suc (suc (suc zero))) s =
      let (w, decoded) = k.decode_timeout_now s.world in
      let t = record s { world = w } in
      elim decoded [
        | err e ↦ returns (logged "Failed to decode TimeoutNowRequest" t)
        | ok r ↦ replace_ips_with_hostnames k destination t >>= λ u.
            returns (logged ("Sending TimeoutNowRequest " ++ u.1) u.0)
      ]
  handle_rpc destination (suc (suc (suc (suc n)))) s =
      returns (logged ("Unknown RPC type: " ++ itoa (suc (suc (suc (suc n))))) s)

  -- The loop of `run`; `fuel` is how often a byte is read.
  unfoldable pub run_stream : ℕ → String → Capturing k → Outcome (Capturing k)
  unfolding handle_rpc
  run_stream zero destination s = waits
  run_stream (suc fuel) destination s =
      let (w, answer) = k.read_byte s.world in
      let t = record s { world = w } in
      elim answer [
        | end_of_stream ↦ returns t
        | failed ↦ run_stream fuel destination (logged "Failed to read RPC type" t)
        | byte b ↦ handle_rpc destination b t >>= λ u. run_stream fuel destination u
      ]

  -- What the `select` finds ready. A channel of packets that is closed gives a nil packet.
  pub data Event : Type 0 where
    cancelled : Event
    packet : Option k.Packet → Event
    tick : Event

  unfoldable pub select_loop : List Event → k.World → Outcome k.World
  select_loop [] w = waits
  select_loop (cancelled ∷ events) w = returns w
  select_loop (packet none ∷ events) w = panics
  select_loop (packet (some p) ∷ events) w =
      select_loop events (if k.is_tcp p then k.assemble p w else w)
  select_loop (tick ∷ events) w = select_loop events (k.flush_old w)

  -- `log.Fatal` ends the process, as a panic does.
  unfoldable pub run_packet_capture : String → String → List Event → k.World → Outcome k.World
  unfolding select_loop
  run_packet_capture src_ip dst_port events w =
      let (w1, opened) = k.open_live w in
      let (w2, filtered) =
        k.set_filter ("src host " ++ src_ip ++ " and tcp dst port " ++ dst_port) w1 in
      let captured = select_loop events w2 >>= λ w'. returns (k.close w') in
      if opened then if filtered then captured else panics else panics
