-- ===== src/Capture/Reading.antt =====
-- The loop of a stream of internal/capture.go ends, with enough fuel.
use Prim.Native.String.{◌++◌ as joined}
use sharded_kvs.Prelude.{
  ℕ, zero, suc, ◌<◌, String, ◌≡◌, refl, Result-cases, is_empty, Bool-cases, inl, inr, arith,
  Outcome, returns, ◌>>=◌, Ends, Ends-bind, Ends-not_waits, ◌≢◌, waits,
}
use sharded_kvs.Capture.{
  ByteRead, byte, end_of_stream, failed, Wire, Capturing, replace_ips_with_hostnames,
}
use sharded_kvs.Capture.Format.{
  append_entries_to_string, request_vote_to_string, install_snapshot_to_string,
}
use sharded_kvs.Capture.Stream.{logged, log_request, handle_rpc, run_stream}
use sharded_kvs.Capture.Answering.{
  Finite, Upto, Answered, Answered-replace, Texts, Texts-append_entries, Texts-request_vote,
  Texts-install_snapshot,
}

module _ (k : Wire) (finite : Finite k) where
  open finite use {left}

  Upto-logged :
      (text : String) (m : ℕ) (s : Capturing k)
      → Upto k finite m s
      → Upto k finite m (logged k text s)
  Upto-logged text m s h = let le = finite.logs text s.world in omega arith

  Upto-log_request :
      (destination name : String) (f : Capturing k → Outcome (Capturing k × String))
      → Texts k finite f
      → (m : ℕ) (s : Capturing k) → Upto k finite m s
      → Ends (log_request k destination name f s) (Upto k finite m)
  unfolding log_request
  Upto-log_request destination name f texts m s h =
      Ends-bind (replace_ips_with_hostnames k destination s) _ (Answered k finite m)
        (Upto k finite m) (Answered-replace k finite destination m s h)
        λ t le.
          Ends-bind (f t.0) _ (Answered k finite m) (Upto k finite m) (texts m t.0 le)
            (λ u less. Upto-logged _ m u.0 less)

  -- The line of a request that has no text.
  Upto-named :
      (destination : String) (line : String → String) (m : ℕ) (s : Capturing k)
      → Upto k finite m s
      → Ends
          (replace_ips_with_hostnames k destination s >>= λ u. returns (logged k (line u.1) u.0))
          (Upto k finite m)
  Upto-named destination line m s h =
      Ends-bind (replace_ips_with_hostnames k destination s) _ (Answered k finite m)
        (Upto k finite m) (Answered-replace k finite destination m s h)
        (λ u le. Upto-logged (line u.1) m u.0 le)

  Upto-handle_rpc :
      (destination : String) (b m : ℕ) (s : Capturing k)
      → Upto k finite m s
      → Ends (handle_rpc k destination b s) (Upto k finite m)
  unfolding handle_rpc
  Upto-handle_rpc destination zero m s h =
      let t = record s { world = (k.decode_append_entries s.world).0 } in
      let le : Upto k finite m t = (let l = finite.append_entries s.world in omega arith) in
      elim (Result-cases (k.decode_append_entries s.world).1) [
        | inr (e, q) ↦ rw (q, handle_rpc) (Upto-logged _ m t le)
        | inl (r, q) ↦ elim (Bool-cases (is_empty r.entries)) [
          | inl none_sent ↦
              rw (q, none_sent, handle_rpc)
                (Upto-named destination (λ host. joined "Sending heartbeat to " host) m t le)
          | inr some_sent ↦
              rw (q, some_sent, handle_rpc)
                (Upto-log_request destination "AppendEntriesRequest" (append_entries_to_string k r)
                  (Texts-append_entries k finite r) m t le)
        ]
      ]
  Upto-handle_rpc destination (suc zero) m s h =
      let t = record s { world = (k.decode_request_vote s.world).0 } in
      let le : Upto k finite m t = (let l = finite.request_vote s.world in omega arith) in
      elim (Result-cases (k.decode_request_vote s.world).1) [
        | inr (e, q) ↦ rw (q, handle_rpc) (Upto-logged _ m t le)
        | inl (r, q) ↦
            rw (q, handle_rpc)
              (Upto-log_request destination "RequestVoteRequest" (request_vote_to_string k r)
                (Texts-request_vote k finite r) m t le)
      ]
  Upto-handle_rpc destination (suc (suc zero)) m s h =
      let t = record s { world = (k.decode_install_snapshot s.world).0 } in
      let le : Upto k finite m t = (let l = finite.install_snapshot s.world in omega arith) in
      elim (Result-cases (k.decode_install_snapshot s.world).1) [
        | inr (e, q) ↦ rw (q, handle_rpc) (Upto-logged _ m t le)
        | inl (r, q) ↦
            rw (q, handle_rpc)
              (Upto-log_request destination "InstallSnapshotRequest"
                (install_snapshot_to_string k r) (Texts-install_snapshot k finite r) m t le)
      ]
  Upto-handle_rpc destination (suc (suc (suc zero))) m s h =
      let t = record s { world = (k.decode_timeout_now s.world).0 } in
      let le : Upto k finite m t = (let l = finite.timeout_now s.world in omega arith) in
      elim (Result-cases (k.decode_timeout_now s.world).1) [
        | inr (e, q) ↦ rw (q, handle_rpc) (Upto-logged _ m t le)
        | inl (r, q) ↦
            rw (q, handle_rpc)
              (Upto-named destination (λ host. joined "Sending TimeoutNowRequest " host) m t le)
      ]
  Upto-handle_rpc destination (suc (suc (suc (suc n)))) m s h = Upto-logged _ m s h

  abbrev after_read : Capturing k → Capturing k
  after_read s = record s { world = (k.read_byte s.world).0 }

  -- One round, where the rounds after it end.
  round_ends :
      (fuel : ℕ) (destination : String) (s : Capturing k)
      → left s.world < suc fuel
      → ((t : Capturing k)
          → left t.world < fuel
          → Ends (run_stream k fuel destination t) (λ u. Unit))
      → (answer : ByteRead) → (k.read_byte s.world).1 ≡ answer
      → Ends (run_stream k (suc fuel) destination s) (λ t. Unit)
  unfolding run_stream
  round_ends fuel destination s h again end_of_stream q = rw (q, run_stream) tt
  round_ends fuel destination s h again failed q =
      let less = finite.shrinks s.world (λ e. cc (q, e)) in
      let le = finite.logs "Failed to read RPC type" (k.read_byte s.world).0 in
      rw (q, run_stream) (again (logged k "Failed to read RPC type" (after_read s)) (omega arith))
  round_ends fuel destination s h again (byte b) q =
      let less = finite.shrinks s.world (λ e. cc (q, e)) in
      let m = left (k.read_byte s.world).0 in
      rw (q, run_stream)
        (Ends-bind (handle_rpc k destination b (after_read s)) _ (Upto k finite m) (λ t. Unit)
          (Upto-handle_rpc destination b m (after_read s) (omega arith))
          (λ t le. again t (omega arith)))

  ends :
      (fuel : ℕ) (destination : String) (s : Capturing k)
      → left s.world < fuel
      → Ends (run_stream k fuel destination s) (λ t. Unit)
  ends zero destination s h = absurd (omega arith)
  ends (suc fuel) destination s h =
      round_ends fuel destination s h (λ t less. ends fuel destination t less)
        (k.read_byte s.world).1 refl

  -- If every read that does not report the end of the stream brings its end nearer, a failed read
  -- included, nothing else that is called puts the end further off, and configurations are decoded
  -- or panic, the loop of a stream comes to its end: given more fuel than there is left to read, it
  -- returns, or what it calls panics, and it never reads on and on.
  pub run_stream-Finite :
      (fuel : ℕ) (destination : String) (s : Capturing k)
      → left s.world < fuel
      → run_stream k fuel destination s ≢ waits
  run_stream-Finite fuel destination s h =
      Ends-not_waits (run_stream k fuel destination s) (λ t. Unit) (ends fuel destination s h)
