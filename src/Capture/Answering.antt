-- ===== src/Capture/Answering.antt =====
-- The texts that internal/capture.go makes of requests: they are made, without reading the stream.
use sharded_kvs.Prelude.{
  ℕ, suc, ◌≤◌, ◌<◌, String, List, [], ◌∷◌, ◌≡◌, ◌≢◌, refl, Result, ok, err, lookup, Option-cases,
  inl, inr, arith, Outcome, Ends, Ends-bind,
}
use sharded_kvs.Capture.{
  Piece, plain, address, LogType, command, configuration, other, Entry, AppendEntries, RequestVote,
  InstallSnapshot, end_of_stream, Wire, Capturing, get_host_from_ip, replace_ip, replace_pieces,
  replace_ips_with_hostnames,
}
use sharded_kvs.Capture.Format.{
  data_text, entries_text, append_entries_to_string, request_vote_to_string,
  install_snapshot_to_string,
}

-- A stream has an end: `left` goes down with every read that does not report the end, a failed one
-- included, and nothing else puts it up. `raft.DecodeConfiguration` returns, or panics as it does on
-- what it cannot decode.
pub record Finite (k : Wire) : Type 0 where
  pub left : k.World → ℕ
  pub shrinks : (w : k.World) → (k.read_byte w).1 ≢ end_of_stream → left (k.read_byte w).0 < left w
  pub append_entries : (w : k.World) → left (k.decode_append_entries w).0 ≤ left w
  pub request_vote : (w : k.World) → left (k.decode_request_vote w).0 ≤ left w
  pub install_snapshot : (w : k.World) → left (k.decode_install_snapshot w).0 ≤ left w
  pub timeout_now : (w : k.World) → left (k.decode_timeout_now w).0 ≤ left w
  pub logs : (text : String) (w : k.World) → left (k.log text w) ≤ left w
  pub lookups : (ip : String) (w : k.World) → left (k.lookup_addr ip w).0 ≤ left w
  pub decodes : (b : k.Bytes) → Ends (k.decode_configuration b) (λ members. Unit)

module _ (k : Wire) (finite : Finite k) where
  open finite use {left}

  -- A state with at most as much to read, and one with a text.
  abbrev pub Upto : ℕ → Capturing k → Type 0
  Upto m s = left s.world ≤ m

  abbrev pub Answered : ℕ → Capturing k × String → Type 0
  Answered m t = left t.0.world ≤ m

  named_host :
      (ip : String) (w w' : k.World) (answer : Result (List String))
      → k.lookup_addr ip w ≡ (w', answer)
      → Ends (get_host_from_ip k ip w) (λ t. left t.0 ≤ left w)
  unfolding get_host_from_ip
  named_host ip w w' (err e) q = rw (q, get_host_from_ip) (finite.lookups ip w)
  named_host ip w w' (ok []) q = rw (q, get_host_from_ip) tt
  named_host ip w w' (ok (host ∷ hosts)) q = rw (q, get_host_from_ip) (finite.lookups ip w)

  Answered-replace_ip :
      (ip : String) (m : ℕ) (s : Capturing k) → Upto m s → Ends (replace_ip k ip s) (Answered m)
  unfolding replace_ip
  Answered-replace_ip ip m s h = elim (Option-cases (lookup ip s.cache)) [
    | inr (name, q) ↦ rw (q, replace_ip) h
    | inl q ↦
        rw (q, replace_ip)
          (Ends-bind (get_host_from_ip k ip s.world) _ (λ t. left t.0 ≤ left s.world) (Answered m)
            (named_host ip s.world _ _ refl) (λ t le. omega arith))
  ]

  Answered-replace_pieces :
      (pieces : List Piece) (m : ℕ) (s : Capturing k)
      → Upto m s
      → Ends (replace_pieces k pieces s) (Answered m)
  unfolding replace_pieces
  Answered-replace_pieces [] m s h = h
  Answered-replace_pieces (plain between ∷ pieces) m s h =
      Ends-bind (replace_pieces k pieces s) _ (Answered m) (Answered m)
        (Answered-replace_pieces pieces m s h) (λ t le. le)
  Answered-replace_pieces (address ip ∷ pieces) m s h =
      Ends-bind (replace_ip k ip s) _ (Answered m) (Answered m) (Answered-replace_ip ip m s h)
        λ t le.
          Ends-bind (replace_pieces k pieces t.0) _ (Answered m) (Answered m)
            (Answered-replace_pieces pieces m t.0 le) (λ u le. le)

  pub Answered-replace :
      (text : String) (m : ℕ) (s : Capturing k)
      → Upto m s
      → Ends (replace_ips_with_hostnames k text s) (Answered m)
  unfolding replace_ips_with_hostnames
  Answered-replace text m s h = Answered-replace_pieces (k.pieces text) m s h

  Ends-data_text : (entry : Entry k.Bytes) (t : LogType) → Ends (data_text k entry t) (λ text. Unit)
  unfolding data_text
  Ends-data_text entry command = tt
  Ends-data_text entry configuration =
      Ends-bind (k.decode_configuration entry.data_bytes) _ (λ members. Unit) (λ text. Unit)
        (finite.decodes entry.data_bytes) (λ members h. tt)
  Ends-data_text entry (other n) = tt

  Ends-entries_text :
      (i : ℕ) (entries : List (Entry k.Bytes)) → Ends (entries_text k i entries) (λ text. Unit)
  unfolding entries_text
  Ends-entries_text i [] = tt
  Ends-entries_text i (entry ∷ entries) =
      Ends-bind (data_text k entry entry.log_type) _ (λ text. Unit) (λ text. Unit)
        (Ends-data_text entry entry.log_type)
        λ text h.
          Ends-bind (entries_text k (suc i) entries) _ (λ text. Unit) (λ text. Unit)
            (Ends-entries_text (suc i) entries) (λ rest h. tt)

  -- A text of a request.
  abbrev pub Texts : (Capturing k → Outcome (Capturing k × String)) → Type 0
  Texts f = (m : ℕ) (s : Capturing k) → Upto m s → Ends (f s) (Answered m)

  pub Texts-append_entries : (r : AppendEntries k.Bytes) → Texts (append_entries_to_string k r)
  unfolding append_entries_to_string
  Texts-append_entries r m s h =
      Ends-bind (replace_ips_with_hostnames k r.leader s) _ (Answered m) (Answered m)
        (Answered-replace r.leader m s h)
        λ t le.
          Ends-bind (entries_text k 0 r.entries) _ (λ text. Unit) (Answered m)
            (Ends-entries_text 0 r.entries) (λ entries u. le)

  pub Texts-request_vote : (r : RequestVote) → Texts (request_vote_to_string k r)
  unfolding request_vote_to_string
  Texts-request_vote r m s h =
      Ends-bind (replace_ips_with_hostnames k r.candidate s) _ (Answered m) (Answered m)
        (Answered-replace r.candidate m s h) (λ t le. le)

  pub Texts-install_snapshot :
      (r : InstallSnapshot k.Bytes) → Texts (install_snapshot_to_string k r)
  unfolding install_snapshot_to_string
  Texts-install_snapshot r m s h =
      Ends-bind (k.decode_configuration r.configuration) _ (λ members. Unit) (Answered m)
        (finite.decodes r.configuration)
        λ members u.
          Ends-bind (replace_ips_with_hostnames k r.leader s) _ (Answered m) (Answered m)
            (Answered-replace r.leader m s h) (λ t le. le)
