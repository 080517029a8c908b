-- ===== src/Capture/Closed.antt =====
-- When the packet capture of internal/capture.go ends.
use Prim.Native.String.{◌++◌ as joined}
use sharded_kvs.Prelude.{
  String, Bool, true, none, some, List, [], ◌∷◌, ◌++◌, ◌≡◌, refl, returns, panics, All,
  if◌then◌else◌,
}
use sharded_kvs.Capture.{Wire}
use sharded_kvs.Capture.Stream.{Event, cancelled, packet, tick, select_loop, run_packet_capture}

module _ (k : Wire) where
  -- An event that the loop handles and goes on.
  abbrev Harmless : Event k → Type 0
  Harmless cancelled = ⊥
  Harmless (packet none) = ⊥
  Harmless (packet (some p)) = Unit
  Harmless tick = Unit

  -- What the loop does to the world at such events.
  abbrev pub handled : List (Event k) → k.World → k.World
  handled (packet (some p) ∷ events) w = handled events (if k.is_tcp p then k.assemble p w else w)
  handled (tick ∷ events) w = handled events (k.flush_old w)
  handled _ w = w

  select_loop-append :
      (events rest : List (Event k)) (w : k.World)
      → All Harmless events
      → select_loop k (events ++ rest) w ≡ select_loop k rest (handled events w)
  unfolding select_loop
  select_loop-append [] rest w h = refl
  select_loop-append (cancelled ∷ events) rest w h = absurd (h.0)
  select_loop-append (packet none ∷ events) rest w h = absurd (h.0)
  select_loop-append (packet (some p) ∷ events) rest w h =
      select_loop-append events rest (if k.is_tcp p then k.assemble p w else w) h.1
  select_loop-append (tick ∷ events) rest w h = select_loop-append events rest (k.flush_old w) h.1

  module _ (src_ip dst_port : String) (w : k.World) where
    abbrev pub opened : k.World
    opened = (k.open_live w).0

    abbrev pub listening : k.World × Bool
    listening =
        k.set_filter (joined "src host " (joined src_ip (joined " and tcp dst port " dst_port)))
          opened

    -- Where the device can be opened and the filter set: when the context is cancelled, the capture
    -- returns with the packets until then assembled and the device closed, whatever comes later;
    -- when the channel of packets is closed first, it panics.
    pub run_packet_capture-ends :
        (events rest : List (Event k))
        → (k.open_live w).1 ≡ true
        → listening.1 ≡ true
        → All Harmless events
        → (run_packet_capture k src_ip dst_port (events ++ cancelled ∷ rest) w
            ≡ returns (k.close (handled events listening.0)))
          × (run_packet_capture k src_ip dst_port (events ++ packet none ∷ rest) w ≡ panics)
    unfolding run_packet_capture
    run_packet_capture-ends events rest device filter h = (
      rw (device, filter, select_loop-append events (cancelled ∷ rest) listening.0 h, select_loop)
          refl,
      rw (device, filter, select_loop-append events (packet none ∷ rest) listening.0 h, select_loop)
          refl,
    )
