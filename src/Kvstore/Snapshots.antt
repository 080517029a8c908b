-- ===== src/Kvstore/Snapshots.antt =====
-- Snapshots of the FSM in kvstore.go: what a snapshot holds, what restoring it gives back, and
-- what it leaves behind.
use sharded_kvs.Prelude.{
  ℕ, String, ◌≡◌, refl, ap, ◌∙◌, Option, none, some, List, [], arith, lookup, ok, panics, Returns,
  Returns-map,
}
use sharded_kvs.Protos.{Bytes, set_op, KvfsmLogEntry, KvfsmSnapshot, contents, Proto}
use sharded_kvs.Kvstore.{
  KvFsm, Memory, alloc, entries, snapshot, image, restore, apply_entry, assign, deliver,
}
use sharded_kvs.Kvstore.Replay.{effects, deliver-effects}

-- The variable that `alloc` makes holds the map that it was given.
entries-alloc :
    (o : Option (List (String × String))) (m : Memory)
    → entries (alloc o m).0 (alloc o m).1 ≡ contents o
unfolding entries alloc
entries-alloc none m = ground arith
entries-alloc (some es) m = ground arith

restore-decoded :
    (p : Proto) (b : Bytes) (t : KvfsmSnapshot) (g : KvFsm) (n : Memory)
    → p.unmarshal_snapshot b ≡ ok t
    → restore p (ok b) g n
      ≡ (none, record g { store = (alloc t.kv_store n).0 }, (alloc t.kv_store n).1)
unfolding restore
restore-decoded p b t g n q = rw (q, restore)

contents-image :
    (f : KvFsm) (m : Memory) → contents (image (snapshot f m) m).kv_store ≡ entries f.store m
unfolding image snapshot entries
contents-image f m = ground arith

-- Restoring what was marshalled from a snapshot of `f` gives an FSM `g` the entries of `f`, reports
-- no error, and leaves the flag of `g` as it was, whatever the flag of `f`.
pub restore-persisted :
    (p : Proto) (f : KvFsm) (m : Memory) (b : Bytes) (g : KvFsm) (n : Memory)
    → p.marshal_snapshot (image (snapshot f m) m) ≡ ok b
    → ((restore p (ok b) g n).0 ≡ none)
      × ((j : String)
          → lookup j (entries (restore p (ok b) g n).1.store (restore p (ok b) g n).2)
            ≡ lookup j (entries f.store m))
      × ((restore p (ok b) g n).1.writes_enabled ≡ g.writes_enabled)
restore-persisted p f m b g n h =
    let (t, q, d) = p.snapshot_round_trip (image (snapshot f m) m) b h in
    rw (restore-decoded p b t g n q) (
      refl,
      λ j.
          ap (lookup j) (entries-alloc t.kv_store n)
          ∙ d.views j
          ∙ ap (lookup j) (contents-image f m),
      refl,
    )

vars-alloc_nil : (n : Memory) → (alloc none n).1.vars (alloc none n).0 ≡ none
unfolding alloc
vars-alloc_nil n = ground arith

apply_entry-nil :
    (e : KvfsmLogEntry) (f : KvFsm) (m : Memory)
    → m.vars f.store ≡ none
    → e.operation ≡ set_op
    → apply_entry e f m ≡ panics
unfolding apply_entry assign
apply_entry-nil e f m nil s = ground arith

-- The image of a snapshot, in whatever memory it is marshalled.
contents-image-bound :
    (f : KvFsm) (r : ℕ) (m m' : Memory)
    → m.vars f.store ≡ some r
    → contents (image (snapshot f m) m').kv_store ≡ m'.objects r
unfolding image snapshot
contents-image-bound f r m m' bound = ground arith

-- An FSM restored from a snapshot of an empty map has a nil map: the next entry that sets a key
-- makes `Apply` panic.
pub restore-empty_panics :
    (p : Proto) (f : KvFsm) (m : Memory) (b : Bytes) (g : KvFsm) (n : Memory) (e : KvfsmLogEntry)
    → entries f.store m ≡ []
    → p.marshal_snapshot (image (snapshot f m) m) ≡ ok b
    → e.operation ≡ set_op
    → apply_entry e (restore p (ok b) g n).1 (restore p (ok b) g n).2 ≡ panics
restore-empty_panics p f m b g n e empty h s =
    let (t, q, d) = p.snapshot_round_trip (image (snapshot f m) m) b h in
    rw (restore-decoded p b t g n q, d.no_entries (contents-image f m ∙ empty))
      (apply_entry-nil e _ _ (vars-alloc_nil n) s)

-- A snapshot is not a copy: whatever log is applied after `Snapshot` and before `Persist` shows in
-- what `Persist` marshals.
pub image-deliver :
    (p : Proto) (bs : List Bytes) (r : ℕ) (f : KvFsm) (m : Memory)
    → m.vars f.store ≡ some r
    → Returns (deliver p bs f m) (λ t.
      (j : String)
      → lookup j (contents (image (snapshot f m) t.1).kv_store)
        ≡ effects p bs j (lookup j (contents (image (snapshot f m) m).kv_store)))
image-deliver p bs r f m bound =
    Returns-map (deliver p bs f m) _ _ (deliver-effects p r bs f m bound) λ t h j.
      rw (contents-image-bound f r m t.1 bound, contents-image-bound f r m m bound) (h.values j)
