-- ===== src/Kvstore/Reads.antt =====
-- What `Get` of kvstore.go reads after the operations of a leader whose FSM shares its map.
use sharded_kvs.Prelude.{
  ◌⊎◌, ◌≢◌, ℕ, String, ◌≡◌, refl, sym, ◌∙◌, false, Option, none, some, Error, not_leader,
  key_not_found, List, [], ◌∷◌, ◌++◌, arith, returns, returns-injective, >>=-eq-returns, Returns,
  Returns-map, Returns-bind, ap, Result, ok, err, lookup, if◌then◌else◌, ◌==◌, subst, not,
  Bool-cases, Result-cases, inl, inr,
}
use sharded_kvs.Protos.{Bytes, KvfsmLogEntry, Proto, get_key, get_value}
use sharded_kvs.Raft.{Raft}
use sharded_kvs.Kvstore.{Memory, deliver, entries}
use sharded_kvs.Kvstore.Replay.{effect, effects, deliver-effects}
use sharded_kvs.Kvstore.Ops.{Process, get, set_entry, delete_entry, submit, raft_apply, set, delete}

-- The FSM and the `KVStore` hold the address of one variable, and it is not nil.
pub record IsShared (r : Raft) (s : Process r) : Type 0 where
  pub same : s.fsm.store ≡ s.kv.store
  pub object : ℕ
  pub bound : s.memory.vars s.kv.store ≡ some object

-- Raft's promise for an `Apply` whose future has no error: this replica's FSM was given the entry,
-- after the entries that were committed before it.
abbrev pub Applies : Raft → Type 0
Applies r =
    (b : Bytes) (n : r.Node)
    → (r.apply b n).error ≡ none
    → (before : List Bytes) × ((r.apply b n).delivered ≡ before ++ b ∷ [])

-- No other writer during an `Apply`: this replica's FSM is given the entry and nothing else, or, if
-- the future has an error, perhaps nothing.
abbrev pub Quiet : Raft → Type 0
Quiet r =
    (b : Bytes) (m : r.Node)
    → ((r.apply b m).delivered ≡ b ∷ [])
      ⊎ (((r.apply b m).delivered ≡ []) × ((r.apply b m).error ≢ none))

abbrev pub value_at : (r : Raft) → String → Process r → Option String
value_at r j s = lookup j (entries s.kv.store s.memory)

-- What `Get` answers for a value.
abbrev pub answer : Option String → Result String
answer none = err key_not_found
answer (some v) = ok v

effects-append :
    (p : Proto) (bs : List Bytes) (b : Bytes) (e : KvfsmLogEntry) (j : String) (old : Option String)
    → p.unmarshal_entry b ≡ ok e
    → effects p (bs ++ b ∷ []) j old ≡ effect e j (effects p bs j old)
effects-append p [] b e j old h = rw h
effects-append p (c ∷ bs) b e j old h = effects-append p bs b e j _ h

module _ (r : Raft) (p : Proto) where
  pub get-value_at : (j : String) (s : Process r) → get r j s ≡ answer (value_at r j s)
  unfolding get
  get-value_at j s = ground arith

  entries-bound : (a o : ℕ) (m : Memory) → m.vars a ≡ some o → entries a m ≡ m.objects o
  unfolding entries
  entries-bound a o m h = rw h

  deliver-value_at :
      (bs : List Bytes) (s : Process r) (n : r.Node)
      → IsShared r s
      → Returns (deliver p bs s.fsm s.memory) (λ t.
        let s' : Process r = record s { memory = t.1; fsm = t.0; node = n } in
        IsShared r s' × ((j : String) → value_at r j s' ≡ effects p bs j (value_at r j s)))
  deliver-value_at bs s n h =
      Returns-map (deliver p bs s.fsm s.memory) _ _
        (deliver-effects p h.object bs s.fsm s.memory (rw h.same h.bound))
        λ t k.
          let bound : t.1.vars s.kv.store ≡ some h.object = rw k.vars h.bound in
          (
            record { same = k.store ∙ h.same; object = h.object; bound = bound },
            λ j. rw (entries-bound _ _ t.1 bound, entries-bound _ _ s.memory h.bound) (k.values j),
          )

  -- The process after `Apply`, with the error that the call answers.
  abbrev pub AfterLog : List Bytes → Option Error → Process r → Process r × Option Error → Type 0
  AfterLog bs e s t =
      IsShared r t.0
      × ((j : String) → value_at r j t.0 ≡ effects p bs j (value_at r j s))
      × (t.1 ≡ e)

  pub raft_apply-AfterLog :
      (b : Bytes) (s : Process r)
      → IsShared r s
      → Returns
          (raft_apply r p b s)
          (AfterLog (r.apply b s.node).delivered (r.apply b s.node).error s)
  unfolding raft_apply
  raft_apply-AfterLog b s shared =
      let a = r.apply b s.node in
      Returns-bind (deliver p a.delivered s.fsm s.memory) _ _ _
        (deliver-value_at a.delivered s a.node shared) (λ t k. (k.0, k.1, refl))

  raft_apply-node :
      (b : Bytes) (s t : Process r) (e : Option Error)
      → raft_apply r p b s ≡ returns (t, e)
      → t.node ≡ (r.apply b s.node).node
  unfolding raft_apply
  raft_apply-node b s t e h =
      let (u, ran, q) =
        >>=-eq-returns (deliver p (r.apply b s.node).delivered s.fsm s.memory) _ h in
      ap (λ (x : Process r × Option Error). x.0.node) (sym (returns-injective _ _ q))

  -- The call gave Raft the entry and no other, and Raft delivered it to this replica after the
  -- entries `before`.
  pub record Submitted (e : KvfsmLogEntry) (s t : Process r) (before : List Bytes) : Type 0 where
    pub bytes : Bytes
    pub marshalled : p.marshal_entry e ≡ ok bytes
    pub delivered : (r.apply bytes s.node).delivered ≡ before ++ bytes ∷ []
    pub node : t.node ≡ (r.apply bytes s.node).node

  -- A submitted entry that was applied with no error takes its effect last.
  abbrev AfterEntry : KvfsmLogEntry → Process r → Process r → Type 0
  AfterEntry e s t =
      (before : List Bytes) × Submitted e s t before
      × IsShared r t
      × ((j : String) → value_at r j t ≡ effect e j (effects p before j (value_at r j s)))

  raft_apply-AfterEntry :
      (e : KvfsmLogEntry) (b : Bytes) (s t : Process r)
      → Applies r
      → IsShared r s
      → p.marshal_entry e ≡ ok b
      → raft_apply r p b s ≡ returns (t, none)
      → AfterEntry e s t
  raft_apply-AfterEntry e b s t promise shared marshalled h =
      let log = (r.apply b s.node).delivered in
      let k =
        subst (λ o. Returns o (AfterLog log (r.apply b s.node).error s)) h
          (raft_apply-AfterLog b s shared) in
      let (before, split) = promise b s.node (sym k.2) in
      (
        before,
        record {
          bytes = b;
          marshalled = marshalled;
          delivered = split;
          node = raft_apply-node b s t none h;
        },
        k.0,
        λ j.
            k.1 j
            ∙ ap (λ (bs : List Bytes). effects p bs j (value_at r j s)) split
            ∙ effects-append p before b e j (value_at r j s) (p.entry_round_trip e b marshalled),
      )

  submit-AfterEntry :
      (e : KvfsmLogEntry) (s t : Process r)
      → Applies r
      → IsShared r s
      → submit r p e s ≡ returns (t, none)
      → AfterEntry e s t
  unfolding submit
  submit-AfterEntry e s t promise shared h = elim (Result-cases (p.marshal_entry e)) [
    | inl (b, q) ↦ raft_apply-AfterEntry e b s t promise shared q (rw (q, submit) at h)
    | inr (x, q) ↦ cc (rw (q, submit) at h)
  ]

  set-submits :
      (key value : String) (s t : Process r)
      → set r p key value s ≡ returns (t, none)
      → submit r p (set_entry key value) s ≡ returns (t, none)
  unfolding set
  set-submits key value s t h = elim (Bool-cases (not (r.is_leader s.node))) [
    | inl q ↦ cc (rw q at h)
    | inr q ↦ (rw q at h)
  ]

  delete-submits :
      (key : String) (s t : Process r)
      → delete r p key s ≡ returns (t, none)
      → submit r p (delete_entry key) s ≡ returns (t, none)
  unfolding delete
  delete-submits key s t h = elim (Bool-cases (not (r.is_leader s.node))) [
    | inl q ↦ cc (rw q at h)
    | inr q ↦ (rw q at h)
  ]

  -- Where the FSM shares the map of the `KVStore`, as it does unless a snapshot was restored, and
  -- Raft delivers what it says that it applied, a `Set` that reports no error: it gave Raft the SET
  -- entry and no other. `Get` then answers the value for its key, and for any other key what the
  -- entries leave there that Raft delivered before that one. The map is still shared.
  pub get-set :
      (key value : String) (s t : Process r)
      → Applies r
      → IsShared r s
      → set r p key value s ≡ returns (t, none)
      → (before : List Bytes) × Submitted (set_entry key value) s t before
        × IsShared r t
        × ((j : String)
            → get r j t
              ≡ (if key == j then ok value else answer (effects p before j (value_at r j s))))
  unfolding get_key get_value
  get-set key value s t promise shared h =
      let (before, only, k, values) =
        submit-AfterEntry (set_entry key value) s t promise shared (set-submits key value s t h) in
      (before, only, k, λ j. rw (get-value_at j t, values j) (ground arith))

  -- Where the FSM shares the map of the `KVStore`, as it does unless a snapshot was restored, and
  -- Raft delivers what it says that it applied, a `Delete` that reports no error: it gave Raft the
  -- DELETE entry and no other. `Get` then says that its key is not found, and answers for any other
  -- key what the entries leave there that Raft delivered before that one. The map is still shared.
  pub get-delete :
      (key : String) (s t : Process r)
      → Applies r
      → IsShared r s
      → delete r p key s ≡ returns (t, none)
      → (before : List Bytes) × Submitted (delete_entry key) s t before
        × IsShared r t
        × ((j : String)
            → get r j t ≡ (
                if key == j
                then err key_not_found
                else answer (effects p before j (value_at r j s))))
  unfolding get_key get_value
  get-delete key s t promise shared h =
      let (before, only, k, values) =
        submit-AfterEntry (delete_entry key) s t promise shared (delete-submits key s t h) in
      (before, only, k, λ j. rw (get-value_at j t, values j) (ground arith))

  -- A replica that is not the leader refuses both writes and changes nothing.
  pub follower_refuses :
      (key value : String) (s : Process r)
      → r.is_leader s.node ≡ false
      → (set r p key value s ≡ returns (s, some not_leader))
        × (delete r p key s ≡ returns (s, some not_leader))
  unfolding set delete
  follower_refuses key value s h = (rw h, rw h)
