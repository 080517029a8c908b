-- ===== src/Kvstore/Replay.antt =====
-- The FSM of kvstore.go against an independent description of a log: each entry has an effect on
-- the value of each key.
use sharded_kvs.Prelude.{
  ℕ, String, ◌≡◌, ◌≢◌, refl, ap, ◌∙◌, Bool, true, false, Option, none, some, List, [], ◌∷◌, arith,
  eqb, ◌==◌, if◌then◌else◌, lookup, lookup-insert, lookup-remove, insert, remove, Result, ok, err,
  Returns, Returns-bind, Returns-map, returns, Bool-cases, Result-cases, inl, inr,
}
use sharded_kvs.Protos.{
  Bytes, set_op, delete_op, toggle_op, KvfsmLogEntry, get_key, get_value, get_writes_enabled, Proto,
}
use sharded_kvs.Kvstore.{KvFsm, Memory, update, assign, delete_at, apply_entry, apply, deliver}

-- The value of key `j` after an entry, from its value before.
abbrev pub effect : KvfsmLogEntry → String → Option String → Option String
effect e j old =
    if eqb e.operation set_op
    then (if get_key e == j then some (get_value e) else old)
    else if eqb e.operation delete_op
    then (if get_key e == j then none else old)
    else old

abbrev pub effect_of : Result KvfsmLogEntry → String → Option String → Option String
effect_of (ok e) j old = effect e j old
effect_of (err x) j old = old

-- The value of key `j` after a log. An entry that does not decode has no effect.
abbrev pub effects : Proto → List Bytes → String → Option String → Option String
effects p [] j old = old
effects p (b ∷ bs) j old = effects p bs j (effect_of (p.unmarshal_entry b) j old)

-- The flag after a log, from the flag before.
abbrev pub flag_of : Result KvfsmLogEntry → Bool → Bool
flag_of (ok e) old = if eqb e.operation toggle_op then get_writes_enabled e else old
flag_of (err x) old = old

abbrev pub flags : Proto → List Bytes → Bool → Bool
flags p [] old = old
flags p (b ∷ bs) old = flags p bs (flag_of (p.unmarshal_entry b) old)

-- From `f` and `m`, whose map object is `r`, to `t`: no variable and no other map object changes.
pub record Follows (view : String → Option String → Option String) (flag : Bool → Bool) (r : ℕ)
    (f : KvFsm) (m : Memory) (t : KvFsm × Memory) : Type 0 where
  pub store : t.0.store ≡ f.store
  pub vars : t.1.vars ≡ m.vars
  pub next : t.1.next ≡ m.next
  pub others : (q : ℕ) → q ≢ r → t.1.objects q ≡ m.objects q
  pub values : (j : String) → lookup j (t.1.objects r) ≡ view j (lookup j (m.objects r))
  pub toggled : t.0.writes_enabled ≡ flag f.writes_enabled

pub assign-bound :
    (a r : ℕ) (k v : String) (m : Memory)
    → m.vars a ≡ some r
    → assign a k v m
      ≡ returns (record m { objects = update m.objects r (insert k v (m.objects r)) })
unfolding assign
assign-bound a r k v m h = rw (h, assign)

delete_at-bound :
    (a r : ℕ) (k : String) (m : Memory)
    → m.vars a ≡ some r
    → delete_at a k m ≡ record m { objects = update m.objects r (remove k (m.objects r)) }
unfolding delete_at
delete_at-bound a r k m h = rw (h, delete_at)

module _ (e : KvfsmLogEntry) (r : ℕ) (f : KvFsm) (m : Memory)
    (bound : m.vars f.store ≡ some r) where
  Follows-set :
      eqb e.operation set_op ≡ true
      → Follows (effect e) (flag_of (ok e)) r f m (
        f,
        record m { objects = update m.objects r (insert (get_key e) (get_value e) (m.objects r)) },
      )
  Follows-set s = record {
    store = refl;
    vars = refl;
    next = refl;
    others = λ q h. ground arith;
    values = λ j. ground (arith, lookup-insert (get_key e) j (get_value e) (m.objects r));
    toggled = ground arith;
  }

  Follows-delete :
      eqb e.operation delete_op ≡ true
      → Follows
          (effect e)
          (flag_of (ok e))
          r
          f
          m
          (f, record m { objects = update m.objects r (remove (get_key e) (m.objects r)) })
  Follows-delete d = record {
    store = refl;
    vars = refl;
    next = refl;
    others = λ q h. ground arith;
    values = λ j. ground (arith, lookup-remove (get_key e) j (m.objects r));
    toggled = ground arith;
  }

  Follows-toggle :
      eqb e.operation set_op ≡ false
      → eqb e.operation delete_op ≡ false
      → Follows (effect e) (flag_of (ok e)) r f m (
          if eqb e.operation toggle_op
          then (record f { writes_enabled = get_writes_enabled e }, m)
          else (f, m))
  Follows-toggle s d = elim (Bool-cases (eqb e.operation toggle_op)) [
    | inl t ↦ rw t (record {
      store = refl;
      vars = refl;
      next = refl;
      others = λ q h. refl;
      values = λ j. ground arith;
      toggled = ground arith;
    })
    | inr t ↦ rw t (record {
      store = refl;
      vars = refl;
      next = refl;
      others = λ q h. refl;
      values = λ j. ground arith;
      toggled = ground arith;
    })
  ]

  pub apply_entry-Follows : Returns (apply_entry e f m) (Follows (effect e) (flag_of (ok e)) r f m)
  unfolding apply_entry
  apply_entry-Follows = elim (Bool-cases (eqb e.operation set_op)) [
    | inl s ↦ rw (s, assign-bound f.store r (get_key e) (get_value e) m bound) (Follows-set s)
    | inr s ↦ elim (Bool-cases (eqb e.operation delete_op)) [
      | inl d ↦ rw (s, d, delete_at-bound f.store r (get_key e) m bound) (Follows-delete d)
      | inr d ↦
          rw (s, d)
            (elim (Bool-cases (eqb e.operation toggle_op)) [
              | inl t ↦ rw t ((rw t at (Follows-toggle s d)))
              | inr t ↦ rw t ((rw t at (Follows-toggle s d)))
            ])
    ]
  ]

module _ (p : Proto) (r : ℕ) where
  apply-Follows :
      (b : Bytes) (f : KvFsm) (m : Memory)
      → m.vars f.store ≡ some r
      → Returns (apply p b f m) (λ t.
        Follows (effect_of (p.unmarshal_entry b)) (flag_of (p.unmarshal_entry b)) r f m (t.1, t.2))
  unfolding apply
  apply-Follows b f m bound = elim (Result-cases (p.unmarshal_entry b)) [
    | inl (e, q) ↦
        rw (q, apply)
          (Returns-bind (apply_entry e f m) (λ t. returns (none, t.0, t.1)) _ _
            (apply_entry-Follows e r f m bound) (λ t h. h))
    | inr (x, q) ↦
        rw (q, apply)
          (record {
            store = refl;
            vars = refl;
            next = refl;
            others = λ q h. refl;
            values = λ j. refl;
            toggled = refl;
          })
  ]

  -- A replica whose map is not nil applies every log without a panic, and its map and flag are
  -- those that the effects of the entries describe, one after another.
  pub deliver-effects :
      (bs : List Bytes) (f : KvFsm) (m : Memory)
      → m.vars f.store ≡ some r
      → Returns (deliver p bs f m) (Follows (effects p bs) (flags p bs) r f m)
  unfolding deliver
  deliver-effects [] f m bound = record {
    store = refl;
    vars = refl;
    next = refl;
    others = λ q h. refl;
    values = λ j. refl;
    toggled = refl;
  }
  deliver-effects (b ∷ bs) f m bound =
      Returns-bind (apply p b f m) (λ t. deliver p bs t.1 t.2) _ _ (apply-Follows b f m bound)
        λ t h.
          Returns-map (deliver p bs t.1 t.2) _ _
            (deliver-effects bs t.1 t.2 (rw (h.vars, h.store) bound))
            λ u k. record {
              store = k.store ∙ h.store;
              vars = k.vars ∙ h.vars;
              next = k.next ∙ h.next;
              others = λ q ne. k.others q ne ∙ h.others q ne;
              values = λ j. k.values j ∙ ap (effects p bs j) (h.values j);
              toggled = k.toggled ∙ ap (flags p bs) h.toggled;
            }
