-- ===== src/Kvstore/Touch.antt =====
-- A write of kvstore.go with no other writer: what it does to the keys, whether or not it succeeds.
use sharded_kvs.Prelude.{
  String, ◌≡◌, ◌≢◌, refl, sym, ◌∙◌, ap, subst, ◌⊎◌, inl, inr, Option, none, some, Error, List, [],
  ◌∷◌, arith, returns, Returns, returns-injective, ok, Result-cases, if◌then◌else◌, ◌==◌, eq_iff,
  eq_refl,
}
use sharded_kvs.Protos.{KvfsmLogEntry, Bytes, Proto}
use sharded_kvs.Raft.{Raft}
use sharded_kvs.Kvstore.Ops.{Process, submit, raft_apply}
use sharded_kvs.Kvstore.Replay.{effects, effect}
use sharded_kvs.Kvstore.Reads.{Quiet, IsShared, value_at, AfterLog, raft_apply-AfterLog}

-- From `s` to `t` the key may have its new value, and has it if there is no error `e`; no other key
-- changes.
pub record Touched (r : Raft) (key : String) (new : Option String) (s : Process r)
    (e : Option Error) (t : Process r) : Type 0 where
  pub shared : IsShared r t
  pub others : (j : String) → j ≢ key → value_at r j t ≡ value_at r j s
  pub reached_or_kept : (value_at r key t ≡ new) ⊎ (value_at r key t ≡ value_at r key s)
  pub reached : e ≡ none → value_at r key t ≡ new

-- An entry that gives its key a new value, or none.
module _ (r : Raft) (p : Proto) (quiet : Quiet r) (key : String) (new : Option String)
    (entry : KvfsmLogEntry)
    (law : (j : String) (old : Option String)
      → effect entry j old ≡ (if key == j then new else old)) where
  effects-entry :
      (b : Bytes) (j : String) (old : Option String)
      → p.unmarshal_entry b ≡ ok entry
      → effects p (b ∷ []) j old ≡ (if key == j then new else old)
  effects-entry b j old h = rw h (law j old)

  -- The FSM was given the entry.
  Touched-applied :
      (b : Bytes) (bs : List Bytes) (e : Option Error) (s : Process r)
      (t : Process r × Option Error)
      → p.unmarshal_entry b ≡ ok entry
      → AfterLog r p bs e s t
      → bs ≡ b ∷ []
      → Touched r key new s t.1 t.0
  Touched-applied b bs e s t decoded k q =
      let value : (j : String) → value_at r j t.0 ≡ (if key == j then new else value_at r j s) =
        λ j.
          k.1 j
          ∙ ap (λ (l : List Bytes). effects p l j (value_at r j s)) q
          ∙ effects-entry b j (value_at r j s) decoded in
      let own : value_at r key t.0 ≡ new = value key ∙ rw eq_refl in
      record {
        shared = k.0;
        others = λ j ne. value j ∙ ground (arith, eq_iff key j);
        reached_or_kept = inl own;
        reached = λ _. own;
      }

  -- The FSM was given nothing.
  Touched-refused :
      (bs : List Bytes) (e : Option Error) (s : Process r) (t : Process r × Option Error)
      → AfterLog r p bs e s t
      → bs ≡ []
      → e ≢ none
      → Touched r key new s t.1 t.0
  Touched-refused bs e s t k q failed =
      let value : (j : String) → value_at r j t.0 ≡ value_at r j s =
        λ j. k.1 j ∙ ap (λ (l : List Bytes). effects p l j (value_at r j s)) q in
      record {
        shared = k.0;
        others = λ j ne. value j;
        reached_or_kept = inr (value key);
        reached = λ fine. absurd (failed (sym k.2 ∙ fine));
      }

  raft_apply-Touched :
      (b : Bytes) (s : Process r) (t : Process r × Option Error)
      → IsShared r s
      → p.unmarshal_entry b ≡ ok entry
      → raft_apply r p b s ≡ returns t
      → Touched r key new s t.1 t.0
  raft_apply-Touched b s t shared decoded h =
      let bs = (r.apply b s.node).delivered in
      let e = (r.apply b s.node).error in
      let k = subst (λ o. Returns o (AfterLog r p bs e s)) h (raft_apply-AfterLog r p b s shared) in
      elim (quiet b s.node) [
        | inl q ↦ Touched-applied b bs e s t decoded k q
        | inr (q, failed) ↦ Touched-refused bs e s t k q failed
      ]

  pub Touched-self : (s : Process r) (e : Error) → IsShared r s → Touched r key new s (some e) s
  Touched-self s e shared = record {
    shared = shared;
    others = λ j ne. refl;
    reached_or_kept = inr refl;
    reached = λ fine. cc;
  }

  pub submit-Touched :
      (s : Process r) (t : Process r × Option Error)
      → IsShared r s
      → submit r p entry s ≡ returns t
      → Touched r key new s t.1 t.0
  unfolding submit
  submit-Touched s t shared h = elim (Result-cases (p.marshal_entry entry)) [
    | inl (b, q) ↦
        raft_apply-Touched b s t shared (p.entry_round_trip entry b q) (rw (q, submit) at h)
    | inr (x, q) ↦
        subst (λ u. Touched r key new s u.1 u.0)
          (returns-injective (s, some x) t (rw (q, submit) at h)) (Touched-self s x shared)
  ]
