-- ===== src/Server/Network/Leading.antt =====
-- A leader of kvstore.go that stays the leader while it writes.
use mathlib.Core.Option.{some-injective}
use sharded_kvs.Kvstore.{Memory, KvFsm, deliver}
use sharded_kvs.Prelude.{
  String, ◌≡◌, ◌≢◌, sym, ◌∙◌, ap, subst, inl, inr, true, Option, none, some, Error, not_leader, ok,
  err, returns, Result-cases, returns-injective, >>=-eq-returns,
}
use sharded_kvs.Protos.{Proto, KvfsmLogEntry, Bytes}
use sharded_kvs.Raft.{Raft}
use sharded_kvs.Kvstore.Ops.{Process, set, delete, submit, raft_apply, set_entry, delete_entry}

-- A leader stays the leader while it applies an entry, and no error of the libraries says that it
-- is not.
pub record IsSteadfast (r : Raft) (p : Proto) : Type 0 where
  pub leads :
      (b : Bytes) (n : r.Node) → r.is_leader n ≡ true → r.is_leader (r.apply b n).node ≡ true
  pub applies :
      (b : Bytes) (n : r.Node) → r.is_leader n ≡ true → (r.apply b n).error ≢ some not_leader
  pub marshals : (e : KvfsmLogEntry) → p.marshal_entry e ≢ err not_leader

module _ (r : Raft) (p : Proto) (steadfast : IsSteadfast r p) where
  -- The process leads after a write, and was not told otherwise.
  pub record Leads (t : Process r × Option Error) : Type 0 where
    pub node : r.is_leader t.0.node ≡ true
    pub error : t.1 ≢ some not_leader

  Leads-raft_apply :
      (b : Bytes) (s : Process r) (t : Process r × Option Error)
      → r.is_leader s.node ≡ true
      → raft_apply r p b s ≡ returns t
      → Leads t
  unfolding raft_apply
  Leads-raft_apply b s t leads q =
      let a = r.apply b s.node in
      let done : KvFsm × Memory → Process r × Option Error =
        λ (u : KvFsm × Memory). (record s { memory = u.1; fsm = u.0; node = a.node }, a.error) in
      let (u, delivered, q1) =
        >>=-eq-returns (deliver p a.delivered s.fsm s.memory) (λ u. returns (done u)) q in
      subst Leads (returns-injective (done u) t q1)
        (record { node = steadfast.leads b s.node leads; error = steadfast.applies b s.node leads })

  Leads-submit :
      (e : KvfsmLogEntry) (s : Process r) (t : Process r × Option Error)
      → r.is_leader s.node ≡ true
      → submit r p e s ≡ returns t
      → Leads t
  unfolding submit
  Leads-submit e s t leads q = elim (Result-cases (p.marshal_entry e)) [
    | inl (b, ran) ↦ Leads-raft_apply b s t leads (rw (ran, submit) at q)
    | inr (x, ran) ↦ subst Leads (returns-injective (s, some x) t (rw (ran, submit) at q)) (record {
      node = leads;
      error = λ e'. steadfast.marshals e (ran ∙ ap err (some-injective x not_leader e'));
    })
  ]

  pub Leads-set :
      (key value : String) (s : Process r) (t : Process r × Option Error)
      → r.is_leader s.node ≡ true
      → set r p key value s ≡ returns t
      → Leads t
  unfolding set
  Leads-set key value s t leads q = Leads-submit (set_entry key value) s t leads (rw leads at q)

  pub Leads-delete :
      (key : String) (s : Process r) (t : Process r × Option Error)
      → r.is_leader s.node ≡ true
      → delete r p key s ≡ returns t
      → Leads t
  unfolding delete
  Leads-delete key s t leads q = Leads-submit (delete_entry key) s t leads (rw leads at q)

-- A leader that applies whatever it is given, and a map whose keys and values can be marshalled.
pub record IsReliable (r : Raft) (p : Proto) (f : String → Option String) : Type 0 where
  pub applies : (b : Bytes) (n : r.Node) → r.is_leader n ≡ true → (r.apply b n).error ≡ none
  pub marshals :
      (key value : String)
      → f key ≡ some value
      → (b : Bytes) × (p.marshal_entry (set_entry key value) ≡ ok b)
  pub marshals_delete :
      (key value : String)
      → f key ≡ some value
      → (b : Bytes) × (p.marshal_entry (delete_entry key) ≡ ok b)

-- With both, a write of a leader has no error.
module _ (r : Raft) (p : Proto) (f : String → Option String) (reliable : IsReliable r p f) where
  fine-raft_apply :
      (b : Bytes) (s : Process r) (t : Process r × Option Error)
      → r.is_leader s.node ≡ true
      → raft_apply r p b s ≡ returns t
      → t.1 ≡ none
  unfolding raft_apply
  fine-raft_apply b s t leads q =
      let a = r.apply b s.node in
      let done : KvFsm × Memory → Process r × Option Error =
        λ (u : KvFsm × Memory). (record s { memory = u.1; fsm = u.0; node = a.node }, a.error) in
      let (u, delivered, q1) =
        >>=-eq-returns (deliver p a.delivered s.fsm s.memory) (λ u. returns (done u)) q in
      ap (λ (x : Process r × Option Error). x.1) (sym (returns-injective (done u) t q1))
      ∙ reliable.applies b s.node leads

  pub fine-set :
      (key value : String) (s : Process r) (t : Process r × Option Error)
      → r.is_leader s.node ≡ true
      → f key ≡ some value
      → set r p key value s ≡ returns t
      → t.1 ≡ none
  unfolding set submit
  fine-set key value s t leads has q =
      let (b, ran) = reliable.marshals key value has in
      fine-raft_apply b s t leads (rw (leads, submit, ran) at q)

  pub fine-delete :
      (key value : String) (s : Process r) (t : Process r × Option Error)
      → r.is_leader s.node ≡ true
      → f key ≡ some value
      → delete r p key s ≡ returns t
      → t.1 ≡ none
  unfolding delete submit
  fine-delete key value s t leads has q =
      let (b, ran) = reliable.marshals_delete key value has in
      fine-raft_apply b s t leads (rw (leads, submit, ran) at q)
