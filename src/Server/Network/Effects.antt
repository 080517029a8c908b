-- ===== src/Server/Network/Effects.antt =====
-- What a write at the process of one address leaves of the processes of a deployment.
use sharded_kvs.Prelude.{
  String, ◌≡◌, ◌≢◌, sym, ◌∙◌, ap, subst, inl, inr, Bool, Option, Error, Result, String-cases,
}
use sharded_kvs.Protos.{Proto}
use sharded_kvs.Raft.{Raft}
use sharded_kvs.Kvstore.Ops.{Process}
use sharded_kvs.Kvstore.Reads.{IsShared, value_at}
use sharded_kvs.Server.{Hashing, Server}
use sharded_kvs.Server.Network.{Deployment}
use sharded_kvs.Server.Network.Layout.{Works}
use sharded_kvs.Server.Network.Written.{Written}
use sharded_kvs.Server.Network.Leading.{IsSteadfast, Leads}

module _ (r : Raft) (p : Proto) (h : Hashing) (steadfast : IsSteadfast r p) (c key : String)
    (new : Option String) (d : Deployment r h) (t : Process r × Option Error)
    (o : Deployment r h × Result (Unit {0})) (leads : Leads r p steadfast t)
    (w : Written r h c key new d t o) where
  Works-here : Works r h d c → Works r h o.0 c
  Works-here old = record {
    runs = ap (λ (f : String → Bool). f c) (w.runs leads.error) ∙ old.runs;
    shared = subst (λ (s : Server r h). IsShared r s.process) (sym w.here) w.touched.shared;
    leads = ap (λ (s : Server r h). r.is_leader s.process.node) w.here ∙ elim w.same_or_later [
      | inl kept ↦ ap (λ (s : Process r). r.is_leader s.node) kept ∙ old.leads
      | inr later ↦ ap (λ (s : Process r). r.is_leader s.node) later ∙ leads.node
    ];
  }

  Works-elsewhere : (c' : String) → c' ≢ c → Works r h d c' → Works r h o.0 c'
  Works-elsewhere c' ne old =
      let same = w.elsewhere c' ne in
      record {
        runs = ap (λ (f : String → Bool). f c') (w.runs leads.error) ∙ old.runs;
        shared = subst (λ (s : Server r h). IsShared r s.process) (sym same) old.shared;
        leads = ap (λ (s : Server r h). r.is_leader s.process.node) same ∙ old.leads;
      }

  -- A process that works still works.
  pub Works-Written : (c' : String) → Works r h d c' → Works r h o.0 c'
  Works-Written c' old = elim (String-cases c' c) [
    | inl e ↦ subst (Works r h o.0) (sym e) (Works-here (subst (Works r h d) e old))
    | inr ne ↦ Works-elsewhere c' ne old
  ]

  -- A server has only its process changed.
  pub unchanged :
      (c' : String) → o.0.servers c' ≡ record (d.servers c') { process = (o.0.servers c').process }
  unchanged c' = elim (String-cases c' c) [
    | inl e ↦
        subst
          (λ (x : String).
            o.0.servers x ≡ record (d.servers x) { process = (o.0.servers x).process })
          (sym e)
          (w.here
            ∙ ap (λ (s : Server r h). record (d.servers c) { process = s.process }) (sym w.here))
    | inr ne ↦
        w.elsewhere c' ne
        ∙ ap (λ (s : Server r h). record (d.servers c') { process = s.process })
            (sym (w.elsewhere c' ne))
  ]

  pub value-here : (j : String) → value_at r j (o.0.servers c).process ≡ value_at r j w.process
  value-here j = ap (λ (s : Server r h). value_at r j s.process) w.here

  pub value-away :
      (c' j : String)
      → c' ≢ c
      → value_at r j (o.0.servers c').process ≡ value_at r j (d.servers c').process
  value-away c' j ne = ap (λ (s : Server r h). value_at r j s.process) (w.elsewhere c' ne)

  pub value-other :
      (c' j : String)
      → j ≢ key
      → value_at r j (o.0.servers c').process ≡ value_at r j (d.servers c').process
  value-other c' j ne = elim (String-cases c' c) [
    | inl e ↦
        subst
          (λ (x : String).
            value_at r j (o.0.servers x).process ≡ value_at r j (d.servers x).process)
          (sym e) (value-here j ∙ w.touched.others j ne)
    | inr away ↦ value-away c' j away
  ]
