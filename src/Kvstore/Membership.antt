-- ===== src/Kvstore/Membership.antt =====
-- `Join` of kvstore.go, and what it makes of the members of the cluster.
use mathlib.Core.List.{Memᴰ}
use mathlib.Core.List.Memᴰ
use sharded_kvs.Prelude.{
  ℕ, String, Bool, true, false, Option, none, Error, List, [], ◌∷◌, ◌≡◌, ◌≢◌, ◌↔◌, refl, sym, ap,
  ◌∙◌, subst, ◌⊎◌, inl, inr, ok, All, Bool-cases, Option-cases, Result-cases, String-cases, ◌==◌,
  ◌||◌, ◌&&◌, eq_iff, arith,
}
use sharded_kvs.Raft.{Member, Raft}
use sharded_kvs.Raft.Common.{join_replica}
use sharded_kvs.Kvstore.Ops.{Process, join_loop, join, server_id, server_address}

-- No two of the members have the same name.
abbrev pub Named : List Member → Type 0
Named [] = Unit
Named (m ∷ ms) = All (λ (other : Member). m.id ≢ other.id) ms × Named ms

-- The members that a node of Raft knows. A change of them that succeeds has been committed, and no
-- two members share a name or an address.
pub record Members (r : Raft) : Type 0 where
  pub members : r.Node → List Member
  pub configured : (n : r.Node) (l : List Member) → r.configuration n ≡ ok l → l ≡ members n
  pub named : (n : r.Node) → Named (members n)
  pub unique :
      (n : r.Node) (m m' : Member)
      → Memᴰ m (members n)
      → Memᴰ m' (members n)
      → m.id ≡ m'.id
      → m ≡ m'
  pub removed :
      (id : String) (n : r.Node) (m : Member)
      → (r.remove_server id n).1 ≡ none
      → Memᴰ m (members (r.remove_server id n).0) ↔ (Memᴰ m (members n) × (m.id ≢ id))
  pub added :
      (id address : String) (n : r.Node) (m : Member)
      → (r.add_voter id address n).1 ≡ none
      → Memᴰ m (members (r.add_voter id address n).0) ↔ (
          (m ≡ record { id = id; address = address; voter = true })
          ⊎ (Memᴰ m (members n) × (m.id ≢ id)))

All-members : (P : Member → Type 0) (l : List Member) → ((m : Member) → Memᴰ m l → P m) → All P l
All-members P [] h = tt
All-members P (m ∷ l) h =
    (h m (Memᴰ.head refl), All-members P l (λ other there. h other (Memᴰ.tail there)))

module _ (r : Raft) (k : Members r) (id address : String) where
  open k use {members}

  abbrev pub newcomer : Bool → Member
  newcomer voter = record { id = id; address = address; voter = voter }

  -- The newcomer is a member, as a voter unless it was a member before under its name and address,
  -- and who shares neither its name nor its address is one as before.
  pub record Welcomed (n n' : r.Node) : Type 0 where
    pub in_cluster :
        (voter : Bool) × Memᴰ (newcomer voter) (members n')
        × ((voter ≡ true) ⊎ Memᴰ (newcomer voter) (members n))
    pub others :
        (m : Member) → m.id ≢ id → m.address ≢ address → Memᴰ m (members n') ↔ Memᴰ m (members n)

  Welcomed-added :
      (n : r.Node) → (r.add_voter id address n).1 ≡ none → Welcomed n (r.add_voter id address n).0
  Welcomed-added n fine = record {
    in_cluster = (true, (k.added id address n (newcomer true) fine).1 (inl refl), inl refl);
    others = λ m other elsewhere. (
      λ there. elim ((k.added id address n m fine).0 there) [
        | inl e ↦ absurd (other (ap (λ (x : Member). x.id) e))
        | inr (before, ne) ↦ before
      ],
      λ before. (k.added id address n m fine).1 (inr (before, other)),
    );
  }

  -- The member that is removed clashes with the newcomer.
  Welcomed-removed :
      (gone : Member) (n n' : r.Node)
      → Memᴰ gone (members n)
      → (gone.id ≡ id) ⊎ (gone.address ≡ address)
      → (r.remove_server gone.id n).1 ≡ none
      → Welcomed (r.remove_server gone.id n).0 n'
      → Welcomed n n'
  Welcomed-removed gone n n' was clash fine w = record {
    in_cluster =
        let (voter, there, how) = w.in_cluster in
        (
          voter,
          there,
          elim how [
            | inl e ↦ inl e
            | inr before ↦ inr ((k.removed gone.id n (newcomer voter) fine).0 before).0
          ],
        );
    others = λ m other elsewhere.
        let differs : Memᴰ m (members n) → m.id ≢ gone.id = λ before same.
          let e = k.unique n m gone before was same in
          elim clash [
            | inl c ↦ other (ap (λ (x : Member). x.id) e ∙ c)
            | inr c ↦ elsewhere (ap (λ (x : Member). x.address) e ∙ c)
          ] in
        (
          λ there. ((k.removed gone.id n m fine).0 ((w.others m other elsewhere).0 there)).0,
          λ before.
              (w.others m other elsewhere).1
                ((k.removed gone.id n m fine).1 (before, differs before)),
        );
  }

  Welcomed-same : (n : r.Node) (voter : Bool) → Memᴰ (newcomer voter) (members n) → Welcomed n n
  Welcomed-same n voter there = record {
    in_cluster = (voter, there, inr there);
    others = λ m other elsewhere. (λ h. h, λ h. h);
  }

  still_members :
      (gone : Member) (n : r.Node) (ms : List Member)
      → (r.remove_server gone.id n).1 ≡ none
      → All (λ (other : Member). gone.id ≢ other.id) ms
      → All (λ (m : Member). Memᴰ m (members n)) ms
      → All (λ (m : Member). Memᴰ m (members (r.remove_server gone.id n).0)) ms
  still_members gone n [] fine apart all = tt
  still_members gone n (m ∷ ms) fine apart all = (
    (k.removed gone.id n m fine).1 (all.0, λ e. apart.0 (sym e)),
    still_members gone n ms fine apart.1 all.1,
  )

  -- Either the newcomer is in, or this node is not the leader any more.
  abbrev Settled : r.Node → r.Node → Type 0
  Settled n n' = (r.is_leader n' ≡ false) ⊎ Welcomed n n'

  join_replica-Settled : (n n' : r.Node) → join_replica r id address n ≡ (n', none) → Settled n n'
  unfolding join_replica
  join_replica-Settled n n' q = elim (Bool-cases (r.is_leader n)) [
    | inr follows ↦
        let same : n ≡ n' =
          ap (λ (t : r.Node × Option Error). t.0) (rw (follows, join_replica) at q) in
        inl (rw (← same) follows)
    | inl leads ↦ elim (Option-cases (r.add_voter id address n).1) [
      | inl fine ↦
          let same : (r.add_voter id address n).0 ≡ n' =
            ap (λ (t : r.Node × Option Error). t.0) (rw (leads, fine, join_replica) at q) in
          inr (subst (λ (u : r.Node). Welcomed n u) same (Welcomed-added n fine))
      | inr (e, bad) ↦ absurd (cc (rw (leads, bad, join_replica) at q))
    ]
  ]

  clashes :
      (m : Member)
      → (m.id == id || m.address == address) ≡ true
      → (m.id ≡ id) ⊎ (m.address ≡ address)
  clashes m clash = elim (String-cases m.id id) [
    | inl e ↦ inl e
    | inr other ↦ inr (ground (arith, eq_iff m.id id, eq_iff m.address address))
  ]

  join_loop-Settled :
      (ms : List Member) (n n' : r.Node)
      → Named ms
      → All (λ (m : Member). Memᴰ m (members n)) ms
      → join_loop r ms id address n ≡ (n', none)
      → Settled n n'
  unfolding join_loop
  join_loop-Settled [] n n' named all q = join_replica-Settled n n' q
  join_loop-Settled (m ∷ ms) n n' named all q =
      elim (Bool-cases (m.id == id || m.address == address)) [
        | inr apart ↦ join_loop-Settled ms n n' named.1 all.1 (rw (apart, join_loop) at q)
        | inl clash ↦ elim (Bool-cases (m.id == id && m.address == address)) [
          | inl exact ↦
              (let same_id : m.id ≡ id = ground (arith, eq_iff m.id id, eq_iff m.address address) in
                let same_address : m.address ≡ address =
                  ground (arith, eq_iff m.id id, eq_iff m.address address) in
                let same : n ≡ n' =
                  ap (λ (t : r.Node × Option Error). t.0) (rw (clash, exact, join_loop) at q) in
                let is_new : newcomer m.voter ≡ m = rw (← same_id, ← same_address) refl in
                inr (
                  subst (λ (u : r.Node). Welcomed n u) same
                    (Welcomed-same n m.voter (Memᴰ.cast is_new all.0))))
          | inr other ↦ elim (Option-cases (r.remove_server m.id n).1) [
            | inl fine ↦
                (let later =
                    join_loop-Settled ms (r.remove_server m.id n).0 n' named.1
                      (still_members m n ms fine named.0 all.1)
                      (rw (clash, other, fine, join_loop) at q) in
                  elim later [
                    | inl follows ↦ inl follows
                    | inr w ↦ inr (Welcomed-removed m n n' all.0 (clashes m clash) fine w)
                  ])
            | inr (e, bad) ↦ absurd (cc (rw (clash, other, bad, join_loop) at q))
          ]
        ]
      ]

-- After a join at the leader that reports no error, the newcomer is a member under its name and
-- address, as a voter unless it was a member under both before, and who shares neither with it is a member exactly if it was one, unless this node has
-- stopped being the leader meanwhile.
pub join-Welcomed :
    (r : Raft) (k : Members r) (ip : String) (raft_port : ℕ) (shard replica : String)
    (s s' : Process r)
    → r.is_leader s.node ≡ true
    → join r ip raft_port shard replica s ≡ (s', none)
    → (r.is_leader s'.node ≡ false)
      ⊎ Welcomed r k
          (server_id replica shard raft_port)
          (server_address ip raft_port)
          s.node
          s'.node
unfolding join
join-Welcomed r k ip raft_port shard replica s s' leads q =
    let id = server_id replica shard raft_port in
    let address = server_address ip raft_port in
    elim (Result-cases (r.configuration s.node)) [
      | inr (e, bad) ↦ absurd (cc (rw (leads, bad, join) at q))
      | inl (servers, got) ↦
          (let same = k.configured s.node servers got in
            let ran = join_loop r servers id address s.node in
            let done : ran ≡ (s'.node, none) =
              ap (λ (t : Process r × Option Error). (t.0.node, t.1)) (rw (leads, got, join) at q) in
            join_loop-Settled r k id address servers s.node s'.node
              (subst Named (sym same) (k.named s.node))
              (All-members _ servers (λ m there. subst (λ (l : List Member). Memᴰ m l) same there))
              done)
    ]
