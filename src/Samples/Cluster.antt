-- ===== src/Samples/Cluster.antt =====
-- A Raft that keeps its members by name and does at once what it is asked.
use mathlib.Core.List.{Memᴰ}
use mathlib.Core.List.Memᴰ
use sharded_kvs.Prelude.{
  true, String, Bool, none, List, [], ◌∷◌, ◌≡◌, ◌≢◌, ◌↔◌, sym, ap, ◌∙◌, subst, inl, inr, ok, err,
  ok-injective, All, Bool-cases, ◌==◌, if◌then◌else◌, eq_iff, nothing_new_to_snapshot,
}
use sharded_kvs.Raft.{Member, Raft}
use sharded_kvs.Kvstore.Membership.{Named, Members}

abbrev pub without : String → List Member → List Member
without id [] = []
without id (m ∷ ms) = let rest = without id ms in if m.id == id then rest else m ∷ rest

pub without_iff :
    (id : String) (l : List Member) (m : Member) → Memᴰ m (without id l) ↔ (Memᴰ m l × (m.id ≢ id))
without_iff id [] m = (λ h. absurd (Memᴰ.not-nil h), λ h. absurd (Memᴰ.not-nil h.0))
without_iff id (x ∷ l) m =
    let (to_list, from_list) = without_iff id l m in
    elim (Bool-cases (x.id == id)) [
      | inl same ↦
          let e : x.id ≡ id = (eq_iff x.id id).0 same in
          rw same (
            λ h. (Memᴰ.tail (to_list h).0, (to_list h).1),
            λ h. elim (Memᴰ.cases_cons h.0) [
              | inl is_x ↦ absurd (h.1 (ap (λ (y : Member). y.id) is_x ∙ e))
              | inr later ↦ from_list (later, h.1)
            ],
          )
      | inr other ↦ rw other (
        λ h. elim (Memᴰ.cases_cons h) [
          | inl is_x ↦ (
            Memᴰ.head is_x,
            λ e. cc ((eq_iff x.id id).1 (sym (ap (λ (y : Member). y.id) is_x) ∙ e), other),
          )
          | inr later ↦ (Memᴰ.tail (to_list later).0, (to_list later).1)
        ],
        λ h. elim (Memᴰ.cases_cons h.0) [
          | inl is_x ↦ Memᴰ.head is_x
          | inr later ↦ Memᴰ.tail (from_list (later, h.1))
        ],
      )
    ]

All-without : (P : Member → Type 0) (id : String) (l : List Member) → All P l → All P (without id l)
All-without P id [] h = tt
All-without P id (x ∷ l) h = elim (Bool-cases (x.id == id)) [
  | inl same ↦ rw same (All-without P id l h.1)
  | inr other ↦ rw other (h.0, All-without P id l h.1)
]

pub All-apart : (id : String) (l : List Member) → All (λ (m : Member). id ≢ m.id) (without id l)
All-apart id [] = tt
All-apart id (x ∷ l) = elim (Bool-cases (x.id == id)) [
  | inl same ↦ rw same (All-apart id l)
  | inr other ↦ rw other ((λ e. cc ((eq_iff x.id id).1 (sym e), other)), All-apart id l)
]

pub Named-without : (id : String) (l : List Member) → Named l → Named (without id l)
Named-without id [] h = tt
Named-without id (x ∷ l) h = elim (Bool-cases (x.id == id)) [
  | inl same ↦ rw same (Named-without id l h.1)
  | inr other ↦
      rw other (All-without (λ (m : Member). x.id ≢ m.id) id l h.0, Named-without id l h.1)
]

All-at : (P : Member → Type 0) (l : List Member) (m : Member) → All P l → Memᴰ m l → P m
All-at P [] m h there = elim there [ ]
All-at P (x ∷ l) m h (Memᴰ.head e) = subst P (sym e) h.0
All-at P (x ∷ l) m h (Memᴰ.tail later) = All-at P l m h.1 later

pub Named-unique :
    (l : List Member) (m m' : Member) → Named l → Memᴰ m l → Memᴰ m' l → m.id ≡ m'.id → m ≡ m'
Named-unique [] m m' h there there' same = elim there [ ]
Named-unique (x ∷ l) m m' h (Memᴰ.head e) (Memᴰ.head e') same = e ∙ sym e'
Named-unique (x ∷ l) m m' h (Memᴰ.head e) (Memᴰ.tail there) same =
    absurd (
      All-at (λ (y : Member). x.id ≢ y.id) l m' h.0 there
        (sym (ap (λ (y : Member). y.id) e) ∙ same))
Named-unique (x ∷ l) m m' h (Memᴰ.tail there) (Memᴰ.head e) same = absurd (
    All-at (λ (y : Member). x.id ≢ y.id) l m h.0 there
      (sym (ap (λ (y : Member). y.id) e) ∙ sym same))
Named-unique (x ∷ l) m m' h (Memᴰ.tail there) (Memᴰ.tail there') same =
    Named-unique l m m' h.1 there there' same

pub record Cluster : Type 0 where
  pub members : List Member
  pub named : Named members
  pub leading : Bool

abbrev remove_member : String → Cluster → Cluster
remove_member id n = record n {
  members = without id n.members;
  named = Named-without id n.members n.named;
}

abbrev add_member : String → String → Cluster → Cluster
add_member id address n = record n {
  members = record { id = id; address = address; voter = true } ∷ without id n.members;
  named = (All-apart id n.members, Named-without id n.members n.named);
}

abbrev pub cluster_raft : Raft
cluster_raft = record {
  Node = Cluster;
  is_leader = λ n. n.leading;
  leader_id = λ n. "";
  applied_index = λ n. 0;
  last_index = λ n. 0;
  apply = λ b n. record { node = n; error = none; delivered = b ∷ [] };
  configuration = λ n. ok n.members;
  remove_server = λ id n. (remove_member id n, none);
  add_voter = λ id address n. (add_member id address n, none);
  demote_voter = λ id n. (n, none);
  leadership_transfer = λ n. (n, none);
  snapshot = λ n. record { node = n; error = none; opened = err nothing_new_to_snapshot };
}

abbrev pub cluster-Members : Members cluster_raft
cluster-Members = record {
  members = λ n. n.members;
  configured = λ n l e. sym (ok-injective _ _ e);
  named = λ n. n.named;
  unique = λ n m m' there there' same. Named-unique n.members m m' n.named there there' same;
  removed = λ id n m fine. without_iff id n.members m;
  added = λ id address n m fine. (
    λ h. elim (Memᴰ.cases_cons h) [
      | inl e ↦ inl e
      | inr later ↦ inr ((without_iff id n.members m).0 later)
    ],
    λ h. elim h [
      | inl e ↦ Memᴰ.head e
      | inr before ↦ Memᴰ.tail ((without_iff id n.members m).1 before)
    ],
  );
}
