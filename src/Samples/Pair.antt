-- ===== src/Samples/Pair.antt =====
-- Two shards of one replica each, "shard-0" with a key. The old ring gives every key to "shard-0",
-- the new one to "shard-1".
use mathlib.Core.List.{Memᴰ}
use sharded_kvs.Prelude.{
  subst, String-cases, String, ◌≡◌, refl, sym, true, false, some, List, [], ◌∷◌, GoMap, lookup,
  insert, itoa, if◌then◌else◌, ◌==◌, arith, eq_iff, inl, inr,
}
use sharded_kvs.Kvstore.{deliver}
use sharded_kvs.Kvstore.Ops.{Process, set, submit, raft_apply}
use sharded_kvs.Server.Clients.{shard_target}
use sharded_kvs.Server.Network.{Deployment}
use sharded_kvs.Server.Network.Leading.{IsSteadfast}
use sharded_kvs.Server.Network.Layout.{Layout, Works, IsReady}
use sharded_kvs.Server.Steady.{Dialled}
use sharded_kvs.Server.Network.Rescaling.{Prepared}
use sharded_kvs.Samples.Codec.{codec, marshal_entry-leader}
use sharded_kvs.Samples.Node.{sample_raft, fresh_process}
use sharded_kvs.Prelude.{Bool-cases, returns}
use sharded_kvs.Server.{Hashing, Server}
use sharded_kvs.Samples.World.{sample_flags, sample_config, first}
use sharded_kvs.Samples.Departure.{holding}

pub sample-IsSteadfast : IsSteadfast sample_raft codec
unfolding sample_raft
sample-IsSteadfast = record {
  leads = λ b n leading. rw leading refl;
  applies = λ b n leading. rw leading (λ q. cc (q));
  marshals = λ e. marshal_entry-leader e;
}

-- The key "k" goes to the first shard of a ring, and every other key to "shard-0".
abbrev pub split_hashing : Hashing
split_hashing = record {
  Ring = List String;
  new_ring = λ names. returns names;
  locate_key = λ ring key. if key == "k" then first ring else some "shard-0";
}

abbrev both : GoMap String
both = ("shard-0", shard_target "shard-0" 8080) ∷ ("shard-1", shard_target "shard-1" 8080) ∷ []

abbrev server : String → Process sample_raft → List String → Server sample_raft split_hashing
server name process ring = record {
  flags = record sample_flags { shard = name };
  process = process;
  ring = ring;
  shard_clients = both;
  replica_clients = [];
  redistributing = false;
  jobs = 0;
}

-- All servers hold the ring; only "shard-0" has a key.
abbrev pair : List String → Deployment sample_raft split_hashing
pair ring = record {
  servers = λ c.
      if c == shard_target "shard-0" 8080
      then server "shard-0" holding ring
      else server "shard-1" (fresh_process true "me") ring;
  running = λ c. true;
  config = sample_config [] [];
}

abbrev pub members : List String
members = "shard-0" ∷ "shard-1" ∷ []

abbrev pub new_members : List String
new_members = "shard-1" ∷ "shard-0" ∷ []

abbrev pub old_layout : Layout split_hashing
old_layout = record {
  members = members;
  port = 8080;
  ring = members;
  home = λ key. "shard-0";
  located = λ key. elim (Bool-cases (key == "k")) [ inl e ↦ rw e refl | inr e ↦ rw e refl ];
  home-member = λ key. Memᴰ.head refl;
}

abbrev pub new_layout : Layout split_hashing
new_layout = record {
  members = new_members;
  port = 8080;
  ring = new_members;
  home = λ key. if key == "k" then "shard-1" else "shard-0";
  located = λ key. elim (Bool-cases (key == "k")) [ inl e ↦ rw e refl | inr e ↦ rw e refl ];
  home-member = λ key. elim (Bool-cases (key == "k")) [
    | inl e ↦ rw e (Memᴰ.head refl)
    | inr e ↦ rw e (Memᴰ.tail (Memᴰ.head refl))
  ];
}

-- Before the ring changes, and after.
abbrev pub old_pair : Deployment sample_raft split_hashing
old_pair = pair members

abbrev pub new_pair : Deployment sample_raft split_hashing
new_pair = pair new_members

pub member_again : (m : String) → Memᴰ m new_members → Memᴰ m members
member_again m (Memᴰ.head e) = Memᴰ.tail (Memᴰ.head e)
member_again m (Memᴰ.tail (Memᴰ.head e)) = Memᴰ.head e
member_again m (Memᴰ.tail (Memᴰ.tail t)) = elim t [ ]

-- A member is one of the two.
pub by_member :
    (P : String → Type 0) → P "shard-0" → P "shard-1" → (m : String) → Memᴰ m members → P m
by_member P a b m (Memᴰ.head e) = subst P (sym e) a
by_member P a b m (Memᴰ.tail (Memᴰ.head e)) = subst P (sym e) b
by_member P a b m (Memᴰ.tail (Memᴰ.tail t)) = elim t [ ]

works :
    (ring : List String) (m : String)
    → Memᴰ m members
    → Works sample_raft split_hashing (pair ring) (shard_target m 8080)
unfolding submit raft_apply insert set codec sample_raft fresh_process deliver shard_target itoa
works ring =
    by_member (λ m. Works sample_raft split_hashing (pair ring) (shard_target m 8080))
      (record {
        runs = refl;
        shared = record { same = refl; object = 0; bound = refl };
        leads = refl;
      })
      (record {
        runs = refl;
        shared = record { same = refl; object = 0; bound = refl };
        leads = refl;
      })

rings :
    (ring : List String) (m : String)
    → Memᴰ m members
    → ((pair ring).servers (shard_target m 8080)).ring ≡ ring
unfolding shard_target itoa
rings ring = by_member (λ m. ((pair ring).servers (shard_target m 8080)).ring ≡ ring) refl refl

names :
    (ring : List String) (m : String)
    → Memᴰ m members
    → ((pair ring).servers (shard_target m 8080)).flags.shard ≡ m
unfolding shard_target itoa
names ring = by_member (λ m. ((pair ring).servers (shard_target m 8080)).flags.shard ≡ m) refl refl

connections :
    (ring : List String) (m m' : String)
    → Memᴰ m members
    → Memᴰ m' members
    → lookup m' ((pair ring).servers (shard_target m 8080)).shard_clients
      ≡ some (shard_target m' 8080)
unfolding lookup shard_target itoa
connections ring m m' there there' =
    by_member
      (λ m.
        lookup m' ((pair ring).servers (shard_target m 8080)).shard_clients
        ≡ some (shard_target m' 8080))
      (by_member (λ m'. lookup m' both ≡ some (shard_target m' 8080)) refl refl m' there')
      (by_member (λ m'. lookup m' both ≡ some (shard_target m' 8080)) refl refl m' there') m there

ports :
    (ring : List String) (m : String)
    → Memᴰ m members
    → ((pair ring).servers (shard_target m 8080)).flags.shard_port ≡ 8080
unfolding shard_target itoa
ports ring =
    by_member (λ m. ((pair ring).servers (shard_target m 8080)).flags.shard_port ≡ 8080) refl refl

both-Dialled : Dialled both 8080
unfolding lookup
both-Dialled name c q = elim (String-cases "shard-0" name) [
  | inl e ↦ ground (arith, eq_iff "shard-0" name)
  | inr ne ↦ ground (arith, eq_iff "shard-0" name, eq_iff "shard-1" name)
]

knows :
    (ring : List String) (m : String)
    → Memᴰ m members
    → Dialled ((pair ring).servers (shard_target m 8080)).shard_clients 8080
unfolding shard_target itoa
knows ring =
    by_member (λ m. Dialled ((pair ring).servers (shard_target m 8080)).shard_clients 8080)
      both-Dialled both-Dialled

pub pair-IsReady : IsReady sample_raft split_hashing new_layout new_pair
pair-IsReady m there = record {
  works = works new_members m (member_again m there);
  same_ring = rings new_members m (member_again m there);
  connected =
      λ m' there'. connections new_members m m' (member_again m there) (member_again m' there');
}

pub pair-Prepared : Prepared sample_raft split_hashing old_layout new_layout old_pair
pair-Prepared = record {
  sources = λ m there. record {
    works = works members m there;
    same_ring = rings members m there;
    named = names members m there;
    connected = λ m' there'. connections members m m' there (member_again m' there');
    dialled = λ m' there'. connections members m m' there there';
  };
  targets = λ m there. record {
    works = works members m (member_again m there);
    port = ports members m (member_again m there);
    known = knows members m (member_again m there);
  };
}
