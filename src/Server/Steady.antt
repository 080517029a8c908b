-- ===== src/Server/Steady.antt =====
-- What the loop of `RedistributeKeys` of cmd/shard/shard.go keeps: this server as it is, but for its
-- map, and a value here or at its destination.
use text.Mathlib.TextLemmas.{append_cancel_right}
use sharded_kvs.Prelude.{
  ℕ, String, ◌≡◌, ◌≢◌, sym, ◌∙◌, ap, subst, ◌⊎◌, inl, inr, Option, none, some, arith, true, not,
  ◌&&◌, returns, ok, ◌==◌, eq_iff, lookup, GoMap,
}
use sharded_kvs.Protos.{Proto}
use sharded_kvs.Raft.{Raft}
use sharded_kvs.Kvstore.Ops.{Process}
use sharded_kvs.Kvstore.Reads.{Quiet, IsShared, value_at, answer}
use sharded_kvs.Server.{Hashing, Server, Net, Flags, located, client}
use sharded_kvs.Server.Clients.{shard_target}
use sharded_kvs.Server.ShardRpc.{process, with_process}
use sharded_kvs.Server.Laws.{OwnState, Remote}

-- Every client is dialled at the address of its shard, as `PopulateShardClients` does.
abbrev pub Dialled : GoMap String → ℕ → Type 0
Dialled clients port = (name c : String) → lookup name clients ≡ some c → c ≡ shard_target name port

pub shard_target-injective :
    (a b : String) (port : ℕ) → shard_target a port ≡ shard_target b port → a ≡ b
unfolding shard_target
shard_target-injective a b port h = append_cancel_right a b _ h

pub client-lookup :
    (name c : String) (clients : GoMap String)
    → client name clients ≡ returns c
    → lookup name clients ≡ some c
unfolding client
client-lookup name c clients h = ground arith

-- A key that the loop sends away does not go to this shard.
pub moves_away : (old new shard : String) → (not (old == new) && old == shard) ≡ true → new ≢ shard
moves_away old new shard h e = ground (arith, eq_iff old new, eq_iff old shard)

pub answer-ok : (o : Option String) (v : String) → answer o ≡ ok v → o ≡ some v
answer-ok none v h = cc
answer-ok (some u) v h = cc

module _ (r : Raft) (p : Proto) (h : Hashing) (n : Net (Server r h)) (own : OwnState n)
    (remote : Remote r h n) (quiet : Quiet r) (flags : Flags) (clients : GoMap String)
    (dialled : Dialled clients flags.shard_port) where
  -- What the loop leaves as it is.
  pub record IsSteady (w : n.World) : Type 0 where
    pub shared : IsShared r (process r p h n w)
    pub same_flags : (n.self w).flags ≡ flags
    pub same_clients : (n.self w).shard_clients ≡ clients
    pub fit : remote.fit w

  pub IsSteady-self :
      (w w' : n.World) → n.self w' ≡ n.self w → remote.fit w' → IsSteady w → IsSteady w'
  IsSteady-self w w' e fit st = record {
    shared = subst (λ (s : Server r h). IsShared r s.process) (sym e) st.shared;
    same_flags = ap (λ (s : Server r h). s.flags) e ∙ st.same_flags;
    same_clients = ap (λ (s : Server r h). s.shard_clients) e ∙ st.same_clients;
    fit = fit;
  }

  pub IsSteady-with_process :
      (w : n.World) (s : Process r)
      → IsShared r s
      → IsSteady w
      → IsSteady (with_process r p h n s w)
  IsSteady-with_process w s shared st =
      let e = own.self-with_self (record (n.self w) { process = s }) w in
      record {
        shared = subst (λ (s : Server r h). IsShared r s.process) (sym e) shared;
        same_flags = ap (λ (s : Server r h). s.flags) e ∙ st.same_flags;
        same_clients = ap (λ (s : Server r h). s.shard_clients) e ∙ st.same_clients;
        fit = remote.fit-with_process s w st.fit;
      }

  -- The client of another shard is not at this server's own address.
  pub elsewhere :
      (new c : String)
      → lookup new clients ≡ some c
      → new ≢ flags.shard
      → c ≢ shard_target flags.shard flags.shard_port
  elsewhere new c met away e =
      away (shard_target-injective new flags.shard flags.shard_port (sym (dialled new c met) ∙ e))

  module _ (new_ring : h.Ring) (k v dest c : String)
      (destined : located h new_ring k ≡ returns dest)
      (connected : lookup dest clients ≡ some c) where
    -- The value is still here, or it is gone from here and stored at its destination.
    abbrev pub IsSafe : n.World → Type 0
    IsSafe w =
        (value_at r k (process r p h n w) ≡ some v)
        ⊎ ((value_at r k (process r p h n w) ≡ none) × (remote.held w c k ≡ some v))

    pub IsSafe-same :
        (w w' : n.World)
        → value_at r k (process r p h n w') ≡ value_at r k (process r p h n w)
        → remote.held w' c k ≡ remote.held w c k
        → IsSafe w
        → IsSafe w'
    IsSafe-same w w' e f (inl here) = inl (e ∙ here)
    IsSafe-same w w' e f (inr (gone, there)) = inr (e ∙ gone, f ∙ there)
