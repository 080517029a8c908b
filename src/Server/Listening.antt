-- ===== src/Server/Listening.antt =====
-- `StartShardRPCServer`, `StartReplicaRPCServer` and `StartKVRPCServer` of cmd/shard/shard.go, the
-- goroutines that `main` starts last, over a parameter for the sockets and for grpc.
use Prim.Native.String.{◌++◌}
use sharded_kvs.Prelude.{
  ℕ, String, Bool, false, ◌≡◌, ◌≢◌, refl, sym, ◌∙◌, ap, Option, some, List, [], ◌∷◌, All, Result,
  ok, err, itoa, Outcome, returns, panics, returns-injective, ◌>>=◌, if◌then◌else◌, ◌==◌, eq_iff,
  eq_refl, arith,
}
use sharded_kvs.Server.{Flags}

-- The services that are registered with a gRPC server.
pub data Service : Type 0 where
  shard_rpc : Service
  replica_rpc : Service
  key_value : Service

-- `net.Listen` on a TCP address, and `Serve` of a gRPC server with one service on what it gives.
pub record Sockets : Type 1 where
  pub World : Type 0
  pub listen : String → World → World × Result (Unit {0})
  pub serve : String → Service → World → World

-- An address is given out once, and what is served there answers there.
pub record IsTcp (n : Sockets) : Type 0 where
  pub bound : n.World → String → Bool
  pub answers : n.World → String → Option Service
  pub listen-free : (a : String) (w : n.World) → bound w a ≡ false → (n.listen a w).1 ≡ ok tt
  pub bound-listen : (a b : String) (w : n.World) → b ≢ a → bound (n.listen a w).0 b ≡ bound w b
  pub bound-serve :
      (a : String) (s : Service) (w : n.World) (b : String) → bound (n.serve a s w) b ≡ bound w b
  pub answers-listen : (a b : String) (w : n.World) → answers (n.listen a w).0 b ≡ answers w b
  pub answers-serve :
      (a : String) (s : Service) (w : n.World) (b : String)
      → answers (n.serve a s w) b ≡ (if a == b then some s else answers w b)

module _ (n : Sockets) where
  -- `fmt.Sprintf(":%d", port)`; a port that cannot be listened at is a panic.
  unfoldable pub serve_at : ℕ → Service → n.World → Outcome n.World
  serve_at port service w =
      let (w', listening) = n.listen (":" ++ itoa port) w in
      elim listening [ err e ↦ panics | ok u ↦ returns (n.serve (":" ++ itoa port) service w') ]

  unfoldable pub start_shard_rpc_server : Flags → n.World → Outcome n.World
  start_shard_rpc_server f = serve_at f.shard_port shard_rpc

  unfoldable pub start_replica_rpc_server : Flags → n.World → Outcome n.World
  start_replica_rpc_server f = serve_at f.replica_port replica_rpc

  unfoldable pub start_kv_rpc_server : ℕ → n.World → Outcome n.World
  start_kv_rpc_server kv_port = serve_at kv_port key_value

  -- The goroutine of a service.
  unfoldable pub start_server : Flags → ℕ → Service → n.World → Outcome n.World
  unfolding start_shard_rpc_server start_replica_rpc_server start_kv_rpc_server
  start_server f kv_port shard_rpc = start_shard_rpc_server f
  start_server f kv_port replica_rpc = start_replica_rpc_server f
  start_server f kv_port key_value = start_kv_rpc_server kv_port

  -- The goroutines in some order.
  unfoldable pub start_servers : Flags → ℕ → List Service → n.World → Outcome n.World
  start_servers f kv_port [] w = returns w
  start_servers f kv_port (s ∷ rest) w =
      start_server f kv_port s w >>= λ w'. start_servers f kv_port rest w'

  module _ (tcp : IsTcp n) (f : Flags) (kv_port : ℕ) where
    abbrev port_of : Service → ℕ
    port_of shard_rpc = f.shard_port
    port_of replica_rpc = f.replica_port
    port_of key_value = kv_port

    abbrev address_of : Service → String
    address_of s = ":" ++ itoa (port_of s)

    abbrev IsDistinct : List Service → Type 0
    IsDistinct [] = Unit
    IsDistinct (s ∷ rest) = All (λ t. address_of t ≢ address_of s) rest × IsDistinct rest

    -- After the start of one service.
    after : Service → n.World → n.World
    after s w = n.serve (address_of s) s (n.listen (address_of s) w).0

    start_server-returns :
        (s : Service) (w : n.World)
        → tcp.bound w (address_of s) ≡ false
        → start_server f kv_port s w ≡ returns (after s w)
    unfolding start_server serve_at after start_shard_rpc_server start_replica_rpc_server
        start_kv_rpc_server
    start_server-returns shard_rpc w free =
        rw (tcp.listen-free (address_of shard_rpc) w free, serve_at) refl
    start_server-returns replica_rpc w free =
        rw (tcp.listen-free (address_of replica_rpc) w free, serve_at) refl
    start_server-returns key_value w free =
        rw (tcp.listen-free (address_of key_value) w free, serve_at) refl

    bound-after :
        (s : Service) (w : n.World) (b : String)
        → b ≢ address_of s
        → tcp.bound (after s w) b ≡ tcp.bound w b
    unfolding after
    bound-after s w b ne =
        tcp.bound-serve (address_of s) s _ b ∙ tcp.bound-listen (address_of s) b w ne

    answers-after-other :
        (s : Service) (w : n.World) (b : String)
        → b ≢ address_of s
        → tcp.answers (after s w) b ≡ tcp.answers w b
    unfolding after
    answers-after-other s w b ne =
        let other : address_of s == b ≡ false = ground (arith, eq_iff (address_of s) b) in
        tcp.answers-serve (address_of s) s _ b ∙ rw other (tcp.answers-listen (address_of s) b w)

    answers-after : (s : Service) (w : n.World) → tcp.answers (after s w) (address_of s) ≡ some s
    unfolding after
    answers-after s w =
        tcp.answers-serve (address_of s) s _ (address_of s) ∙ rw (eq_refl (address_of s)) refl

    free-after :
        (s : Service) (w : n.World) (rest : List Service)
        → All (λ t. address_of t ≢ address_of s) rest
        → All (λ t. tcp.bound w (address_of t) ≡ false) rest
        → All (λ t. tcp.bound (after s w) (address_of t) ≡ false) rest
    free-after s w [] apart free = tt
    free-after s w (t ∷ rest) (ne, apart) (q, free) =
        (bound-after s w (address_of t) ne ∙ q, free-after s w rest apart free)

    -- What already answers at an address that no service of the list takes goes on answering.
    answers-start_servers :
        (ss : List Service) (w w' : n.World) (b : String)
        → All (λ t. address_of t ≢ b) ss
        → All (λ t. tcp.bound w (address_of t) ≡ false) ss
        → IsDistinct ss
        → start_servers f kv_port ss w ≡ returns w'
        → tcp.answers w' b ≡ tcp.answers w b
    unfolding start_servers
    answers-start_servers [] w w' b apart free distinct q =
        ap (λ x. tcp.answers x b) (sym (returns-injective w w' q))
    answers-start_servers (s ∷ rest) w w' b (ne, apart) (q, free) (away, distinct) h =
        answers-start_servers rest (after s w) w' b apart (free-after s w rest away free) distinct
          (rw (start_server-returns s w q) at h)
        ∙ answers-after-other s w b (λ e. ne (sym e))

    -- At addresses that are free and differ, the three servers start in any order, and each service
    -- answers at its own port.
    start_servers-serve :
        (ss : List Service) (w : n.World)
        → All (λ t. tcp.bound w (address_of t) ≡ false) ss
        → IsDistinct ss
        → (w' : n.World) × (start_servers f kv_port ss w ≡ returns w')
          × All (λ s. tcp.answers w' (address_of s) ≡ some s) ss
    unfolding start_servers
    start_servers-serve [] w free distinct = (w, refl, tt)
    start_servers-serve (s ∷ rest) w (q, free) (away, distinct) =
        let free' = free-after s w rest away free in
        let (w', ran, all) = start_servers-serve rest (after s w) free' distinct in
        (
          w',
          rw (start_server-returns s w q) ran,
          (
            answers-start_servers rest (after s w) w' (address_of s) away free' distinct ran
                ∙ answers-after s w,
            all,
          ),
        )
