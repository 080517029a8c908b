-- ===== src/Server/Network/Actions.antt =====
-- What goes on in a deployment of cmd/shard/shard.go on its way to a new ring: rounds of the loops of
-- `RedistributeKeys`, and requests of clients.
use mathlib.Core.Path.{fun_ext}
use sharded_kvs.Prelude.{
  String, ◌≡◌, ◌≢◌, refl, ◌∙◌, ap, inl, inr, true, false, Option, none, List, [], ◌∷◌, Result,
  returns, Outcome, ◌>>=◌, if◌then◌else◌, ◌==◌, eq_iff, eq_refl, arith, String-cases,
}
use sharded_kvs.Protos.{Proto}
use sharded_kvs.Raft.{Raft}
use sharded_kvs.Server.{Hashing}
use sharded_kvs.Server.Redistribute.{move_key}
use sharded_kvs.Server.Network.{Deployment, network}
use sharded_kvs.Server.Network.Layout.{Layout, address, contents, updated, Wrote}
use sharded_kvs.Server.Network.Requests.{
  Request, read_key, write_key, remove_key, Exchange, Asked, serve,
}
use sharded_kvs.Server.Network.Rescaling.{Place}
use sharded_kvs.Server.Network.Moves.{Move}

-- The key of a request.
abbrev pub subject : Request → String
subject (read_key key) = key
subject (write_key req) = req.key
subject (remove_key key) = key

-- A map without the keys that move.
module _ (h : Hashing) (old new : Layout h) where
  abbrev pub mask : (String → Option String) → String → Option String
  mask f key = if old.home key == new.home key then f key else none

  pub same_home : (key : String) → old.home key ≡ new.home key → old.home key == new.home key ≡ true
  same_home key e = ground (arith, eq_iff (old.home key) (new.home key))

  mask-updated :
      (key : String) (value : Option String) (f : String → Option String)
      → old.home key ≡ new.home key
      → mask (updated key value f) ≡ updated key value (mask f)
  mask-updated key value f e = fun_ext (λ j. elim (String-cases key j) [
    | inl k ↦ rw (← k, same_home key e, eq_refl key) refl
    | inr ne ↦ let other : key == j ≡ false = ground (arith, eq_iff key j) in rw other refl
  ])

  pub Wrote-mask :
      (key : String) (value : Option String) (f g : String → Option String)
      (res : Result (Unit {0}))
      → old.home key ≡ new.home key
      → Wrote key value f g res
      → Wrote key value (mask f) (mask g) res
  Wrote-mask key value f g res e w = record {
    changed_or_kept = elim w.changed_or_kept [
      | inl q ↦ inl (ap mask q ∙ mask-updated key value f e)
      | inr q ↦ inr (ap mask q)
    ];
    changed = λ fine. ap mask (w.changed fine) ∙ mask-updated key value f e;
  }

module _ (r : Raft) (p : Proto) (h : Hashing) (old new : Layout h) where
  -- A round of a loop, or a request of a client at a shard of the old ring.
  pub data Action : Type 0 where
    round : Move r p h old new → Action
    request : Asked r p h old → Action

  unfoldable pub act_all : List Action → Deployment r h → Outcome (Deployment r h × List Exchange)
  act_all [] d = returns (d, [])
  act_all (round a ∷ rest) d =
      move_key r p h (network r p h (address old a.at)) new.ring a.key d >>= λ d'. act_all rest d'
  act_all (request a ∷ rest) d =
      serve r p h old a.at a.request d >>= λ t. act_all rest t.0 >>= λ u. returns (u.0, t.1 ∷ u.1)

  -- A request for a key that does not move.
  abbrev pub IsSettled : Action → Type 0
  IsSettled (round a) = Unit
  IsSettled (request a) = old.home (subject a.request) ≡ new.home (subject a.request)

  -- What clients see of the keys that do not move.
  abbrev pub staying : Deployment r h → String → Option String
  staying d = mask h old new (contents old d)

  -- The keys that move have their places.
  abbrev pub Moving : (String → Option String) → Deployment r h → Type 0
  Moving f d = (key : String) → old.home key ≢ new.home key → Place r h old new f d key
