-- ===== src/Server/Interleaving/Others.antt =====
-- What the loop of `RedistributeKeys` knows about a key, and that clients' writes of other keys leave
-- it true.
use sharded_kvs.Prelude.{
  String, ◌≡◌, ◌≢◌, ◌∙◌, ap, Option, none, some, Error, returns, lookup, GoMap,
}
use sharded_kvs.Protos.{Proto}
use sharded_kvs.Raft.{Raft}
use sharded_kvs.Kvstore.Ops.{Process}
use sharded_kvs.Kvstore.Reads.{Quiet, value_at}
use sharded_kvs.Kvstore.Touch.{Touched}
use sharded_kvs.Kvstore.Purge.{delete-Purged, set-Touched}
use sharded_kvs.Server.{Hashing, Server, Net, Flags, located}
use sharded_kvs.Server.ShardRpc.{process, with_process}
use sharded_kvs.Server.Laws.{OwnState, Remote}
use sharded_kvs.Server.Steady.{Dialled, IsSteady, IsSafe, IsSafe-same, IsSteady-with_process}
use sharded_kvs.Server.Interleaving.{Pc, scanning, holding, sent, ClientStep, sets, deletes}

module _ (r : Raft) (p : Proto) (h : Hashing) (n : Net (Server r h)) (own : OwnState n)
    (remote : Remote r h n) (quiet : Quiet r) (flags : Flags) (clients : GoMap String)
    (dialled : Dialled clients flags.shard_port) (new_ring : h.Ring) (k v dest c : String)
    (destined : located h new_ring k ≡ returns dest)
    (connected : lookup dest clients ≡ some c) where
  abbrev pub Steady : n.World → Type 0
  Steady w = IsSteady r p h n own remote quiet flags clients dialled w

  abbrev pub Safe : n.World → Type 0
  Safe w =
      IsSafe r p h n own remote quiet flags clients dialled new_ring k v dest c destined connected w

  -- The value of `k` at this shard.
  abbrev pub here : n.World → Option String
  here w = value_at r k (process r p h n w)

  -- What the variables of the loop say about `k`, if the loop is at `k`.
  abbrev pub Local : Pc → n.World → Type 0
  Local (scanning keys) w = Unit
  Local (holding key value target keys) w =
      (located h new_ring key ≡ returns target)
      × (target ≢ flags.shard)
      × (k ≡ key → (here w ≡ some v) × (value ≡ v))
  Local (sent key keys) w = k ≡ key → (here w ≡ some v) × (remote.held w c k ≡ some v)

  pub record Inv (pc : Pc) (w : n.World) : Type 0 where
    pub steady : Steady w
    pub safe : Safe w
    pub locals : Local pc w

  pub here-with_process :
      (s : Process r) (w : n.World) → here (with_process r p h n s w) ≡ value_at r k s
  here-with_process s w =
      ap (λ (x : Server r h). value_at r k x.process)
        (own.self-with_self (record (n.self w) { process = s }) w)

  pub held-with_process :
      (s : Process r) (w : n.World) → remote.held (with_process r p h n s w) c k ≡ remote.held w c k
  held-with_process s w =
      ap (λ (f : String → String → Option String). f c k)
        (remote.held-with_self (record (n.self w) { process = s }) w)

  -- A write of another key.
  module _ (key : String) (new : Option String) (w : n.World) (t : Process r × Option Error)
      (touched : Touched r key new (process r p h n w) t.1 t.0) (ne : k ≢ key) where
    abbrev pub after : n.World
    after = with_process r p h n t.0 w

    here-after : here after ≡ here w
    here-after = here-with_process t.0 w ∙ touched.others k ne

    held-after : remote.held after c k ≡ remote.held w c k
    held-after = held-with_process t.0 w

    Local-after : (pc : Pc) → Local pc w → Local pc after
    Local-after (scanning keys) l = tt
    Local-after (holding key' value target keys) l =
        (l.0, l.1, λ e. (here-after ∙ (l.2 e).0, (l.2 e).1))
    Local-after (sent key' keys) l = λ e. (here-after ∙ (l e).0, held-after ∙ (l e).1)

    pub Inv-after : (pc : Pc) → Inv pc w → Inv pc after
    Inv-after pc inv = record {
      steady =
          IsSteady-with_process r p h n own remote quiet flags clients dialled w t.0 touched.shared
            inv.steady;
      safe =
          IsSafe-same r p h n own remote quiet flags clients dialled new_ring k v dest c destined
            connected w after here-after held-after inv.safe;
      locals = Local-after pc inv.locals;
    }

  pub Inv-client :
      (pc : Pc) (w w' : n.World)
      → ClientStep r p h n new_ring (λ j. k ≢ j) w w'
      → Inv pc w
      → Inv pc w'
  Inv-client pc w w' (sets key value t ne ran) inv =
      Inv-after key (some value) w t
        (set-Touched r p quiet key value (process r p h n w) t inv.steady.shared ran) ne pc inv
  Inv-client pc w w' (deletes key t ne ran) inv =
      Inv-after key none w t
        (delete-Purged r p quiet key (process r p h n w) t inv.steady.shared ran) ne pc inv
