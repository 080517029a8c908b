-- ===== src/Server/Network/Requests.antt =====
-- Any sequence of requests of clients, each at any shard of a deployment that is ready for them: the
-- deployment answers as one map does.
use mathlib.Core.List.{Memᴰ}
use sharded_kvs.Prelude.{
  String, ◌≡◌, refl, sym, subst, inl, inr, Option, none, some, Error, List, [], ◌∷◌, Result, ok,
  err, returns, Outcome, ◌>>=◌,
}
use sharded_kvs.Protos.{Proto, PutRequest}
use sharded_kvs.Raft.{Raft}
use sharded_kvs.Kvstore.Reads.{Quiet, answer}
use sharded_kvs.Server.{Hashing}
use sharded_kvs.Server.Routing.{kv_get, kv_put, kv_delete}
use sharded_kvs.Server.Network.{Deployment, network}
use sharded_kvs.Server.Network.Layout.{Layout, address, IsReady, contents, updated, Wrote}
use sharded_kvs.Server.Network.Leading.{IsSteadfast}
use sharded_kvs.Server.Network.Clients.{get-contents, put-Done, delete-Done}

pub data Request : Type 0 where
  read_key : String → Request
  write_key : PutRequest → Request
  remove_key : String → Request

-- What a client sees of a request: what was asked, and the answer.
pub data Exchange : Type 0 where
  got : String → Result String → Exchange
  wrote : String → Option String → Result (Unit {0}) → Exchange

-- One map that serves requests one at a time. A write that fails may have been done.
pub data Step : (String → Option String) → Exchange → (String → Option String) → Type 0 where
  read : {f : String → Option String} (key : String) → Step f (got key (answer (f key))) f
  written :
      {f : String → Option String} (key : String) (new : Option String)
      → Step f (wrote key new (ok tt)) (updated key new f)
  lost :
      {f : String → Option String} (key : String) (new : Option String) (e : Error)
      → Step f (wrote key new (err e)) f
  in_doubt :
      {f : String → Option String} (key : String) (new : Option String) (e : Error)
      → Step f (wrote key new (err e)) (updated key new f)

pub data Trace : (String → Option String) → List Exchange → (String → Option String) → Type 0 where
  finished : {f : String → Option String} → Trace f [] f
  followed :
      {f g k : String → Option String} {e : Exchange} {es : List Exchange}
      → Step f e g
      → Trace g es k
      → Trace f (e ∷ es) k

pub Step-Wrote :
    (key : String) (new : Option String) (f g : String → Option String) (res : Result (Unit {0}))
    → Wrote key new f g res
    → Step f (wrote key new res) g
Step-Wrote key new f g (ok tt) w =
    subst (Step f (wrote key new (ok tt))) (sym (w.changed refl)) (written key new)
Step-Wrote key new f g (err e) w = elim w.changed_or_kept [
  | inl q ↦ subst (Step f (wrote key new (err e))) (sym q) (in_doubt key new e)
  | inr q ↦ subst (Step f (wrote key new (err e))) (sym q) (lost key new e)
]

module _ (r : Raft) (p : Proto) (h : Hashing) (l : Layout h) where
  -- A request at a shard of the deployment.
  pub record Asked : Type 0 where
    pub at : String
    pub at-member : Memᴰ at l.members
    pub request : Request

  -- The handler of `kvServer` at a shard, with what the client sees.
  abbrev pub serve : String → Request → Deployment r h → Outcome (Deployment r h × Exchange)
  serve m (read_key key) d =
      kv_get r h (network r p h (address l m)) key d >>= λ t. returns (t.0, got key t.1)
  serve m (write_key req) d = kv_put r h (network r p h (address l m)) req d >>= λ t.
      returns (t.0, wrote req.key (some req.value) t.1)
  serve m (remove_key key) d =
      kv_delete r h (network r p h (address l m)) key d >>= λ t. returns (t.0, wrote key none t.1)

  unfoldable pub serve_all : List Asked → Deployment r h → Outcome (Deployment r h × List Exchange)
  serve_all [] d = returns (d, [])
  serve_all (a ∷ rest) d =
      serve a.at a.request d >>= λ t. serve_all rest t.0 >>= λ u. returns (u.0, t.1 ∷ u.1)

  -- A request that is served as the one map serves it.
  record Served (d : Deployment r h) (o : Outcome (Deployment r h × Exchange)) : Type 0 where
    pub after : Deployment r h
    pub event : Exchange
    pub ran : o ≡ returns (after, event)
    pub ready_again : IsReady r h l after
    pub step : Step (contents l d) event (contents l after)

  -- All the requests of a list.
  pub record ServedAll (d : Deployment r h) (o : Outcome (Deployment r h × List Exchange))
      : Type 0 where
    pub after : Deployment r h
    pub events : List Exchange
    pub ran : o ≡ returns (after, events)
    pub ready_again : IsReady r h l after
    pub run : Trace (contents l d) events (contents l after)

  module _ (quiet : Quiet r) (steadfast : IsSteadfast r p) where
    Served-serve :
        (m : String) (q : Request) (d : Deployment r h)
        → Memᴰ m l.members
        → IsReady r h l d
        → Served d (serve m q d)
    Served-serve m (read_key key) d there ready = record {
      after = d;
      event = got key (answer (contents l d key));
      ran = rw (get-contents r p h quiet steadfast l d ready m key there) refl;
      ready_again = ready;
      step = read key;
    }
    Served-serve m (write_key req) d there ready =
        let k = put-Done r p h quiet steadfast l d ready m req there in
        record {
          after = k.after;
          event = wrote req.key (some req.value) k.res;
          ran = rw k.ran refl;
          ready_again = k.ready_again;
          step =
              Step-Wrote req.key (some req.value) (contents l d) (contents l k.after) k.res k.wrote;
        }
    Served-serve m (remove_key key) d there ready =
        let k = delete-Done r p h quiet steadfast l d ready m key there in
        record {
          after = k.after;
          event = wrote key none k.res;
          ran = rw k.ran refl;
          ready_again = k.ready_again;
          step = Step-Wrote key none (contents l d) (contents l k.after) k.res k.wrote;
        }

    -- Where every shard runs one replica, which leads and goes on leading and whose FSM shares its map
    -- with its KVStore, as it does if no snapshot was restored, no one but these clients writes, and
    -- all shards hold one ring and have dialled each other: the deployment serves any list of
    -- requests, each at any of its shards, as one map does that starts as its contents. No request panics; a get answers the map's value; a put or a delete that reports success has
    -- changed the map, and one that reports an error has changed its own key or nothing. At the end
    -- the map is the contents, and the deployment is ready for more.
    pub serve_all-ServedAll :
        (asked : List Asked) (d : Deployment r h)
        → IsReady r h l d
        → ServedAll d (serve_all asked d)
    unfolding serve_all
    serve_all-ServedAll [] d ready = record {
      after = d;
      events = [];
      ran = refl;
      ready_again = ready;
      run = finished;
    }
    serve_all-ServedAll (a ∷ rest) d ready =
        let one = Served-serve a.at a.request d a.at-member ready in
        let all = serve_all-ServedAll rest one.after one.ready_again in
        record {
          after = all.after;
          events = one.event ∷ all.events;
          ran = rw (one.ran, serve_all, all.ran) refl;
          ready_again = all.ready_again;
          run = followed one.step all.run;
        }
