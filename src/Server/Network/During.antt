-- ===== src/Server/Network/During.antt =====
-- Clients of cmd/shard/shard.go while its shards give their keys away: requests for keys that do not
-- move, between the rounds of the loops of `RedistributeKeys`.
use mathlib.Core.List.{Memᴰ}
use mathlib.Core.Path.{fun_ext}
use sharded_kvs.Prelude.{
  String, ◌≡◌, ◌≢◌, refl, sym, ◌∙◌, ap, subst, inl, inr, false, Option, none, some, List, [], ◌∷◌,
  All, Result, returns, Outcome, ◌>>=◌, if◌then◌else◌, ◌==◌, eq_iff, arith, String-cases,
}
use sharded_kvs.Protos.{Proto}
use sharded_kvs.Raft.{Raft}
use sharded_kvs.Kvstore.Reads.{Quiet, answer}
use sharded_kvs.Server.{Hashing}
use sharded_kvs.Server.Network.{Deployment}
use sharded_kvs.Server.Network.Layout.{Layout, contents}
use sharded_kvs.Server.Network.Leading.{IsSteadfast}
use sharded_kvs.Server.Network.Clients.{get-contents, Done, put-Done, delete-Done}
use sharded_kvs.Server.Network.Requests.{
  Request, read_key, write_key, remove_key, Exchange, got, wrote, Step, read, Trace, finished,
  followed, serve, Step-Wrote,
}
use sharded_kvs.Server.Network.Rescaling.{Prepared, Place, stays, waits_here, moved}
use sharded_kvs.Server.Network.Rounds.{Prepared-Written, Place-other}
use sharded_kvs.Server.Network.Moving.{move_key-Round}
use sharded_kvs.Server.Network.Missing.{Prepared-IsReady}
use sharded_kvs.Server.Network.Actions.{
  subject, same_home, Wrote-mask, Action, round, request, act_all, IsSettled, staying, Moving,
}

module _ (r : Raft) (p : Proto) (h : Hashing) (old new : Layout h) where
  pub record Undisturbed (f : String → Option String) (d : Deployment r h)
      (o : Outcome (Deployment r h × List Exchange)) : Type 0 where
    pub after : Deployment r h
    pub events : List Exchange
    pub ran : o ≡ returns (after, events)
    pub prepared_still : Prepared r h old new after
    pub moving_still : Moving r p h old new f after
    pub run : Trace (staying r p h old new d) events (staying r p h old new after)

  record Answered (f : String → Option String) (d : Deployment r h)
      (o : Outcome (Deployment r h × Exchange)) : Type 0 where
    pub next : Deployment r h
    pub event : Exchange
    pub came : o ≡ returns (next, event)
    pub prepared_next : Prepared r h old new next
    pub moving_next : Moving r p h old new f next
    pub step : Step (staying r p h old new d) event (staying r p h old new next)

  Place-map :
      (f g : String → Option String) (d : Deployment r h) (key : String)
      → f key ≡ g key
      → Place r h old new f d key
      → Place r h old new g d key
  Place-map f g d key e (stays s q) = stays s (q ∙ e)
  Place-map f g d key e (waits_here ne q (inl x)) = waits_here ne (q ∙ e) (inl x)
  Place-map f g d key e (waits_here ne q (inr x)) = waits_here ne (q ∙ e) (inr (x ∙ e))
  Place-map f g d key e (moved ne q x) = moved ne q (x ∙ e)

  module _ (quiet : Quiet r) (steadfast : IsSteadfast r p) (same_port : new.port ≡ old.port)
      (f : String → Option String) where
    module _ (d : Deployment r h) (prepared : Prepared r h old new d)
        (moving : Moving r p h old new f d) where
      -- The map to which a round at `d` refers.
      expected : String → Option String
      expected key = if old.home key == new.home key then contents old d key else f key

      expected-same :
          (key : String) → old.home key ≡ new.home key → expected key ≡ contents old d key
      unfolding expected
      expected-same key e = rw (same_home h old new key e) refl

      expected-other : (key : String) → old.home key ≢ new.home key → expected key ≡ f key
      unfolding expected
      expected-other key ne =
          let other : old.home key == new.home key ≡ false =
            ground (arith, eq_iff (old.home key) (new.home key)) in
          rw other refl

      places : (key : String) → Place r h old new expected d key
      places key = elim (String-cases (old.home key) (new.home key)) [
        | inl e ↦ stays e (sym (expected-same key e))
        | inr ne ↦ Place-map f expected d key (sym (expected-other key ne)) (moving key ne)
      ]

      -- A round leaves the keys that do not move.
      module _ (d' : Deployment r h)
          (places' : (key : String) → Place r h old new expected d' key) where
        Moving-round : Moving r p h old new f d'
        Moving-round key ne = Place-map expected f d' key (expected-other key ne) (places' key)

        staying_round : staying r p h old new d' ≡ staying r p h old new d
        staying_round = fun_ext (λ key. elim (String-cases (old.home key) (new.home key)) [
          | inr ne ↦
              let other : old.home key == new.home key ≡ false =
                ground (arith, eq_iff (old.home key) (new.home key)) in
              rw other refl
          | inl e ↦
              let kept : contents old d' key ≡ contents old d key = elim (places' key) [
                | stays _ q ↦ q ∙ expected-same key e
                | waits_here ne _ _ ↦ absurd (ne e)
                | moved ne _ _ ↦ absurd (ne e)
              ] in
              ap (λ (x : Option String). if old.home key == new.home key then x else none) kept
        ])

      -- Nor does a write of a client touch the keys that move.
      Answered-Done :
          (key : String) (value : Option String) (o : Outcome (Deployment r h × Result (Unit {0})))
          → old.home key ≡ new.home key
          → Done r p h quiet steadfast old d
              (Prepared-IsReady r p h old new quiet steadfast same_port d prepared)
              key
              value
              o
          → Answered f d (o >>= λ t. returns (t.0, wrote key value t.1))
      Answered-Done key value o e k = record {
        next = k.after;
        event = wrote key value k.res;
        came = rw k.ran refl;
        prepared_next =
            Prepared-Written r p h quiet steadfast old new same_port f _ key value d k.local
              (k.after, k.res) k.leads k.written prepared;
        moving_next = λ j ne.
            Place-other r p h quiet steadfast old new same_port f _ key value d k.local
              (k.after, k.res) k.leads k.written j
              (λ same. ne (subst (λ (x : String). old.home x ≡ new.home x) (sym same) e))
              (moving j ne);
        step =
            Step-Wrote key value (staying r p h old new d) (staying r p h old new k.after) k.res (
              Wrote-mask h old new key value (contents old d) (contents old k.after) k.res e
                k.wrote);
      }

      Answered-serve :
          (m : String) (q : Request)
          → Memᴰ m old.members
          → old.home (subject q) ≡ new.home (subject q)
          → Answered f d (serve r p h old m q d)
      Answered-serve m (write_key req) there e =
          Answered-Done req.key (some req.value) _ e
            (put-Done r p h quiet steadfast old d _ m req there)
      Answered-serve m (remove_key key) there e =
          Answered-Done key none _ e (delete-Done r p h quiet steadfast old d _ m key there)
      Answered-serve m (read_key key) there e = record {
        next = d;
        event = got key (answer (contents old d key));
        came =
            rw
              (get-contents r p h quiet steadfast old d
                (Prepared-IsReady r p h old new quiet steadfast same_port d prepared) m key there)
              refl;
        prepared_next = prepared;
        moving_next = moving;
        step =
            subst
              (λ (x : Option String).
                Step (staying r p h old new d) (got key (answer x)) (staying r p h old new d))
              (rw (same_home h old new key e) refl) (read key);
      }

    -- A deployment that is prepared for a new ring, every key that moves at its old shard or at its
    -- new one; no other writer, and leaders that go on leading. However the rounds of the loops of
    -- all the shards and requests of clients for keys that do not move follow one another, each
    -- request at any shard of the old ring, and however the puts and deletes fail: nothing panics,
    -- the requests are served as one map serves them, and every key that moves is still at its old
    -- shard or at its new one.
    pub act_all-Undisturbed :
        (actions : List (Action r p h old new)) (d : Deployment r h)
        → All (IsSettled r p h old new) actions
        → Prepared r h old new d
        → Moving r p h old new f d
        → Undisturbed f d (act_all r p h old new actions d)
    unfolding act_all
    act_all-Undisturbed [] d settled prepared moving = record {
      after = d;
      events = [];
      ran = refl;
      prepared_still = prepared;
      moving_still = moving;
      run = finished;
    }
    act_all-Undisturbed (round a ∷ rest) d (_, settled) prepared moving =
        let g = expected d prepared moving in
        let one =
          move_key-Round r p h quiet steadfast old new same_port g d prepared
            (places d prepared moving) a.at a.key a.at-member in
        let all =
          act_all-Undisturbed rest one.after settled one.prepared_still
            (Moving-round d prepared moving one.after one.places_still) in
        record {
          after = all.after;
          events = all.events;
          ran = rw one.ran all.ran;
          prepared_still = all.prepared_still;
          moving_still = all.moving_still;
          run =
              subst (λ m. Trace m all.events (staying r p h old new all.after))
                (staying_round d prepared moving one.after one.places_still) all.run;
        }
    act_all-Undisturbed (request a ∷ rest) d (e, settled) prepared moving =
        let one = Answered-serve d prepared moving a.at a.request a.at-member e in
        let all = act_all-Undisturbed rest one.next settled one.prepared_next one.moving_next in
        record {
          after = all.after;
          events = one.event ∷ all.events;
          ran = rw (one.came, act_all, all.ran) refl;
          prepared_still = all.prepared_still;
          moving_still = all.moving_still;
          run = followed one.step all.run;
        }
