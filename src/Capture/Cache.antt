-- ===== src/Capture/Cache.antt =====
-- The cache of names of internal/capture.go: a text is replaced the same way again.
use sharded_kvs.Prelude.{
  String, none, some, List, [], ◌∷◌, ◌≡◌, refl, sym, ap, ◌∙◌, ◌==◌, eq_iff, eq_refl, arith, GoMap,
  insert, lookup, lookup-insert, Outcome, returns, >>=-eq-returns, returns-injective, Option-cases,
  String-cases, false, inl, inr,
}
use sharded_kvs.Capture.{
  Piece, plain, address, Wire, Capturing, get_host_from_ip, replace_ip, short_name, replace_pieces,
  replace_ips_with_hostnames,
}

-- What is in the one map is in the other.
abbrev Extends : GoMap String → GoMap String → Type 0
Extends d c = (ip name : String) → lookup ip c ≡ some name → lookup ip d ≡ some name

module _ (k : Wire) where
  -- From `s` to `t` the cache grows, and while it holds at least what it holds at `t`, the answer is
  -- `text` without a lookup.
  record Remembers (again : Capturing k → Outcome (Capturing k × String)) (s t : Capturing k)
      (text : String) : Type 0 where
    grows : Extends t.cache s.cache
    repeats : (u : Capturing k) → Extends u.cache t.cache → again u ≡ returns (u, text)

  replace_ip-found :
      (ip name : String) (s : Capturing k)
      → lookup ip s.cache ≡ some name
      → replace_ip k ip s ≡ returns (s, name)
  unfolding replace_ip
  replace_ip-found ip name s q = rw (q, replace_ip) refl

  replace_ip-learns :
      (ip : String) (s t : Capturing k) (text : String)
      → lookup ip s.cache ≡ none
      → replace_ip k ip s ≡ returns (t, text)
      → t.cache ≡ insert ip text s.cache
  unfolding replace_ip
  replace_ip-learns ip s t text q ran =
      let (x, looked_up, e) =
        >>=-eq-returns (get_host_from_ip k ip s.world)
          (λ x.
            let name = short_name x.1 in
            returns (record { cache = insert ip name s.cache; world = x.0 }, name))
          (rw (q, replace_ip) at ran) in
      let p = returns-injective _ _ e in
      sym (ap (λ (y : Capturing k × String). y.0.cache) p)
      ∙ ap (λ (name : String). insert ip name s.cache) (ap (λ (y : Capturing k × String). y.1) p)

  replace_ip-Remembers :
      (ip : String) (s t : Capturing k) (text : String)
      → replace_ip k ip s ≡ returns (t, text)
      → Remembers (replace_ip k ip) s t text
  replace_ip-Remembers ip s t text ran = elim (Option-cases (lookup ip s.cache)) [
    | inr (name, q) ↦
        let p = returns-injective _ _ (sym (replace_ip-found ip name s q) ∙ ran) in
        let same : s ≡ t = ap (λ (y : Capturing k × String). y.0) p in
        let called : name ≡ text = ap (λ (y : Capturing k × String). y.1) p in
        record {
          grows = λ j other h. rw (← same) h;
          repeats = λ u more. replace_ip-found ip text u (more ip text (rw (← same, ← called) q));
        }
    | inl q ↦
        let learnt = replace_ip-learns ip s t text q ran in
        record {
          grows = λ j other h. elim (String-cases ip j) [
            | inl e ↦ absurd (cc (q, h, e))
            | inr different ↦
                rw
                  (
                    learnt,
                    lookup-insert,
                    (let no : ip == j ≡ false = ground (arith, eq_iff ip j) in no),
                  )
                  h
          ];
          repeats = λ u more.
              replace_ip-found ip text u (more ip text (rw (learnt, lookup-insert, eq_refl) refl));
        }
  ]

  replace_pieces-Remembers :
      (pieces : List Piece) (s t : Capturing k) (text : String)
      → replace_pieces k pieces s ≡ returns (t, text)
      → Remembers (replace_pieces k pieces) s t text
  unfolding replace_pieces
  replace_pieces-Remembers [] s t text ran =
      let p = returns-injective _ _ ran in
      let same : s ≡ t = ap (λ (y : Capturing k × String). y.0) p in
      record {
        grows = λ j other h. rw (← same) h;
        repeats = λ u more. ap (λ x. returns (u, x)) (ap (λ (y : Capturing k × String). y.1) p);
      }
  replace_pieces-Remembers (plain between ∷ pieces) s t text ran =
      let (x, ran_rest, e) = >>=-eq-returns (replace_pieces k pieces s) _ ran in
      let p = returns-injective _ _ e in
      let same : x.0 ≡ t = ap (λ (y : Capturing k × String). y.0) p in
      let rest = replace_pieces-Remembers pieces s x.0 x.1 ran_rest in
      record {
        grows = λ j other h. rw (← same) (rest.grows j other h);
        repeats = λ u more.
            rw (rest.repeats u (λ j other h. more j other (rw (← same) h)))
              (ap (λ z. returns (u, z)) (ap (λ (y : Capturing k × String). y.1) p));
      }
  replace_pieces-Remembers (address ip ∷ pieces) s t text ran =
      let (x, ran_first, e) = >>=-eq-returns (replace_ip k ip s) _ ran in
      let (y, ran_rest, e') = >>=-eq-returns (replace_pieces k pieces x.0) _ e in
      let p = returns-injective _ _ e' in
      let same : y.0 ≡ t = ap (λ (y : Capturing k × String). y.0) p in
      let first = replace_ip-Remembers ip s x.0 x.1 ran_first in
      let rest = replace_pieces-Remembers pieces x.0 y.0 y.1 ran_rest in
      record {
        grows = λ j other h. rw (← same) (rest.grows j other (first.grows j other h));
        repeats = λ u more.
            let more_rest : Extends u.cache y.0.cache = λ j other h. more j other (rw (← same) h) in
            rw
              (
                first.repeats u (λ j other h. more_rest j other (rest.grows j other h)),
                rest.repeats u more_rest,
              )
              (ap (λ z. returns (u, z)) (ap (λ (y : Capturing k × String). y.1) p));
      }

  -- A text whose addresses were replaced is replaced by the same text again, with the same cache and
  -- without a lookup, whatever has become of the names and whatever the cache has learnt since.
  pub replace_again :
      (text replaced : String) (s t u : Capturing k)
      → replace_ips_with_hostnames k text s ≡ returns (t, replaced)
      → Extends u.cache t.cache
      → replace_ips_with_hostnames k text u ≡ returns (u, replaced)
  unfolding replace_ips_with_hostnames
  replace_again text replaced s t u ran more =
      (replace_pieces-Remembers (k.pieces text) s t replaced ran).repeats u more
