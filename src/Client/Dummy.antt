-- ===== src/Client/Dummy.antt =====
-- The sample data of cmd/client/client.go.
use Prim.Native.String.{◌++◌}
use sharded_kvs.Prelude.{
  ℕ, zero, suc, ◌+◌, ◌-◌, ◌≤◌, ◌<◌, String, ◌≡◌, ◌≢◌, refl, ap, ◌∙◌, Option, some, itoa,
  itoa-injective, ok, err, Result, arith,
}
use sharded_kvs.Client.{Console, insert_dummy, print_error}
use native.Mathlib.Decide.{ℕ_discrete}

-- The store behind the connection: a put that succeeds stores its value and changes no other key,
-- and printing changes nothing.
pub record Stored (k : Console) : Type 0 where
  pub held : k.World → String → Option String
  pub held-print : (text : String) (w : k.World) → held (k.print text w) ≡ held w
  pub put-stores :
      (key value : String) (w : k.World)
      → (k.put key value w).1 ≡ ok tt
      → held (k.put key value w).0 key ≡ some value
  pub put-others :
      (key value other : String) (w : k.World)
      → other ≢ key
      → held (k.put key value w).0 other ≡ held w other

module _ (k : Console) (s : Stored k)
    (accepts : (key value : String) (w : k.World) → (k.put key value w).1 ≡ ok tt) where
  open s use {held}

  held-print_error :
      (t : k.World × Result Unit) (key : String) → held (print_error k t) key ≡ held t.0 key
  unfolding print_error
  held-print_error (w, ok u) key = refl
  held-print_error (w, err e) key = ap (λ f. f key) (s.held-print (k.error_text e) w)

  -- Keys below the ones that are inserted stay as they are.
  insert_dummy-below :
      (i count j : ℕ) (w : k.World)
      → j < i
      → held (insert_dummy k i count w) (itoa j) ≡ held w (itoa j)
  unfolding insert_dummy
  insert_dummy-below i zero j w lt = refl
  insert_dummy-below i (suc count) j w lt =
      insert_dummy-below (suc i) count j _ (omega arith)
      ∙ held-print_error _ (itoa j)
      ∙ s.put-others (itoa i) (itoa (100 - i)) (itoa j) _
          (λ e. absurd (let q = itoa-injective j i e in omega arith))
      ∙ ap (λ f. f (itoa j)) (s.held-print _ w)

  -- Where every put is accepted, the loop over `count` numbers from `i` on leaves under each of them
  -- the text of 100 less that number.
  insert_dummy-stores :
      (i count j : ℕ) (w : k.World)
      → i ≤ j
      → j < i + count
      → held (insert_dummy k i count w) (itoa j) ≡ some (itoa (100 - j))
  unfolding insert_dummy
  insert_dummy-stores i zero j w le lt = absurd (omega arith)
  insert_dummy-stores i (suc count) j w le lt = elim (ℕ_discrete i j) [
    | no other ↦ insert_dummy-stores (suc i) count j _ (omega arith) (omega arith)
    | yes here ↦
        insert_dummy-below (suc i) count j _ (omega arith)
        ∙ held-print_error (k.put (itoa i) (itoa (100 - i)) (k.print ("Setting key " ++ itoa i) w))
            (itoa j)
        ∙ rw (← here) (s.put-stores (itoa i) (itoa (100 - i)) _ (accepts _ _ _))
  ]
