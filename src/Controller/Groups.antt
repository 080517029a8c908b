-- ===== src/Controller/Groups.antt =====
-- Which groups `FinalizeScale` of kvctl/internal/controller/kvstore_controller.go deletes.
use text.Mathlib.TextLemmas.{append_cancel_left}
use mathlib.Core.List.{◌++◌ as append}
use mathlib.Core.List.{Memᴰ}
use mathlib.Core.List.Memᴰ
use sharded_kvs.Prelude.{
  ℕ, zero, suc, ◌≤◌, ◌<◌, String, ◌≡◌, ap, ◌↔◌, true, ◌||◌, List, [], ◌∷◌, arith, ◌==◌, eq_iff,
  itoa-injective, Option, none, Error, ◌⊎◌, inl, inr, Bool-cases,
}
use sharded_kvs.Controller.{ObjectMeta, Cluster}
use sharded_kvs.Controller.Objects.{shard_name}
use sharded_kvs.Controller.Phases.{contains, group_of, groups_to_delete, delete_loop}

pub shard_name-injective : (name : String) (i j : ℕ) → shard_name name i ≡ shard_name name j → i ≡ j
unfolding shard_name
shard_name-injective name i j h =
    itoa-injective i j (append_cancel_left "-shard-" _ _ (append_cancel_left name _ _ h))

pub contains-append :
    (xs : List String) (y s : String)
    → contains (append xs (y ∷ [])) s ≡ (contains xs s || (y == s))
unfolding contains
contains-append [] y s = ground arith
contains-append (x ∷ xs) y s = ground (arith, contains-append xs y s)

groups_to_delete_lem :
    (name : String) (target current i : ℕ)
    → (contains (groups_to_delete name target current) (shard_name name i) ≡ true)
      ↔ ((target ≤ i) × (i < current))
unfolding groups_to_delete contains
groups_to_delete_lem name target zero i = (λ h. cc, λ h. absurd (omega arith))
groups_to_delete_lem name target (suc j) i = ground (
  arith,
  groups_to_delete_lem name target j i,
  contains-append (groups_to_delete name target j) (shard_name name j) (shard_name name i),
  eq_iff (shard_name name j) (shard_name name i),
  shard_name-injective name j i,
  ap (shard_name name),
)

module _ (k : Cluster) {A : Type 0} (meta : A → ObjectMeta)
    (delete : A → k.World → k.World × Option Error) (deleted : k.World → List A)
    (succeeds : (x : A) (w : k.World) → (delete x w).1 ≡ none)
    (deletes : (x : A) (w : k.World) → deleted (delete x w).0 ≡ x ∷ deleted w) where
  -- What the loop deletes, for any list of groups.
  delete_loop_lem :
      (groups : List String) (l : List A) (w : k.World) (x : A)
      → Memᴰ x (deleted (delete_loop k meta delete groups l w).0)
        ↔ (Memᴰ x (deleted w) ⊎ (Memᴰ x l × (contains groups (group_of (meta x)) ≡ true)))
  unfolding delete_loop
  delete_loop_lem groups [] w x = (inl, λ m. elim m [ inl there ↦ there | inr h ↦ elim h.0 [ ] ])
  delete_loop_lem groups (y ∷ l) w x = elim (Bool-cases (contains groups (group_of (meta y)))) [
    | inr kept ↦
        let rest = delete_loop_lem groups l w x in
        rw kept (
          λ m. elim (rest.0 m) [ inl there ↦ inl there | inr h ↦ inr (Memᴰ.tail h.0, h.1) ],
          λ m. rest.1 (elim m [
            | inl there ↦ inl there
            | inr h ↦ elim (Memᴰ.cases_cons h.0) [
              | inl e ↦ absurd (cc (rw e at h.1, kept))
              | inr later ↦ inr (later, h.1)
            ]
          ]),
        )
    | inl chosen ↦
        let rest = delete_loop_lem groups l (delete y w).0 x in
        rw (chosen, succeeds y w)
          (
            λ m. elim (rest.0 m) [
              | inr h ↦ inr (Memᴰ.tail h.0, h.1)
              | inl there ↦ elim (Memᴰ.cases_cons (rw (deletes y w) at there)) [
                | inr before ↦ inl before
                | inl e ↦ inr (Memᴰ.head e, rw e chosen)
              ]
            ],
            λ m. rest.1 (elim m [
              | inl there ↦ inl (rw (deletes y w) (Memᴰ.tail there))
              | inr h ↦ elim (Memᴰ.cases_cons h.0) [
                | inl e ↦ inl (rw (deletes y w) (Memᴰ.head e))
                | inr later ↦ inr (later, h.1)
              ]
            ]),
          )
  ]

  -- Where every delete succeeds and adds its object to those deleted, the loop of FinalizeScale
  -- over a list of objects, with the groups that FinalizeScale computes, deletes an object that
  -- was not deleted before and whose group is that of the shard with the number `i` exactly if the
  -- object is on the list, the target number of shards does not reach `i`, and the current number
  -- does.
  pub delete_loop-deletes_iff :
      (name : String) (target current i : ℕ) (l : List A) (w : k.World) (x : A)
      → group_of (meta x) ≡ shard_name name i
      → (Memᴰ x (deleted w) → ⊥)
      → Memᴰ x (deleted (delete_loop k meta delete (groups_to_delete name target current) l w).0)
        ↔ (Memᴰ x l × (target ≤ i) × (i < current))
  delete_loop-deletes_iff name target current i l w x e fresh =
      let loop = delete_loop_lem (groups_to_delete name target current) l w x in
      let listed = groups_to_delete_lem name target current i in
      (
        λ m. elim (loop.0 m) [
          | inl there ↦ absurd (fresh there)
          | inr h ↦ let (low, high) = listed.0 (rw e at h.1) in (h.0, low, high)
        ],
        λ h. loop.1 (inr (h.0, rw e (listed.1 (h.1, h.2)))),
      )
