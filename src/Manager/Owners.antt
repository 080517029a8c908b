-- ===== src/Manager/Owners.antt =====
-- The index functions of `SetupWithManager` of kvctl/internal/controller/kvstore_controller.go:
-- under which name the cache lists an object for `MatchingFields{".metadata.controller": name}`.
use mathlib.Core.List.{Memᴰ}
use mathlib.Core.List.Memᴰ
use sharded_kvs.Prelude.{
  String, true, Option, none, some, List, [], ◌∷◌, ◌≡◌, ◌↔◌, ◌==◌, not, ◌||◌, if◌then◌else◌, eq_iff,
  String-cases, inl, inr, arith,
}

-- `metav1.OwnerReference`, as far as it is read.
pub record OwnerReference : Type 0 where
  pub api_version : String
  pub kind : String
  pub name : String

-- `kvctlv1.GroupVersion.String()`
abbrev pub api_group_version : String
api_group_version = "kvctl.captainirs.dev/v1"

-- The function is written three times, for StatefulSets, Ingresses and Services. Its argument is
-- what `metav1.GetControllerOf` gives for the object.
unfoldable pub owner_index : Option OwnerReference → List String
owner_index none = []
owner_index (some owner) =
    if not (owner.api_version == api_group_version) || not (owner.kind == "KVStore")
    then []
    else owner.name ∷ []

-- An object is listed for a name exactly if what controls it is a KVStore of this API version and of
-- that name.
owner_index_iff :
    (controller : Option OwnerReference) (name : String)
    → Memᴰ name (owner_index controller) ↔ (
        controller
        ≡ some (record { api_version = api_group_version; kind = "KVStore"; name = name }))
unfolding owner_index
owner_index_iff none name = (λ m. absurd (Memᴰ.not-nil m), λ e. absurd (cc (e)))
owner_index_iff (some owner) name = elim (String-cases owner.api_version api_group_version) [
  | inl a ↦ elim (String-cases owner.kind "KVStore") [
    | inl b ↦ rw (a, b) (λ m. cc (Memᴰ.eq_of_singleton m), λ e. Memᴰ.head (cc (e)))
    | inr b ↦
        let q : not (owner.api_version == api_group_version) || not (owner.kind == "KVStore")
            ≡ true =
          ground (arith, eq_iff owner.kind "KVStore") in
        rw q (λ m. absurd (Memᴰ.not-nil m), λ e. absurd (b (cc (e))))
  ]
  | inr a ↦
      let q : not (owner.api_version == api_group_version) || not (owner.kind == "KVStore") ≡ true =
        ground (arith, eq_iff owner.api_version api_group_version) in
      rw q (λ m. absurd (Memᴰ.not-nil m), λ e. absurd (a (cc (e))))
]
