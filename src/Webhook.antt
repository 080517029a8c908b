-- ===== src/Webhook.antt =====
-- kvctl/internal/webhook/v1/kvstore_webhook.go: what is let in of changes to a `KVStore`.
use Prim.Native.String.{◌++◌}
use sharded_kvs.Prelude.{
  String, ◌≡◌, refl, ap, ◌∙◌, ◌↔◌, Bool, true, false, Option, none, some, Error, message, arith,
  if◌then◌else◌,
}
use sharded_kvs.Controller.{Phase, normal, KvStoreResource}

-- A `runtime.Object`: a `KVStore`, or an object of another type, by the type's name.
pub data Object (Pod : Type 0) : Type 0 where
  kv_store : KvStoreResource Pod → Object Pod
  other : String → Object Pod

abbrev is_normal : Phase → Bool
is_normal normal = true
is_normal _ = false

module _ {Pod : Type 0} where
  -- The warnings are always nil; `none` is a nil error.
  unfoldable pub validate_create : Object Pod → Option Error
  validate_create (kv_store s) = none
  validate_create (other t) = some (message ("expected a KVStore object but got " ++ t))

  abbrev phase_of : Object Pod → Phase
  phase_of (kv_store s) = s.status.phase
  phase_of (other t) = normal

  -- The message about the old object names the type of the new one.
  unfoldable pub validate_update : Object Pod → Object Pod → Option Error
  validate_update old (other t) =
      some (message ("expected a KVStore object for the newObj but got " ++ t))
  validate_update (other u) (kv_store s) =
      some (message "expected a KVStore object for the oldObj but got *v1.KVStore")
  validate_update (kv_store old) (kv_store new) =
      if is_normal old.status.phase
      then none
      else some (message "cannot change while shards are redistributing")

  unfoldable pub validate_delete : Object Pod → Option Error
  validate_delete (kv_store s) = none
  validate_delete (other t) = some (message ("expected a KVStore object but got " ++ t))

  -- An update is let in exactly if both objects are of the type and no scaling was under way in the
  -- old one.
  pub validate_update-none :
      (old new : Object Pod)
      → (validate_update old new ≡ none) ↔ (
          (a : KvStoreResource Pod) × (b : KvStoreResource Pod) × (old ≡ kv_store a)
          × (new ≡ kv_store b)
          × (a.status.phase ≡ normal))
  unfolding validate_update
  validate_update-none (kv_store a) (kv_store b) =
      (λ q. (a, b, refl, refl, ground arith), λ t. rw (ap phase_of t.2 ∙ t.4))
  validate_update-none (other u) (kv_store b) = (λ q. cc, λ t. absurd (cc (t.2)))
  validate_update-none (kv_store a) (other u) = (λ q. cc, λ t. absurd (cc (t.3)))
  validate_update-none (other v) (other u) = (λ q. cc, λ t. absurd (cc (t.3)))
