-- ===== src/Examples/Starting.antt =====
-- The controller process with certificates for its webhooks only, where the metrics' certificates
-- are asked for and cannot be read, and what the cache lists.
use Prim.Native.String.{◌++◌ as joined}
use mathlib.Core.List.{Memᴰ}
use sharded_kvs.Prelude.{String, Option, none, some, [], ◌∷◌, ◌≡◌, ◌↔◌, ◌++◌, refl, Error, library}
use sharded_kvs.Manager.{
  Endpoint, metrics, webhooks, Options, default_options, TlsConfig, configure_all, manager_options,
}
use sharded_kvs.Manager.Main.{Call, start, add_readyz_check, run_manager}
use sharded_kvs.Manager.Owners.{OwnerReference}
use sharded_kvs.Manager.Tls.{configure_all-tls}
use sharded_kvs.Manager.Started.{Fine, set_up, run_manager-start}

abbrev with_certificates : Endpoint → String
with_certificates webhooks = "/certs"
with_certificates metrics = ""

abbrev webhook_options : Options
webhook_options = record default_options { cert_path = with_certificates }

abbrev in_folder : String → String → String
in_folder folder file = joined folder (joined "/" file)

-- The last check cannot be added.
abbrev answers : Call → Option Error
answers add_readyz_check = some (library 1)
answers _ = none

abbrev fresh_tls : TlsConfig
fresh_tls = record { next_protos = "h2" ∷ "http/1.1" ∷ []; get_certificate = none }

abbrev other_owner : OwnerReference
other_owner = record { api_version = "apps/v1"; kind = "KVStore"; name = "kv" }

not_started : (run_manager in_folder answers "" webhook_options).code ≡ 1
unfolding run_manager
not_started = refl

configure_all-tls_example :
    configure_all ((manager_options webhook_options).tls webhooks) fresh_tls
    ≡ record { next_protos = "http/1.1" ∷ []; get_certificate = some webhooks }
configure_all-tls_example = configure_all-tls webhook_options webhooks fresh_tls

abbrev all_fine : Call → Option Error
all_fine c = none

run_manager-start_example :
    (Memᴰ start (run_manager in_folder all_fine "" webhook_options).made
      ↔ Fine in_folder all_fine (set_up in_folder "" webhook_options))
    × (((run_manager in_folder all_fine "" webhook_options).code ≡ 0)
        ↔ Fine in_folder all_fine (set_up in_folder "" webhook_options ++ (start ∷ [])))
run_manager-start_example = run_manager-start in_folder all_fine "" webhook_options
