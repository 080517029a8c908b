-- ===== src/Manager/Main.antt =====
-- `main` of kvctl/cmd/main.go, with `SetupWithManager` of
-- kvctl/internal/controller/kvstore_controller.go and `SetupKVStoreWebhookWithManager` of
-- kvctl/internal/webhook/v1/kvstore_webhook.go: the calls of controller-runtime that it makes. Each
-- is made once, and the first one that fails ends the process.
use sharded_kvs.Prelude.{ℕ, String, Option, none, some, List, [], ◌∷◌, ◌==◌, Error, if◌then◌else◌}
use sharded_kvs.Manager.{
  Endpoint, metrics, webhooks, Options, ManagerOptions, manager_options, is_watched,
}

-- What the controller creates and watches; the field index is for the first three.
pub data Owned : Type 0 where
  stateful_sets ingresses services config_maps : Owned

pub data Call : Type 0 where
  -- `certwatcher.New` with the two files
  watch_certificates : Endpoint → String → String → Call
  -- `ctrl.GetConfigOrDie`, which itself ends the process if there is no configuration
  get_config : Call
  -- `ctrl.NewManager`, with the configuration of the cluster that it is given
  new_manager : ManagerOptions → Call
  -- `IndexField` for the field ".metadata.controller"
  index_field : Owned → Call
  -- `Complete` of the controller "kvstore" for KVStores, with the kinds that it owns
  complete_controller : List Owned → Call
  -- `Complete` of the webhook for KVStores
  complete_webhook : Call
  -- `mgr.Add` of an endpoint's watcher
  add_watcher : Endpoint → Call
  add_healthz_check add_readyz_check : Call
  -- `mgr.Start`, which returns when the manager ends
  start : Call

-- What a process did, and its exit code.
pub record Run : Type 0 where
  pub made : List Call
  pub code : ℕ

-- `os.Exit`, or the end of `main`
unfoldable pub exit : ℕ → Run
exit code = record { made = []; code = code }

-- `join` is `filepath.Join`, and `answer` is what each call returns.
module _ (join : String → String → String) (answer : Call → Option Error) where
  -- A call with what is done after it: where it returns nil, and where it returns an error.
  unfoldable pub attempt : Call → Run → (Error → Run) → Run
  attempt c next failing = elim (answer c) [
    | none ↦ record { made = c ∷ next.made; code = next.code }
    | some e ↦ let r = failing e in record { made = c ∷ r.made; code = r.code }
  ]

  -- `SetupWithManager`; `k` is what its caller does with its answer.
  unfoldable pub setup_with_manager : (Option Error → Run) → Run
  unfolding attempt
  setup_with_manager k =
      let complete =
        attempt (complete_controller (stateful_sets ∷ services ∷ ingresses ∷ config_maps ∷ []))
          (k none) (λ e. k (some e)) in
      let index_services = attempt (index_field services) complete (λ e. k (some e)) in
      let index_ingresses = attempt (index_field ingresses) index_services (λ e. k (some e)) in
      attempt (index_field stateful_sets) index_ingresses (λ e. k (some e))

  -- The watcher of an endpoint's certificates, before the rest of `main`.
  unfoldable pub watch : Options → Endpoint → Run → Run
  unfolding attempt exit
  watch o e next =
      let made =
        attempt
          (watch_certificates e (join (o.cert_path e) (o.cert_name e))
            (join (o.cert_path e) (o.cert_key e)))
          next (λ x. exit 1) in
      if is_watched o e then made else next

  unfoldable pub keep_watching : Options → Endpoint → Run → Run
  unfolding attempt exit
  keep_watching o e next =
      let added = attempt (add_watcher e) next (λ x. exit 1) in
      if is_watched o e then added else next

  -- `env` is the value of ENABLE_WEBHOOKS, "" if it is unset.
  unfoldable pub register_webhook : String → Run → Run
  unfolding attempt exit
  register_webhook env next =
      let registered = attempt complete_webhook next (λ e. exit 1) in
      if env == "false" then next else registered

  -- The end of `main`, from the checks on.
  unfoldable pub check_and_start : Run
  unfolding attempt exit
  check_and_start =
      let started = attempt start (exit 0) (λ e. exit 1) in
      let ready = attempt add_readyz_check started (λ e. exit 1) in
      attempt add_healthz_check ready (λ e. exit 1)

  -- `main` after the registration of the controller, which has given the error `e`.
  unfoldable pub after_setup : String → Options → Option Error → Run
  unfolding register_webhook keep_watching check_and_start exit
  after_setup env o (some e) = exit 1
  after_setup env o none =
      register_webhook env (keep_watching o metrics (keep_watching o webhooks check_and_start))

  unfoldable pub run_manager : String → Options → Run
  unfolding watch setup_with_manager after_setup
  run_manager env o =
      let made =
        attempt (new_manager (manager_options o)) (setup_with_manager (after_setup env o))
          (λ e. exit 1) in
      watch o webhooks (watch o metrics (attempt get_config made (λ e. exit 1)))
