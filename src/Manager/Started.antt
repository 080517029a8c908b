-- ===== src/Manager/Started.antt =====
-- When the manager of kvctl/cmd/main.go starts.
use mathlib.Core.List.{Memᴰ}
use mathlib.Core.List.Memᴰ
use sharded_kvs.Prelude.{
  String, Bool, true, false, Option, none, List, [], ◌∷◌, ◌++◌, ◌≡◌, ◌≢◌, ◌↔◌, refl, sym, ◌∙◌, ap,
  inl, inr, ◌==◌, not, All, Error, Option-cases, Bool-cases, arith,
}
use sharded_kvs.Manager.{Endpoint, metrics, webhooks, Options, when, is_watched, manager_options}
use sharded_kvs.Manager.Main.{
  stateful_sets, ingresses, services, config_maps, Call, watch_certificates, get_config,
  new_manager, index_field, complete_controller, add_watcher, add_healthz_check, add_readyz_check,
  complete_webhook, start, Run, exit, attempt, watch, keep_watching, register_webhook,
  check_and_start, after_setup, setup_with_manager, run_manager,
}

All-append : {A : Type 0} (P : A → Type 0) (l m : List A) → All P l → All P m → All P (l ++ m)
All-append P [] m h k = k
All-append P (x ∷ l) m h k = (h.0, All-append P l m h.1 k)

All-when : {A : Type 0} (P : A → Type 0) (b : Bool) (l : List A) → All P l → All P (when b l)
All-when P true l h = h
All-when P false l h = tt

module _ (join : String → String → String) (env : String) (o : Options) where
  abbrev first_watch : Endpoint → Call
  first_watch e =
      watch_certificates e (join (o.cert_path e) (o.cert_name e))
        (join (o.cert_path e) (o.cert_key e))

  -- The calls that are made up to the start if none fails, in their order, and then those of `last`.
  abbrev calls_before : List Call → List Call
  calls_before last =
      when (is_watched o webhooks) (first_watch webhooks ∷ [])
      ++ (when (is_watched o metrics) (first_watch metrics ∷ [])
          ++ (get_config
              ∷ new_manager (manager_options o)
              ∷ index_field stateful_sets
              ∷ index_field ingresses
              ∷ index_field services
              ∷ complete_controller (stateful_sets ∷ services ∷ ingresses ∷ config_maps ∷ [])
              ∷ (when (not (env == "false")) (complete_webhook ∷ [])
                  ++ (when (is_watched o metrics) (add_watcher metrics ∷ [])
                      ++ (when (is_watched o webhooks) (add_watcher webhooks ∷ [])
                          ++ (add_healthz_check ∷ add_readyz_check ∷ last))))))

  -- All of them but the start.
  abbrev pub set_up : List Call
  set_up = calls_before []

  calls_before-last : (last : List Call) → calls_before last ≡ set_up ++ last
  calls_before-last last = elim (Bool-cases (is_watched o webhooks)) [
    | inl p ↦ elim (Bool-cases (is_watched o metrics)) [
      | inl q ↦ elim (Bool-cases (env == "false")) [
        | inl r ↦ rw (p, q, r) refl
        | inr r ↦ rw (p, q, r) refl
      ]
      | inr q ↦ elim (Bool-cases (env == "false")) [
        | inl r ↦ rw (p, q, r) refl
        | inr r ↦ rw (p, q, r) refl
      ]
    ]
    | inr p ↦ elim (Bool-cases (is_watched o metrics)) [
      | inl q ↦ elim (Bool-cases (env == "false")) [
        | inl r ↦ rw (p, q, r) refl
        | inr r ↦ rw (p, q, r) refl
      ]
      | inr q ↦ elim (Bool-cases (env == "false")) [
        | inl r ↦ rw (p, q, r) refl
        | inr r ↦ rw (p, q, r) refl
      ]
    ]
  ]

  All-set_up : All (λ (c : Call). c ≢ start) set_up
  All-set_up =
      let P = λ (c : Call). c ≢ start in
      All-append P _ _ (All-when P (is_watched o webhooks) _ (λ q. cc (q), tt)) (
        All-append P _ _ (All-when P (is_watched o metrics) _ (λ q. cc (q), tt)) (
          λ q. cc (q),
          (
            λ q. cc (q),
            (
              λ q. cc (q),
              (
                λ q. cc (q),
                (
                  λ q. cc (q),
                  (
                    λ q. cc (q),
                    All-append P _ _ (All-when P (not (env == "false")) _ (λ q. cc (q), tt)) (
                        All-append P _ _ (All-when P (is_watched o metrics) _ (λ q. cc (q), tt)) (
                          All-append P _ _ (All-when P (is_watched o webhooks) _ (λ q. cc (q), tt))
                            (λ q. cc (q), (λ q. cc (q), tt)))),
                  ),
                ),
              ),
            ),
          ),
        ))

module _ (join : String → String → String) (answer : Call → Option Error) where
  abbrev pub Fine : List Call → Type 0
  Fine l = All (λ (c : Call). answer c ≡ none) l

  -- The calls of a list one after another, up to the first that fails, where the exit code is 1.
  until_error : List Call → Run
  unfolding exit attempt
  until_error [] = exit 0
  until_error (c ∷ calls) = attempt join answer c (until_error calls) (λ e. exit 1)

  -- The last call is made exactly if all before it succeed.
  start_made_iff :
      (l : List Call)
      → All (λ (c : Call). c ≢ start) l
      → Memᴰ start (until_error (l ++ (start ∷ []))).made ↔ Fine l
  unfolding until_error attempt exit
  start_made_iff [] other = elim (Option-cases (answer start)) [
    | inl fine ↦ rw (fine, until_error, attempt) (λ m. tt, λ f. Memᴰ.head refl)
    | inr (e, failed) ↦ rw (failed, until_error, attempt) (λ m. tt, λ f. Memᴰ.head refl)
  ]
  start_made_iff (c ∷ l) other = elim (Option-cases (answer c)) [
    | inl fine ↦
        let rest = start_made_iff l other.1 in
        rw (fine, until_error, attempt)
          (
            λ m. elim (Memᴰ.cases_cons m) [
              | inl e ↦ absurd (other.0 (sym e))
              | inr later ↦ (refl, rest.0 later)
            ],
            λ f. Memᴰ.tail (rest.1 f.1),
          )
    | inr (e, failed) ↦
        rw (failed, until_error, attempt)
          (λ m. absurd (other.0 (sym (Memᴰ.eq_of_singleton m))), λ f. absurd (cc (f.0)))
  ]

  -- The exit code is 0 exactly if all calls succeed.
  code_zero_iff : (l : List Call) → ((until_error l).code ≡ 0) ↔ Fine l
  unfolding until_error attempt exit
  code_zero_iff [] = (λ e. tt, λ f. refl)
  code_zero_iff (c ∷ l) = elim (Option-cases (answer c)) [
    | inl fine ↦
        let rest = code_zero_iff l in
        rw (fine, until_error, attempt) (λ e. (refl, rest.0 e), λ f. rest.1 f.1)
    | inr (e, failed) ↦
        rw (failed, until_error, attempt) (λ z. absurd (omega arith), λ f. absurd (cc (f.0)))
  ]

  run_manager-until_error :
      (env : String) (o : Options)
      → run_manager join answer env o ≡ until_error (calls_before join env o (start ∷ []))
  unfolding run_manager watch setup_with_manager after_setup register_webhook keep_watching
      check_and_start until_error
  run_manager-until_error env o = elim (Bool-cases (is_watched o webhooks)) [
    | inl p ↦ elim (Bool-cases (is_watched o metrics)) [
      | inl q ↦ elim (Bool-cases (env == "false")) [
        | inl r ↦ rw (p, q, r) refl
        | inr r ↦ rw (p, q, r) refl
      ]
      | inr q ↦ elim (Bool-cases (env == "false")) [
        | inl r ↦ rw (p, q, r) refl
        | inr r ↦ rw (p, q, r) refl
      ]
    ]
    | inr p ↦ elim (Bool-cases (is_watched o metrics)) [
      | inl q ↦ elim (Bool-cases (env == "false")) [
        | inl r ↦ rw (p, q, r) refl
        | inr r ↦ rw (p, q, r) refl
      ]
      | inr q ↦ elim (Bool-cases (env == "false")) [
        | inl r ↦ rw (p, q, r) refl
        | inr r ↦ rw (p, q, r) refl
      ]
    ]
  ]

  -- The manager starts exactly if every call of `set_up`, the calls that the flags and
  -- ENABLE_WEBHOOKS ask for before the start, succeeds: no error of one of them is passed over. The
  -- exit code is 0 exactly if besides them the manager itself returns no error.
  pub run_manager-start :
      (env : String) (o : Options)
      → (Memᴰ start (run_manager join answer env o).made ↔ Fine (set_up join env o))
        × (((run_manager join answer env o).code ≡ 0) ↔ Fine (set_up join env o ++ (start ∷ [])))
  run_manager-start env o =
      let same : run_manager join answer env o ≡ until_error (set_up join env o ++ (start ∷ [])) =
        run_manager-until_error env o
        ∙ ap until_error (calls_before-last join env o (start ∷ [])) in
      rw same (start_made_iff _ (All-set_up join env o), code_zero_iff _)
