-- ===== src/Manager.antt =====
-- kvctl/cmd/main.go: the flags of the controller process and the options that it gives to the
-- servers of controller-runtime. The process is in Main.
pub mod Main
pub mod Owners
pub mod Tls
pub mod Started
use sharded_kvs.Prelude.{
  ℕ, String, Bool, true, false, Option, none, some, List, [], ◌∷◌, ◌++◌, ◌==◌, not,
}

-- The two servers that serve TLS.
pub data Endpoint : Type 0 where
  metrics webhooks : Endpoint

-- The variables of the flags; those of the logger are left out.
pub record Options : Type 0 where
  pub metrics_address : String
  pub probe_address : String
  pub leader_election : Bool
  pub secure_metrics : Bool
  pub enable_http2 : Bool
  -- directory, certificate and key
  pub cert_path : Endpoint → String
  pub cert_name : Endpoint → String
  pub cert_key : Endpoint → String

-- The flags that are not given.
abbrev pub default_options : Options
default_options = record {
  metrics_address = "0";
  probe_address = ":8081";
  leader_election = false;
  secure_metrics = true;
  enable_http2 = false;
  cert_path = λ e. "";
  cert_name = λ e. "tls.crt";
  cert_key = λ e. "tls.key";
}

-- What the program sets of a `tls.Config`: the certificates are those of an endpoint's watcher.
pub record TlsConfig : Type 0 where
  pub next_protos : List String
  pub get_certificate : Option Endpoint

-- The functions that are put into `TLSOpts`.
pub data TlsOption : Type 0 where
  disable_http2 : TlsOption
  watched_certificates : Endpoint → TlsOption

abbrev pub configure : TlsOption → TlsConfig → TlsConfig
configure disable_http2 c = record c { next_protos = "http/1.1" ∷ [] }
configure (watched_certificates e) c = record c { get_certificate = some e }

-- `for _, opt := range TLSOpts { opt(config) }`, as the servers do.
abbrev pub configure_all : List TlsOption → TlsConfig → TlsConfig
configure_all [] c = c
configure_all (opt ∷ opts) c = configure_all opts (configure opt c)

-- A list that is appended under a condition.
abbrev pub when {ℓ} : {A : Type ℓ} → Bool → List A → List A
when true l = l
when false l = []

-- `len(path) > 0`
abbrev pub is_watched : Options → Endpoint → Bool
is_watched o e = not (o.cert_path e == "")

-- `tlsOpts`
unfoldable pub tls_options : Options → List TlsOption
tls_options o = when (not o.enable_http2) (disable_http2 ∷ [])

-- `webhookTLSOpts` and `metricsServerOptions.TLSOpts`. The slices share no room for what is
-- appended.
unfoldable pub endpoint_tls : Options → Endpoint → List TlsOption
unfolding tls_options
endpoint_tls o e = tls_options o ++ when (is_watched o e) (watched_certificates e ∷ [])

-- `ctrl.Options`, with the options of the two servers. `is_filtered` is the authentication of the
-- metrics.
pub record ManagerOptions : Type 0 where
  pub metrics_address : String
  pub secure_serving : Bool
  pub is_filtered : Bool
  pub tls : Endpoint → List TlsOption
  pub probe_address : String
  pub leader_election : Bool
  pub leader_election_id : String

unfoldable pub manager_options : Options → ManagerOptions
unfolding endpoint_tls
manager_options o = record {
  metrics_address = o.metrics_address;
  secure_serving = o.secure_metrics;
  is_filtered = o.secure_metrics;
  tls = endpoint_tls o;
  probe_address = o.probe_address;
  leader_election = o.leader_election;
  leader_election_id = "093d25fb.captainirs.dev";
}
