-- ===== src/Manager/Tls.antt =====
-- The TLS configuration that the options of kvctl/cmd/main.go come to.
use sharded_kvs.Prelude.{some, [], ◌∷◌, ◌≡◌, refl, if◌then◌else◌, Bool-cases, inl, inr}
use sharded_kvs.Manager.{
  Endpoint, Options, TlsConfig, configure_all, is_watched, tls_options, endpoint_tls,
  manager_options,
}

-- Either server serves HTTP/1.1 only unless HTTP/2 is enabled, and takes its certificates from its
-- own watcher exactly if there is a directory of certificates for it; nothing else is changed.
pub configure_all-tls :
    (o : Options) (e : Endpoint) (c : TlsConfig)
    → configure_all ((manager_options o).tls e) c ≡ record {
      next_protos = if o.enable_http2 then c.next_protos else "http/1.1" ∷ [];
      get_certificate = if is_watched o e then some e else c.get_certificate;
    }
unfolding manager_options endpoint_tls tls_options
configure_all-tls o e c = elim (Bool-cases o.enable_http2) [
  | inl on ↦ elim (Bool-cases (is_watched o e)) [
    | inl w ↦ rw (on, w) refl
    | inr w ↦ rw (on, w) refl
  ]
  | inr off ↦ elim (Bool-cases (is_watched o e)) [
    | inl w ↦ rw (off, w) refl
    | inr w ↦ rw (off, w) refl
  ]
]
