-- ===== src/Startup/Servers.antt =====
-- The servers that the flags ask for.
use operator_wordpress.Base.{String, ◌≡◌, if◌then◌else◌, none, some, List, [], ◌∷◌, arith, eq_iff}
use operator_wordpress.Startup.Library.{Runtime, TlsConfig, Flags}
use operator_wordpress.Startup.Options.{
  disable_http2, is_set, tls_options, webhook_options, metrics_filter, metrics_options,
}

-- What a server makes of its configuration: it runs the functions in turn.
abbrev pub run_all : {A : Type 0} → List (A → A) → A → A
run_all [] c = c
run_all (f ∷ fs) c = run_all fs (f c)

module _ (R : Runtime) where
  abbrev pub protocols_for : Flags → TlsConfig R.TlsRest → TlsConfig R.TlsRest
  protocols_for f c = if f.enable_http2 then c else record c { next_protos = "http/1.1" ∷ [] }

  run_all-tls_options :
      (f : Flags) (c : TlsConfig R.TlsRest) → run_all (tls_options R f) c ≡ protocols_for f c
  unfolding tls_options disable_http2
  run_all-tls_options f c = ground arith

  webhook_tls : (f : Flags) → (webhook_options R f).tls_opts ≡ tls_options R f
  unfolding webhook_options
  webhook_tls f = ground arith

  metrics_tls : (f : Flags) → (metrics_options R f).tls_opts ≡ tls_options R f
  unfolding metrics_options metrics_filter
  metrics_tls f = ground arith

  -- Whatever their other settings, the webhook server and the metrics server offer HTTP/1.1 alone
  -- unless the flag enable-http2 is set, and then they keep the protocols of the configuration.
  pub servers_http2 :
      (f : Flags) (c : TlsConfig R.TlsRest)
      → (run_all (webhook_options R f).tls_opts c ≡ protocols_for f c)
        × (run_all (metrics_options R f).tls_opts c ≡ protocols_for f c)
  servers_http2 f c =
      (rw (webhook_tls f) (run_all-tls_options f c), rw (metrics_tls f) (run_all-tls_options f c))

  -- A name that only counts beside a directory.
  abbrev pub beside : String → String → String
  beside path name = if is_set path then name else ""

  -- The metrics server asks for authentication exactly when it serves over HTTPS. Each server reads
  -- the certificate and the key from the directory of its own flag and under the names of its own
  -- flags, and all three are empty when the flag of the directory is.
  pub servers_protected :
      (f : Flags)
      → ((metrics_options R f).filter_provider ≡ (
          if (metrics_options R f).secure_serving
          then some R.with_authentication_and_authorization
          else none))
        × ((metrics_options R f).cert_dir ≡ f.metrics_cert_path)
        × ((metrics_options R f).cert_name ≡ beside f.metrics_cert_path f.metrics_cert_name)
        × ((metrics_options R f).key_name ≡ beside f.metrics_cert_path f.metrics_cert_key)
        × ((webhook_options R f).cert_dir ≡ f.webhook_cert_path)
        × ((webhook_options R f).cert_name ≡ beside f.webhook_cert_path f.webhook_cert_name)
        × ((webhook_options R f).key_name ≡ beside f.webhook_cert_path f.webhook_cert_key)
  unfolding metrics_options metrics_filter webhook_options
  servers_protected f =
      let m = eq_iff f.metrics_cert_path "" in
      let w = eq_iff f.webhook_cert_path "" in
      (
        ground arith,
        ground arith,
        ground arith,
        ground arith,
        ground arith,
        ground arith,
        ground arith,
      )
