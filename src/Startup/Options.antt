-- ===== src/Startup/Options.antt =====
-- cmd/main.go: the flags and their defaults, and the options made from them.
use operator_wordpress.Base.{
  String, Bool, true, false, not, if◌then◌else◌, ◌==◌, none, some, List, [], ◌∷◌,
}
use operator_wordpress.Startup.Library.{
  Runtime, TlsConfig, Flags, Var, string_var, bool_var, WebhookOptions, MetricsOptions,
  ManagerOptions,
}

-- The variables as they are declared.
abbrev pub zero_flags : Flags
zero_flags = record {
  metrics_addr = "";
  probe_addr = "";
  enable_leader_election = false;
  secure_metrics = false;
  webhook_cert_path = "";
  webhook_cert_name = "";
  webhook_cert_key = "";
  metrics_cert_path = "";
  metrics_cert_name = "";
  metrics_cert_key = "";
  enable_http2 = false;
}

abbrev pub flag_vars : List Var
flag_vars =
    string_var "metrics-bind-address" "0" (λ set f. record f { metrics_addr = set f.metrics_addr })
    ∷ string_var "health-probe-bind-address" ":8081"
        (λ set f. record f { probe_addr = set f.probe_addr })
    ∷ bool_var "leader-elect" false
        (λ set f. record f { enable_leader_election = set f.enable_leader_election })
    ∷ bool_var "metrics-secure" true (λ set f. record f { secure_metrics = set f.secure_metrics })
    ∷ string_var "webhook-cert-path" ""
        (λ set f. record f { webhook_cert_path = set f.webhook_cert_path })
    ∷ string_var "webhook-cert-name" "tls.crt"
        (λ set f. record f { webhook_cert_name = set f.webhook_cert_name })
    ∷ string_var "webhook-cert-key" "tls.key"
        (λ set f. record f { webhook_cert_key = set f.webhook_cert_key })
    ∷ string_var "metrics-cert-path" ""
        (λ set f. record f { metrics_cert_path = set f.metrics_cert_path })
    ∷ string_var "metrics-cert-name" "tls.crt"
        (λ set f. record f { metrics_cert_name = set f.metrics_cert_name })
    ∷ string_var "metrics-cert-key" "tls.key"
        (λ set f. record f { metrics_cert_key = set f.metrics_cert_key })
    ∷ bool_var "enable-http2" false (λ set f. record f { enable_http2 = set f.enable_http2 })
    ∷ []

-- Each declaration gives its variable the default.
abbrev pub declare : List Var → Flags → Flags
declare [] f = f
declare (string_var name default set ∷ vars) f = declare vars (set (λ _. default) f)
declare (bool_var name default set ∷ vars) f = declare vars (set (λ _. default) f)

abbrev pub default_flags : Flags
default_flags = declare flag_vars zero_flags

-- `len(path) > 0`
abbrev pub is_set : String → Bool
is_set path = not (path == "")

module _ (R : Runtime) where
  unfoldable pub disable_http2 : TlsConfig R.TlsRest → TlsConfig R.TlsRest
  disable_http2 c = record c { next_protos = "http/1.1" ∷ [] }

  -- The functions that each server runs on its TLS configuration.
  unfoldable pub tls_options : Flags → List (TlsConfig R.TlsRest → TlsConfig R.TlsRest)
  unfolding disable_http2
  tls_options f = if not f.enable_http2 then disable_http2 ∷ [] else []

  unfoldable pub webhook_options : Flags → WebhookOptions R.TlsRest
  unfolding tls_options
  webhook_options f =
      let o : WebhookOptions R.TlsRest = record {
        tls_opts = tls_options f;
        cert_dir = "";
        cert_name = "";
        key_name = "";
      } in
      if is_set f.webhook_cert_path
      then record o {
        cert_dir = f.webhook_cert_path;
        cert_name = f.webhook_cert_name;
        key_name = f.webhook_cert_key;
      }
      else o

  -- `SecureServing`, and the filter that asks for authentication.
  unfoldable pub metrics_filter : Flags → MetricsOptions R.TlsRest R.Filter
  unfolding tls_options
  metrics_filter f =
      let o : MetricsOptions R.TlsRest R.Filter = record {
        bind_address = f.metrics_addr;
        secure_serving = f.secure_metrics;
        filter_provider = none;
        tls_opts = tls_options f;
        cert_dir = "";
        cert_name = "";
        key_name = "";
      } in
      if f.secure_metrics
      then record o { filter_provider = some R.with_authentication_and_authorization }
      else o

  unfoldable pub metrics_options : Flags → MetricsOptions R.TlsRest R.Filter
  unfolding metrics_filter
  metrics_options f =
      let o = metrics_filter f in
      if is_set f.metrics_cert_path
      then record o {
        cert_dir = f.metrics_cert_path;
        cert_name = f.metrics_cert_name;
        key_name = f.metrics_cert_key;
      }
      else o

  unfoldable pub manager_options :
      R.Scheme → Flags → ManagerOptions R.TlsRest R.Filter R.Scheme R.Server
  unfolding webhook_options metrics_options
  manager_options scheme f = record {
    scheme = scheme;
    metrics = metrics_options f;
    webhook_server = R.new_webhook_server (webhook_options f);
    health_probe_bind_address = f.probe_addr;
    leader_election = f.enable_leader_election;
    leader_election_id = "869f5990.kubesphere.ai";
  }
