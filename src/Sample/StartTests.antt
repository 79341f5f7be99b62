-- ===== src/Sample/StartTests.antt =====
-- The theorems about the start of the process, and about the writes of a pass in their order.
use operator_wordpress.Cluster.Action
use operator_wordpress.Base.{◌≡◌, refl, true, [], ◌∷◌, some}
use operator_wordpress.Reconciler.Loop.{reconcile}
use operator_wordpress.Reconciler.Order.{Ordered}
use operator_wordpress.Reconciler.Order.Whole.{reconcile-Ordered}
use operator_wordpress.Startup.Library.{Flags, TlsConfig}
use operator_wordpress.Startup.Options.{default_flags, webhook_options, metrics_options}
use operator_wordpress.Startup.Manager.{returned, main}
use operator_wordpress.Startup.Servers.{run_all, protocols_for, servers_http2, servers_protected}
use operator_wordpress.Sample.Memory.{memory}
use operator_wordpress.Sample.Laws.{memory-Retries, memory-Owns}
use operator_wordpress.Sample.Objects.{key, blog, holding}
use operator_wordpress.Sample.Process.{process}

reconcile-Ordered_example : Ordered 10 (reconcile memory key (holding blog)).2
reconcile-Ordered_example = reconcile-Ordered memory memory-Retries memory-Owns key (holding blog)

abbrev both : TlsConfig (Unit {0})
both = record { next_protos = "h2" ∷ "http/1.1" ∷ []; rest = tt }

servers_http2_example :
    (run_all (webhook_options process default_flags).tls_opts both
      ≡ protocols_for process default_flags both)
    × (run_all (metrics_options process default_flags).tls_opts both
        ≡ protocols_for process default_flags both)
servers_http2_example = servers_http2 process default_flags both

abbrev certified : Flags
certified = record default_flags { metrics_cert_path = "/certs"; enable_http2 = true }

servers_protected_example :
    ((metrics_options process certified).filter_provider ≡ some tt)
    × ((metrics_options process certified).cert_dir ≡ "/certs")
    × ((metrics_options process certified).cert_name ≡ "tls.crt")
    × ((metrics_options process certified).key_name ≡ "tls.key")
    × ((webhook_options process certified).cert_dir ≡ "")
    × ((webhook_options process certified).cert_name ≡ "")
    × ((webhook_options process certified).key_name ≡ "")
unfolding metrics_options
servers_protected_example = servers_protected process certified

main_returns : main process 0 ≡ (returned, 7)
unfolding main
main_returns = refl
