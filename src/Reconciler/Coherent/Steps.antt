-- ===== src/Reconciler/Coherent/Steps.antt =====
-- Each step of a pass keeps the status coherent.
use operator_wordpress.Base.{String, refl}
use operator_wordpress.Base.Int.{ℤ}
use operator_wordpress.Kube.{Kube}
use operator_wordpress.Kube.Workloads.{
  Secret, StatefulSet, Deployment, PersistentVolumeClaim, HorizontalPodAutoscaler,
}
use operator_wordpress.Kube.Network.{Service, Ingress}
use operator_wordpress.Kube.Outcome.{Answer, ok, err}
use operator_wordpress.Api.{WordPress, ExternalDatabaseSpec}
use operator_wordpress.Cluster.{Cluster, deployment}
use operator_wordpress.Cluster.Lawful.{Retries, Tracks}
use operator_wordpress.Cluster.Keeps.{
  Keeps-bind, Keeps-lift, Keeps-get, Keeps-get_wp, Keeps-modify_status, keep_rules,
}
use operator_wordpress.Reconciler.Coherent.{Coherent}
use operator_wordpress.Reconciler.Coherent.Rules.{
  Step, persist_status-Step, set_condition-Step, compute_status-Step,
}
use operator_wordpress.Reconciler.Service.{
  apply_service_to, apply_service, reconcile_wordpress_service,
}
use operator_wordpress.Reconciler.Database.{
  database_ready, database_not_ready, verify_secret, reconcile_external, fresh_secret,
  ensure_secret, reconcile_secret, reconcile_headless_service, ensure_stateful_set,
  reconcile_stateful_set, report_readiness, reconcile_internal, reconcile_database,
}
use operator_wordpress.Reconciler.Site.{
  ensure_pvc, create_pvc, reconcile_pvc, ensure_deployment, reconcile_wordpress_deployment,
}
use operator_wordpress.Reconciler.Exposure.{
  forget_ingress, remove_ingress, ingress_configured, ensure_ingress, disable_ingress,
  enable_ingress, reconcile_ingress, remove_hpa, ensure_hpa, disable_hpa, enable_hpa, reconcile_hpa,
}
use operator_wordpress.Reconciler.Progress.{observed_status, update_status}

module _ {K : Kube} (C : Cluster K) where
  ensure_secret-Step :
      (desired : Secret K) (found : Answer K (Secret K)) → Step C (ensure_secret C desired found)
  unfolding ensure_secret
  ensure_secret-Step desired (ok _) = search keep_rules
  ensure_secret-Step desired (err e) = search keep_rules

  fresh_secret-Step : (wp : WordPress K) → Step C (fresh_secret C wp)
  unfolding fresh_secret
  fresh_secret-Step wp = record { at = λ s h l. (h, l) }

  reconcile_secret-Step : (wp : WordPress K) → Step C (reconcile_secret C wp)
  unfolding reconcile_secret
  reconcile_secret-Step wp = search (keep_rules, fresh_secret-Step, ensure_secret-Step)

  apply_service_to-Step :
      (desired : Service K) (found : Answer K (Service K))
      → Step C (apply_service_to C desired found)
  unfolding apply_service_to
  apply_service_to-Step desired (ok existing) = search keep_rules
  apply_service_to-Step desired (err e) = search keep_rules

  apply_service-Step : (desired : Service K) → Step C (apply_service C desired)
  unfolding apply_service
  apply_service-Step desired = search (keep_rules, apply_service_to-Step)

  pub reconcile_wordpress_service-Step : Step C (reconcile_wordpress_service C)
  unfolding reconcile_wordpress_service
  reconcile_wordpress_service-Step = search (keep_rules, apply_service-Step)

  reconcile_headless_service-Step : (wp : WordPress K) → Step C (reconcile_headless_service C wp)
  unfolding reconcile_headless_service
  reconcile_headless_service-Step wp = search (keep_rules, apply_service-Step)

  ensure_stateful_set-Step :
      (desired : StatefulSet K) (found : Answer K (StatefulSet K))
      → Step C (ensure_stateful_set C desired found)
  unfolding ensure_stateful_set
  ensure_stateful_set-Step desired (ok existing) = search keep_rules
  ensure_stateful_set-Step desired (err e) = search keep_rules

  reconcile_stateful_set-Step : (wp : WordPress K) → Step C (reconcile_stateful_set C wp)
  unfolding reconcile_stateful_set
  reconcile_stateful_set-Step wp = search (keep_rules, ensure_stateful_set-Step)

  ensure_pvc-Step :
      (desired : PersistentVolumeClaim K) (found : Answer K (PersistentVolumeClaim K))
      → Step C (ensure_pvc C desired found)
  unfolding ensure_pvc
  ensure_pvc-Step desired (ok _) = search keep_rules
  ensure_pvc-Step desired (err e) = search keep_rules

  create_pvc-Step : (wp : WordPress K) → Step C (create_pvc C wp)
  unfolding create_pvc
  create_pvc-Step wp = search (keep_rules, ensure_pvc-Step)

  pub reconcile_pvc-Step : Step C (reconcile_pvc C)
  unfolding reconcile_pvc
  reconcile_pvc-Step = search (keep_rules, create_pvc-Step)

  ensure_deployment-Step :
      (desired : Deployment K) (found : Answer K (Deployment K))
      → Step C (ensure_deployment C desired found)
  unfolding ensure_deployment
  ensure_deployment-Step desired (ok existing) = search keep_rules
  ensure_deployment-Step desired (err e) = search keep_rules

  set_host-Coherent :
      (host : String) (wp : WordPress K)
      → Coherent C wp.status
      → Coherent C (record wp.status { database_host = host })
  set_host-Coherent host wp h = record { phase = h.phase; ready = h.ready; deployed = h.deployed }

  pub reconcile_wordpress_deployment-Step : Step C (reconcile_wordpress_deployment C)
  unfolding reconcile_wordpress_deployment
  reconcile_wordpress_deployment-Step = Keeps-bind _ _ Keeps-get_wp λ wp.
      Keeps-bind _ _ (Keeps-lift _) λ r.
        Keeps-bind _ _ (Keeps-modify_status _ (set_host-Coherent r.0))
          λ _. search (keep_rules, ensure_deployment-Step)

  remove_hpa-Step :
      (wp : WordPress K) (found : Answer K (HorizontalPodAutoscaler K))
      → Step C (remove_hpa C wp found)
  unfolding remove_hpa
  remove_hpa-Step wp (ok existing) = search keep_rules
  remove_hpa-Step wp (err e) = search keep_rules

  ensure_hpa-Step :
      (desired : HorizontalPodAutoscaler K) (found : Answer K (HorizontalPodAutoscaler K))
      → Step C (ensure_hpa C desired found)
  unfolding ensure_hpa
  ensure_hpa-Step desired (ok existing) = search keep_rules
  ensure_hpa-Step desired (err e) = search keep_rules

  pub reconcile_hpa-Step : Step C (reconcile_hpa C)
  unfolding reconcile_hpa enable_hpa disable_hpa
  reconcile_hpa-Step = search (keep_rules, remove_hpa-Step, ensure_hpa-Step)

  observed_status-Step : (found : Answer K (Deployment K)) → Step C (observed_status C found)
  unfolding observed_status
  observed_status-Step (ok d) = search keep_rules
  observed_status-Step (err e) = search keep_rules

  module _ (tracks : Tracks C) where
    database_ready-Step : (reason message : String) → Step C (database_ready C reason message)
    unfolding database_ready
    database_ready-Step reason message = set_condition-Step C tracks _ _ reason message refl refl

    database_not_ready-Step :
        (reason message : String) → Step C (database_not_ready C reason message)
    unfolding database_not_ready
    database_not_ready-Step reason message =
        set_condition-Step C tracks _ _ reason message refl refl

    verify_secret-Step :
        (e : ExternalDatabaseSpec) (found : Answer K (Secret K)) → Step C (verify_secret C e found)
    unfolding verify_secret
    verify_secret-Step e (ok _) = search (keep_rules, database_ready-Step)
    verify_secret-Step e (err x) = search (keep_rules, database_not_ready-Step)

    report_readiness-Step : (ready : ℤ) → Step C (report_readiness C ready)
    unfolding report_readiness
    report_readiness-Step ready = search (keep_rules, database_ready-Step, database_not_ready-Step)

    reconcile_external-Step : (wp : WordPress K) → Step C (reconcile_external C wp)
    unfolding reconcile_external
    reconcile_external-Step wp = search (keep_rules, verify_secret-Step)

    reconcile_internal-Step : (wp : WordPress K) → Step C (reconcile_internal C wp)
    unfolding reconcile_internal
    reconcile_internal-Step wp = search (
      keep_rules, reconcile_secret-Step, reconcile_headless_service-Step,
      reconcile_stateful_set-Step, report_readiness-Step,
    )

    pub reconcile_database-Step : Step C (reconcile_database C)
    unfolding reconcile_database
    reconcile_database-Step = search (keep_rules, reconcile_external-Step, reconcile_internal-Step)

    ingress_configured-Step :
        (reason message : String) → Step C (ingress_configured C reason message)
    unfolding ingress_configured
    ingress_configured-Step reason message =
        set_condition-Step C tracks _ _ reason message refl refl

    forget_ingress-Step : Step C (forget_ingress C)
    unfolding forget_ingress
    forget_ingress-Step = Keeps-modify_status _ λ wp h. record {
      phase = h.phase;
      ready =
          rw (tracks.true_after_remove wp.status.conditions "IngressConfigured" "Ready") h.ready;
      deployed =
          rw
            (
              tracks.true_after_remove wp.status.conditions "IngressConfigured" "Ready",
              tracks.true_after_remove wp.status.conditions "IngressConfigured" "DeploymentReady",
            )
            h.deployed;
    }

    remove_ingress-Step :
        (wp : WordPress K) (found : Answer K (Ingress K)) → Step C (remove_ingress C wp found)
    unfolding remove_ingress
    remove_ingress-Step wp (ok existing) = search keep_rules
    remove_ingress-Step wp (err e) = search (keep_rules, forget_ingress-Step)

    ensure_ingress-Step :
        (desired : Ingress K) (found : Answer K (Ingress K))
        → Step C (ensure_ingress C desired found)
    unfolding ensure_ingress
    ensure_ingress-Step desired (ok existing) = search (keep_rules, ingress_configured-Step)
    ensure_ingress-Step desired (err e) = search (keep_rules, ingress_configured-Step)

    pub reconcile_ingress-Step : Step C (reconcile_ingress C)
    unfolding reconcile_ingress enable_ingress disable_ingress
    reconcile_ingress-Step = search (keep_rules, remove_ingress-Step, ensure_ingress-Step)

    pub update_status-Step : Retries C → Step C (update_status C)
    unfolding update_status
    update_status-Step retries = Keeps-bind _ _ Keeps-get_wp λ wp.
        Keeps-bind _ _ (Keeps-get deployment _) λ found.
          Keeps-bind _ _ (observed_status-Step found)
            λ d. Keeps-bind _ _ (compute_status-Step C tracks d) λ _. persist_status-Step C retries
