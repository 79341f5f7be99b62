-- ===== src/Reconciler/Order/Passes.antt =====
-- The ranks through the steps of a pass, and through a whole pass.
use operator_wordpress.Base.{String, refl, arith}
use operator_wordpress.Kube.{Kube}
use operator_wordpress.Kube.Outcome.{Answer, ok, err}
use operator_wordpress.Kube.Workloads.{Secret}
use operator_wordpress.Api.{WordPress, ExternalDatabaseSpec}
use operator_wordpress.Cluster.{
  Cluster, secret, deployment, ingress, autoscaler, claim, stateful_set,
}
use operator_wordpress.Cluster.Lawful.{Owns}
use operator_wordpress.Reconciler.Order.{Quiet, Emits}
use operator_wordpress.Reconciler.Order.Rules.{
  quiet_rules, Quiet-pure, Quiet-bind-Emits, Quiet-get, Quiet-get_wp, Quiet-lift,
  Quiet-modify_status, Emits-if, Emits-Quiet, Emits-bind, Emits-bind-Quiet,
}
use operator_wordpress.Reconciler.Order.Steps.{
  bind_own-Emits, ensure_secret-Emits, ensure_stateful_set-Emits, ensure_pvc-Emits,
  ensure_deployment-Emits, ensure_ingress-Emits, remove_ingress-Emits, ensure_hpa-Emits,
  remove_hpa-Emits, reconcile_headless_service-Emits,
}
use operator_wordpress.Reconciler.Site.{create_pvc, reconcile_pvc, reconcile_wordpress_deployment}
use operator_wordpress.Reconciler.Database.{
  fresh_secret, reconcile_secret, reconcile_stateful_set, database_ready, database_not_ready,
  verify_secret, reconcile_external, report_readiness, reconcile_internal, reconcile_database,
}
use operator_wordpress.Reconciler.Exposure.{
  disable_ingress, enable_ingress, reconcile_ingress, disable_hpa, enable_hpa, reconcile_hpa,
}

module _ {K : Kube} (C : Cluster K) where
  fresh_secret-Quiet : (wp : WordPress K) → Quiet (fresh_secret C wp)
  unfolding fresh_secret
  fresh_secret-Quiet wp = record { at = λ s. refl }

  database_ready-Quiet : (reason message : String) → Quiet (database_ready C reason message)
  unfolding database_ready
  database_ready-Quiet reason message = search quiet_rules

  database_not_ready-Quiet : (reason message : String) → Quiet (database_not_ready C reason message)
  unfolding database_not_ready
  database_not_ready-Quiet reason message = search quiet_rules

  verify_secret-Quiet :
      (e : ExternalDatabaseSpec) (found : Answer K (Secret K)) → Quiet (verify_secret C e found)
  unfolding verify_secret
  verify_secret-Quiet e (ok _) = search (quiet_rules, database_ready-Quiet)
  verify_secret-Quiet e (err x) = search (quiet_rules, database_not_ready-Quiet)

  reconcile_external-Quiet : (wp : WordPress K) → Quiet (reconcile_external C wp)
  unfolding reconcile_external
  reconcile_external-Quiet wp = search (quiet_rules, verify_secret-Quiet)

  report_readiness-Quiet : (n : _) → Quiet (report_readiness C n)
  unfolding report_readiness
  report_readiness-Quiet n = search (quiet_rules, database_ready-Quiet, database_not_ready-Quiet)

  module _ (own : Owns C) where
    reconcile_secret-Emits : (wp : WordPress K) → Emits 0 1 (reconcile_secret C wp)
    unfolding reconcile_secret
    reconcile_secret-Emits wp = Quiet-bind-Emits _ _ (omega arith) (fresh_secret-Quiet wp) λ d.
        bind_own-Emits C own (omega arith) _ _ λ m labels.
          Quiet-bind-Emits _ _ (omega arith) (Quiet-get secret _)
            λ found. ensure_secret-Emits C _ found

    reconcile_stateful_set-Emits : (wp : WordPress K) → Emits 2 3 (reconcile_stateful_set C wp)
    unfolding reconcile_stateful_set
    reconcile_stateful_set-Emits wp = Quiet-bind-Emits _ _ (omega arith) (Quiet-lift _) λ d.
        bind_own-Emits C own (omega arith) _ _ λ m labels.
          Quiet-bind-Emits _ _ (omega arith) (Quiet-get stateful_set _)
            λ found. ensure_stateful_set-Emits C _ found

    reconcile_internal-Emits : (wp : WordPress K) → Emits 0 3 (reconcile_internal C wp)
    unfolding reconcile_internal
    reconcile_internal-Emits wp = Emits-bind (reconcile_secret-Emits wp) (omega arith) λ _.
        Emits-bind (reconcile_headless_service-Emits C own wp) (omega arith)
          λ _. Emits-bind-Quiet _ _ (reconcile_stateful_set-Emits wp) report_readiness-Quiet

    pub reconcile_database-Emits : Emits 0 3 (reconcile_database C)
    unfolding reconcile_database
    reconcile_database-Emits = Quiet-bind-Emits _ _ (omega arith) Quiet-get_wp λ wp.
        Emits-if _ _ _ (Emits-Quiet (omega arith) (reconcile_external-Quiet wp))
          (reconcile_internal-Emits wp)

    create_pvc-Emits : (wp : WordPress K) → Emits 3 4 (create_pvc C wp)
    unfolding create_pvc
    create_pvc-Emits wp = Quiet-bind-Emits _ _ (omega arith) (Quiet-lift _) λ d.
        bind_own-Emits C own (omega arith) _ _ λ m labels.
          Quiet-bind-Emits _ _ (omega arith) (Quiet-get claim _) λ found. ensure_pvc-Emits C _ found

    pub reconcile_pvc-Emits : Emits 3 4 (reconcile_pvc C)
    unfolding reconcile_pvc
    reconcile_pvc-Emits =
        Quiet-bind-Emits _ _ (omega arith) Quiet-get_wp
          λ wp. Emits-if _ _ _ (create_pvc-Emits wp) (Emits-Quiet (omega arith) (Quiet-pure tt))

    pub reconcile_wordpress_deployment-Emits : Emits 4 5 (reconcile_wordpress_deployment C)
    unfolding reconcile_wordpress_deployment
    reconcile_wordpress_deployment-Emits = Quiet-bind-Emits _ _ (omega arith) Quiet-get_wp λ wp.
        Quiet-bind-Emits _ _ (omega arith) (Quiet-lift _) λ r.
          Quiet-bind-Emits _ _ (omega arith) (Quiet-modify_status _) λ _.
            Quiet-bind-Emits _ _ (omega arith) (Quiet-lift _) λ envs.
              bind_own-Emits C own (omega arith) _ _ λ m labels.
                Quiet-bind-Emits _ _ (omega arith) (Quiet-get deployment _)
                  λ found. ensure_deployment-Emits C _ found

    pub reconcile_ingress-Emits : Emits 6 7 (reconcile_ingress C)
    unfolding reconcile_ingress enable_ingress disable_ingress
    reconcile_ingress-Emits = Quiet-bind-Emits _ _ (omega arith) Quiet-get_wp λ wp.
        Emits-if _ _ _
          (bind_own-Emits C own (omega arith) _ _ λ m labels.
            Quiet-bind-Emits _ _ (omega arith) (Quiet-get ingress _)
              λ found. ensure_ingress-Emits C _ found)
          (Quiet-bind-Emits _ _ (omega arith) (Quiet-get ingress _)
            λ found. remove_ingress-Emits C wp found)

    pub reconcile_hpa-Emits : Emits 7 8 (reconcile_hpa C)
    unfolding reconcile_hpa enable_hpa disable_hpa
    reconcile_hpa-Emits = Quiet-bind-Emits _ _ (omega arith) Quiet-get_wp λ wp.
        Emits-if _ _ _
          (bind_own-Emits C own (omega arith) _ _ λ m labels.
            Quiet-bind-Emits _ _ (omega arith) (Quiet-get autoscaler _)
              λ found. ensure_hpa-Emits C _ found)
          (Quiet-bind-Emits _ _ (omega arith) (Quiet-get autoscaler _)
            λ found. remove_hpa-Emits C wp found)
