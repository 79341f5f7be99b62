-- ===== src/Reconciler/Safety/Pass.antt =====
-- The pass over a live object, from its database to its status.
use operator_wordpress.Base.{String}
use operator_wordpress.Kube.{Kube}
use operator_wordpress.Api.{WordPress}
use operator_wordpress.Validation.Laws.{HasDatabase}
use operator_wordpress.Cluster.{Cluster}
use operator_wordpress.Cluster.Action.{Action, handle}
use operator_wordpress.Cluster.Lawful.{Owns, Retries}
use operator_wordpress.Cluster.Safe.{Safe, Safe-pure, Safe-bind, Safe-branch, safe_rules}
use operator_wordpress.Reconciler.Calls.{Same, Permitted, Same-status}
use operator_wordpress.Reconciler.{Result}
use operator_wordpress.Reconciler.Persist.{ignore_conflict-Safe}
use operator_wordpress.Reconciler.Loop.{
  reject_spec, reconcile_site, reconcile_rest, after_database, reconcile_valid,
}
use operator_wordpress.Reconciler.Safety.Ending.{
  update_status-Safe, requeue_unless_ready-Safe, persist-Safe, database_failed-Safe,
  reject_spec-Safe,
}
use operator_wordpress.Reconciler.Safety.Site.{
  reconcile_pvc-Safe, reconcile_wordpress_service-Safe, reconcile_wordpress_deployment-Safe,
}
use operator_wordpress.Reconciler.Safety.Database.{reconcile_database-Safe}
use operator_wordpress.Reconciler.Safety.Exposure.{reconcile_ingress-Safe, reconcile_hpa-Safe}

module _ {K : Kube} (C : Cluster K) (w : WordPress K) where
  abbrev Step : {A : Type 0} → Action C A → Type 0
  Step m = Safe (Same w) (Permitted C w) m

  module _ (retries : Retries C) where
    pub reject_spec-Permitted : (message : String) → Step (reject_spec C message)
    reject_spec-Permitted = reject_spec-Safe C (Same w) _ (Same-status C w) (λ o. tt) retries

    module _ (own : Owns C) (ready : HasDatabase w.spec.database) where
      reconcile_site-Safe : Step (reconcile_site C)
      unfolding reconcile_site
      reconcile_site-Safe = Safe-bind _ _ (reconcile_pvc-Safe C w own) λ _.
          Safe-bind _ _ (reconcile_wordpress_deployment-Safe C w own ready) λ _.
            Safe-bind _ _ (reconcile_wordpress_service-Safe C w own) λ _.
              Safe-bind _ _ (reconcile_ingress-Safe C w own) λ _.
                Safe-bind _ _ (reconcile_hpa-Safe C w own)
                  λ _. update_status-Safe C _ _ (Same-status C w) (λ o. tt) retries

      reconcile_rest-Safe : Step (reconcile_rest C)
      unfolding reconcile_rest handle
      reconcile_rest-Safe =
          Safe-branch _ _ _
            (Safe-bind _ _ reconcile_site-Safe
              (λ _. requeue_unless_ready-Safe C _ _ (Same-status C w) (λ o. tt) retries))
            (λ _. Safe-pure _) (λ e. ignore_conflict-Safe C (Same w) (Permitted C w) _ e)

      after_database-Safe : (res : Result) → Step (after_database C res)
      unfolding after_database
      after_database-Safe res =
          let rest = reconcile_rest-Safe in
          let persist =
            persist-Safe C (Same w) (Permitted C w) (Same-status C w) (λ o. tt) retries in
          search (safe_rules, rest, persist)

      pub reconcile_valid-Safe : Step (reconcile_valid C)
      unfolding reconcile_valid
      reconcile_valid-Safe =
          Safe-branch _ _ _ (reconcile_database-Safe C w own ready) after_database-Safe
            (database_failed-Safe C _ _ (Same-status C w) (λ o. tt) retries)
