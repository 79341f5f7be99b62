-- ===== src/Reconciler/Safety/Ending.antt =====
-- The end of a pass, its status, for any condition on the object that leaves the status out, and
-- any writes among which a write of the status is allowed.
use operator_wordpress.Base.{String, Bool}
use operator_wordpress.Kube.{Kube}
use operator_wordpress.Kube.Workloads.{Deployment, DeploymentStatus}
use operator_wordpress.Kube.Outcome.{Answer, ok, err, Failure}
use operator_wordpress.Api.{WordPress}
use operator_wordpress.Cluster.{Cluster, deployment}
use operator_wordpress.Cluster.Action.{Action, Call, status_updated, handle}
use operator_wordpress.Cluster.Lawful.{Retries}
use operator_wordpress.Cluster.Safe.{
  Safe, Safe-pure, Safe-bind, Safe-bind-get_wp, Safe-bind-get, Safe-event, Safe-modify_status,
  Safe-branch, safe_rules, StatusFree,
}
use operator_wordpress.Reconciler.{persist_status}
use operator_wordpress.Reconciler.Persist.{
  persist_status-Safe, mark_failed-Safe, ignore_conflict-Safe,
}
use operator_wordpress.Reconciler.Progress.{
  observed_status, report_deployment, report_phase, compute_status, update_status,
}
use operator_wordpress.Reconciler.Loop.{ignore, reject_spec, database_failed, requeue_unless_ready}

module _ {K : Kube} (C : Cluster K) (P : WordPress K → Type 0) (R : Call K → Type 0)
    (free : StatusFree P) where
  abbrev Step : {A : Type 0} → Action C A → Type 0
  Step m = Safe P R m

  observed_status-Safe : (found : Answer K (Deployment K)) → Step (observed_status C found)
  unfolding observed_status
  observed_status-Safe (ok d) = search safe_rules
  observed_status-Safe (err e) = search safe_rules

  report_deployment-Safe : (d : DeploymentStatus K) → Step (report_deployment C d)
  unfolding report_deployment
  report_deployment-Safe d = search (safe_rules, free)

  report_phase-Safe : (ready : Bool) → Step (report_phase C ready)
  unfolding report_phase
  report_phase-Safe ready = search (safe_rules, free)

  compute_status-Safe : (d : DeploymentStatus K) → Step (compute_status C d)
  unfolding compute_status
  compute_status-Safe d = Safe-bind-get_wp _ λ wp same.
      Safe-bind _ _ (Safe-modify_status free _) λ _. Safe-bind _ _ (report_deployment-Safe d) λ _.
        Safe-bind-get_wp _
          λ seen same'. Safe-bind _ _ (report_phase-Safe _) λ _. Safe-modify_status free _

  module _ (allowed : (o : WordPress K) → R (status_updated o)) (retries : Retries C) where
    pub persist-Safe : Step (persist_status C)
    persist-Safe = persist_status-Safe C P R (λ latest wp h. allowed _) retries

    pub update_status-Safe : Step (update_status C)
    unfolding update_status
    update_status-Safe = Safe-bind-get_wp _ λ wp same. Safe-bind-get deployment _ _ λ found.
        Safe-bind _ _ (observed_status-Safe found)
          λ d. Safe-bind _ _ (compute_status-Safe d) λ _. persist-Safe

    pub requeue_unless_ready-Safe : Step (requeue_unless_ready C)
    unfolding requeue_unless_ready
    requeue_unless_ready-Safe = Safe-bind-get_wp _ λ wp same. search safe_rules

    pub ignore-Safe : (m : Action C (Unit {0})) → Step m → Step (ignore C m)
    unfolding ignore handle
    ignore-Safe m sm = Safe-branch _ _ _ sm (λ _. Safe-pure tt) (λ _. Safe-pure tt)

    pub database_failed-Safe : (e : Failure K) → Step (database_failed C e)
    unfolding database_failed
    database_failed-Safe e =
        Safe-bind _ _ (ignore-Safe _ persist-Safe) λ _. ignore_conflict-Safe C P R _ e

    pub reject_spec-Safe : (message : String) → Step (reject_spec C message)
    unfolding reject_spec
    reject_spec-Safe message = Safe-bind _ _ (Safe-event _ _ _) λ _.
        Safe-bind _ _
          (ignore-Safe _ (mark_failed-Safe C P R (λ latest wp h. allowed _) retries free _ _))
          λ _. Safe-pure _
