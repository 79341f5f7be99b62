-- ===== src/Reconciler/Coherent/Whole.antt =====
-- Every pass keeps the status coherent.
use operator_wordpress.Base.{String, ◌≡◌, refl, Option, none, some}
use operator_wordpress.Kube.{Kube}
use operator_wordpress.Kube.Outcome.{Answer, ok, err, Failure}
use operator_wordpress.Api.{WordPress}
use operator_wordpress.Cluster.{Cluster}
use operator_wordpress.Cluster.Action.{Action, handle}
use operator_wordpress.Cluster.Lawful.{Retries, Tracks}
use operator_wordpress.Cluster.Safe.{All}
use operator_wordpress.Cluster.Keeps.{
  Keeps-bind, Keeps-if, Keeps-branch, Keeps-pure, Keeps-set_wp, Keeps-bind-get_wp, Keeps-of_Safe,
  keep_rules,
}
use operator_wordpress.Defaults.{apply_defaults}
use operator_wordpress.Reconciler.{Result, ignore_conflict}
use operator_wordpress.Reconciler.Persist.{ignore_conflict-Safe}
use operator_wordpress.Reconciler.Deletion.{
  tolerate_missing, delete_found_pvc, clean_up, release, finish_deletion, handle_deletion,
}
use operator_wordpress.Reconciler.Loop.{
  register_finalizer, ignore, reject_spec, database_failed, reconcile_site, requeue_unless_ready,
  reconcile_rest, after_database, reconcile_valid, act_on, reconcile_live, reconcile_found,
  reconcile_answer,
}
use operator_wordpress.Reconciler.Coherent.{Coherent, Sent}
use operator_wordpress.Reconciler.Coherent.Rules.{Step, persist_status-Step, mark_failed-Step}
use operator_wordpress.Reconciler.Coherent.Steps.{
  reconcile_wordpress_service-Step, reconcile_pvc-Step, reconcile_wordpress_deployment-Step,
  reconcile_hpa-Step, reconcile_database-Step, reconcile_ingress-Step, update_status-Step,
}

module _ {K : Kube} (C : Cluster K) where
  -- The defaults leave the status alone.
  kept : (wp : WordPress K) → Coherent C wp.status → Coherent C (apply_defaults wp).status
  unfolding apply_defaults
  kept wp h = h

  ignore_conflict-Step : (r : Result) (e : Failure K) → Step C (ignore_conflict C r e)
  ignore_conflict-Step r e = Keeps-of_Safe (ignore_conflict-Safe C _ (Sent C) r e)

  ignore-Step : (m : Action C (Unit {0})) → Step C m → Step C (ignore C m)
  unfolding ignore handle
  ignore-Step m k = search (keep_rules, k)

  tolerate_missing-Step : (r : Option K.Error) → Step C (tolerate_missing C r)
  unfolding tolerate_missing
  tolerate_missing-Step none = search keep_rules
  tolerate_missing-Step (some e) = search keep_rules

  delete_found_pvc-Step :
      (name : String) (found : Answer K _) → Step C (delete_found_pvc C name found)
  unfolding delete_found_pvc
  delete_found_pvc-Step name (ok pvc) = search (keep_rules, tolerate_missing-Step)
  delete_found_pvc-Step name (err e) = search keep_rules

  clean_up-Step : (wp : WordPress K) → Step C (clean_up C wp)
  unfolding clean_up
  clean_up-Step wp = search (keep_rules, delete_found_pvc-Step)

  release-Step : (wp : WordPress K) → Coherent C wp.status → Step C (release C wp)
  unfolding release
  release-Step wp h = Keeps-bind _ _ (Keeps-set_wp _ h) λ _. search keep_rules

  handle_deletion-Step : Step C (handle_deletion C)
  unfolding handle_deletion finish_deletion handle
  handle_deletion-Step = Keeps-bind-get_wp _ λ wp h.
      Keeps-if _ _ _
        (Keeps-bind _ _ (clean_up-Step wp) (λ _.
          Keeps-branch _ _ _ (Keeps-bind _ _ (release-Step wp h) (λ _. Keeps-pure _)) Keeps-pure
            (ignore_conflict-Step _)))
        (Keeps-pure _)

  register_finalizer-Step :
      (wp : WordPress K) → Coherent C wp.status → Step C (register_finalizer C wp)
  unfolding register_finalizer
  register_finalizer-Step wp h = Keeps-bind _ _ (Keeps-set_wp _ h) λ _. search keep_rules

  module _ (retries : Retries C) (tracks : Tracks C) where
    reject_spec-Step : (message : String) → Step C (reject_spec C message)
    unfolding reject_spec
    reject_spec-Step message =
        let mark = mark_failed-Step C tracks retries in search (keep_rules, ignore-Step, mark)

    database_failed-Step : (e : Failure K) → Step C (database_failed C e)
    unfolding database_failed
    database_failed-Step e =
        Keeps-bind _ _ (ignore-Step _ (persist_status-Step C retries))
          (λ _. ignore_conflict-Step _ e)

    requeue_unless_ready-Step : Step C (requeue_unless_ready C)
    unfolding requeue_unless_ready
    requeue_unless_ready-Step = search keep_rules

    reconcile_site-Step : Step C (reconcile_site C)
    unfolding reconcile_site
    reconcile_site-Step =
        let site = reconcile_wordpress_deployment-Step C in
        let service = reconcile_wordpress_service-Step C in
        let claim = reconcile_pvc-Step C in
        let ingress = reconcile_ingress-Step C tracks in
        let scaler = reconcile_hpa-Step C in
        let status = update_status-Step C tracks retries in
        search (keep_rules, site, service, claim, ingress, scaler, status)

    reconcile_rest-Step : Step C (reconcile_rest C)
    unfolding reconcile_rest handle
    reconcile_rest-Step =
        search (keep_rules, reconcile_site-Step, requeue_unless_ready-Step, ignore_conflict-Step)

    after_database-Step : (res : Result) → Step C (after_database C res)
    unfolding after_database
    after_database-Step res =
        Keeps-if _ _ _ reconcile_rest-Step
          (Keeps-bind _ _ (persist_status-Step C retries) (λ _. Keeps-pure res))

    act_on-Step : (verdict : Option String) → Step C (act_on C verdict)
    unfolding act_on reconcile_valid
    act_on-Step none =
        Keeps-branch _ _ _ (reconcile_database-Step C tracks) after_database-Step
          database_failed-Step
    act_on-Step (some message) = reject_spec-Step message

    reconcile_live-Step : (wp : WordPress K) → Coherent C wp.status → Step C (reconcile_live C wp)
    unfolding reconcile_live
    reconcile_live-Step wp h =
        Keeps-bind _ _ (Keeps-set_wp (apply_defaults wp) (kept wp h)) λ _. act_on-Step _

    reconcile_found-Step : Step C (reconcile_found C)
    unfolding reconcile_found
    reconcile_found-Step = Keeps-bind-get_wp _ λ wp h.
        Keeps-if _ _ _ handle_deletion-Step
          (Keeps-if _ _ _ (reconcile_live-Step wp h) (register_finalizer-Step wp h))

    -- The writes of one pass, given what was read.
    pub answer-Coherent :
        (found : Answer K (WordPress K)) (v : C.World)
        → ((wp : WordPress K) → found ≡ ok wp → Coherent C wp.status)
        → All (Sent C) (reconcile_answer C found v).2
    unfolding reconcile_answer
    answer-Coherent (err e) v h = tt
    answer-Coherent (ok wp) v h = (reconcile_found-Step.at _ (h wp refl) tt).1
