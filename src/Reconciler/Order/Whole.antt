-- ===== src/Reconciler/Order/Whole.antt =====
-- The ranks through the end of a pass, and through a whole pass.
use operator_wordpress.Base.{Bool, if◌then◌else◌, sym, ℕ, String, ◌≤◌, none, some, Option, arith}
use mathlib.Core.Path.{subst}
use operator_wordpress.Kube.{Kube}
use operator_wordpress.Kube.Meta.{NamespacedName}
use operator_wordpress.Kube.Outcome.{Answer, ok, err, Failure}
use operator_wordpress.Kube.Workloads.{Deployment, DeploymentStatus, PersistentVolumeClaim}
use operator_wordpress.Api.{WordPress, WordPressStatus}
use operator_wordpress.Cluster.Action
use operator_wordpress.Cluster.{Cluster, wordpress, deployment, claim}
use operator_wordpress.Cluster.Action.{pure, State, Action, handle}
use operator_wordpress.Cluster.Lawful.{Owns, Retries, Retried, stop, give_up, again}
use operator_wordpress.Reconciler.{
  Result, write_status, persist_once, persist_status, mark_failed, ignore_conflict,
}
use operator_wordpress.Reconciler.Order.{Ordered, Quiet, Emits}
use operator_wordpress.Reconciler.Order.Rules.{
  Quiet-if, quiet_rules, Quiet-check, Quiet-event, Quiet-pure, Quiet-set_wp, Quiet-bind,
  Quiet-bind-Emits, Quiet-get, Quiet-get_wp, Quiet-modify_status, Quiet-set_condition, Emits-if,
  Emits-Quiet, Emits-bind, Emits-bind-Quiet, Emits-branch, Emits-update, Emits-delete,
}
use operator_wordpress.Reconciler.Order.Steps.{reconcile_wordpress_service-Emits}
use operator_wordpress.Reconciler.Progress.{
  observed_status, report_deployment, report_phase, compute_status, update_status,
}
use operator_wordpress.Reconciler.Deletion.{
  retains_data, tolerate_missing, delete_found_pvc, clean_up, release, finish_deletion,
  handle_deletion,
}
use operator_wordpress.Reconciler.Loop.{
  register_finalizer, ignore, reject_spec, database_failed, reconcile_site, requeue_unless_ready,
  reconcile_rest, after_database, reconcile_valid, act_on, reconcile_live, reconcile_found,
  reconcile_answer, reconcile,
}
use operator_wordpress.Reconciler.Order.{Ordered-le}
use operator_wordpress.Reconciler.Order.Passes.{
  reconcile_database-Emits, reconcile_pvc-Emits, reconcile_wordpress_deployment-Emits,
  reconcile_ingress-Emits, reconcile_hpa-Emits,
}

module _ {K : Kube} (C : Cluster K) where
  Emits-raise : {A : Type 0} {a b c : ℕ} {m : Action C A} → b ≤ c → Emits a b m → Emits a c m
  Emits-raise h em = record {
    le = omega (arith, em.le, h);
    at = λ s o. Ordered-le _ _ _ h (em.at s o);
  }

  write_status-Ordered :
      (st : WordPressStatus K) (r : Answer K (WordPress K)) (s : State C)
      → Ordered 9 s.log
      → Ordered 9 (write_status C st r s).1.log
  unfolding write_status
  write_status-Ordered st (err e) s o = o
  write_status-Ordered st (ok latest) s o = (omega arith, o)

  Retried-Ordered :
      (wp : WordPress K) (st : WordPressStatus K) {s : State C} {r : Option K.Error × State C}
      → Retried K (persist_once C wp st) s r
      → Ordered 9 s.log
      → Ordered 9 r.1.log
  unfolding persist_once
  Retried-Ordered wp st (stop s n) o = write_status-Ordered st _ _ o
  Retried-Ordered wp st (give_up s n) o = write_status-Ordered st _ _ o
  Retried-Ordered wp st (again n more) o =
      Retried-Ordered wp st more (write_status-Ordered st _ _ o)

  pub observed_status-Quiet : (found : Answer K (Deployment K)) → Quiet (observed_status C found)
  unfolding observed_status
  observed_status-Quiet (ok d) = search quiet_rules
  observed_status-Quiet (err e) = search quiet_rules

  report_deployment-Quiet : (d : DeploymentStatus K) → Quiet (report_deployment C d)
  unfolding report_deployment
  report_deployment-Quiet d = search quiet_rules

  report_phase-Quiet : (ready : Bool) → Quiet (report_phase C ready)
  unfolding report_phase
  report_phase-Quiet ready = search quiet_rules

  pub compute_status-Quiet : (d : DeploymentStatus K) → Quiet (compute_status C d)
  unfolding compute_status
  compute_status-Quiet d = Quiet-bind _ _ Quiet-get_wp λ wp.
      Quiet-bind _ _ (Quiet-modify_status _) λ _. Quiet-bind _ _ (report_deployment-Quiet d) λ _.
        Quiet-bind _ _ Quiet-get_wp
          λ seen. Quiet-bind _ _ (report_phase-Quiet _) λ _. Quiet-modify_status _

  pub requeue_unless_ready-Quiet : Quiet (requeue_unless_ready C)
  unfolding requeue_unless_ready
  requeue_unless_ready-Quiet = search quiet_rules

  pub ignore_conflict-Quiet : (r : Result) (e : Failure K) → Quiet (ignore_conflict C r e)
  unfolding ignore_conflict
  ignore_conflict-Quiet r e = search quiet_rules

  tolerate_missing-Quiet : (r : Option K.Error) → Quiet (tolerate_missing C r)
  unfolding tolerate_missing
  tolerate_missing-Quiet none = search quiet_rules
  tolerate_missing-Quiet (some e) = search quiet_rules

  delete_found_pvc-Emits :
      (name : String) (found : Answer K (PersistentVolumeClaim K))
      → Emits 0 4 (delete_found_pvc C name found)
  unfolding delete_found_pvc
  delete_found_pvc-Emits name (ok pvc) = Quiet-bind-Emits _ _ (omega arith) (Quiet-event _ _ _) λ _.
      Emits-bind-Quiet _ _ (Emits-delete claim pvc (omega arith, omega arith))
        tolerate_missing-Quiet
  delete_found_pvc-Emits name (err e) = Emits-Quiet (omega arith) (search quiet_rules)

  keep_data-Quiet :
      (wp : WordPress K) (message : String)
      → Quiet
          (if retains_data wp then Action.event C "Normal" "RetainingMySQLPVC" message else pure tt)
  keep_data-Quiet wp message = Quiet-if _ _ _ (Quiet-event _ _ _) (Quiet-pure tt)

  clean_up-Emits : (wp : WordPress K) → Emits 0 4 (clean_up C wp)
  unfolding clean_up
  clean_up-Emits wp =
      Emits-if _ _ _
        (Quiet-bind-Emits _ _ (omega arith) (Quiet-get claim _)
          λ found. delete_found_pvc-Emits _ found)
        (Emits-Quiet (omega arith) (keep_data-Quiet wp _))

  release-Emits : (wp : WordPress K) → Emits 4 10 (release C wp)
  unfolding release
  release-Emits wp =
      Quiet-bind-Emits _ _ (omega arith) (Quiet-set_wp _)
        λ _. Emits-bind-Quiet _ _ (Emits-update wordpress _ (omega arith, omega arith)) Quiet-check

  handle_deletion-Emits : Emits 0 10 (handle_deletion C)
  unfolding handle_deletion finish_deletion handle
  handle_deletion-Emits = Quiet-bind-Emits _ _ (omega arith) Quiet-get_wp λ wp.
      Emits-if _ _ _
        (Emits-bind (clean_up-Emits wp) (omega arith) λ _.
          Emits-branch (Emits-bind-Quiet _ _ (release-Emits wp) (λ _. Quiet-pure _)) (omega arith)
            (λ r. Emits-Quiet (omega arith) (Quiet-pure r))
            (λ e. Emits-Quiet (omega arith) (ignore_conflict-Quiet _ e)))
        (Emits-Quiet (omega arith) (Quiet-pure _))

  register_finalizer-Emits : (wp : WordPress K) → Emits 0 10 (register_finalizer C wp)
  unfolding register_finalizer
  register_finalizer-Emits wp = Quiet-bind-Emits _ _ (omega arith) (Quiet-set_wp _) λ _.
      Emits-bind-Quiet _ _ (Emits-update wordpress _ (omega arith, omega arith))
        λ r. Quiet-bind _ _ (Quiet-check r) (λ _. Quiet-pure _)

  module _ (retries : Retries C) where
    persist_status-Emits : (a : ℕ) → a ≤ 9 → Emits a 9 (persist_status C)
    unfolding persist_status
    persist_status-Emits a h = record {
      le = h;
      at = λ s o. subst (Ordered 9) (sym ((Quiet-check _).at _)) (
          Retried-Ordered s.wp s.wp.status (retries.runs (persist_once C s.wp s.wp.status) s)
            (Ordered-le a 9 s.log h o));
    }

    update_status-Emits : Emits 8 9 (update_status C)
    unfolding update_status
    update_status-Emits = Quiet-bind-Emits _ _ (omega arith) Quiet-get_wp λ wp.
        Quiet-bind-Emits _ _ (omega arith) (Quiet-get deployment _) λ found.
          Quiet-bind-Emits _ _ (omega arith) (observed_status-Quiet found) λ d.
            Quiet-bind-Emits _ _ (omega arith) (compute_status-Quiet d)
              λ _. persist_status-Emits 8 (omega arith)

    ignore_persist-Emits :
        (a : ℕ) (m : Action C (Unit {0})) → a ≤ 9 → Emits a 9 m → Emits a 9 (ignore C m)
    unfolding ignore handle
    ignore_persist-Emits a m h em =
        Emits-branch em (omega arith) (λ u. Emits-Quiet (omega arith) (Quiet-pure u))
          (λ e. Emits-Quiet (omega arith) (Quiet-pure tt))

    database_failed-Emits : (e : Failure K) → Emits 3 9 (database_failed C e)
    unfolding database_failed
    database_failed-Emits e =
        Emits-bind-Quiet _ _
          (ignore_persist-Emits 3 _ (omega arith) (persist_status-Emits 3 (omega arith)))
          (λ _. ignore_conflict-Quiet _ e)

    mark_failed-Emits : (reason message : String) → Emits 0 9 (mark_failed C reason message)
    unfolding mark_failed
    mark_failed-Emits reason message =
        Quiet-bind-Emits _ _ (omega arith) (Quiet-modify_status _) λ _.
          Quiet-bind-Emits _ _ (omega arith) (Quiet-set_condition _ _ _ _)
            λ _. persist_status-Emits 0 (omega arith)

    reject_spec-Emits : (message : String) → Emits 0 9 (reject_spec C message)
    unfolding reject_spec
    reject_spec-Emits message = Quiet-bind-Emits _ _ (omega arith) (Quiet-event _ _ _) λ _.
        Emits-bind-Quiet _ _ (ignore_persist-Emits 0 _ (omega arith) (mark_failed-Emits _ _))
          (λ _. Quiet-pure _)

    module _ (own : Owns C) where
      reconcile_site-Emits : Emits 3 9 (reconcile_site C)
      unfolding reconcile_site
      reconcile_site-Emits = Emits-bind (reconcile_pvc-Emits C own) (omega arith) λ _.
          Emits-bind (reconcile_wordpress_deployment-Emits C own) (omega arith) λ _.
            Emits-bind (reconcile_wordpress_service-Emits C own) (omega arith) λ _.
              Emits-bind (reconcile_ingress-Emits C own) (omega arith)
                λ _. Emits-bind (reconcile_hpa-Emits C own) (omega arith) λ _. update_status-Emits

      reconcile_rest-Emits : Emits 3 9 (reconcile_rest C)
      unfolding reconcile_rest handle
      reconcile_rest-Emits =
          Emits-branch (Emits-bind-Quiet _ _ reconcile_site-Emits (λ _. requeue_unless_ready-Quiet))
            (omega arith) (λ r. Emits-Quiet (omega arith) (Quiet-pure r))
            (λ e. Emits-Quiet (omega arith) (ignore_conflict-Quiet _ e))

      reconcile_valid-Emits : Emits 0 9 (reconcile_valid C)
      unfolding reconcile_valid after_database
      reconcile_valid-Emits =
          Emits-branch (reconcile_database-Emits C own) (omega arith)
            (λ res.
              Emits-if _ _ _ reconcile_rest-Emits
                (Emits-bind-Quiet _ _ (persist_status-Emits 3 (omega arith)) (λ _. Quiet-pure res)))
            database_failed-Emits

      act_on-Emits : (verdict : Option String) → Emits 0 9 (act_on C verdict)
      unfolding act_on
      act_on-Emits none = reconcile_valid-Emits
      act_on-Emits (some message) = reject_spec-Emits message

      reconcile_found-Emits : Emits 0 10 (reconcile_found C)
      unfolding reconcile_found reconcile_live
      reconcile_found-Emits = Quiet-bind-Emits _ _ (omega arith) Quiet-get_wp λ wp.
          Emits-if _ _ _ handle_deletion-Emits (
            Emits-if _ _ _
              (Quiet-bind-Emits _ _ (omega arith) (Quiet-set_wp _)
                λ _. Emits-raise (omega arith) (act_on-Emits _))
              (register_finalizer-Emits wp))

      reconcile_answer-Ordered :
          (r : Answer K (WordPress K)) (v : C.World) → Ordered 10 (reconcile_answer C r v).2
      unfolding reconcile_answer
      reconcile_answer-Ordered (err e) v = tt
      reconcile_answer-Ordered (ok wp) v = reconcile_found-Emits.at _ tt

      -- Every pass sends its writes in one order, each of them at most once, but for the status,
      -- which is sent again after a conflict: the Secret, the database Service, the stateful set,
      -- the content claim, the Deployment, the site's Service, the ingress, the autoscaler, and
      -- then the status; a deletion, its data claim and then the object itself. The libraries
      -- behave as documented: Retries and Owns hold.
      pub reconcile-Ordered :
          (request : NamespacedName) (v : C.World) → Ordered 10 (reconcile C request v).2
      unfolding reconcile
      reconcile-Ordered request v =
          reconcile_answer-Ordered (C.get wordpress request v).0 (C.get wordpress request v).1
