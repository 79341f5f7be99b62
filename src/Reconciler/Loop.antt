-- ===== src/Reconciler/Loop.antt =====
-- internal/controller/wordpress_controller.go: `Reconcile`.
use operator_wordpress.Base.{String, ◌==◌, eqb, if◌then◌else◌, not, Option, none, some, List, []}
use operator_wordpress.Kube.{Kube}
use operator_wordpress.Kube.Meta.{NamespacedName}
use operator_wordpress.Kube.Outcome.{Answer, ok, err, Failure, external, Outcome, done, failed}
use operator_wordpress.Api.{WordPress, phase_ready}
use operator_wordpress.Names.{wordpress_finalizer}
use operator_wordpress.Defaults.{apply_defaults}
use operator_wordpress.Validation.{validate_spec}
use operator_wordpress.Cluster.{Cluster, wordpress}
use operator_wordpress.Cluster.Action
use operator_wordpress.Cluster.Action.{
  Call, Action, pure, fail, check, get_wp, set_wp, branch, handle, ◌>>=◌, ◌>>◌,
}
use operator_wordpress.Reconciler.{
  Result, no_requeue, requeue, ignore_conflict, persist_status, mark_failed,
}
use operator_wordpress.Reconciler.Database.{reconcile_database}
use operator_wordpress.Reconciler.Site.{reconcile_pvc, reconcile_wordpress_deployment}
use operator_wordpress.Reconciler.Service.{reconcile_wordpress_service}
use operator_wordpress.Reconciler.Exposure.{reconcile_ingress, reconcile_hpa}
use operator_wordpress.Reconciler.Progress.{update_status}
use operator_wordpress.Reconciler.Deletion.{handle_deletion}

module _ {K : Kube} (C : Cluster K) where
  unfoldable pub register_finalizer : WordPress K → Action C Result
  register_finalizer wp = do
    let wp' : WordPress K = record wp { metadata = C.add_finalizer wp.metadata wordpress_finalizer }
    set_wp wp'
    r ← Action.update C wordpress wp'
    check r
    pure no_requeue

  -- `_ = r.f(...)`: the error is dropped.
  unfoldable pub ignore : Action C (Unit {0}) → Action C (Unit {0})
  ignore m = handle m (λ _. pure tt)

  unfoldable pub reject_spec : String → Action C Result
  unfolding ignore
  reject_spec message = do
    Action.event C "Warning" "InvalidSpec" message
    ignore (mark_failed C "InvalidSpec" message)
    pure no_requeue

  -- After an error of `reconcileDatabase` the conditions set so far are persisted first.
  unfoldable pub database_failed : Failure K → Action C Result
  unfolding ignore
  database_failed e = do ignore (persist_status C); ignore_conflict C no_requeue e

  -- The owned objects of the site, then the status.
  unfoldable pub reconcile_site : Action C (Unit {0})
  reconcile_site = do
    reconcile_pvc C
    reconcile_wordpress_deployment C
    reconcile_wordpress_service C
    reconcile_ingress C
    reconcile_hpa C
    update_status C

  unfoldable pub requeue_unless_ready : Action C Result
  requeue_unless_ready = do
    wp ← get_wp
    if wp.status.phase == phase_ready then pure no_requeue else pure (requeue 15)

  -- A conflict on an owned object, or on the status, ends the pass with no error and no delay.
  unfoldable pub reconcile_rest : Action C Result
  unfolding reconcile_site requeue_unless_ready
  reconcile_rest = handle (reconcile_site >> requeue_unless_ready) (ignore_conflict C no_requeue)

  -- `res.IsZero()`, or the early return with the conditions persisted.
  unfoldable pub after_database : Result → Action C Result
  unfolding reconcile_rest
  after_database res =
      if eqb res.requeue_after 0 then reconcile_rest else (do persist_status C; pure res)

  unfoldable pub reconcile_valid : Action C Result
  unfolding after_database database_failed
  reconcile_valid = branch (reconcile_database C) after_database database_failed

  -- What follows `validateSpec`, whose error is the argument.
  unfoldable pub act_on : Option String → Action C Result
  unfolding reconcile_valid reject_spec
  act_on none = reconcile_valid
  act_on (some message) = reject_spec message

  -- The object is live and carries the finalizer.
  unfoldable pub reconcile_live : WordPress K → Action C Result
  unfolding act_on
  reconcile_live wp = do set_wp (apply_defaults wp); act_on (validate_spec (apply_defaults wp))

  unfoldable pub reconcile_found : Action C Result
  unfolding reconcile_live register_finalizer
  reconcile_found = do
    wp ← get_wp
    if not (K.is_zero wp.metadata.deletion_timestamp)
        then handle_deletion C
        else if C.contains_finalizer wp.metadata wordpress_finalizer
        then reconcile_live wp
        else register_finalizer wp

  -- What follows the `Get` of the object: the outcome, the world, and the writes, newest first.
  unfoldable pub reconcile_answer :
      Answer K (WordPress K) → C.World → Outcome K Result × C.World × List (Call K)
  unfolding reconcile_found
  reconcile_answer (err e) w =
      (if K.is_not_found e then done no_requeue else failed (external e), w, [])
  reconcile_answer (ok wp) w =
      let (o, s) = reconcile_found (record { wp = wp; world = w; log = [] }) in (o, s.world, s.log)

  unfoldable pub reconcile : NamespacedName → C.World → Outcome K Result × C.World × List (Call K)
  unfolding reconcile_answer
  reconcile request w = let (r, w') = C.get wordpress request w in reconcile_answer r w'
