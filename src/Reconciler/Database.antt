-- ===== src/Reconciler/Database.antt =====
-- internal/controller/wordpress_controller.go: `reconcileDatabase`, in its two modes.
use operator_wordpress.Base.{String, ◌<>◌, ◌==◌, if◌then◌else◌, Bool, ◌&&◌, deep_equal}
use operator_wordpress.Base.Int.{ℤ, pos, ltb_ℤ}
use operator_wordpress.Kube.{Kube}
use operator_wordpress.Kube.Meta.{object_key}
use operator_wordpress.Kube.Pods.{PodTemplateSpec-discrete}
use operator_wordpress.Kube.Workloads.{Secret, StatefulSet}
use operator_wordpress.Kube.Outcome.{Answer, ok, err, external, deref}
use operator_wordpress.Api.{
  WordPress, ExternalDatabaseSpec, database_mode_external, condition_type_database_ready,
}
use operator_wordpress.Database.{build_mysql_headless_service}
use operator_wordpress.Database.Password.{build_mysql_secret}
use operator_wordpress.Database.Render.{build_mysql_stateful_set}
use operator_wordpress.Cluster.{Cluster, secret, stateful_set}
use operator_wordpress.Cluster.Action
use operator_wordpress.Cluster.Action.{Action, pure, fail, lift, check, get_wp, ◌>>=◌, ◌>>◌}
use operator_wordpress.Reconciler.{Result, no_requeue, requeue, equal_int32_ptr}
use operator_wordpress.Reconciler.Service.{apply_service}

module _ {K : Kube} where
  -- The existing stateful set with the desired template and replicas.
  unfoldable pub stateful_set_patch : StatefulSet K → StatefulSet K → StatefulSet K
  stateful_set_patch existing desired = record existing {
    spec = record existing.spec {
      replicas = desired.spec.replicas;
      template = desired.spec.template;
    };
  }

  unfoldable pub stateful_set_equal : StatefulSet K → StatefulSet K → Bool
  unfolding equal_int32_ptr
  stateful_set_equal existing patch =
      deep_equal (PodTemplateSpec-discrete K) existing.spec.template patch.spec.template
      && equal_int32_ptr existing.spec.replicas patch.spec.replicas

module _ {K : Kube} (C : Cluster K) where
  unfoldable pub database_ready : String → String → Action C (Unit {0})
  database_ready = Action.set_condition C condition_type_database_ready "True"

  unfoldable pub database_not_ready : String → String → Action C (Unit {0})
  database_not_ready = Action.set_condition C condition_type_database_ready "False"

  abbrev pub missing_message : ExternalDatabaseSpec → String
  missing_message e = "Secret " <> K.quote e.password_secret.name <> " not found"

  -- External mode, after the `Get` of the user's Secret.
  unfoldable pub verify_secret : ExternalDatabaseSpec → Answer K (Secret K) → Action C Result
  verify_secret e (ok _) = do
    database_ready "ExternalDatabase" "Using external database"
    pure no_requeue
  verify_secret e (err x) =
      if K.is_not_found x
      then (do
        database_not_ready "ExternalSecretMissing" (missing_message e)
        Action.event C "Warning" "ExternalSecretMissing" (missing_message e)
        pure (requeue 30))
      else fail (external x)

  unfoldable pub reconcile_external : WordPress K → Action C Result
  unfolding verify_secret
  reconcile_external wp = do
    e ← lift (deref wp.spec.database.external)
    found ←
        Action.get C secret
          (record { namespace = wp.metadata.namespace; name = e.password_secret.name })
    verify_secret e found

  -- `buildMySQLSecret`, which reads the random source
  unfoldable pub fresh_secret : WordPress K → Action C (Secret K)
  unfolding build_mysql_secret
  fresh_secret wp s =
      let (r, w) = build_mysql_secret C.read_random wp s.world in (r, record s { world = w })

  unfoldable pub ensure_secret : Secret K → Answer K (Secret K) → Action C (Unit {0})
  ensure_secret desired (ok _) = pure tt
  ensure_secret desired (err e) =
      if K.is_not_found e
      then (do r ← Action.create C secret desired; check r)
      else fail (external e)

  unfoldable pub reconcile_secret : WordPress K → Action C (Unit {0})
  unfolding fresh_secret ensure_secret
  reconcile_secret wp = do
    desired ← fresh_secret wp
    m ← Action.set_controller_reference C desired.metadata
    found ← Action.get C secret (object_key m)
    ensure_secret (record desired { metadata = m }) found

  unfoldable pub reconcile_headless_service : WordPress K → Action C (Unit {0})
  reconcile_headless_service wp = do
    let desired = build_mysql_headless_service wp
    m ← Action.set_controller_reference C desired.metadata
    apply_service C (record desired { metadata = m })

  -- The result is the ready replicas of `existingSS`, which is empty after a `Create`.
  unfoldable pub ensure_stateful_set : StatefulSet K → Answer K (StatefulSet K) → Action C ℤ
  unfolding stateful_set_patch stateful_set_equal
  ensure_stateful_set desired (err e) =
      if K.is_not_found e
      then (do r ← Action.create C stateful_set desired; check r; pure (pos 0))
      else fail (external e)
  ensure_stateful_set desired (ok existing) =
      let patch = stateful_set_patch existing desired in
      if stateful_set_equal existing patch
      then pure existing.status.ready_replicas
      else (do r ← Action.update C stateful_set patch; check r; pure existing.status.ready_replicas)

  unfoldable pub reconcile_stateful_set : WordPress K → Action C ℤ
  unfolding ensure_stateful_set
  reconcile_stateful_set wp = do
    desired ← lift (build_mysql_stateful_set wp)
    m ← Action.set_controller_reference C desired.metadata
    found ← Action.get C stateful_set (object_key m)
    ensure_stateful_set (record desired { metadata = m }) found

  unfoldable pub report_readiness : ℤ → Action C Result
  report_readiness ready =
      if ltb_ℤ ready (pos 1)
      then (do
        database_not_ready "MySQLNotReady" "Waiting for MySQL StatefulSet to become ready"
        pure no_requeue)
      else (do
        database_ready "MySQLReady" "MySQL StatefulSet has at least one ready replica"
        pure no_requeue)

  unfoldable pub reconcile_internal : WordPress K → Action C Result
  unfolding reconcile_secret reconcile_headless_service reconcile_stateful_set report_readiness
  reconcile_internal wp = do
    reconcile_secret wp
    reconcile_headless_service wp
    ready ← reconcile_stateful_set wp
    report_readiness ready

  unfoldable pub reconcile_database : Action C Result
  unfolding reconcile_external reconcile_internal
  reconcile_database = do
    wp ← get_wp
    if wp.spec.database.mode == database_mode_external
        then reconcile_external wp
        else reconcile_internal wp
