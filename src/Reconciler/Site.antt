-- ===== src/Reconciler/Site.antt =====
-- internal/controller/wordpress_controller.go: `reconcilePVC` and `reconcileWordPressDeployment`.
use operator_wordpress.Base.{◌==◌, if◌then◌else◌, List}
use operator_wordpress.Kube.{Kube}
use operator_wordpress.Kube.Meta.{object_key}
use operator_wordpress.Kube.Pods.{EnvVar}
use operator_wordpress.Kube.Workloads.{Deployment, PersistentVolumeClaim}
use operator_wordpress.Kube.Outcome
use operator_wordpress.Kube.Outcome.{Answer, ok, err, external, Outcome, done, deref}
use operator_wordpress.Api.{WordPress, database_mode_internal}
use operator_wordpress.Names.{db_secret_name}
use operator_wordpress.Database.Render.{resolved_db_host}
use operator_wordpress.Resources.{build_wordpress_pvc}
use operator_wordpress.Resources.Deployment.{
  env_from_internal_db_secret, env_from_external_db_secret, build_wordpress_deployment,
}
use operator_wordpress.Cluster.{Cluster, claim, deployment}
use operator_wordpress.Cluster.Action
use operator_wordpress.Cluster.Action.{
  Action, pure, fail, lift, check, get_wp, modify_status, ◌>>=◌, ◌>>◌,
}
use operator_wordpress.Reconciler.{deployment_equal}

module _ {K : Kube} where
  unfoldable pub db_env : WordPress K → Outcome K (List (EnvVar K))
  db_env wp =
      if wp.spec.database.mode == database_mode_internal
      then done (env_from_internal_db_secret K (db_secret_name wp))
      else Outcome.◌>>=◌ (deref wp.spec.database.external)
          (λ e. done (env_from_external_db_secret K e.password_secret))

  -- The existing deployment with the managed fields overwritten.
  unfoldable pub deployment_patch : Deployment K → Deployment K → Deployment K
  deployment_patch existing desired = record existing {
    metadata = record existing.metadata { labels = desired.metadata.labels };
    spec = record existing.spec {
      replicas = desired.spec.replicas;
      strategy = desired.spec.strategy;
      template = desired.spec.template;
    };
  }

module _ {K : Kube} (C : Cluster K) where
  -- An existing claim is left alone.
  unfoldable pub ensure_pvc :
      PersistentVolumeClaim K → Answer K (PersistentVolumeClaim K) → Action C (Unit {0})
  ensure_pvc desired (ok _) = pure tt
  ensure_pvc desired (err e) =
      if K.is_not_found e
      then (do r ← Action.create C claim desired; check r)
      else fail (external e)

  unfoldable pub create_pvc : WordPress K → Action C (Unit {0})
  unfolding ensure_pvc
  create_pvc wp = do
    desired ← lift (build_wordpress_pvc wp)
    m ← Action.set_controller_reference C desired.metadata
    found ← Action.get C claim (object_key m)
    ensure_pvc (record desired { metadata = m }) found

  unfoldable pub reconcile_pvc : Action C (Unit {0})
  unfolding create_pvc
  reconcile_pvc = do wp ← get_wp; if wp.spec.persistence.enabled then create_pvc wp else pure tt

  unfoldable pub ensure_deployment : Deployment K → Answer K (Deployment K) → Action C (Unit {0})
  unfolding deployment_patch
  ensure_deployment desired (err e) =
      if K.is_not_found e
      then (do r ← Action.create C deployment desired; check r)
      else fail (external e)
  ensure_deployment desired (ok existing) =
      let patch = deployment_patch existing desired in
      if deployment_equal existing patch
      then pure tt
      else (do r ← Action.update C deployment patch; check r)

  unfoldable pub reconcile_wordpress_deployment : Action C (Unit {0})
  unfolding ensure_deployment db_env
  reconcile_wordpress_deployment = do
    wp ← get_wp
    (host, port) ← lift (resolved_db_host wp)
    modify_status (λ st. record st { database_host = host })
    envs ← lift (db_env wp)
    let desired = build_wordpress_deployment wp host port envs
    m ← Action.set_controller_reference C desired.metadata
    found ← Action.get C deployment (object_key m)
    ensure_deployment (record desired { metadata = m }) found
