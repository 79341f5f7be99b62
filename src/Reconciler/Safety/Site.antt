-- ===== src/Reconciler/Safety/Site.antt =====
-- The steps for the claim, the services and the deployment.
use operator_wordpress.Base.{◌≡◌, ◌≢◌, ◌∙◌, true, arith, inl, inr}
use operator_wordpress.Kube.{Kube}
use operator_wordpress.Kube.Network.{Service}
use operator_wordpress.Kube.Workloads.{PersistentVolumeClaim, Deployment}
use operator_wordpress.Kube.Outcome.{Answer, ok, err, done, panic}
use operator_wordpress.Api.{WordPress}
use operator_wordpress.Database.Render.{resolved_db_host}
use operator_wordpress.Resources.{build_wordpress_pvc, build_wordpress_service}
use operator_wordpress.Resources.Deployment.{build_wordpress_deployment}
use operator_wordpress.Validation.Laws.{HasDatabase}
use operator_wordpress.Cluster.{Cluster, service, deployment, claim}
use operator_wordpress.Cluster.Action.{Action, created}
use operator_wordpress.Cluster.Lawful.{Owns}
use operator_wordpress.Cluster.Safe.{
  Safe, Safe-pure, Safe-if, Safe-bind, Safe-bind-lift, Safe-bind-get_wp, Safe-bind-get,
  Safe-bind-own, Safe-modify_status, safe_rules,
}
use operator_wordpress.Reconciler.Calls.{
  Same, Permitted, Owned, Owned-of_own, Same-status, Same-namespace, Same-HasDatabase,
}
use operator_wordpress.Reconciler.Site.{
  db_env, ensure_pvc, create_pvc, reconcile_pvc, ensure_deployment, reconcile_wordpress_deployment,
}
use operator_wordpress.Reconciler.Service.{
  apply_service_to, apply_service, reconcile_wordpress_service,
}

module _ {K : Kube} (wp : WordPress K) where
  build_wordpress_pvc-ne-panic : build_wordpress_pvc wp ≢ panic
  unfolding build_wordpress_pvc
  build_wordpress_pvc-ne-panic e = ground (arith)

  namespace-build_wordpress_pvc :
      (desired : PersistentVolumeClaim K)
      → build_wordpress_pvc wp ≡ done desired
      → desired.metadata.namespace ≡ wp.metadata.namespace
  unfolding build_wordpress_pvc
  namespace-build_wordpress_pvc desired e = ground arith

  resolved_db_host-ne-panic : HasDatabase wp.spec.database → resolved_db_host wp ≢ panic
  unfolding resolved_db_host
  resolved_db_host-ne-panic (inl (m, (i, h))) = rw m (λ e. cc)
  resolved_db_host-ne-panic (inr (m, (x, h))) = rw m (rw h (λ e. cc))

  db_env-ne-panic : HasDatabase wp.spec.database → db_env wp ≢ panic
  unfolding db_env
  db_env-ne-panic (inl (m, (i, h))) = rw m (λ e. cc)
  db_env-ne-panic (inr (m, (x, h))) = rw m (rw h (λ e. cc))

module _ {K : Kube} (C : Cluster K) (w : WordPress K) where
  abbrev Step : {A : Type 0} → Action C A → Type 0
  Step m = Safe (Same w) (Permitted C w) m

  ensure_pvc-Safe :
      (desired : PersistentVolumeClaim K) (found : Answer K (PersistentVolumeClaim K))
      → Permitted C w (created claim desired)
      → Step (ensure_pvc C desired found)
  unfolding ensure_pvc
  ensure_pvc-Safe desired (ok _) p = search safe_rules
  ensure_pvc-Safe desired (err e) p = search safe_rules

  apply_service_to-Safe :
      (desired : Service K) (found : Answer K (Service K))
      → Permitted C w (created service desired)
      → Step (apply_service_to C desired found)
  unfolding apply_service_to
  apply_service_to-Safe desired (ok existing) p = search safe_rules
  apply_service_to-Safe desired (err e) p = search safe_rules

  pub apply_service-Safe :
      (desired : Service K) → Owned C w desired.metadata → Step (apply_service C desired)
  unfolding apply_service
  apply_service-Safe desired o =
      Safe-bind-get service _ _ λ found. apply_service_to-Safe desired found (tt, o)

  ensure_deployment-Safe :
      (desired : Deployment K) (found : Answer K (Deployment K))
      → Permitted C w (created deployment desired)
      → Step (ensure_deployment C desired found)
  unfolding ensure_deployment
  ensure_deployment-Safe desired (ok existing) p = search safe_rules
  ensure_deployment-Safe desired (err e) p = search safe_rules

  module _ (own : Owns C) where
    create_pvc-Safe :
        w.spec.persistence.enabled ≡ true → (wp : WordPress K) → Same w wp → Step (create_pvc C wp)
    unfolding create_pvc
    create_pvc-Safe wanted wp same =
        Safe-bind-lift _ _ (build_wordpress_pvc-ne-panic wp) λ desired built.
          Safe-bind-own _ _ λ wp' m same' e. Safe-bind-get claim _ _ λ found.
            ensure_pvc-Safe (record desired { metadata = m }) found
              (
                wanted,
                Owned-of_own C w own wp' _ m same'
                    (namespace-build_wordpress_pvc wp desired built ∙ Same-namespace C w wp same) e,
              )

    pub reconcile_pvc-Safe : Step (reconcile_pvc C)
    unfolding reconcile_pvc
    reconcile_pvc-Safe = Safe-bind-get_wp _ λ wp same.
        Safe-if _ _ _ (λ on. create_pvc-Safe (rw same.spec at on) wp same) (λ off. Safe-pure tt)

    pub reconcile_wordpress_service-Safe : Step (reconcile_wordpress_service C)
    unfolding reconcile_wordpress_service build_wordpress_service
    reconcile_wordpress_service-Safe = Safe-bind-get_wp _ λ wp same.
        Safe-bind-own _ _ λ wp' m same' e.
          apply_service-Safe _ (Owned-of_own C w own wp' _ m same' (Same-namespace C w wp same) e)

    module _ (ready : HasDatabase w.spec.database) where
      pub reconcile_wordpress_deployment-Safe : Step (reconcile_wordpress_deployment C)
      unfolding reconcile_wordpress_deployment build_wordpress_deployment
      reconcile_wordpress_deployment-Safe = Safe-bind-get_wp _ λ wp same.
          Safe-bind-lift _ _ (resolved_db_host-ne-panic wp (Same-HasDatabase C w ready wp same))
            λ r found. Safe-bind _ _ (Safe-modify_status (Same-status C w) _) λ _.
              Safe-bind-lift _ _ (db_env-ne-panic wp (Same-HasDatabase C w ready wp same))
                λ envs envs_built. Safe-bind-own _ _ λ wp' m same' e.
                  Safe-bind-get deployment _ _ λ found.
                    ensure_deployment-Safe _ found
                      (tt, Owned-of_own C w own wp' _ m same' (Same-namespace C w wp same) e)
