-- ===== src/Reconciler/Steady/Passes.antt =====
-- A pass over a site that is up to date, up to its status, writes nothing.
use operator_wordpress.Base.{◌≡◌, ◌==◌, true, false, arith}
use operator_wordpress.Kube.{Kube}
use operator_wordpress.Kube.Outcome.{done}
use operator_wordpress.Kube.Workloads.{Secret}
use operator_wordpress.Api.{WordPress, WordPressStatus, database_mode_external}
use operator_wordpress.Cluster.{
  Cluster, secret, stateful_set, deployment, claim, ingress, autoscaler,
}
use operator_wordpress.Cluster.Action.{Action, ◌>>=◌}
use operator_wordpress.Database.Password.{generate_password, build_mysql_secret}
use operator_wordpress.Reconciler.Service.{reconcile_wordpress_service}
use operator_wordpress.Reconciler.Site.{create_pvc, reconcile_pvc, reconcile_wordpress_deployment}
use operator_wordpress.Reconciler.Database.{
  fresh_secret, reconcile_secret, reconcile_headless_service, reconcile_stateful_set,
  reconcile_internal, reconcile_database,
}
use operator_wordpress.Reconciler.Exposure.{
  disable_ingress, enable_ingress, reconcile_ingress, disable_hpa, enable_hpa, reconcile_hpa,
}
use operator_wordpress.Reconciler.Steady.{with_status, Idle}
use operator_wordpress.Reconciler.Steady.Rules.{
  Idle-test, Idle-pure, Idle-bind, Idle-continue, Idle-lift, Idle-wp, Idle-own, Idle-get,
  Idle-modify_status,
}
use operator_wordpress.Reconciler.Steady.Desired.{Stays, UpToDate}
use operator_wordpress.Reconciler.Steady.Steps.{
  ensure_secret-Idle, ensure_pvc-Idle, ensure_stateful_set-Idle, ensure_deployment-Idle,
  ensure_ingress-Idle, remove_ingress-Idle, ensure_hpa-Idle, remove_hpa-Idle, report_readiness-Idle,
  reconcile_external-Idle, apply_service-Idle,
}

module _ {K : Kube} (C : Cluster K) (Still : C.World → Type 0) (stays : Stays C Still) where
  pub generate_password-Still :
      (v : C.World) → Still v → Still (generate_password C.read_random v).1
  unfolding generate_password
  generate_password-Still v still = let h = stays.read_random 24 v still in ground arith

  pub build_mysql_secret-Still :
      (wp : WordPress K) (v : C.World) → Still v → Still (build_mysql_secret C.read_random wp v).1
  unfolding build_mysql_secret
  build_mysql_secret-Still wp v still =
      let h = generate_password-Still v still in
      let h' = generate_password-Still (generate_password C.read_random v).1 h in ground arith

module _ {K : Kube} (C : Cluster K) (Still : C.World → Type 0) (w : WordPress K)
    (stays : Stays C Still) (current : UpToDate C Still w) where
  bind_fresh_secret-Idle :
      {A : Type 0} (wp : WordPress K) (f : Secret K → Action C A)
      → ((u : C.World) (d : Secret K)
          → (build_mysql_secret C.read_random wp u).0 ≡ done d
          → Idle Still w (f d))
      → Idle Still w (fresh_secret C wp >>= f)
  unfolding fresh_secret ◌>>=◌
  bind_fresh_secret-Idle wp f i = record {
    at = λ s c.
        (Idle-continue (build_mysql_secret C.read_random wp s.world).0 f
            (λ d built. i s.world d built)).at
          (record s { world = (build_mysql_secret C.read_random wp s.world).1 })
          (build_mysql_secret-Still C Still stays wp s.world c.0, c.1);
  }

  pub reconcile_site_service-Idle : Idle Still w (reconcile_wordpress_service C)
  unfolding reconcile_wordpress_service
  reconcile_site_service-Idle = Idle-wp _ λ st. Idle-own _ _ λ m e.
      apply_service-Idle C Still w stays _ λ v still. (current.site st v still).service_kept m e

  module _ (internal : w.spec.database.mode == database_mode_external ≡ false) where
    reconcile_secret-Idle :
        (st : WordPressStatus K) → Idle Still w (reconcile_secret C (with_status w st))
    unfolding reconcile_secret
    reconcile_secret-Idle st = bind_fresh_secret-Idle _ _ λ u d built. Idle-own _ _ λ m e.
        Idle-get stays.get secret _ _ λ v still.
          ensure_secret-Idle C Still w _ _
            ((current.database st v internal still).secret_kept u d m built e)

    reconcile_headless_service-Idle :
        (st : WordPressStatus K) → Idle Still w (reconcile_headless_service C (with_status w st))
    unfolding reconcile_headless_service
    reconcile_headless_service-Idle st = Idle-own _ _ λ m e.
        apply_service-Idle C Still w stays _
          λ v still. (current.database st v internal still).service_kept m e

    reconcile_stateful_set-Idle :
        (st : WordPressStatus K) → Idle Still w (reconcile_stateful_set C (with_status w st))
    unfolding reconcile_stateful_set
    reconcile_stateful_set-Idle st = Idle-lift _ _ λ d built. Idle-own _ _ λ m e.
        Idle-get stays.get stateful_set _ _ λ v still.
          ensure_stateful_set-Idle C Still w _ _
            ((current.database st v internal still).stateful_set_kept d m built e)

    reconcile_internal-Idle :
        (st : WordPressStatus K) → Idle Still w (reconcile_internal C (with_status w st))
    unfolding reconcile_internal
    reconcile_internal-Idle st = Idle-bind (reconcile_secret-Idle st) λ _.
        Idle-bind (reconcile_headless_service-Idle st)
          λ _. Idle-bind (reconcile_stateful_set-Idle st) λ n. report_readiness-Idle C Still w n

  pub reconcile_database-Idle : Idle Still w (reconcile_database C)
  unfolding reconcile_database
  reconcile_database-Idle = Idle-wp _ λ st.
      Idle-test _ _ _ (λ e. reconcile_external-Idle C Still w stays (with_status w st))
        (λ e. reconcile_internal-Idle e st)

  create_pvc-Idle :
      (st : WordPressStatus K)
      → w.spec.persistence.enabled ≡ true
      → Idle Still w (create_pvc C (with_status w st))
  unfolding create_pvc
  create_pvc-Idle st on = Idle-lift _ _ λ d built. Idle-own _ _ λ m e.
      Idle-get stays.get claim _ _ λ v still.
        ensure_pvc-Idle C Still w _ _ ((current.site st v still).claim_kept d m on built e)

  pub reconcile_pvc-Idle : Idle Still w (reconcile_pvc C)
  unfolding reconcile_pvc
  reconcile_pvc-Idle =
      Idle-wp _ λ st. Idle-test _ _ _ (λ on. create_pvc-Idle st on) (λ off. Idle-pure tt)

  pub reconcile_wordpress_deployment-Idle : Idle Still w (reconcile_wordpress_deployment C)
  unfolding reconcile_wordpress_deployment
  reconcile_wordpress_deployment-Idle = Idle-wp _ λ st. Idle-lift _ _ λ r resolved.
      Idle-bind (Idle-modify_status _) λ _. Idle-lift _ _ λ envs from. Idle-own _ _ λ m e.
        Idle-get stays.get deployment _ _ λ v still.
          ensure_deployment-Idle C Still w _ _
            ((current.site st v still).deployment_kept r.0 r.1 envs m resolved from e)

  pub reconcile_ingress-Idle : Idle Still w (reconcile_ingress C)
  unfolding reconcile_ingress enable_ingress disable_ingress
  reconcile_ingress-Idle = Idle-wp _ λ st.
      Idle-test _ _ _
        (λ on. Idle-own _ _ λ m e. Idle-get stays.get ingress _ _ λ v still.
          ensure_ingress-Idle C Still w _ _ ((current.site st v still).ingress_kept m on e))
        (λ off. Idle-get stays.get ingress _ _ λ v still.
          remove_ingress-Idle C Still w st _ ((current.site st v still).ingress_gone off))

  pub reconcile_hpa-Idle : Idle Still w (reconcile_hpa C)
  unfolding reconcile_hpa enable_hpa disable_hpa
  reconcile_hpa-Idle = Idle-wp _ λ st.
      Idle-test _ _ _
        (λ on. Idle-own _ _ λ m e.
          Idle-get stays.get autoscaler _ _
            λ v still. ensure_hpa-Idle C Still w _ _ ((current.site st v still).hpa_kept m on e))
        (λ off.
          Idle-get stays.get autoscaler _ _
            λ v still. remove_hpa-Idle C Still w st _ ((current.site st v still).hpa_gone off))
