-- ===== src/Reconciler/Steady/Desired.antt =====
-- The site of an object is up to date: in the worlds `Still`, which reads do not leave, each object
-- that the pass asks for is there as the pass would patch it, and none that it would delete.
use operator_wordpress.Base.{String, ℕ, ◌≡◌, ◌==◌, true, false, List}
use operator_wordpress.Base.Int.{ℤ}
use operator_wordpress.Kube.{Kube}
use operator_wordpress.Kube.Meta.{NamespacedName, ObjectMeta, object_key}
use operator_wordpress.Kube.Pods.{EnvVar}
use operator_wordpress.Kube.Workloads.{Secret, StatefulSet, PersistentVolumeClaim}
use operator_wordpress.Kube.Network.{Service}
use operator_wordpress.Kube.Outcome.{ok, done}
use operator_wordpress.Api.{WordPress, WordPressStatus, database_mode_external}
use operator_wordpress.Database.{build_mysql_headless_service}
use operator_wordpress.Database.Password.{build_mysql_secret}
use operator_wordpress.Database.Render.{build_mysql_stateful_set, resolved_db_host}
use operator_wordpress.Resources.{
  build_wordpress_service, build_wordpress_pvc, build_wordpress_ingress, build_wordpress_hpa,
}
use operator_wordpress.Resources.Deployment.{build_wordpress_deployment}
use operator_wordpress.Cluster.{
  Cluster, Kind, secret, service, stateful_set, deployment, claim, ingress, autoscaler,
}
use operator_wordpress.Cluster.Action
use operator_wordpress.Cluster.Action.{State}
use operator_wordpress.Reconciler.{deployment_equal}
use operator_wordpress.Reconciler.Service.{service_patch, service_equal}
use operator_wordpress.Reconciler.Site.{db_env, deployment_patch}
use operator_wordpress.Reconciler.Database.{stateful_set_patch, stateful_set_equal}
use operator_wordpress.Reconciler.Exposure.{
  ingress_patch, ingress_equal, ingress_key, hpa_patch, hpa_equal, hpa_key,
}
use operator_wordpress.Reconciler.Steady.{with_status, Kept, Gone}

module _ {K : Kube} (C : Cluster K) (Still : C.World → Type 0) where
  -- Neither reads nor events leave the worlds.
  pub record Stays : Type 0 where
    pub get : (k : Kind) (key : NamespacedName) (v : C.World) → Still v → Still (C.get k key v).1
    pub read_random : (n : ℕ) (v : C.World) → Still v → Still (C.read_random n v).1
    pub event :
        (s : State C) (type reason message : String)
        → Still s.world
        → Still (Action.event C type reason message s).1.world

  -- The service is there, and the patch would not change it.
  abbrev pub ServiceKept : Service K → C.World → Type 0
  ServiceKept desired v =
      Kept (λ e. service_equal e (service_patch e desired) ≡ true)
        (C.get service (object_key desired.metadata) v).0

  module _ (w : WordPress K) where
    abbrev pub Owner : ObjectMeta K → ObjectMeta K → Type 0
    Owner m m' = C.set_controller_reference w.metadata m ≡ ok m'

    -- The MySQL objects of mode Internal.
    pub record DatabaseKept (st : WordPressStatus K) (v : C.World) : Type 0 where
      pub secret_kept :
          (u : C.World) (d : Secret K) (m : ObjectMeta K)
          → (build_mysql_secret C.read_random (with_status w st) u).0 ≡ done d
          → Owner d.metadata m
          → Kept (λ _. Unit) (C.get secret (object_key m) v).0
      pub service_kept :
          (m : ObjectMeta K)
          → Owner (build_mysql_headless_service (with_status w st)).metadata m
          → ServiceKept
              (record (build_mysql_headless_service (with_status w st)) { metadata = m })
              v
      pub stateful_set_kept :
          (d : StatefulSet K) (m : ObjectMeta K)
          → build_mysql_stateful_set (with_status w st) ≡ done d
          → Owner d.metadata m
          → Kept
              (λ e. stateful_set_equal e (stateful_set_patch e (record d { metadata = m })) ≡ true)
              (C.get stateful_set (object_key m) v).0

    pub record SiteKept (st : WordPressStatus K) (v : C.World) : Type 0 where
      pub claim_kept :
          (d : PersistentVolumeClaim K) (m : ObjectMeta K)
          → w.spec.persistence.enabled ≡ true
          → build_wordpress_pvc (with_status w st) ≡ done d
          → Owner d.metadata m
          → Kept (λ _. Unit) (C.get claim (object_key m) v).0
      pub deployment_kept :
          (host : String) (port : ℤ) (envs : List (EnvVar K)) (m : ObjectMeta K)
          → resolved_db_host (with_status w st) ≡ done (host, port)
          → db_env (with_status w st) ≡ done envs
          → Owner (build_wordpress_deployment (with_status w st) host port envs).metadata m
          → Kept
              (λ e.
                deployment_equal e (
                  deployment_patch e
                    (record (build_wordpress_deployment (with_status w st) host port envs) {
                      metadata = m;
                    }))
                ≡ true)
              (C.get deployment (object_key m) v).0
      pub service_kept :
          (m : ObjectMeta K)
          → Owner (build_wordpress_service (with_status w st)).metadata m
          → ServiceKept (record (build_wordpress_service (with_status w st)) { metadata = m }) v
      pub ingress_kept :
          (m : ObjectMeta K)
          → w.spec.ingress.enabled ≡ true
          → Owner (build_wordpress_ingress (with_status w st)).metadata m
          → Kept
              (λ e.
                ingress_equal e (
                  ingress_patch e
                    (record (build_wordpress_ingress (with_status w st)) { metadata = m }))
                ≡ true)
              (C.get ingress (ingress_key C (with_status w st)) v).0
      pub ingress_gone :
          w.spec.ingress.enabled ≡ false
          → Gone
              (λ e. C.is_controlled_by e.metadata w.metadata ≡ false)
              (C.get ingress (ingress_key C (with_status w st)) v).0
      pub hpa_kept :
          (m : ObjectMeta K)
          → w.spec.autoscaling.enabled ≡ true
          → Owner (build_wordpress_hpa (with_status w st)).metadata m
          → Kept
              (λ e.
                hpa_equal e
                  (hpa_patch e (record (build_wordpress_hpa (with_status w st)) { metadata = m }))
                ≡ true)
              (C.get autoscaler (hpa_key C (with_status w st)) v).0
      pub hpa_gone :
          w.spec.autoscaling.enabled ≡ false
          → Gone
              (λ e. C.is_controlled_by e.metadata w.metadata ≡ false)
              (C.get autoscaler (hpa_key C (with_status w st)) v).0

    pub record UpToDate : Type 0 where
      pub database :
          (st : WordPressStatus K) (v : C.World)
          → w.spec.database.mode == database_mode_external ≡ false
          → Still v
          → DatabaseKept st v
      pub site : (st : WordPressStatus K) (v : C.World) → Still v → SiteKept st v
