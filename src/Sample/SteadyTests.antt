-- ===== src/Sample/SteadyTests.antt =====
-- The theorem about a pass over a site that is up to date, at a cluster that holds all its objects.
use operator_wordpress.Base.{String, ◌≡◌, refl, sym, true, false, List, [], ◌∷◌}
use operator_wordpress.Base.Int.{ℤ}
use mathlib.Core.Path.{subst}
use operator_wordpress.Kube.Meta.{ObjectMeta}
use operator_wordpress.Kube.Pods.{EnvVar}
use operator_wordpress.Kube.Workloads.{Deployment}
use operator_wordpress.Kube.Network.{Service, Ingress}
use operator_wordpress.Kube.Outcome.{Outcome, done}
use operator_wordpress.Api.{WordPress, WordPressStatus}
use operator_wordpress.Names.{wp_name, common_labels, selector_labels}
use operator_wordpress.Defaults.{
  apply_defaults, default_database, default_service, default_persistence, default_autoscaling,
}
use operator_wordpress.Database.Render.{resolved_db_host}
use operator_wordpress.Resources.{build_wordpress_service, build_wordpress_ingress}
use operator_wordpress.Resources.Deployment.{
  rolling_strategy, content_volume, init_containers, wordpress_template, wordpress_container,
  wordpress_envs, wait_for_db, wait_host, build_wordpress_deployment, env_from_external_db_secret,
}
use operator_wordpress.Cluster.Action
use operator_wordpress.Cluster.Action.{State}
use operator_wordpress.Cluster.Safe.{All}
use operator_wordpress.Reconciler.Loop.{reconcile}
use operator_wordpress.Reconciler.Rejected.{StatusOnly}
use operator_wordpress.Reconciler.Service.{service_patch}
use operator_wordpress.Reconciler.Site.{db_env, deployment_patch}
use operator_wordpress.Reconciler.Exposure.{ingress_patch}
use operator_wordpress.Reconciler.Patches.{
  service_equal_refl, deployment_equal_refl, ingress_equal_refl,
}
use operator_wordpress.Reconciler.Settled.{true-ne-false}
use operator_wordpress.Reconciler.Steady.{with_status}
use operator_wordpress.Reconciler.Steady.Desired.{Stays, UpToDate, SiteKept, Owner}
use operator_wordpress.Reconciler.Steady.Whole.{steady-StatusOnly}
use operator_wordpress.Sample.{kube}
use operator_wordpress.Sample.Memory.{World, memory, find, contains, owned_by}
use operator_wordpress.Sample.Laws.{memory-Retries}
use operator_wordpress.Sample.Objects.{key, remote, outside, holding}

abbrev plain : WordPress kube
plain = record remote {
  spec = record remote.spec {
    autoscaling = record remote.spec.autoscaling { enabled = false };
    persistence = record remote.spec.persistence { enabled = false };
  };
}

abbrev complete : WordPress kube
complete = apply_defaults plain

abbrev own : ObjectMeta kube → ObjectMeta kube
own = owned_by complete.metadata

abbrev site_service : Service kube
site_service = let s = build_wordpress_service complete in record s { metadata = own s.metadata }

abbrev site_deployment : Deployment kube
site_deployment =
    let d =
      build_wordpress_deployment complete outside.host outside.port
        (env_from_external_db_secret kube outside.password_secret) in
    record d { metadata = own d.metadata }

abbrev site_ingress : Ingress kube
site_ingress = let i = build_wordpress_ingress complete in record i { metadata = own i.metadata }

abbrev settled : World
settled = record (holding plain) {
  services = site_service ∷ [];
  deployments = site_deployment ∷ [];
  ingresses = site_ingress ∷ [];
}

abbrev Still : World → Type 0
Still v = v ≡ settled

stays : Stays memory Still
unfolding Action.event Action.emit_to
stays = record {
  get = λ k key v h. h;
  read_random = λ n v h. h;
  event = λ s type reason message h. h;
}

owned : (n m : ObjectMeta kube) → Owner memory Still complete n m → own n ≡ m
owned n m e = cc

off_on : {A : Type 0} → false ≡ true → A
off_on e = absurd (true-ne-false (sym e))

done_pair :
    (a b : String) (p q : ℤ)
    → ◌≡◌ {A = Outcome kube (String × ℤ)} (done (a, p)) (done (b, q))
    → (a ≡ b) × (p ≡ q)
done_pair a b p q e = (cc, cc)

done_one :
    (a b : List (EnvVar kube))
    → ◌≡◌ {A = Outcome kube (List (EnvVar kube))} (done a) (done b)
    → a ≡ b
done_one a b e = cc

resolved_host :
    (st : WordPressStatus kube) (host : String) (port : ℤ)
    → resolved_db_host (with_status complete st) ≡ done (host, port)
    → (outside.host ≡ host) × (outside.port ≡ port)
unfolding apply_defaults default_database resolved_db_host
resolved_host st host port e = done_pair outside.host host outside.port port e

secret_env :
    (st : WordPressStatus kube) (envs : List (EnvVar kube))
    → db_env (with_status complete st) ≡ done envs
    → env_from_external_db_secret kube outside.password_secret ≡ envs
unfolding apply_defaults default_database db_env
secret_env st envs e = done_one (env_from_external_db_secret kube outside.password_secret) envs e

site_kept : (st : WordPressStatus kube) → SiteKept memory Still complete st settled
unfolding apply_defaults default_database default_service default_persistence default_autoscaling
    find wp_name build_wordpress_service build_wordpress_deployment build_wordpress_ingress
    service_patch deployment_patch ingress_patch common_labels selector_labels rolling_strategy
    content_volume init_containers wordpress_template wordpress_container wordpress_envs wait_for_db
    wait_host
site_kept st = record {
  claim_kept = λ d m on built e. off_on on;
  deployment_kept = λ host port envs m resolved from e.
      let (h, p) = resolved_host st host port resolved in
      let site_meta =
        (build_wordpress_deployment complete outside.host outside.port
          (env_from_external_db_secret kube outside.password_secret)).metadata in
      rw (← h, ← p, ← secret_env st envs from, ← owned site_meta m e)
        (deployment_equal_refl site_deployment);
  service_kept = λ m e.
      rw (← owned (build_wordpress_service complete).metadata m e)
        (service_equal_refl site_service);
  ingress_kept = λ m on e.
      rw (← owned (build_wordpress_ingress complete).metadata m e)
        (ingress_equal_refl site_ingress);
  ingress_gone = λ off. off_on (sym off);
  hpa_kept = λ m on e. off_on on;
  hpa_gone = λ off. tt;
}

up_to_date : UpToDate memory Still complete
unfolding apply_defaults default_database
up_to_date = record {
  database = λ st v internal still. off_on (sym internal);
  site = λ st v still. subst (SiteKept memory Still complete st) (sym still) (site_kept st);
}

steady-StatusOnly_example : All StatusOnly (reconcile memory key settled).2
unfolding find contains
steady-StatusOnly_example =
    steady-StatusOnly memory Still stays memory-Retries key settled plain up_to_date refl refl refl
      refl
