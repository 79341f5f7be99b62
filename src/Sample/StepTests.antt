-- ===== src/Sample/StepTests.antt =====
-- The theorems about single steps at concrete states.
use operator_wordpress.Base.{◌≢◌, ◌≡◌, refl, none, some, [], ◌∷◌}
use operator_wordpress.Base.Int.{pos}
use operator_wordpress.Base.StringMap.{index}
use operator_wordpress.Kube.Workloads.{
  Deployment, DeploymentStatus, StatefulSet, HorizontalPodAutoscaler,
}
use operator_wordpress.Kube.Network.{Service, Ingress}
use operator_wordpress.Kube.Outcome.{done, ok}
use operator_wordpress.Api.{WordPress, empty_internal}
use operator_wordpress.Names.{wp_name, db_service_name, selector_labels, component_wordpress}
use operator_wordpress.Kube.Meta.{object_key}
use operator_wordpress.Reconciler.Overwritten.{database_service_overwritten}
use operator_wordpress.Database.{build_mysql_headless_service}
use operator_wordpress.Database.Render.{mysql_stateful_set}
use operator_wordpress.Resources.{
  build_wordpress_service, build_wordpress_ingress, build_wordpress_hpa,
}
use operator_wordpress.Resources.Deployment.{build_wordpress_deployment}
use operator_wordpress.Cluster.{service, deployment, stateful_set, ingress}
use operator_wordpress.Cluster.Action
use operator_wordpress.Cluster.Action.{◌>>=◌, pure, State, updated}
use operator_wordpress.Reconciler.{persist_status, persist_once, write_status}
use operator_wordpress.Reconciler.Service.{service_patch, apply_service_to, apply_service}
use operator_wordpress.Reconciler.Site.{
  db_env, deployment_patch, ensure_deployment, reconcile_wordpress_deployment,
}
use operator_wordpress.Reconciler.Database.{stateful_set_patch, ensure_stateful_set}
use operator_wordpress.Reconciler.Exposure.{ingress_patch, ensure_ingress, hpa_patch, ensure_hpa}
use operator_wordpress.Reconciler.Progress.{compute_status}
use operator_wordpress.Reconciler.Deletion.{clean_up, finish_deletion}
use operator_wordpress.Database.Render.{resolved_db_host}
use operator_wordpress.Reconciler.Settled.{
  SentIfChanged, apply_service_to_found, ensure_deployment_found, ensure_stateful_set_found,
  ensure_ingress_found,
}
use operator_wordpress.Reconciler.Settles.{steps_settle}
use operator_wordpress.Reconciler.Status.{
  compute_status-Reported, Reported, SentLast, persist_status-SentLast,
}
use operator_wordpress.Reconciler.Failures.{
  finish_deletion_lem, Finishes, autoscaled_deployment_lem,
}
use operator_wordpress.Sample.{kube}
use operator_wordpress.Sample.Memory.{World, memory, find, attempt, unless_conflict}
use operator_wordpress.Sample.Laws.{memory-Retries, memory-Tracks}
use operator_wordpress.Sample.Objects.{blog, doomed, remote, state, holding}

abbrev desired : Deployment kube
desired = build_wordpress_deployment blog "db" (pos 3306) []

abbrev scaled : Deployment kube
scaled = record desired { spec = record desired.spec { replicas = some (pos 3) } }

abbrev up : DeploymentStatus kube
up = record { replicas = pos 1; ready_replicas = pos 1; rest = none }

compute_status-Reported_example :
    ((compute_status memory up (state blog)).0 ≡ done tt)
    × Reported memory up (state blog) (compute_status memory up (state blog)).1
compute_status-Reported_example = compute_status-Reported memory memory-Tracks up (state blog)

persist_status-SentLast_example :
    SentLast memory memory-Retries blog.status (persist_status memory (state blog)).1.log
unfolding persist_status persist_once write_status find attempt unless_conflict Action.check
persist_status-SentLast_example = persist_status-SentLast memory memory-Retries (state blog) refl

finish_deletion_lem_example :
    Finishes memory doomed (done tt) (state doomed) (finish_deletion memory doomed (state doomed))
unfolding clean_up index find Action.get ◌>>=◌ pure
finish_deletion_lem_example =
    finish_deletion_lem memory doomed (state doomed) (state doomed) (done tt) refl

abbrev scaled_world : World
scaled_world = record (holding remote) {
  deployments = record scaled { metadata = record scaled.metadata { rest = some "blog" } } ∷ [];
}

abbrev scaled_state : State memory
scaled_state = record { wp = remote; world = scaled_world; log = [] }

autoscaled_deployment_lem_example :
    (sent : Deployment kube) × (sent.spec.replicas ≡ none)
    × ((reconcile_wordpress_deployment memory scaled_state).1.log ≡ updated deployment sent ∷ [])
unfolding resolved_db_host db_env find build_wordpress_deployment wp_name
autoscaled_deployment_lem_example =
    autoscaled_deployment_lem memory scaled_state "db.example.com" (pos 3306) _ _ _ (pos 3) refl
      refl refl refl refl refl

abbrev old_service : Service kube
old_service = build_mysql_headless_service blog

abbrev site : Service kube
site = build_wordpress_service blog

apply_service_to_found_example :
    SentIfChanged service old_service
      (service_patch old_service site)
      (apply_service_to memory site (ok old_service) (state blog) ≡ (done tt, state blog))
      (state blog)
      (apply_service_to memory site (ok old_service) (state blog)).1
apply_service_to_found_example = apply_service_to_found memory (state blog) site old_service

ensure_deployment_found_example :
    SentIfChanged deployment scaled
      (deployment_patch scaled desired)
      (ensure_deployment memory desired (ok scaled) (state blog) ≡ (done tt, state blog))
      (state blog)
      (ensure_deployment memory desired (ok scaled) (state blog)).1
ensure_deployment_found_example = ensure_deployment_found memory (state blog) desired scaled

abbrev database_set : StatefulSet kube
database_set = mysql_stateful_set blog (empty_internal kube) "5Gi"

ensure_stateful_set_found_example :
    SentIfChanged stateful_set database_set
      (stateful_set_patch database_set database_set)
      (ensure_stateful_set memory database_set (ok database_set) (state blog)
        ≡ (done database_set.status.ready_replicas, state blog))
      (state blog)
      (ensure_stateful_set memory database_set (ok database_set) (state blog)).1
ensure_stateful_set_found_example =
    ensure_stateful_set_found memory (state blog) database_set database_set

abbrev scaler : HorizontalPodAutoscaler kube
scaler = build_wordpress_hpa blog

abbrev route : Ingress kube
route = build_wordpress_ingress blog

ensure_ingress_found_example :
    SentIfChanged ingress route
      (ingress_patch route route)
      ((ensure_ingress memory route (ok route) (state blog)).1.log ≡ [])
      (state blog)
      (ensure_ingress memory route (ok route) (state blog)).1
ensure_ingress_found_example = ensure_ingress_found memory (state blog) route route

abbrev old_set : StatefulSet kube
old_set = record database_set { spec = record database_set.spec { replicas = some (pos 3) } }

abbrev old_route : Ingress kube
old_route = record route {
  metadata = record route.metadata { labels = scaler.metadata.annotations };
}

abbrev old_scaler : HorizontalPodAutoscaler kube
old_scaler = record scaler {
  metadata = record scaler.metadata { labels = scaler.metadata.annotations };
}

steps_settle_example :
    (apply_service_to memory site (ok (service_patch old_service site)) (state blog)
      ≡ (done tt, state blog))
    × (apply_service_to memory site (ok site) (state blog) ≡ (done tt, state blog))
    × (ensure_deployment memory desired (ok (deployment_patch scaled desired)) (state blog)
        ≡ (done tt, state blog))
    × (ensure_deployment memory desired (ok desired) (state blog) ≡ (done tt, state blog))
    × (ensure_stateful_set memory database_set
          (ok (stateful_set_patch old_set database_set))
          (state blog)
        ≡ (done old_set.status.ready_replicas, state blog))
    × (ensure_stateful_set memory database_set (ok database_set) (state blog)
        ≡ (done database_set.status.ready_replicas, state blog))
    × ((ensure_ingress memory route (ok (ingress_patch old_route route)) (state blog)).1.log ≡ [])
    × ((ensure_ingress memory route (ok route) (state blog)).1.log ≡ [])
    × (ensure_hpa memory scaler (ok (hpa_patch old_scaler scaler)) (state blog)
        ≡ (done tt, state blog))
    × (ensure_hpa memory scaler (ok scaler) (state blog) ≡ (done tt, state blog))
steps_settle_example =
    steps_settle (state blog) site old_service desired scaled database_set old_set route old_route
      scaler old_scaler

abbrev twin : WordPress kube
twin = record blog { metadata = record blog.metadata { name = "blog-mysql" } }

abbrev shared_world : World
shared_world = record (holding twin) { services = old_service ∷ [] }

abbrev shared_state : State memory
shared_state = record { wp = twin; world = shared_world; log = [] }

database_service_overwritten_example :
    (sent : Service kube) × ((apply_service memory
        (build_wordpress_service twin)
        shared_state).1.log
      ≡ updated service sent ∷ [])
    × (object_key sent.metadata ≡ object_key old_service.metadata)
    × (sent.spec.selector ≡ selector_labels twin component_wordpress)
    × (sent.spec.selector ≢ old_service.spec.selector)
unfolding find wp_name db_service_name build_wordpress_service build_mysql_headless_service
database_service_overwritten_example =
    database_service_overwritten memory blog twin old_service shared_state refl refl refl refl refl
