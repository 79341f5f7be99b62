-- ===== src/Reconciler/Progress.antt =====
-- internal/controller/wordpress_controller.go: `updateStatus`.
use operator_wordpress.Base.{◌<>◌, if◌then◌else◌, Bool, ◌&&◌}
use operator_wordpress.Base.Int.{pos, ltb_ℤ, eqb_ℤ}
use operator_wordpress.Base.Text.{show_ℤ}
use operator_wordpress.Kube.{Kube}
use operator_wordpress.Kube.Workloads.{Deployment, DeploymentStatus}
use operator_wordpress.Kube.Outcome.{Answer, ok, err, external}
use operator_wordpress.Api.{
  phase_ready, phase_provisioning, condition_type_ready, condition_type_database_ready,
  condition_type_deployment_ready,
}
use operator_wordpress.Names.{wp_name}
use operator_wordpress.Cluster.{Cluster, deployment}
use operator_wordpress.Cluster.Action
use operator_wordpress.Cluster.Action.{Action, pure, fail, get_wp, modify_status, ◌>>=◌, ◌>>◌}
use operator_wordpress.Reconciler.{compute_url, persist_status}

module _ {K : Kube} where
  unfoldable pub deployment_ready : DeploymentStatus K → Bool
  deployment_ready d = ltb_ℤ (pos 0) d.ready_replicas && eqb_ℤ d.ready_replicas d.replicas

  abbrev pub no_status : DeploymentStatus K
  no_status = record { replicas = pos 0; ready_replicas = pos 0; rest = K.rest }

module _ {K : Kube} (C : Cluster K) where
  -- The deployment's status, zero when there is no deployment.
  unfoldable pub observed_status : Answer K (Deployment K) → Action C (DeploymentStatus K)
  observed_status (ok d) = pure d.status
  observed_status (err e) = if K.is_not_found e then pure no_status else fail (external e)

  unfoldable pub report_deployment : DeploymentStatus K → Action C (Unit {0})
  unfolding deployment_ready
  report_deployment d =
      if deployment_ready d
      then Action.set_condition C condition_type_deployment_ready "True" "AllReplicasReady"
          "All WordPress replicas are ready"
      else Action.set_condition C condition_type_deployment_ready "False" "Progressing"
          (show_ℤ d.ready_replicas <> "/" <> show_ℤ d.replicas <> " replicas ready")

  unfoldable pub report_phase : Bool → Action C (Unit {0})
  report_phase ready =
      if ready
      then (do
        modify_status (λ st. record st { phase = phase_ready })
        Action.set_condition C condition_type_ready "True" "AllReady"
            "WordPress and its database are ready")
      else (do
        modify_status (λ st. record st { phase = phase_provisioning })
        Action.set_condition C condition_type_ready "False" "Progressing"
            "Resources are still being provisioned")

  -- Everything of `updateStatus` between the `Get` and the write.
  unfoldable pub compute_status : DeploymentStatus K → Action C (Unit {0})
  unfolding report_deployment report_phase
  compute_status d = do
    wp ← get_wp
    modify_status (λ st. record st {
      replicas = d.replicas;
      ready_replicas = d.ready_replicas;
      observed_generation = wp.metadata.generation;
    })
    report_deployment d
    seen ← get_wp
    let db_ready = C.is_status_condition_true seen.status.conditions condition_type_database_ready
    report_phase (db_ready && deployment_ready d)
    modify_status (λ st. record st { url = compute_url wp })

  unfoldable pub update_status : Action C (Unit {0})
  unfolding observed_status compute_status
  update_status = do
    wp ← get_wp
    found ←
        Action.get C deployment (record { namespace = wp.metadata.namespace; name = wp_name wp })
    d ← observed_status found
    compute_status d
    persist_status C
