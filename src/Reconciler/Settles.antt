-- ===== src/Reconciler/Settles.antt =====
-- What a step of the controller has created or updated, the same step leaves alone afterwards: the
-- patches of the internal/controller package ask for nothing more on their own result.
use operator_wordpress.Base.{
  String, ◌==◌, if◌then◌else◌, ◌⊎◌, ◌≡◌, refl, sym, ◌≢◌, inl, inr, Bool-cases, eq_iff,
}
use operator_wordpress.Kube.{Kube}
use operator_wordpress.Kube.Network.{Service, Ingress}
use operator_wordpress.Kube.Workloads.{Deployment, StatefulSet, HorizontalPodAutoscaler}
use operator_wordpress.Kube.Outcome.{ok, done}
use operator_wordpress.Cluster.{Cluster}
use operator_wordpress.Cluster.Action.{State}
use operator_wordpress.Reconciler.Service.{service_patch, apply_service_to}
use operator_wordpress.Reconciler.Site.{deployment_patch, ensure_deployment}
use operator_wordpress.Reconciler.Database.{stateful_set_patch, ensure_stateful_set}
use operator_wordpress.Reconciler.Exposure.{ingress_patch, ensure_ingress, hpa_patch, ensure_hpa}
use operator_wordpress.Reconciler.Patches.{service_patch_idem}
use operator_wordpress.Reconciler.Settled.{
  apply_service_to_found, ensure_deployment_found, ensure_stateful_set_found, ensure_ingress_found,
  ensure_hpa_found,
}

-- The assignment of the cluster address keeps its value.
kept_address : (ip : String) → (if ip == "None" then "None" else ip) ≡ ip
kept_address ip = elim (Bool-cases (ip == "None")) [
  | inl e ↦ rw e (sym ((eq_iff ip "None").0 e))
  | inr e ↦ rw e refl
]

module _ {K : Kube} where
  service_patch_self : (desired : Service K) → service_patch desired desired ≡ desired
  unfolding service_patch
  service_patch_self desired = rw (kept_address desired.spec.cluster_ip) refl

  deployment_patch_idem :
      (existing desired : Deployment K)
      → deployment_patch (deployment_patch existing desired) desired
        ≡ deployment_patch existing desired
  unfolding deployment_patch
  deployment_patch_idem existing desired = refl

  stateful_set_patch_idem :
      (existing desired : StatefulSet K)
      → stateful_set_patch (stateful_set_patch existing desired) desired
        ≡ stateful_set_patch existing desired
  unfolding stateful_set_patch
  stateful_set_patch_idem existing desired = refl

  ingress_patch_idem :
      (existing desired : Ingress K)
      → ingress_patch (ingress_patch existing desired) desired ≡ ingress_patch existing desired
  unfolding ingress_patch
  ingress_patch_idem existing desired = refl

  hpa_patch_idem :
      (existing desired : HorizontalPodAutoscaler K)
      → hpa_patch (hpa_patch existing desired) desired ≡ hpa_patch existing desired
  unfolding hpa_patch
  hpa_patch_idem existing desired = refl

idle_of_same {ℓ} :
    {A : Type ℓ} {Idle Sent : Type 0} {existing patch : A}
    → ((patch ≡ existing) × Idle) ⊎ ((patch ≢ existing) × Sent)
    → patch ≡ existing
    → Idle
idle_of_same (inl (_, idle)) same = idle
idle_of_same (inr (differs, _)) same = absurd (differs same)

module _ {K : Kube} {C : Cluster K} where
  -- In any state, a step that finds its own patch of an older object, or the very object that it
  -- would create, succeeds and sends nothing: for the Service, the Deployment, the StatefulSet and
  -- the autoscaler the state stays as it is, and for the Ingress the writes do.
  pub steps_settle :
      (s : State C) (svc old_svc : Service K) (dep old_dep : Deployment K)
      (set old_set : StatefulSet K) (ing old_ing : Ingress K)
      (hpa old_hpa : HorizontalPodAutoscaler K)
      → (apply_service_to C svc (ok (service_patch old_svc svc)) s ≡ (done tt, s))
        × (apply_service_to C svc (ok svc) s ≡ (done tt, s))
        × (ensure_deployment C dep (ok (deployment_patch old_dep dep)) s ≡ (done tt, s))
        × (ensure_deployment C dep (ok dep) s ≡ (done tt, s))
        × (ensure_stateful_set C set (ok (stateful_set_patch old_set set)) s
            ≡ (done old_set.status.ready_replicas, s))
        × (ensure_stateful_set C set (ok set) s ≡ (done set.status.ready_replicas, s))
        × ((ensure_ingress C ing (ok (ingress_patch old_ing ing)) s).1.log ≡ s.log)
        × ((ensure_ingress C ing (ok ing) s).1.log ≡ s.log)
        × (ensure_hpa C hpa (ok (hpa_patch old_hpa hpa)) s ≡ (done tt, s))
        × (ensure_hpa C hpa (ok hpa) s ≡ (done tt, s))
  unfolding deployment_patch stateful_set_patch ingress_patch hpa_patch
  steps_settle s svc old_svc dep old_dep set old_set ing old_ing hpa old_hpa = (
    idle_of_same (apply_service_to_found C s svc _) (service_patch_idem old_svc svc),
    idle_of_same (apply_service_to_found C s svc svc) (service_patch_self svc),
    idle_of_same (ensure_deployment_found C s dep _) (deployment_patch_idem old_dep dep),
    idle_of_same (ensure_deployment_found C s dep dep) refl,
    idle_of_same (ensure_stateful_set_found C s set _) (stateful_set_patch_idem old_set set),
    idle_of_same (ensure_stateful_set_found C s set set) refl,
    idle_of_same (ensure_ingress_found C s ing _) (ingress_patch_idem old_ing ing),
    idle_of_same (ensure_ingress_found C s ing ing) refl,
    idle_of_same (ensure_hpa_found C s hpa _) (hpa_patch_idem old_hpa hpa),
    idle_of_same (ensure_hpa_found C s hpa hpa) refl,
  )
