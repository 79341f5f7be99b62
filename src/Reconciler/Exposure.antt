-- ===== src/Reconciler/Exposure.antt =====
-- internal/controller/wordpress_controller.go: `reconcileIngress` and `reconcileHPA`.
use operator_wordpress.Base.{String, if◌then◌else◌, Bool, ◌&&◌, deep_equal}
use operator_wordpress.Base.StringMap.{StringMap-discrete}
use operator_wordpress.Kube.{Kube}
use operator_wordpress.Kube.Meta.{NamespacedName}
use operator_wordpress.Kube.Workloads.{
  HorizontalPodAutoscaler, HorizontalPodAutoscalerSpec-discrete,
}
use operator_wordpress.Kube.Network.{Ingress, IngressSpec-discrete}
use operator_wordpress.Kube.Outcome.{Answer, ok, err, external}
use operator_wordpress.Api.{WordPress, condition_type_ingress_configured}
use operator_wordpress.Names.{wp_name, hpa_name}
use operator_wordpress.Resources.{build_wordpress_ingress, build_wordpress_hpa}
use operator_wordpress.Cluster.{Cluster, ingress, autoscaler}
use operator_wordpress.Cluster.Action
use operator_wordpress.Cluster.Action.{
  Action, pure, fail, check, get_wp, modify_status, ◌>>=◌, ◌>>◌,
}

module _ {K : Kube} where
  unfoldable pub ingress_patch : Ingress K → Ingress K → Ingress K
  ingress_patch existing desired = record existing {
    metadata = record existing.metadata {
      labels = desired.metadata.labels;
      annotations = desired.metadata.annotations;
    };
    spec = desired.spec;
  }

  unfoldable pub ingress_equal : Ingress K → Ingress K → Bool
  ingress_equal existing patch =
      deep_equal (IngressSpec-discrete K) existing.spec patch.spec
      && (deep_equal StringMap-discrete existing.metadata.labels patch.metadata.labels
          && deep_equal StringMap-discrete existing.metadata.annotations patch.metadata.annotations)

  unfoldable pub hpa_patch :
      HorizontalPodAutoscaler K → HorizontalPodAutoscaler K → HorizontalPodAutoscaler K
  hpa_patch existing desired = record existing {
    metadata = record existing.metadata { labels = desired.metadata.labels };
    spec = desired.spec;
  }

  unfoldable pub hpa_equal : HorizontalPodAutoscaler K → HorizontalPodAutoscaler K → Bool
  hpa_equal existing patch =
      deep_equal (HorizontalPodAutoscalerSpec-discrete K) existing.spec patch.spec
      && deep_equal StringMap-discrete existing.metadata.labels patch.metadata.labels

module _ {K : Kube} (C : Cluster K) where
  -- `meta.RemoveStatusCondition(&wp.Status.Conditions, ConditionTypeIngressConfigured)`
  unfoldable pub forget_ingress : Action C (Unit {0})
  forget_ingress = modify_status (λ st. record st {
    conditions = C.remove_status_condition st.conditions condition_type_ingress_configured;
  })

  unfoldable pub remove_ingress : WordPress K → Answer K (Ingress K) → Action C (Unit {0})
  remove_ingress wp (err e) = if K.is_not_found e then forget_ingress else fail (external e)
  remove_ingress wp (ok existing) =
      if C.is_controlled_by existing.metadata wp.metadata
      then (do r ← Action.delete C ingress existing; check r)
      else pure tt

  unfoldable pub ingress_configured : String → String → Action C (Unit {0})
  ingress_configured = Action.set_condition C condition_type_ingress_configured "True"

  unfoldable pub ensure_ingress : Ingress K → Answer K (Ingress K) → Action C (Unit {0})
  unfolding ingress_patch ingress_equal
  ensure_ingress desired (err e) =
      if K.is_not_found e
      then (do
        r ← Action.create C ingress desired
        check r
        ingress_configured "Created" "Ingress created")
      else fail (external e)
  ensure_ingress desired (ok existing) =
      let patch = ingress_patch existing desired in
      if ingress_equal existing patch
      then ingress_configured "Reconciled" "Ingress is up-to-date"
      else (do
        r ← Action.update C ingress patch
        check r
        ingress_configured "Reconciled" "Ingress is up-to-date")

  abbrev pub ingress_key : WordPress K → NamespacedName
  ingress_key wp = record { namespace = wp.metadata.namespace; name = wp_name wp }

  unfoldable pub disable_ingress : WordPress K → Action C (Unit {0})
  unfolding remove_ingress
  disable_ingress wp = do found ← Action.get C ingress (ingress_key wp); remove_ingress wp found

  unfoldable pub enable_ingress : WordPress K → Action C (Unit {0})
  unfolding ensure_ingress
  enable_ingress wp = do
    let desired = build_wordpress_ingress wp
    m ← Action.set_controller_reference C desired.metadata
    found ← Action.get C ingress (ingress_key wp)
    ensure_ingress (record desired { metadata = m }) found

  unfoldable pub reconcile_ingress : Action C (Unit {0})
  unfolding disable_ingress enable_ingress
  reconcile_ingress = do
    wp ← get_wp
    if wp.spec.ingress.enabled then enable_ingress wp else disable_ingress wp

  unfoldable pub remove_hpa :
      WordPress K → Answer K (HorizontalPodAutoscaler K) → Action C (Unit {0})
  remove_hpa wp (err e) = if K.is_not_found e then pure tt else fail (external e)
  remove_hpa wp (ok existing) =
      if C.is_controlled_by existing.metadata wp.metadata
      then (do r ← Action.delete C autoscaler existing; check r)
      else pure tt

  unfoldable pub ensure_hpa :
      HorizontalPodAutoscaler K → Answer K (HorizontalPodAutoscaler K) → Action C (Unit {0})
  unfolding hpa_patch hpa_equal
  ensure_hpa desired (err e) =
      if K.is_not_found e
      then (do r ← Action.create C autoscaler desired; check r)
      else fail (external e)
  ensure_hpa desired (ok existing) =
      let patch = hpa_patch existing desired in
      if hpa_equal existing patch
      then pure tt
      else (do r ← Action.update C autoscaler patch; check r)

  abbrev pub hpa_key : WordPress K → NamespacedName
  hpa_key wp = record { namespace = wp.metadata.namespace; name = hpa_name wp }

  unfoldable pub disable_hpa : WordPress K → Action C (Unit {0})
  unfolding remove_hpa
  disable_hpa wp = do found ← Action.get C autoscaler (hpa_key wp); remove_hpa wp found

  unfoldable pub enable_hpa : WordPress K → Action C (Unit {0})
  unfolding ensure_hpa
  enable_hpa wp = do
    let desired = build_wordpress_hpa wp
    m ← Action.set_controller_reference C desired.metadata
    found ← Action.get C autoscaler (hpa_key wp)
    ensure_hpa (record desired { metadata = m }) found

  unfoldable pub reconcile_hpa : Action C (Unit {0})
  unfolding disable_hpa enable_hpa
  reconcile_hpa = do
    wp ← get_wp
    if wp.spec.autoscaling.enabled then enable_hpa wp else disable_hpa wp
