-- ===== src/Reconciler/Patches.antt =====
-- The comparisons that guard the updates: each is an equality of the existing object and its patch.
use operator_wordpress.Base.{
  ◌≡◌, refl, ◌↔◌, true, Option, none, some, arith, deep_equal_iff, deep_equal_refl, eq_refl,
}
use operator_wordpress.Base.Int.{ℤ, eqb_ℤ_iff}
use operator_wordpress.Base.StringMap.{StringMap-discrete}
use operator_wordpress.Kube.{Kube}
use operator_wordpress.Kube.Pods.{PodTemplateSpec-discrete}
use operator_wordpress.Kube.Network.{Service, ServiceSpec-discrete, Ingress, IngressSpec-discrete}
use operator_wordpress.Kube.Workloads.{
  Deployment, DeploymentStrategy-discrete, StatefulSet, HorizontalPodAutoscaler,
  HorizontalPodAutoscalerSpec-discrete,
}
use operator_wordpress.Reconciler.{equal_int32_ptr, deployment_equal}
use operator_wordpress.Reconciler.Service.{service_patch, service_equal}
use operator_wordpress.Reconciler.Site.{deployment_patch}
use operator_wordpress.Reconciler.Database.{stateful_set_patch, stateful_set_equal}
use operator_wordpress.Reconciler.Exposure.{ingress_patch, ingress_equal, hpa_patch, hpa_equal}

-- Go's comparison of two optional numbers is equality.
pub equal_int32_ptr_iff : (a b : Option ℤ) → (equal_int32_ptr a b ≡ true) ↔ (a ≡ b)
unfolding equal_int32_ptr
equal_int32_ptr_iff none none = (λ _. refl, λ _. refl)
equal_int32_ptr_iff none (some b) = (λ h. cc, λ h. cc)
equal_int32_ptr_iff (some a) none = (λ h. cc, λ h. cc)
equal_int32_ptr_iff (some a) (some b) =
    (λ h. ground (arith, (eqb_ℤ_iff a b).0 h), λ h. ground (arith, eqb_ℤ_iff a b))

module _ {K : Kube} where
  pub service_equal_refl : (x : Service K) → service_equal x x ≡ true
  unfolding service_equal
  service_equal_refl x = simp deep_equal_refl

  pub service_equal-eq :
      (existing desired : Service K)
      → service_equal existing (service_patch existing desired) ≡ true
      → service_patch existing desired ≡ existing
  unfolding service_equal service_patch
  service_equal-eq existing desired h = ground (
    arith,
    (deep_equal_iff (ServiceSpec-discrete K) existing.spec (service_patch existing desired).spec),
    (deep_equal_iff StringMap-discrete existing.metadata.labels desired.metadata.labels),
    (deep_equal_iff StringMap-discrete existing.metadata.annotations desired.metadata.annotations),
  )

  pub service_patch_idem :
      (existing desired : Service K)
      → service_patch (service_patch existing desired) desired ≡ service_patch existing desired
  unfolding service_patch
  service_patch_idem existing desired = ground (arith, eq_refl "None")

  pub deployment_equal_refl : (x : Deployment K) → deployment_equal x x ≡ true
  unfolding deployment_equal
  deployment_equal_refl x =
      simp (deep_equal_refl, (equal_int32_ptr_iff x.spec.replicas x.spec.replicas).1 refl)

  pub deployment_equal-eq :
      (existing desired : Deployment K)
      → deployment_equal existing (deployment_patch existing desired) ≡ true
      → deployment_patch existing desired ≡ existing
  unfolding deployment_equal deployment_patch
  deployment_equal-eq existing desired h = ground (
    arith,
    (deep_equal_iff StringMap-discrete existing.metadata.labels desired.metadata.labels),
    (equal_int32_ptr_iff existing.spec.replicas desired.spec.replicas),
    (deep_equal_iff (DeploymentStrategy-discrete K) existing.spec.strategy desired.spec.strategy),
    (deep_equal_iff (PodTemplateSpec-discrete K) existing.spec.template desired.spec.template),
  )

  pub stateful_set_equal_refl : (x : StatefulSet K) → stateful_set_equal x x ≡ true
  unfolding stateful_set_equal
  stateful_set_equal_refl x =
      simp (deep_equal_refl, (equal_int32_ptr_iff x.spec.replicas x.spec.replicas).1 refl)

  pub stateful_set_equal-eq :
      (existing desired : StatefulSet K)
      → stateful_set_equal existing (stateful_set_patch existing desired) ≡ true
      → stateful_set_patch existing desired ≡ existing
  unfolding stateful_set_equal stateful_set_patch
  stateful_set_equal-eq existing desired h = ground (
    arith,
    (equal_int32_ptr_iff existing.spec.replicas desired.spec.replicas),
    (deep_equal_iff (PodTemplateSpec-discrete K) existing.spec.template desired.spec.template),
  )

  pub ingress_equal_refl : (x : Ingress K) → ingress_equal x x ≡ true
  unfolding ingress_equal
  ingress_equal_refl x = simp deep_equal_refl

  pub ingress_equal-eq :
      (existing desired : Ingress K)
      → ingress_equal existing (ingress_patch existing desired) ≡ true
      → ingress_patch existing desired ≡ existing
  unfolding ingress_equal ingress_patch
  ingress_equal-eq existing desired h = ground (
    arith,
    (deep_equal_iff (IngressSpec-discrete K) existing.spec desired.spec),
    (deep_equal_iff StringMap-discrete existing.metadata.labels desired.metadata.labels),
    (deep_equal_iff StringMap-discrete existing.metadata.annotations desired.metadata.annotations),
  )

  pub hpa_equal_refl : (x : HorizontalPodAutoscaler K) → hpa_equal x x ≡ true
  unfolding hpa_equal
  hpa_equal_refl x = simp deep_equal_refl

  pub hpa_equal-eq :
      (existing desired : HorizontalPodAutoscaler K)
      → hpa_equal existing (hpa_patch existing desired) ≡ true
      → hpa_patch existing desired ≡ existing
  unfolding hpa_equal hpa_patch
  hpa_equal-eq existing desired h = ground (
    arith,
    (deep_equal_iff (HorizontalPodAutoscalerSpec-discrete K) existing.spec desired.spec),
    (deep_equal_iff StringMap-discrete existing.metadata.labels desired.metadata.labels),
  )
