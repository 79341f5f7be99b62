-- ===== src/Reconciler/Safety/Exposure.antt =====
-- The steps for the ingress and the autoscaler.
use operator_wordpress.Base.{String, ◌≡◌, true, false}
use operator_wordpress.Kube.{Kube}
use operator_wordpress.Kube.Network.{Ingress}
use operator_wordpress.Kube.Workloads.{HorizontalPodAutoscaler}
use operator_wordpress.Kube.Outcome.{Answer, ok, err}
use operator_wordpress.Api.{WordPress}
use operator_wordpress.Cluster.{Cluster, ingress, autoscaler}
use operator_wordpress.Cluster.Action.{Action, created, deleted}
use operator_wordpress.Cluster.Lawful.{Owns}
use operator_wordpress.Cluster.Safe.{
  Safe, Safe-if, Safe-bind-get_wp, Safe-bind-get, Safe-bind-own, Safe-modify_status,
  Safe-set_condition, safe_rules,
}
use operator_wordpress.Reconciler.Calls.{Same, Permitted, Owned-of_own, Same-status, Same-namespace}
use operator_wordpress.Resources.{build_wordpress_ingress, build_wordpress_hpa}
use operator_wordpress.Reconciler.Exposure.{
  forget_ingress, ingress_configured, remove_ingress, ensure_ingress, disable_ingress,
  enable_ingress, reconcile_ingress, remove_hpa, ensure_hpa, disable_hpa, enable_hpa, reconcile_hpa,
}

module _ {K : Kube} (C : Cluster K) (w : WordPress K) where
  abbrev Step : {A : Type 0} → Action C A → Type 0
  Step m = Safe (Same w) (Permitted C w) m

  forget_ingress-Safe : Step (forget_ingress C)
  unfolding forget_ingress
  forget_ingress-Safe = Safe-modify_status (Same-status C w) _

  ingress_configured-Safe : (reason message : String) → Step (ingress_configured C reason message)
  unfolding ingress_configured
  ingress_configured-Safe reason message = Safe-set_condition (Same-status C w) _ _ reason message

  remove_ingress-Safe :
      (wp : WordPress K) (found : Answer K (Ingress K))
      → Same w wp
      → w.spec.ingress.enabled ≡ false
      → Step (remove_ingress C wp found)
  unfolding remove_ingress
  remove_ingress-Safe wp (ok existing) same off =
      let allowed : C.is_controlled_by existing.metadata wp.metadata ≡ true
          → Permitted C w (deleted ingress existing) =
        λ mine. (off, rw same.metadata at mine) in
      search (safe_rules, allowed)
  remove_ingress-Safe wp (err e) same off = search (safe_rules, forget_ingress-Safe)

  disable_ingress-Safe :
      (wp : WordPress K) → Same w wp → w.spec.ingress.enabled ≡ false → Step (disable_ingress C wp)
  unfolding disable_ingress
  disable_ingress-Safe wp same off =
      Safe-bind-get ingress _ _ λ found. remove_ingress-Safe wp found same off

  ensure_ingress-Safe :
      (desired : Ingress K) (found : Answer K (Ingress K))
      → Permitted C w (created ingress desired)
      → w.spec.ingress.enabled ≡ true
      → Step (ensure_ingress C desired found)
  unfolding ensure_ingress
  ensure_ingress-Safe desired (ok existing) p on = search (safe_rules, ingress_configured-Safe)
  ensure_ingress-Safe desired (err e) p on = search (safe_rules, ingress_configured-Safe)

  remove_hpa-Safe :
      (wp : WordPress K) (found : Answer K (HorizontalPodAutoscaler K))
      → Same w wp
      → w.spec.autoscaling.enabled ≡ false
      → Step (remove_hpa C wp found)
  unfolding remove_hpa
  remove_hpa-Safe wp (ok existing) same off =
      let allowed : C.is_controlled_by existing.metadata wp.metadata ≡ true
          → Permitted C w (deleted autoscaler existing) =
        λ mine. (off, rw same.metadata at mine) in
      search (safe_rules, allowed)
  remove_hpa-Safe wp (err e) same off = search (safe_rules)

  disable_hpa-Safe :
      (wp : WordPress K) → Same w wp → w.spec.autoscaling.enabled ≡ false → Step (disable_hpa C wp)
  unfolding disable_hpa
  disable_hpa-Safe wp same off =
      Safe-bind-get autoscaler _ _ λ found. remove_hpa-Safe wp found same off

  ensure_hpa-Safe :
      (desired : HorizontalPodAutoscaler K) (found : Answer K (HorizontalPodAutoscaler K))
      → Permitted C w (created autoscaler desired)
      → w.spec.autoscaling.enabled ≡ true
      → Step (ensure_hpa C desired found)
  unfolding ensure_hpa
  ensure_hpa-Safe desired (ok existing) p on = search (safe_rules)
  ensure_hpa-Safe desired (err e) p on = search (safe_rules)

  module _ (own : Owns C) where
    enable_ingress-Safe :
        (wp : WordPress K) → Same w wp → w.spec.ingress.enabled ≡ true → Step (enable_ingress C wp)
    unfolding enable_ingress build_wordpress_ingress
    enable_ingress-Safe wp same on = Safe-bind-own _ _ λ wp' m same' e.
        Safe-bind-get ingress _ _ λ found.
          ensure_ingress-Safe _ found
            (on, Owned-of_own C w own wp' _ m same' (Same-namespace C w wp same) e) on

    pub reconcile_ingress-Safe : Step (reconcile_ingress C)
    unfolding reconcile_ingress
    reconcile_ingress-Safe = Safe-bind-get_wp _ λ wp same.
        Safe-if wp.spec.ingress.enabled _ _ (λ on. enable_ingress-Safe wp same (rw same.spec at on))
          (λ off. disable_ingress-Safe wp same (rw same.spec at off))

    enable_hpa-Safe :
        (wp : WordPress K) → Same w wp → w.spec.autoscaling.enabled ≡ true → Step (enable_hpa C wp)
    unfolding enable_hpa build_wordpress_hpa
    enable_hpa-Safe wp same on = Safe-bind-own _ _ λ wp' m same' e.
        Safe-bind-get autoscaler _ _ λ found.
          ensure_hpa-Safe _ found
            (on, Owned-of_own C w own wp' _ m same' (Same-namespace C w wp same) e) on

    pub reconcile_hpa-Safe : Step (reconcile_hpa C)
    unfolding reconcile_hpa
    reconcile_hpa-Safe = Safe-bind-get_wp _ λ wp same.
        Safe-if wp.spec.autoscaling.enabled _ _ (λ on. enable_hpa-Safe wp same (rw same.spec at on))
          (λ off. disable_hpa-Safe wp same (rw same.spec at off))
