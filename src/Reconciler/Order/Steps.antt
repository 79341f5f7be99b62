-- ===== src/Reconciler/Order/Steps.antt =====
-- The ranks of what each step on an owned object sends.
use operator_wordpress.Base.{ℕ, suc, String, ◌≡◌, refl, ap, ◌≤◌, ◌-◌, ◌==◌, true, false, arith}
use operator_wordpress.Base.StringMap.{index, get}
use operator_wordpress.Kube.{Kube}
use operator_wordpress.Kube.Outcome
use operator_wordpress.Kube.Outcome.{Answer, ok, err, Outcome, done}
use operator_wordpress.Kube.Network.{Service, Ingress}
use operator_wordpress.Kube.Workloads.{
  Secret, StatefulSet, Deployment, PersistentVolumeClaim, HorizontalPodAutoscaler,
}
use operator_wordpress.Kube.Meta.{ObjectMeta}
use operator_wordpress.Api.{WordPress}
use operator_wordpress.Names.{label_component, component_mysql, component_wordpress, common_labels}
use operator_wordpress.Cluster.{Cluster, service}
use operator_wordpress.Cluster.Action
use operator_wordpress.Cluster.Action.{State, Action, Call, created, updated, ◌>>=◌, continue}
use operator_wordpress.Cluster.Lawful.{Owns}
use operator_wordpress.Reconciler.Order.{place, Quiet, Emits}
use operator_wordpress.Reconciler.Order.Rules.{
  quiet_rules, emit_rules, Quiet-bind-Emits, Quiet-get, Quiet-get_wp, Emits-Quiet,
}
use operator_wordpress.Reconciler.Site.{ensure_pvc, ensure_deployment}
use operator_wordpress.Reconciler.Service.{
  service_patch, apply_service_to, apply_service, reconcile_wordpress_service,
}
use operator_wordpress.Reconciler.Database.{
  ensure_secret, reconcile_headless_service, ensure_stateful_set,
}
use operator_wordpress.Reconciler.Exposure.{
  forget_ingress, remove_ingress, ingress_configured, ensure_ingress, remove_hpa, ensure_hpa,
}
use operator_wordpress.Resources.{build_wordpress_service}
use operator_wordpress.Database.{build_mysql_headless_service}

pub le_self : (n : ℕ) → n ≤ n
le_self n = omega arith

pub le_next : (n : ℕ) → n ≤ suc n
le_next n = omega arith

pub ruleset place_facts = (le_self, le_next)

module _ {K : Kube} (C : Cluster K) where
  pub ensure_secret-Emits :
      (desired : Secret K) (found : Answer K (Secret K)) → Emits 0 1 (ensure_secret C desired found)
  unfolding ensure_secret
  ensure_secret-Emits desired (ok _) = search (emit_rules, place_facts)
  ensure_secret-Emits desired (err e) = search (emit_rules, place_facts)

  pub ensure_stateful_set-Emits :
      (desired : StatefulSet K) (found : Answer K (StatefulSet K))
      → Emits 2 3 (ensure_stateful_set C desired found)
  unfolding ensure_stateful_set
  ensure_stateful_set-Emits desired (ok existing) = search (emit_rules, place_facts)
  ensure_stateful_set-Emits desired (err e) = search (emit_rules, place_facts)

  pub ensure_pvc-Emits :
      (desired : PersistentVolumeClaim K) (found : Answer K (PersistentVolumeClaim K))
      → Emits 3 4 (ensure_pvc C desired found)
  unfolding ensure_pvc
  ensure_pvc-Emits desired (ok _) = search (emit_rules, place_facts)
  ensure_pvc-Emits desired (err e) = search (emit_rules, place_facts)

  pub ensure_deployment-Emits :
      (desired : Deployment K) (found : Answer K (Deployment K))
      → Emits 4 5 (ensure_deployment C desired found)
  unfolding ensure_deployment
  ensure_deployment-Emits desired (ok existing) = search (emit_rules, place_facts)
  ensure_deployment-Emits desired (err e) = search (emit_rules, place_facts)

  pub ingress_configured-Quiet :
      (reason message : String) → Quiet (ingress_configured C reason message)
  unfolding ingress_configured
  ingress_configured-Quiet reason message = search quiet_rules

  forget_ingress-Quiet : Quiet (forget_ingress C)
  unfolding forget_ingress
  forget_ingress-Quiet = search quiet_rules

  pub ensure_ingress-Emits :
      (desired : Ingress K) (found : Answer K (Ingress K))
      → Emits 6 7 (ensure_ingress C desired found)
  unfolding ensure_ingress
  ensure_ingress-Emits desired (ok existing) =
      search (emit_rules, place_facts, ingress_configured-Quiet)
  ensure_ingress-Emits desired (err e) = search (emit_rules, place_facts, ingress_configured-Quiet)

  pub remove_ingress-Emits :
      (wp : WordPress K) (found : Answer K (Ingress K)) → Emits 6 7 (remove_ingress C wp found)
  unfolding remove_ingress
  remove_ingress-Emits wp (ok existing) = search (emit_rules, place_facts)
  remove_ingress-Emits wp (err e) = search (emit_rules, place_facts, forget_ingress-Quiet)

  pub ensure_hpa-Emits :
      (desired : HorizontalPodAutoscaler K) (found : Answer K (HorizontalPodAutoscaler K))
      → Emits 7 8 (ensure_hpa C desired found)
  unfolding ensure_hpa
  ensure_hpa-Emits desired (ok existing) = search (emit_rules, place_facts)
  ensure_hpa-Emits desired (err e) = search (emit_rules, place_facts)

  pub remove_hpa-Emits :
      (wp : WordPress K) (found : Answer K (HorizontalPodAutoscaler K))
      → Emits 7 8 (remove_hpa C wp found)
  unfolding remove_hpa
  remove_hpa-Emits wp (ok existing) = search (emit_rules, place_facts)
  remove_hpa-Emits wp (err e) = search (emit_rules, place_facts)

  -- What follows may use that the owner reference leaves the labels.
  pub bind_own-Emits :
      {B : Type 0} {a b : ℕ}
      → Owns C
      → a ≤ b
      → (m : ObjectMeta K) (f : ObjectMeta K → Action C B)
      → ((m' : ObjectMeta K) → m'.labels ≡ m.labels → Emits a b (f m'))
      → Emits a b (Action.set_controller_reference C m >>= f)
  unfolding ◌>>=◌ Action.set_controller_reference
  bind_own-Emits {B} {a} {b} own h m f ef = record {
    le = h;
    at = λ s o.
        (continued (C.set_controller_reference s.wp.metadata m) (λ m' e.
            ef m' (ap (λ (x : ObjectMeta K). x.labels) (own.same s.wp.metadata m m' e)))).at
          s o;
  }
    where
      continued :
          (r : Answer K (ObjectMeta K))
          → ((m' : ObjectMeta K) → r ≡ ok m' → Emits a b (f m'))
          → Emits a b (continue (Outcome.lift r) f)
      continued (ok m') g = g m' refl
      continued (err e) g = Emits-Quiet h (record { at = λ s. refl })

  apply_service_to-Emits :
      {a b : ℕ} (desired : Service K) (found : Answer K (Service K))
      → a ≤ b
      → a ≤ place K service desired - 1
      → place K service desired ≤ b
      → Emits a b (apply_service_to C desired found)
  unfolding apply_service_to service_patch
  apply_service_to-Emits desired (ok existing) h low high = search emit_rules
  apply_service_to-Emits desired (err e) h low high = search emit_rules

  apply_service-Emits :
      {a b : ℕ} (desired : Service K)
      → a ≤ b
      → a ≤ place K service desired - 1
      → place K service desired ≤ b
      → Emits a b (apply_service C desired)
  unfolding apply_service
  apply_service-Emits desired h low high =
      Quiet-bind-Emits _ _ h (Quiet-get service _)
        (λ found. apply_service_to-Emits desired found h low high)

  mysql_place :
      (wp : WordPress K)
      → index (common_labels wp component_mysql) label_component == component_mysql ≡ true
  unfolding common_labels index get
  mysql_place wp = refl

  site_place :
      (wp : WordPress K)
      → index (common_labels wp component_wordpress) label_component == component_mysql ≡ false
  unfolding common_labels index get
  site_place wp = refl

  module _ (own : Owns C) where
    pub reconcile_headless_service-Emits :
        (wp : WordPress K) → Emits 1 2 (reconcile_headless_service C wp)
    unfolding reconcile_headless_service build_mysql_headless_service
    reconcile_headless_service-Emits wp = bind_own-Emits own (omega arith) _ _ λ m labels.
        let p : place K service (record (build_mysql_headless_service wp) { metadata = m }) ≡ 2 =
          simp (labels, mysql_place wp) refl in
        apply_service-Emits _ (omega arith) (omega (arith, p)) (omega (arith, p))

    pub reconcile_wordpress_service-Emits : Emits 5 6 (reconcile_wordpress_service C)
    unfolding reconcile_wordpress_service build_wordpress_service
    reconcile_wordpress_service-Emits = Quiet-bind-Emits _ _ (omega arith) Quiet-get_wp λ wp.
        bind_own-Emits own (omega arith) _ _ λ m labels.
          let p : place K service (record (build_wordpress_service wp) { metadata = m }) ≡ 6 =
            simp (labels, site_place wp) refl in
          apply_service-Emits _ (omega arith) (omega (arith, p)) (omega (arith, p))
