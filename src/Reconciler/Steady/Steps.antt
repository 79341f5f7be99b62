-- ===== src/Reconciler/Steady/Steps.antt =====
-- The steps of a pass over a site that is up to date write nothing.
use operator_wordpress.Base.{String, ◌≡◌, refl, true, false, Option, none, some}
use operator_wordpress.Base.Int.{ℤ}
use operator_wordpress.Kube.{Kube}
use operator_wordpress.Kube.Network.{Service, Ingress}
use operator_wordpress.Kube.Workloads.{
  Secret, StatefulSet, Deployment, PersistentVolumeClaim, HorizontalPodAutoscaler,
}
use operator_wordpress.Kube.Outcome.{Answer, ok, err}
use operator_wordpress.Api.{WordPress, WordPressStatus, ExternalDatabaseSpec}
use operator_wordpress.Cluster.{Cluster, secret, service}
use operator_wordpress.Cluster.Action
use operator_wordpress.Cluster.Action.{State, Action, ◌>>=◌, pure, fail, lift}
use operator_wordpress.Reconciler.{deployment_equal}
use operator_wordpress.Reconciler.Service.{
  service_patch, service_equal, apply_service_to, apply_service,
}
use operator_wordpress.Reconciler.Site.{deployment_patch, ensure_pvc, ensure_deployment}
use operator_wordpress.Reconciler.Database.{
  ensure_secret, stateful_set_patch, stateful_set_equal, ensure_stateful_set, database_ready,
  database_not_ready, verify_secret, reconcile_external, report_readiness,
}
use operator_wordpress.Reconciler.Exposure.{
  ingress_patch, ingress_equal, hpa_patch, hpa_equal, forget_ingress, remove_ingress,
  ingress_configured, ensure_ingress, remove_hpa, ensure_hpa,
}
use operator_wordpress.Reconciler.Steady.{with_status, Kept, Gone, Calm, Idle}
use operator_wordpress.Reconciler.Steady.Rules.{
  idle_rules, Idle-pure, Idle-fail, Idle-if, Idle-lift, Idle-get, Idle-modify_status,
  Idle-set_condition,
}
use operator_wordpress.Reconciler.Steady.Desired.{Stays, ServiceKept}

module _ {K : Kube} (C : Cluster K) (Still : C.World → Type 0) (w : WordPress K) where
  abbrev StillStep : {A : Type 0} → Action C A → Type 0
  StillStep m = Idle Still w m

  pub ensure_secret-Idle :
      (desired : Secret K) (found : Answer K (Secret K))
      → Kept (λ _. Unit) found
      → StillStep (ensure_secret C desired found)
  unfolding ensure_secret
  ensure_secret-Idle desired (ok _) h = Idle-pure tt
  ensure_secret-Idle desired (err e) h = rw h (Idle-fail _)

  pub ensure_pvc-Idle :
      (desired : PersistentVolumeClaim K) (found : Answer K (PersistentVolumeClaim K))
      → Kept (λ _. Unit) found
      → StillStep (ensure_pvc C desired found)
  unfolding ensure_pvc
  ensure_pvc-Idle desired (ok _) h = Idle-pure tt
  ensure_pvc-Idle desired (err e) h = rw h (Idle-fail _)

  apply_service_to-Idle :
      (desired : Service K) (found : Answer K (Service K))
      → Kept (λ e. service_equal e (service_patch e desired) ≡ true) found
      → StillStep (apply_service_to C desired found)
  unfolding apply_service_to
  apply_service_to-Idle desired (ok e) h = rw h (Idle-pure tt)
  apply_service_to-Idle desired (err e) h = rw h (Idle-fail _)

  pub ensure_stateful_set-Idle :
      (desired : StatefulSet K) (found : Answer K (StatefulSet K))
      → Kept (λ e. stateful_set_equal e (stateful_set_patch e desired) ≡ true) found
      → StillStep (ensure_stateful_set C desired found)
  unfolding ensure_stateful_set
  ensure_stateful_set-Idle desired (ok e) h = rw h (Idle-pure _)
  ensure_stateful_set-Idle desired (err e) h = rw h (Idle-fail _)

  pub ensure_deployment-Idle :
      (desired : Deployment K) (found : Answer K (Deployment K))
      → Kept (λ e. deployment_equal e (deployment_patch e desired) ≡ true) found
      → StillStep (ensure_deployment C desired found)
  unfolding ensure_deployment
  ensure_deployment-Idle desired (ok e) h = rw h (Idle-pure tt)
  ensure_deployment-Idle desired (err e) h = rw h (Idle-fail _)

  configured-Idle : (reason message : String) → StillStep (ingress_configured C reason message)
  unfolding ingress_configured
  configured-Idle reason message = Idle-set_condition _ _ _ _

  pub ensure_ingress-Idle :
      (desired : Ingress K) (found : Answer K (Ingress K))
      → Kept (λ e. ingress_equal e (ingress_patch e desired) ≡ true) found
      → StillStep (ensure_ingress C desired found)
  unfolding ensure_ingress
  ensure_ingress-Idle desired (ok e) h = rw h (configured-Idle _ _)
  ensure_ingress-Idle desired (err e) h = rw h (Idle-fail _)

  pub remove_ingress-Idle :
      (st : WordPressStatus K) (found : Answer K (Ingress K))
      → Gone (λ e. C.is_controlled_by e.metadata w.metadata ≡ false) found
      → StillStep (remove_ingress C (with_status w st) found)
  unfolding remove_ingress forget_ingress
  remove_ingress-Idle st (ok e) h = rw h (Idle-pure tt)
  remove_ingress-Idle st (err e) h = Idle-if _ _ _ (Idle-modify_status _) (Idle-fail _)

  pub ensure_hpa-Idle :
      (desired : HorizontalPodAutoscaler K) (found : Answer K (HorizontalPodAutoscaler K))
      → Kept (λ e. hpa_equal e (hpa_patch e desired) ≡ true) found
      → StillStep (ensure_hpa C desired found)
  unfolding ensure_hpa
  ensure_hpa-Idle desired (ok e) h = rw h (Idle-pure tt)
  ensure_hpa-Idle desired (err e) h = rw h (Idle-fail _)

  pub remove_hpa-Idle :
      (st : WordPressStatus K) (found : Answer K (HorizontalPodAutoscaler K))
      → Gone (λ e. C.is_controlled_by e.metadata w.metadata ≡ false) found
      → StillStep (remove_hpa C (with_status w st) found)
  unfolding remove_hpa
  remove_hpa-Idle st (ok e) h = rw h (Idle-pure tt)
  remove_hpa-Idle st (err e) h = Idle-if _ _ _ (Idle-pure tt) (Idle-fail _)

  database_ready-Idle : (reason message : String) → StillStep (database_ready C reason message)
  unfolding database_ready
  database_ready-Idle reason message = Idle-set_condition _ _ _ _

  database_not_ready-Idle :
      (reason message : String) → StillStep (database_not_ready C reason message)
  unfolding database_not_ready
  database_not_ready-Idle reason message = Idle-set_condition _ _ _ _

  pub report_readiness-Idle : (n : ℤ) → StillStep (report_readiness C n)
  unfolding report_readiness
  report_readiness-Idle n = search (idle_rules, database_ready-Idle, database_not_ready-Idle)

  emit_to-Idle :
      (recorder : Option (WordPress K → String → String → String → C.World → C.World))
      (type reason message : String) (s : State C)
      → Calm Still w s
      → Still (Action.emit_to recorder type reason message s).1.world
      → ((Action.emit_to {C = C} recorder type reason message s).1.log ≡ s.log)
        × Calm Still w (Action.emit_to {C = C} recorder type reason message s).1
  unfolding Action.emit_to
  emit_to-Idle none type reason message s c h = (refl, c)
  emit_to-Idle (some emit) type reason message s c h = (refl, (h, c.1))

  module _ (stays : Stays C Still) where
    event-Idle : (type reason message : String) → StillStep (Action.event C type reason message)
    unfolding Action.event
    event-Idle type reason message = record {
      at = λ s c.
          emit_to-Idle C.recorder type reason message s c (stays.event s type reason message c.0);
    }

    verify_secret-Idle :
        (e : ExternalDatabaseSpec) (found : Answer K (Secret K))
        → StillStep (verify_secret C e found)
    unfolding verify_secret
    verify_secret-Idle e (ok _) = search (idle_rules, database_ready-Idle)
    verify_secret-Idle e (err x) = search (idle_rules, database_not_ready-Idle, event-Idle)

    pub reconcile_external-Idle : (wp : WordPress K) → StillStep (reconcile_external C wp)
    unfolding reconcile_external
    reconcile_external-Idle wp =
        Idle-lift _ _ λ e _. Idle-get stays.get secret _ _ λ v still. verify_secret-Idle e _

    pub apply_service-Idle :
        (desired : Service K)
        → ((v : C.World) → Still v → ServiceKept C Still desired v)
        → StillStep (apply_service C desired)
    unfolding apply_service
    apply_service-Idle desired h =
        Idle-get stays.get service _ _ λ v still. apply_service_to-Idle desired _ (h v still)
