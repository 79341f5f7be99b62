-- ===== src/Reconciler/Settled.antt =====
-- Updates of the owned objects: when they are sent.
use operator_wordpress.Base.{
  ◌⊎◌, ◌∙◌, false, String, ◌≡◌, refl, sym, ◌≢◌, Bool, true, Option, none, some, ◌∷◌, Bool-cases,
  inl, inr,
}
use mathlib.Core.Path.{subst}
use operator_wordpress.Kube.{Kube}
use operator_wordpress.Kube.Network.{Service, Ingress}
use operator_wordpress.Kube.Workloads.{Deployment, StatefulSet, HorizontalPodAutoscaler}
use operator_wordpress.Kube.Outcome.{ok, done}
use operator_wordpress.Cluster.{
  Cluster, Kind, Obj, service, deployment, stateful_set, ingress, autoscaler,
}
use operator_wordpress.Cluster.Action
use operator_wordpress.Cluster.Action.{State, Action, updated, ◌>>=◌, pure, check}
use operator_wordpress.Reconciler.{deployment_equal}
use operator_wordpress.Reconciler.Service.{service_patch, service_equal, apply_service_to}
use operator_wordpress.Reconciler.Site.{deployment_patch, ensure_deployment}
use operator_wordpress.Reconciler.Database.{
  stateful_set_patch, stateful_set_equal, ensure_stateful_set,
}
use operator_wordpress.Reconciler.Exposure.{
  ingress_patch, ingress_equal, ensure_ingress, ingress_configured, hpa_patch, hpa_equal,
  ensure_hpa,
}
use operator_wordpress.Reconciler.Patches.{
  service_equal_refl, service_equal-eq, deployment_equal_refl, deployment_equal-eq,
  stateful_set_equal_refl, stateful_set_equal-eq, ingress_equal_refl, ingress_equal-eq,
  hpa_equal_refl, hpa_equal-eq,
}

pub true-ne-false : true ≢ false
true-ne-false e = cc

equal_of_same {ℓ} :
    {A : Type ℓ} (test : A → A → Bool)
    → ((x : A) → test x x ≡ true)
    → (p x : A) → p ≡ x
    → test x p ≡ true
equal_of_same test reflexive p x same = subst (λ y. test x y ≡ true) (sym same) (reflexive x)

module _ {K : Kube} {C : Cluster K} {A : Type 0} where
  -- The check of an error writes nothing, nor does what follows it.
  pub check_then-log :
      (r : Option K.Error) (m : Action C A) (s : State C)
      → ((t : State C) → (m t).1.log ≡ t.log)
      → ((check r >>= λ _. m) s).1.log ≡ s.log
  unfolding check ◌>>=◌
  check_then-log none m s quiet = quiet s
  check_then-log (some e) m s quiet = refl

module _ {K : Kube} {C : Cluster K} where
  check-log : (r : Option K.Error) (s : State C) → (check r s).1.log ≡ s.log
  unfolding check
  check-log none s = refl
  check-log (some e) s = refl

  configured-log :
      (reason message : String) (t : State C)
      → (ingress_configured C reason message t).1.log ≡ t.log
  unfolding ingress_configured Action.set_condition
  configured-log reason message t = refl

differs_of {ℓ} :
    {A : Type ℓ} (test : A → A → Bool)
    → ((x : A) → test x x ≡ true)
    → (p x : A) → test x p ≡ false
    → p ≢ x
differs_of test reflexive p x e same =
    true-ne-false (sym (equal_of_same test reflexive p x same) ∙ e)

module _ {K : Kube} {C : Cluster K} where
  -- Either the patch is the existing object, and then `Idle` holds, or it differs, and then it is
  -- sent as an update and nothing else is.
  abbrev pub SentIfChanged : (k : Kind) → Obj K k → Obj K k → Type 0 → State C → State C → Type 0
  SentIfChanged k existing patch Idle s s' =
      ((patch ≡ existing) × Idle) ⊎ ((patch ≢ existing) × (s'.log ≡ updated k patch ∷ s.log))

module _ {K : Kube} (C : Cluster K) (s : State C) where
  -- An existing service is written exactly when its patch differs from it, and then as the patch
  -- and with no other write; otherwise nothing happens.
  pub apply_service_to_found :
      (desired existing : Service K)
      → SentIfChanged service existing
          (service_patch existing desired)
          (apply_service_to C desired (ok existing) s ≡ (done tt, s))
          s
          (apply_service_to C desired (ok existing) s).1
  unfolding apply_service_to Action.update ◌>>=◌
  apply_service_to_found desired existing =
      elim (Bool-cases (service_equal existing (service_patch existing desired))) [
        | inl e ↦ inl (service_equal-eq existing desired e, rw e refl)
        | inr e ↦ inr (differs_of service_equal service_equal_refl _ _ e, rw e (check-log _ _))
      ]

  -- An existing deployment is written exactly when its patch differs from it, and then as the patch
  -- and with no other write; otherwise nothing happens.
  pub ensure_deployment_found :
      (desired existing : Deployment K)
      → SentIfChanged deployment existing
          (deployment_patch existing desired)
          (ensure_deployment C desired (ok existing) s ≡ (done tt, s))
          s
          (ensure_deployment C desired (ok existing) s).1
  unfolding ensure_deployment Action.update ◌>>=◌
  ensure_deployment_found desired existing =
      elim (Bool-cases (deployment_equal existing (deployment_patch existing desired))) [
        | inl e ↦ inl (deployment_equal-eq existing desired e, rw e refl)
        | inr e ↦
            inr (differs_of deployment_equal deployment_equal_refl _ _ e, rw e (check-log _ _))
      ]

  -- An existing stateful set is written exactly when its patch differs from it, and then as the patch
  -- and with no other write; otherwise the step gives its ready replicas and
  -- changes nothing.
  pub ensure_stateful_set_found :
      (desired existing : StatefulSet K)
      → SentIfChanged stateful_set existing
          (stateful_set_patch existing desired)
          (ensure_stateful_set C desired (ok existing) s ≡ (done existing.status.ready_replicas, s))
          s
          (ensure_stateful_set C desired (ok existing) s).1
  unfolding ensure_stateful_set Action.update ◌>>=◌
  ensure_stateful_set_found desired existing =
      elim (Bool-cases (stateful_set_equal existing (stateful_set_patch existing desired))) [
        | inl e ↦ inl (stateful_set_equal-eq existing desired e, rw e refl)
        | inr e ↦ inr (
          differs_of stateful_set_equal stateful_set_equal_refl _ _ e,
          rw e (check_then-log _ _ _ (λ t. refl)),
        )
      ]

  -- An existing autoscaler is written exactly when its patch differs from it, and then as the patch
  -- and with no other write; otherwise nothing happens.
  pub ensure_hpa_found :
      (desired existing : HorizontalPodAutoscaler K)
      → SentIfChanged autoscaler existing
          (hpa_patch existing desired)
          (ensure_hpa C desired (ok existing) s ≡ (done tt, s))
          s
          (ensure_hpa C desired (ok existing) s).1
  unfolding ensure_hpa Action.update ◌>>=◌
  ensure_hpa_found desired existing =
      elim (Bool-cases (hpa_equal existing (hpa_patch existing desired))) [
        | inl e ↦ inl (hpa_equal-eq existing desired e, rw e refl)
        | inr e ↦ inr (differs_of hpa_equal hpa_equal_refl _ _ e, rw e (check-log _ _))
      ]

  -- An existing ingress is written exactly when its patch differs from it, and then as the patch
  -- and with no other write; otherwise nothing is written.
  pub ensure_ingress_found :
      (desired existing : Ingress K)
      → SentIfChanged ingress existing
          (ingress_patch existing desired)
          ((ensure_ingress C desired (ok existing) s).1.log ≡ s.log)
          s
          (ensure_ingress C desired (ok existing) s).1
  unfolding ensure_ingress Action.update ◌>>=◌
  ensure_ingress_found desired existing =
      elim (Bool-cases (ingress_equal existing (ingress_patch existing desired))) [
        | inl e ↦ inl (ingress_equal-eq existing desired e, rw e (configured-log _ _ s))
        | inr e ↦ inr (
          differs_of ingress_equal ingress_equal_refl _ _ e,
          rw e (check_then-log _ _ _ (configured-log _ _)),
        )
      ]
