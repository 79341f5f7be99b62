-- ===== src/Reconciler/First/Steps.antt =====
-- What each step of the pass that makes all objects creates.
use operator_wordpress.Base.{ℕ, suc, Bool-cases, String, ◌≡◌, refl, sym, ap, ◌∷◌, inl, inr}
use operator_wordpress.Base.Int.{ℤ, pos, ltb_ℤ}
use mathlib.Core.Path.{subst}
use operator_wordpress.Kube.{Kube}
use operator_wordpress.Kube.Meta.{NamespacedName, ObjectMeta, object_key}
use operator_wordpress.Kube.Network.{Service, Ingress}
use operator_wordpress.Kube.Workloads.{
  Secret, StatefulSet, Deployment, PersistentVolumeClaim, HorizontalPodAutoscaler,
}
use operator_wordpress.Kube.Outcome.{Answer, ok, err}
use operator_wordpress.Api.{WordPress}
use operator_wordpress.Cluster.{
  Cluster, Kind, secret, service, stateful_set, deployment, claim, ingress, autoscaler,
}
use operator_wordpress.Cluster.Action
use operator_wordpress.Cluster.Action.{State, Action, pure, ◌>>=◌}
use operator_wordpress.Cluster.Lawful.{Owns}
use operator_wordpress.Reconciler.{no_requeue}
use operator_wordpress.Reconciler.Service.{apply_service_to, apply_service}
use operator_wordpress.Reconciler.Site.{ensure_pvc, ensure_deployment}
use operator_wordpress.Reconciler.Database.{
  ensure_secret, ensure_stateful_set, database_ready, database_not_ready, report_readiness,
}
use operator_wordpress.Reconciler.Exposure.{
  forget_ingress, remove_ingress, ingress_configured, ensure_ingress, remove_hpa, ensure_hpa,
}
use operator_wordpress.Reconciler.First.{Child, child, Adds, Bare, Absent}
use operator_wordpress.Reconciler.First.Rules.{
  Any, Adds-pure, Adds-check, Adds-modify_status, Adds-set_condition, Adds-bind, Adds-get,
  Adds-create,
}

module _ {K : Kube} (C : Cluster K) (Still : ℕ → C.World → Type 0) (w : WordPress K)
    (bare : Bare C Still w) where
  abbrev pub Creates : {A : Type 0} → ℕ → Kind → String → (A → Type 0) → Action C A → Type 0
  Creates n k name Q m = Adds Still w n (suc n) (λ l. child w k name ∷ l) Q m

  abbrev pub Nothing : {A : Type 0} → ℕ → Action C A → Type 0
  Nothing n m = Adds Still w n n (λ l. l) Any m

  pub ensure_secret-Adds :
      {n : ℕ} {name : String} (here : Child w n secret name) (o : Secret K)
      (found : Answer K (Secret K))
      → object_key o.metadata ≡ (child w secret name).1
      → Absent found
      → Creates n secret name Any (ensure_secret C o found)
  unfolding ensure_secret
  ensure_secret-Adds here o (err e) same h = rw h (Adds-create bare _ _ here _ _ same Adds-check)
  ensure_secret-Adds here o (ok x) same h = absurd h

  pub ensure_pvc-Adds :
      {n : ℕ} {name : String} (here : Child w n claim name) (o : PersistentVolumeClaim K)
      (found : Answer K (PersistentVolumeClaim K))
      → object_key o.metadata ≡ (child w claim name).1
      → Absent found
      → Creates n claim name Any (ensure_pvc C o found)
  unfolding ensure_pvc
  ensure_pvc-Adds here o (err e) same h = rw h (Adds-create bare _ _ here _ _ same Adds-check)
  ensure_pvc-Adds here o (ok x) same h = absurd h

  pub apply_service_to-Adds :
      {n : ℕ} {name : String} (here : Child w n service name) (o : Service K)
      (found : Answer K (Service K))
      → object_key o.metadata ≡ (child w service name).1
      → Absent found
      → Creates n service name Any (apply_service_to C o found)
  unfolding apply_service_to
  apply_service_to-Adds here o (err e) same h = rw h (Adds-create bare _ _ here _ _ same Adds-check)
  apply_service_to-Adds here o (ok x) same h = absurd h

  pub ensure_deployment-Adds :
      {n : ℕ} {name : String} (here : Child w n deployment name) (o : Deployment K)
      (found : Answer K (Deployment K))
      → object_key o.metadata ≡ (child w deployment name).1
      → Absent found
      → Creates n deployment name Any (ensure_deployment C o found)
  unfolding ensure_deployment
  ensure_deployment-Adds here o (err e) same h =
      rw h (Adds-create bare _ _ here _ _ same Adds-check)
  ensure_deployment-Adds here o (ok x) same h = absurd h

  pub ensure_stateful_set-Adds :
      {n : ℕ} {name : String} (here : Child w n stateful_set name) (o : StatefulSet K)
      (found : Answer K (StatefulSet K))
      → object_key o.metadata ≡ (child w stateful_set name).1
      → Absent found
      → Creates n stateful_set name Any (ensure_stateful_set C o found)
  unfolding ensure_stateful_set
  ensure_stateful_set-Adds here o (err e) same h =
      rw h (Adds-create bare _ _ here _ _ same (Adds-bind Adds-check (λ _ _. Adds-pure _ tt)))
  ensure_stateful_set-Adds here o (ok x) same h = absurd h

  pub ensure_ingress-Adds :
      {n : ℕ} {name : String} (here : Child w n ingress name) (o : Ingress K)
      (found : Answer K (Ingress K))
      → object_key o.metadata ≡ (child w ingress name).1
      → Absent found
      → Creates n ingress name Any (ensure_ingress C o found)
  unfolding ensure_ingress ingress_configured
  ensure_ingress-Adds here o (err e) same h = rw h (
      Adds-create bare _ _ here _ _ same (Adds-bind Adds-check (λ _ _. Adds-set_condition _ _ _ _)))
  ensure_ingress-Adds here o (ok x) same h = absurd h

  pub ensure_hpa-Adds :
      {n : ℕ} {name : String} (here : Child w n autoscaler name) (o : HorizontalPodAutoscaler K)
      (found : Answer K (HorizontalPodAutoscaler K))
      → object_key o.metadata ≡ (child w autoscaler name).1
      → Absent found
      → Creates n autoscaler name Any (ensure_hpa C o found)
  unfolding ensure_hpa
  ensure_hpa-Adds here o (err e) same h = rw h (Adds-create bare _ _ here _ _ same Adds-check)
  ensure_hpa-Adds here o (ok x) same h = absurd h

  pub remove_ingress-Adds :
      {n : ℕ} (wp : WordPress K) (found : Answer K (Ingress K))
      → Absent found
      → Nothing n (remove_ingress C wp found)
  unfolding remove_ingress forget_ingress
  remove_ingress-Adds wp (err e) h = rw h (Adds-modify_status _)
  remove_ingress-Adds wp (ok x) h = absurd h

  pub remove_hpa-Adds :
      {n : ℕ} (wp : WordPress K) (found : Answer K (HorizontalPodAutoscaler K))
      → Absent found
      → Nothing n (remove_hpa C wp found)
  unfolding remove_hpa
  remove_hpa-Adds wp (err e) h = rw h (Adds-pure tt tt)
  remove_hpa-Adds wp (ok x) h = absurd h

  pub told-Adds :
      {n : ℕ} (type status reason message : String)
      → Adds Still w n n
          (λ l. l)
          (λ r. r ≡ no_requeue)
          (Action.set_condition C type status reason message >>= λ _. pure no_requeue)
  told-Adds type status reason message =
      Adds-bind (Adds-set_condition _ _ _ _) (λ _ _. Adds-pure no_requeue refl)

  pub report_readiness-Adds :
      {p : ℕ} (n : ℤ) → Adds Still w p p (λ l. l) (λ r. r ≡ no_requeue) (report_readiness C n)
  unfolding report_readiness database_ready database_not_ready
  report_readiness-Adds n = elim (Bool-cases (ltb_ℤ n (pos 1))) [
    | inl e ↦ rw e (told-Adds _ _ _ _)
    | inr e ↦ rw e (told-Adds _ _ _ _)
  ]

  -- A read at a key that is the given one.
  pub Absent-at :
      (k : Kind) (key key' : NamespacedName) (v : C.World)
      → key ≡ key'
      → Absent (C.get k key' v).0
      → Absent (C.get k key v).0
  Absent-at k key key' v e h = subst (λ x. Absent (C.get k x v).0) (sym e) h

  module _ (own : Owns C) where
    pub owned_key :
        (m m' : ObjectMeta K)
        → C.set_controller_reference w.metadata m ≡ ok m'
        → object_key m' ≡ object_key m
    owned_key m m' e = ap object_key (own.same w.metadata m m' e)

    -- A service under the key of its metadata, which the owner reference leaves.
    pub apply_service-Adds :
        {n : ℕ} {name : String} (here : Child w n service name) (o : Service K)
        → object_key o.metadata ≡ (child w service name).1
        → Creates n service name Any (apply_service C o)
    unfolding apply_service
    apply_service-Adds {n} {name} here o same = Adds-get bare service _ _ λ v still.
        apply_service_to-Adds here o _ same
          (Absent-at service _ (child w service name).1 v same (bare.absent n _ _ here v still))
