-- ===== src/Reconciler/Steady/Whole.antt =====
-- A whole pass over a site that is up to date.
use operator_wordpress.Base.{String, ◌≡◌, refl, sym, true, Option, none, some}
use mathlib.Core.Path.{subst}
use operator_wordpress.Kube.{Kube}
use operator_wordpress.Kube.Meta.{NamespacedName}
use operator_wordpress.Kube.Outcome.{ok}
use operator_wordpress.Api.{WordPress}
use operator_wordpress.Names.{wordpress_finalizer}
use operator_wordpress.Defaults.{apply_defaults}
use operator_wordpress.Validation.{validate_spec}
use operator_wordpress.Cluster.{Cluster, wordpress}
use operator_wordpress.Cluster.Action.{◌>>=◌, handle, get_wp, set_wp}
use operator_wordpress.Cluster.Lawful.{Retries}
use operator_wordpress.Cluster.Safe.{All, Safe-bind, Safe-pure}
use operator_wordpress.Reconciler.{Result}
use operator_wordpress.Reconciler.Rejected.{StatusOnly}
use operator_wordpress.Reconciler.Persist.{ignore_conflict-Safe}
use operator_wordpress.Reconciler.Safety.Whole.{start}
use operator_wordpress.Reconciler.Safety.Ending.{
  update_status-Safe, requeue_unless_ready-Safe, persist-Safe, database_failed-Safe,
  reject_spec-Safe,
}
use operator_wordpress.Reconciler.Loop.{
  reconcile_site, reconcile_rest, after_database, reconcile_valid, act_on, reconcile_live,
  reconcile_found, reconcile_answer, reconcile,
}
use operator_wordpress.Reconciler.Steady.{Mild}
use operator_wordpress.Reconciler.Steady.Rules.{
  Free, Mild-Safe, Mild-if, Mild-bind, Mild-then, Mild-branch, Mild-settle,
}
use operator_wordpress.Reconciler.Steady.Desired.{Stays, UpToDate}
use operator_wordpress.Reconciler.Steady.Passes.{
  reconcile_database-Idle, reconcile_pvc-Idle, reconcile_wordpress_deployment-Idle,
  reconcile_site_service-Idle, reconcile_ingress-Idle, reconcile_hpa-Idle,
}

module _ {K : Kube} (C : Cluster K) where
  pub reconcile_found_of_live :
      (wp : WordPress K) (v : C.World)
      → K.is_zero wp.metadata.deletion_timestamp ≡ true
      → C.contains_finalizer wp.metadata wordpress_finalizer ≡ true
      → reconcile_found C (start C wp v)
        ≡ act_on C (validate_spec (apply_defaults wp)) (start C (apply_defaults wp) v)
  unfolding reconcile_found reconcile_live ◌>>=◌ get_wp set_wp
  reconcile_found_of_live wp v live held = rw live (rw held refl)

module _ {K : Kube} (C : Cluster K) (Still : C.World → Type 0) (stays : Stays C Still)
    (retries : Retries C) where
  module _ (w : WordPress K) (current : UpToDate C Still w) where
    reconcile_site-Mild : Mild Still w (reconcile_site C)
    unfolding reconcile_site
    reconcile_site-Mild = Mild-bind (reconcile_pvc-Idle C Still w stays current) λ _.
        Mild-bind (reconcile_wordpress_deployment-Idle C Still w stays current) λ _.
          Mild-bind (reconcile_site_service-Idle C Still w stays current) λ _.
            Mild-bind (reconcile_ingress-Idle C Still w stays current) λ _.
              Mild-bind (reconcile_hpa-Idle C Still w stays current)
                λ _. Mild-Safe (update_status-Safe C Free _ (λ wp st h. tt) (λ o. tt) retries)

    reconcile_rest-Mild : Mild Still w (reconcile_rest C)
    unfolding reconcile_rest handle
    reconcile_rest-Mild =
        Mild-settle
          (Mild-then reconcile_site-Mild
            λ _. requeue_unless_ready-Safe C Free _ (λ wp st h. tt) (λ o. tt) retries)
          (λ r. Safe-pure r) (λ e. ignore_conflict-Safe C Free _ _ e)

    after_database-Mild : (res : Result) → Mild Still w (after_database C res)
    unfolding after_database
    after_database-Mild res = Mild-if _ _ _ reconcile_rest-Mild (
        Mild-Safe (
          Safe-bind _ _ (persist-Safe C Free _ (λ wp st h. tt) (λ o. tt) retries)
            (λ _. Safe-pure res)))

    act_on-Mild : (verdict : Option String) → Mild Still w (act_on C verdict)
    unfolding act_on reconcile_valid
    act_on-Mild none =
        Mild-branch (reconcile_database-Idle C Still w stays current) after_database-Mild
          (λ e. Mild-Safe (database_failed-Safe C Free _ (λ wp st h. tt) (λ o. tt) retries e))
    act_on-Mild (some message) =
        Mild-Safe (reject_spec-Safe C Free _ (λ wp st h. tt) (λ o. tt) retries message)

  -- A pass over a live object with the finalizer writes nothing but the status, when the objects
  -- that it asks for are there and need no patch, and those that it would delete are not there:
  -- UpToDate holds of the object with its defaults, in worlds that reads and events do not leave.
  -- Retries holds.
  pub steady-StatusOnly :
      (request : NamespacedName) (v : C.World) (wp : WordPress K)
      → UpToDate C Still (apply_defaults wp)
      → Still (C.get wordpress request v).1
      → (C.get wordpress request v).0 ≡ ok wp
      → K.is_zero wp.metadata.deletion_timestamp ≡ true
      → C.contains_finalizer wp.metadata wordpress_finalizer ≡ true
      → All StatusOnly (reconcile C request v).2
  unfolding reconcile reconcile_answer
  steady-StatusOnly request v wp current still found live held =
      let u = (C.get wordpress request v).1 in
      let pass = act_on-Mild (apply_defaults wp) current (validate_spec (apply_defaults wp)) in
      rw found (
        subst (λ r. All StatusOnly r.1.log) (sym (reconcile_found_of_live C wp u live held))
          (pass.at (start C (apply_defaults wp) u) (still, refl) tt))
