-- ===== src/Reconciler/First/Whole.antt =====
-- The whole pass over an object of which nothing exists yet.
use operator_wordpress.Base.{ℕ, ◌≡◌, refl, sym, true, none}
use mathlib.Core.Path.{subst}
use operator_wordpress.Kube.{Kube}
use operator_wordpress.Kube.Meta.{NamespacedName}
use operator_wordpress.Kube.Outcome.{ok}
use operator_wordpress.Api.{WordPress, database_mode_external}
use operator_wordpress.Names.{wordpress_finalizer}
use operator_wordpress.Defaults.{apply_defaults}
use operator_wordpress.Validation.{validate_spec}
use operator_wordpress.Validation.Laws.{HasDatabase, HasDatabase-of_accepted}
use operator_wordpress.Base.{◌==◌, ◌∷◌}
use operator_wordpress.Cluster.{Cluster, wordpress, service, deployment}
use operator_wordpress.Cluster.Action.{handle}
use operator_wordpress.Cluster.Lawful.{Owns, Retries}
use operator_wordpress.Names.{wp_name}
use operator_wordpress.Reconciler.{Result, no_requeue}
use operator_wordpress.Reconciler.Safety.Whole.{start}
use operator_wordpress.Reconciler.Order.Rules.{Quiet-pure}
use operator_wordpress.Reconciler.Order.Whole.{requeue_unless_ready-Quiet, ignore_conflict-Quiet}
use operator_wordpress.Reconciler.Loop.{
  reconcile_site, reconcile_rest, after_database, reconcile_valid, act_on, reconcile_answer,
  reconcile,
}
use operator_wordpress.Reconciler.Steady.Whole.{reconcile_found_of_live}
use operator_wordpress.Reconciler.First.{
  additions, Bare, child, requested, database_children, claim_children, ingress_children,
  hpa_children,
}
use operator_wordpress.Reconciler.First.Rules.{Children}
use operator_wordpress.Reconciler.First.Ending.{
  Makes, Plain-Quiet, Makes-then, Makes-branch, Makes-bind, Makes-value, Makes-Plain,
  update_status-Plain,
}
use operator_wordpress.Reconciler.First.Passes.{
  reconcile_database-Adds, reconcile_pvc-Adds, reconcile_wordpress_deployment-Adds,
  reconcile_site_service-Adds, reconcile_ingress-Adds, reconcile_hpa-Adds,
}

module _ {K : Kube} (C : Cluster K) (Still : ℕ → C.World → Type 0) (retries : Retries C)
    (own : Owns C) where
  module _ (w : WordPress K) (bare : Bare C Still w) (there : HasDatabase w.spec.database) where
    abbrev site_children : Children → Children
    site_children l = hpa_children w (
        ingress_children w
          (child w service (wp_name w) ∷ child w deployment (wp_name w) ∷ claim_children w l))

    reconcile_site-Makes : Makes (Still 3) w site_children (reconcile_site C)
    unfolding reconcile_site
    reconcile_site-Makes = Makes-bind (reconcile_pvc-Adds C Still w bare own) λ _ _.
        Makes-bind (reconcile_wordpress_deployment-Adds C Still w bare own there) λ _ _.
          Makes-bind (reconcile_site_service-Adds C Still w bare own) λ _ _.
            Makes-bind (reconcile_ingress-Adds C Still w bare own) λ _ _.
              Makes-bind (reconcile_hpa-Adds C Still w bare own)
                λ _ _. Makes-Plain (update_status-Plain C retries)

    reconcile_rest-Makes : Makes (Still 3) w site_children (reconcile_rest C)
    unfolding reconcile_rest handle
    reconcile_rest-Makes =
        Makes-branch
          (Makes-then reconcile_site-Makes (λ _. Plain-Quiet (requeue_unless_ready-Quiet C)))
          (λ r. Plain-Quiet (Quiet-pure r)) (λ e. Plain-Quiet (ignore_conflict-Quiet C _ e))

    after_database-Makes :
        (r : Result) → r ≡ no_requeue → Makes (Still 3) w site_children (after_database C r)
    unfolding after_database
    after_database-Makes r e =
        subst (λ r. Makes (Still 3) w site_children (after_database C r)) (sym e)
          reconcile_rest-Makes

    reconcile_valid-Makes :
        Makes
          (Still 0)
          w
          (λ l.
            site_children (database_children w (w.spec.database.mode == database_mode_external) l))
          (reconcile_valid C)
    unfolding reconcile_valid
    reconcile_valid-Makes =
        Makes-value _ (reconcile_database-Adds C Still w bare own there) after_database-Makes

  -- A pass over a live object that carries the finalizer and has a valid spec, and of which nothing
  -- exists yet, creates exactly the objects that the defaulted spec asks for, under their names and
  -- in the order Secret, database Service, stateful set, content claim, Deployment, the site's
  -- Service, ingress, autoscaler, when no call fails that Bare speaks of: the list has the newest
  -- first. Bare holds: each object is not found until it has been created, every creation succeeds,
  -- the user's Secret is found, random bytes and owner references are given, and the sizes can be
  -- parsed. Retries and Owns hold.
  pub bare_pass_requested :
      (request : NamespacedName) (v : C.World) (wp : WordPress K)
      → Bare C Still (apply_defaults wp)
      → Still 0 (C.get wordpress request v).1
      → (C.get wordpress request v).0 ≡ ok wp
      → K.is_zero wp.metadata.deletion_timestamp ≡ true
      → C.contains_finalizer wp.metadata wordpress_finalizer ≡ true
      → validate_spec (apply_defaults wp) ≡ none
      → additions (reconcile C request v).2 ≡ requested (apply_defaults wp)
  unfolding reconcile reconcile_answer act_on
  bare_pass_requested request v wp bare still found live held valid =
      let u = (C.get wordpress request v).1 in
      let w = apply_defaults wp in
      let pass =
        (reconcile_valid-Makes w bare (HasDatabase-of_accepted wp valid)).at (start C w u)
          (still, refl) in
      rw found (
        subst (λ r. additions r.1.log ≡ requested w)
          (sym (reconcile_found_of_live C wp u live held))
          (subst (λ x. additions (act_on C x (start C w u)).1.log ≡ requested w) (sym valid) pass))
