-- ===== src/Reconciler/First/Passes.antt =====
-- What the parts of the pass that makes all objects create.
use operator_wordpress.Base.{
  ℕ, suc, ◌≡◌, ◌==◌, refl, sym, ap, ◌∙◌, true, false, Bool, some, ◌∷◌, if◌then◌else◌,
}
use mathlib.Core.Path.{subst}
use operator_wordpress.Kube.{Kube}
use operator_wordpress.Kube.Meta.{NamespacedName, object_key}
use operator_wordpress.Kube.Workloads.{Secret}
use operator_wordpress.Kube.Outcome.{deref, ok}
use operator_wordpress.Api.{
  WordPress, WordPressStatus, ExternalDatabaseSpec, InternalDatabaseSpec, database_mode_external,
}
use operator_wordpress.Names.{
  wp_name, db_service_name, db_stateful_set_name, db_secret_name, wp_pvc_name, hpa_name,
}
use operator_wordpress.Validation.Laws.{HasDatabase}
use operator_wordpress.Database.{build_mysql_headless_service}
use operator_wordpress.Database.Password.{build_mysql_secret}
use operator_wordpress.Resources.{
  build_wordpress_service, build_wordpress_ingress, build_wordpress_hpa,
}
use operator_wordpress.Resources.Deployment.{build_wordpress_deployment}
use operator_wordpress.Cluster.{
  Cluster, Kind, secret, service, stateful_set, deployment, claim, ingress, autoscaler,
}
use operator_wordpress.Cluster.Action.{Action, ◌>>=◌}
use operator_wordpress.Cluster.Lawful.{Owns}
use operator_wordpress.Reconciler.{Result, no_requeue}
use operator_wordpress.Reconciler.Service.{reconcile_wordpress_service}
use operator_wordpress.Reconciler.Site.{create_pvc, reconcile_pvc, reconcile_wordpress_deployment}
use operator_wordpress.Reconciler.Database.{
  fresh_secret, reconcile_secret, reconcile_headless_service, reconcile_stateful_set,
  database_ready, verify_secret, reconcile_external, reconcile_internal, reconcile_database,
}
use operator_wordpress.Reconciler.Exposure.{
  disable_ingress, enable_ingress, reconcile_ingress, disable_hpa, enable_hpa, reconcile_hpa,
}
use operator_wordpress.Reconciler.Steady.{with_status}
use operator_wordpress.Reconciler.Steady.Passes.{build_mysql_secret-Still}
use operator_wordpress.Reconciler.First.{
  db_secret, db_service, db_stateful_set, site_claim, site_deployment, site_service, site_ingress,
  site_autoscaler, Adds, Bare, child, one_of, database_children, claim_children, ingress_children,
  hpa_children,
}
use operator_wordpress.Reconciler.First.Rules.{
  Adds-later, Any, Children, Adds-pure, Adds-modify_status, Adds-continue, Adds-bind, Adds-lift,
  Adds-wp, Adds-own, Adds-get,
}
use operator_wordpress.Reconciler.First.Steps.{
  Creates, ensure_secret-Adds, ensure_pvc-Adds, ensure_deployment-Adds, ensure_stateful_set-Adds,
  ensure_ingress-Adds, ensure_hpa-Adds, remove_ingress-Adds, remove_hpa-Adds, told-Adds,
  report_readiness-Adds, Absent-at, owned_key, apply_service-Adds,
}
use operator_wordpress.Reconciler.First.Built.{
  secret_built, stateful_set_built, pvc_built, host_resolved, env_found, external_of, internal_of,
}

module _ {K : Kube} (C : Cluster K) (Still : ℕ → C.World → Type 0) (w : WordPress K)
    (bare : Bare C Still w) where
  bind_fresh_secret-Adds :
      {p : ℕ} {A : Type 0} {g : Children → Children} {Q : A → Type 0} (st : WordPressStatus K)
      (f : Secret K → Action C A)
      → ((d : Secret K)
          → object_key d.metadata ≡ (child w secret (db_secret_name w)).1
          → Adds Still w 0 p g Q (f d))
      → Adds Still w 0 p g Q (fresh_secret C (with_status w st) >>= f)
  unfolding fresh_secret ◌>>=◌
  bind_fresh_secret-Adds st f i = record {
    at = λ s c.
        let (d, e, same) = secret_built C Still w bare st s.world c.0 in
        Adds-continue (build_mysql_secret C.read_random (with_status w st) s.world).0 f
          (record s { world = (build_mysql_secret C.read_random (with_status w st) s.world).1 }) d e
          (i d same)
          (build_mysql_secret-Still C (Still 0) (bare.stays 0) (with_status w st) s.world c.0, c.1);
  }

  module _ (own : Owns C) where
    reconcile_secret-Adds :
        (st : WordPressStatus K)
        → Creates C Still w bare 0 secret
            (db_secret_name w)
            Any
            (reconcile_secret C (with_status w st))
    unfolding reconcile_secret
    reconcile_secret-Adds st = bind_fresh_secret-Adds st _ λ d same. Adds-own bare _ _ λ m e.
        let same' = owned_key C Still w bare own _ m e ∙ same in
        Adds-get bare secret _ _ λ v still.
          ensure_secret-Adds C Still w bare db_secret _ _ same'
            (Absent-at C Still w bare secret _ _ v same' (bare.absent 0 _ _ db_secret v still))

    reconcile_headless_service-Adds :
        (st : WordPressStatus K)
        → Creates C Still w bare 1 service
            (db_service_name w)
            Any
            (reconcile_headless_service C (with_status w st))
    unfolding reconcile_headless_service build_mysql_headless_service db_service_name
    reconcile_headless_service-Adds st = Adds-own bare _ _ λ m e.
        apply_service-Adds C Still w bare own db_service _ (owned_key C Still w bare own _ m e)

    pub reconcile_site_service-Adds :
        Creates C Still w bare 5 service (wp_name w) Any (reconcile_wordpress_service C)
    unfolding reconcile_wordpress_service build_wordpress_service wp_name
    reconcile_site_service-Adds = Adds-wp _ λ st. Adds-own bare _ _ λ m e.
        apply_service-Adds C Still w bare own site_service _ (owned_key C Still w bare own _ m e)

    reconcile_stateful_set-Adds :
        (st : WordPressStatus K)
        → (i : InternalDatabaseSpec K) → w.spec.database.internal ≡ some i
        → Creates C Still w bare 2 stateful_set
            (db_stateful_set_name w)
            Any
            (reconcile_stateful_set C (with_status w st))
    unfolding reconcile_stateful_set
    reconcile_stateful_set-Adds st i there =
        let (d, built, same) = stateful_set_built C Still w bare st i there in
        Adds-lift _ _ d built (
          Adds-own bare _ _ λ m e.
            let same' = owned_key C Still w bare own _ m e ∙ same in
            Adds-get bare stateful_set _ _ λ v still.
              ensure_stateful_set-Adds C Still w bare db_stateful_set _ _ same' (
                Absent-at C Still w bare stateful_set _ _ v same'
                  (bare.absent 2 _ _ db_stateful_set v still)))

    reconcile_internal-Adds :
        (st : WordPressStatus K)
        → (i : InternalDatabaseSpec K) → w.spec.database.internal ≡ some i
        → Adds Still w 0 3
            (database_children w false)
            (λ r. r ≡ no_requeue)
            (reconcile_internal C (with_status w st))
    unfolding reconcile_internal
    reconcile_internal-Adds st i there = Adds-bind (reconcile_secret-Adds st) λ _ _.
        Adds-bind (reconcile_headless_service-Adds st) λ _ _.
          Adds-bind (reconcile_stateful_set-Adds st i there)
            λ n _. report_readiness-Adds C Still w bare n

    verify_secret-Adds :
        (e : ExternalDatabaseSpec) (o : Secret K)
        → Adds Still w 0 0 (λ l. l) (λ r. r ≡ no_requeue) (verify_secret C e (ok o))
    unfolding verify_secret database_ready
    verify_secret-Adds e o = told-Adds C Still w bare _ _ _ _

    reconcile_external-Adds :
        (st : WordPressStatus K)
        → (e : ExternalDatabaseSpec) → w.spec.database.external ≡ some e
        → Adds Still w 0 0 (λ l. l) (λ r. r ≡ no_requeue) (reconcile_external C (with_status w st))
    unfolding reconcile_external
    reconcile_external-Adds st e there = Adds-lift _ _ e (ap deref there) (
        Adds-get bare secret _ _ λ v still.
          let (o, found) = bare.user_secret e v there still in
          subst (λ r. Adds Still w 0 0 (λ l. l) (λ r. r ≡ no_requeue) (verify_secret C e r))
            (sym found) (verify_secret-Adds e o))

    database_test-Adds :
        (remote : Bool) (m n : Action C Result)
        → (remote ≡ true → Adds Still w 0 0 (λ l. l) (λ r. r ≡ no_requeue) m)
        → (remote ≡ false → Adds Still w 0 3 (database_children w false) (λ r. r ≡ no_requeue) n)
        → Adds Still w 0 3
            (database_children w remote)
            (λ r. r ≡ no_requeue)
            (if remote then m else n)
    database_test-Adds true m n am an =
        Adds-later bare (Adds-later bare (Adds-later bare (am refl)))
    database_test-Adds false m n am an = an refl

    pub reconcile_database-Adds :
        HasDatabase w.spec.database
        → Adds Still w 0 3
            (database_children w (w.spec.database.mode == database_mode_external))
            (λ r. r ≡ no_requeue)
            (reconcile_database C)
    unfolding reconcile_database
    reconcile_database-Adds there = Adds-wp _ λ st.
        database_test-Adds (w.spec.database.mode == database_mode_external) _ _
          (λ e. let (x, h) = external_of C Still w bare there e in reconcile_external-Adds st x h)
          (λ e. let (i, h) = internal_of C Still w bare there e in reconcile_internal-Adds st i h)

    create_pvc-Adds :
        (st : WordPressStatus K)
        → Creates C Still w bare 3 claim (wp_pvc_name w) Any (create_pvc C (with_status w st))
    unfolding create_pvc
    create_pvc-Adds st =
        let (d, built, same) = pvc_built C Still w bare st in
        Adds-lift _ _ d built (
          Adds-own bare _ _ λ m e.
            let same' = owned_key C Still w bare own _ m e ∙ same in
            Adds-get bare claim _ _ λ v still.
              ensure_pvc-Adds C Still w bare site_claim _ _ same'
                (Absent-at C Still w bare claim _ _ v same' (bare.absent 3 _ _ site_claim v still)))

    -- What is asked for, or nothing.
    one_of-Adds :
        {p : ℕ} {A : Type 0} (on : Bool) (x : Kind × NamespacedName) (m n : Action C A)
        → Adds Still w p (suc p) (λ l. x ∷ l) Any m
        → Adds Still w p p (λ l. l) Any n
        → Adds Still w p (suc p) (one_of on x) Any (if on then m else n)
    one_of-Adds true x m n am an = am
    one_of-Adds false x m n am an = Adds-later bare an

    pub reconcile_pvc-Adds : Adds Still w 3 4 (claim_children w) Any (reconcile_pvc C)
    unfolding reconcile_pvc
    reconcile_pvc-Adds =
        Adds-wp _
          λ st. one_of-Adds w.spec.persistence.enabled _ _ _ (create_pvc-Adds st) (Adds-pure tt tt)

    pub reconcile_wordpress_deployment-Adds :
        HasDatabase w.spec.database
        → Creates C Still w bare 4 deployment (wp_name w) Any (reconcile_wordpress_deployment C)
    unfolding reconcile_wordpress_deployment build_wordpress_deployment wp_name
    reconcile_wordpress_deployment-Adds there = Adds-wp _ λ st.
        let (r, resolved) = host_resolved C Still w bare st there in
        let (envs, from) = env_found C Still w bare st there in
        Adds-lift _ _ r resolved (
          Adds-bind (Adds-modify_status _) λ _ _. Adds-lift _ _ envs from (
            Adds-own bare _ _ λ m e.
              let same = owned_key C Still w bare own _ m e in
              Adds-get bare deployment _ _ λ v still.
                ensure_deployment-Adds C Still w bare site_deployment _ _ same (
                  Absent-at C Still w bare deployment _ _ v same
                    (bare.absent 4 _ _ site_deployment v still))))

    pub reconcile_ingress-Adds : Adds Still w 6 7 (ingress_children w) Any (reconcile_ingress C)
    unfolding reconcile_ingress enable_ingress disable_ingress build_wordpress_ingress wp_name
    reconcile_ingress-Adds = Adds-wp _ λ st.
        one_of-Adds w.spec.ingress.enabled _ _ _
          (Adds-own bare _ _ λ m e. Adds-get bare ingress _ _ λ v still.
            ensure_ingress-Adds C Still w bare site_ingress _ _ (owned_key C Still w bare own _ m e)
              (bare.absent 6 _ _ site_ingress v still))
          (Adds-get bare ingress _ _ λ v still.
            remove_ingress-Adds C Still w bare (with_status w st) _
              (bare.absent 6 _ _ site_ingress v still))

    pub reconcile_hpa-Adds : Adds Still w 7 8 (hpa_children w) Any (reconcile_hpa C)
    unfolding reconcile_hpa enable_hpa disable_hpa build_wordpress_hpa hpa_name
    reconcile_hpa-Adds = Adds-wp _ λ st.
        one_of-Adds w.spec.autoscaling.enabled _ _ _
          (Adds-own bare _ _ λ m e. Adds-get bare autoscaler _ _ λ v still.
            ensure_hpa-Adds C Still w bare site_autoscaler _ _ (owned_key C Still w bare own _ m e)
              (bare.absent 7 _ _ site_autoscaler v still))
          (Adds-get bare autoscaler _ _ λ v still.
            remove_hpa-Adds C Still w bare (with_status w st) _
              (bare.absent 7 _ _ site_autoscaler v still))
