-- ===== src/Reconciler/Safety/Database.antt =====
-- The steps for the database, in both modes.
use operator_wordpress.Base.{String, ◌≡◌, ◌≢◌, ◌∙◌, some, arith, inl, inr, ◌==◌, if◌then◌else◌}
use operator_wordpress.Base.Int.{ℤ}
use operator_wordpress.Kube.{Kube}
use operator_wordpress.Kube.Workloads.{Secret, StatefulSet}
use operator_wordpress.Kube.Outcome.{Answer, ok, err, done, panic}
use operator_wordpress.Api.{WordPress, InternalDatabaseSpec, ExternalDatabaseSpec}
use operator_wordpress.Validation.Laws.{HasDatabase}
use operator_wordpress.Cluster.{Cluster, secret, stateful_set}
use operator_wordpress.Cluster.Action.{Action, ◌>>=◌, created}
use operator_wordpress.Cluster.Lawful.{Owns}
use operator_wordpress.Cluster.Safe.{
  Safe, Safe-bind, Safe-bind-lift, Safe-bind-get_wp, Safe-bind-get, Safe-bind-own,
  Safe-set_condition, Safe-continue, safe_rules,
}
use operator_wordpress.Reconciler.Calls.{
  Same, Permitted, Owned-of_own, Same-status, Same-namespace, Same-HasDatabase,
}
use operator_wordpress.Database.{build_mysql_headless_service}
use operator_wordpress.Database.Password.{build_mysql_secret}
use operator_wordpress.Database.Render.{build_mysql_stateful_set}
use operator_wordpress.Reconciler.Database.{
  database_ready, database_not_ready, verify_secret, reconcile_external, fresh_secret,
  ensure_secret, reconcile_secret, reconcile_headless_service, ensure_stateful_set,
  reconcile_stateful_set, report_readiness, reconcile_internal, reconcile_database,
}
use operator_wordpress.Reconciler.Safety.Site.{apply_service-Safe}

module _ {K : Kube} (wp : WordPress K) where
  -- The rendered stateful set is never a panic once the internal part is there.
  build_mysql_stateful_set-ne-panic :
      (i : InternalDatabaseSpec K)
      → wp.spec.database.internal ≡ some i
      → build_mysql_stateful_set wp ≢ panic
  unfolding build_mysql_stateful_set
  build_mysql_stateful_set-ne-panic i h e = ground arith

  namespace-build_mysql_stateful_set :
      (desired : StatefulSet K)
      → build_mysql_stateful_set wp ≡ done desired
      → desired.metadata.namespace ≡ wp.metadata.namespace
  unfolding build_mysql_stateful_set
  namespace-build_mysql_stateful_set desired e = ground arith

module _ {K : Kube} (C : Cluster K) (wp : WordPress K) (v : C.World) where
  build_mysql_secret-ne-panic : (build_mysql_secret C.read_random wp v).0 ≢ panic
  unfolding build_mysql_secret
  build_mysql_secret-ne-panic e = ground arith

  namespace-build_mysql_secret :
      (desired : Secret K)
      → (build_mysql_secret C.read_random wp v).0 ≡ done desired
      → desired.metadata.namespace ≡ wp.metadata.namespace
  unfolding build_mysql_secret
  namespace-build_mysql_secret desired e = ground arith

module _ {K : Kube} (C : Cluster K) (w : WordPress K) where
  abbrev Step : {A : Type 0} → Action C A → Type 0
  Step m = Safe (Same w) (Permitted C w) m

  database_ready-Safe : (reason message : String) → Step (database_ready C reason message)
  unfolding database_ready
  database_ready-Safe reason message = Safe-set_condition (Same-status C w) _ _ reason message

  database_not_ready-Safe : (reason message : String) → Step (database_not_ready C reason message)
  unfolding database_not_ready
  database_not_ready-Safe reason message = Safe-set_condition (Same-status C w) _ _ reason message

  verify_secret-Safe :
      (e : ExternalDatabaseSpec) (found : Answer K (Secret K)) → Step (verify_secret C e found)
  unfolding verify_secret
  verify_secret-Safe e (ok _) = search (safe_rules, database_ready-Safe)
  verify_secret-Safe e (err x) = search (safe_rules, database_not_ready-Safe)

  ensure_secret-Safe :
      (desired : Secret K) (found : Answer K (Secret K))
      → Permitted C w (created secret desired)
      → Step (ensure_secret C desired found)
  unfolding ensure_secret
  ensure_secret-Safe desired (ok _) p = search safe_rules
  ensure_secret-Safe desired (err e) p = search safe_rules

  ensure_stateful_set-Safe :
      (desired : StatefulSet K) (found : Answer K (StatefulSet K))
      → Permitted C w (created stateful_set desired)
      → Step (ensure_stateful_set C desired found)
  unfolding ensure_stateful_set
  ensure_stateful_set-Safe desired (ok existing) p = let allowed = p.0 in search safe_rules
  ensure_stateful_set-Safe desired (err e) p = search safe_rules

  report_readiness-Safe : (ready : ℤ) → Step (report_readiness C ready)
  unfolding report_readiness
  report_readiness-Safe ready = search (safe_rules, database_ready-Safe, database_not_ready-Safe)

  -- What follows may use that the generated secret is in the namespace of the object.
  bind_fresh_secret-Safe :
      {A : Type 0} (wp : WordPress K) (f : Secret K → Action C A)
      → ((d : Secret K) → d.metadata.namespace ≡ wp.metadata.namespace → Step (f d))
      → Step (fresh_secret C wp >>= f)
  unfolding fresh_secret ◌>>=◌
  bind_fresh_secret-Safe wp f sf = record {
    at = λ s h l.
        (Safe-continue _ f (build_mysql_secret-ne-panic C wp s.world)
            (λ d built. sf d (namespace-build_mysql_secret C wp s.world d built))).at
          _ h l;
  }

  module _ (own : Owns C) where
    reconcile_secret-Safe :
        (wp : WordPress K)
        → Same w wp
        → w.spec.database.mode ≡ "Internal"
        → Step (reconcile_secret C wp)
    unfolding reconcile_secret
    reconcile_secret-Safe wp same mode = bind_fresh_secret-Safe wp _ λ d here.
        Safe-bind-own _ _ λ wp' m same' e. Safe-bind-get secret _ _ λ found.
          ensure_secret-Safe (record d { metadata = m }) found
            (mode, Owned-of_own C w own wp' _ m same' (here ∙ Same-namespace C w wp same) e)

    reconcile_headless_service-Safe :
        (wp : WordPress K) → Same w wp → Step (reconcile_headless_service C wp)
    unfolding reconcile_headless_service build_mysql_headless_service
    reconcile_headless_service-Safe wp same = Safe-bind-own _ _ λ wp' m same' e.
        apply_service-Safe C w _ (Owned-of_own C w own wp' _ m same' (Same-namespace C w wp same) e)

    reconcile_stateful_set-Safe :
        (wp : WordPress K)
        → Same w wp
        → w.spec.database.mode ≡ "Internal"
        → (i : InternalDatabaseSpec K) → wp.spec.database.internal ≡ some i
        → Step (reconcile_stateful_set C wp)
    unfolding reconcile_stateful_set
    reconcile_stateful_set-Safe wp same mode i there =
        Safe-bind-lift _ _ (build_mysql_stateful_set-ne-panic wp i there) λ d built.
          Safe-bind-own _ _ λ wp' m same' e. Safe-bind-get stateful_set _ _ λ found.
            ensure_stateful_set-Safe (record d { metadata = m }) found
              (
                mode,
                Owned-of_own C w own wp' _ m same'
                    (namespace-build_mysql_stateful_set wp d built ∙ Same-namespace C w wp same) e,
              )

    reconcile_internal-Safe :
        (wp : WordPress K)
        → Same w wp
        → w.spec.database.mode ≡ "Internal"
        → (i : InternalDatabaseSpec K) → wp.spec.database.internal ≡ some i
        → Step (reconcile_internal C wp)
    unfolding reconcile_internal
    reconcile_internal-Safe wp same mode i there =
        Safe-bind _ _ (reconcile_secret-Safe wp same mode) λ _.
          Safe-bind _ _ (reconcile_headless_service-Safe wp same) λ _.
            Safe-bind _ _ (reconcile_stateful_set-Safe wp same mode i there)
              λ ready. report_readiness-Safe ready

    reconcile_external-Safe :
        (wp : WordPress K) (e : ExternalDatabaseSpec)
        → wp.spec.database.external ≡ some e
        → Step (reconcile_external C wp)
    unfolding reconcile_external
    reconcile_external-Safe wp e there =
        Safe-bind-lift _ _ (rw there (λ p. cc))
          λ x _. Safe-bind-get secret _ _ λ found. verify_secret-Safe x found

    pub reconcile_database-Safe : HasDatabase w.spec.database → Step (reconcile_database C)
    unfolding reconcile_database
    reconcile_database-Safe ready =
        Safe-bind-get_wp _ λ wp same. in_mode wp same (Same-HasDatabase C w ready wp same)
      where
        in_mode :
            (wp : WordPress K)
            → Same w wp
            → HasDatabase wp.spec.database
            → Step (
                if wp.spec.database.mode == "External"
                then reconcile_external C wp
                else reconcile_internal C wp)
        in_mode wp same (inl (m, (i, there))) =
            simp m (reconcile_internal-Safe wp same (rw same.spec at m) i there)
        in_mode wp same (inr (m, (x, there))) = simp m (reconcile_external-Safe wp x there)
