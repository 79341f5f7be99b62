-- ===== src/Resources/Laws.antt =====
-- How the objects of one resource fit together, and with those of another resource.
use operator_wordpress.Base.{
  String, ◌<>◌, ◌≡◌, ◌≢◌, refl, sym, ap, ◌∙◌, ◌↔◌, true, Option, none, some, List, [], ◌∷◌, arith,
}
use operator_wordpress.Base.Int.{ℤ, pos, ◌≤ℤ◌}
use operator_wordpress.Base.StringMap.{get, entries}
use text.Mathlib.TextLemmas.{append_assoc}
use operator_wordpress.Kube.{Kube}
use operator_wordpress.Base.Text.{show_ℤ}
use operator_wordpress.Kube.Pods.{EnvVar, Container}
use operator_wordpress.Kube.Outcome.{Outcome, done}
use operator_wordpress.Api.{WordPress}
use operator_wordpress.Names.{selector_labels, component_wordpress, db_service_name}
use operator_wordpress.Names.Laws.{IsMap, Selects, selector_labels-Selects-merged}
use operator_wordpress.Defaults.{apply_defaults}
use operator_wordpress.Defaults.Laws.{apply_defaults-HasDefaults}
use operator_wordpress.Validation.{validate_spec}
use operator_wordpress.Validation.Laws.{validate_spec_iff}
use operator_wordpress.Database.Render.{resolved_db_host}
use operator_wordpress.Resources.{build_wordpress_hpa}
use operator_wordpress.Resources.Deployment.{
  build_wordpress_deployment, wordpress_template, wait_host, wait_for_db, init_containers,
}

-- The command that waits until a host accepts connections at a port.
abbrev pub wait_until : String → ℤ → List String
wait_until host port =
    "sh"
    ∷ "-c"
    ∷ ("until nc -z -w2 "
        <> (host <> (" " <> (show_ℤ port <> "; do echo 'waiting for mysql'; sleep 3; done"))))
    ∷ []

module _ {K : Kube} where
  done_pair :
      (a b : String) (m n : ℤ)
      → ◌≡◌ {A = Outcome K (String × ℤ)} (done (a, m)) (done (b, n))
      → (a ≡ b) × (m ≡ n)
  done_pair a b m n e = (cc, cc)

module _ {K : Kube} where
  -- The pods of the site's Deployment carry the labels of its selector exactly when no pod label of
  -- the user changes the value of a label that the selector asks for.
  pub deployment-Selects :
      (wp : WordPress K) (host : String) (port : ℤ) (env : List (EnvVar K))
      → IsMap (entries wp.spec.pod_labels)
      → Selects
          (selector_labels wp component_wordpress)
          (build_wordpress_deployment wp host port env).spec.template.metadata.labels
        ↔ ((k v w : String)
            → get k (entries (selector_labels wp component_wordpress)) ≡ some v
            → get k (entries wp.spec.pod_labels) ≡ some w
            → w ≡ v)
  unfolding build_wordpress_deployment wordpress_template
  deployment-Selects wp host port env m =
      selector_labels-Selects-merged wp component_wordpress wp.spec.pod_labels m

  wait_host-resolved :
      (wp : WordPress K)
      → wp.spec.database.mode ≡ "Internal"
      → resolved_db_host wp ≡ done (wait_host wp, pos 3306)
  unfolding resolved_db_host wait_host db_service_name
  wait_host-resolved wp m =
      let r = wp.metadata.namespace <> ".svc" in
      simp m (
        ap (λ h. done (h, pos 3306))
          (append_assoc wp.metadata.name "-mysql" ("." <> r)
            ∙ ap (λ t. wp.metadata.name <> t) (sym (append_assoc "-mysql" "." r))))

  -- The init containers run these commands, one each.
  abbrev pub Runs : Option (List (Container K)) → List (List String) → Type 0
  Runs none [] = Unit
  Runs (some (c ∷ [])) (command ∷ []) = c.command ≡ some command
  Runs containers commands = ⊥

  -- In mode Internal the pods of the site's Deployment have one init container, whose command waits
  -- until the host and the port that the pass resolves for WordPress accept connections.
  pub init_containers-Runs :
      (wp : WordPress K) (host : String) (port : ℤ) (env : List (EnvVar K))
      → wp.spec.database.mode ≡ "Internal"
      → resolved_db_host wp ≡ done (host, port)
      → Runs
          (build_wordpress_deployment wp host port env).spec.template.spec.init_containers
          (wait_until host port ∷ [])
  unfolding build_wordpress_deployment wordpress_template init_containers wait_for_db show_ℤ
  init_containers-Runs wp host port env m e =
      let (h, p) = done_pair _ _ _ _ (sym (wait_host-resolved wp m) ∙ e) in
      rw (← h, ← p) (simp m refl)

  -- The autoscaler of an accepted spec targets the Deployment of the site, by API version, kind and
  -- name and in its namespace, and has 0 ≠ min <= max.
  pub build_wordpress_hpa-bounds :
      (wp : WordPress K) (host : String) (port : ℤ) (env : List (EnvVar K))
      → validate_spec (apply_defaults wp) ≡ none
      → (apply_defaults wp).spec.autoscaling.enabled ≡ true
      → ((build_wordpress_hpa (apply_defaults wp)).spec.scale_target_ref ≡ record {
        api_version = "apps/v1";
        kind = "Deployment";
        name = (build_wordpress_deployment (apply_defaults wp) host port env).metadata.name;
      })
        × ((build_wordpress_hpa (apply_defaults wp)).metadata.namespace
            ≡ (build_wordpress_deployment (apply_defaults wp) host port env).metadata.namespace)
        × (n : ℤ) × ((build_wordpress_hpa (apply_defaults wp)).spec.min_replicas ≡ some n)
        × (n ≢ pos 0)
        × (n ≤ℤ (build_wordpress_hpa (apply_defaults wp)).spec.max_replicas)
  unfolding build_wordpress_hpa build_wordpress_deployment
  build_wordpress_hpa-bounds wp host port env v on = (
    refl,
    refl,
    _,
    refl,
    ((apply_defaults-HasDefaults wp).autoscaling on).0,
    ((validate_spec_iff (apply_defaults wp)).0 v).autoscaling on,
  )

  -- The Deployment of a spec with its defaults leaves the number of replicas open exactly when
  -- autoscaling is on.
  pub deployment_replicas :
      (wp : WordPress K) (host : String) (port : ℤ) (env : List (EnvVar K))
      → ((build_wordpress_deployment (apply_defaults wp) host port env).spec.replicas ≡ none)
        ↔ ((apply_defaults wp).spec.autoscaling.enabled ≡ true)
  unfolding build_wordpress_deployment
  deployment_replicas wp host port env =
      let (n, e) = (apply_defaults-HasDefaults wp).replicas in ground arith
