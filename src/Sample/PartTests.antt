-- ===== src/Sample/PartTests.antt =====
-- The theorems about the parts that build objects, at concrete objects.
use operator_wordpress.Base.{
  ℕ, zero, suc, ◌<◌, Bool, true, false, List, String, ◌≡◌, ◌≢◌, ◌↔◌, refl, none, some, [], ◌∷◌, map,
  arith,
}
use operator_wordpress.Base.Int.{ℤ, pos, ◌≤ℤ◌}
use operator_wordpress.Base.StringMap.{get, entries}
use operator_wordpress.Kube.Outcome.{Answer, ok, done}
use operator_wordpress.Api.{empty_internal}
use operator_wordpress.Names.{
  merge_string_maps, selector_labels, component_wordpress, wp_name, db_service_name, db_secret_name,
  db_stateful_set_name, wp_pvc_name, hpa_name,
}
use operator_wordpress.Names.Laws.{layered, Selects, get-merge_string_maps, names_injective}
use operator_wordpress.Defaults.{apply_defaults, default_database, default_autoscaling}
use operator_wordpress.Defaults.Laws.{HasDefaults, apply_defaults-HasDefaults, apply_defaults_idem}
use operator_wordpress.Validation.{validate_spec}
use operator_wordpress.Validation.Laws.{IsValidSpec, validate_spec_iff}
use operator_wordpress.Database.{mysql_secret, mysql_envs}
use operator_wordpress.Database.Laws.{resolve, credentials_agree}
use operator_wordpress.Database.Password.{build_mysql_secret}
use operator_wordpress.Database.Password.Letters.{Below}
use operator_wordpress.Database.Password.Laws.{Encodes, build_mysql_secret-Encodes}
use operator_wordpress.Database.Render.{resolved_db_host}
use operator_wordpress.Resources.{build_wordpress_hpa}
use operator_wordpress.Resources.Deployment.{
  build_wordpress_deployment, env_from_internal_db_secret,
}
use operator_wordpress.Resources.Laws.{
  Runs, wait_until, deployment-Selects, init_containers-Runs, build_wordpress_hpa-bounds,
}
use operator_wordpress.Sample.{kube}
use operator_wordpress.Sample.Objects.{fresh, blog, remote}

get-merge_string_maps_example :
    get "a"
      (entries (merge_string_maps (some (("a", "1") ∷ [])) (some (("a", "2") ∷ []) ∷ none ∷ [])))
    ≡ layered "a" (some (("a", "2") ∷ []) ∷ none ∷ []) (some "1")
unfolding get entries
get-merge_string_maps_example =
    get-merge_string_maps "a" (some (("a", "1") ∷ [])) (some (("a", "2") ∷ []) ∷ none ∷ [])
      (refl, tt) ((refl, tt), (tt, tt))

names_injective_example :
    ((db_secret_name fresh ≡ db_secret_name blog) ↔ (wp_name fresh ≡ wp_name blog))
    × ((db_stateful_set_name fresh ≡ db_stateful_set_name blog) ↔ (wp_name fresh ≡ wp_name blog))
    × ((wp_pvc_name fresh ≡ wp_pvc_name blog) ↔ (wp_name fresh ≡ wp_name blog))
    × ((hpa_name fresh ≡ hpa_name blog) ↔ (wp_name fresh ≡ wp_name blog))
names_injective_example = names_injective fresh blog

apply_defaults-HasDefaults_example : HasDefaults (apply_defaults blog).spec
apply_defaults-HasDefaults_example = apply_defaults-HasDefaults blog

apply_defaults_idem_example : apply_defaults (apply_defaults blog) ≡ apply_defaults blog
apply_defaults_idem_example = apply_defaults_idem blog

validate_spec_iff_example : (validate_spec remote ≡ none) ↔ IsValidSpec remote.spec
validate_spec_iff_example = validate_spec_iff remote

credentials_agree_example :
    (map (resolve (mysql_secret blog "r" "p")) (mysql_envs blog (empty_internal kube))
      ≡ some "r" ∷ some "wordpress" ∷ some "wordpress" ∷ some "p" ∷ [])
    × (map
          (resolve (mysql_secret blog "r" "p"))
          (env_from_internal_db_secret kube (db_secret_name blog))
        ≡ some "p" ∷ [])
credentials_agree_example = credentials_agree blog "r" "p" (empty_internal kube) refl

abbrev repeat : ℕ → ℕ → List ℕ
repeat zero x = []
repeat (suc n) x = x ∷ repeat n x

repeat-Below : (n x : ℕ) → x < 256 → Below 256 (repeat n x)
repeat-Below zero x l = tt
repeat-Below (suc n) x l = (l, repeat-Below n x l)

-- A random source that gives one key and then another.
abbrev source : ℕ → Bool → Answer kube (List ℕ) × Bool
source n false = (ok (repeat n 77), true)
source n true = (ok (254 ∷ repeat 23 7), true)

build_mysql_secret-Encodes_example :
    (root : String) × (user : String) × (build_mysql_secret source blog false
      ≡ (done (mysql_secret blog root user), true))
    × Encodes (repeat 24 77) root
    × Encodes (254 ∷ repeat 23 7) user
build_mysql_secret-Encodes_example =
    build_mysql_secret-Encodes source blog false true true (repeat 24 77) (254 ∷ repeat 23 7) refl
      refl (repeat-Below 24 77 (omega arith), refl)
      ((omega arith, repeat-Below 23 7 (omega arith)), refl)

deployment-Selects_example :
    Selects
      (selector_labels blog component_wordpress)
      (build_wordpress_deployment blog "db" (pos 3306) []).spec.template.metadata.labels
    ↔ ((k v w : String)
        → get k (entries (selector_labels blog component_wordpress)) ≡ some v
        → get k (entries blog.spec.pod_labels) ≡ some w
        → w ≡ v)
unfolding get entries
deployment-Selects_example = deployment-Selects blog "db" (pos 3306) [] (refl, tt)

init_containers-Runs_example :
    Runs
      (build_wordpress_deployment blog "blog-mysql.default.svc"
        (pos 3306)
        []).spec.template.spec.init_containers
      (wait_until "blog-mysql.default.svc" (pos 3306) ∷ [])
unfolding resolved_db_host db_service_name
init_containers-Runs_example =
    init_containers-Runs blog "blog-mysql.default.svc" (pos 3306) [] refl refl

build_wordpress_hpa-bounds_example :
    ((build_wordpress_hpa (apply_defaults blog)).spec.scale_target_ref ≡ record {
      api_version = "apps/v1";
      kind = "Deployment";
      name = (build_wordpress_deployment (apply_defaults blog) "db" (pos 3306) []).metadata.name;
    })
    × ((build_wordpress_hpa (apply_defaults blog)).metadata.namespace
        ≡ (build_wordpress_deployment (apply_defaults blog) "db" (pos 3306) []).metadata.namespace)
    × (n : ℤ) × ((build_wordpress_hpa (apply_defaults blog)).spec.min_replicas ≡ some n)
    × (n ≢ pos 0)
    × (n ≤ℤ (build_wordpress_hpa (apply_defaults blog)).spec.max_replicas)
unfolding apply_defaults validate_spec default_database default_autoscaling
build_wordpress_hpa-bounds_example = build_wordpress_hpa-bounds blog "db" (pos 3306) [] refl refl
