-- ===== src/Validation.antt =====
-- internal/controller/wordpress_controller.go: `validateSpec`. A nil error is `none`.
pub mod Laws
use operator_wordpress.Base.{String, ◌<>◌, ◌==◌, if◌then◌else◌, ◌&&◌, ◌||◌}
use operator_wordpress.Base.{Option, none, some}
use operator_wordpress.Base.Int.{ltb_ℤ}
use operator_wordpress.Kube.{Kube}
use operator_wordpress.Api.{
  WordPress, DatabaseSpec, ExternalDatabaseSpec, AutoscalingSpec, IngressConfig,
  database_mode_internal, database_mode_external,
}

-- The `External` case of the switch.
unfoldable pub validate_external : Option ExternalDatabaseSpec → Option String
validate_external none = some "database.mode=External requires database.external"
validate_external (some e) =
    if e.host == ""
    then some "database.external.host must be set"
    else if e.password_secret.name == "" || e.password_secret.key == ""
    then some "database.external.passwordSecret must reference a Secret"
    else none

unfoldable pub validate_autoscaling : AutoscalingSpec → Option String
validate_autoscaling a =
    if a.enabled && ltb_ℤ a.max_replicas a.min_replicas
    then some "autoscaling.maxReplicas must be >= autoscaling.minReplicas"
    else none

unfoldable pub validate_ingress : IngressConfig → Option String
validate_ingress i =
    if i.enabled && i.host == "" then some "ingress.enabled=true requires ingress.host" else none

-- The first check that fails gives the error.
infixr 5 ◌then_check◌
abbrev pub ◌then_check◌ : Option String → Option String → Option String
none then_check second = second
some e then_check second = some e

module _ {K : Kube} where
  unfoldable pub validate_database : DatabaseSpec K → Option String
  unfolding validate_external
  validate_database d =
      if d.mode == database_mode_external
      then validate_external d.external
      else if d.mode == database_mode_internal
      then none
      else some ("unsupported database.mode " <> K.quote d.mode)

  unfoldable pub validate_spec : WordPress K → Option String
  unfolding validate_database validate_autoscaling validate_ingress
  validate_spec wp =
      validate_database wp.spec.database
      then_check validate_autoscaling wp.spec.autoscaling
      then_check validate_ingress wp.spec.ingress
