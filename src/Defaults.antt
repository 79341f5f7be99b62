-- ===== src/Defaults.antt =====
-- internal/controller/defaults.go: `applyDefaults`, one function for each group of its tests.
pub mod Laws
use operator_wordpress.Base.{String, ◌==◌, if◌then◌else◌}
use operator_wordpress.Base.{Option, none, some, List, [], ◌∷◌}
use operator_wordpress.Base.Int.{ℤ, pos, eqb_ℤ}
use operator_wordpress.Kube.{Kube}
use operator_wordpress.Api.{
  WordPress, InternalDatabaseSpec, ExternalDatabaseSpec, DatabaseSpec, ServiceConfig,
  PersistenceSpec, AutoscalingSpec, empty_internal, database_mode_internal, database_mode_external,
}

-- `if s == "" { s = d }`
abbrev pub default_string : String → String → String
default_string s d = if s == "" then d else s

-- `if n == 0 { n = d }`
abbrev pub default_int : ℤ → ℤ → ℤ
default_int n d = if eqb_ℤ n (pos 0) then d else n

abbrev pub default_ptr {ℓ} : {A : Type ℓ} → Option A → A → Option A
default_ptr none d = some d
default_ptr (some a) d = some a

abbrev pub default_list {ℓ} : {A : Type ℓ} → List A → List A → List A
default_list [] d = d
default_list (x ∷ xs) d = x ∷ xs

unfoldable pub default_service : ServiceConfig → ServiceConfig
default_service s = record s {
  type = default_string s.type "ClusterIP";
  port = default_int s.port (pos 80);
}

unfoldable pub default_persistence : PersistenceSpec → PersistenceSpec
default_persistence p = record p {
  size = default_string p.size "5Gi";
  access_modes = default_list p.access_modes ("ReadWriteOnce" ∷ []);
}

unfoldable pub default_autoscaling : AutoscalingSpec → AutoscalingSpec
default_autoscaling a =
    if a.enabled
    then record a {
      min_replicas = default_int a.min_replicas (pos 1);
      max_replicas = default_int a.max_replicas (pos 5);
      target_cpu_utilization_percentage = default_int a.target_cpu_utilization_percentage (pos 80);
    }
    else a

unfoldable pub default_external : ExternalDatabaseSpec → ExternalDatabaseSpec
default_external e = record e { port = default_int e.port (pos 3306) }

module _ {K : Kube} where
  unfoldable pub default_internal : InternalDatabaseSpec K → InternalDatabaseSpec K
  default_internal i = record i {
    image = default_string i.image "mysql:8.0";
    image_pull_policy = default_string i.image_pull_policy "IfNotPresent";
    storage_size = default_string i.storage_size "5Gi";
  }

  -- The two tests on the mode, after the mode itself has its default.
  unfoldable pub default_internal_for :
      String → Option (InternalDatabaseSpec K) → Option (InternalDatabaseSpec K)
  unfolding default_internal
  default_internal_for mode internal =
      if mode == database_mode_internal
      then elim internal [
        | none ↦ some (default_internal (empty_internal K))
        | some i ↦ some (default_internal i)
      ]
      else internal

unfoldable pub default_external_for :
    String → Option ExternalDatabaseSpec → Option ExternalDatabaseSpec
unfolding default_external
default_external_for mode none = none
default_external_for mode (some e) =
    if mode == database_mode_external then some (default_external e) else some e

module _ {K : Kube} where
  unfoldable pub default_database : DatabaseSpec K → DatabaseSpec K
  unfolding default_internal_for default_external_for
  default_database d =
      let mode = default_string d.mode database_mode_internal in
      record {
        mode = mode;
        name = default_string d.name "wordpress";
        user = default_string d.user "wordpress";
        table_prefix = default_string d.table_prefix "wp_";
        internal = default_internal_for mode d.internal;
        external = default_external_for mode d.external;
      }

  unfoldable pub apply_defaults : WordPress K → WordPress K
  apply_defaults wp =
      let s = wp.spec in
      record wp {
        spec = record s {
          image = default_string s.image "wordpress:6.5-apache";
          image_pull_policy = default_string s.image_pull_policy "IfNotPresent";
          replicas = default_ptr s.replicas (pos 1);
          service = default_service s.service;
          persistence = default_persistence s.persistence;
          database = default_database s.database;
          autoscaling = default_autoscaling s.autoscaling;
        };
      }
