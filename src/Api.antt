-- ===== src/Api.antt =====
-- api/v1alpha1/wordpress_types.go: the WordPress resource. A Go string, also one of a string type
-- such as DatabaseMode, is a `String`, whose zero value is ""; an int32 is a `ℤ`; a pointer is an
-- `Option`. Tolerations and pull secrets are slices of library types, held whole.
use operator_wordpress.Base.{String, Bool, List, Option, none}
use operator_wordpress.Base.Int.{ℤ}
use operator_wordpress.Base.StringMap.{StringMap}
use operator_wordpress.Kube.{Kube}
use operator_wordpress.Kube.Meta.{ObjectMeta, Condition}
use operator_wordpress.Kube.Pods.{EnvVar}

abbrev pub database_mode_internal : String
database_mode_internal = "Internal"

abbrev pub database_mode_external : String
database_mode_external = "External"

pub record SecretKeyRef : Type 0 where
  pub name : String
  pub key : String

pub record InternalDatabaseSpec (K : Kube) : Type 0 where
  pub image : String
  pub image_pull_policy : String
  pub storage_size : String
  pub storage_class_name : Option String
  pub resources : K.Resources
  pub root_password_secret : Option SecretKeyRef
  pub node_selector : StringMap
  pub tolerations : K.Tolerations
  pub affinity : Option K.Affinity

pub record ExternalDatabaseSpec : Type 0 where
  pub host : String
  pub port : ℤ
  pub password_secret : SecretKeyRef

pub record DatabaseSpec (K : Kube) : Type 0 where
  pub mode : String
  pub name : String
  pub user : String
  pub table_prefix : String
  pub internal : Option (InternalDatabaseSpec K)
  pub external : Option ExternalDatabaseSpec

pub record IngressConfig : Type 0 where
  pub enabled : Bool
  pub ingress_class_name : Option String
  pub host : String
  pub tls_secret_name : String
  pub annotations : StringMap

pub record ServiceConfig : Type 0 where
  pub type : String
  pub port : ℤ
  pub node_port : ℤ
  pub annotations : StringMap

pub record PersistenceSpec : Type 0 where
  pub enabled : Bool
  pub size : String
  pub storage_class_name : Option String
  pub access_modes : List String

pub record AutoscalingSpec : Type 0 where
  pub enabled : Bool
  pub min_replicas : ℤ
  pub max_replicas : ℤ
  pub target_cpu_utilization_percentage : ℤ

pub record WordPressSpec (K : Kube) : Type 0 where
  pub image : String
  pub image_pull_policy : String
  pub image_pull_secrets : K.PullSecrets
  pub replicas : Option ℤ
  pub resources : K.Resources
  pub site_url : String
  pub env : List (EnvVar K)
  pub database : DatabaseSpec K
  pub service : ServiceConfig
  pub ingress : IngressConfig
  pub persistence : PersistenceSpec
  pub autoscaling : AutoscalingSpec
  pub pod_annotations : StringMap
  pub pod_labels : StringMap
  pub node_selector : StringMap
  pub tolerations : K.Tolerations
  pub affinity : Option K.Affinity
  pub max_unavailable : Option K.IntOrString
  pub max_surge : Option K.IntOrString

abbrev pub phase_provisioning : String
phase_provisioning = "Provisioning"

abbrev pub phase_ready : String
phase_ready = "Ready"

abbrev pub phase_failed : String
phase_failed = "Failed"

abbrev pub condition_type_ready : String
condition_type_ready = "Ready"

abbrev pub condition_type_database_ready : String
condition_type_database_ready = "DatabaseReady"

abbrev pub condition_type_deployment_ready : String
condition_type_deployment_ready = "DeploymentReady"

abbrev pub condition_type_ingress_configured : String
condition_type_ingress_configured = "IngressConfigured"

pub record WordPressStatus (K : Kube) : Type 0 where
  pub observed_generation : ℤ
  pub phase : String
  pub url : String
  pub replicas : ℤ
  pub ready_replicas : ℤ
  pub database_host : String
  pub conditions : List (Condition K)

pub record WordPress (K : Kube) : Type 0 where
  pub metadata : ObjectMeta K
  pub spec : WordPressSpec K
  pub status : WordPressStatus K

module _ (K : Kube) where
  -- `&InternalDatabaseSpec{}`
  abbrev pub empty_internal : InternalDatabaseSpec K
  empty_internal = record {
    image = "";
    image_pull_policy = "";
    storage_size = "";
    storage_class_name = none;
    resources = K.no_resources;
    root_password_secret = none;
    node_selector = none;
    tolerations = K.no_tolerations;
    affinity = none;
  }
