-- ===== src/DeepCopy/Structs.antt =====
-- The structs of api/v1alpha1/wordpress_types.go as they lie in memory: a pointer, a slice or a map
-- is a reference. The structs without references are those of Api. The types of the Kubernetes
-- libraries are parameters, with their own DeepCopyInto, which is not part of this repository.
use operator_wordpress.Base.{String, Bool, Option, List}
use operator_wordpress.Base.Int.{ℤ}
use operator_wordpress.Base.StringMap.{Entries}
use operator_wordpress.Kube.{Kube}
use operator_wordpress.Kube.Meta.{ObjectMeta, Condition}
use operator_wordpress.Kube.Pods.{EnvVar}
use operator_wordpress.Api.{SecretKeyRef, ExternalDatabaseSpec, AutoscalingSpec}
use operator_wordpress.DeepCopy.Heap.{Stored, Reference}
use operator_wordpress.DeepCopy.Copier.{Copier}

-- `Toleration` and `ListMeta` are values; the names with `Struct` lie in memory and stand for a
-- value. `tolerations_value` and `pull_secrets_value` are a slice as one value.
pub record Types : Type 1 where
  pub TypeMeta : Type 0
  pub LocalObjectReference : Type 0
  pub ResourcesStruct : Type 0
  pub AffinityStruct : Type 0
  pub TolerationStruct : Type 0
  pub EnvVarStruct : Type 0
  pub ConditionStruct : Type 0
  pub ObjectMetaStruct : Type 0
  pub ListMetaStruct : Type 0

pub record Library (K : Kube) (T : Types) : Type 1 where
  pub Cell : Type 0
  pub Toleration : Type 0
  pub ListMeta : Type 0
  pub resources : Copier Cell T.ResourcesStruct K.Resources
  pub affinity : Copier Cell T.AffinityStruct K.Affinity
  pub toleration : Copier Cell T.TolerationStruct Toleration
  pub env_var : Copier Cell T.EnvVarStruct (EnvVar K)
  pub condition : Copier Cell T.ConditionStruct (Condition K)
  pub object_meta : Copier Cell T.ObjectMetaStruct (ObjectMeta K)
  pub list_meta : Copier Cell T.ListMetaStruct ListMeta
  pub tolerations_value : Option (List Toleration) → K.Tolerations
  pub pull_secrets_value : Option (List T.LocalObjectReference) → K.PullSecrets
  -- the cells of these types
  pub string : Stored Cell String
  pub int32 : Stored Cell ℤ
  pub int_or_string : Stored Cell K.IntOrString
  pub entries : Stored Cell Entries
  pub affinity_cell : Stored Cell T.AffinityStruct
  pub access_modes : Stored Cell (List String)
  pub references : Stored Cell (List T.LocalObjectReference)
  pub tolerations : Stored Cell (List T.TolerationStruct)
  pub env_vars : Stored Cell (List T.EnvVarStruct)
  pub conditions : Stored Cell (List T.ConditionStruct)

pub record IngressStruct : Type 0 where
  pub enabled : Bool
  pub ingress_class_name : Reference
  pub host : String
  pub tls_secret_name : String
  pub annotations : Reference

pub record ServiceStruct : Type 0 where
  pub type : String
  pub port : ℤ
  pub node_port : ℤ
  pub annotations : Reference

pub record PersistenceStruct : Type 0 where
  pub enabled : Bool
  pub size : String
  pub storage_class_name : Reference
  pub access_modes : Reference

pub record DatabaseStruct : Type 0 where
  pub mode : String
  pub name : String
  pub user : String
  pub table_prefix : String
  pub internal : Reference
  pub external : Reference

pub record InternalDatabaseStruct (T : Types) : Type 0 where
  pub image : String
  pub image_pull_policy : String
  pub storage_size : String
  pub storage_class_name : Reference
  pub resources : T.ResourcesStruct
  pub root_password_secret : Reference
  pub node_selector : Reference
  pub tolerations : Reference
  pub affinity : Reference

pub record SpecStruct (T : Types) : Type 0 where
  pub image : String
  pub image_pull_policy : String
  pub image_pull_secrets : Reference
  pub replicas : Reference
  pub resources : T.ResourcesStruct
  pub site_url : String
  pub env : Reference
  pub database : DatabaseStruct
  pub service : ServiceStruct
  pub ingress : IngressStruct
  pub persistence : PersistenceStruct
  pub autoscaling : AutoscalingSpec
  pub pod_annotations : Reference
  pub pod_labels : Reference
  pub node_selector : Reference
  pub tolerations : Reference
  pub affinity : Reference
  pub max_unavailable : Reference
  pub max_surge : Reference

pub record StatusStruct : Type 0 where
  pub observed_generation : ℤ
  pub phase : String
  pub url : String
  pub replicas : ℤ
  pub ready_replicas : ℤ
  pub database_host : String
  pub conditions : Reference

pub record WordPressStruct (T : Types) : Type 0 where
  pub type_meta : T.TypeMeta
  pub metadata : T.ObjectMetaStruct
  pub spec : SpecStruct T
  pub status : StatusStruct

pub record ListStruct (T : Types) : Type 0 where
  pub type_meta : T.TypeMeta
  pub metadata : T.ListMetaStruct
  pub items : Reference

-- The cells of the structs of this package.
pub record Cells {K : Kube} {T : Types} (L : Library K T) : Type 0 where
  pub secret_key_ref : Stored L.Cell SecretKeyRef
  pub external : Stored L.Cell ExternalDatabaseSpec
  pub autoscaling : Stored L.Cell AutoscalingSpec
  pub ingress : Stored L.Cell IngressStruct
  pub service : Stored L.Cell ServiceStruct
  pub persistence : Stored L.Cell PersistenceStruct
  pub database : Stored L.Cell DatabaseStruct
  pub internal : Stored L.Cell (InternalDatabaseStruct T)
  pub spec : Stored L.Cell (SpecStruct T)
  pub status : Stored L.Cell StatusStruct
  pub wordpress : Stored L.Cell (WordPressStruct T)
  pub wordpresses : Stored L.Cell (List (WordPressStruct T))
  pub wordpress_list : Stored L.Cell (ListStruct T)
