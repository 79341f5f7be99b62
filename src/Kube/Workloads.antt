-- ===== src/Kube/Workloads.antt =====
-- Deployments, stateful sets, claims, secrets and autoscalers (k8s.io/api).
use operator_wordpress.Base.{String, List, Option, String-discrete}
use operator_wordpress.Base.Int.{ℤ, ℤ-discrete}
use operator_wordpress.Base.StringMap.{StringMap}
use operator_wordpress.Kube.{Kube}
use operator_wordpress.Kube.Meta.{ObjectMeta, LabelSelector}
use operator_wordpress.Kube.Pods.{PodTemplateSpec}

pub record RollingUpdate (K : Kube) : Type 0 where
  pub max_unavailable : Option K.IntOrString
  pub max_surge : Option K.IntOrString

pub record DeploymentStrategy (K : Kube) : Type 0 where
  pub type : String
  pub rolling_update : Option (RollingUpdate K)

pub record DeploymentSpec (K : Kube) : Type 0 where
  pub replicas : Option ℤ
  pub selector : Option (LabelSelector K)
  pub strategy : DeploymentStrategy K
  pub template : PodTemplateSpec K
  pub rest : K.Rest

pub record DeploymentStatus (K : Kube) : Type 0 where
  pub replicas : ℤ
  pub ready_replicas : ℤ
  pub rest : K.Rest

pub record Deployment (K : Kube) : Type 0 where
  pub metadata : ObjectMeta K
  pub spec : DeploymentSpec K
  pub status : DeploymentStatus K

-- `requests` is the resource list of `resources.requests`.
pub record PersistentVolumeClaimSpec (K : Kube) : Type 0 where
  pub access_modes : List String
  pub storage_class_name : Option String
  pub requests : List (String × K.Quantity)
  pub rest : K.Rest

pub record PersistentVolumeClaim (K : Kube) : Type 0 where
  pub metadata : ObjectMeta K
  pub spec : PersistentVolumeClaimSpec K
  pub rest : K.Rest

pub record StatefulSetSpec (K : Kube) : Type 0 where
  pub service_name : String
  pub replicas : Option ℤ
  pub selector : Option (LabelSelector K)
  pub template : PodTemplateSpec K
  pub volume_claim_templates : List (PersistentVolumeClaim K)
  pub rest : K.Rest

pub record StatefulSetStatus (K : Kube) : Type 0 where
  pub ready_replicas : ℤ
  pub rest : K.Rest

pub record StatefulSet (K : Kube) : Type 0 where
  pub metadata : ObjectMeta K
  pub spec : StatefulSetSpec K
  pub status : StatefulSetStatus K

pub record Secret (K : Kube) : Type 0 where
  pub metadata : ObjectMeta K
  pub string_data : StringMap
  pub type : String
  pub rest : K.Rest

pub record CrossVersionObjectReference : Type 0 where
  pub api_version : String
  pub kind : String
  pub name : String

pub record MetricTarget (K : Kube) : Type 0 where
  pub type : String
  pub average_utilization : Option ℤ
  pub rest : K.Rest

pub record ResourceMetricSource (K : Kube) : Type 0 where
  pub name : String
  pub target : MetricTarget K

pub record MetricSpec (K : Kube) : Type 0 where
  pub type : String
  pub resource : Option (ResourceMetricSource K)
  pub rest : K.Rest

pub record HorizontalPodAutoscalerSpec (K : Kube) : Type 0 where
  pub scale_target_ref : CrossVersionObjectReference
  pub min_replicas : Option ℤ
  pub max_replicas : ℤ
  pub metrics : List (MetricSpec K)
  pub rest : K.Rest

pub record HorizontalPodAutoscaler (K : Kube) : Type 0 where
  pub metadata : ObjectMeta K
  pub spec : HorizontalPodAutoscalerSpec K
  pub rest : K.Rest

module _ (K : Kube) where
  pub DeploymentStrategy-discrete : Discrete (DeploymentStrategy K)
  DeploymentStrategy-discrete = hlevel (String-discrete, K.int_or_string_discrete)

  pub HorizontalPodAutoscalerSpec-discrete : Discrete (HorizontalPodAutoscalerSpec K)
  HorizontalPodAutoscalerSpec-discrete = hlevel (String-discrete, ℤ-discrete, K.rest_discrete)
