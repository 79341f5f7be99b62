-- ===== src/Kube/Pods.antt =====
-- Pod templates (k8s.io/api/core/v1). A slice that the operator may leave nil is an `Option` of a
-- list, since `reflect.DeepEqual` tells nil from empty.
use operator_wordpress.Base.{String, List, Option, String-discrete}
use operator_wordpress.Base.Int.{ℤ, ℤ-discrete}
use operator_wordpress.Base.StringMap.{StringMap, StringMap-discrete}
use operator_wordpress.Kube.{Kube}
use operator_wordpress.Kube.Meta.{ObjectMeta, ObjectMeta-discrete}

pub record SecretKeySelector (K : Kube) : Type 0 where
  pub name : String
  pub key : String
  pub rest : K.Rest

pub record EnvVarSource (K : Kube) : Type 0 where
  pub secret_key_ref : Option (SecretKeySelector K)
  pub rest : K.Rest

pub record EnvVar (K : Kube) : Type 0 where
  pub name : String
  pub value : String
  pub value_from : Option (EnvVarSource K)

pub record ContainerPort (K : Kube) : Type 0 where
  pub name : String
  pub container_port : ℤ
  pub protocol : String
  pub rest : K.Rest

pub record VolumeMount (K : Kube) : Type 0 where
  pub name : String
  pub mount_path : String
  pub rest : K.Rest

pub record HttpGetAction (K : Kube) : Type 0 where
  pub path : String
  pub port : K.IntOrString
  pub scheme : String
  pub rest : K.Rest

pub record TcpSocketAction (K : Kube) : Type 0 where
  pub port : K.IntOrString
  pub rest : K.Rest

pub record Probe (K : Kube) : Type 0 where
  pub exec : Option (List String)
  pub http_get : Option (HttpGetAction K)
  pub tcp_socket : Option (TcpSocketAction K)
  pub initial_delay_seconds : ℤ
  pub period_seconds : ℤ
  pub timeout_seconds : ℤ
  pub failure_threshold : ℤ
  pub rest : K.Rest

pub record Container (K : Kube) : Type 0 where
  pub name : String
  pub image : String
  pub image_pull_policy : String
  pub command : Option (List String)
  pub ports : Option (List (ContainerPort K))
  pub env : Option (List (EnvVar K))
  pub resources : K.Resources
  pub volume_mounts : Option (List (VolumeMount K))
  pub readiness_probe : Option (Probe K)
  pub liveness_probe : Option (Probe K)
  pub rest : K.Rest

-- `persistent_volume_claim` is the source's claim name; `empty_dir` its (unnamed) fields.
pub record Volume (K : Kube) : Type 0 where
  pub name : String
  pub persistent_volume_claim : Option String
  pub empty_dir : Option K.Rest
  pub rest : K.Rest

pub record PodSpec (K : Kube) : Type 0 where
  pub init_containers : Option (List (Container K))
  pub image_pull_secrets : K.PullSecrets
  pub node_selector : StringMap
  pub tolerations : K.Tolerations
  pub affinity : Option K.Affinity
  pub containers : List (Container K)
  pub volumes : Option (List (Volume K))
  pub rest : K.Rest

pub record PodTemplateSpec (K : Kube) : Type 0 where
  pub metadata : ObjectMeta K
  pub spec : PodSpec K

module _ (K : Kube) where
  EnvVar-discrete : Discrete (EnvVar K)
  EnvVar-discrete = hlevel (String-discrete, K.rest_discrete)

  Probe-discrete : Discrete (Probe K)
  Probe-discrete = hlevel (String-discrete, ℤ-discrete, K.int_or_string_discrete, K.rest_discrete)

  Container-discrete : Discrete (Container K)
  Container-discrete = hlevel (
    String-discrete, ℤ-discrete, EnvVar-discrete, Probe-discrete, K.resources_discrete,
    K.rest_discrete,
  )

  PodSpec-discrete : Discrete (PodSpec K)
  PodSpec-discrete = hlevel (
    String-discrete, StringMap-discrete, Container-discrete, K.pull_secrets_discrete,
    K.tolerations_discrete, K.affinity_discrete, K.rest_discrete,
  )

  pub PodTemplateSpec-discrete : Discrete (PodTemplateSpec K)
  PodTemplateSpec-discrete = hlevel (ObjectMeta-discrete K, PodSpec-discrete)
