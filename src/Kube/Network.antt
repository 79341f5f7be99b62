-- ===== src/Kube/Network.antt =====
-- Services and ingresses (k8s.io/api).
use operator_wordpress.Base.{String, List, Option, String-discrete}
use operator_wordpress.Base.Int.{ℤ, ℤ-discrete}
use operator_wordpress.Base.StringMap.{StringMap, StringMap-discrete}
use operator_wordpress.Kube.{Kube}
use operator_wordpress.Kube.Meta.{ObjectMeta}

pub record ServicePort (K : Kube) : Type 0 where
  pub name : String
  pub port : ℤ
  pub target_port : K.IntOrString
  pub protocol : String
  pub node_port : ℤ
  pub rest : K.Rest

pub record ServiceSpec (K : Kube) : Type 0 where
  pub type : String
  pub cluster_ip : String
  pub session_affinity : String
  pub selector : StringMap
  pub ports : Option (List (ServicePort K))
  pub rest : K.Rest

pub record Service (K : Kube) : Type 0 where
  pub metadata : ObjectMeta K
  pub spec : ServiceSpec K
  pub rest : K.Rest

-- `networkingv1.HTTPIngressPath` with its service backend: the service's name and port number.
pub record HttpIngressPath (K : Kube) : Type 0 where
  pub path : String
  pub path_type : Option String
  pub service_name : String
  pub service_port : ℤ
  pub rest : K.Rest

pub record IngressRule (K : Kube) : Type 0 where
  pub host : String
  pub http : Option (List (HttpIngressPath K))

pub record IngressTls : Type 0 where
  pub hosts : List String
  pub secret_name : String

pub record IngressSpec (K : Kube) : Type 0 where
  pub ingress_class_name : Option String
  pub rules : List (IngressRule K)
  pub tls : Option (List IngressTls)
  pub rest : K.Rest

pub record Ingress (K : Kube) : Type 0 where
  pub metadata : ObjectMeta K
  pub spec : IngressSpec K
  pub rest : K.Rest

module _ (K : Kube) where
  pub ServiceSpec-discrete : Discrete (ServiceSpec K)
  ServiceSpec-discrete =
      hlevel
        (String-discrete, StringMap-discrete, ℤ-discrete, K.int_or_string_discrete, K.rest_discrete)

  pub IngressSpec-discrete : Discrete (IngressSpec K)
  IngressSpec-discrete = hlevel (String-discrete, ℤ-discrete, K.rest_discrete)
