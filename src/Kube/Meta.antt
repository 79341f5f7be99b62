-- ===== src/Kube/Meta.antt =====
-- Object metadata, keys, conditions and owner references (k8s.io/apimachinery).
use operator_wordpress.Base.{String, List, [], String-discrete}
use operator_wordpress.Base.Int.{ℤ, pos, ℤ-discrete}
use operator_wordpress.Base.StringMap.{StringMap, StringMap-discrete}
use operator_wordpress.Kube.{Kube}

-- `types.NamespacedName`
pub record NamespacedName : Type 0 where
  pub namespace : String
  pub name : String

pub record ObjectMeta (K : Kube) : Type 0 where
  pub name : String
  pub namespace : String
  pub labels : StringMap
  pub annotations : StringMap
  pub finalizers : List String
  pub generation : ℤ
  pub deletion_timestamp : K.Timestamp
  pub rest : K.Rest

-- `metav1.Condition`; `rest` holds its observed generation and its time of transition.
pub record Condition (K : Kube) : Type 0 where
  pub type : String
  pub status : String
  pub reason : String
  pub message : String
  pub rest : K.Rest

pub record LabelSelector (K : Kube) : Type 0 where
  pub match_labels : StringMap
  pub rest : K.Rest

module _ (K : Kube) where
  pub ObjectMeta-discrete : Discrete (ObjectMeta K)
  ObjectMeta-discrete =
      hlevel
        (String-discrete, StringMap-discrete, ℤ-discrete, K.timestamp_discrete, K.rest_discrete)

module _ {K : Kube} where
  -- `client.ObjectKeyFromObject`
  abbrev pub object_key : ObjectMeta K → NamespacedName
  object_key m = record { namespace = m.namespace; name = m.name }

  -- A composite literal of metadata.
  abbrev pub new_meta : String → String → StringMap → StringMap → ObjectMeta K
  new_meta name namespace labels annotations = record {
    name = name;
    namespace = namespace;
    labels = labels;
    annotations = annotations;
    finalizers = [];
    generation = pos 0;
    deletion_timestamp = K.no_timestamp;
    rest = K.rest;
  }
