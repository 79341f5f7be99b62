-- ===== src/Kube.antt =====
-- What the operator takes from the Kubernetes libraries (k8s.io/api, k8s.io/apimachinery), which
-- are not part of this repository: types whose values it passes on without looking inside, and
-- the functions that it calls on plain values.
pub mod Meta
pub mod Pods
pub mod Workloads
pub mod Network
pub mod Outcome
use operator_wordpress.Base.{String, Bool, ◌⊎◌}
use operator_wordpress.Base.Int.{ℤ}

-- `Rest` holds, for each API struct, the fields that the operator never names. `rest` is their
-- zero value, which a composite literal leaves there. `Tolerations` and `PullSecrets` are slices.
pub record Kube : Type 1 where
  pub Affinity : Type 0
  pub Tolerations : Type 0
  pub PullSecrets : Type 0
  pub Resources : Type 0
  pub IntOrString : Type 0
  pub Quantity : Type 0
  pub Timestamp : Type 0
  pub Error : Type 0
  pub Rest : Type 0
  pub affinity_discrete : Discrete Affinity
  pub tolerations_discrete : Discrete Tolerations
  pub pull_secrets_discrete : Discrete PullSecrets
  pub resources_discrete : Discrete Resources
  pub int_or_string_discrete : Discrete IntOrString
  pub quantity_discrete : Discrete Quantity
  pub timestamp_discrete : Discrete Timestamp
  pub rest_discrete : Discrete Rest
  pub rest : Rest
  pub no_resources : Resources
  pub no_tolerations : Tolerations
  pub no_pull_secrets : PullSecrets
  pub no_timestamp : Timestamp
  -- `intstr.FromInt`, `(*metav1.Time).IsZero`, and `%q` of package fmt
  pub from_int : ℤ → IntOrString
  pub is_zero : Timestamp → Bool
  pub quote : String → String
  -- `apierrors.IsNotFound`, `apierrors.IsConflict` and `resource.ParseQuantity`
  pub is_not_found : Error → Bool
  pub is_conflict : Error → Bool
  pub parse_quantity : String → Quantity ⊎ Error
