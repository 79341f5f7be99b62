-- ===== src/Sample.antt =====
-- A cluster that keeps its objects in memory, at which the theorems are applied: it shows that the
-- hypotheses about the libraries can be met together.
pub mod Memory
pub mod Laws
pub mod Objects
pub mod Process
pub mod GoMemory
mod Tests
mod PartTests
mod StepTests
mod StartTests
mod SteadyTests
mod FirstTests
mod CopyTests
mod HistoryTests
use operator_wordpress.Base.{
  String, ◌<>◌, if◌then◌else◌, Bool, true, false, Option, none, inl, refl,
}
use operator_wordpress.Base.{String-discrete}
use operator_wordpress.Base.Int.{ℤ, ℤ-discrete}
use operator_wordpress.Kube.{Kube}

pub data SampleError : Type 0 where
  missing present conflict : SampleError

pub Unit-discrete : Discrete (Unit {0})
Unit-discrete x y = yes refl

pub Bool_discrete : Discrete Bool
Bool_discrete = hlevel

pub Owner-discrete : Discrete (Option String)
Owner-discrete = hlevel String-discrete

-- `Rest` is the name of the controlling owner; a timestamp says whether it is set.
abbrev pub kube : Kube
kube = record {
  Affinity = Unit;
  Tolerations = Unit;
  PullSecrets = Unit;
  Resources = Unit;
  IntOrString = ℤ;
  Quantity = String;
  Timestamp = Bool;
  Error = SampleError;
  Rest = Option String;
  affinity_discrete = Unit-discrete;
  tolerations_discrete = Unit-discrete;
  pull_secrets_discrete = Unit-discrete;
  resources_discrete = Unit-discrete;
  int_or_string_discrete = ℤ-discrete;
  quantity_discrete = String-discrete;
  timestamp_discrete = Bool_discrete;
  rest_discrete = Owner-discrete;
  rest = none;
  no_resources = tt;
  no_tolerations = tt;
  no_pull_secrets = tt;
  no_timestamp = false;
  from_int = λ n. n;
  is_zero = λ t. if t then false else true;
  quote = λ s. "\"" <> s <> "\"";
  is_not_found = λ e. elim e [ missing ↦ true | _ ↦ false ];
  is_conflict = λ e. elim e [ conflict ↦ true | _ ↦ false ];
  parse_quantity = λ s. inl s;
}
