-- ===== src/Startup/Library.antt =====
-- What the process takes from controller-runtime, client-go and the packages flag and crypto/tls,
-- none of which is in this repository: the record `Runtime`, and the structs it fills.
use operator_wordpress.Base.{String, Bool, Option, List, ◌⊎◌, ℕ}
use operator_wordpress.Cluster.{Kind}

-- `schema.GroupVersion`
pub record GroupVersion : Type 0 where
  pub group : String
  pub version : String

-- `tls.Config`, with the other fields as one.
pub record TlsConfig (R : Type 0) : Type 0 where
  pub next_protos : List String
  pub rest : R

-- The variables of `main` that the command line sets.
pub record Flags : Type 0 where
  pub metrics_addr : String
  pub probe_addr : String
  pub enable_leader_election : Bool
  pub secure_metrics : Bool
  pub webhook_cert_path : String
  pub webhook_cert_name : String
  pub webhook_cert_key : String
  pub metrics_cert_path : String
  pub metrics_cert_name : String
  pub metrics_cert_key : String
  pub enable_http2 : Bool

-- A call of `flag.StringVar` or `flag.BoolVar`: the name and the default of the flag, and its
-- variable, as what changes it.
pub data Var : Type 0 where
  string_var : String → String → ((String → String) → Flags → Flags) → Var
  bool_var : String → Bool → ((Bool → Bool) → Flags → Flags) → Var

-- `webhook.Options`
pub record WebhookOptions (R : Type 0) : Type 0 where
  pub tls_opts : List (TlsConfig R → TlsConfig R)
  pub cert_dir : String
  pub cert_name : String
  pub key_name : String

-- `metricsserver.Options`; `F` is the type of the functions that protect the endpoint.
pub record MetricsOptions (R F : Type 0) : Type 0 where
  pub bind_address : String
  pub secure_serving : Bool
  pub filter_provider : Option F
  pub tls_opts : List (TlsConfig R → TlsConfig R)
  pub cert_dir : String
  pub cert_name : String
  pub key_name : String

-- `ctrl.Options`, with a scheme and a webhook server of the library's types.
pub record ManagerOptions (R F Scheme Server : Type 0) : Type 0 where
  pub scheme : Scheme
  pub metrics : MetricsOptions R F
  pub webhook_server : Server
  pub health_probe_bind_address : String
  pub leader_election : Bool
  pub leader_election_id : String

-- The Go types that the API group registers.
pub data ApiType : Type 0 where
  wordpress_type wordpress_list_type : ApiType

-- The fields of the reconciler, at types of the library.
pub record WordPressReconciler (Client Scheme Recorder : Type 0) : Type 0 where
  pub client : Client
  pub scheme : Scheme
  pub recorder : Option Recorder

pub record Runtime : Type 1 where
  pub World : Type 0
  pub Error : Type 0
  pub Scheme : Type 0
  pub SchemeBuilder : Type 0
  pub Manager : Type 0
  pub Server : Type 0
  pub Client : Type 0
  pub Recorder : Type 0
  pub Filter : Type 0
  pub Config : Type 0
  pub Checker : Type 0
  pub TlsRest : Type 0
  pub Builder : Type 0
  pub Predicate : Type 0
  -- `runtime.NewScheme`, client-go's own `AddToScheme`, and `scheme.Builder` of controller-runtime
  pub new_scheme : Scheme
  pub add_client_go : Scheme → Option Error × Scheme
  pub new_builder : GroupVersion → SchemeBuilder
  pub register : SchemeBuilder → List ApiType → SchemeBuilder
  pub add_to_scheme : SchemeBuilder → Scheme → Option Error × Scheme
  -- `flag.Parse`, with the flags that are declared and the variables, which are at their defaults:
  -- the variables afterwards, or the code of the exit
  pub parse : List Var → Flags → World → (Flags ⊎ ℕ) × World
  -- `ctrl.GetConfigOrDie`: the code of the exit otherwise
  pub get_config_or_die : World → (Config ⊎ ℕ) × World
  pub new_webhook_server : WebhookOptions TlsRest → Server
  pub with_authentication_and_authorization : Filter
  pub new_manager :
      Config → ManagerOptions TlsRest Filter Scheme Server → World → (Manager ⊎ Error) × World
  pub get_client : Manager → Client
  pub get_scheme : Manager → Scheme
  pub get_event_recorder_for : Manager → String → Recorder
  pub ping : Checker
  pub add_healthz_check : Manager → String → Checker → World → Option Error × World
  pub add_readyz_check : Manager → String → Checker → World → Option Error × World
  -- `mgr.Start(ctrl.SetupSignalHandler())`
  pub start : Manager → World → Option Error × World
  -- `ctrl.NewControllerManagedBy` and the methods of its result
  pub new_controller_managed_by : Manager → Builder
  pub generation_changed : Predicate
  pub for_type : Kind → Predicate → Builder → Builder
  pub owns : Kind → Builder → Builder
  pub named : String → Builder → Builder
  pub complete : Builder → WordPressReconciler Client Scheme Recorder → World → Option Error × World
