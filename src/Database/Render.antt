-- ===== src/Database/Render.antt =====
-- internal/controller/database.go: `buildMySQLStatefulSet` and `resolvedDBHost`.
use operator_wordpress.Base.{String, ◌<>◌, ◌==◌, if◌then◌else◌, none, some, [], ◌∷◌, inl, inr}
use operator_wordpress.Base.Int.{ℤ, pos}
use operator_wordpress.Kube.{Kube}
use operator_wordpress.Kube.Meta.{new_meta}
use operator_wordpress.Kube.Pods.{PodTemplateSpec}
use operator_wordpress.Kube.Workloads.{StatefulSet, PersistentVolumeClaim}
use operator_wordpress.Kube.Outcome.{Outcome, done, failed, wrapped, deref, ◌>>=◌}
use operator_wordpress.Api.{WordPress, InternalDatabaseSpec, database_mode_external}
use operator_wordpress.Names.{
  common_labels, selector_labels, component_mysql, db_service_name, db_stateful_set_name,
}
use operator_wordpress.Database.{mysql_container}

module _ {K : Kube} where
  -- `resource.ParseQuantity`, its error wrapped in a text
  unfoldable pub parse_size : String → String → Outcome K K.Quantity
  parse_size field size = elim (K.parse_quantity size) [
    | inl q ↦ done q
    | inr e ↦ failed (wrapped ("invalid " <> field <> " " <> K.quote size) e)
  ]

  unfoldable pub mysql_template : WordPress K → InternalDatabaseSpec K → PodTemplateSpec K
  unfolding mysql_container
  mysql_template wp internal = record {
    metadata = new_meta "" "" (common_labels wp component_mysql) none;
    spec = record {
      init_containers = none;
      image_pull_secrets = K.no_pull_secrets;
      node_selector = internal.node_selector;
      tolerations = internal.tolerations;
      affinity = internal.affinity;
      containers = mysql_container wp internal ∷ [];
      volumes = none;
      rest = K.rest;
    };
  }

  unfoldable pub data_claim_template : InternalDatabaseSpec K → K.Quantity → PersistentVolumeClaim K
  data_claim_template internal q = record {
    metadata = new_meta "data" "" none none;
    spec = record {
      access_modes = "ReadWriteOnce" ∷ [];
      storage_class_name = internal.storage_class_name;
      requests = ("storage", q) ∷ [];
      rest = K.rest;
    };
    rest = K.rest;
  }

  unfoldable pub mysql_stateful_set :
      WordPress K → InternalDatabaseSpec K → K.Quantity → StatefulSet K
  unfolding mysql_template data_claim_template
  mysql_stateful_set wp internal q = record {
    metadata =
        new_meta (db_stateful_set_name wp) wp.metadata.namespace (common_labels wp component_mysql)
          none;
    spec = record {
      service_name = db_service_name wp;
      replicas = some (pos 1);
      selector = some (record { match_labels = selector_labels wp component_mysql; rest = K.rest });
      template = mysql_template wp internal;
      volume_claim_templates = data_claim_template internal q ∷ [];
      rest = K.rest;
    };
    status = record { ready_replicas = pos 0; rest = K.rest };
  }

  unfoldable pub build_mysql_stateful_set : WordPress K → Outcome K (StatefulSet K)
  unfolding mysql_stateful_set parse_size
  build_mysql_stateful_set wp = do
    internal ← deref wp.spec.database.internal
    q ← parse_size "database.internal.storageSize" internal.storage_size
    done (mysql_stateful_set wp internal q)

  unfoldable pub resolved_db_host : WordPress K → Outcome K (String × ℤ)
  resolved_db_host wp =
      if wp.spec.database.mode == database_mode_external
      then (do e ← deref wp.spec.database.external; done (e.host, e.port))
      else done (db_service_name wp <> "." <> wp.metadata.namespace <> ".svc", pos 3306)
