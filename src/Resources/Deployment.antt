-- ===== src/Resources/Deployment.antt =====
-- internal/controller/resources.go: `buildWordPressDeployment`, in the order of its text.
use operator_wordpress.Base.{
  String, ◌<>◌, ◌==◌, if◌then◌else◌, Option, none, some, List, [], ◌∷◌, ◌++◌,
}
use operator_wordpress.Base.Int.{ℤ, pos}
use operator_wordpress.Base.Text.{show_ℤ}
use operator_wordpress.Kube.{Kube}
use operator_wordpress.Kube.Meta.{new_meta}
use operator_wordpress.Kube.Pods.{EnvVar, Volume, Container, PodTemplateSpec}
use operator_wordpress.Kube.Workloads.{Deployment, DeploymentStrategy}
use operator_wordpress.Api.{WordPress, SecretKeyRef, database_mode_internal}
use operator_wordpress.Names.{
  common_labels, selector_labels, merge_string_maps, component_wordpress, wp_name, wp_pvc_name,
}
use operator_wordpress.Database.{from_secret}

module _ (K : Kube) where
  unfoldable pub env_from_internal_db_secret : String → List (EnvVar K)
  unfolding from_secret
  env_from_internal_db_secret secret_name =
      record {
        name = "WORDPRESS_DB_PASSWORD";
        value = "";
        value_from = from_secret secret_name "wordpress-password";
      }
      ∷ []

  unfoldable pub env_from_external_db_secret : SecretKeyRef → List (EnvVar K)
  unfolding from_secret
  env_from_external_db_secret r =
      record { name = "WORDPRESS_DB_PASSWORD"; value = ""; value_from = from_secret r.name r.key }
      ∷ []

  -- `{Name: name, Value: value}`
  abbrev pub plain_env : String → String → EnvVar K
  plain_env name value = record { name = name; value = value; value_from = none }

module _ {K : Kube} where
  unfoldable pub wordpress_envs : WordPress K → String → ℤ → List (EnvVar K) → List (EnvVar K)
  wordpress_envs wp host port db_env =
      (plain_env K "WORDPRESS_DB_HOST" (host <> ":" <> show_ℤ port)
        ∷ plain_env K "WORDPRESS_DB_NAME" wp.spec.database.name
        ∷ plain_env K "WORDPRESS_DB_USER" wp.spec.database.user
        ∷ plain_env K "WORDPRESS_TABLE_PREFIX" wp.spec.database.table_prefix
        ∷ db_env)
      ++ ((if wp.spec.site_url == ""
            then []
            else plain_env K "WORDPRESS_HOME" wp.spec.site_url
              ∷ plain_env K "WORDPRESS_SITEURL" wp.spec.site_url
              ∷ [])
          ++ wp.spec.env)

  unfoldable pub content_volume : WordPress K → Volume K
  content_volume wp =
      if wp.spec.persistence.enabled
      then record {
        name = "wp-content";
        persistent_volume_claim = some (wp_pvc_name wp);
        empty_dir = none;
        rest = K.rest;
      }
      else record {
        name = "wp-content";
        persistent_volume_claim = none;
        empty_dir = some K.rest;
        rest = K.rest;
      }

  unfoldable pub rolling_strategy : WordPress K → DeploymentStrategy K
  rolling_strategy wp = record {
    type = "RollingUpdate";
    rolling_update =
        some (record { max_unavailable = wp.spec.max_unavailable; max_surge = wp.spec.max_surge });
  }

  -- The host that the init container waits for.
  unfoldable pub wait_host : WordPress K → String
  wait_host wp = wp.metadata.name <> "-mysql." <> wp.metadata.namespace <> ".svc"

  unfoldable pub wait_for_db : WordPress K → Container K
  wait_for_db wp = record {
    name = "wait-for-db";
    image = "busybox:1.36";
    image_pull_policy = "IfNotPresent";
    command = some (
        "sh"
        ∷ "-c"
        ∷ ("until nc -z -w2 "
            <> wait_host wp
            <> " 3306; do echo 'waiting for mysql'; sleep 3; done")
        ∷ []);
    ports = none;
    env = none;
    resources = K.no_resources;
    volume_mounts = none;
    readiness_probe = none;
    liveness_probe = none;
    rest = K.rest;
  }

  unfoldable pub init_containers : WordPress K → Option (List (Container K))
  unfolding wait_for_db
  init_containers wp =
      if wp.spec.database.mode == database_mode_internal then some (wait_for_db wp ∷ []) else none

  unfoldable pub wordpress_container : WordPress K → List (EnvVar K) → Container K
  wordpress_container wp envs = record {
    name = "wordpress";
    image = wp.spec.image;
    image_pull_policy = wp.spec.image_pull_policy;
    command = none;
    ports =
        some
          (record { name = "http"; container_port = pos 80; protocol = "TCP"; rest = K.rest } ∷ []);
    env = some envs;
    resources = wp.spec.resources;
    volume_mounts =
        some (record { name = "wp-content"; mount_path = "/var/www/html"; rest = K.rest } ∷ []);
    readiness_probe = some (record {
      exec = none;
      http_get = some (record {
        path = "/wp-login.php";
        port = K.from_int (pos 80);
        scheme = "HTTP";
        rest = K.rest;
      });
      tcp_socket = none;
      initial_delay_seconds = pos 20;
      period_seconds = pos 10;
      timeout_seconds = pos 5;
      failure_threshold = pos 6;
      rest = K.rest;
    });
    liveness_probe = some (record {
      exec = none;
      http_get = none;
      tcp_socket = some (record { port = K.from_int (pos 80); rest = K.rest });
      initial_delay_seconds = pos 60;
      period_seconds = pos 20;
      timeout_seconds = pos 5;
      failure_threshold = pos 6;
      rest = K.rest;
    });
    rest = K.rest;
  }

  unfoldable pub wordpress_template : WordPress K → List (EnvVar K) → PodTemplateSpec K
  wordpress_template wp envs = record {
    metadata =
        new_meta "" ""
          (merge_string_maps (common_labels wp component_wordpress) (wp.spec.pod_labels ∷ []))
          wp.spec.pod_annotations;
    spec = record {
      init_containers = init_containers wp;
      image_pull_secrets = wp.spec.image_pull_secrets;
      node_selector = wp.spec.node_selector;
      tolerations = wp.spec.tolerations;
      affinity = wp.spec.affinity;
      containers = wordpress_container wp envs ∷ [];
      volumes = some (content_volume wp ∷ []);
      rest = K.rest;
    };
  }

  unfoldable pub build_wordpress_deployment :
      WordPress K → String → ℤ → List (EnvVar K) → Deployment K
  unfolding wordpress_template wordpress_envs
  build_wordpress_deployment wp host port db_env = record {
    metadata =
        new_meta (wp_name wp) wp.metadata.namespace (common_labels wp component_wordpress) none;
    spec = record {
      replicas = if wp.spec.autoscaling.enabled then none else wp.spec.replicas;
      selector =
          some (record { match_labels = selector_labels wp component_wordpress; rest = K.rest });
      strategy = rolling_strategy wp;
      template = wordpress_template wp (wordpress_envs wp host port db_env);
      rest = K.rest;
    };
    status = record { replicas = pos 0; ready_replicas = pos 0; rest = K.rest };
  }
