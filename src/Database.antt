-- ===== src/Database.antt =====
-- internal/controller/database.go: the objects of the operator-managed MySQL.
pub mod Password
pub mod Render
pub mod Laws
use operator_wordpress.Base.{String, Option, none, some, List, [], ◌∷◌}
use operator_wordpress.Base.Int.{ℤ, pos}
use operator_wordpress.Kube.{Kube}
use operator_wordpress.Kube.Meta.{new_meta}
use operator_wordpress.Kube.Pods.{EnvVarSource, EnvVar, Probe, Container}
use operator_wordpress.Kube.Workloads.{Secret}
use operator_wordpress.Kube.Network.{Service}
use operator_wordpress.Api.{WordPress, InternalDatabaseSpec}
use operator_wordpress.Names.{
  common_labels, selector_labels, component_mysql, db_secret_name, db_service_name, write_all,
}

abbrev pub secret_key_root : String
secret_key_root = "mysql-root-password"

abbrev pub secret_key_wordpress_password : String
secret_key_wordpress_password = "wordpress-password"

abbrev pub secret_key_wordpress_user : String
secret_key_wordpress_user = "wordpress-user"

abbrev pub secret_key_wordpress_db : String
secret_key_wordpress_db = "wordpress-database"

abbrev ping_command : List String
ping_command = "sh" ∷ "-c" ∷ "mysqladmin ping -h 127.0.0.1 -uroot -p\"$MYSQL_ROOT_PASSWORD\"" ∷ []

module _ {K : Kube} where
  -- `&corev1.EnvVarSource{SecretKeyRef: ...}`
  unfoldable pub from_secret : String → String → Option (EnvVarSource K)
  from_secret name key = some (record {
    secret_key_ref = some (record { name = name; key = key; rest = K.rest });
    rest = K.rest;
  })

  -- The Secret of `buildMySQLSecret`, with the two passwords that it generates.
  unfoldable pub mysql_secret : WordPress K → String → String → Secret K
  unfolding write_all
  mysql_secret wp root_password wp_password = record {
    metadata =
        new_meta (db_secret_name wp) wp.metadata.namespace (common_labels wp component_mysql) none;
    string_data = some (
        write_all
          ((secret_key_root, root_password)
            ∷ (secret_key_wordpress_password, wp_password)
            ∷ (secret_key_wordpress_user, wp.spec.database.user)
            ∷ (secret_key_wordpress_db, wp.spec.database.name)
            ∷ [])
          []);
    type = "Opaque";
    rest = K.rest;
  }

  unfoldable pub build_mysql_headless_service : WordPress K → Service K
  build_mysql_headless_service wp = record {
    metadata =
        new_meta (db_service_name wp) wp.metadata.namespace (common_labels wp component_mysql) none;
    spec = record {
      type = "ClusterIP";
      cluster_ip = "None";
      session_affinity = "None";
      selector = selector_labels wp component_mysql;
      ports = some (
          record {
            name = "mysql";
            port = pos 3306;
            target_port = K.from_int (pos 3306);
            protocol = "TCP";
            node_port = pos 0;
            rest = K.rest;
          }
          ∷ []);
      rest = K.rest;
    };
    rest = K.rest;
  }

  unfoldable pub root_password_env : WordPress K → InternalDatabaseSpec K → EnvVar K
  unfolding from_secret
  root_password_env wp internal = record {
    name = "MYSQL_ROOT_PASSWORD";
    value = "";
    value_from = elim internal.root_password_secret [
      | none ↦ from_secret (db_secret_name wp) secret_key_root
      | some r ↦ from_secret r.name r.key
    ];
  }

  unfoldable pub mysql_envs : WordPress K → InternalDatabaseSpec K → List (EnvVar K)
  unfolding root_password_env
  mysql_envs wp internal =
      root_password_env wp internal
      ∷ record { name = "MYSQL_DATABASE"; value = wp.spec.database.name; value_from = none }
      ∷ record { name = "MYSQL_USER"; value = wp.spec.database.user; value_from = none }
      ∷ record {
        name = "MYSQL_PASSWORD";
        value = "";
        value_from = from_secret (db_secret_name wp) secret_key_wordpress_password;
      }
      ∷ []

  unfoldable pub ping_probe : ℤ → ℤ → ℤ → ℤ → Probe K
  ping_probe delay period timeout threshold = record {
    exec = some ping_command;
    http_get = none;
    tcp_socket = none;
    initial_delay_seconds = delay;
    period_seconds = period;
    timeout_seconds = timeout;
    failure_threshold = threshold;
    rest = K.rest;
  }

  unfoldable pub mysql_container : WordPress K → InternalDatabaseSpec K → Container K
  unfolding mysql_envs ping_probe
  mysql_container wp internal = record {
    name = "mysql";
    image = internal.image;
    image_pull_policy = internal.image_pull_policy;
    command = none;
    ports = some (
        record { name = "mysql"; container_port = pos 3306; protocol = "TCP"; rest = K.rest } ∷ []);
    env = some (mysql_envs wp internal);
    resources = internal.resources;
    volume_mounts =
        some (record { name = "data"; mount_path = "/var/lib/mysql"; rest = K.rest } ∷ []);
    readiness_probe = some (ping_probe (pos 30) (pos 10) (pos 5) (pos 3));
    liveness_probe = some (ping_probe (pos 60) (pos 20) (pos 10) (pos 6));
    rest = K.rest;
  }
