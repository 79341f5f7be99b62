-- ===== src/Database/Laws.antt =====
-- The credentials in the generated Secret, and what the containers read.
use operator_wordpress.Base.{
  String, ◌==◌, if◌then◌else◌, ◌≡◌, Option, none, some, [], ◌∷◌, map, eq_refl,
}
use operator_wordpress.Base.StringMap.{get, entries}
use operator_wordpress.Kube.{Kube}
use operator_wordpress.Kube.Pods.{SecretKeySelector, EnvVar, EnvVarSource}
use operator_wordpress.Kube.Workloads.{Secret}
use operator_wordpress.Api.{WordPress, InternalDatabaseSpec}
use operator_wordpress.Names.{db_secret_name}
use operator_wordpress.Database.{mysql_secret, mysql_envs}
use operator_wordpress.Resources.Deployment.{env_from_internal_db_secret}

module _ {K : Kube} (s : Secret K) where
  abbrev pub value_at : Option (SecretKeySelector K) → Option String
  value_at none = none
  value_at (some r) = if r.name == s.metadata.name then get r.key (entries s.string_data) else none

  abbrev pub value_of : String → Option (EnvVarSource K) → Option String
  value_of value none = some value
  value_of value (some src) = value_at src.secret_key_ref

  -- What a container reads in a variable, when the Secret is the only one there.
  abbrev pub resolve : EnvVar K → Option String
  resolve e = value_of e.value e.value_from

module _ {K : Kube} (wp : WordPress K) (root password : String) where
  -- With the Secret that the operator makes, MySQL starts with its root password, the database, the
  -- user and the password of the spec and the Secret, and WordPress logs in with that password. No
  -- Secret of the user's own gives the root password.
  pub credentials_agree :
      (internal : InternalDatabaseSpec K)
      → internal.root_password_secret ≡ none
      → (map (resolve (mysql_secret wp root password)) (mysql_envs wp internal)
          ≡ some root
            ∷ some wp.spec.database.name
            ∷ some wp.spec.database.user
            ∷ some password
            ∷ [])
        × (map
              (resolve (mysql_secret wp root password))
              (env_from_internal_db_secret K (db_secret_name wp))
            ≡ some password ∷ [])
  unfolding mysql_secret mysql_envs env_from_internal_db_secret entries get
  credentials_agree internal own = (simp (own, eq_refl), simp eq_refl)
