-- ===== src/Reconciler/First/Built.antt =====
-- The objects that the pass that makes all objects builds, and the keys that they have.
use operator_wordpress.Base.{
  ℕ, arith, String, ◌≡◌, ◌==◌, refl, sym, true, false, some, List, inl, inr,
}
use operator_wordpress.Base.Int.{ℤ}
use mathlib.Core.Path.{subst}
use operator_wordpress.Kube.{Kube}
use operator_wordpress.Kube.Meta.{object_key}
use operator_wordpress.Kube.Pods.{EnvVar}
use operator_wordpress.Kube.Workloads.{Secret, StatefulSet, PersistentVolumeClaim}
use operator_wordpress.Kube.Outcome.{ok, done}
use operator_wordpress.Api.{
  WordPress, WordPressStatus, ExternalDatabaseSpec, InternalDatabaseSpec, database_mode_external,
}
use operator_wordpress.Names.{db_stateful_set_name, db_secret_name, wp_pvc_name}
use operator_wordpress.Validation.Laws.{HasDatabase}
use operator_wordpress.Database.{mysql_secret}
use operator_wordpress.Database.Password.{encode_to_string, generate_password, build_mysql_secret}
use operator_wordpress.Database.Render.{
  parse_size, build_mysql_stateful_set, mysql_stateful_set, resolved_db_host,
}
use operator_wordpress.Resources.{build_wordpress_pvc}
use operator_wordpress.Cluster.{Cluster, secret, stateful_set, claim}
use operator_wordpress.Reconciler.Site.{db_env}
use operator_wordpress.Reconciler.Settled.{true-ne-false}
use operator_wordpress.Reconciler.Steady.{with_status}
use operator_wordpress.Reconciler.Steady.Passes.{generate_password-Still}
use operator_wordpress.Reconciler.First.{Bare, child}

module _ {K : Kube} (C : Cluster K) (Still : ℕ → C.World → Type 0) (w : WordPress K)
    (bare : Bare C Still w) where
  -- The objects that can be built are, and under the keys of the children.
  generated :
      (v : C.World) → Still 0 v → (p : String) × ((generate_password C.read_random v).0 ≡ ok p)
  unfolding generate_password
  generated v still =
      let (bytes, e) = bare.random 24 v still in (encode_to_string bytes, ground arith)

  pub secret_built :
      (st : WordPressStatus K) (v : C.World)
      → Still 0 v
      → (d : Secret K) × ((build_mysql_secret C.read_random (with_status w st) v).0 ≡ done d)
        × (object_key d.metadata ≡ (child w secret (db_secret_name w)).1)
  unfolding build_mysql_secret mysql_secret db_secret_name
  secret_built st v still =
      let (root, e) = generated v still in
      let (user, e') =
        generated (generate_password C.read_random v).1
          (generate_password-Still C (Still 0) (bare.stays 0) v still) in
      (mysql_secret (with_status w st) root user, ground arith, refl)

  parsed :
      (field size : String) (q : K.Quantity)
      → K.parse_quantity size ≡ inl q
      → parse_size {K = K} field size ≡ done q
  unfolding parse_size
  parsed field size q e = ground arith

  pub stateful_set_built :
      (st : WordPressStatus K)
      → (i : InternalDatabaseSpec K) → w.spec.database.internal ≡ some i
      → (d : StatefulSet K) × (build_mysql_stateful_set (with_status w st) ≡ done d)
        × (object_key d.metadata ≡ (child w stateful_set (db_stateful_set_name w)).1)
  unfolding build_mysql_stateful_set mysql_stateful_set db_stateful_set_name
  stateful_set_built st i there =
      let (q, e) = bare.data_size i there in
      (
        mysql_stateful_set (with_status w st) i q,
        simp (there, parsed "database.internal.storageSize" _ q e) refl,
        refl,
      )

  pub pvc_built :
      (st : WordPressStatus K)
      → (d : PersistentVolumeClaim K) × (build_wordpress_pvc (with_status w st) ≡ done d)
        × (object_key d.metadata ≡ (child w claim (wp_pvc_name w)).1)
  unfolding build_wordpress_pvc wp_pvc_name
  pvc_built st =
      let (q, e) = bare.content_size in rw (parsed "persistence.size" _ q e) (_, refl, refl)

  pub host_resolved :
      (st : WordPressStatus K)
      → HasDatabase w.spec.database
      → (r : String × ℤ) × (resolved_db_host (with_status w st) ≡ done r)
  unfolding resolved_db_host
  host_resolved st (inl (m, (i, h))) = rw m (_, refl)
  host_resolved st (inr (m, (x, h))) = rw m (rw h (_, refl))

  pub env_found :
      (st : WordPressStatus K)
      → HasDatabase w.spec.database
      → (envs : List (EnvVar K)) × (db_env (with_status w st) ≡ done envs)
  unfolding db_env
  env_found st (inl (m, (i, h))) = rw m (_, refl)
  env_found st (inr (m, (x, h))) = rw m (rw h (_, refl))

  pub external_of :
      HasDatabase w.spec.database
      → w.spec.database.mode == database_mode_external ≡ true
      → (e : ExternalDatabaseSpec) × (w.spec.database.external ≡ some e)
  external_of (inl (m, there)) e =
      let h : "Internal" == "External" ≡ true = subst (λ x. x == "External" ≡ true) m e in
      absurd (true-ne-false (sym h))
  external_of (inr (m, there)) e = there

  pub internal_of :
      HasDatabase w.spec.database
      → w.spec.database.mode == database_mode_external ≡ false
      → (i : InternalDatabaseSpec K) × (w.spec.database.internal ≡ some i)
  internal_of (inl (m, there)) e = there
  internal_of (inr (m, there)) e =
      let h : "External" == "External" ≡ false = subst (λ x. x == "External" ≡ false) m e in
      absurd (true-ne-false h)
