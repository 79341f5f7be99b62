-- ===== src/Defaults/Laws.antt =====
-- What `applyDefaults` fills in.
use operator_wordpress.Base.{
  String, ◌==◌, ◌≡◌, refl, ◌≢◌, true, Option, none, some, List, [], ◌∷◌, arith, eq_iff, Bool-cases,
  Option-cases, inl, inr,
}
use operator_wordpress.Base.Int.{ℤ, pos, eqb_ℤ_iff}
use mathlib.Core.Path.{subst, sym}
use operator_wordpress.Kube.{Kube}
use operator_wordpress.Api.{
  WordPress, WordPressSpec, InternalDatabaseSpec, ExternalDatabaseSpec, DatabaseSpec, ServiceConfig,
  PersistenceSpec, AutoscalingSpec, empty_internal,
}
use operator_wordpress.Defaults.{
  default_string, default_int, default_ptr, default_list, default_service, default_persistence,
  default_autoscaling, default_external, default_internal, default_internal_for,
  default_external_for, default_database, apply_defaults,
}

default_string_idem : (s d : String) → default_string (default_string s d) d ≡ default_string s d
default_string_idem s d = ground arith

default_int_idem : (n d : ℤ) → default_int (default_int n d) d ≡ default_int n d
default_int_idem n d = ground arith

default_ptr_idem :
    {A : Type 0} (o : Option A) (d : A) → default_ptr (default_ptr o d) d ≡ default_ptr o d
default_ptr_idem none d = refl
default_ptr_idem (some a) d = refl

default_list_idem :
    {A : Type 0} (xs d : List A) → default_list (default_list xs d) d ≡ default_list xs d
default_list_idem [] [] = refl
default_list_idem [] (y ∷ ys) = refl
default_list_idem (x ∷ xs) d = refl

default_service_idem : (s : ServiceConfig) → default_service (default_service s) ≡ default_service s
unfolding default_service
default_service_idem s = simp (default_string_idem, default_int_idem)

default_persistence_idem :
    (p : PersistenceSpec) → default_persistence (default_persistence p) ≡ default_persistence p
unfolding default_persistence
default_persistence_idem p = simp (default_string_idem, default_list_idem {A = String})

default_autoscaling_idem :
    (a : AutoscalingSpec) → default_autoscaling (default_autoscaling a) ≡ default_autoscaling a
unfolding default_autoscaling
default_autoscaling_idem a = elim (Bool-cases a.enabled) [
  | inl on ↦ simp (on, default_int_idem)
  | inr off ↦ simp off
]

default_external_idem :
    (e : ExternalDatabaseSpec) → default_external (default_external e) ≡ default_external e
unfolding default_external
default_external_idem e = simp default_int_idem

module _ {K : Kube} where
  default_internal_idem :
      (i : InternalDatabaseSpec K) → default_internal (default_internal i) ≡ default_internal i
  unfolding default_internal
  default_internal_idem i = simp default_string_idem

  default_internal_for_idem :
      (mode : String) (o : Option (InternalDatabaseSpec K))
      → default_internal_for mode (default_internal_for mode o) ≡ default_internal_for mode o
  unfolding default_internal_for
  default_internal_for_idem mode o = elim (Bool-cases (mode == "Internal")) [
    | inl e ↦ elim (Option-cases o) [
      | inl absent ↦ simp (e, absent, default_internal_idem)
      | inr (i, there) ↦ simp (e, there, default_internal_idem)
    ]
    | inr e ↦ simp e
  ]

default_external_for_idem :
    (mode : String) (o : Option ExternalDatabaseSpec)
    → default_external_for mode (default_external_for mode o) ≡ default_external_for mode o
unfolding default_external_for
default_external_for_idem mode none = refl
default_external_for_idem mode (some e) = elim (Bool-cases (mode == "External")) [
  | inl h ↦ simp (h, default_external_idem)
  | inr h ↦ simp h
]

string_filled : (s d : String) → d ≢ "" → default_string s d ≢ ""
string_filled s d n e = ground (arith, eq_iff s "")

int_filled : (n d : ℤ) → d ≢ pos 0 → default_int n d ≢ pos 0
int_filled n d h e = ground (arith, eqb_ℤ_iff n (pos 0))

ptr_filled : (o : Option ℤ) (d : ℤ) → (n : ℤ) × (default_ptr o d ≡ some n)
ptr_filled none d = (d, refl)
ptr_filled (some n) d = (n, refl)

list_filled : {A : Type 0} (xs : List A) (d : A) (ds : List A) → default_list xs (d ∷ ds) ≢ []
list_filled [] d ds e = cc
list_filled (x ∷ xs) d ds e = cc

default_autoscaling-filled :
    (a : AutoscalingSpec)
    → (default_autoscaling a).enabled ≡ true
    → ((default_autoscaling a).min_replicas ≢ pos 0)
      × ((default_autoscaling a).max_replicas ≢ pos 0)
      × ((default_autoscaling a).target_cpu_utilization_percentage ≢ pos 0)
unfolding default_autoscaling
default_autoscaling-filled a on = elim (Bool-cases a.enabled) [
  | inl e ↦ simp e (
    int_filled a.min_replicas (pos 1) (λ p. ground arith),
    int_filled a.max_replicas (pos 5) (λ p. ground arith),
    int_filled a.target_cpu_utilization_percentage (pos 80) (λ p. ground arith),
  )
  | inr e ↦ absurd (ground arith)
]

some_at : {A : Type 0} {x y : A} → some x ≡ some y → x ≡ y
some_at {x = x} {y} e = cc

default_external_for-filled :
    (mode : String) (o : Option ExternalDatabaseSpec)
    → mode ≡ "External"
    → (e : ExternalDatabaseSpec) → default_external_for mode o ≡ some e
    → e.port ≢ pos 0
unfolding default_external_for default_external
default_external_for-filled mode none m e h p = cc
default_external_for-filled mode (some x) m e h p =
    int_filled x.port (pos 3306) (λ e. ground arith)
      (subst (λ e. e.port ≡ pos 0) (sym (some_at (simp m at h))) p)

module _ {K : Kube} where
  default_database_idem :
      (d : DatabaseSpec K) → default_database (default_database d) ≡ default_database d
  unfolding default_database
  default_database_idem d =
      simp (default_string_idem, default_internal_for_idem {K = K}, default_external_for_idem)

  -- Applying the defaults a second time changes nothing.
  pub apply_defaults_idem :
      (wp : WordPress K) → apply_defaults (apply_defaults wp) ≡ apply_defaults wp
  unfolding apply_defaults
  apply_defaults_idem wp = simp (
    default_string_idem, default_ptr_idem, default_service_idem, default_persistence_idem,
    default_database_idem, default_autoscaling_idem,
  )

  -- Every setting that has a default has a value: those of autoscaling when it is on, those of the
  -- internal database in mode Internal, and the port of an external one in mode External.
  pub record HasDefaults (s : WordPressSpec K) : Type 0 where
    pub image : s.image ≢ ""
    pub image_pull_policy : s.image_pull_policy ≢ ""
    pub replicas : (n : ℤ) × (s.replicas ≡ some n)
    pub service_type : s.service.type ≢ ""
    pub service_port : s.service.port ≢ pos 0
    pub persistence_size : s.persistence.size ≢ ""
    pub access_modes : s.persistence.access_modes ≢ []
    pub database_mode : s.database.mode ≢ ""
    pub database_name : s.database.name ≢ ""
    pub database_user : s.database.user ≢ ""
    pub table_prefix : s.database.table_prefix ≢ ""
    pub autoscaling :
        s.autoscaling.enabled ≡ true
        → (s.autoscaling.min_replicas ≢ pos 0)
          × (s.autoscaling.max_replicas ≢ pos 0)
          × (s.autoscaling.target_cpu_utilization_percentage ≢ pos 0)
    pub internal :
        s.database.mode ≡ "Internal"
        → (i : InternalDatabaseSpec K) × (s.database.internal ≡ some i)
          × (i.image ≢ "")
          × (i.image_pull_policy ≢ "")
          × (i.storage_size ≢ "")
    pub external :
        s.database.mode ≡ "External"
        → (e : ExternalDatabaseSpec) → s.database.external ≡ some e
        → e.port ≢ pos 0

  default_internal-filled :
      (i : InternalDatabaseSpec K)
      → ((default_internal i).image ≢ "")
        × ((default_internal i).image_pull_policy ≢ "")
        × ((default_internal i).storage_size ≢ "")
  unfolding default_internal
  default_internal-filled i = (
    string_filled i.image "mysql:8.0" (λ e. cc),
    string_filled i.image_pull_policy "IfNotPresent" (λ e. cc),
    string_filled i.storage_size "5Gi" (λ e. cc),
  )

  default_internal_for-filled :
      (mode : String) (o : Option (InternalDatabaseSpec K))
      → mode ≡ "Internal"
      → (i : InternalDatabaseSpec K) × (default_internal_for mode o ≡ some i)
        × (i.image ≢ "")
        × (i.image_pull_policy ≢ "")
        × (i.storage_size ≢ "")
  unfolding default_internal_for
  default_internal_for-filled mode none m =
      let (a, b, c) = default_internal-filled (empty_internal K) in
      (default_internal (empty_internal K), simp m, a, b, c)
  default_internal_for-filled mode (some i) m =
      let (a, b, c) = default_internal-filled i in (default_internal i, simp m, a, b, c)

  -- After the defaults every setting that applyDefaults has a default for is filled in: the images
  -- and their pull policies, the number of replicas, type and port of the Service, size and access
  -- modes of the claim, and mode, names and table prefix of the database; the bounds and the target
  -- of autoscaling when it is on; image, pull policy and storage size of the internal database,
  -- which is there, in mode Internal; the port of the external one, if there, in mode External.
  pub apply_defaults-HasDefaults : (wp : WordPress K) → HasDefaults (apply_defaults wp).spec
  unfolding apply_defaults default_service default_persistence default_database
  apply_defaults-HasDefaults wp =
      let d = wp.spec.database in
      record {
        image = string_filled wp.spec.image "wordpress:6.5-apache" (λ e. cc);
        image_pull_policy = string_filled wp.spec.image_pull_policy "IfNotPresent" (λ e. cc);
        replicas = ptr_filled wp.spec.replicas (pos 1);
        service_type = string_filled wp.spec.service.type "ClusterIP" (λ e. cc);
        service_port = int_filled wp.spec.service.port (pos 80) (λ e. ground arith);
        persistence_size = string_filled wp.spec.persistence.size "5Gi" (λ e. cc);
        access_modes = list_filled wp.spec.persistence.access_modes _ [];
        database_mode = string_filled d.mode "Internal" (λ e. cc);
        database_name = string_filled d.name "wordpress" (λ e. cc);
        database_user = string_filled d.user "wordpress" (λ e. cc);
        table_prefix = string_filled d.table_prefix "wp_" (λ e. cc);
        autoscaling = default_autoscaling-filled wp.spec.autoscaling;
        internal = λ m. default_internal_for-filled _ d.internal m;
        external = λ m e h. default_external_for-filled _ d.external m e h;
      }
