-- ===== src/Validation/Laws.antt =====
-- What `validateSpec` accepts, and what a spec has when it is accepted.
use operator_wordpress.Base.{
  String, ◌≡◌, refl, ◌≢◌, ◌↔◌, true, Option, none, some, arith, eq_iff, ◌==◌, ◌⊎◌, inl, inr,
  Bool-cases, Option-cases,
}
use operator_wordpress.Base.Int.{◌≤ℤ◌, le_iff_not_lt}
use operator_wordpress.Kube.{Kube}
use operator_wordpress.Api.{
  WordPress, WordPressSpec, DatabaseSpec, InternalDatabaseSpec, ExternalDatabaseSpec,
  AutoscalingSpec, IngressConfig, empty_internal,
}
use operator_wordpress.Defaults.{apply_defaults, default_database, default_internal}
use operator_wordpress.Validation.{
  validate_external, validate_autoscaling, validate_ingress, validate_database, validate_spec,
  ◌then_check◌,
}

-- The mode is one of the two, and the part of the spec that it points to is there.
abbrev pub HasDatabase : {K : Kube} → DatabaseSpec K → Type 0
HasDatabase {K} d =
    ((d.mode ≡ "Internal") × ((i : InternalDatabaseSpec K) × (d.internal ≡ some i)))
    ⊎ ((d.mode ≡ "External") × ((e : ExternalDatabaseSpec) × (d.external ≡ some e)))

-- A host and a Secret reference with no empty part.
pub record IsReachable (e : ExternalDatabaseSpec) : Type 0 where
  pub host : e.host ≢ ""
  pub name : e.password_secret.name ≢ ""
  pub key : e.password_secret.key ≢ ""

abbrev pub IsValidDatabase : {K : Kube} → DatabaseSpec K → Type 0
IsValidDatabase d =
    (d.mode ≡ "Internal")
    ⊎ ((d.mode ≡ "External") × ((e : ExternalDatabaseSpec) × (d.external ≡ some e) × IsReachable e))

-- The specs that can be reconciled.
pub record IsValidSpec {K : Kube} (s : WordPressSpec K) : Type 0 where
  pub database : IsValidDatabase s.database
  pub autoscaling :
      s.autoscaling.enabled ≡ true → s.autoscaling.min_replicas ≤ℤ s.autoscaling.max_replicas
  pub ingress : s.ingress.enabled ≡ true → s.ingress.host ≢ ""

validate_external_iff :
    (o : Option ExternalDatabaseSpec)
    → (validate_external o ≡ none) ↔ ((e : ExternalDatabaseSpec) × (o ≡ some e) × IsReachable e)
unfolding validate_external
validate_external_iff none = (λ e. cc, λ (e, h, r). cc)
validate_external_iff (some e) = (
  λ h. (
    e,
    refl,
    record {
      host = λ p. ground (arith, eq_iff e.host "");
      name = λ p. ground (arith, eq_iff e.password_secret.name "");
      key = λ p. ground (arith, eq_iff e.password_secret.key "");
    },
  ),
  λ (x, p, r). ground (
    arith,
    eq_iff e.host "",
    eq_iff e.password_secret.name "",
    eq_iff e.password_secret.key "",
    r.host,
    r.name,
    r.key,
  ),
)

validate_autoscaling_iff :
    (a : AutoscalingSpec)
    → (validate_autoscaling a ≡ none) ↔ (a.enabled ≡ true → a.min_replicas ≤ℤ a.max_replicas)
unfolding validate_autoscaling
validate_autoscaling_iff a = (
  λ h on. ground (arith, le_iff_not_lt a.min_replicas a.max_replicas),
  λ h. ground (arith, le_iff_not_lt a.min_replicas a.max_replicas),
)

validate_ingress_iff :
    (i : IngressConfig) → (validate_ingress i ≡ none) ↔ (i.enabled ≡ true → i.host ≢ "")
unfolding validate_ingress
validate_ingress_iff i =
    (λ h on p. ground (arith, eq_iff i.host ""), λ h. ground (arith, eq_iff i.host ""))

then_check_iff : (a b : Option String) → ((a then_check b) ≡ none) ↔ ((a ≡ none) × (b ≡ none))
then_check_iff none b = (λ h. (refl, h), λ h. h.1)
then_check_iff (some e) b = (λ h. cc, λ h. cc)

external-ne-internal : ◌≢◌ {A = String} "External" "Internal"
external-ne-internal = ground (arith, eq_iff "External" "Internal")

module _ {K : Kube} where
  validate_database-IsValidDatabase :
      (d : DatabaseSpec K) → validate_database d ≡ none → IsValidDatabase d
  unfolding validate_database
  validate_database-IsValidDatabase d h = elim (Bool-cases (d.mode == "External")) [
    | inl ext ↦ inr ((eq_iff _ _).0 ext, (validate_external_iff d.external).0 (rw ext at h))
    | inr other ↦ elim (Bool-cases (d.mode == "Internal")) [
      | inl int ↦ inl ((eq_iff _ _).0 int)
      | inr neither ↦ ground arith
    ]
  ]

  IsValidDatabase-validate_database :
      (d : DatabaseSpec K) → IsValidDatabase d → validate_database d ≡ none
  unfolding validate_database
  IsValidDatabase-validate_database d (inl int) = simp int
  IsValidDatabase-validate_database d (inr (ext, x)) =
      simp ext ((validate_external_iff d.external).1 x)

  -- A spec is accepted exactly when it is valid: its mode is Internal, or External with a host and
  -- a Secret reference; an enabled autoscaler has min <= max; an enabled ingress has a host.
  pub validate_spec_iff : (wp : WordPress K) → (validate_spec wp ≡ none) ↔ IsValidSpec wp.spec
  unfolding validate_spec
  validate_spec_iff wp = (
    λ h.
        let (hd, rest) = (then_check_iff (validate_database wp.spec.database) _).0 h in
        let (ha, hi) = (then_check_iff (validate_autoscaling wp.spec.autoscaling) _).0 rest in
        record {
          database = validate_database-IsValidDatabase wp.spec.database hd;
          autoscaling = (validate_autoscaling_iff wp.spec.autoscaling).0 ha;
          ingress = (validate_ingress_iff wp.spec.ingress).0 hi;
        },
    λ v. (then_check_iff _ _).1 (
      IsValidDatabase-validate_database wp.spec.database v.database,
      (then_check_iff _ _).1 (
        (validate_autoscaling_iff wp.spec.autoscaling).1 v.autoscaling,
        (validate_ingress_iff wp.spec.ingress).1 v.ingress,
      ),
    ),
  )

  internal_of_default_database :
      (d : DatabaseSpec K)
      → (default_database d).mode ≡ "Internal"
      → (i : InternalDatabaseSpec K) × ((default_database d).internal ≡ some i)
  unfolding default_database
  internal_of_default_database d h = elim (Option-cases d.internal) [
    | inl absent ↦ (default_internal (empty_internal K), simp (h, absent))
    | inr (i, there) ↦ (default_internal i, simp (h, there))
  ]

  -- An accepted spec with its defaults has the part that its mode points to.
  pub HasDatabase-of_accepted :
      (wp : WordPress K)
      → validate_spec (apply_defaults wp) ≡ none
      → HasDatabase (apply_defaults wp).spec.database
  unfolding apply_defaults
  HasDatabase-of_accepted wp h = elim ((validate_spec_iff (apply_defaults wp)).0 h).database [
    | inl int ↦ inl (int, internal_of_default_database wp.spec.database int)
    | inr (ext, (e, there, r)) ↦ inr (ext, (e, there))
  ]
