-- ===== src/Reconciler/Calls.antt =====
-- Which writes a pass over a live, valid object may send, and the proofs for each step.
use operator_wordpress.Base.{◌≡◌, ◌∙◌, ap, true, false}
use operator_wordpress.Kube.{Kube}
use operator_wordpress.Kube.Meta.{ObjectMeta}
use operator_wordpress.Kube.Outcome.{ok}
use operator_wordpress.Api.{WordPress, WordPressSpec, WordPressStatus}
use operator_wordpress.Validation.Laws.{HasDatabase}
use operator_wordpress.Cluster.{
  Cluster, Kind, wordpress, secret, service, stateful_set, deployment, claim, ingress, autoscaler,
  metadata_of,
}
use operator_wordpress.Cluster.Action.{Call, created, updated, deleted, status_updated}
use operator_wordpress.Cluster.Lawful.{Owns}

-- The kinds of objects that a spec asks for.
abbrev pub Wanted : {K : Kube} → WordPressSpec K → Kind → Type 0
Wanted sp wordpress = ⊥
Wanted sp secret = sp.database.mode ≡ "Internal"
Wanted sp stateful_set = sp.database.mode ≡ "Internal"
Wanted sp service = Unit
Wanted sp deployment = Unit
Wanted sp claim = sp.persistence.enabled ≡ true
Wanted sp ingress = sp.ingress.enabled ≡ true
Wanted sp autoscaler = sp.autoscaling.enabled ≡ true

-- The spec and the metadata of the object in memory are those of `w`.
pub record Same {K : Kube} (w wp : WordPress K) : Type 0 where
  pub metadata : wp.metadata ≡ w.metadata
  pub spec : wp.spec ≡ w.spec

module _ {K : Kube} (C : Cluster K) (w : WordPress K) where
  -- Controlled by `w`, in its namespace.
  abbrev pub Owned : ObjectMeta K → Type 0
  Owned m = (C.is_controlled_by m w.metadata ≡ true) × (m.namespace ≡ w.metadata.namespace)

  -- An object is created only if the spec asks for its kind, and then it is owned. Secrets and
  -- claims are never updated. An ingress or an autoscaler is deleted only if the spec does not ask
  -- for it and `w` controls it; nothing else is deleted. The object itself is not written.
  abbrev pub Permitted : Call K → Type 0
  Permitted (created k o) = Wanted w.spec k × Owned (metadata_of k o)
  Permitted (updated wordpress o) = ⊥
  Permitted (updated secret o) = ⊥
  Permitted (updated claim o) = ⊥
  Permitted (updated service o) = Unit
  Permitted (updated stateful_set o) = w.spec.database.mode ≡ "Internal"
  Permitted (updated deployment o) = Unit
  Permitted (updated ingress o) = w.spec.ingress.enabled ≡ true
  Permitted (updated autoscaler o) = w.spec.autoscaling.enabled ≡ true
  Permitted (deleted wordpress o) = ⊥
  Permitted (deleted secret o) = ⊥
  Permitted (deleted claim o) = ⊥
  Permitted (deleted service o) = ⊥
  Permitted (deleted stateful_set o) = ⊥
  Permitted (deleted deployment o) = ⊥
  Permitted (deleted ingress o) =
      (w.spec.ingress.enabled ≡ false) × (C.is_controlled_by o.metadata w.metadata ≡ true)
  Permitted (deleted autoscaler o) =
      (w.spec.autoscaling.enabled ≡ false) × (C.is_controlled_by o.metadata w.metadata ≡ true)
  Permitted (status_updated o) = Unit

  pub Same-status :
      (wp : WordPress K) (st : WordPressStatus K) → Same w wp → Same w (record wp { status = st })
  Same-status wp st h = record { metadata = h.metadata; spec = h.spec }

  pub Owned-of_own :
      Owns C
      → (wp : WordPress K) (m m' : ObjectMeta K) → Same w wp
      → m.namespace ≡ w.metadata.namespace
      → C.set_controller_reference wp.metadata m ≡ ok m'
      → Owned m'
  Owned-of_own own wp m m' same here e = (
    rw (← same.metadata) (own.controlled _ m m' e),
    ap (λ (x : ObjectMeta K). x.namespace) (own.same _ m m' e) ∙ here,
  )

  pub Same-namespace : (wp : WordPress K) → Same w wp → wp.metadata.namespace ≡ w.metadata.namespace
  Same-namespace wp same = ap (λ (x : ObjectMeta K). x.namespace) same.metadata

  pub Same-HasDatabase :
      HasDatabase w.spec.database → (wp : WordPress K) → Same w wp → HasDatabase wp.spec.database
  Same-HasDatabase ready wp same = rw same.spec ready
