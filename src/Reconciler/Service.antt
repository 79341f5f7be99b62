-- ===== src/Reconciler/Service.antt =====
-- internal/controller/wordpress_controller.go: `applyService` and `reconcileWordPressService`.
use operator_wordpress.Base.{◌==◌, if◌then◌else◌, Bool, ◌&&◌, deep_equal}
use operator_wordpress.Base.StringMap.{StringMap-discrete}
use operator_wordpress.Kube.{Kube}
use operator_wordpress.Kube.Meta.{object_key}
use operator_wordpress.Kube.Network.{Service, ServiceSpec-discrete}
use operator_wordpress.Kube.Outcome.{Answer, ok, err, external}
use operator_wordpress.Resources.{build_wordpress_service}
use operator_wordpress.Cluster.{Cluster, service}
use operator_wordpress.Cluster.Action
use operator_wordpress.Cluster.Action.{Action, pure, fail, check, get_wp, ◌>>=◌, ◌>>◌}

module _ {K : Kube} where
  -- The copy of the existing service with the managed fields overwritten.
  unfoldable pub service_patch : Service K → Service K → Service K
  service_patch existing desired = record existing {
    metadata = record existing.metadata {
      labels = desired.metadata.labels;
      annotations = desired.metadata.annotations;
    };
    spec = record existing.spec {
      type = desired.spec.type;
      selector = desired.spec.selector;
      session_affinity = desired.spec.session_affinity;
      ports = desired.spec.ports;
      cluster_ip = if existing.spec.cluster_ip == "None" then "None" else existing.spec.cluster_ip;
    };
  }

  unfoldable pub service_equal : Service K → Service K → Bool
  service_equal existing patch =
      deep_equal (ServiceSpec-discrete K) existing.spec patch.spec
      && (deep_equal StringMap-discrete existing.metadata.labels patch.metadata.labels
          && deep_equal StringMap-discrete existing.metadata.annotations patch.metadata.annotations)

module _ {K : Kube} (C : Cluster K) where
  -- What follows the `Get`.
  unfoldable pub apply_service_to : Service K → Answer K (Service K) → Action C (Unit {0})
  unfolding service_patch service_equal
  apply_service_to desired (err e) =
      if K.is_not_found e
      then (do r ← Action.create C service desired; check r)
      else fail (external e)
  apply_service_to desired (ok existing) =
      let patch = service_patch existing desired in
      if service_equal existing patch
      then pure tt
      else (do r ← Action.update C service patch; check r)

  unfoldable pub apply_service : Service K → Action C (Unit {0})
  unfolding apply_service_to
  apply_service desired = do
    found ← Action.get C service (object_key desired.metadata)
    apply_service_to desired found

  unfoldable pub reconcile_wordpress_service : Action C (Unit {0})
  unfolding apply_service
  reconcile_wordpress_service = do
    wp ← get_wp
    let desired = build_wordpress_service wp
    m ← Action.set_controller_reference C desired.metadata
    apply_service (record desired { metadata = m })
