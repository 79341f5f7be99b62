-- ===== src/DeepCopy/Copies.antt =====
-- The methods DeepCopyInto. Each begins with `*out = *in`: what it returns is `src` but for the
-- fields that the following statements make anew, in their order. The struct at `out` and the
-- one at `in` are distinct, so nothing that is read is overwritten.
use operator_wordpress.Kube.{Kube}
use operator_wordpress.Api.{SecretKeyRef, ExternalDatabaseSpec, AutoscalingSpec}
use operator_wordpress.DeepCopy.Heap.{M, pure, ◌>>=◌}
use operator_wordpress.DeepCopy.Copier.{copy_pointer, copy_slice, copy_map}
use operator_wordpress.DeepCopy.Structs.{
  Types, Library, Cells, IngressStruct, ServiceStruct, PersistenceStruct, DatabaseStruct,
  InternalDatabaseStruct, SpecStruct, StatusStruct, WordPressStruct, ListStruct,
}

module _ {K : Kube} {T : Types} {L : Library K T} (C : Cells L) where
  unfoldable pub copy_autoscaling : AutoscalingSpec → M L.Cell AutoscalingSpec
  copy_autoscaling src = pure src

  unfoldable pub copy_secret_key_ref : SecretKeyRef → M L.Cell SecretKeyRef
  copy_secret_key_ref src = pure src

  -- The second statement copies the reference to the Secret once more.
  unfoldable pub copy_external : ExternalDatabaseSpec → M L.Cell ExternalDatabaseSpec
  copy_external src = pure (record src { password_secret = src.password_secret })

  unfoldable pub copy_ingress : IngressStruct → M L.Cell IngressStruct
  copy_ingress src = do
    ingress_class_name ← copy_pointer L.string pure src.ingress_class_name
    annotations ← copy_map L.entries src.annotations
    pure (record src { ingress_class_name = ingress_class_name; annotations = annotations })

  unfoldable pub copy_service : ServiceStruct → M L.Cell ServiceStruct
  copy_service src = do
    annotations ← copy_map L.entries src.annotations
    pure (record src { annotations = annotations })

  unfoldable pub copy_persistence : PersistenceStruct → M L.Cell PersistenceStruct
  copy_persistence src = do
    storage_class_name ← copy_pointer L.string pure src.storage_class_name
    access_modes ← copy_slice L.access_modes pure src.access_modes
    pure (record src { storage_class_name = storage_class_name; access_modes = access_modes })

  unfoldable pub copy_internal : InternalDatabaseStruct T → M L.Cell (InternalDatabaseStruct T)
  copy_internal src = do
    storage_class_name ← copy_pointer L.string pure src.storage_class_name
    resources ← L.resources.copy src.resources
    root_password_secret ← copy_pointer C.secret_key_ref pure src.root_password_secret
    node_selector ← copy_map L.entries src.node_selector
    tolerations ← copy_slice L.tolerations L.toleration.copy src.tolerations
    affinity ← copy_pointer L.affinity_cell L.affinity.copy src.affinity
    pure (record src {
      storage_class_name = storage_class_name;
      resources = resources;
      root_password_secret = root_password_secret;
      node_selector = node_selector;
      tolerations = tolerations;
      affinity = affinity;
    })

  unfoldable pub copy_database : DatabaseStruct → M L.Cell DatabaseStruct
  unfolding copy_internal
  copy_database src = do
    internal ← copy_pointer C.internal copy_internal src.internal
    external ← copy_pointer C.external pure src.external
    pure (record src { internal = internal; external = external })

  unfoldable pub copy_spec : SpecStruct T → M L.Cell (SpecStruct T)
  unfolding copy_database copy_service copy_ingress copy_persistence
  copy_spec src = do
    image_pull_secrets ← copy_slice L.references pure src.image_pull_secrets
    replicas ← copy_pointer L.int32 pure src.replicas
    resources ← L.resources.copy src.resources
    env ← copy_slice L.env_vars L.env_var.copy src.env
    database ← copy_database src.database
    service ← copy_service src.service
    ingress ← copy_ingress src.ingress
    persistence ← copy_persistence src.persistence
    pod_annotations ← copy_map L.entries src.pod_annotations
    pod_labels ← copy_map L.entries src.pod_labels
    node_selector ← copy_map L.entries src.node_selector
    tolerations ← copy_slice L.tolerations L.toleration.copy src.tolerations
    affinity ← copy_pointer L.affinity_cell L.affinity.copy src.affinity
    max_unavailable ← copy_pointer L.int_or_string pure src.max_unavailable
    max_surge ← copy_pointer L.int_or_string pure src.max_surge
    pure (record src {
      image_pull_secrets = image_pull_secrets;
      replicas = replicas;
      resources = resources;
      env = env;
      database = database;
      service = service;
      ingress = ingress;
      persistence = persistence;
      autoscaling = src.autoscaling;
      pod_annotations = pod_annotations;
      pod_labels = pod_labels;
      node_selector = node_selector;
      tolerations = tolerations;
      affinity = affinity;
      max_unavailable = max_unavailable;
      max_surge = max_surge;
    })

  unfoldable pub copy_status : StatusStruct → M L.Cell StatusStruct
  copy_status src = do
    conditions ← copy_slice L.conditions L.condition.copy src.conditions
    pure (record src { conditions = conditions })

  unfoldable pub copy_wordpress : WordPressStruct T → M L.Cell (WordPressStruct T)
  unfolding copy_spec copy_status
  copy_wordpress src = do
    metadata ← L.object_meta.copy src.metadata
    spec ← copy_spec src.spec
    status ← copy_status src.status
    pure (record src {
      type_meta = src.type_meta;
      metadata = metadata;
      spec = spec;
      status = status;
    })

  unfoldable pub copy_list : ListStruct T → M L.Cell (ListStruct T)
  unfolding copy_wordpress
  copy_list src = do
    metadata ← L.list_meta.copy src.metadata
    items ← copy_slice C.wordpresses copy_wordpress src.items
    pure (record src { type_meta = src.type_meta; metadata = metadata; items = items })
