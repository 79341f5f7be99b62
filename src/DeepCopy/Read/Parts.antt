-- ===== src/DeepCopy/Read/Parts.antt =====
-- The values of the parts of a spec. For each struct: its fields that are not copied by the
-- assignment, the struct with those replaced, its value, and the two together as a copier. A slice
-- that is nil reads as an empty one where Api has a list.
use mathlib.Core.Option
use operator_wordpress.Base.{String, Option, none, some, List, []}
use operator_wordpress.Base.StringMap.{StringMap}
use operator_wordpress.Kube.{Kube}
use operator_wordpress.Api.{
  SecretKeyRef, ExternalDatabaseSpec, IngressConfig, ServiceConfig, PersistenceSpec, DatabaseSpec,
  InternalDatabaseSpec,
}
use operator_wordpress.DeepCopy.Heap.{Reference}
use operator_wordpress.DeepCopy.Copier.{Copier, flat, pointer, slice, string_map, Both, ◌&◌, ◌⊗◌}
use operator_wordpress.DeepCopy.Structs.{
  Types, Library, Cells, IngressStruct, ServiceStruct, PersistenceStruct, DatabaseStruct,
  InternalDatabaseStruct,
}
use operator_wordpress.DeepCopy.Copies.{
  copy_ingress, copy_service, copy_persistence, copy_internal, copy_database,
}

abbrev pub or_empty : {A : Type 0} → Option (List A) → List A
or_empty none = []
or_empty (some xs) = xs

module _ {K : Kube} {T : Types} {L : Library K T} (C : Cells L) where
  abbrev pub ingress_split : IngressStruct → Both Reference Reference
  ingress_split s = s.ingress_class_name & s.annotations

  abbrev pub ingress_join : IngressStruct → Both Reference Reference → IngressStruct
  ingress_join s (ingress_class_name & annotations) = record s {
    ingress_class_name = ingress_class_name;
    annotations = annotations;
  }

  abbrev pub ingress_value : IngressStruct → Both (Option String) StringMap → IngressConfig
  ingress_value s (ingress_class_name & annotations) = record {
    enabled = s.enabled;
    ingress_class_name = ingress_class_name;
    host = s.host;
    tls_secret_name = s.tls_secret_name;
    annotations = annotations;
  }

  abbrev pub ingress_fields :
      Copier L.Cell (Both Reference Reference) (Both (Option String) StringMap)
  ingress_fields = pointer L.string flat ⊗ string_map L.entries

  abbrev pub ingress_copier : Copier L.Cell IngressStruct IngressConfig
  ingress_copier = record {
    read = λ h s. Option.map (ingress_value s) (ingress_fields.read h (ingress_split s));
    copy = copy_ingress C;
  }

  abbrev pub service_split : ServiceStruct → Reference
  service_split s = s.annotations

  abbrev pub service_join : ServiceStruct → Reference → ServiceStruct
  service_join s annotations = record s { annotations = annotations }

  abbrev pub service_value : ServiceStruct → StringMap → ServiceConfig
  service_value s annotations = record {
    type = s.type;
    port = s.port;
    node_port = s.node_port;
    annotations = annotations;
  }

  abbrev pub service_fields : Copier L.Cell Reference StringMap
  service_fields = string_map L.entries

  abbrev pub service_copier : Copier L.Cell ServiceStruct ServiceConfig
  service_copier = record {
    read = λ h s. Option.map (service_value s) (service_fields.read h (service_split s));
    copy = copy_service C;
  }

  abbrev pub persistence_split : PersistenceStruct → Both Reference Reference
  persistence_split s = s.storage_class_name & s.access_modes

  abbrev pub persistence_join : PersistenceStruct → Both Reference Reference → PersistenceStruct
  persistence_join s (storage_class_name & access_modes) = record s {
    storage_class_name = storage_class_name;
    access_modes = access_modes;
  }

  abbrev pub persistence_value :
      PersistenceStruct → Both (Option String) (Option (List String)) → PersistenceSpec
  persistence_value s (storage_class_name & access_modes) = record {
    enabled = s.enabled;
    size = s.size;
    storage_class_name = storage_class_name;
    access_modes = or_empty access_modes;
  }

  abbrev pub persistence_fields :
      Copier L.Cell (Both Reference Reference) (Both (Option String) (Option (List String)))
  persistence_fields = pointer L.string flat ⊗ slice L.access_modes flat

  abbrev pub persistence_copier : Copier L.Cell PersistenceStruct PersistenceSpec
  persistence_copier = record {
    read =
        λ h s. Option.map (persistence_value s) (persistence_fields.read h (persistence_split s));
    copy = copy_persistence C;
  }

  abbrev pub internal_split :
      InternalDatabaseStruct T
      → Both Reference
          (Both T.ResourcesStruct (Both Reference (Both Reference (Both Reference Reference))))
  internal_split s =
      s.storage_class_name & s.resources & s.root_password_secret & s.node_selector & s.tolerations
      & s.affinity

  abbrev pub internal_join :
      InternalDatabaseStruct T
      → Both Reference
          (Both T.ResourcesStruct (Both Reference (Both Reference (Both Reference Reference))))
      → InternalDatabaseStruct T
  internal_join s
        (storage_class_name & resources & root_password_secret & node_selector & tolerations
          & affinity) =
      record s {
        storage_class_name = storage_class_name;
        resources = resources;
        root_password_secret = root_password_secret;
        node_selector = node_selector;
        tolerations = tolerations;
        affinity = affinity;
      }

  abbrev pub internal_value :
      InternalDatabaseStruct T
      → Both (Option String) (
          Both K.Resources (
            Both
              (Option SecretKeyRef)
              (Both StringMap (Both (Option (List L.Toleration)) (Option K.Affinity)))))
      → InternalDatabaseSpec K
  internal_value s
        (storage_class_name & resources & root_password_secret & node_selector & tolerations
          & affinity) =
      record {
        image = s.image;
        image_pull_policy = s.image_pull_policy;
        storage_size = s.storage_size;
        storage_class_name = storage_class_name;
        resources = resources;
        root_password_secret = root_password_secret;
        node_selector = node_selector;
        tolerations = L.tolerations_value tolerations;
        affinity = affinity;
      }

  abbrev pub internal_fields :
      Copier L.Cell
        (Both Reference
          (Both T.ResourcesStruct (Both Reference (Both Reference (Both Reference Reference)))))
        (Both (Option String) (
          Both K.Resources (
            Both
              (Option SecretKeyRef)
              (Both StringMap (Both (Option (List L.Toleration)) (Option K.Affinity))))))
  internal_fields =
      pointer L.string flat
      ⊗ L.resources
      ⊗ pointer C.secret_key_ref flat
      ⊗ string_map L.entries
      ⊗ slice L.tolerations L.toleration
      ⊗ pointer L.affinity_cell L.affinity

  abbrev pub internal_copier : Copier L.Cell (InternalDatabaseStruct T) (InternalDatabaseSpec K)
  internal_copier = record {
    read = λ h s. Option.map (internal_value s) (internal_fields.read h (internal_split s));
    copy = copy_internal C;
  }

  abbrev pub database_split : DatabaseStruct → Both Reference Reference
  database_split s = s.internal & s.external

  abbrev pub database_join : DatabaseStruct → Both Reference Reference → DatabaseStruct
  database_join s (internal & external) = record s { internal = internal; external = external }

  abbrev pub database_value :
      DatabaseStruct
      → Both (Option (InternalDatabaseSpec K)) (Option ExternalDatabaseSpec)
      → DatabaseSpec K
  database_value s (internal & external) = record {
    mode = s.mode;
    name = s.name;
    user = s.user;
    table_prefix = s.table_prefix;
    internal = internal;
    external = external;
  }

  abbrev pub database_fields :
      Copier L.Cell
        (Both Reference Reference)
        (Both (Option (InternalDatabaseSpec K)) (Option ExternalDatabaseSpec))
  database_fields = pointer C.internal internal_copier ⊗ pointer C.external flat

  abbrev pub database_copier : Copier L.Cell DatabaseStruct (DatabaseSpec K)
  database_copier = record {
    read = λ h s. Option.map (database_value s) (database_fields.read h (database_split s));
    copy = copy_database C;
  }
