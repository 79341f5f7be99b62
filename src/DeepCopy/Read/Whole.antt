-- ===== src/DeepCopy/Read/Whole.antt =====
-- The values of a status, of an object and of a list of objects.
use mathlib.Core.Option
use operator_wordpress.Base.{Option, List}
use operator_wordpress.Kube.{Kube}
use operator_wordpress.Kube.Meta.{ObjectMeta, Condition}
use operator_wordpress.Api.{WordPressSpec, WordPressStatus, WordPress}
use operator_wordpress.DeepCopy.Heap.{Reference}
use operator_wordpress.DeepCopy.Copier.{Copier, slice, Both, ◌&◌, ◌⊗◌}
use operator_wordpress.DeepCopy.Structs.{
  Types, Library, Cells, SpecStruct, StatusStruct, WordPressStruct, ListStruct,
}
use operator_wordpress.DeepCopy.Copies.{copy_status, copy_wordpress, copy_list}
use operator_wordpress.DeepCopy.Read.Parts.{or_empty}
use operator_wordpress.DeepCopy.Read.Spec.{spec_copier}

-- A whole object, with the kind and version that the other parts leave aside.
pub record TypedWordPress (K : Kube) (T : Types) : Type 0 where
  pub type_meta : T.TypeMeta
  pub object : WordPress K

pub record WordPressList {K : Kube} {T : Types} (L : Library K T) : Type 0 where
  pub type_meta : T.TypeMeta
  pub metadata : L.ListMeta
  pub items : Option (List (TypedWordPress K T))

module _ {K : Kube} {T : Types} {L : Library K T} (C : Cells L) where
  abbrev pub status_split : StatusStruct → Reference
  status_split s = s.conditions

  abbrev pub status_join : StatusStruct → Reference → StatusStruct
  status_join s conditions = record s { conditions = conditions }

  abbrev pub status_value : StatusStruct → Option (List (Condition K)) → WordPressStatus K
  status_value s conditions = record {
    observed_generation = s.observed_generation;
    phase = s.phase;
    url = s.url;
    replicas = s.replicas;
    ready_replicas = s.ready_replicas;
    database_host = s.database_host;
    conditions = or_empty conditions;
  }

  abbrev pub status_fields : Copier L.Cell Reference (Option (List (Condition K)))
  status_fields = slice L.conditions L.condition

  abbrev pub status_copier : Copier L.Cell StatusStruct (WordPressStatus K)
  status_copier = record {
    read = λ h s. Option.map (status_value s) (status_fields.read h (status_split s));
    copy = copy_status C;
  }

  abbrev pub wordpress_split :
      WordPressStruct T → Both T.ObjectMetaStruct (Both (SpecStruct T) StatusStruct)
  wordpress_split s = s.metadata & s.spec & s.status

  abbrev pub wordpress_join :
      WordPressStruct T
      → Both T.ObjectMetaStruct (Both (SpecStruct T) StatusStruct)
      → WordPressStruct T
  wordpress_join s (metadata & spec & status) = record s {
    metadata = metadata;
    spec = spec;
    status = status;
  }

  abbrev pub wordpress_value :
      WordPressStruct T
      → Both (ObjectMeta K) (Both (WordPressSpec K) (WordPressStatus K))
      → TypedWordPress K T
  wordpress_value s (metadata & spec & status) = record {
    type_meta = s.type_meta;
    object = record { metadata = metadata; spec = spec; status = status };
  }

  abbrev pub wordpress_fields :
      Copier L.Cell
        (Both T.ObjectMetaStruct (Both (SpecStruct T) StatusStruct))
        (Both (ObjectMeta K) (Both (WordPressSpec K) (WordPressStatus K)))
  wordpress_fields = L.object_meta ⊗ spec_copier C ⊗ status_copier

  abbrev pub wordpress_copier : Copier L.Cell (WordPressStruct T) (TypedWordPress K T)
  wordpress_copier = record {
    read = λ h s. Option.map (wordpress_value s) (wordpress_fields.read h (wordpress_split s));
    copy = copy_wordpress C;
  }

  abbrev pub list_split : ListStruct T → Both T.ListMetaStruct Reference
  list_split s = s.metadata & s.items

  abbrev pub list_join : ListStruct T → Both T.ListMetaStruct Reference → ListStruct T
  list_join s (metadata & items) = record s { metadata = metadata; items = items }

  abbrev pub list_value :
      ListStruct T → Both L.ListMeta (Option (List (TypedWordPress K T))) → WordPressList L
  list_value s (metadata & items) = record {
    type_meta = s.type_meta;
    metadata = metadata;
    items = items;
  }

  abbrev pub list_fields :
      Copier L.Cell
        (Both T.ListMetaStruct Reference)
        (Both L.ListMeta (Option (List (TypedWordPress K T))))
  list_fields = L.list_meta ⊗ slice C.wordpresses wordpress_copier

  abbrev pub list_copier : Copier L.Cell (ListStruct T) (WordPressList L)
  list_copier = record {
    read = λ h s. Option.map (list_value s) (list_fields.read h (list_split s));
    copy = copy_list C;
  }
